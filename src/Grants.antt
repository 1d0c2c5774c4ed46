-- ===== src/Grants.antt =====
-- kernel/apps/net/grants.rs: what the server last said each install may reach, and the questions
-- that wait for an answer, by the calls that take the lock. An install and a grant are numbers that
-- name them, an instant a number of milliseconds.
pub mod Told
mod Tests
use citadel_agent.Prelude.{
  ℕ, zero, suc, ◌+◌, ◌-◌, ◌*◌, ◌%◌, ◌^◌, Bool, true, false, not, ◌&&◌, ◌||◌, Option, none, some,
  is_some_and, List, [], ◌∷◌, ltb, ◌==◌, if◌then◌else◌, any,
}
use citadel_agent.Assoc.{get, set, drop}

abbrev pub grant_ttl_ms : ℕ
grant_ttl_ms = 60000

-- A session and an install.
abbrev pub Key : Type 0
Key = ℕ × ℕ

abbrev pub same_key : Key → Key → Bool
same_key (c, i) (d, j) = c == d && i == j

-- The server's word, none being its refusal, and when it came.
abbrev pub Word : Type 0
Word = Option ℕ × ℕ

pub record Pending : Type 0 where
  pub cid : ℕ
  pub install_id : ℕ

pub record State : Type 0 where
  pub entries : List (Key × Word)
  pub pending : List (ℕ × Pending)
  pub down : List ℕ
  pub next_tag : ℕ

abbrev pub retain_others : ℕ → List (Key × Word) → List (Key × Word)
retain_others cid [] = []
retain_others cid (((owner, i), w) ∷ es) =
    let kept = retain_others cid es in if owner == cid then kept else ((owner, i), w) ∷ kept

abbrev pub abandon : ℕ → List (ℕ × Pending) → List (ℕ × Pending)
abandon cid [] = []
abandon cid ((tag, p) ∷ ps) =
    let kept = abandon cid ps in if p.cid == cid then kept else (tag, p) ∷ kept

abbrev pub forget : ℕ → State → State
forget cid s = record s { entries = retain_others cid s.entries; pending = abandon cid s.pending }

abbrev pub is_down : ℕ → List ℕ → Bool
is_down cid = any (λ d. d == cid)

abbrev pub without : ℕ → List ℕ → List ℕ
without cid [] = []
without cid (d ∷ ds) = let kept = without cid ds in if d == cid then kept else d ∷ kept

-- What `resolve` does under the lock: it refuses, answers from memory, or asks under a tag.
pub data Resolved : Type 0 where
  link_is_down : Resolved
  remembered : Option ℕ → Resolved
  asked : ℕ → Resolved

abbrev pub ask : ℕ → ℕ → State → State × Resolved
ask cid install s = (
  record s {
    next_tag = (s.next_tag + 1) % 2 ^ 64;
    pending = set ◌==◌ s.next_tag (record { cid = cid; install_id = install }) s.pending;
  },
  asked s.next_tag,
)

abbrev pub from_memory : ℕ → ℕ → ℕ → State → Option Word → State × Resolved
from_memory now cid install s none = ask cid install s
from_memory now cid install s (some (grant, at)) =
    if ltb (now - at) grant_ttl_ms then (s, remembered grant) else ask cid install s

unfoldable pub resolve : ℕ → ℕ → ℕ → State → State × Resolved
resolve now cid install s =
    if is_down cid s.down
    then (s, link_is_down)
    else from_memory now cid install s (get same_key (cid, install) s.entries)

-- What a frame means for host egress.
pub data Signal : Type 0 where
  unrelated installs_changed : Signal
  grants : ℕ → ℕ → Option ℕ → Signal

abbrev pub is_ours : ℕ → ℕ → Pending → Bool
is_ours cid install p = p.cid == cid && p.install_id == install

-- The state, and whether the frame goes on to the windows.
unfoldable pub on_server_frame : ℕ → ℕ → Signal → State → State × Bool
on_server_frame now cid unrelated s = (s, true)
on_server_frame now cid installs_changed s =
    (record s { entries = retain_others cid s.entries }, true)
on_server_frame now cid (grants install tag grant) s =
    if is_some_and (is_ours cid install) (get ◌==◌ tag s.pending)
    then (
      record s {
        pending = drop ◌==◌ tag s.pending;
        entries = set same_key (cid, install) (grant, now) s.entries;
      },
      false,
    )
    else (s, true)

-- The calls that take the lock; `gives_up` is the end of a question that was not sent or not
-- answered in time.
pub data Step : Type 0 where
  resolves : ℕ → ℕ → ℕ → Step
  gives_up : ℕ → Step
  hears : ℕ → ℕ → Signal → Step
  link_up link_down session_ended : ℕ → Step

unfoldable pub after : State → Step → State
after s (resolves now cid install) = (resolve now cid install s).0
after s (gives_up tag) = record s { pending = drop ◌==◌ tag s.pending }
after s (hears now cid signal) = (on_server_frame now cid signal s).0
after s (link_up cid) = record (forget cid s) { down = without cid s.down }
after s (link_down cid) = record (forget cid s) { down = cid ∷ without cid s.down }
after s (session_ended cid) = record (forget cid s) { down = without cid s.down }

-- The steps so far, the latest first.
unfoldable pub state_after : State → List Step → State
state_after s [] = s
state_after s (step ∷ earlier) = after (state_after s earlier) step
