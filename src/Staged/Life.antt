-- ===== src/Staged/Life.antt =====
-- One upload id over its life, through the calls of requests/file/staged_upload.rs.
use citadel_agent.Prelude.{
  ℕ, ◌≡◌, Bool, true, false, Option, none, some, List, [], ◌∷◌, ◌++◌, ◌==◌, if◌then◌else◌, length,
}
use citadel_agent.Assoc.{get}
use citadel_agent.Staged.{
  ChunkPlan, start, append, refuse, Staging, begin_chunk, create_upload, pick, finish_start,
  end_chunk, take_complete, disconnect, connect,
}

-- The session's state, with the file of one of its uploads, the chunk that is being written to it,
-- and the first chunks of the uploads that are created under its id and not yet in the table.
pub record Life : Type 0 where
  pub staging : Staging
  pub file : List ℕ
  pub pending : Option (List ℕ)
  pub fresh : List (List ℕ)

-- How the creation of an upload on disk goes: its directory, what the root holds, whether it
-- succeeds.
pub record Disk : Type 0 where
  pub dir : ℕ
  pub on_disk : ℕ
  pub made : Bool

-- What happens to uploads of that id: a chunk arrives, with its declared size, and a first chunk is
-- put on disk; an upload that is on disk is put into the table; the write of a chunk ends, well or
-- not; the upload is taken for sending; the session ends, and comes back.
pub data Turn : Type 0 where
  sends : ℕ → ℕ → List ℕ → ℕ → Disk → Turn
  begun : ℕ → ℕ → Turn
  written : Bool → Turn
  sent lost back : Turn

abbrev pub created : Life → List ℕ → Staging × Bool → Life
created l data_bytes (s, true) = record l { staging = s; fresh = data_bytes ∷ l.fresh }
created l data_bytes (s, false) = record l { staging = s }

abbrev pub planned : Life → ℕ → List ℕ → ℕ → Disk → Staging × ChunkPlan → Life
planned l id data_bytes total d (s, append) = record l { staging = s; pending = some data_bytes }
planned l id data_bytes total d (s, start) =
    created l data_bytes (create_upload s id d.dir total (length data_bytes) d.on_disk d.made)
planned l id data_bytes total d (s, refuse r) = record l { staging = s }

abbrev pub inserted : Life → Option (List ℕ × List (List ℕ)) → Staging × Bool → Life
inserted l none (s, ok) = record l { staging = s }
inserted l (some (bytes, others)) (s, ok) = record l {
  staging = s;
  fresh = others;
  file = if ok then bytes else l.file;
}

abbrev pub finished : Life → ℕ → Bool → Option (List ℕ) → Life
finished l id ok none = l
finished l id ok (some bytes) = record l {
  staging = (end_chunk l.staging id (length bytes) ok).0;
  file = if ok then l.file ++ bytes else l.file;
  pending = none;
}

unfoldable pub turn : Life → ℕ → Turn → Life
turn l id (sends now offset bytes total d) =
    planned l id bytes total d (begin_chunk l.staging now id offset (length bytes) total)
turn l id (begun k now) = inserted l (pick k l.fresh) (finish_start l.staging k now)
turn l id (written ok) = finished l id ok l.pending
turn l id sent = record l { staging = (take_complete l.staging id).0 }
turn l id lost = record l { staging = disconnect l.staging }
turn l id back = record l { staging = connect l.staging }

unfoldable pub turns : Life → ℕ → List Turn → Life
turns l id [] = l
turns l id (t ∷ ts) = turns (turn l id t) id ts

-- A new session, whatever the service has reserved elsewhere.
abbrev pub new_session : ℕ → ℕ → Life
new_session in_flight elsewhere = record {
  staging = record {
    connected = true;
    uploads = [];
    in_flight = in_flight;
    created = [];
    elsewhere = elsewhere;
  };
  file = [];
  pending = none;
  fresh = [];
}

-- No upload comes to stand under the id while a chunk of one that is gone is still being written.
abbrev pub IsQuiet : Life → ℕ → Turn → Type 0
IsQuiet l id (begun k now) = get ◌==◌ id l.staging.uploads ≡ none → l.pending ≡ none
IsQuiet l id t = Unit

unfoldable pub AreQuiet : Life → ℕ → List Turn → Type 0
AreQuiet l id [] = Unit
AreQuiet l id (t ∷ ts) = IsQuiet l id t × AreQuiet (turn l id t) id ts
