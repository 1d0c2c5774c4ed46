-- ===== src/Grants/Told.antt =====
-- What is answered from memory is what the server said (kernel/apps/net/grants.rs).
use citadel_agent.Prelude.{
  ℕ, ◌-◌, ◌<◌, ◌≡◌, ◌⊎◌, refl, sym, ap, subst, ◌∙◌, inl, inr, Bool, true, false, Bool-cases, Option,
  none, some, is_some_and, List, [], ◌∷◌, ltb, ◌==◌, if◌then◌else◌, if_cases, if_known, All,
  All-mono, arith, ==→eq, ltb→lt, &&→both,
}
use citadel_agent.Assoc.{get, set-All, get-All}
use citadel_agent.Grants.{
  grant_ttl_ms, Key, same_key, Word, State, retain_others, is_down, without, Resolved, link_is_down,
  remembered, asked, from_memory, resolve, Signal, unrelated, installs_changed, grants, is_ours,
  on_server_frame, Step, resolves, gives_up, hears, link_up, link_down, session_ended, after,
  state_after,
}

abbrev pub fresh : State
fresh = record { entries = []; pending = []; down = []; next_tag = 0 }

-- That step is the server saying so, over that session, at that time.
abbrev pub Says : ℕ → ℕ → Word → Step → Type 0
Says cid install w (hears now c (grants i tag grant)) =
    ((c ≡ cid) × (i ≡ install)) × ((grant, now) ≡ w)
Says cid install w _ = ⊥

-- That step leaves what is known of the session standing: its installs have not changed, and its
-- link has not gone down or come up, nor has it ended.
abbrev pub Spares : ℕ → Step → Type 0
Spares cid (hears now c installs_changed) = (c == cid) ≡ false
Spares cid (link_up c) = (c == cid) ≡ false
Spares cid (link_down c) = (c == cid) ≡ false
Spares cid (session_ended c) = (c == cid) ≡ false
Spares cid _ = Unit

-- The server said so, and since then nothing happened that takes it back.
abbrev pub Told : ℕ → ℕ → Word → List Step → Type 0
Told cid install w [] = ⊥
Told cid install w (step ∷ earlier) =
    Says cid install w step ⊎ (Spares cid step × Told cid install w earlier)

-- The last word on the session's link.
abbrev pub down_by : ℕ → List Step → Bool
down_by cid [] = false
down_by cid (link_up c ∷ earlier) =
    let before = down_by cid earlier in if c == cid then false else before
down_by cid (link_down c ∷ earlier) =
    let before = down_by cid earlier in if c == cid then true else before
down_by cid (session_ended c ∷ earlier) =
    let before = down_by cid earlier in if c == cid then false else before
down_by cid (_ ∷ earlier) = down_by cid earlier

abbrev ToldOf : List Step → Key × Word → Type 0
ToldOf steps e = Told e.0.0 e.0.1 e.1 steps

same_key_eq : (j k : Key) → same_key j k ≡ true → j ≡ k
same_key_eq (c, i) (d, j) h =
    let (a, b) = &&→both (c == d) (i == j) h in cc (==→eq c d a, ==→eq i j b)

-- What is kept is another session's.
retain-All :
    (P Q : Key × Word → Type 0) (cid : ℕ) (es : List (Key × Word))
    → ((e : Key × Word) → (e.0.0 == cid) ≡ false → P e → Q e)
    → All P es
    → All Q (retain_others cid es)
retain-All P Q cid [] f h = tt
retain-All P Q cid (((owner, i), w) ∷ es) f h =
    if_known (All Q) (owner == cid) _ _ (λ e. retain-All P Q cid es f h.1)
      (λ e. (f ((owner, i), w) e h.0, retain-All P Q cid es f h.1))

swap_eq : (a b : ℕ) → (a == b) ≡ false → (b == a) ≡ false
swap_eq a b h = ground arith

forget-ToldOf :
    (cid : ℕ) (steps : List Step) (es : List (Key × Word)) (step : Step)
    → ((c : ℕ) → (c == cid) ≡ false → Spares c step)
    → All (ToldOf steps) es
    → All (ToldOf (step ∷ steps)) (retain_others cid es)
forget-ToldOf cid steps es step f h =
    retain-All (ToldOf steps) (ToldOf (step ∷ steps)) cid es (λ e n t. inr (f e.0.0 n, t)) h

spared-ToldOf :
    (steps : List Step) (es : List (Key × Word)) (step : Step)
    → ((c : ℕ) → Spares c step)
    → All (ToldOf steps) es
    → All (ToldOf (step ∷ steps)) es
spared-ToldOf steps es step f h =
    All-mono (ToldOf steps) (ToldOf (step ∷ steps)) es (λ e t. inr (f e.0.0, t)) h

ask_keeps :
    (now cid install : ℕ) (s : State) (w : Option Word)
    → (from_memory now cid install s w).0.entries ≡ s.entries
ask_keeps now cid install s none = refl
ask_keeps now cid install s (some (grant, at)) =
    if_cases (λ (r : State × Resolved). r.0.entries ≡ s.entries) (ltb (now - at) grant_ttl_ms) _ _
      refl refl

resolve-entries :
    (now cid install : ℕ) (s : State) → (resolve now cid install s).0.entries ≡ s.entries
unfolding resolve
resolve-entries now cid install s =
    if_cases (λ (r : State × Resolved). r.0.entries ≡ s.entries) (is_down cid s.down) _ _ refl
      (ask_keeps now cid install s (get same_key (cid, install) s.entries))

after-ToldOf :
    (s : State) (step : Step) (steps : List Step)
    → All (ToldOf steps) s.entries
    → All (ToldOf (step ∷ steps)) (after s step).entries
unfolding after on_server_frame
after-ToldOf s (resolves now cid install) steps h =
    subst (All (ToldOf (resolves now cid install ∷ steps)))
      (sym (resolve-entries now cid install s))
      (spared-ToldOf steps s.entries (resolves now cid install) (λ c. tt) h)
after-ToldOf s (gives_up tag) steps h = spared-ToldOf steps s.entries (gives_up tag) (λ c. tt) h
after-ToldOf s (hears now cid unrelated) steps h =
    spared-ToldOf steps s.entries (hears now cid unrelated) (λ c. tt) h
after-ToldOf s (hears now cid installs_changed) steps h =
    forget-ToldOf cid steps s.entries (hears now cid installs_changed) (λ c n. swap_eq c cid n) h
after-ToldOf s (hears now cid (grants install tag grant)) steps h =
    let step = hears now cid (grants install tag grant) in
    let kept = spared-ToldOf steps s.entries step (λ c. tt) h in
    if_cases (λ (r : State × Bool). All (ToldOf (step ∷ steps)) r.0.entries)
      (is_some_and (is_ours cid install) (get ◌==◌ tag s.pending)) _ _
      (set-All same_key (ToldOf (step ∷ steps)) same_key_eq (cid, install) (grant, now) s.entries
        (inl ((refl, refl), refl)) kept)
      kept
after-ToldOf s (link_up cid) steps h =
    forget-ToldOf cid steps s.entries (link_up cid) (λ c n. swap_eq c cid n) h
after-ToldOf s (link_down cid) steps h =
    forget-ToldOf cid steps s.entries (link_down cid) (λ c n. swap_eq c cid n) h
after-ToldOf s (session_ended cid) steps h =
    forget-ToldOf cid steps s.entries (session_ended cid) (λ c n. swap_eq c cid n) h

state-ToldOf : (steps : List Step) → All (ToldOf steps) (state_after fresh steps).entries
unfolding state_after
state-ToldOf [] = tt
state-ToldOf (step ∷ earlier) =
    after-ToldOf (state_after fresh earlier) step earlier (state-ToldOf earlier)

down_without :
    (cid c : ℕ) (ds : List ℕ)
    → is_down cid (without c ds) ≡ (if c == cid then false else is_down cid ds)
down_without cid c [] = if_cases (λ b. false ≡ b) (c == cid) false false refl refl
down_without cid c (d ∷ ds) = ground (arith, down_without cid c ds)

down_more :
    (cid c : ℕ) (ds : List ℕ)
    → is_down cid (c ∷ without c ds) ≡ (if c == cid then true else is_down cid ds)
down_more cid c ds = elim (Bool-cases (c == cid)) [
  | inl e ↦ rw e refl
  | inr e ↦ rw e (rw e at (down_without cid c ds))
]

ask_down :
    (now cid install : ℕ) (s : State) (w : Option Word)
    → (from_memory now cid install s w).0.down ≡ s.down
ask_down now cid install s none = refl
ask_down now cid install s (some (grant, at)) =
    if_cases (λ (r : State × Resolved). r.0.down ≡ s.down) (ltb (now - at) grant_ttl_ms) _ _ refl
      refl

resolve_down : (now cid install : ℕ) (s : State) → (resolve now cid install s).0.down ≡ s.down
unfolding resolve
resolve_down now cid install s =
    if_cases (λ (r : State × Resolved). r.0.down ≡ s.down) (is_down cid s.down) _ _ refl
      (ask_down now cid install s (get same_key (cid, install) s.entries))

frame_down :
    (now cid : ℕ) (signal : Signal) (s : State) → (on_server_frame now cid signal s).0.down ≡ s.down
unfolding on_server_frame
frame_down now cid unrelated s = refl
frame_down now cid installs_changed s = refl
frame_down now cid (grants install tag grant) s =
    if_cases (λ (r : State × Bool). r.0.down ≡ s.down)
      (is_some_and (is_ours cid install) (get ◌==◌ tag s.pending)) _ _ refl refl

state_down :
    (cid : ℕ) (steps : List Step) → is_down cid (state_after fresh steps).down ≡ down_by cid steps
unfolding state_after after
state_down cid [] = refl
state_down cid (resolves now c install ∷ earlier) =
    ap (is_down cid) (resolve_down now c install (state_after fresh earlier))
    ∙ state_down cid earlier
state_down cid (gives_up tag ∷ earlier) = state_down cid earlier
state_down cid (hears now c signal ∷ earlier) =
    ap (is_down cid) (frame_down now c signal (state_after fresh earlier)) ∙ state_down cid earlier
state_down cid (link_up c ∷ earlier) =
    down_without cid c (state_after fresh earlier).down ∙ rw (state_down cid earlier) refl
state_down cid (link_down c ∷ earlier) =
    down_more cid c (state_after fresh earlier).down ∙ rw (state_down cid earlier) refl
state_down cid (session_ended c ∷ earlier) =
    down_without cid c (state_after fresh earlier).down ∙ rw (state_down cid earlier) refl

-- What the code answers from memory, it found there and not too long ago.
abbrev FromMemory : ℕ → List Step → ℕ → ℕ → Option ℕ → Type 0
FromMemory now steps cid install grant =
    (at : ℕ) × (Told cid install (grant, at) steps × (now - at < grant_ttl_ms))

remembered_grant : (a b : Option ℕ) → remembered a ≡ remembered b → a ≡ b
remembered_grant a b h = cc

asked_is_no_answer : (tag : ℕ) (grant : Option ℕ) → asked tag ≡ remembered grant → ⊥
asked_is_no_answer tag grant h = cc

memory_lem :
    (now cid install : ℕ) (s : State) (steps : List Step) (w : Option Word) (grant : Option ℕ)
    → All (ToldOf steps) s.entries
    → get same_key (cid, install) s.entries ≡ w
    → (from_memory now cid install s w).1 ≡ remembered grant
    → FromMemory now steps cid install grant
memory_lem now cid install s steps none grant h e r = absurd (asked_is_no_answer s.next_tag grant r)
memory_lem now cid install s steps (some (g, at)) grant h e r =
    elim (Bool-cases (ltb (now - at) grant_ttl_ms)) [
      | inl f ↦
          let same = remembered_grant g grant (rw f at r) in
          let told =
            get-All same_key (ToldOf steps) same_key_eq (cid, install) (g, at) s.entries h e in
          (
            at,
            (
              subst (λ x. Told cid install (x, at) steps) same told,
              ltb→lt (now - at) grant_ttl_ms f,
            ),
          )
      | inr f ↦ absurd (asked_is_no_answer s.next_tag grant (rw f at r))
    ]

-- Whatever was asked, heard and lost before, an answer from memory is one that the server gave over
-- that session for that install, less than a minute before; since then it has announced no change
-- of the session's installs, and the session's link has neither gone down nor come up; and the link
-- is not down.
pub resolve-Told :
    (now cid install : ℕ) (steps : List Step) (grant : Option ℕ)
    → (resolve now cid install (state_after fresh steps)).1 ≡ remembered grant
    → ((at : ℕ) × (Told cid install (grant, at) steps × (now - at < grant_ttl_ms)))
      × (down_by cid steps ≡ false)
unfolding resolve
resolve-Told now cid install steps grant h =
    let s = state_after fresh steps in
    elim (Bool-cases (is_down cid s.down)) [
      | inl e ↦ absurd (down_is_no_answer grant (rw e at h))
      | inr e ↦ (
        memory_lem now cid install s steps (get same_key (cid, install) s.entries) grant
            (state-ToldOf steps) refl (rw e at h),
        sym (state_down cid steps) ∙ e,
      )
    ]
  where
    down_is_no_answer : (grant : Option ℕ) → link_is_down ≡ remembered grant → ⊥
    down_is_no_answer grant h = cc
