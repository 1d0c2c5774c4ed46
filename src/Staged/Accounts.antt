-- ===== src/Staged/Accounts.antt =====
-- The bytes promised to uploads are counted exactly (kernel/staged_uploads.rs, Reservation).
use citadel_agent.Prelude.{
  ℕ, ◌+◌, ◌-◌, ◌%◌, ◌^◌, min, ◌≡◌, refl, sym, ap, ◌∙◌, inl, inr, Bool, true, false, Bool-cases, not,
  ◌||◌, Option, none, some, Option-cases, List, [], ◌∷◌, ltb, ◌==◌, arith, if_cases, zero, suc,
}
use citadel_agent.Assoc.{get, set, drop, none≢some}
use citadel_agent.Staged.{
  max_browser_transfer_total_bytes, fetch_add, fetch_sub, StagedUpload, ChunkPlan, start, append,
  refuse, Uploads, Created, Staging, is_stale, prune_table, prune, with_plan, begin_chunk,
  create_upload, insert_upload, pick, staged, finish_picked, finish_start, append_to, end_chunk,
  take_found, take_complete, reserve_elsewhere, release_elsewhere, drop_all, disconnect, connect,
  Step, begins, creates, starts, ends, takes, reserves, releases, disconnects, connects, after, run,
}

abbrev pub held : Uploads → ℕ
held [] = 0
held ((id, u) ∷ us) = u.remaining + held us

abbrev pub held_created : List Created → ℕ
held_created [] = 0
held_created (c ∷ cs) = c.remaining + held_created cs

-- What all reservations hold together.
abbrev pub promised : Staging → ℕ
promised s = held s.uploads + (held_created s.created + s.elsewhere)

-- The counter is what the reservations hold, as a 64-bit number.
abbrev pub IsAccounted : Staging → Type 0
IsAccounted s = s.in_flight ≡ promised s % 2 ^ 64

subtracted : (c n m : ℕ) → c ≡ (n + m) % 2 ^ 64 → fetch_sub c n ≡ m % 2 ^ 64
subtracted c n m h = omega arith

added : (c n m : ℕ) → c ≡ m % 2 ^ 64 → fetch_add c n ≡ (n + m) % 2 ^ 64
added c n m h = omega arith

some-inj : (a b : Created × List Created) → Option.some a ≡ some b → a ≡ b
some-inj a b e = cc

held-set-none :
    (id : ℕ) (u : StagedUpload) (us : Uploads)
    → get ◌==◌ id us ≡ none
    → held (set ◌==◌ id u us) ≡ held us + u.remaining
held-set-none id u [] h = omega arith
held-set-none id u ((j, v) ∷ us) h = elim (Bool-cases (id == j)) [
  | inl e ↦ absurd (none≢some v (sym (rw e at h)))
  | inr e ↦ rw e (omega (arith, held-set-none id u us (rw e at h)))
]

held-set-some :
    (id : ℕ) (u v : StagedUpload) (us : Uploads)
    → get ◌==◌ id us ≡ some v
    → held (set ◌==◌ id u us) + v.remaining ≡ held us + u.remaining
held-set-some id u v [] h = absurd (none≢some v h)
held-set-some id u v ((j, w) ∷ us) h = elim (Bool-cases (id == j)) [
  | inl e ↦ rw e (omega (arith, ap (λ u. u.remaining) (same w v (rw e at h))))
  | inr e ↦ rw e (omega (arith, held-set-some id u v us (rw e at h)))
]
  where
    same : (a b : StagedUpload) → Option.some a ≡ some b → a ≡ b
    same a b e = cc

held-drop :
    (id : ℕ) (v : StagedUpload) (us : Uploads)
    → get ◌==◌ id us ≡ some v
    → held (drop ◌==◌ id us) + v.remaining ≡ held us
held-drop id v [] h = absurd (none≢some v h)
held-drop id v ((j, w) ∷ us) h = elim (Bool-cases (id == j)) [
  | inl e ↦ rw e (omega (arith, ap (λ u. u.remaining) (same w v (rw e at h))))
  | inr e ↦ rw e (omega (arith, held-drop id v us (rw e at h)))
]
  where
    same : (a b : StagedUpload) → Option.some a ≡ some b → a ≡ b
    same a b e = cc

-- Pruning returns what the uploads that go still held.
prune_table_lem :
    (now rest : ℕ) (us : Uploads) (c : ℕ)
    → c ≡ (held us + rest) % 2 ^ 64
    → (prune_table now us c).1.0 ≡ (held (prune_table now us c).0 + rest) % 2 ^ 64
prune_table_lem now rest [] c h = h
prune_table_lem now rest ((id, u) ∷ us) c h = elim (Bool-cases (is_stale now u)) [
  | inl e ↦ rw e (
      prune_table_lem now rest us (fetch_sub c u.remaining)
        (subtracted c u.remaining (held us + rest) (omega (arith, h))))
  | inr e ↦ rw e (omega (arith, prune_table_lem now (u.remaining + rest) us c (omega (arith, h))))
]

prune-IsAccounted : (now : ℕ) (s : Staging) → IsAccounted s → IsAccounted (prune now s).0
unfolding prune
prune-IsAccounted now s h =
    prune_table_lem now (held_created s.created + s.elsewhere) s.uploads s.in_flight h

with_plan-IsAccounted :
    (s : Staging) (id : ℕ) (found : Option StagedUpload) (plan : ChunkPlan)
    → get ◌==◌ id s.uploads ≡ found
    → IsAccounted s
    → IsAccounted (with_plan s id found plan).0
with_plan-IsAccounted s id (some u) append e h =
    h ∙ omega (arith, held-set-some id (record u { writing = true }) u s.uploads e)
with_plan-IsAccounted s id (some u) start e h = h
with_plan-IsAccounted s id (some u) (refuse r) e h = h
with_plan-IsAccounted s id none plan e h = h

begin-IsAccounted :
    (s : Staging) (now id offset len total : ℕ)
    → IsAccounted s
    → IsAccounted (begin_chunk s now id offset len total).0
unfolding begin_chunk
begin-IsAccounted s now id offset len total h =
    let pruned = (prune now s).0 in
    if_cases (λ (r : Staging × ChunkPlan). IsAccounted r.0) s.connected _ _
      (with_plan-IsAccounted pruned id (get ◌==◌ id pruned.uploads) _ refl
        (prune-IsAccounted now s h))
      h

create-IsAccounted :
    (s : Staging) (id dir total len on_disk : ℕ) (made : Bool)
    → IsAccounted s
    → IsAccounted (create_upload s id dir total len on_disk made).0
unfolding create_upload
create-IsAccounted s id dir total len on_disk made h = elim (Bool-cases full) [
  | inl e ↦ rw e (subtracted _ total (promised s) (added s.in_flight total (promised s) h))
  | inr e ↦
      rw e (subtracted _ (min len total) _ (added s.in_flight total (promised s) h ∙ omega arith))
]
  where
    full : Bool
    full =
        ltb max_browser_transfer_total_bytes
          (min (min (on_disk + s.in_flight) (2 ^ 64 - 1) + total) (2 ^ 64 - 1))
        || not made

insert-IsAccounted :
    (s : Staging) (id : ℕ) (u : StagedUpload) (found : Option StagedUpload)
    → get ◌==◌ id s.uploads ≡ found
    → s.in_flight ≡ (u.remaining + promised s) % 2 ^ 64
    → IsAccounted (insert_upload s id u found).0
insert-IsAccounted s id u none e h = h ∙ omega (arith, held-set-none id u s.uploads e)
insert-IsAccounted s id u (some v) e h = subtracted s.in_flight u.remaining (promised s) h

held-pick :
    (k : ℕ) (cs : List Created) (c : Created) (others : List Created)
    → pick k cs ≡ some (c, others)
    → held_created cs ≡ c.remaining + held_created others
held-pick k [] c others h = absurd (none≢some (c, others) h)
held-pick zero (d ∷ ds) c others h =
    ap (λ (r : Created × List Created). r.0.remaining + held_created r.1)
      (some-inj (d, ds) (c, others) h)
held-pick (suc k) (d ∷ ds) c others h = elim (Option-cases (pick k ds)) [
  | inl e ↦ absurd (none≢some (c, others) (rw (e, pick) at h))
  | inr ((x, xs), e) ↦
      let same = some-inj (x, d ∷ xs) (c, others) (rw (e, pick) at h) in
      omega (arith, held-pick k ds x xs e)
      ∙ ap (λ (r : Created × List Created). r.0.remaining + held_created r.1) same
]

finish-IsAccounted :
    (s : Staging) (now : ℕ) (picked : Option (Created × List Created))
    → ((c : Created) (others : List Created)
        → picked ≡ some (c, others)
        → held_created s.created ≡ c.remaining + held_created others)
    → IsAccounted s
    → IsAccounted (finish_picked s now picked).0
finish-IsAccounted s now none f h = h
finish-IsAccounted s now (some (c, others)) f h =
    let split = f c others refl in
    if_cases (λ (r : Staging × Bool). IsAccounted r.0) s.connected _ _
      (insert-IsAccounted (record s { created = others }) c.upload_id (staged c now)
        (get ◌==◌ c.upload_id s.uploads) refl (h ∙ omega (arith, split)))
      (subtracted s.in_flight c.remaining (held s.uploads + (held_created others + s.elsewhere))
        (h ∙ omega (arith, split)))

end-IsAccounted :
    (s : Staging) (id len : ℕ) (ok : Bool) (found : Option StagedUpload)
    → get ◌==◌ id s.uploads ≡ found
    → IsAccounted s
    → IsAccounted (append_to s id len ok found).0
end-IsAccounted s id len ok none e h = h
end-IsAccounted s id len false (some u) e h =
    subtracted s.in_flight u.remaining _ (h ∙ omega (arith, held-drop id u s.uploads e))
end-IsAccounted s id len true (some u) e h = subtracted s.in_flight (min len u.remaining) _ (
    h
    ∙ omega (
      arith,
      held-set-some id
          (record u {
            writing = false;
            received = u.received + len;
            remaining = u.remaining - min len u.remaining;
          })
          u s.uploads e,
    ))

take-IsAccounted :
    (s : Staging) (id : ℕ) (found : Option StagedUpload)
    → get ◌==◌ id s.uploads ≡ found
    → IsAccounted s
    → IsAccounted (take_found s id found).0
take-IsAccounted s id none e h = h
take-IsAccounted s id (some u) e h =
    if_cases (λ (r : Staging × Option StagedUpload). IsAccounted r.0)
      (u.writing || ltb u.received u.total) _ _ h (h ∙ omega (arith, held-drop id u s.uploads e))

drop_all_lem :
    (us : Uploads) (rest c : ℕ) → c ≡ (held us + rest) % 2 ^ 64 → drop_all us c ≡ rest % 2 ^ 64
drop_all_lem [] rest c h = h ∙ omega arith
drop_all_lem ((id, u) ∷ us) rest c h =
    drop_all_lem us rest (fetch_sub c u.remaining)
      (subtracted c u.remaining (held us + rest) (omega (arith, h)))

disconnect-IsAccounted : (s : Staging) → IsAccounted s → IsAccounted (disconnect s)
unfolding disconnect
disconnect-IsAccounted s h =
    drop_all_lem s.uploads (held_created s.created + s.elsewhere) s.in_flight h ∙ omega arith

reserve-IsAccounted : (s : Staging) (n : ℕ) → IsAccounted s → IsAccounted (reserve_elsewhere s n)
unfolding reserve_elsewhere
reserve-IsAccounted s n h = added s.in_flight n (promised s) h ∙ omega arith

release-IsAccounted : (s : Staging) (n : ℕ) → IsAccounted s → IsAccounted (release_elsewhere s n)
unfolding release_elsewhere
release-IsAccounted s n h = subtracted s.in_flight (min n s.elsewhere) _ (h ∙ omega arith)

after-IsAccounted : (s : Staging) (c : Step) → IsAccounted s → IsAccounted (after s c)
unfolding after finish_start end_chunk take_complete connect
after-IsAccounted s (begins now id offset len total) h =
    begin-IsAccounted s now id offset len total h
after-IsAccounted s (creates id dir total len on_disk made) h =
    create-IsAccounted s id dir total len on_disk made h
after-IsAccounted s (starts k now) h =
    finish-IsAccounted s now (pick k s.created) (λ c others e. held-pick k s.created c others e) h
after-IsAccounted s (ends id len ok) h = end-IsAccounted s id len ok _ refl h
after-IsAccounted s (takes id) h = take-IsAccounted s id _ refl h
after-IsAccounted s (reserves n) h = reserve-IsAccounted s n h
after-IsAccounted s (releases n) h = release-IsAccounted s n h
after-IsAccounted s disconnects h = disconnect-IsAccounted s h
after-IsAccounted s connects h = disconnect-IsAccounted s h

-- In whatever order the chunks of a session begin, its uploads are created and put into the table,
-- chunks land, fail, are pruned and are taken, the session ends and comes back, and the rest of the
-- service reserves and gives back, the service's counter stays what all reservations hold, to 64
-- bits, if it is so at the start: no byte promised is lost or returned twice.
pub run-IsAccounted : (s : Staging) (cs : List Step) → IsAccounted s → IsAccounted (run s cs)
unfolding run
run-IsAccounted s [] h = h
run-IsAccounted s (c ∷ cs) h = run-IsAccounted (after s c) cs (after-IsAccounted s c h)
