-- ===== src/Pulled/Cap.antt =====
-- A session keeps no more pulled files than the cap (kernel/pulled_reads.rs, `record`).
use citadel_agent.Prelude.{
  ℕ, zero, suc, ◌+◌, ◌-◌, ◌%◌, ◌^◌, ◌≤◌, ◌≡◌, refl, ap, inl, inr, Bool-cases, not, ◌&&◌, ◌||◌,
  Option, none, some, List, [], ◌∷◌, ltb, leb, ◌==◌, arith, length, ==→eq, ==_refl, subst, if_cases,
}
use citadel_agent.Assoc.{get, set, drop, none≢some, length-set-some}
use citadel_agent.Pulled.{
  picked_file_ttl, is_next, is_held, Outcome, max_picked_files, max_read_chunk_bytes, PulledRead,
  Entries, PulledReads, sweep, older, oldest, drop_key, evict, record_pull, begin_found, begin_read,
  settle_found, settle_read, Op, pulls, begins, settles, after, run,
}

length-drop-some :
    (k : ℕ) (r : PulledRead) (es : Entries)
    → get ◌==◌ k es ≡ some r
    → suc (length (drop ◌==◌ k es)) ≡ length es
length-drop-some k r [] h = absurd (none≢some r h)
length-drop-some k r ((j, w) ∷ es) h = elim (Bool-cases (k == j)) [
  | inl e ↦ rw e refl
  | inr e ↦ rw e (ap suc (length-drop-some k r es (rw e at h)))
]

abbrev Has : ℕ → Entries → Type 0
Has k es = (r : PulledRead) × (get ◌==◌ k es ≡ some r)

at_front : (k : ℕ) (r : PulledRead) (es : Entries) → Has k ((k, r) ∷ es)
at_front k r es = (r, rw (==_refl k) refl)

behind_it : (k j : ℕ) (r : PulledRead) (es : Entries) → Has k es → Has k ((j, r) ∷ es)
behind_it k j r es (q, h) = elim (Bool-cases (k == j)) [
  | inl e ↦ (r, rw e refl)
  | inr e ↦ (q, rw e h)
]

-- The oldest of some entries is one of them.
older_there :
    (j : ℕ) (r : PulledRead) (es : Entries) (o : Option (ℕ × ℕ))
    → ((k at : ℕ) → o ≡ some (k, at) → Has k es)
    → Has (older (j, r.recorded_at) o).0 ((j, r) ∷ es)
older_there j r es none h = at_front j r es
older_there j r es (some (k, at)) h =
    if_cases (λ (p : ℕ × ℕ). Has p.0 ((j, r) ∷ es)) (leb r.recorded_at at) (j, r.recorded_at)
      (k, at) (at_front j r es) (behind_it k j r es (h k at refl))

oldest_there : (es : Entries) (k at : ℕ) → oldest es ≡ some (k, at) → Has k es
oldest_there [] k at h = absurd (none≢some (k, at) h)
oldest_there ((j, r) ∷ es) k at h =
    subst (λ (p : ℕ × ℕ). Has p.0 ((j, r) ∷ es)) (same _ (k, at) h)
      (older_there j r es (oldest es) (λ i bt e. oldest_there es i bt e))
  where
    same : (a b : ℕ × ℕ) → Option.some a ≡ some b → a ≡ b
    same a b e = cc

dropped_oldest :
    (e : ℕ × PulledRead) (es : Entries)
    → suc (length (drop_key (oldest (e ∷ es)) (e ∷ es))) ≡ length (e ∷ es)
dropped_oldest (j, r) es =
    let (k, at) : ℕ × ℕ = older (j, r.recorded_at) (oldest es) in
    let (q, h) : Has _ ((j, r) ∷ es) = oldest_there ((j, r) ∷ es) k at refl in
    length-drop-some k q ((j, r) ∷ es) h

-- Each round takes one entry away, until the cap is kept.
evict_lem :
    (rounds : ℕ) (es : Entries)
    → length es ≤ rounds + max_picked_files
    → length (evict rounds es) ≤ max_picked_files
evict_lem zero es h = omega arith
evict_lem (suc rounds) [] h = omega arith
evict_lem (suc rounds) (e ∷ es) h = elim (Bool-cases (ltb max_picked_files (length (e ∷ es)))) [
  | inl f ↦ rw f (evict_lem rounds _ (omega (arith, dropped_oldest e es)))
  | inr f ↦ rw f (ground arith)
]

evicted : (es : Entries) → length (evict (length es) es) ≤ max_picked_files
evicted es = evict_lem (length es) es (omega arith)

abbrev pub IsCapped : PulledReads → Type 0
IsCapped s = length s.entries ≤ max_picked_files

set_kept :
    (s : PulledReads) (key : ℕ) (q r : PulledRead)
    → get ◌==◌ key s.entries ≡ some r
    → IsCapped s
    → IsCapped (record s { entries = set ◌==◌ key q s.entries })
set_kept s key q r e h = omega (arith, length-set-some ◌==◌ ==→eq ==_refl key q r s.entries e)

begin_found-IsCapped :
    (s : PulledReads) (key offset now : ℕ) (found : Option PulledRead)
    → get ◌==◌ key s.entries ≡ found
    → IsCapped s
    → IsCapped (begin_found s key offset now found).0
begin_found-IsCapped s key offset now none e h = h
begin_found-IsCapped s key offset now (some r) e h =
    if_cases (λ (p : PulledReads × Outcome). IsCapped p.0)
      (leb picked_file_ttl (now - r.recorded_at)) _ _ h
      (if_cases (λ (p : PulledReads × Outcome). IsCapped p.0)
        (not (offset == 0) && not (is_next offset r.next_offset)) _ _ h
        (if_cases (λ (p : PulledReads × Outcome). IsCapped p.0) (is_held now r.in_flight_since) _ _
          h (set_kept s key _ r e h)))

begin-IsCapped :
    (s : PulledReads) (key offset max_len now : ℕ)
    → IsCapped s
    → IsCapped (begin_read s key offset max_len now).0
unfolding begin_read
begin-IsCapped s key offset max_len now h =
    if_cases (λ (p : PulledReads × Outcome). IsCapped p.0)
      ((max_len == 0) || ltb max_read_chunk_bytes max_len) _ _ h
      (begin_found-IsCapped s key offset now (get ◌==◌ key s.entries) refl h)

settle_found-IsCapped :
    (s : PulledReads) (key generation : ℕ) (landed : Option (ℕ × ℕ)) (found : Option PulledRead)
    → get ◌==◌ key s.entries ≡ found
    → IsCapped s
    → IsCapped (settle_found s key generation landed found)
settle_found-IsCapped s key generation landed none e h = h
settle_found-IsCapped s key generation landed (some r) e h =
    if_cases IsCapped (not (r.generation == generation)) _ _ h (set_kept s key _ r e h)

after-IsCapped : (s : PulledReads) (o : Op) → IsCapped s → IsCapped (after s o)
unfolding after record_pull settle_read
after-IsCapped s (pulls key saved identity now) h =
    let read : PulledRead = record {
      saved = saved;
      identity = identity;
      recorded_at = now;
      generation = (s.next_generation + 1) % 2 ^ 64;
      next_offset = none;
      in_flight_since = none;
    } in
    evicted (set ◌==◌ key read (sweep now s.entries))
after-IsCapped s (begins key offset max_len now) h = begin-IsCapped s key offset max_len now h
after-IsCapped s (settles key generation landed) h =
    settle_found-IsCapped s key generation landed (get ◌==◌ key s.entries) refl h

-- Whatever is pulled and read, a session that keeps no more pulled files than the cap goes on to do
-- so: the loop that evicts the oldest ends with the cap kept.
pub run-IsCapped : (s : PulledReads) (os : List Op) → IsCapped s → IsCapped (run s os)
unfolding run
run-IsCapped s [] h = h
run-IsCapped s (o ∷ os) h = run-IsCapped (after s o) os (after-IsCapped s o h)
