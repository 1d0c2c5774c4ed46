-- ===== src/Pulled/Exclusive.antt =====
-- One read at a time holds a pulled file (kernel/pulled_reads.rs, `begin_read`).
use citadel_agent.Prelude.{
  ℕ, ◌+◌, ◌-◌, ◌<◌, ◌≡◌, refl, sym, subst, inl, inr, true, false, Bool-cases, not, ◌&&◌, ◌||◌,
  Option, none, some, List, [], ◌∷◌, ltb, leb, ◌==◌, if_cases, if_known, arith, ==→eq, All,
}
use citadel_agent.Assoc.{get, both_ways, IsDistinct}
use citadel_agent.Pulled.{
  max_read_chunk_bytes, read_in_flight_timeout, picked_file_ttl, is_next, is_held, PulledRead,
  ReadTicket, ReadError, bad_length, not_pulled, expired, in_progress, out_of_order, Entries,
  PulledReads, Outcome, ok, err, record_pull, begin_found, begin_read, settle_found, settle_read,
  Op, pulls, begins, settles, after, run,
}
use citadel_agent.Pulled.OneKey.{
  OfKey, set-OfKey, set_other-OfKey, sweep-OfKey, evict-OfKey, get-OfKey,
}

-- That record, as a read of that time and of that pull holds it.
abbrev IsHeldBy : ℕ → ℕ → PulledRead → Type 0
IsHeldBy generation since r = (r.generation ≡ generation) × (r.in_flight_since ≡ some since)

-- Nothing is granted: the outcome is an error.
abbrev pub IsRefused : Outcome → Type 0
IsRefused (ok t) = ⊥
IsRefused (err e) = Unit

module _ (key generation since : ℕ) where
  -- The steps that leave a read alone: they pull another file, settle reads of other files and of
  -- other pulls only, and begin a read of it only before it is taken as abandoned.
  abbrev pub Spares : Op → Type 0
  Spares (pulls k saved identity now) = (key == k) ≡ false
  Spares (begins k offset max_len now) = ((key == k) ≡ true) → now < since + read_in_flight_timeout
  Spares (settles k g landed) = ((key == k) ≡ true) → (generation == g) ≡ false

  abbrev Holds : Entries → Type 0
  Holds es = All (OfKey key (IsHeldBy generation since)) es

  -- The step changes nothing and is refused.
  abbrev Stays : PulledReads → PulledReads × Outcome → Type 0
  Stays s p = (p.0 ≡ s) × IsRefused p.1

  held_still :
      (now : ℕ) (r : PulledRead)
      → now < since + read_in_flight_timeout
      → IsHeldBy generation since r
      → is_held now r.in_flight_since ≡ true
  held_still now r l (g, e) =
      let soon : ltb (now - since) read_in_flight_timeout ≡ true = ground arith in
      rw (e, is_held) soon

  refused_same :
      (s : PulledReads) (offset now : ℕ) (found : Option PulledRead)
      → get ◌==◌ key s.entries ≡ found
      → now < since + read_in_flight_timeout
      → Holds s.entries
      → Stays s (begin_found s key offset now found)
  refused_same s offset now none e l h = (refl, tt)
  refused_same s offset now (some r) e l h =
      if_cases (Stays s) (leb picked_file_ttl (now - r.recorded_at)) _ _ (refl, tt)
        (if_cases (Stays s) (not (offset == 0) && not (is_next offset r.next_offset)) _ _ (refl, tt)
          (if_known (Stays s) (is_held now r.in_flight_since) _ _ (λ _. (refl, tt))
            (λ f. absurd (
              both_ways (is_held now r.in_flight_since)
                (held_still now r l (get-OfKey key (IsHeldBy generation since) r s.entries h e))
                f))))

  begin-Stays :
      (s : PulledReads) (offset max_len now : ℕ)
      → now < since + read_in_flight_timeout
      → Holds s.entries
      → Stays s (begin_read s key offset max_len now)
  unfolding begin_read
  begin-Stays s offset max_len now l h =
      if_cases (Stays s) ((max_len == 0) || ltb max_read_chunk_bytes max_len) _ _ (refl, tt)
        (refused_same s offset now (get ◌==◌ key s.entries) refl l h)

  begin_other-Holds :
      (s : PulledReads) (k offset now : ℕ) (found : Option PulledRead)
      → (key == k) ≡ false
      → Holds s.entries
      → Holds (begin_found s k offset now found).0.entries
  begin_other-Holds s k offset now none n h = h
  begin_other-Holds s k offset now (some r) n h =
      if_cases Kept (leb picked_file_ttl (now - r.recorded_at)) _ _ h (
        if_cases Kept (not (offset == 0) && not (is_next offset r.next_offset)) _ _ h (
          if_cases Kept (is_held now r.in_flight_since) _ _ h
            (set_other-OfKey key (IsHeldBy generation since) k _ s.entries n h)))
    where
      Kept : PulledReads × Outcome → Type 0
      Kept p = Holds p.0.entries

  begin-Holds :
      (s : PulledReads) (k offset max_len now : ℕ)
      → Spares (begins k offset max_len now)
      → Holds s.entries
      → Holds (begin_read s k offset max_len now).0.entries
  unfolding begin_read
  begin-Holds s k offset max_len now f h = elim (Bool-cases (key == k)) [
    | inl e ↦
        let same = ==→eq key k e in
        subst (λ j. Holds (begin_read s j offset max_len now).0.entries) same
          (subst (λ (t : PulledReads). Holds t.entries)
            (sym (begin-Stays s offset max_len now (f e) h).0) h)
    | inr n ↦
        if_cases (λ (p : PulledReads × Outcome). Holds p.0.entries)
          ((max_len == 0) || ltb max_read_chunk_bytes max_len) _ _ h
          (begin_other-Holds s k offset now (get ◌==◌ k s.entries) n h)
  ]

  settle-Holds :
      (s : PulledReads) (k g : ℕ) (landed : Option (ℕ × ℕ)) (found : Option PulledRead)
      → get ◌==◌ k s.entries ≡ found
      → Spares (settles k g landed)
      → Holds s.entries
      → Holds (settle_found s k g landed found).entries
  settle-Holds s k g landed none e f h = h
  settle-Holds s k g landed (some r) e f h =
      if_known (λ (t : PulledReads). Holds t.entries) (not (r.generation == g)) _ _ (λ _. h)
        (λ same. elim (Bool-cases (key == k)) [
          | inl i ↦
              let here = subst (λ j. get ◌==◌ j s.entries ≡ some r) (sym (==→eq key k i)) e in
              let (mine, _) = get-OfKey key (IsHeldBy generation since) r s.entries h here in
              absurd (
                both_ways (r.generation == g) (ground arith)
                  (subst (λ n. (n == g) ≡ false) (sym mine) (f i)))
          | inr n ↦ set_other-OfKey key (IsHeldBy generation since) k _ s.entries n h
        ])

  after-Holds : (s : PulledReads) (o : Op) → Spares o → Holds s.entries → Holds (after s o).entries
  unfolding after record_pull settle_read
  after-Holds s (pulls k saved identity now) f h = evict-OfKey key (IsHeldBy generation since) _ _ (
      set_other-OfKey key (IsHeldBy generation since) k _ _ f
        (sweep-OfKey key (IsHeldBy generation since) now s.entries h))
  after-Holds s (begins k offset max_len now) f h = begin-Holds s k offset max_len now f h
  after-Holds s (settles k g landed) f h = settle-Holds s k g landed (get ◌==◌ k s.entries) refl f h

  run-Holds :
      (s : PulledReads) (os : List Op) → All Spares os → Holds s.entries → Holds (run s os).entries
  unfolding run
  run-Holds s [] f h = h
  run-Holds s (o ∷ os) (f, fs) h = run-Holds (after s o) os fs (after-Holds s o f h)

module _ (s : PulledReads) (key offset now : ℕ) (t : ReadTicket)
    (distinct : IsDistinct ◌==◌ s.entries) where
  -- Once granted, the read holds the record.
  abbrev Grants : PulledReads × Outcome → Type 0
  Grants p = p.1 ≡ ok t → All (OfKey key (IsHeldBy t.generation now)) p.0.entries

  not_granted : (e : ReadError) → Grants (s, err e)
  not_granted e h = absurd (subst IsRefused h tt)

  generation_of : (a b : ReadTicket) → ok a ≡ ok b → a.generation ≡ b.generation
  generation_of a b h = cc

  found-Grants : (found : Option PulledRead) → Grants (begin_found s key offset now found)
  found-Grants none = not_granted not_pulled
  found-Grants (some r) =
      if_cases Grants (leb picked_file_ttl (now - r.recorded_at)) _ _ (not_granted expired) (
        if_cases Grants (not (offset == 0) && not (is_next offset r.next_offset)) _ _
          (not_granted (out_of_order r.next_offset))
          (if_cases Grants (is_held now r.in_flight_since) _ _ (not_granted in_progress) (λ h.
            set-OfKey key (IsHeldBy t.generation now) (record r { in_flight_since = some now })
              s.entries distinct (generation_of _ t h, refl))))

  begin-Grants : (max_len : ℕ) → Grants (begin_read s key offset max_len now)
  unfolding begin_read
  begin-Grants max_len =
      if_cases Grants ((max_len == 0) || ltb max_read_chunk_bytes max_len) _ _
        (not_granted bad_length) (found-Grants (get ◌==◌ key s.entries))

-- If a map has one entry for each file and a read of one is granted, no other read of that file is
-- before the timeout after which it is taken as abandoned, provided that meanwhile the file is not
-- pulled again and no read of this pull is settled, be it the read itself or an earlier one that was
-- taken as abandoned. Other files may be pulled, read and settled, this file's reads of earlier
-- pulls settled and new reads of it tried.
pub begin_read-exclusive :
    (s : PulledReads) (key offset max_len now : ℕ) (t : ReadTicket) (os : List Op)
    (offset' max_len' later : ℕ)
    → IsDistinct ◌==◌ s.entries
    → (begin_read s key offset max_len now).1 ≡ ok t
    → All (Spares key t.generation now) os
    → later < now + read_in_flight_timeout
    → IsRefused
        (begin_read (run (begin_read s key offset max_len now).0 os) key offset' max_len' later).1
begin_read-exclusive s key offset max_len now t os offset' max_len' later d h f l =
    let begun = (begin_read s key offset max_len now).0 in
    (begin-Stays key t.generation now (run begun os) offset' max_len' later l
      (run-Holds key t.generation now begun os f (begin-Grants s key offset now t d max_len h))).1
