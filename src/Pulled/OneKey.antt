-- ===== src/Pulled/OneKey.antt =====
-- What is so of every entry of one key, and stays so as the map changes (kernel/pulled_reads.rs).
use citadel_agent.Prelude.{
  ℕ, zero, suc, ◌-◌, ◌≡◌, sym, subst, inl, inr, true, false, Bool-cases, Option, none, some, [],
  ◌∷◌, ltb, ◌==◌, if_cases, length, ==→eq, All,
}
use citadel_agent.Assoc.{get, set, drop, none≢some, both_ways, IsDistinct}
use citadel_agent.Pulled.{
  max_picked_files, picked_file_ttl, PulledRead, Entries, sweep, oldest, drop_key, evict,
}

abbrev pub OfKey : ℕ → (PulledRead → Type 0) → ℕ × PulledRead → Type 0
OfKey key P e = (key == e.0) ≡ true → P e.1

module _ (key : ℕ) (P : PulledRead → Type 0) where
  absent-OfKey : (es : Entries) → get ◌==◌ key es ≡ none → All (OfKey key P) es
  absent-OfKey [] h = tt
  absent-OfKey ((j, r) ∷ es) h = elim (Bool-cases (key == j)) [
    | inl e ↦ absurd (none≢some r (sym (rw e at h)))
    | inr e ↦ (λ f. absurd (both_ways (key == j) f e), absent-OfKey es (rw e at h))
  ]

  -- In a map one key has one entry.
  pub set-OfKey :
      (r : PulledRead) (es : Entries)
      → IsDistinct ◌==◌ es
      → P r
      → All (OfKey key P) (set ◌==◌ key r es)
  set-OfKey r [] d p = (λ f. p, tt)
  set-OfKey r ((j, w) ∷ es) d p = elim (Bool-cases (key == j)) [
    | inl e ↦
        rw e (λ f. p, absent-OfKey es (subst (λ k. get ◌==◌ k es ≡ none) (sym (==→eq key j e)) d.0))
    | inr e ↦ rw e (λ f. absurd (both_ways (key == j) f e), set-OfKey r es d.1 p)
  ]

  pub set_other-OfKey :
      (k : ℕ) (r : PulledRead) (es : Entries)
      → (key == k) ≡ false
      → All (OfKey key P) es
      → All (OfKey key P) (set ◌==◌ k r es)
  set_other-OfKey k r [] n h = (λ f. absurd (both_ways (key == k) f n), tt)
  set_other-OfKey k r ((j, w) ∷ es) n h = elim (Bool-cases (k == j)) [
    | inl e ↦ rw e (
      λ f. absurd (both_ways (key == k) (subst (λ m. (key == m) ≡ true) (sym (==→eq k j e)) f) n),
      h.1,
    )
    | inr e ↦ rw e (h.0, set_other-OfKey k r es n h.1)
  ]

  pub sweep-OfKey :
      (now : ℕ) (es : Entries) → All (OfKey key P) es → All (OfKey key P) (sweep now es)
  sweep-OfKey now [] h = tt
  sweep-OfKey now ((j, r) ∷ es) h =
      if_cases (All (OfKey key P)) (ltb (now - r.recorded_at) picked_file_ttl) _ _
        (h.0, sweep-OfKey now es h.1) (sweep-OfKey now es h.1)

  drop-OfKey : (k : ℕ) (es : Entries) → All (OfKey key P) es → All (OfKey key P) (drop ◌==◌ k es)
  drop-OfKey k [] h = tt
  drop-OfKey k ((j, r) ∷ es) h =
      if_cases (All (OfKey key P)) (k == j) _ _ h.1 (h.0, drop-OfKey k es h.1)

  drop_key-OfKey :
      (o : Option (ℕ × ℕ)) (es : Entries) → All (OfKey key P) es → All (OfKey key P) (drop_key o es)
  drop_key-OfKey none es h = h
  drop_key-OfKey (some (k, at)) es h = drop-OfKey k es h

  pub evict-OfKey :
      (rounds : ℕ) (es : Entries) → All (OfKey key P) es → All (OfKey key P) (evict rounds es)
  evict-OfKey zero es h = h
  evict-OfKey (suc rounds) es h =
      if_cases (All (OfKey key P)) (ltb max_picked_files (length es)) _ _
        (evict-OfKey rounds _ (drop_key-OfKey (oldest es) es h)) h

  pub get-OfKey :
      (r : PulledRead) (es : Entries) → All (OfKey key P) es → get ◌==◌ key es ≡ some r → P r
  get-OfKey r [] h e = absurd (none≢some r e)
  get-OfKey r ((j, w) ∷ es) h e = elim (Bool-cases (key == j)) [
    | inl f ↦ subst P (same w r (rw f at e)) (h.0 f)
    | inr f ↦ get-OfKey r es h.1 (rw f at e)
  ]
    where
      same : (a b : PulledRead) → Option.some a ≡ some b → a ≡ b
      same a b e = cc
