-- ===== src/Fanout/Life.antt =====
-- The life of a target of a fan-out, and that a fan-out gets on
-- (citadel-app-sdk/src/ihttp/fanout_plan.rs).
use citadel_agent.Prelude.{
  ℕ, zero, suc, ◌+◌, ◌≤◌, ◌<◌, ◌≡◌, refl, sym, subst, inl, inr, Bool, true, false, Bool-cases,
  Option, none, some, List, [], ◌∷◌, ltb, leb, ◌==◌, if◌then◌else◌, length, all, is_some, arith, ap,
  ==→eq, lt→ltb, ltb→lt, min,
}
use citadel_agent.Supervisor.PeerMap.{insert}
use citadel_agent.Assoc.{both_ways}
use citadel_agent.Fanout.{
  Plan, Outcome, skipped, get_elem?, set_elem, keys, retain_other, fill, admit, count_bytes,
  settle_slot, settle_target, skip_all, stop_all, elapse, u32_max, is_done, Call, starts, arrives,
  settles, passes, stops, after, run,
}
use citadel_agent.Fanout.Targets.{count, count-retain_other, get-set_same, get-set_other, fill-full}
use citadel_agent.Fanout.Parts.{
  Slots, filled, IsPlaced, IsPartition, get-inside, skip_all-untouched, skip_all-touched,
  waiting_inside, after-IsPartition, admit-IsPartition,
}

fill-fewer : (room i : ℕ) (ws : List ℕ) (m : List (ℕ × ℕ)) → count i (fill room ws m).0 ≤ count i ws
fill-fewer room i [] m = omega arith
fill-fewer room i (w ∷ ws) m = elim (Bool-cases (ltb (length m) room)) [
  | inl e ↦ rw e (ground (arith, fill-fewer room i ws (insert w 0 m)))
  | inr e ↦ rw e (omega arith)
]

count-keys : (i : ℕ) (m : List (ℕ × ℕ)) → count i (keys m) ≤ length m
count-keys i [] = omega arith
count-keys i ((j, w) ∷ m) = ground (arith, count-keys i m)

module _ (R : Type 0) where
  -- What a caller sees of one target.
  pub data Status : Type 0 where
    unknown waits runs : Status
    ended : Outcome R → Status

  -- Forward only: a target waits, then runs, then has ended for good.
  pub data Moves : Status → Status → Type 0 where
    stays : {a : Status} → Moves a a
    begins : Moves waits runs
    never_runs : {o : Outcome R} → Moves waits (ended o)
    ends : {o : Outcome R} → Moves runs (ended o)

module _ {R : Type 0} where
  abbrev pub status_of : Option (Option (Outcome R)) → Bool → Status R
  status_of none w = unknown
  status_of (some (some o)) w = ended o
  status_of (some none) w = if w then waits else runs

  abbrev pub status : Plan R → ℕ → Status R
  status p i = status_of (get_elem? p.settled i) (ltb 0 (count i p.waiting))

  chain : (a b c : Status R) → Moves R a b → Moves R b c → Moves R a c
  chain a b c stays n = n
  chain a b c begins stays = begins
  chain a b c begins ends = never_runs
  chain a b c never_runs stays = never_runs
  chain a b c ends stays = ends

  -- The slot is left alone, and the target does not go back to waiting.
  same_slot :
      (slot : Option (Option (Outcome R))) (v w : Bool)
      → (w ≡ true → v ≡ true)
      → Moves R (status_of slot v) (status_of slot w)
  same_slot none v w h = stays
  same_slot (some (some o)) v w h = stays
  same_slot (some none) true true h = stays
  same_slot (some none) true false h = begins
  same_slot (some none) false false h = stays
  same_slot (some none) false true h = absurd (both_ways false (h refl) refl)

  fewer :
      (slot : Option (Option (Outcome R))) (m n : ℕ)
      → n ≤ m
      → Moves R (status_of slot (ltb 0 m)) (status_of slot (ltb 0 n))
  fewer slot m n h = same_slot slot (ltb 0 m) (ltb 0 n) (λ e. ground arith)

  settled_from : (w : Bool) (o : Outcome R) → Moves R (if w then waits else runs) (ended o)
  settled_from true o = never_runs
  settled_from false o = ends

  slot-Moves :
      (p : Plan R) (i j : ℕ) (o : Outcome R) (slot : Option (Option (Outcome R)))
      → get_elem? p.settled i ≡ slot
      → Moves R (status p j) (status (settle_slot p i o slot).0 j)
  slot-Moves p i j o none e = stays
  slot-Moves p i j o (some (some q)) e = stays
  slot-Moves p i j o (some none) e = elim (Bool-cases (j == i)) [
    | inl here ↦ subst At (sym (==→eq j i here)) placed
    | inr other ↦
        rw (get-set_other i j (some o) p.settled other, count-retain_other j i p.waiting, other)
          stays
  ]
    where
      At : ℕ → Type 0
      At k = Moves R (status p k) (
          status_of (get_elem? (set_elem i (some o) p.settled) k)
            (ltb 0 (count k (retain_other i p.waiting))))

      placed : At i
      placed =
          rw (e, get-set_same i (some o) p.settled (get-inside i p.settled none e))
            (settled_from (ltb 0 (count i p.waiting)) o)

  get-beyond : (i : ℕ) (s : Slots R) → get_elem? s i ≡ none → length s ≤ i
  get-beyond i [] h = omega arith
  get-beyond zero (x ∷ s) h = absurd (cc)
  get-beyond (suc i) (x ∷ s) h = omega (arith, get-beyond i s h)

  -- A target that waits has an empty slot, so that it may be skipped.
  skipped_from :
      (i n : ℕ) (s : Slots R) (slot : Option (Option (Outcome R)))
      → get_elem? s i ≡ slot
      → i < length s
      → n + filled slot ≡ 1
      → 0 < n
      → Moves R (status_of slot true) (ended skipped)
  skipped_from i n s none e l h w = absurd (omega (arith, get-beyond i s e))
  skipped_from i n s (some none) e l h w = never_runs
  skipped_from i n s (some (some o)) e l h w = absurd (omega arith)

  stop-Moves :
      (i : ℕ) (ws : List ℕ) (m : List (ℕ × ℕ)) (s : Slots R)
      → IsPlaced ws m s
      → Moves R
          (status_of (get_elem? s i) (ltb 0 (count i ws)))
          (status_of (get_elem? (skip_all ws s) i) false)
  stop-Moves i ws m s h = elim (Bool-cases (ltb 0 (count i ws))) [
    | inl e ↦
        let w = ltb→lt 0 (count i ws) e in
        let l = waiting_inside i ws m s h w in
        rw (skip_all-touched i ws s w l, e)
          (skipped_from i (count i ws + count i (keys m)) s (get_elem? s i) refl l
            (rw (lt→ltb i (length s) l) at (h i)) (omega arith))
    | inr e ↦ rw (skip_all-untouched i ws s (ground arith), e) stays
  ]

  elapse-Moves :
      (p : Plan R) (ms i : ℕ) → IsPartition p → Moves R (status p i) (status (elapse p ms).0 i)
  unfolding elapse stop_all
  elapse-Moves p ms i (h, c) =
      elim (Bool-cases (leb p.limits.budget_ms (min (p.elapsed_ms + ms) u32_max))) [
        | inl e ↦ rw e (stop-Moves i p.waiting p.running p.settled h)
        | inr e ↦ rw e stays
      ]

  after-Moves :
      (p : Plan R) (c : Call R) (i : ℕ)
      → IsPartition p
      → Moves R (status p i) (status (after p c) i)
  unfolding after admit count_bytes settle_target stop_all
  after-Moves p starts i h =
      fewer (get_elem? p.settled i) (count i p.waiting) _
        (fill-fewer p.limits.max_concurrency i p.waiting p.running)
  after-Moves p (arrives j n) i h = stays
  after-Moves p (settles j o) i h = slot-Moves p j i o (get_elem? p.settled j) refl
  after-Moves p (passes ms) i h = elapse-Moves p ms i h
  after-Moves p stops i h = stop-Moves i p.waiting p.running p.settled h.0

  -- Under any calls a target of a plan whose targets are each in one place only moves forward, from
  -- waiting to running to ended or from waiting to ended, and what it came to is never changed.
  pub run-Moves :
      (p : Plan R) (cs : List (Call R)) (i : ℕ)
      → IsPartition p
      → Moves R (status p i) (status (run p cs) i)
  unfolding run
  run-Moves p [] i h = stays
  run-Moves p (c ∷ cs) i h =
      chain (status p i) (status (after p c) i) (status (run (after p c) cs) i)
        (after-Moves p c i h) (run-Moves (after p c) cs i (after-IsPartition p c h))

  -- A target that has not ended is in the deque or in the map.
  unended : (s : Slots R) → all is_some s ≡ false → (i : ℕ) × (get_elem? s i ≡ some none)
  unended [] h = absurd (cc)
  unended (none ∷ s) h = (0, refl)
  unended (some o ∷ s) h = let (i, e) = unended s h in (suc i, e)

  -- After `admit`, while the plan has room for a call at all, an unfinished fan-out has a call
  -- running: its targets never all wait.
  pub admit-runs :
      (p : Plan R)
      → IsPartition p
      → 0 < p.limits.max_concurrency
      → is_done (admit p).0 ≡ false
      → 0 < length (admit p).0.running
  unfolding admit is_done
  admit-runs p h c d =
      let (i, e) = unended p.settled d in
      let room = p.limits.max_concurrency in
      let filling = fill room p.waiting p.running in
      let inside = lt→ltb i (length p.settled) (get-inside i p.settled none e) in
      elim (Bool-cases (ltb 0 (length filling.1.0))) [
        | inl f ↦ ltb→lt 0 (length filling.1.0) f
        | inr f ↦
            let idle = fill-full room p.waiting p.running c (ground arith) in
            absurd (
              omega (
                arith,
                rw (e, inside) at ((admit-IsPartition p h).0 i),
                ap (count i) idle,
                count-keys i filling.1.0,
                nothing (length filling.1.0) f,
              ))
      ]
    where
      nothing : (n : ℕ) → ltb 0 n ≡ false → n ≡ 0
      nothing n f = ground arith
