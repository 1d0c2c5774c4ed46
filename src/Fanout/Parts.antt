-- ===== src/Fanout/Parts.antt =====
-- Every target of a fan-out is in exactly one place (citadel-app-sdk/src/ihttp/fanout_plan.rs).
use citadel_agent.Prelude.{
  ℕ, zero, suc, ◌+◌, ◌≤◌, ◌<◌, ◌≡◌, refl, sym, subst, ◌∙◌, inl, inr, Bool, true, false, Bool-cases,
  Option, none, some, List, [], ◌∷◌, ltb, leb, ◌==◌, if◌then◌else◌, length, arith, ==→eq, ==_refl,
  lt→ltb, ltb→lt, min,
}
use citadel_agent.Fanout.{
  FanoutLimits, Plan, Outcome, skipped, range, replicate, get_elem?, set_elem, remove, keys,
  retain_other, zero_limit, first_slot, new, admit, count_bytes, settle_slot, settle_target,
  skip_all, stop_all, run_on, elapse, u32_max, Call, starts, arrives, settles, passes, stops, after,
  run,
}
use citadel_agent.Fanout.Targets.{
  count, one_if, count-remove, count-retain_other, count-range, keys-run_on, length-run_on,
  length-remove, length-set_elem, length-replicate, get-replicate, get-set_same, get-set_other,
  count-fill, length-fill,
}

abbrev pub Slots : Type 0 → Type 0
Slots R = List (Option (Outcome R))

pub one_if-small : (b : Bool) → one_if b ≤ 1
one_if-small true = omega arith
one_if-small false = omega arith

range-if : (i targets : ℕ) → count i (range 0 targets) ≡ (if ltb i targets then 1 else 0)
range-if i targets = count-range i 0 targets ∙ ground arith

module _ {R : Type 0} where
  abbrev pub filled : Option (Option (Outcome R)) → ℕ
  filled none = 0
  filled (some none) = 0
  filled (some (some o)) = 1

  abbrev pub IsPlaced : List ℕ → List (ℕ × ℕ) → Slots R → Type 0
  IsPlaced ws m s =
      (i : ℕ) → (count i ws + count i (keys m)) + filled (get_elem? s i) ≡ one_if (ltb i (length s))

  -- Each target waits, runs or is settled, one of these and once, and the cap is kept.
  abbrev pub IsPartition : Plan R → Type 0
  IsPartition p =
      IsPlaced p.waiting p.running p.settled × (length p.running ≤ p.limits.max_concurrency)

  pub get-inside :
      (i : ℕ) (s : Slots R) (o : Option (Outcome R)) → get_elem? s i ≡ some o → i < length s
  get-inside i [] o h = absurd (cc)
  get-inside zero (x ∷ s) o h = omega arith
  get-inside (suc i) (x ∷ s) o h = omega (arith, get-inside i s o h)

  -- The slot of a target that is in no other place is empty.
  new_slot :
      (i targets waits : ℕ) (o : Option (Outcome R))
      → waits + filled (some o) ≡ 1
      → ((if ltb i targets then waits else 0) + 0) + filled (if ltb i targets then some o else none)
        ≡ one_if (ltb i targets)
  new_slot i targets waits o e = elim (Bool-cases (ltb i targets)) [
    | inl f ↦ rw f (omega (arith, e))
    | inr f ↦ rw f refl
  ]

  pub placed_once :
      (ws : List ℕ) (m : List (ℕ × ℕ)) (s : Slots R)
      → IsPlaced ws m s
      → (i : ℕ) → count i ws + count i (keys m) ≤ 1
  placed_once ws m s h i = omega (arith, h i, one_if-small (ltb i (length s)))

  pub admit-IsPartition : (p : Plan R) → IsPartition p → IsPartition (admit p).0
  unfolding admit
  admit-IsPartition p (h, c) =
      let cap = p.limits.max_concurrency in
      (
        λ i. omega (
          arith,
          h i,
          count-fill cap i p.waiting p.running (placed_once p.waiting p.running p.settled h),
        ),
        length-fill cap p.waiting p.running c,
      )

  slot-IsPlaced :
      (i : ℕ) (o : Outcome R) (ws : List ℕ) (m : List (ℕ × ℕ)) (s : Slots R)
      → get_elem? s i ≡ some none
      → IsPlaced ws m s
      → IsPlaced (retain_other i ws) (remove i m) (set_elem i (some o) s)
  slot-IsPlaced i o ws m s e h j = elim (Bool-cases (j == i)) [
    | inl here ↦ subst (λ k. At k) (sym (==→eq j i here)) placed
    | inr other ↦
        rw
          (
            count-retain_other j i ws,
            count-remove j i m,
            get-set_other i j (some o) s other,
            length-set_elem i (some o) s,
            other,
          )
          (h j)
  ]
    where
      At : ℕ → Type 0
      At k =
          (count k (retain_other i ws) + count k (keys (remove i m)))
            + filled (get_elem? (set_elem i (some o) s) k)
          ≡ one_if (ltb k (length (set_elem i (some o) s)))

      inside : i < length s
      inside = get-inside i s none e

      placed : At i
      placed =
          rw
            (
              count-retain_other i i ws,
              count-remove i i m,
              get-set_same i (some o) s inside,
              length-set_elem i (some o) s,
              ==_refl i,
              lt→ltb i (length s) inside,
            )
            refl

  settle_slot-IsPartition :
      (p : Plan R) (i : ℕ) (o : Outcome R) (slot : Option (Option (Outcome R)))
      → get_elem? p.settled i ≡ slot
      → IsPartition p
      → IsPartition (settle_slot p i o slot).0
  settle_slot-IsPartition p i o none e h = h
  settle_slot-IsPartition p i o (some (some q)) e h = h
  settle_slot-IsPartition p i o (some none) e (h, c) = (
    slot-IsPlaced i o p.waiting p.running p.settled e h,
    omega (arith, length-remove i p.running),
  )

  settle-IsPartition :
      (p : Plan R) (i : ℕ) (o : Outcome R) → IsPartition p → IsPartition (settle_target p i o).0
  unfolding settle_target
  settle-IsPartition p i o = settle_slot-IsPartition p i o (get_elem? p.settled i) refl

  pub skip_all-untouched :
      (i : ℕ) (ws : List ℕ) (s : Slots R)
      → count i ws ≡ 0
      → get_elem? (skip_all ws s) i ≡ get_elem? s i
  skip_all-untouched i [] s h = refl
  skip_all-untouched i (w ∷ ws) s h =
      skip_all-untouched i ws (set_elem w (some skipped) s) (ground arith)
      ∙ get-set_other w i (some skipped) s (ground arith)

  length-skip_all : (ws : List ℕ) (s : Slots R) → length (skip_all ws s) ≡ length s
  length-skip_all [] s = refl
  length-skip_all (w ∷ ws) s =
      length-skip_all ws (set_elem w (some skipped) s) ∙ length-set_elem w (some skipped) s

  pub skip_all-touched :
      (i : ℕ) (ws : List ℕ) (s : Slots R)
      → 0 < count i ws
      → i < length s
      → get_elem? (skip_all ws s) i ≡ some (some skipped)
  skip_all-touched i [] s h l = absurd (omega arith)
  skip_all-touched i (w ∷ ws) s h l =
      let t = set_elem w (some skipped) s in
      let len = length-set_elem w (some skipped) s in
      elim (Bool-cases (ltb 0 (count i ws))) [
        | inl more ↦ skip_all-touched i ws t (ltb→lt 0 (count i ws) more) (omega (arith, len))
        | inr last ↦ skip_all-untouched i ws t (ground arith) ∙ once w (ground arith)
      ]
    where
      once :
          (k : ℕ)
          → (i == k) ≡ true
          → get_elem? (set_elem k (some skipped) s) i ≡ some (some skipped)
      once k e =
          subst (λ n. get_elem? (set_elem n (some skipped) s) i ≡ some (some skipped)) (==→eq i k e)
            (get-set_same i (some skipped) s l)

  -- What waits is a slot of the plan.
  pub waiting_inside :
      (i : ℕ) (ws : List ℕ) (m : List (ℕ × ℕ)) (s : Slots R)
      → IsPlaced ws m s
      → 0 < count i ws
      → i < length s
  waiting_inside i ws m s h l = elim (Bool-cases (ltb i (length s))) [
    | inl e ↦ ltb→lt i (length s) e
    | inr e ↦ absurd (omega (arith, rw e at (h i)))
  ]

  stop-IsPlaced :
      (ws : List ℕ) (m : List (ℕ × ℕ)) (s : Slots R)
      → IsPlaced ws m s
      → IsPlaced [] m (skip_all ws s)
  stop-IsPlaced ws m s h i = elim (Bool-cases (ltb 0 (count i ws))) [
    | inl e ↦
        let l = waiting_inside i ws m s h (ltb→lt 0 (count i ws) e) in
        rw
          (
            skip_all-touched i ws s (ltb→lt 0 (count i ws) e) l,
            length-skip_all ws s,
            lt→ltb i (length s) l,
          )
          (ground (arith, placed_once ws m s h i))
    | inr e ↦
        rw (skip_all-untouched i ws s (ground arith), length-skip_all ws s) (ground (arith, h i))
  ]

  stop-IsPartition : (p : Plan R) → IsPartition p → IsPartition (stop_all p).0
  unfolding stop_all
  stop-IsPartition p (h, c) = (stop-IsPlaced p.waiting p.running p.settled h, c)

  elapse-IsPartition : (p : Plan R) (ms : ℕ) → IsPartition p → IsPartition (elapse p ms).0
  unfolding elapse stop_all
  elapse-IsPartition p ms (h, c) =
      elim (Bool-cases (leb p.limits.budget_ms (min (p.elapsed_ms + ms) u32_max))) [
        | inl e ↦ rw e (stop-IsPlaced p.waiting p.running p.settled h, c)
        | inr e ↦ rw e (kept, rw (length-run_on ms p.running) c)
      ]
    where
      kept : IsPlaced p.waiting (run_on ms p.running) p.settled
      kept i = rw (keys-run_on ms p.running) (h i)

  pub after-IsPartition : (p : Plan R) (c : Call R) → IsPartition p → IsPartition (after p c)
  unfolding after count_bytes
  after-IsPartition p starts h = admit-IsPartition p h
  after-IsPartition p (arrives i n) h = h
  after-IsPartition p (settles i o) h = settle-IsPartition p i o h
  after-IsPartition p (passes ms) h = elapse-IsPartition p ms h
  after-IsPartition p stops h = stop-IsPartition p h

  run-IsPartition : (p : Plan R) (cs : List (Call R)) → IsPartition p → IsPartition (run p cs)
  unfolding run
  run-IsPartition p [] h = h
  run-IsPartition p (c ∷ cs) h = run-IsPartition (after p c) cs (after-IsPartition p c h)

module _ (R : Type 0) where
  new-IsPartition : (targets : ℕ) (limits : FanoutLimits) → IsPartition (new {R = R} targets limits)
  unfolding new
  new-IsPartition targets limits = (placed (zero_limit limits), omega arith)
    where
      placed :
          (refused : Bool)
          → IsPlaced
              (if refused then [] else range 0 targets)
              []
              (replicate targets (first_slot {R = R} refused))
      placed true i =
          rw
            (
              get-replicate i targets (first_slot {R = R} true),
              length-replicate targets (first_slot {R = R} true),
            )
            (elim (Bool-cases (ltb i targets)) [ inl f ↦ rw f refl | inr f ↦ rw f refl ])
      placed false i =
          rw
            (
              get-replicate i targets (first_slot {R = R} false),
              length-replicate targets (first_slot {R = R} false),
              range-if i targets,
            )
            (new_slot i targets 1 none refl)

  -- After any calls on a new plan every target is in one place and once: it waits, it runs, or its
  -- slot holds what it came to; nothing else waits or runs, and no more run than the cap.
  pub reach-IsPartition :
      (targets : ℕ) (limits : FanoutLimits) (cs : List (Call R))
      → IsPartition (run (new {R = R} targets limits) cs)
  reach-IsPartition targets limits cs =
      run-IsPartition (new targets limits) cs (new-IsPartition targets limits)
