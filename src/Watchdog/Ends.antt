-- ===== src/Watchdog/Ends.antt =====
-- The watchdog comes to an end (updater/watchdog.rs).
use citadel_agent.Prelude.{
  ℕ, zero, suc, ◌+◌, ◌≤◌, ◌<◌, ◌≡◌, refl, inl, inr, Bool-cases, false, Option, none, some, [], ◌∷◌,
  leb, if_cases, arith,
}
use citadel_agent.Assoc.{none≢some}
use citadel_agent.Watchdog.{
  parent_exit, healthy_within, it_exited, did_not_answer, did_not_start, spawns, WatchIo, Exit,
  gone, stuck, wait_exit, Health, well, ill, wait_healthy, Run, after_health, start_new, after_exit,
  supervise, roll_back,
}

-- Each pause of a loop takes a nanosecond at least.
abbrev pub Advances : ℕ → (ℕ → ℕ) → Type 0
Advances start clock = (k : ℕ) → start + k ≤ clock k

abbrev pub IsKnown {ℓ} : {A : Type ℓ} → Option A → Type ℓ
IsKnown {A = A} o = (a : A) × (o ≡ some a)

wait_exit-IsKnown :
    (io : WatchIo) (fuel k : ℕ)
    → Advances io.first io.waited
    → k ≤ parent_exit
    → parent_exit < k + fuel
    → IsKnown (wait_exit io fuel k)
unfolding wait_exit
wait_exit-IsKnown io zero k c b h = absurd (omega arith)
wait_exit-IsKnown io (suc fuel) k c b h = elim (Bool-cases (io.alive k)) [
  | inr e ↦ (gone, rw e refl)
  | inl e ↦ elim (Bool-cases (leb (io.first + parent_exit) (io.waited k))) [
    | inl f ↦ (stuck, rw (e, f) refl)
    | inr f ↦
        let soon : io.waited k < io.first + parent_exit = ground arith in
        let (o, r) = wait_exit-IsKnown io fuel (suc k) c (omega (arith, soon, c k)) (omega arith) in
        (o, rw (e, f) r)
  ]
]

wait_healthy-IsKnown :
    (io : WatchIo) (fuel k : ℕ)
    → Advances io.second io.probed
    → k ≤ healthy_within
    → healthy_within < k + fuel
    → IsKnown (wait_healthy io fuel k)
unfolding wait_healthy
wait_healthy-IsKnown io zero k c b h = absurd (omega arith)
wait_healthy-IsKnown io (suc fuel) k c b h = elim (Bool-cases (io.exited k)) [
  | inl e ↦ (ill it_exited, rw e refl)
  | inr e ↦ elim (Bool-cases (io.answers k)) [
    | inl f ↦ (well, rw (e, f) refl)
    | inr f ↦ elim (Bool-cases (leb (io.second + healthy_within) (io.probed k))) [
      | inl g ↦ (ill did_not_answer, rw (e, f, g) refl)
      | inr g ↦
          let soon : io.probed k < io.second + healthy_within = ground arith in
          let (o, r) =
            wait_healthy-IsKnown io fuel (suc k) c (omega (arith, soon, c k)) (omega arith) in
          (o, rw (e, f, g) r)
    ]
  ]
]

after_health-IsKnown : (io : WatchIo) (h : Option Health) → IsKnown h → IsKnown (after_health io h)
after_health-IsKnown io none (a, e) = absurd (none≢some a e)
after_health-IsKnown io (some well) k = (_, refl)
after_health-IsKnown io (some (ill why)) k = (_, refl)

start_new-IsKnown :
    (io : WatchIo) (fuel : ℕ)
    → Advances io.second io.probed
    → healthy_within < fuel
    → IsKnown (start_new io fuel)
start_new-IsKnown io fuel c h =
    if_cases IsKnown io.spawned (after_health io (wait_healthy io fuel 0))
      (some (roll_back io did_not_start (spawns false ∷ [])))
      (after_health-IsKnown io (wait_healthy io fuel 0)
        (wait_healthy-IsKnown io fuel 0 c (omega arith) (omega arith)))
      (_, refl)

after_exit-IsKnown :
    (io : WatchIo) (fuel : ℕ) (o : Option Exit)
    → Advances io.second io.probed
    → healthy_within < fuel
    → IsKnown o
    → IsKnown (after_exit io fuel o)
after_exit-IsKnown io fuel none c h (a, e) = absurd (none≢some a e)
after_exit-IsKnown io fuel (some stuck) c h k = (_, refl)
after_exit-IsKnown io fuel (some gone) c h k = start_new-IsKnown io fuel c h

-- If each pause of a loop takes a nanosecond at least, the watchdog comes to an end, whatever the
-- two agents do: within as many turns of a loop as its time has nanoseconds.
pub supervise-ends :
    (io : WatchIo) (fuel : ℕ)
    → Advances io.first io.waited
    → Advances io.second io.probed
    → healthy_within < fuel
    → (r : Run) × (supervise io fuel ≡ some r)
unfolding supervise
supervise-ends io fuel c d h =
    after_exit-IsKnown io fuel (wait_exit io fuel 0) d h
      (wait_exit-IsKnown io fuel 0 c (omega arith) (omega arith))
