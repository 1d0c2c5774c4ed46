-- ===== src/Supervisor/Ended.antt =====
-- A session whose link has ended (kernel/supervisor/core/mod.rs, `step`; core/link.rs,
-- `link_changed`).
use citadel_agent.Prelude.{
  ◌≡◌, refl, ap, Bool, true, false, List, [], ◌∷◌, if◌then◌else◌, Bool-cases, inl, inr,
}
use citadel_agent.Supervisor.Types.{Millis, ended, Input, server_link, Command}
use citadel_agent.Supervisor.Core.State.{Core}
use citadel_agent.Supervisor.Core.Link.{link_changed}
use citadel_agent.Supervisor.Core.Drive.{drive}
use citadel_agent.Supervisor.Core.Step.{is_ended, handle, step, run}

if_true {ℓ} : {A : Type ℓ} (b : Bool) (x y : A) → b ≡ true → (if b then x else y) ≡ x
if_true true x y e = refl
if_true false x y e = absurd (cc)

if_false {ℓ} : {A : Type ℓ} (b : Bool) (x y : A) → b ≡ false → (if b then x else y) ≡ y
if_false true x y e = absurd (cc)
if_false false x y e = refl

step_stays : (c : Core) (input : Input) → is_ended c.link ≡ true → step c input ≡ (c, [])
unfolding step
step_stays c input e = if_true (is_ended c.link) _ _ e

run_stays : (inputs : List Input) (c : Core) → is_ended c.link ≡ true → run c inputs ≡ (c, [])
unfolding run
run_stays [] c e = refl
run_stays (input ∷ inputs) c e = rw (step_stays c input e, run_stays inputs c e) refl

-- The step that ends the link.
ending_step :
    (c : Core) (now : Millis)
    → (is_ended (step c (server_link now ended)).0.link ≡ true)
      × ((step c (server_link now ended)).1 ≡ [])
unfolding step handle link_changed drive
ending_step c now = elim (Bool-cases (is_ended c.link)) [
  | inl e ↦ rw (step_stays c (server_link now ended) e) (e, refl)
  | inr e ↦ (
    ap (λ (r : Core × List Command). is_ended r.0.link) (if_false (is_ended c.link) _ _ e),
    ap (λ (r : Core × List Command). r.1) (if_false (is_ended c.link) _ _ e),
  )
]

-- Once the server link has ended, whatever comes later changes nothing: neither the step that ends
-- it nor any later one sends a command, so no probe, dial, upgrade or report follows.
pub run-ended :
    (c : Core) (now : Millis) (inputs : List Input)
    → run c (server_link now ended ∷ inputs) ≡ ((step c (server_link now ended)).0, [])
unfolding run
run-ended c now inputs =
    let (over, silent) = ending_step c now in
    let d = (step c (server_link now ended)).0 in rw (run_stays inputs d over, silent) refl
