-- ===== src/Supervisor/Healing/Run.antt =====
-- `Healing` and `Healed` alternate over any run (kernel/supervisor/core/mod.rs, `Core::step`).
use citadel_agent.Prelude.{◌≡◌, ◌∙◌, ap, sym, inl, inr, some, List, [], ◌∷◌, Bool-cases}
use citadel_agent.Supervisor.Types.{Input, Cid}
use citadel_agent.Supervisor.Policy.{SupervisorPolicy}
use citadel_agent.Supervisor.Core.State.{Core, new}
use citadel_agent.Supervisor.Core.Step.{step, run, is_ended, time_of}
use citadel_agent.Supervisor.Healing.{follow, follow-append, follow-IsQuiet}
use citadel_agent.Supervisor.Healing.Drives.{drive-IsQuiet, drive-healing}
use citadel_agent.Supervisor.Healing.Parts.{Follows, handle-Follows}

step-Follows : (c : Core) (i : Input) → Follows c (step c i)
unfolding step
step-Follows c i = elim (Bool-cases (is_ended c.link)) [
  | inl e ↦ rw e (follow-IsQuiet c.healing [] tt)
  | inr e ↦ rw e (
      follow-append c.healing _ _ (handle-Follows _ i (time_of i c.now))
      ∙ follow-IsQuiet _ _ (drive-IsQuiet _ _)
      ∙ ap some (sym (drive-healing _ _)))
]

run-Follows : (is : List Input) (c : Core) → Follows c (run c is)
unfolding run
run-Follows [] c = follow-IsQuiet c.healing [] tt
run-Follows (i ∷ is) c =
    follow-append c.healing _ _ (step-Follows c i) ∙ run-Follows is (step c i).0

-- Over any run of a new core the reports `Healing` and `Healed` about the link strictly
-- alternate, beginning with `Healing`, and the flag `healing` says whether one is outstanding.
pub reports_alternate :
    (policy : SupervisorPolicy) (cid : Cid) (is : List Input)
    → follow (new policy cid).healing (run (new policy cid) is).1
      ≡ some (run (new policy cid) is).0.healing
reports_alternate policy cid is = run-Follows is (new policy cid)
