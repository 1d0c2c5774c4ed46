-- ===== src/Watchdog/Restores.antt =====
-- What the watchdog has done when it ends (updater/watchdog.rs).
use citadel_agent.Prelude.{
  ℕ, zero, suc, ◌+◌, ◌≤◌, ◌≡◌, refl, subst, Bool, true, false, Option, none, some, List, [], ◌∷◌,
  leb, if_known, arith,
}
use citadel_agent.Watchdog.{
  parent_exit, healthy_within, healthy, rolled_back, parent_stuck, Why, old_did_not_exit,
  did_not_start, it_exited, did_not_answer, PlanPath, target, backup, Effect, spawns, kills,
  renames, marks, WatchIo, Exit, gone, stuck, wait_exit, Health, well, ill, wait_healthy, Run,
  after_health, after_exit, supervise,
}

-- The old agent was seen gone at some turn.
abbrev pub IsGone : WatchIo → Type 0
IsGone io = (k : ℕ) × (io.alive k ≡ false)

-- It was seen running when its time was over.
abbrev pub IsStuck : WatchIo → Type 0
IsStuck io = (k : ℕ) × ((io.alive k ≡ true) × (io.first + parent_exit ≤ io.waited k))

-- The new agent answered at some turn, at which it was running.
abbrev pub IsAnswering : WatchIo → Type 0
IsAnswering io = (k : ℕ) × ((io.exited k ≡ false) × (io.answers k ≡ true))

-- Why a new agent was not kept: it did not start, or it started and exited or its time was over.
abbrev pub IsReason : WatchIo → Why → Type 0
IsReason io old_did_not_exit = ⊥
IsReason io did_not_start = io.spawned ≡ false
IsReason io it_exited = (io.spawned ≡ true) × ((k : ℕ) × (io.exited k ≡ true))
IsReason io did_not_answer =
    (io.spawned ≡ true)
    × ((k : ℕ) × ((io.answers k ≡ false) × (io.second + healthy_within ≤ io.probed k)))

-- The two versions of the agent.
pub data Binary : Type 0 where
  updated previous : Binary

-- The files of a plan, which version the watchdog has running, and the failure that is marked.
pub record Machine : Type 0 where
  pub at_target : Option Binary
  pub at_backup : Option Binary
  pub running : Option Binary
  pub marked : Option Why

abbrev pub held : PlanPath → Machine → Option Binary
held target m = m.at_target
held backup m = m.at_backup

abbrev pub put : PlanPath → Option Binary → Machine → Machine
put target file m = record m { at_target = file }
put backup file m = record m { at_backup = file }

-- What a call does: a rename moves a file, a start runs what is at the target.
abbrev pub apply : Effect → Machine → Machine
apply (spawns true) m = record m { running = m.at_target }
apply (spawns false) m = m
apply kills m = record m { running = none }
apply (renames from to true) m = put to (held from m) (put from none m)
apply (renames from to false) m = m
apply (marks why) m = record m { marked = some why }

abbrev pub replay : List Effect → Machine → Machine
replay [] m = m
replay (e ∷ es) m = replay es (apply e m)

-- Where a watchdog begins: the update is in place, and what it replaced is kept.
abbrev pub installed : Machine
installed = record {
  at_target = some updated;
  at_backup = some previous;
  running = none;
  marked = none;
}

-- The old version is back, if it could be moved, and the failure is marked.
abbrev pub put_back : Bool → Why → Machine
put_back true why = record {
  at_target = some previous;
  at_backup = none;
  running = none;
  marked = some why;
}
put_back false why = record installed { marked = some why }

-- What is at the target runs, if it started.
abbrev pub started : Bool → Machine → Machine
started true m = record m { running = m.at_target }
started false m = m

-- The failure is marked before any file is touched.
abbrev pub IsMarkedFirst : Why → List Effect → Type 0
IsMarkedFirst why [] = ⊥
IsMarkedFirst why (renames from to moved ∷ es) = ⊥
IsMarkedFirst why (marks reason ∷ es) = reason ≡ why
IsMarkedFirst why (spawns ok ∷ es) = IsMarkedFirst why es
IsMarkedFirst why (kills ∷ es) = IsMarkedFirst why es

-- What each outcome stands for, and how it leaves the machine.
abbrev pub Accounts : WatchIo → Run → Type 0
Accounts io (healthy, effects) =
    IsGone io
    × (IsAnswering io × ((io.spawned ≡ true) × (replay effects installed ≡ started true installed)))
Accounts io (parent_stuck, effects) =
    IsStuck io
    × (IsMarkedFirst old_did_not_exit effects
        × (replay effects installed ≡ put_back io.renamed old_did_not_exit))
Accounts io (rolled_back, effects) =
    IsGone io
    × ((why : Why) × (IsReason io why
          × (IsMarkedFirst why effects
              × (replay effects installed ≡ started io.respawned (put_back io.renamed why)))))

restored :
    (why : Why) (moved : Bool)
    → replay (marks why ∷ renames backup target moved ∷ []) installed ≡ put_back moved why
restored why true = refl
restored why false = refl

never_started :
    (why : Why) (moved again : Bool)
    → replay (spawns false ∷ marks why ∷ renames backup target moved ∷ spawns again ∷ []) installed
      ≡ started again (put_back moved why)
never_started why true true = refl
never_started why true false = refl
never_started why false true = refl
never_started why false false = refl

stopped :
    (why : Why) (moved again : Bool)
    → replay
        (spawns true ∷ kills ∷ marks why ∷ renames backup target moved ∷ spawns again ∷ [])
        installed
      ≡ started again (put_back moved why)
stopped why true true = refl
stopped why true false = refl
stopped why false true = refl
stopped why false false = refl

IsExit : WatchIo → Option Exit → Type 0
IsExit io none = Unit
IsExit io (some gone) = IsGone io
IsExit io (some stuck) = IsStuck io

wait_exit-IsExit : (io : WatchIo) (fuel k : ℕ) → IsExit io (wait_exit io fuel k)
unfolding wait_exit IsExit
wait_exit-IsExit io zero k = tt
wait_exit-IsExit io (suc fuel) k =
    if_known (IsExit io) (io.alive k) _ _
      (λ e.
        if_known (IsExit io) (leb (io.first + parent_exit) (io.waited k)) _ _
          (λ f. (k, (e, ground arith))) (λ f. wait_exit-IsExit io fuel (suc k)))
      (λ e. (k, e))

-- Of an agent that started.
IsHealth : WatchIo → Option Health → Type 0
IsHealth io none = Unit
IsHealth io (some well) = IsAnswering io
IsHealth io (some (ill why)) = io.spawned ≡ true → IsReason io why

wait_healthy-IsHealth : (io : WatchIo) (fuel k : ℕ) → IsHealth io (wait_healthy io fuel k)
unfolding wait_healthy IsHealth
wait_healthy-IsHealth io zero k = tt
wait_healthy-IsHealth io (suc fuel) k =
    if_known (IsHealth io) (io.exited k) _ _ (λ e s. (s, (k, e)))
      (λ e.
        if_known (IsHealth io) (io.answers k) _ _ (λ f. (k, (e, f)))
          (λ f.
            if_known (IsHealth io) (leb (io.second + healthy_within) (io.probed k)) _ _
              (λ g s. (s, (k, (f, ground arith)))) (λ g. wait_healthy-IsHealth io fuel (suc k))))

abbrev IsAccounted : WatchIo → Option Run → Type 0
IsAccounted io none = Unit
IsAccounted io (some r) = Accounts io r

after_health-IsAccounted :
    (io : WatchIo) (h : Option Health)
    → IsGone io
    → io.spawned ≡ true
    → IsHealth io h
    → IsAccounted io (after_health io h)
unfolding IsHealth
after_health-IsAccounted io none g s h = tt
after_health-IsAccounted io (some well) g s h = (g, (h, (s, refl)))
after_health-IsAccounted io (some (ill why)) g s h =
    (g, (why, (h s, (refl, stopped why io.renamed io.respawned))))

after_exit-IsAccounted :
    (io : WatchIo) (fuel : ℕ) (o : Option Exit)
    → IsExit io o
    → IsAccounted io (after_exit io fuel o)
unfolding IsExit
after_exit-IsAccounted io fuel none e = tt
after_exit-IsAccounted io fuel (some stuck) e = (e, (refl, restored old_did_not_exit io.renamed))
after_exit-IsAccounted io fuel (some gone) e =
    if_known (IsAccounted io) io.spawned _ _
      (λ s.
        after_health-IsAccounted io (wait_healthy io fuel 0) e s (wait_healthy-IsHealth io fuel 0))
      (λ s. (e, (did_not_start, (s, (refl, never_started did_not_start io.renamed io.respawned)))))

-- When the watchdog ends, its calls have left the machine so. Healthy: the old agent was gone, the
-- new one started, was running and answered, and it runs with both files as they were. Stuck: the
-- old agent still ran when its time was over, and none was started. Rolled back: the old agent was
-- gone, the new one did not start, exited or did not answer in time, and it is stopped. In the last
-- two the failure is marked with its reason before any file is moved, and the previous binary is at
-- the target exactly if the rename succeeded; after a rollback what is at the target runs exactly
-- if it started.
pub supervise-Accounts :
    (io : WatchIo) (fuel : ℕ) (r : Run) → supervise io fuel ≡ some r → Accounts io r
unfolding supervise
supervise-Accounts io fuel r h =
    subst (IsAccounted io) h
      (after_exit-IsAccounted io fuel (wait_exit io fuel 0) (wait_exit-IsExit io fuel 0))
