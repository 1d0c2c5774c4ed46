-- ===== src/Watchdog.antt =====
-- updater/watchdog.rs: `supervise` over what its `WatchIo` answers, turn by turn of its two loops,
-- with the calls that change something in the order they are made.
pub mod Ends
pub mod Restores
mod Tests
use citadel_agent.Prelude.{
  ℕ, zero, suc, ◌+◌, ◌*◌, Bool, true, false, Option, none, some, List, [], ◌∷◌, ◌++◌, leb,
  if◌then◌else◌,
}

-- In nanoseconds.
abbrev pub parent_exit : ℕ
parent_exit = 30 * 1000000000

abbrev pub healthy_within : ℕ
healthy_within = 60 * 1000000000

pub data Outcome : Type 0 where
  healthy rolled_back parent_stuck : Outcome

-- Why the new agent is not kept.
pub data Why : Type 0 where
  old_did_not_exit did_not_start it_exited did_not_answer : Why

-- The fields of a plan that name a file.
pub data PlanPath : Type 0 where
  target backup : PlanPath

-- The calls that change something, with whether a start or a rename succeeded. What is started is
-- the file at `target`.
pub data Effect : Type 0 where
  spawns : Bool → Effect
  kills : Effect
  renames : PlanPath → PlanPath → Bool → Effect
  marks : Why → Effect

-- What the system answers: `first` and `second` are the clock at the start of each loop, `spawned`,
-- `renamed` and `respawned` whether these calls succeed, and the rest is by the turn of the loop.
pub record WatchIo : Type 0 where
  pub first : ℕ
  pub alive : ℕ → Bool
  pub waited : ℕ → ℕ
  pub spawned : Bool
  pub renamed : Bool
  pub respawned : Bool
  pub second : ℕ
  pub exited : ℕ → Bool
  pub answers : ℕ → Bool
  pub probed : ℕ → ℕ

pub data Exit : Type 0 where
  gone stuck : Exit

-- The loop that waits for the old agent, from turn `k` on; none if the fuel runs out.
unfoldable pub wait_exit : WatchIo → ℕ → ℕ → Option Exit
wait_exit io zero k = none
wait_exit io (suc fuel) k =
    let more = wait_exit io fuel (suc k) in
    if io.alive k
    then if leb (io.first + parent_exit) (io.waited k) then some stuck else more
    else some gone

pub data Health : Type 0 where
  well : Health
  ill : Why → Health

unfoldable pub wait_healthy : WatchIo → ℕ → ℕ → Option Health
wait_healthy io zero k = none
wait_healthy io (suc fuel) k =
    let more = wait_healthy io fuel (suc k) in
    if io.exited k
    then some (ill it_exited)
    else if io.answers k
    then some well
    else if leb (io.second + healthy_within) (io.probed k)
    then some (ill did_not_answer)
    else more

abbrev pub restore : WatchIo → Why → List Effect
restore io why = marks why ∷ renames backup target io.renamed ∷ []

abbrev pub Run : Type 0
Run = Outcome × List Effect

abbrev pub roll_back : WatchIo → Why → List Effect → Run
roll_back io why before = (rolled_back, before ++ (restore io why ++ spawns io.respawned ∷ []))

-- Once the new agent has started.
abbrev pub after_health : WatchIo → Option Health → Option Run
after_health io none = none
after_health io (some well) = some (healthy, spawns true ∷ [])
after_health io (some (ill why)) = some (roll_back io why (spawns true ∷ kills ∷ []))

abbrev pub start_new : WatchIo → ℕ → Option Run
start_new io fuel =
    let kept = after_health io (wait_healthy io fuel 0) in
    if io.spawned then kept else some (roll_back io did_not_start (spawns false ∷ []))

abbrev pub after_exit : WatchIo → ℕ → Option Exit → Option Run
after_exit io fuel none = none
after_exit io fuel (some stuck) = some (parent_stuck, restore io old_did_not_exit)
after_exit io fuel (some gone) = start_new io fuel

unfoldable pub supervise : WatchIo → ℕ → Option Run
supervise io fuel = after_exit io fuel (wait_exit io fuel 0)

-- The exit code of a watchdog.
abbrev pub exit_code : Outcome → ℕ
exit_code healthy = 0
exit_code rolled_back = 1
exit_code parent_stuck = 2
