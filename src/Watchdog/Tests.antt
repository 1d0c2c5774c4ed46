-- ===== src/Watchdog/Tests.antt =====
-- A watchdog whose new agent never answers, and the theorems at it.
use citadel_agent.Prelude.{◌+◌, ◌*◌, ◌≡◌, refl, true, false, some, [], ◌∷◌, ltb, arith}
use citadel_agent.Watchdog.{
  healthy_within, WatchIo, healthy, rolled_back, spawns, kills, renames, marks, target, backup,
  did_not_answer, Run, wait_exit, wait_healthy, supervise,
}
use citadel_agent.Watchdog.Ends.{supervise-ends}
use citadel_agent.Watchdog.Restores.{Accounts, supervise-Accounts}

-- The old agent goes at the third turn; a turn takes half a minute.
abbrev silent : WatchIo
silent = record {
  first = 0;
  alive = λ k. ltb k 2;
  waited = λ k. k * 10000000000;
  spawned = true;
  renamed = true;
  respawned = true;
  second = 0;
  exited = λ k. false;
  answers = λ k. false;
  probed = λ k. k * 30000000000;
}

puts_the_old_one_back :
    supervise silent 5
    ≡ some (
      rolled_back,
      spawns true ∷ kills ∷ marks did_not_answer ∷ renames backup target true ∷ spawns true ∷ [],
    )
unfolding supervise wait_exit wait_healthy
puts_the_old_one_back = refl

keeps_one_that_answers :
    supervise (record silent { answers = λ k. true }) 5 ≡ some (healthy, spawns true ∷ [])
unfolding supervise wait_exit wait_healthy
keeps_one_that_answers = refl

supervise-ends_example : (r : Run) × (supervise silent (healthy_within + 1) ≡ some r)
supervise-ends_example =
    supervise-ends silent (healthy_within + 1) (λ k. omega arith) (λ k. omega arith) (omega arith)

supervise-Accounts_example : Accounts silent (
  rolled_back,
  spawns true ∷ kills ∷ marks did_not_answer ∷ renames backup target true ∷ spawns true ∷ [],
)
supervise-Accounts_example = supervise-Accounts silent 5 _ puts_the_old_one_back
