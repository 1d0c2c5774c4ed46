-- ===== src/Fanout/Tests.antt =====
-- A fan-out to three targets, two at a time, and the theorems at it.
use citadel_agent.Prelude.{ℕ, ◌≡◌, ◌<◌, refl, some, List, [], ◌∷◌, length, arith}
use citadel_agent.Fanout.{
  FanoutLimits, Plan, ok, skipped, failed, limit, limit_per_call_ms, limit_total_bytes, new, admit,
  count_bytes, settle_target, stop_all, elapse, is_done, outcomes, Call, starts, settles, passes,
  stops, after, run,
}
use citadel_agent.Fanout.Parts.{IsPartition, reach-IsPartition}
use citadel_agent.Fanout.Life.{Moves, status, run-Moves, admit-runs}

abbrev limits : FanoutLimits
limits = record { max_concurrency = 2; per_call_ms = 100; budget_ms = 1000; max_total_bytes = 10 }

abbrev fresh : Plan ℕ
fresh = new 3 limits

abbrev calls : List (Call ℕ)
calls = starts ∷ settles 1 (ok 7) ∷ starts ∷ passes 60 ∷ []

cap_is_kept : (admit fresh).1 ≡ 0 ∷ 1 ∷ []
unfolding new admit
cap_is_kept = refl

late_calls_stop :
    (elapse (run fresh calls) 40).1
    ≡ (0, failed (limit limit_per_call_ms)) ∷ (2, failed (limit limit_per_call_ms)) ∷ []
unfolding new run after admit settle_target elapse
late_calls_stop = refl

bytes_are_capped : (count_bytes (run fresh calls) 0 11).1 ≡ some (limit limit_total_bytes)
unfolding new run after admit settle_target elapse count_bytes
bytes_are_capped = refl

cancelled : (outcomes (after (admit fresh).0 stops)).1 ≡ skipped ∷ skipped ∷ skipped ∷ []
unfolding new admit after stop_all outcomes
cancelled = refl

reach-IsPartition_example : IsPartition (run (new 3 limits) calls)
reach-IsPartition_example = reach-IsPartition ℕ 3 limits calls

run-Moves_example :
    Moves ℕ
      (status (run (new 3 limits) (starts ∷ [])) 2)
      (status (run (run (new 3 limits) (starts ∷ [])) calls) 2)
run-Moves_example =
    run-Moves (run (new 3 limits) (starts ∷ [])) calls 2
      (reach-IsPartition ℕ 3 limits (starts ∷ []))

admit-runs_example : 0 < length (admit (run (new {R = ℕ} 3 limits) (starts ∷ []))).0.running
unfolding run after new admit is_done
admit-runs_example =
    admit-runs (run (new 3 limits) (starts ∷ [])) (reach-IsPartition ℕ 3 limits (starts ∷ []))
      (omega arith) refl
