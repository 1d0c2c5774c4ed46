-- ===== src/Media/Tests.antt =====
-- The media lane at concrete runs, and the theorems at them.
use mathlib.Core.List.{Sublistᴰ}
use citadel_agent.Prelude.{ℕ, ◌≡◌, refl, List, [], ◌∷◌, ◌++◌, arith}
use citadel_agent.Media.Lane.{
  Lane, Op, push, close, signalled, inspect, wake, media_lane, enqueue, push_item, close_lane,
  send_signal, inspect_queue, take_signal, step, run,
}
use citadel_agent.Media.Bounded.{pushed, IsBounded, run-in_order, run-IsBounded}
use citadel_agent.Media.Wakeup.{IsAwake, reach-IsAwake}

abbrev lane : Lane ℕ
lane = media_lane 2

-- Three frames into a lane for two, then two deliveries.
abbrev ops : List (Op ℕ)
ops = inspect ∷ push 1 ∷ push 2 ∷ push 3 ∷ signalled ∷ wake ∷ inspect ∷ inspect ∷ close ∷ []

keeps_the_latest : (run lane ops).1 ≡ 2 ∷ 3 ∷ []
unfolding run step push_item enqueue close_lane send_signal inspect_queue take_signal
keeps_the_latest = refl

run-in_order_example :
    Sublistᴰ ((run lane ops).1 ++ (run lane ops).0.state.queue) (lane.state.queue ++ pushed ops)
run-in_order_example = run-in_order lane ops

run-IsBounded_example : IsBounded (run lane ops).0
run-IsBounded_example = run-IsBounded lane ops (omega arith)

reach-IsAwake_example : IsAwake (run (media_lane 2) ops).0.receiver (run (media_lane 2) ops).0
reach-IsAwake_example = reach-IsAwake 2 ops
