-- ===== src/Subscribers/Tests.antt =====
-- Windows that come and go, and the theorems at them.
use citadel_agent.Prelude.{◌≡◌, refl, true, some, List, [], ◌∷◌}
use citadel_agent.Subscribers.{Attached, attach, leave, Call, attaching, after, run, new}
use citadel_agent.Subscribers.Members.{IsValid, IsLeft, reach-IsValid, leave-IsLeft}

abbrev calls : List Call
calls = attaching 2 ∷ attaching 3 ∷ attaching 2 ∷ []

abbrev attached : Attached
attached = run (new 1) calls

members : attached.order ≡ 1 ∷ 2 ∷ 3 ∷ []
unfolding run after attach
members = refl

promotes : (leave attached 1 true).1.promoted ≡ some 2
unfolding leave run after attach
promotes = refl

reach-IsValid_example : IsValid (run (new 1) calls)
reach-IsValid_example = reach-IsValid 1 calls

leave-IsLeft_example : IsLeft attached 1 (leave attached 1 true)
leave-IsLeft_example = leave-IsLeft attached 1 true (reach-IsValid 1 calls)
