-- ===== src/Grants/Tests.antt =====
-- One install asked for, answered and lost, and the theorem at it.
use citadel_agent.Prelude.{ℕ, ◌-◌, ◌<◌, ◌≡◌, refl, true, false, some, List, [], ◌∷◌}
use citadel_agent.Grants.{
  grant_ttl_ms, link_is_down, remembered, resolve, on_server_frame, grants, Step, resolves, hears,
  link_down, after, state_after,
}
use citadel_agent.Grants.Told.{fresh, Told, down_by, resolve-Told}

-- The latest first: the answer to the question, and the question.
abbrev steps : List Step
steps = hears 150 7 (grants 3 0 (some 8)) ∷ resolves 100 7 3 ∷ []

answered_from_memory : (resolve 200 7 3 (state_after fresh steps)).1 ≡ remembered (some 8)
unfolding resolve state_after after on_server_frame
answered_from_memory = refl

not_while_the_link_is_down :
    (resolve 200 7 3 (state_after fresh (link_down 7 ∷ steps))).1 ≡ link_is_down
unfolding resolve state_after after on_server_frame
not_while_the_link_is_down = refl

a_window's_answer_goes_on :
    (on_server_frame 150 7 (grants 4 0 (some 8)) (state_after fresh steps)).1 ≡ true
unfolding resolve state_after after on_server_frame
a_window's_answer_goes_on = refl

resolve-Told_example :
    ((at : ℕ) × (Told 7 3 (some 8, at) steps × (200 - at < grant_ttl_ms)))
    × (down_by 7 steps ≡ false)
resolve-Told_example = resolve-Told 200 7 3 steps (some 8) answered_from_memory
