-- ===== src/Supervisor/Healing.antt =====
-- The reports about the server link (`Healing`, `Healed`) in a run of the core, read by a machine
-- of two states.
mod Parts
mod Drives
pub mod Run
use citadel_agent.Prelude.{
  ◌≡◌, refl, Bool, true, false, Option, none, some, List, [], ◌∷◌, ◌++◌, All, arith, inl, inr,
  Option-cases,
}
use citadel_agent.Supervisor.Types.{Command, report, SupervisorEvent, healing, healed}

-- What a command says of the link: that it heals, or that it is healed.
unfoldable pub heal_mark : Command → Option Bool
heal_mark (report (healing cause)) = some true
heal_mark (report healed) = some false
heal_mark _ = none

unfoldable pub advance : Bool → Option Bool → Option Bool
advance b none = some b
advance false (some true) = some true
advance true (some false) = some false
advance _ _ = none

-- The last state if `Healing` and `Healed` alternate from the state given, and `none` if not.
unfoldable pub follow : Bool → List Command → Option Bool
follow b [] = some b
follow b (c ∷ cs) = elim (advance b (heal_mark c)) [ none ↦ none | some b' ↦ follow b' cs ]

abbrev pub IsQuiet : List Command → Type 0
IsQuiet = All (λ c. heal_mark c ≡ none)

pub follow-append :
    (b : Bool) (xs ys : List Command) {b' : Bool}
    → follow b xs ≡ some b'
    → follow b (xs ++ ys) ≡ follow b' ys
unfolding follow
follow-append b [] ys h = ground arith
follow-append b (x ∷ xs) ys h = elim (Option-cases (advance b (heal_mark x))) [
  | inl stuck ↦ absurd (cc (rw (stuck, follow) at h))
  | inr (b₁, e) ↦ rw (e, follow) (follow-append b₁ xs ys (rw (e, follow) at h))
]

pub follow-IsQuiet : (b : Bool) (xs : List Command) → IsQuiet xs → follow b xs ≡ some b
unfolding follow advance
follow-IsQuiet b [] q = refl
follow-IsQuiet b (x ∷ xs) q = rw (q.0, follow) (follow-IsQuiet b xs q.1)
