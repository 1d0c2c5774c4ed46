-- ===== src/Reconnect/Renders.antt =====
-- When a message is a rendered form (kernel/reconnect/policy.rs, `renders`).
use citadel_agent.Prelude.{ℕ, ◌≡◌, ◌⊎◌, List, [], ◌∷◌, ◌++◌}
use citadel_agent.Text.{Text}

-- The parts after the placeholders, in order and with something in each placeholder; the last part
-- ends the text, and no part at all leaves the text open.
abbrev pub IsFilled : List Text → Text → Type 0
IsFilled [] text = Unit
IsFilled (part ∷ []) text = (c : ℕ) × ((x : Text) × (text ≡ c ∷ (x ++ part)))
IsFilled (part ∷ next ∷ parts) text =
    (c : ℕ) × ((x : Text) × ((rest : Text) × ((text ≡ c ∷ (x ++ (part ++ rest)))
          × IsFilled (next ∷ parts) rest)))

-- A clause that starts with the first part and goes on as the others say.
abbrev pub IsRendering : Text → List Text → Text → Type 0
IsRendering first placeholders clause =
    (rest : Text) × ((clause ≡ first ++ rest) × IsFilled placeholders rest)

-- One of the texts has the property.
abbrev pub SomeOf : (Text → Type 0) → List Text → Type 0
SomeOf P [] = ⊥
SomeOf P (t ∷ ts) = P t ⊎ SomeOf P ts
