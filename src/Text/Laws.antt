-- ===== src/Text/Laws.antt =====
-- What the methods of `str` return.
use citadel_agent.Prelude.{◌≡◌, refl, true, [], ◌∷◌, arith}
use citadel_agent.Text.{Text, ◌=ₜ◌}

pub =ₜ→eq : (s t : Text) → (s =ₜ t) ≡ true → s ≡ t
=ₜ→eq [] [] h = refl
=ₜ→eq [] (y ∷ ys) h = absurd (cc)
=ₜ→eq (x ∷ xs) [] h = absurd (cc)
=ₜ→eq (x ∷ xs) (y ∷ ys) h = ground (arith, =ₜ→eq xs ys)

pub =ₜ_refl : (t : Text) → (t =ₜ t) ≡ true
=ₜ_refl [] = refl
=ₜ_refl (x ∷ xs) = ground (arith, =ₜ_refl xs)
