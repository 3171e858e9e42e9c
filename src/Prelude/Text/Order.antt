-- ===== src/Prelude/Text/Order.antt =====
-- `a < b` on Go strings: the order of their bytes.
use mathlib.Core.Path.{◌≡◌, refl}
use mathlib.Core.Logic.{◌⊎◌, inl, inr}
use mathlib.Core.Bool.{Bool, true, false, ◌&&◌, ◌||◌}
use mathlib.Core.List.{[], ◌∷◌}
use native.Mathlib.Omega.{arith}
use keelage.Prelude.Tests.{ltb, ◌==◌}
use keelage.Prelude.Text.{Text, text_eq}

unfoldable pub text_lt : Text → Text → Bool
text_lt a [] = false
text_lt [] (y ∷ ys) = true
text_lt (x ∷ xs) (y ∷ ys) = ltb x y || (x == y && text_lt xs ys)

pub text_lt_trans : (a b c : Text) → text_lt a b ≡ true → text_lt b c ≡ true → text_lt a c ≡ true
unfolding text_lt
text_lt_trans a [] c h k = absurd (ground arith)
text_lt_trans a (y ∷ b) [] h k = absurd (ground arith)
text_lt_trans [] (y ∷ b) (z ∷ c) h k = refl
text_lt_trans (x ∷ a) (y ∷ b) (z ∷ c) h k = ground (arith, text_lt_trans a b c)

pub text_lt_total : (a b : Text) → text_eq a b ≡ false → (text_lt a b ≡ true) ⊎ (text_lt b a ≡ true)
unfolding text_lt text_eq
text_lt_total [] [] h = absurd (ground arith)
text_lt_total [] (y ∷ b) h = inl refl
text_lt_total (x ∷ a) [] h = inr refl
text_lt_total (x ∷ a) (y ∷ b) h = ground (arith, text_lt_total a b)
