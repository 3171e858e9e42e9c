-- ===== src/Prelude/Text/Decimal.antt =====
-- `strconv.Itoa`: the digits that it writes, and a reader of them.
use Prim.Native.Nat.{ℕ, zero, suc, ◌+◌, ◌-◌, ◌*◌, ◌/◌, ◌%◌, ◌≤◌}
use mathlib.Core.Path.{◌≡◌, refl, sym, ap, ◌∙◌}
use mathlib.Core.Bool.{false}
use mathlib.Core.List.{[], ◌∷◌}
use native.Mathlib.Omega.{arith}
use keelage.Prelude.Tests.{◌==◌}
use keelage.Prelude.Text.{Text, itoa_from, itoa, Lacks}

-- Reading a decimal number, the digits before it having the value `m`.
unfoldable pub value_from : ℕ → Text → ℕ
value_from m [] = m
value_from m (c ∷ t) = value_from (m * 10 + (c - b'0')) t

unfoldable pub value : Text → ℕ
value t = value_from 0 t

not_zero : (n : ℕ) → (suc n == 0) ≡ false
not_zero n = ground arith

value-itoa_from :
    (fuel n : ℕ) (b : Text) → n ≤ fuel → value_from 0 (itoa_from fuel n b) ≡ value_from n b
unfolding itoa_from value_from
value-itoa_from zero zero b h = refl
value-itoa_from zero (suc n) b h = omega arith
value-itoa_from (suc fuel) zero b h = refl
value-itoa_from (suc fuel) (suc n) b h =
    let N = suc n in
    let low : N / 10 * 10 + (48 + N % 10 - 48) ≡ N = omega arith in
    rw (not_zero n) (
      value-itoa_from fuel (N / 10) ((b'0' + N % 10) ∷ b) (omega arith)
      ∙ ap (λ k. value_from k b) low)

itoa-suc : (n : ℕ) → itoa (suc n) ≡ itoa_from (suc n) (suc n) []
unfolding itoa itoa_from
itoa-suc n = rw (not_zero n) refl

value-itoa : (n : ℕ) → value (itoa n) ≡ n
unfolding value value_from itoa
value-itoa zero = refl
value-itoa (suc n) =
    ap (value_from 0) (itoa-suc n) ∙ value-itoa_from (suc n) (suc n) [] (omega arith)

-- Different numbers have different texts.
pub itoa_injective : (n m : ℕ) → itoa n ≡ itoa m → n ≡ m
itoa_injective n m h = sym (value-itoa n) ∙ ap value h ∙ value-itoa m

Lacks-itoa_from : (fuel n : ℕ) (b : Text) → Lacks 10 b → Lacks 10 (itoa_from fuel n b)
unfolding itoa_from
Lacks-itoa_from zero n b h = h
Lacks-itoa_from (suc fuel) zero b h = h
Lacks-itoa_from (suc fuel) (suc n) b h =
    rw (not_zero n)
      (Lacks-itoa_from fuel (suc n / 10) ((b'0' + suc n % 10) ∷ b) (λ e. omega arith, h))

-- It is on one line.
pub Lacks-itoa : (n : ℕ) → Lacks 10 (itoa n)
unfolding itoa
Lacks-itoa zero = (λ e. omega arith, tt)
Lacks-itoa (suc n) = rw (itoa-suc n) (Lacks-itoa_from (suc n) (suc n) [] tt)
