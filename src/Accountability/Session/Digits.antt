-- ===== src/Accountability/Session/Digits.antt =====
-- internal/core/accountability/session.go: the package's own `itoa`, and a reader of digits.
use keelage.Prelude.{
  ℕ, zero, suc, ◌+◌, ◌-◌, ◌∙◌, ap, ◌*◌, ◌/◌, ◌%◌, ◌≤◌, ◌≡◌, refl, ◌==◌, false, [], ◌∷◌,
  if◌then◌else◌, arith,
}
use keelage.Prelude.Text.{Text}
use keelage.Prelude.Text.Decimal.{value_from, value}

-- The loop of `itoa`, on fuel: `b` holds the digits that were taken off so far.
digits : ℕ → ℕ → Text → Text
digits zero n b = b
digits (suc fuel) n b =
    let rest = digits fuel (n / 10) ((b'0' + n % 10) ∷ b) in if n == 0 then b else rest

-- `itoa`. Each turn of the loop makes the number smaller, so `n` turns are enough.
unfoldable pub itoa : ℕ → Text
unfolding digits
itoa n = if n == 0 then b'0' ∷ [] else digits n n []

not_zero : (n : ℕ) → (suc n == 0) ≡ false
not_zero n = ground arith

value-digits : (fuel n : ℕ) (b : Text) → n ≤ fuel → value_from 0 (digits fuel n b) ≡ value_from n b
unfolding digits value_from
value-digits zero zero b h = refl
value-digits zero (suc n) b h = omega arith
value-digits (suc fuel) zero b h = refl
value-digits (suc fuel) (suc n) b h =
    let N = suc n in
    let low : N / 10 * 10 + (48 + N % 10 - 48) ≡ N = omega arith in
    rw (not_zero n) (
      value-digits fuel (N / 10) ((b'0' + N % 10) ∷ b) (omega arith) ∙ ap (λ k. value_from k b) low)

itoa-suc : (n : ℕ) → itoa (suc n) ≡ digits (suc n) (suc n) []
unfolding itoa digits
itoa-suc n = rw (not_zero n) refl

-- `itoa` loses nothing: the decimal digits that it writes have the number as their value.
pub value-itoa : (n : ℕ) → value (itoa n) ≡ n
unfolding value value_from itoa
value-itoa zero = refl
value-itoa (suc n) = ap (value_from 0) (itoa-suc n) ∙ value-digits (suc n) (suc n) [] (omega arith)
