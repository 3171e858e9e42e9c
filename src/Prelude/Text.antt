-- ===== src/Prelude/Text.antt =====
-- A Go string: its bytes. Functions of package strings that the program calls.
pub mod Split
pub mod Order
pub mod Decimal
use Prim.Native.Nat.{ℕ, zero, suc, ◌+◌, ◌/◌, ◌%◌}
use Prim.Native.Char.{code}
use Prim.Native.String.{String}
use mathlib.Core.Path.{◌≡◌, refl, sym, ◌∙◌}
use mathlib.Core.Logic.{◌↔◌, ◌≢◌, inl, inr}
use mathlib.Core.Bool.{Bool, true, false, ◌&&◌, ◌||◌}
use mathlib.Core.Option
use mathlib.Core.Option.{Option, none, some}
use mathlib.Core.List.{List, [], ◌∷◌}
use native.Mathlib.Omega.{arith}
use keelage.Prelude.Tests.{Bool-cases, ◌==◌, if◌then◌else◌}
use keelage.Prelude.Lists.{any}

abbrev pub Text : Type 0
Text = List ℕ

-- The bytes of an ASCII literal.
abbrev pub codes : String → Text
codes String.[] = []
codes (String.◌∷◌ c s) = code c ∷ codes s

-- `a == b` on strings.
unfoldable pub text_eq : Text → Text → Bool
text_eq [] [] = true
text_eq [] (_ ∷ _) = false
text_eq (_ ∷ _) [] = false
text_eq (x ∷ xs) (y ∷ ys) = x == y && text_eq xs ys

pub text_eq_sound : (a b : Text) → text_eq a b ≡ true → a ≡ b
unfolding text_eq
text_eq_sound [] [] h = refl
text_eq_sound [] (y ∷ ys) h = cc
text_eq_sound (x ∷ xs) [] h = cc
text_eq_sound (x ∷ xs) (y ∷ ys) h = ground (arith, text_eq_sound xs ys)

pub text_eq_refl : (a : Text) → text_eq a a ≡ true
unfolding text_eq
text_eq_refl [] = refl
text_eq_refl (x ∷ xs) = ground (arith, text_eq_refl xs)

pub text_eq_iff : (a b : Text) → (text_eq a b ≡ true) ↔ (a ≡ b)
text_eq_iff a b = (text_eq_sound a b, λ e. rw e (text_eq_refl b))

-- `s == ""`.
abbrev pub is_empty : Text → Bool
is_empty [] = true
is_empty (_ ∷ _) = false

-- The loop of `containsStr` and of `RequiresJudge`.
unfoldable pub contains_text : List Text → Text → Bool
contains_text [] x = false
contains_text (s ∷ list) x = text_eq s x || contains_text list x

-- strings.ContainsAny(s, chars) for ASCII chars.
unfoldable pub contains_any : Text → Text → Bool
contains_any [] chars = false
contains_any (c ∷ s) chars = any (λ k. c == k) chars || contains_any s chars

prepend : ℕ → List Text → List Text
prepend c [] = (c ∷ []) ∷ []
prepend c (p ∷ ps) = (c ∷ p) ∷ ps

-- strings.Split(s, sep) for a separator of one byte.
unfoldable pub split : Text → ℕ → List Text
unfolding prepend
split [] sep = [] ∷ []
split (c ∷ s) sep = let rest = split s sep in if c == sep then [] ∷ rest else prepend c rest

-- strings.HasPrefix, with what follows the prefix: strings.CutPrefix.
unfoldable pub cut_prefix : Text → Text → Option Text
cut_prefix s [] = some s
cut_prefix [] (p ∷ ps) = none
cut_prefix (c ∷ s) (p ∷ ps) = if c == p then cut_prefix s ps else none

abbrev pub has_prefix : Text → Text → Bool
has_prefix s p = elim (cut_prefix s p) [ none ↦ false | some _ ↦ true ]

abbrev cut_step : ℕ → Text × Text × Bool → Text × Text × Bool
cut_step c (before, after, found) = (c ∷ before, after, found)

-- strings.Cut(s, sep): what stands before and after the first `sep`, and whether there is one.
unfoldable pub cut : Text → Text → Text × Text × Bool
cut [] sep = elim (cut_prefix [] sep) [ none ↦ ([], [], false) | some r ↦ ([], r, true) ]
cut (c ∷ s) sep =
    let rest = cut s sep in
    elim (cut_prefix (c ∷ s) sep) [ none ↦ cut_step c rest | some r ↦ ([], r, true) ]

-- strings.CutSuffix(s, suffix).
unfoldable pub cut_suffix : Text → Text → Option Text
cut_suffix [] suffix = if is_empty suffix then some [] else none
cut_suffix (c ∷ s) suffix =
    let rest = cut_suffix s suffix in
    if text_eq (c ∷ s) suffix then some [] else Option.map (λ r. c ∷ r) rest

-- strings.TrimSuffix(s, suffix).
abbrev pub trim_suffix : Text → Text → Text
trim_suffix s suffix = elim (cut_suffix s suffix) [ none ↦ s | some r ↦ r ]

-- `strconv.Itoa` of a number that is not negative: the last digit first, with fuel for the digits.
pub itoa_from : ℕ → ℕ → Text → Text
itoa_from zero n b = b
itoa_from (suc fuel) n b =
    let rest = itoa_from fuel (n / 10) ((b'0' + n % 10) ∷ b) in if n == 0 then b else rest

unfoldable pub itoa : ℕ → Text
unfolding itoa_from
itoa n = if n == 0 then b'0' ∷ [] else itoa_from n n []

-- No byte of the text is the given one.
abbrev pub Lacks : ℕ → Text → Type 0
Lacks b [] = Unit
Lacks b (c ∷ s) = (c ≢ b) × Lacks b s

pub text_eq_comm : (a b : Text) → text_eq a b ≡ text_eq b a
text_eq_comm a b = elim (Bool-cases (text_eq a b)) [
  | inl same ↦ ground (arith, (text_eq_iff a b).0 same, text_eq_refl b)
  | inr other ↦ elim (Bool-cases (text_eq b a)) [
    | inl same ↦ absurd (ground (arith, (text_eq_iff b a).0 same, text_eq_refl b))
    | inr other' ↦ other ∙ sym other'
  ]
]
