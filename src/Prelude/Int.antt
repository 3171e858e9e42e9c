-- ===== src/Prelude/Int.antt =====
-- Go's `int`: every integer, with the comparisons that the program makes. Counters that only grow
-- are kept as the 64-bit pattern that the machine holds.
use Prim.Native.Nat.{ℕ, ◌+◌, ◌%◌, ◌^◌, ◌≤◌}
use mathlib.Core.Path.{◌≡◌}
use mathlib.Core.Logic.{◌↔◌, ◌⊎◌}
use mathlib.Core.Bool.{Bool, true, false, not}
use native.Mathlib.Omega.{arith}
use keelage.Prelude.Tests.{leb, ◌==◌}

-- `negsuc n` is -(n + 1).
pub data ℤ : Type 0 where
  pos : ℕ → ℤ
  negsuc : ℕ → ℤ

infix 50 ◌≤ℤ◌ ◌<ℤ◌
abbrev pub ◌≤ℤ◌ : ℤ → ℤ → Type 0
pos a ≤ℤ pos b = a ≤ b
pos a ≤ℤ negsuc b = ⊥
negsuc a ≤ℤ pos b = Unit
negsuc a ≤ℤ negsuc b = b ≤ a

abbrev pub ◌<ℤ◌ : ℤ → ℤ → Type 0
a <ℤ b = ¬ (b ≤ℤ a)

-- `a <= b`, `a < b`, `a == b`.
unfoldable pub leb_ℤ : ℤ → ℤ → Bool
leb_ℤ (pos a) (pos b) = leb a b
leb_ℤ (pos a) (negsuc b) = false
leb_ℤ (negsuc a) (pos b) = true
leb_ℤ (negsuc a) (negsuc b) = leb b a

abbrev pub ltb_ℤ : ℤ → ℤ → Bool
ltb_ℤ a b = not (leb_ℤ b a)

unfoldable pub eqb_ℤ : ℤ → ℤ → Bool
eqb_ℤ (pos a) (pos b) = a == b
eqb_ℤ (pos a) (negsuc b) = false
eqb_ℤ (negsuc a) (pos b) = false
eqb_ℤ (negsuc a) (negsuc b) = a == b

pub leb_ℤ_iff : (a b : ℤ) → (leb_ℤ a b ≡ true) ↔ (a ≤ℤ b)
unfolding leb_ℤ
leb_ℤ_iff (pos a) (pos b) = ground arith
leb_ℤ_iff (pos a) (negsuc b) = ground arith
leb_ℤ_iff (negsuc a) (pos b) = ground arith
leb_ℤ_iff (negsuc a) (negsuc b) = ground arith

pub eqb_ℤ_iff : (a b : ℤ) → (eqb_ℤ a b ≡ true) ↔ (a ≡ b)
unfolding eqb_ℤ
eqb_ℤ_iff (pos a) (pos b) = ground arith
eqb_ℤ_iff (pos a) (negsuc b) = ground arith
eqb_ℤ_iff (negsuc a) (pos b) = ground arith
eqb_ℤ_iff (negsuc a) (negsuc b) = ground arith

pub ≤ℤ_refl : (a : ℤ) → a ≤ℤ a
≤ℤ_refl (pos a) = omega arith
≤ℤ_refl (negsuc a) = omega arith

pub ≤ℤ_total : (a b : ℤ) → (a ≤ℤ b) ⊎ (b ≤ℤ a)
≤ℤ_total (pos a) (pos b) = ground arith
≤ℤ_total (pos a) (negsuc b) = ground arith
≤ℤ_total (negsuc a) (pos b) = ground arith
≤ℤ_total (negsuc a) (negsuc b) = ground arith

pub ≤ℤ_trans : (a b c : ℤ) → a ≤ℤ b → b ≤ℤ c → a ≤ℤ c
≤ℤ_trans (pos a) (pos b) (pos c) p q = omega arith
≤ℤ_trans (pos a) (pos b) (negsuc c) p q = absurd q
≤ℤ_trans (pos a) (negsuc b) c p q = absurd p
≤ℤ_trans (negsuc a) (pos b) (pos c) p q = tt
≤ℤ_trans (negsuc a) (pos b) (negsuc c) p q = absurd q
≤ℤ_trans (negsuc a) (negsuc b) (pos c) p q = tt
≤ℤ_trans (negsuc a) (negsuc b) (negsuc c) p q = omega arith

pub ≤ℤ_antisymm : (a b : ℤ) → a ≤ℤ b → b ≤ℤ a → a ≡ b
≤ℤ_antisymm (pos a) (pos b) p q = ground arith
≤ℤ_antisymm (pos a) (negsuc b) p q = absurd p
≤ℤ_antisymm (negsuc a) (pos b) p q = absurd q
≤ℤ_antisymm (negsuc a) (negsuc b) p q = ground arith

-- `n++` on a counter of 64 bits.
abbrev pub succ_64 : ℕ → ℕ
succ_64 n = (n + 1) % 2 ^ 64
