-- ===== src/Core/Level.antt =====
-- internal/core/level.go: autonomy levels, their text form and the transition table.
use keelage.Prelude.{
  zero, suc, ◌+◌, ◌-◌, ◌≡◌, Bool, true, false, ◌&&◌, Option, none, some, [], ◌∷◌, arith, leb, ◌==◌,
  if◌then◌else◌,
}
use keelage.Prelude.Int.{ℤ, pos, negsuc, leb_ℤ, ◌≤ℤ◌}
use keelage.Prelude.Text.{Text, itoa}

-- `type Level int`.
abbrev pub Level : Type 0
Level = ℤ

abbrev pub l0 : Level
l0 = pos 0

abbrev pub l1 : Level
l1 = pos 1

abbrev pub l2 : Level
l2 = pos 2

abbrev pub l3 : Level
l3 = pos 3

abbrev pub max_level : Level
max_level = l3

-- `Level.Valid`.
unfoldable pub valid : Level → Bool
unfolding leb_ℤ
valid l = leb_ℤ l0 l && leb_ℤ l max_level

-- The four levels, as a range.
abbrev pub IsLevel : Level → Type 0
IsLevel l = (l0 ≤ℤ l) × (l ≤ℤ max_level)

pub valid-IsLevel : (l : Level) → valid l ≡ true → IsLevel l
unfolding valid
valid-IsLevel (pos n) h = ground arith
valid-IsLevel (negsuc n) h = ground arith

-- `Level.String`: 'L' and `strconv.Itoa`.
unfoldable pub to_text : Level → Text
to_text (pos n) = b'L' ∷ itoa n
to_text (negsuc n) = b'L' ∷ b'-' ∷ itoa (n + 1)

-- `ParseLevel`.
unfoldable pub parse_level : Text → Option Level
parse_level (c ∷ d ∷ []) =
    if c == b'L' && (leb b'0' d && leb d b'3') then some (pos (d - b'0')) else none
parse_level _ = none

-- `Level.MarshalText`, `none` for an invalid level.
unfoldable pub marshal_text : Level → Option Text
unfolding valid to_text
marshal_text l = if valid l then some (to_text l) else none

-- What `MarshalText` writes `ParseLevel` reads back.
pub parse_level-marshal_text :
    (l : Level) (t : Text) → marshal_text l ≡ some t → parse_level t ≡ some l
unfolding marshal_text parse_level itoa
parse_level-marshal_text (pos zero) t h = ground arith
parse_level-marshal_text (pos (suc zero)) t h = ground arith
parse_level-marshal_text (pos (suc (suc zero))) t h = ground arith
parse_level-marshal_text (pos (suc (suc (suc zero)))) t h = ground arith
parse_level-marshal_text (pos (suc (suc (suc (suc n))))) t h = absurd (ground arith)
parse_level-marshal_text (negsuc n) t h = ground arith

pub data Trigger : Type 0 where
  promote regress : Trigger
  other : Text → Trigger

-- A row of `Transitions`: the level that promotion reaches, and the one that regression reaches.
transitions : Level → Option (Level × Level)
transitions (pos zero) = some (l1, l0)
transitions (pos (suc zero)) = some (l2, l0)
transitions (pos (suc (suc zero))) = some (l3, l1)
transitions (pos (suc (suc (suc zero)))) = some (l3, l2)
transitions _ = none

abbrev column : Level × Level → Trigger → Level × Bool
column (up, down) promote = (up, true)
column (up, down) regress = (down, true)
column (up, down) (other _) = (l0, false)

-- `Transition`: the level reached and whether the table has an entry.
unfoldable pub transition : Level → Trigger → Level × Bool
unfolding transitions
transition from t = elim (transitions from) [ none ↦ (from, false) | some row ↦ column row t ]
