-- ===== src/Prelude/Text/Split.antt =====
-- Texts taken apart by `split` and `cut`, and put together again.
use Prim.Native.Nat.{ℕ}
use mathlib.Core.Path.{◌≡◌, refl}
use mathlib.Core.Logic.{◌≢◌, inl, inr}
use mathlib.Core.Bool.{true}
use mathlib.Core.Option.{some}
use mathlib.Core.List.{List, [], ◌∷◌, ◌++◌}
use native.Mathlib.Omega.{arith}
use keelage.Prelude.Tests.{Option-cases}
use keelage.Prelude.Lists.{All}
use keelage.Prelude.Text.{Text, prepend, split, cut_prefix, cut, Lacks}

-- The parts with the separator between them.
abbrev pub join : List Text → ℕ → Text
join [] sep = []
join (p ∷ []) sep = p
join (p ∷ q ∷ ps) sep = p ++ sep ∷ join (q ∷ ps) sep

pub split-append :
    (p : Text) (sep : ℕ) (rest : Text)
    → Lacks sep p
    → split (p ++ sep ∷ rest) sep ≡ p ∷ split rest sep
unfolding split
split-append [] sep rest h = ground arith
split-append (c ∷ p) sep rest (h, t) = ground (arith, split-append p sep rest t)

pub split_last : (p : Text) (sep : ℕ) → Lacks sep p → split p sep ≡ p ∷ []
unfolding split
split_last [] sep h = refl
split_last (c ∷ p) sep (h, t) = ground (arith, split_last p sep t)

join-prepend : (c : ℕ) (ps : List Text) (sep : ℕ) → join (prepend c ps) sep ≡ c ∷ join ps sep
unfolding prepend
join-prepend c [] sep = refl
join-prepend c (p ∷ []) sep = refl
join-prepend c (p ∷ q ∷ ps) sep = refl

split-ne-nil : (s : Text) (sep : ℕ) → split s sep ≢ []
unfolding split prepend
split-ne-nil [] sep = cc
split-ne-nil (c ∷ s) sep = ground (arith, split-ne-nil s sep)

join_nil_cons : (ps : List Text) (sep : ℕ) → ps ≢ [] → join ([] ∷ ps) sep ≡ sep ∷ join ps sep
join_nil_cons [] sep h = absurd (h refl)
join_nil_cons (p ∷ ps) sep h = refl

-- Joining the parts of a split gives the text back.
pub join-split : (s : Text) (sep : ℕ) → join (split s sep) sep ≡ s
unfolding split
join-split [] sep = refl
join-split (c ∷ s) sep = ground (
  arith,
  split-ne-nil s sep,
  join_nil_cons (split s sep) sep,
  join-prepend c (split s sep) sep,
  join-split s sep,
)

-- Splitting a join gives the parts back, if there is a part and none holds the separator.
pub split-join :
    (ps : List Text) (sep : ℕ) → ps ≢ [] → All (Lacks sep) ps → split (join ps sep) sep ≡ ps
split-join [] sep h _ = absurd (h refl)
split-join (p ∷ []) sep h (l, _) = split_last p sep l
split-join (p ∷ q ∷ ps) sep h (l, ls) =
    rw (split-append p sep (join (q ∷ ps) sep) l) (rw (split-join (q ∷ ps) sep (cc) ls))

pub append-cut_prefix : (s p r : Text) → cut_prefix s p ≡ some r → p ++ r ≡ s
unfolding cut_prefix
append-cut_prefix s [] r h = ground arith
append-cut_prefix [] (b ∷ p) r h = cc
append-cut_prefix (c ∷ s) (b ∷ p) r h = ground (arith, append-cut_prefix s p r)

-- What `cut` finds around the separator, with the separator, is the text.
pub append-cut : (s sep : Text) → (cut s sep).2 ≡ true → (cut s sep).0 ++ (sep ++ (cut s sep).1) ≡ s
unfolding cut
append-cut [] sep h = elim (Option-cases (cut_prefix [] sep)) [
  | inl e ↦ absurd (ground arith)
  | inr (r, e) ↦ ground (arith, append-cut_prefix [] sep r)
]
append-cut (c ∷ s) sep h = elim (Option-cases (cut_prefix (c ∷ s) sep)) [
  | inl e ↦ ground (arith, append-cut s sep)
  | inr (r, e) ↦ ground (arith, append-cut_prefix (c ∷ s) sep r)
]

pub cut_at :
    (p : Text) (b : ℕ) (rest : Text) → Lacks b p → cut (p ++ b ∷ rest) (b ∷ []) ≡ (p, rest, true)
unfolding cut cut_prefix
cut_at [] b rest h = ground arith
cut_at (c ∷ p) b rest (h, t) = ground (arith, cut_at p b rest t)
