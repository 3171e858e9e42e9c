-- ===== src/Core/ScopeKey/RoundTrip.antt =====
-- internal/core/scope.go: the text of a scope key and its reader.
use mathlib.Core.List.{append_assoc}
use keelage.Prelude.{
  ℕ, suc, Bool, ◌≡◌, refl, ap, true, false, inl, inr, none, some, List, [], ◌∷◌, arith, ◌==◌,
  length, Bool-cases, Option-cases, Sum-cases, All,
}
use keelage.Prelude.Text.{Text, codes, text_eq_iff, contains_any, split, cut, Lacks}
use keelage.Prelude.Text.Split.{join, join-split, split-join, append-cut, cut_at}
use keelage.Core.Std.{Std}
use keelage.Core.ScopeKey.{
  ScopeKey, axes, reserved, scope_sep, axis, axis_names, to_text, reserved_axis, validate,
  cut_value, axis_value, read_axes, from_axes, parse_scope_key,
}

contains_any-Lacks : (v : Text) → contains_any v reserved ≡ false → Lacks scope_sep v
unfolding contains_any
contains_any-Lacks [] h = tt
contains_any-Lacks (c ∷ v) h = (ground arith, contains_any-Lacks v (ground arith))

Lacks-axis :
    (name v : Text) → Lacks scope_sep name → Lacks scope_sep v → Lacks scope_sep (axis name v)
Lacks-axis [] v _ h = (omega arith, h)
Lacks-axis (c ∷ name) v (p, n) h = (p, Lacks-axis name v n h)

axis_value-axis : (name v : Text) → Lacks b'=' name → axis_value name (axis name v) ≡ some v
unfolding axis_value
axis_value-axis name v h = rw (cut_at name b'=' v h) (ground (arith, text_eq_iff name name))

cut_value_of :
    (name : Text) (c : Text × Text × Bool) (v : Text)
    → cut_value name c ≡ some v
    → (c.2 ≡ true) × (c.0 ≡ name) × (c.1 ≡ v)
cut_value_of name (n, w, found) v h = ground (arith, text_eq_iff n name)

-- a part that is read as an axis is that axis
axis_of_value : (name part v : Text) → axis_value name part ≡ some v → axis name v ≡ part
unfolding axis_value
axis_of_value name part v h =
    let (found, same, value) = cut_value_of name (cut part (codes "=")) v h in
    rw (← same, ← value) (append-cut part (codes "=") found)

-- each value after its name
labelled : List Text → List Text → List Text
labelled [] vs = []
labelled (n ∷ ns) [] = []
labelled (n ∷ ns) (v ∷ vs) = axis n v ∷ labelled ns vs

read_axes-labelled :
    (i : ℕ) (ns vs : List Text)
    → length ns ≡ length vs
    → All (Lacks b'=') ns
    → read_axes i ns (labelled ns vs) ≡ inr vs
unfolding read_axes labelled
read_axes-labelled i [] [] e h = refl
read_axes-labelled i [] (v ∷ vs) e h = absurd (omega arith)
read_axes-labelled i (n ∷ ns) [] e h = absurd (omega arith)
read_axes-labelled i (n ∷ ns) (v ∷ vs) e (l, h) =
    ground (arith, axis_value-axis n v l, read_axes-labelled (suc i) ns vs (omega arith) h)

labelled-read_axes :
    (i : ℕ) (ns parts vs : List Text)
    → length parts ≡ length ns
    → read_axes i ns parts ≡ inr vs
    → (labelled ns vs ≡ parts) × (length vs ≡ length ns)
unfolding read_axes labelled
labelled-read_axes i [] [] vs e h = ground arith
labelled-read_axes i [] (p ∷ parts) vs e h = absurd (omega arith)
labelled-read_axes i (n ∷ ns) [] vs e h = absurd (omega arith)
labelled-read_axes i (n ∷ ns) (p ∷ parts) vs e h = elim (Option-cases (axis_value n p)) [
  | inl x ↦ absurd (ground arith)
  | inr (v, x) ↦ elim (Sum-cases (read_axes (suc i) ns parts)) [
    | inl (err, y) ↦ absurd (ground arith)
    | inr (ws, y) ↦
        ground
          (arith, axis_of_value n p v x, labelled-read_axes (suc i) ns parts ws (omega arith) y)
  ]
]

axes-from_axes : (vs : List Text) → length vs ≡ 6 → axes (from_axes vs) ≡ vs
axes-from_axes (a ∷ b ∷ c ∷ d ∷ e ∷ f ∷ []) h = refl
axes-from_axes [] h = absurd (omega arith)
axes-from_axes _ h = absurd (omega arith)

reserved-Lacks : (vs : List Text) → reserved_axis vs ≡ none → All (Lacks scope_sep) vs
unfolding reserved_axis
reserved-Lacks [] h = tt
reserved-Lacks (v ∷ vs) h = (contains_any-Lacks v (ground arith), reserved-Lacks vs (ground arith))

labelled-Lacks :
    (ns vs : List Text)
    → All (Lacks scope_sep) ns
    → All (Lacks scope_sep) vs
    → All (Lacks scope_sep) (labelled ns vs)
unfolding labelled
labelled-Lacks [] vs h k = tt
labelled-Lacks (n ∷ ns) [] h k = tt
labelled-Lacks (n ∷ ns) (v ∷ vs) (p, h) (q, k) = (Lacks-axis n v p q, labelled-Lacks ns vs h k)

to_text-join : (k : ScopeKey) → to_text k ≡ join (labelled axis_names (axes k)) scope_sep
unfolding to_text labelled
to_text-join k = simp append_assoc

module _ ⦃go : Std⦄ where
  unreserved : (k : ScopeKey) → validate k ≡ none → reserved_axis (axes k) ≡ none
  unfolding validate
  unreserved k h = ground arith

  split-to_text :
      (k : ScopeKey)
      → validate k ≡ none
      → split (to_text k) scope_sep ≡ labelled axis_names (axes k)
  split-to_text k h = rw to_text-join (
      split-join (labelled axis_names (axes k)) scope_sep (unfold labelled in cc) (
        labelled-Lacks axis_names (axes k) (omega arith)
          (reserved-Lacks (axes k) (unreserved k h))))

  -- The canonical text of a valid key is read back as that key, with no error.
  pub parse_scope_key-to_text :
      (k : ScopeKey) → validate k ≡ none → parse_scope_key (to_text k) ≡ (k, none)
  unfolding parse_scope_key labelled
  parse_scope_key-to_text k h =
      rw (split-to_text k h)
        (rw (read_axes-labelled 0 axis_names (axes k) refl (omega arith)) (ap (λ e. (k, e)) h))

  -- A text that is read without error is the canonical text of the key read.
  pub to_text-parse_scope_key :
      (s : Text) (k : ScopeKey) → parse_scope_key s ≡ (k, none) → to_text k ≡ s
  unfolding parse_scope_key
  to_text-parse_scope_key s k h = elim (Bool-cases (length (split s scope_sep) == 6)) [
    | inr six ↦ absurd (ground arith)
    | inl six ↦ elim (Sum-cases (read_axes 0 axis_names (split s scope_sep))) [
      | inl (e, x) ↦ absurd (ground arith)
      | inr (vs, x) ↦
          let (parts, size) =
            labelled-read_axes 0 axis_names (split s scope_sep) vs (ground arith) x in
          let same : from_axes vs ≡ k = ground arith in
          rw (← same, to_text-join, axes-from_axes vs size, parts) (join-split s scope_sep)
    ]
  ]
