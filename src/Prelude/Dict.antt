-- ===== src/Prelude/Dict.antt =====
-- A Go map from strings, as the list of its entries in the order that a range loop meets them. Go
-- leaves that order open; nothing that is proved of a map depends on it.
use mathlib.Core.Path.{◌≡◌, refl}
use mathlib.Core.Logic.{inl, inr}
use mathlib.Core.Bool.{false}
use mathlib.Core.Option.{Option, none, some}
use mathlib.Core.List.{List, [], ◌∷◌}
use native.Mathlib.Omega.{arith}
use keelage.Prelude.Lists.{All}
use keelage.Prelude.Sort.{Pairwise}
use keelage.Prelude.Tests.{Bool-cases, if◌then◌else◌}
use keelage.Prelude.Text.{Text, text_eq, text_eq_iff, text_eq_refl, text_eq_comm}

abbrev pub Dict : Type 0 → Type 0
Dict V = List (Text × V)

module _ {V : Type 0} where
  -- `m[key]`.
  unfoldable pub find : Text → Dict V → Option V
  find key [] = none
  find key ((k, v) ∷ d) = if text_eq k key then some v else find key d

  -- `m[key] = value`.
  unfoldable pub put : Text → V → Dict V → Dict V
  put key value [] = (key, value) ∷ []
  put key value ((k, v) ∷ d) =
      let rest = put key value d in if text_eq k key then (k, value) ∷ d else (k, v) ∷ rest

  pub find-put :
      (k key : Text) (value : V) (d : Dict V)
      → find k (put key value d) ≡ (if text_eq key k then some value else find k d)
  unfolding find put
  find-put k key value [] = refl
  find-put k key value ((j, v) ∷ d) = elim (Bool-cases (text_eq j key)) [
    | inl h ↦
        let same : j ≡ key = (text_eq_iff j key).0 h in
        rw same (
          rw (text_eq_refl key)
            (elim (Bool-cases (text_eq key k)) [ inl e ↦ rw e refl | inr e ↦ rw e refl ]))
    | inr h ↦ rw h (elim (Bool-cases (text_eq j k)) [
      | inr e ↦ rw (e, find-put k key value d) refl
      | inl e ↦
          let same : j ≡ k = (text_eq_iff j k).0 e in
          let other : text_eq key k ≡ false = rw (← same, text_eq_comm key j) h in
          rw (e, other) refl
    ])
  ]

  -- No key comes twice.
  abbrev pub IsDict : Dict V → Type 0
  IsDict d = Pairwise (λ (a b : Text × V). text_eq a.0 b.0 ≡ false) d

  -- Each entry is the one that its key finds.
  pub find-All : (d : Dict V) → IsDict d → All (λ (e : Text × V). find e.0 d ≡ some e.1) d
  unfolding find
  find-All [] h = tt
  find-All ((k, v) ∷ d) (h, hs) = (rw (text_eq_refl k) refl, later d h (find-All d hs))
    where
      later :
          (es : Dict V)
          → All (λ (b : Text × V). text_eq k b.0 ≡ false) es
          → All (λ (e : Text × V). find e.0 d ≡ some e.1) es
          → All (λ (e : Text × V). find e.0 ((k, v) ∷ d) ≡ some e.1) es
      later [] h g = tt
      later (e ∷ es) (h, hs) (g, gs) = (rw (find, h) g, later es hs gs)

  -- A predicate of entries holds of all of them after one is put for which it holds.
  pub All-put :
      (P : Text × V → Type 0) (key : Text) (value : V) (d : Dict V)
      → P (key, value)
      → All P d
      → All P (put key value d)
  unfolding put
  All-put P key value [] p h = (p, tt)
  All-put P key value ((k, v) ∷ d) p (q, h) = elim (Bool-cases (text_eq k key)) [
    | inl e ↦ let same : k ≡ key = (text_eq_iff k key).0 e in rw e (rw same p, h)
    | inr e ↦ rw e (q, All-put P key value d p h)
  ]

  pub put-IsDict : (key : Text) (value : V) (d : Dict V) → IsDict d → IsDict (put key value d)
  unfolding put
  put-IsDict key value [] h = (tt, tt)
  put-IsDict key value ((k, v) ∷ d) (h, hs) = elim (Bool-cases (text_eq k key)) [
    | inl e ↦ rw e (h, hs)
    | inr e ↦ rw e (
      All-put (λ (b : Text × V). text_eq k b.0 ≡ false) key value d e h,
      put-IsDict key value d hs,
    )
  ]

  pub All-find :
      (P : Text × V → Type 0) (key : Text) (value : V) (d : Dict V)
      → All P d
      → find key d ≡ some value
      → P (key, value)
  unfolding find
  All-find P key value [] h e = absurd (ground arith)
  All-find P key value ((k, v) ∷ d) (p, h) e = elim (Bool-cases (text_eq k key)) [
    | inr other ↦ All-find P key value d h (ground arith)
    | inl same ↦
        let one : k ≡ key = (text_eq_iff k key).0 same in
        let two : v ≡ value = ground arith in rw (← one, ← two) p
  ]
