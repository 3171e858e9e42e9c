-- ===== src/Prelude/Sort.antt =====
-- sort.Slice, sort.SliceStable and sort.Strings: insertion, which keeps the order of equal elements.
use mathlib.Core.Path.{◌≡◌}
use mathlib.Core.Logic.{◌⊎◌, inl, inr}
use mathlib.Core.Bool.{Bool, true}
use mathlib.Core.List.{List, [], ◌∷◌}
use native.Mathlib.Omega.{arith}
use keelage.Prelude.Lists.{All, Any, All-imp}
use keelage.Prelude.Tests.{Bool-cases, if◌then◌else◌}

-- Every element stands in the relation to each later one.
abbrev pub Pairwise {ℓ} : {A : Type ℓ} → (A → A → Type 0) → List A → Type ℓ
Pairwise R [] = Unit
Pairwise R (x ∷ xs) = All (R x) xs × Pairwise R xs

module _ {ℓ} {A : Type ℓ} (less : A → A → Bool) where
  unfoldable pub insert : A → List A → List A
  insert x [] = x ∷ []
  insert x (y ∷ ys) = let rest = insert x ys in if less y x then y ∷ rest else x ∷ y ∷ ys

  unfoldable pub sort : List A → List A
  unfolding insert
  sort [] = []
  sort (x ∷ xs) = insert x (sort xs)

  All-insert : (P : A → Type 0) (x : A) (ys : List A) → P x → All P ys → All P (insert x ys)
  unfolding insert
  All-insert P x [] p h = (p, tt)
  All-insert P x (y ∷ ys) p (q, h) = elim (Bool-cases (less y x)) [
    | inl e ↦ rw e (q, All-insert P x ys p h)
    | inr e ↦ rw e (p, (q, h))
  ]

  Any-insert : (P : A → Type 0) (x : A) (ys : List A) → P x ⊎ Any P ys → Any P (insert x ys)
  unfolding insert
  Any-insert P x [] (inl p) = inl p
  Any-insert P x [] (inr h) = absurd h
  Any-insert P x (y ∷ ys) h = elim (Bool-cases (less y x)) [
    | inr e ↦ rw e h
    | inl e ↦ elim h [
      | inl p ↦ rw e (inr (Any-insert P x ys (inl p)))
      | inr (inl q) ↦ rw e (inl q)
      | inr (inr k) ↦ rw e (inr (Any-insert P x ys (inr k)))
    ]
  ]

  pub All-sort : (P : A → Type 0) (xs : List A) → All P xs → All P (sort xs)
  unfolding sort
  All-sort P [] h = tt
  All-sort P (x ∷ xs) (p, h) = All-insert P x (sort xs) p (All-sort P xs h)

  pub Any-sort : (P : A → Type 0) (xs : List A) → Any P xs → Any P (sort xs)
  unfolding sort
  Any-sort P [] h = h
  Any-sort P (x ∷ xs) (inl p) = Any-insert P x (sort xs) (inl p)
  Any-sort P (x ∷ xs) (inr h) = Any-insert P x (sort xs) (inr (Any-sort P xs h))

  -- One of the two goes before the other.
  abbrev pub Compares : A → A → Type 0
  Compares a b = (less a b ≡ true) ⊎ (less b a ≡ true)

  module _ (trans : (a b c : A) → less a b ≡ true → less b c ≡ true → less a c ≡ true) where
    insert-Pairwise :
        (x : A) (ys : List A)
        → All (Compares x) ys
        → Pairwise (λ a b. less a b ≡ true) ys
        → Pairwise (λ a b. less a b ≡ true) (insert x ys)
    unfolding insert
    insert-Pairwise x [] c h = (tt, tt)
    insert-Pairwise x (y ∷ ys) (c, cs) (h, hs) = elim (Bool-cases (less y x)) [
      | inl e ↦ rw e (All-insert (λ z. less y z ≡ true) x ys e h, insert-Pairwise x ys cs hs)
      | inr e ↦
          let first : less x y ≡ true = ground arith in
          rw e (
            (
              first,
              All-imp (λ z. less y z ≡ true) (λ z. less x z ≡ true) ys (λ z. trans x y z first) h,
            ),
            (h, hs),
          )
    ]

    -- Elements of which each two compare are sorted strictly.
    pub sort-Pairwise :
        (xs : List A) → Pairwise Compares xs → Pairwise (λ a b. less a b ≡ true) (sort xs)
    unfolding sort
    sort-Pairwise [] h = tt
    sort-Pairwise (x ∷ xs) (h, hs) =
        insert-Pairwise x (sort xs) (All-sort (Compares x) xs h) (sort-Pairwise xs hs)
