-- ===== src/Core/ScopeKey/Resolve.antt =====
-- internal/core/scope.go: `Resolve`, the keys that apply to a target, in order.
use keelage.Prelude.{
  ℕ, ◌≡◌, refl, ◌∙◌, Bool, true, false, not, ◌&&◌, ◌⊎◌, inl, inr, Bool-cases, List, [], ◌∷◌, ltb,
  ◌==◌, All, Any, All-imp, if◌then◌else◌, arith,
}
use keelage.Prelude.Sort.{Pairwise, Compares, sort, All-sort, Any-sort, sort-Pairwise}
use keelage.Prelude.Text.{Text, text_eq, text_eq_refl, text_eq_comm, contains_text}
use keelage.Prelude.Text.Order.{text_lt, text_lt_trans, text_lt_total}
use keelage.Core.Std.{Std}
use keelage.Core.ScopeKey.{ScopeKey, to_text, width, contains}

pub data ObjectKind : Type 0 where
  constraint context : ObjectKind

-- The order of widths: for constraints the wide first, for context the narrow.
abbrev pub goes_before : ObjectKind → ℕ → ℕ → Bool
goes_before ObjectKind.constraint v w = ltb w v
goes_before ObjectKind.context v w = ltb v w

-- The `less` that `Resolve` sorts with.
unfoldable pub less : ObjectKind → ScopeKey → ScopeKey → Bool
less kind a b =
    if not (width a == width b)
    then goes_before kind (width a) (width b)
    else text_lt (to_text a) (to_text b)

less_trans :
    (kind : ObjectKind) (a b c : ScopeKey)
    → less kind a b ≡ true
    → less kind b c ≡ true
    → less kind a c ≡ true
unfolding less
less_trans ObjectKind.constraint a b c h k =
    ground (arith, text_lt_trans (to_text a) (to_text b) (to_text c))
less_trans ObjectKind.context a b c h k =
    ground (arith, text_lt_trans (to_text a) (to_text b) (to_text c))

less_total :
    (kind : ObjectKind) (a b : ScopeKey)
    → text_eq (to_text a) (to_text b) ≡ false
    → Compares (less kind) a b
unfolding less
less_total ObjectKind.constraint a b h = ground (arith, text_lt_total (to_text a) (to_text b) h)
less_total ObjectKind.context a b h = ground (arith, text_lt_total (to_text a) (to_text b) h)

-- A key is in its own list.
All-self : (keys : List ScopeKey) → All (λ r. Any (λ k. r ≡ k) keys) keys
All-self [] = tt
All-self (k ∷ keys) = (
  inl refl,
  All-imp (λ r. Any (λ j. r ≡ j) keys) (λ r. Any (λ j. r ≡ j) (k ∷ keys)) keys (λ r h. inr h)
      (All-self keys),
)

-- Both are written alike.
abbrev pub IsSame : ScopeKey → ScopeKey → Type 0
IsSame k r = text_eq (to_text k) (to_text r) ≡ true

module _ ⦃go : Std⦄ (target : ScopeKey) where
  abbrev is_kept : List Text → ScopeKey → Bool
  is_kept seen k = contains k target && not (contains_text seen (to_text k))

  -- The loop of `Resolve`, with the texts that were seen.
  unfoldable pub collect : List Text → List ScopeKey → List ScopeKey
  collect seen [] = []
  collect seen (k ∷ keys) =
      let rest = collect (if is_kept seen k then to_text k ∷ seen else seen) keys in
      if is_kept seen k then k ∷ rest else rest

  All-collect :
      (P : ScopeKey → Type 0) (seen : List Text) (keys : List ScopeKey)
      → All P keys
      → All (λ k. P k × (contains k target ≡ true)) (collect seen keys)
  unfolding collect
  All-collect P seen [] h = tt
  All-collect P seen (k ∷ keys) (p, h) = elim (Bool-cases (is_kept seen k)) [
    | inl e ↦
        let applies : contains k target ≡ true = ground arith in
        rw e ((p, applies), All-collect P (to_text k ∷ seen) keys h)
    | inr e ↦ rw e (All-collect P seen keys h)
  ]

  collect-fresh :
      (seen : List Text) (keys : List ScopeKey)
      → All (λ r. contains_text seen (to_text r) ≡ false) (collect seen keys)
  unfolding collect contains_text
  collect-fresh seen [] = tt
  collect-fresh seen (k ∷ keys) = elim (Bool-cases (is_kept seen k)) [
    | inr e ↦ rw e (collect-fresh seen keys)
    | inl e ↦
        let new : contains_text seen (to_text k) ≡ false = ground arith in
        rw e (
          new,
          All-imp (λ r. contains_text (to_text k ∷ seen) (to_text r) ≡ false)
              (λ r. contains_text seen (to_text r) ≡ false) (collect (to_text k ∷ seen) keys)
              (λ r h. ground arith) (collect-fresh (to_text k ∷ seen) keys),
        )
  ]

  collect-Pairwise :
      (kind : ObjectKind) (seen : List Text) (keys : List ScopeKey)
      → Pairwise (Compares (less kind)) (collect seen keys)
  unfolding collect contains_text
  collect-Pairwise kind seen [] = tt
  collect-Pairwise kind seen (k ∷ keys) = elim (Bool-cases (is_kept seen k)) [
    | inr e ↦ rw e (collect-Pairwise kind seen keys)
    | inl e ↦ rw e (
      All-imp (λ r. contains_text (to_text k ∷ seen) (to_text r) ≡ false) (Compares (less kind) k)
          (collect (to_text k ∷ seen) keys) (λ r h. less_total kind k r (ground arith))
          (collect-fresh (to_text k ∷ seen) keys),
      collect-Pairwise kind (to_text k ∷ seen) keys,
    )
  ]

  -- A key that applies was seen before, or is kept, itself or one that is written alike.
  collect-IsSame :
      (seen : List Text) (keys : List ScopeKey) (k : ScopeKey)
      → Any (λ j. k ≡ j) keys
      → contains k target ≡ true
      → (contains_text seen (to_text k) ≡ true) ⊎ Any (IsSame k) (collect seen keys)
  unfolding collect contains_text
  collect-IsSame seen [] k h c = absurd h
  collect-IsSame seen (j ∷ keys) k (inl same) c = elim (Bool-cases (is_kept seen j)) [
    | inl e ↦ rw e (inr (inl (rw same (text_eq_refl (to_text j)))))
    | inr e ↦ let here : contains j target ≡ true = rw (← same) c in inl (rw same (ground arith))
  ]
  collect-IsSame seen (j ∷ keys) k (inr h) c = elim (Bool-cases (is_kept seen j)) [
    | inr e ↦ rw e (collect-IsSame seen keys k h c)
    | inl e ↦ rw e (elim (collect-IsSame (to_text j ∷ seen) keys k h c) [
      | inr later ↦ inr (inr later)
      | inl before ↦ elim (Bool-cases (text_eq (to_text j) (to_text k))) [
        | inl alike ↦ inr (inl (text_eq_comm (to_text k) (to_text j) ∙ alike))
        | inr other ↦ inl (ground arith)
      ]
    ])
  ]

  -- `Resolve`.
  unfoldable pub resolve : List ScopeKey → ObjectKind → List ScopeKey
  unfolding collect
  resolve keys kind = sort (less kind) (collect [] keys)

  -- The keys that apply, each written once, in the order of the kind.
  pub record IsResolution (keys : List ScopeKey) (kind : ObjectKind) (out : List ScopeKey)
      : Type 0 where
    pub applies : All (λ r. Any (λ k. r ≡ k) keys × (contains r target ≡ true)) out
    pub complete :
        (k : ScopeKey) → Any (λ j. k ≡ j) keys → contains k target ≡ true → Any (IsSame k) out
    pub ordered : Pairwise (λ a b. less kind a b ≡ true) out

  -- `Resolve` gives keys of its argument that contain the target, and of every one that does a key of
  -- the same text; each stands before the next in the order of the kind, by width and then by text,
  -- so no text comes twice.
  pub resolve-IsResolution :
      (keys : List ScopeKey) (kind : ObjectKind) → IsResolution keys kind (resolve keys kind)
  unfolding resolve contains_text
  resolve-IsResolution keys kind = record {
    applies =
        All-sort (less kind) (λ r. Any (λ k. r ≡ k) keys × (contains r target ≡ true))
          (collect [] keys) (All-collect (λ r. Any (λ k. r ≡ k) keys) [] keys (All-self keys));
    complete = λ k h c. Any-sort (less kind) (IsSame k) (collect [] keys) (found k h c);
    ordered =
        sort-Pairwise (less kind) (less_trans kind) (collect [] keys)
          (collect-Pairwise kind [] keys);
  }
    where
      found :
          (k : ScopeKey)
          → Any (λ j. k ≡ j) keys
          → contains k target ≡ true
          → Any (IsSame k) (collect [] keys)
      found k h c = elim (collect-IsSame [] keys k h c) [
        | inl bad ↦ absurd (ground arith)
        | inr there ↦ there
      ]
