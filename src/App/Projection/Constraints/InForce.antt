-- ===== src/App/Projection/Constraints/InForce.antt =====
-- internal/app/projection.go: which constraints `InForce` lists.
use keelage.Prelude.{◌≡◌, Bool, true, ◌&&◌, inl, inr, Bool-cases, List, [], ◌∷◌, All, Any}
use keelage.Prelude.Sort.{All-sort, Any-sort}
use keelage.Core.Std.{Std}
use keelage.Core.ScopeKey.{ScopeKey, contains}
use keelage.Ledger.Log.{filter}
use keelage.App.Projection.Constraints.{
  ConstraintSummary, ConstraintIndex, is_in_force, wider_first, entries, in_force,
}

module _ (p : ConstraintSummary → Bool) where
  kept_only : (es : List ConstraintSummary) → All (λ e. p e ≡ true) (filter p es)
  unfolding filter
  kept_only [] = tt
  kept_only (e ∷ es) = elim (Bool-cases (p e)) [
    | inl h ↦ rw h (h, kept_only es)
    | inr h ↦ rw h (kept_only es)
  ]

  filter-Any :
      (P : ConstraintSummary → Type 0) (es : List ConstraintSummary)
      → Any (λ e. P e × (p e ≡ true)) es
      → Any P (filter p es)
  unfolding filter
  filter-Any P [] m = absurd m
  filter-Any P (e ∷ es) (inl (q, h)) = rw h (inl q)
  filter-Any P (e ∷ es) (inr m) = elim (Bool-cases (p e)) [
    | inl h ↦ rw h (inr (filter-Any P es m))
    | inr h ↦ rw h (filter-Any P es m)
  ]

-- `InForce` lists constraints that are verified or under review and whose scope contains the target.
pub in_force_only :
    ⦃go : Std⦄ (c : ConstraintIndex) (target : ScopeKey)
    → All (λ e. (is_in_force e.state && contains e.scope target) ≡ true) (in_force c target)
unfolding in_force
in_force_only c target =
    All-sort wider_first _
      (filter (λ e. is_in_force e.state && contains e.scope target) (entries c))
      (kept_only (λ e. is_in_force e.state && contains e.scope target) (entries c))

-- It lists every one of them.
pub in_force_all :
    ⦃go : Std⦄ (c : ConstraintIndex) (target : ScopeKey) (P : ConstraintSummary → Type 0)
    → Any (λ e. P e × ((is_in_force e.state && contains e.scope target) ≡ true)) (entries c)
    → Any P (in_force c target)
unfolding in_force
in_force_all c target P m =
    Any-sort wider_first P
      (filter (λ e. is_in_force e.state && contains e.scope target) (entries c))
      (filter-Any (λ e. is_in_force e.state && contains e.scope target) P (entries c) m)
