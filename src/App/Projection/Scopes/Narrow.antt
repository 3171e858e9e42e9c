-- ===== src/App/Projection/Scopes/Narrow.antt =====
-- internal/app/projection.go: the loop of `Effective`.
use keelage.Prelude.{
  ◌≡◌, ◌≤◌, refl, true, false, ◌⊎◌, inl, inr, Bool-cases, List, [], ◌∷◌, All, Any, if◌then◌else◌,
  arith,
}
use keelage.Prelude.Sort.{Pairwise}
use keelage.Prelude.Int.{ℤ, ltb_ℤ, leb_ℤ_iff, ◌≤ℤ◌, ≤ℤ_refl, ≤ℤ_trans, ≤ℤ_total}
use keelage.Core.Level.{Level}
use keelage.Core.ScopeKey.{ScopeKey, width}
use keelage.App.Projection.Scopes.{ScopeIndex, entry_of, narrow}

pub ltb_ℤ_false : (a b : ℤ) → ltb_ℤ a b ≡ false → b ≤ℤ a
ltb_ℤ_false a b h = (leb_ℤ_iff b a).0 (ground arith)

ltb_ℤ_true : (a b : ℤ) → ltb_ℤ a b ≡ true → a ≤ℤ b
ltb_ℤ_true a b h = elim (≤ℤ_total a b) [
  | inl le ↦ le
  | inr ge ↦ absurd (ground (arith, (leb_ℤ_iff b a).1 ge))
]

-- The cap of the loop is the least that it has met.
pub record IsLeast (s : ScopeIndex) (cap : Level) (keys : List ScopeKey) (least : Level)
    : Type 0 where
  pub start : least ≤ℤ cap
  pub binds : All (λ k. least ≤ℤ (entry_of s k).cap) keys
  pub met : (least ≡ cap) ⊎ Any (λ k. least ≡ (entry_of s k).cap) keys

pub narrow-IsLeast :
    (s : ScopeIndex) (level cap : Level) (keys : List ScopeKey)
    → IsLeast s cap keys (narrow s level cap keys).1
unfolding narrow
narrow-IsLeast s level cap [] = record { start = ≤ℤ_refl cap; binds = tt; met = inl refl }
narrow-IsLeast s level cap (k ∷ keys) =
    let e = entry_of s k in
    elim (Bool-cases (ltb_ℤ e.cap cap)) [
      | inl h ↦
          let rest = narrow-IsLeast s e.level e.cap keys in
          let less = ltb_ℤ_true e.cap cap h in
          rw (narrow, h)
            (record {
              start = ≤ℤ_trans (narrow s e.level e.cap keys).1 e.cap cap rest.start less;
              binds = (rest.start, rest.binds);
              met = elim rest.met [ inl same ↦ inr (inl same) | inr later ↦ inr (inr later) ];
            })
      | inr h ↦
          let rest = narrow-IsLeast s e.level cap keys in
          let more = ltb_ℤ_false e.cap cap h in
          rw (narrow, h)
            (record {
              start = rest.start;
              binds =
                  (≤ℤ_trans (narrow s e.level cap keys).1 cap e.cap rest.start more, rest.binds);
              met = elim rest.met [ inl same ↦ inl same | inr later ↦ inr (inr later) ];
            })
    ]

-- The level of the loop is that of the last key.
pub record IsLast (s : ScopeIndex) (keys : List ScopeKey) (level found : Level) : Type 0 where
  pub by :
      ((keys ≡ []) × (found ≡ level))
      ⊎ ((k : ScopeKey) × Any (λ j. k ≡ j) keys
          × (found ≡ (entry_of s k).level)
          × All (λ j. width k ≤ width j) keys)

abbrev pub NotWider : ScopeKey → ScopeKey → Type 0
NotWider j k = width k ≤ width j

pub narrow-IsLast :
    (s : ScopeIndex) (level cap : Level) (keys : List ScopeKey)
    → Pairwise NotWider keys
    → IsLast s keys level (narrow s level cap keys).0
unfolding narrow
narrow-IsLast s level cap [] h = record { by = inl (refl, refl) }
narrow-IsLast s level cap (k ∷ []) h = record { by = inr (k, inl refl, refl, (omega arith, tt)) }
narrow-IsLast s level cap (k ∷ (j ∷ keys)) (h, hs) =
    let e = entry_of s k in
    elim (narrow-IsLast s e.level (if ltb_ℤ e.cap cap then e.cap else cap) (j ∷ keys) hs).by [
      | inl (bad, same) ↦ absurd (ground arith)
      | inr (last, there, found, narrowest) ↦ record {
        by = inr (last, inr there, found, (last_first k (j ∷ keys) last there h, narrowest));
      }
    ]
  where
    last_first :
        (k : ScopeKey) (keys : List ScopeKey) (last : ScopeKey)
        → Any (λ j. last ≡ j) keys
        → All (NotWider k) keys
        → width last ≤ width k
    last_first k [] last h g = absurd h
    last_first k (j ∷ keys) last (inl same) (g, gs) = rw same g
    last_first k (j ∷ keys) last (inr h) (g, gs) = last_first k keys last h gs
