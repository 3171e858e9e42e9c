-- ===== src/Core/ScopeKey/Containment.antt =====
-- internal/core/scope.go: `Contains` as a relation, axis by axis.
use keelage.Prelude.{◌≡◌, refl, true, false, ◌⊎◌, inl, inr, ◌↔◌, [], ◌∷◌, arith}
use keelage.Prelude.Text.{Text, text_eq_iff, is_empty}
use keelage.Core.Std.{Std}
use keelage.Core.ScopeKey.{ScopeKey, global, differs, path_contains, contains, glob_match}

-- An axis of a scope admits a value: the axis is not set, or it is that value.
abbrev pub Admits : Text → Text → Type 0
Admits own other = (own ≡ []) ⊎ (own ≡ other)

module _ ⦃go : Std⦄ where
  -- The path axis also admits the non-empty paths that its glob matches.
  abbrev pub AdmitsPath : Text → Text → Type 0
  AdmitsPath own other =
      (own ≡ []) ⊎ ((is_empty other ≡ false) × ((own ≡ other) ⊎ (glob_match own other ≡ true)))

  pub record Covers (k target : ScopeKey) : Type 0 where
    pub org : Admits k.org target.org
    pub product : Admits k.product target.product
    pub team : Admits k.team target.team
    pub repo : Admits k.repo target.repo
    pub person : Admits k.person target.person
    pub path : AdmitsPath k.path_glob target.path_glob

  differs-Admits : (own other : Text) → differs own other ≡ false → Admits own other
  differs-Admits [] other h = inl refl
  differs-Admits (c ∷ own) other h = ground (arith, text_eq_iff (c ∷ own) other)

  Admits-differs : (own other : Text) → Admits own other → differs own other ≡ false
  Admits-differs [] other h = refl
  Admits-differs (c ∷ own) other h = ground (arith, text_eq_iff (c ∷ own) other)

  path_contains-AdmitsPath :
      (own other : Text) → path_contains own other ≡ true → AdmitsPath own other
  path_contains-AdmitsPath [] other h = inl refl
  path_contains-AdmitsPath (c ∷ own) other h = ground (arith, text_eq_iff (c ∷ own) other)

  AdmitsPath-path_contains :
      (own other : Text) → AdmitsPath own other → path_contains own other ≡ true
  AdmitsPath-path_contains [] other h = refl
  AdmitsPath-path_contains (c ∷ own) other h = ground (arith, text_eq_iff (c ∷ own) other)

  pub contains-Covers : (k target : ScopeKey) → contains k target ≡ true → Covers k target
  unfolding contains
  contains-Covers k target h = record {
    org = differs-Admits k.org target.org (ground arith);
    product = differs-Admits k.product target.product (ground arith);
    team = differs-Admits k.team target.team (ground arith);
    repo = differs-Admits k.repo target.repo (ground arith);
    person = differs-Admits k.person target.person (ground arith);
    path = path_contains-AdmitsPath k.path_glob target.path_glob (ground arith);
  }

  pub Covers-contains : (k target : ScopeKey) → Covers k target → contains k target ≡ true
  unfolding contains
  Covers-contains k target h =
      rw
        (
          Admits-differs k.org target.org h.org,
          Admits-differs k.product target.product h.product,
          Admits-differs k.team target.team h.team,
          Admits-differs k.repo target.repo h.repo,
          Admits-differs k.person target.person h.person,
        )
        (AdmitsPath-path_contains k.path_glob target.path_glob h.path)

  -- `Contains` holds exactly when every axis admits the target's: an axis that is not set admits
  -- everything, one that is set admits only its own value, and a path glob admits in addition the
  -- non-empty paths that it matches.
  pub contains_iff : (k target : ScopeKey) → (contains k target ≡ true) ↔ Covers k target
  contains_iff k target = (contains-Covers k target, Covers-contains k target)

  self_path : (p : Text) → AdmitsPath p p
  self_path [] = inl refl
  self_path (c ∷ p) = inr (refl, inl refl)

  -- Every scope contains itself, and the global scope contains every scope.
  pub contains_refl : (k : ScopeKey) → (contains k k ≡ true) × (contains global k ≡ true)
  contains_refl k = (
    Covers-contains k k (record {
      org = inr refl;
      product = inr refl;
      team = inr refl;
      repo = inr refl;
      person = inr refl;
      path = self_path k.path_glob;
    }),
    Covers-contains global k (record {
      org = inl refl;
      product = inl refl;
      team = inl refl;
      repo = inl refl;
      person = inl refl;
      path = inl refl;
    }),
  )
