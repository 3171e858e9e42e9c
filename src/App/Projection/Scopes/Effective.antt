-- ===== src/App/Projection/Scopes/Effective.antt =====
-- internal/app/projection.go: what `Effective` answers.
use keelage.Prelude.{
  ◌≡◌, ◌≤◌, ◌≢◌, refl, sym, ap, ◌∙◌, true, ◌⊎◌, inl, inr, some, Bool-cases, List, [], ◌∷◌, map, All,
  Any, All-imp, if◌then◌else◌, arith,
}
use keelage.Prelude.Dict.{find, find-All}
use keelage.Prelude.Sort.{Pairwise}
use keelage.Prelude.Int.{ltb_ℤ, ◌≤ℤ◌, ≤ℤ_refl}
use keelage.Prelude.Text.{Text, text_eq_iff}
use keelage.Core.Std.{Std}
use keelage.Core.Level.{Level, l0, max_level}
use keelage.Core.ScopeKey.{ScopeKey, to_text, contains, width}
use keelage.Core.ScopeKey.Resolve.{
  ObjectKind, less, resolve, IsSame, IsResolution, resolve-IsResolution,
}
use keelage.App.Projection.Scopes.{
  ScopeEntry, ScopeIndex, entry_of, narrow, effective, IsScopeIndex,
}
use keelage.App.Projection.Scopes.Narrow.{
  ltb_ℤ_false, IsLeast, narrow-IsLeast, IsLast, NotWider, narrow-IsLast,
}

-- The keys that a range loop over the index meets.
abbrev keys_of : ScopeIndex → List ScopeKey
keys_of s = map (λ (e : Text × ScopeEntry). e.1.key) s

-- An entry whose key is met, and finds it.
record IsEntry (s : ScopeIndex) (e : Text × ScopeEntry) : Type 0 where
  pub listed : Any (λ j. e.1.key ≡ j) (keys_of s)
  pub found : entry_of s e.1.key ≡ e.1

entries-IsEntry : (s : ScopeIndex) → IsScopeIndex s → All (IsEntry s) s
entries-IsEntry s i = walk s (λ k h. h) i.keyed (find-All s i.dict)
  where
    walk :
        (es : ScopeIndex)
        → ((k : ScopeKey) → Any (λ j. k ≡ j) (keys_of es) → Any (λ j. k ≡ j) (keys_of s))
        → All (λ (e : Text × ScopeEntry). e.0 ≡ to_text e.1.key) es
        → All (λ (e : Text × ScopeEntry). find e.0 s ≡ some e.1) es
        → All (IsEntry s) es
    walk [] w h g = tt
    walk (e ∷ es) w (h, hs) (g, gs) = (
      record { listed = w e.1.key (inl refl); found = rw (← h, g) refl },
      walk es (λ k m. w k (inr m)) hs gs,
    )

-- A key that is met is an entry's.
entry_Any :
    (s : ScopeIndex) (r : ScopeKey) (P : Text × ScopeEntry → Type 0) (es : ScopeIndex)
    → All (IsEntry s) es
    → ((e : Text × ScopeEntry) → e.1.key ≡ r → entry_of s r ≡ e.1 → P e)
    → Any (λ k. r ≡ k) (keys_of es)
    → Any P es
entry_Any s r P [] h f m = absurd m
entry_Any s r P (e ∷ es) (h, hs) f (inl same) =
    let found = h.found in inl (f e (sym same) (rw same found))
entry_Any s r P (e ∷ es) (h, hs) f (inr m) = inr (entry_Any s r P es hs f m)

-- Keys that are written alike have the same entry.
bound_by :
    (s : ScopeIndex) (k : ScopeKey) (least : Level) (keys : List ScopeKey)
    → Any (IsSame k) keys
    → All (λ r. least ≤ℤ (entry_of s r).cap) keys
    → least ≤ℤ (entry_of s k).cap
bound_by s k least [] h g = absurd h
bound_by s k least (r ∷ keys) (inl same) (g, gs) =
    let text : to_text k ≡ to_text r = (text_eq_iff (to_text k) (to_text r)).0 same in rw text g
bound_by s k least (r ∷ keys) (inr h) (g, gs) = bound_by s k least keys h gs

-- The smaller of a level and a cap.
abbrev pub capped : Level → Level → Level
capped level cap = if ltb_ℤ cap level then cap else level

module _ ⦃go : Std⦄ where
  -- The cap is the least of those that apply, and the level that of a narrowest scope that applies,
  -- as far as the cap admits it; the highest cap and the lowest level where none applies.
  pub record IsEffective (s : ScopeIndex) (target : ScopeKey) (level cap : Level) : Type 0 where
    pub within : level ≤ℤ cap
    pub binds : All (λ (e : Text × ScopeEntry). contains e.1.key target ≡ true → cap ≤ℤ e.1.cap) s
    pub met :
        (cap ≡ max_level)
        ⊎ Any (λ (e : Text × ScopeEntry). (contains e.1.key target ≡ true) × (cap ≡ e.1.cap)) s
    pub narrowest :
        (All (λ (e : Text × ScopeEntry). contains e.1.key target ≢ true) s
          × (level ≡ capped l0 cap))
        ⊎ Any
            (λ (e : Text × ScopeEntry).
              (contains e.1.key target ≡ true)
              × (level ≡ capped e.1.level cap)
              × All
                  (λ (d : Text × ScopeEntry).
                    contains d.1.key target ≡ true → width e.1.key ≤ width d.1.key)
                  s)
            s

  clamp-within : (level cap : Level) → capped level cap ≤ℤ cap
  clamp-within level cap = elim (Bool-cases (ltb_ℤ cap level)) [
    | inl h ↦ rw h (≤ℤ_refl cap)
    | inr h ↦ rw h (ltb_ℤ_false cap level h)
  ]

  -- What resolving the keys of the index gives, at one of them.
  abbrev Applies : ScopeIndex → ScopeKey → ScopeKey → Type 0
  Applies s target r = Any (λ k. r ≡ k) (keys_of s) × (contains r target ≡ true)

  module _ (s : ScopeIndex) (i : IsScopeIndex s) (target : ScopeKey) where
    transfer :
        (Q : ScopeKey → Type 0) (P : Text × ScopeEntry → Type 0) (keys : List ScopeKey)
        → All (Applies s target) keys
        → ((e : Text × ScopeEntry)
            → contains e.1.key target ≡ true
            → entry_of s e.1.key ≡ e.1
            → Q e.1.key
            → P e)
        → Any Q keys
        → Any P s
    transfer Q P [] h f m = absurd m
    transfer Q P (k ∷ keys) ((listed, applies), h) f (inl q) =
        entry_Any s k P s (entries-IsEntry s i)
          (λ e same found. f e (rw same applies) (ap (entry_of s) same ∙ found) (rw same q)) listed
    transfer Q P (k ∷ keys) (h, hs) f (inr m) = transfer Q P keys hs f m

    -- Of two keys of the index that are written alike, one is the other.
    alike :
        (d : Text × ScopeEntry) (r : ScopeKey)
        → IsEntry s d
        → Any (λ k. r ≡ k) (keys_of s)
        → IsSame d.1.key r
        → r ≡ d.1.key
    alike d r h listed same =
        let text : to_text d.1.key ≡ to_text r =
          (text_eq_iff (to_text d.1.key) (to_text r)).0 same in
        let found : entry_of s r ≡ d.1 = rw (← text) h.found in
        one s (
          entry_Any s r (λ e. r ≡ d.1.key) s (entries-IsEntry s i)
            (λ e key entry. sym key ∙ ap (λ x. x.key) (sym entry ∙ found)) listed)
      where
        one : (es : ScopeIndex) → Any (λ e. r ≡ d.1.key) es → r ≡ d.1.key
        one [] h = absurd h
        one (e ∷ es) (inl h) = h
        one (e ∷ es) (inr h) = one es h

    not_wider :
        (k : ScopeKey) (d : Text × ScopeEntry) (keys : List ScopeKey)
        → IsEntry s d
        → All (Applies s target) keys
        → All (λ j. width k ≤ width j) keys
        → Any (IsSame d.1.key) keys
        → width k ≤ width d.1.key
    not_wider k d [] h a w m = absurd m
    not_wider k d (r ∷ keys) h ((listed, applies), a) (w, ws) (inl same) =
        rw (← alike d r h listed same) w
    not_wider k d (r ∷ keys) h (a, rest) (w, ws) (inr m) = not_wider k d keys h rest ws m

    less-NotWider :
        (keys : List ScopeKey)
        → Pairwise (λ a b. less ObjectKind.constraint a b ≡ true) keys
        → Pairwise NotWider keys
    unfolding less
    less-NotWider [] h = tt
    less-NotWider (k ∷ keys) (h, hs) = (
      All-imp (λ b. less ObjectKind.constraint k b ≡ true) (NotWider k) keys (λ b e. ground arith)
          h,
      less-NotWider keys hs,
    )

    narrowest_of :
        (keys : List ScopeKey) (level cap : Level)
        → IsResolution target (keys_of s) ObjectKind.constraint keys
        → IsLast s keys l0 level
        → (All (λ (e : Text × ScopeEntry). contains e.1.key target ≢ true) s
            × (capped level cap ≡ capped l0 cap))
          ⊎ Any
              (λ (e : Text × ScopeEntry).
                (contains e.1.key target ≡ true)
                × (capped level cap ≡ capped e.1.level cap)
                × All
                    (λ (d : Text × ScopeEntry).
                      contains d.1.key target ≡ true → width e.1.key ≤ width d.1.key)
                    s)
              s
    narrowest_of keys level cap res last = elim last.by [
      | inl (empty, same) ↦ inl (
        All-imp (IsEntry s) _ s
            (λ e h c. no_element keys (IsSame e.1.key) empty (res.complete e.1.key h.listed c))
            (entries-IsEntry s i),
        ap (λ l. capped l cap) same,
      )
      | inr (k, there, found, narrowest) ↦ inr (
          transfer (λ j. k ≡ j) _ keys res.applies
            (λ e c entry q. (
              c,
              ap (λ l. capped l cap) (found ∙ ap (λ x. x.level) (ap (entry_of s) q ∙ entry)),
              All-imp (IsEntry s) _ s
                  (λ d h a.
                    rw (← q) (
                      not_wider k d keys h res.applies narrowest (res.complete d.1.key h.listed a)))
                  (entries-IsEntry s i),
            ))
            there)
    ]
      where
        no_element : (keys : List ScopeKey) (P : ScopeKey → Type 0) → keys ≡ [] → Any P keys → ⊥
        no_element [] P e h = h
        no_element (k ∷ keys) P e h = ground arith

    -- `Effective` answers the least cap of the declared scopes that contain the target, and the level
    -- of a narrowest of them, as far as that cap admits it; the highest cap and the lowest level where
    -- none contains it.
    pub effective-IsEffective : IsEffective s target (effective s target).0 (effective s target).1
    unfolding effective
    effective-IsEffective = record {
      within = clamp-within (narrow s l0 max_level keys).0 (narrow s l0 max_level keys).1;
      binds =
          All-imp (IsEntry s) _ s
            (λ e h c. rw (← h.found) (
              bound_by s e.1.key (narrow s l0 max_level keys).1 keys
                (res.complete e.1.key h.listed c) least.binds))
            (entries-IsEntry s i);
      met = elim least.met [
        | inl none_met ↦ inl none_met
        | inr m ↦
            inr (transfer _ _ keys res.applies (λ e c found q. (c, q ∙ ap (λ x. x.cap) found)) m)
      ];
      narrowest =
          narrowest_of keys (narrow s l0 max_level keys).0 (narrow s l0 max_level keys).1 res
            (narrow-IsLast s l0 max_level keys (less-NotWider keys res.ordered));
    }
      where
        keys : List ScopeKey
        keys = resolve target (keys_of s) ObjectKind.constraint

        res : IsResolution target (keys_of s) ObjectKind.constraint keys
        res = resolve-IsResolution target (keys_of s) ObjectKind.constraint

        least : IsLeast s max_level keys (narrow s l0 max_level keys).1
        least = narrow-IsLeast s l0 max_level keys
