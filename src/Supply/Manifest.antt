-- ===== src/Supply/Manifest.antt =====
-- internal/core/supply/manifest.go: the sidecar of a repository.
use keelage.Prelude.{
  ℕ, ◌≡◌, refl, sym, ap, ◌∙◌, Bool, true, false, inl, inr, Option, none, some, Bool-cases, List, [],
  ◌∷◌, if◌then◌else◌,
}
use keelage.Prelude.Text.{Text, text_eq, text_eq_iff, text_eq_comm}

-- `Import`.
record Import : Type 0 where
  pub path : Text
  pub kind : Text
  pub object_id : Text
  pub hash : Text
  pub scope : Text

-- `RenderedFile`.
record RenderedFile : Type 0 where
  pub path : Text
  pub tool : Text
  pub hash : Text
  pub managed : Bool
  pub block_id : Text

-- `Manifest`. A list of pairs stands for the map of the adapters' versions.
record Manifest : Type 0 where
  pub version : ℕ
  pub repo : Text
  pub adapters : List (Text × Text)
  pub imports : List Import
  pub rendered : List RenderedFile
  pub gitignore : Bool
  pub updated_at : ℕ

module _ {A : Type 0} (path : A → Text) where
  -- The loop of `FindImport` and of `FindRendered`.
  unfoldable find_by_path : List A → Text → Option A
  find_by_path [] p = none
  find_by_path (x ∷ xs) p = if text_eq (path x) p then some x else find_by_path xs p

  -- The loop of `SetImport` and of `SetRendered`, with the append after it.
  unfoldable set_by_path : List A → A → List A
  set_by_path [] new = new ∷ []
  set_by_path (x ∷ xs) new =
      let rest = set_by_path xs new in if text_eq (path x) (path new) then new ∷ xs else x ∷ rest

  -- What was set is found under its path, and every other path is left as it was.
  find_by_path-set_by_path :
      (xs : List A) (new : A) (p : Text)
      → find_by_path (set_by_path xs new) p
        ≡ (if text_eq (path new) p then some new else find_by_path xs p)
  unfolding find_by_path set_by_path
  find_by_path-set_by_path [] new p = refl
  find_by_path-set_by_path (x ∷ xs) new p = elim (Bool-cases (text_eq (path x) (path new))) [
    | inl same ↦
        let named = (text_eq_iff (path x) (path new)).0 same in
        rw (set_by_path, same)
          (rw (find_by_path, named)
            (again (text_eq (path new) p) (some new) (some x) (find_by_path xs p)))
    | inr other ↦
        rw (set_by_path, other) (rw (find_by_path, find_by_path-set_by_path xs new p) (apart other))
  ]
    where
      again :
          {B : Type 0} (b : Bool) (t u e : B)
          → (if b then t else e) ≡ (if b then t else (if b then u else e))
      again true t u e = refl
      again false t u e = refl

      apart :
          text_eq (path x) (path new) ≡ false
          → (if text_eq (path x) p
              then some x
              else (if text_eq (path new) p then some new else find_by_path xs p))
            ≡ (if text_eq (path new) p
                then some new
                else (if text_eq (path x) p then some x else find_by_path xs p))
      apart other = elim (Bool-cases (text_eq (path x) p)) [
        | inr differs ↦ rw differs refl
        | inl named ↦
            let not_new : text_eq (path new) p ≡ false =
              text_eq_comm (path new) p
              ∙ (ap (λ q. text_eq q (path new)) (sym ((text_eq_iff (path x) p).0 named)) ∙ other) in
            rw (named, not_new) refl
      ]

-- `FindImport`.
unfoldable find_import : Manifest → Text → Option Import
find_import m p = find_by_path (λ i. i.path) m.imports p

-- `SetImport`.
unfoldable set_import : Manifest → Import → Manifest
set_import m i = record m { imports = set_by_path (λ i. i.path) m.imports i }

-- `FindRendered`.
unfoldable find_rendered : Manifest → Text → Option RenderedFile
find_rendered m p = find_by_path (λ r. r.path) m.rendered p

-- `SetRendered`.
unfoldable set_rendered : Manifest → RenderedFile → Manifest
set_rendered m r = record m { rendered = set_by_path (λ r. r.path) m.rendered r }

-- `ImportedObjectIDs`, of which a map to `true` is a test.
unfoldable imported_object_ids : List Import → Text → Bool
imported_object_ids [] id = false
imported_object_ids (i ∷ imports) id =
    if text_eq i.object_id id then true else imported_object_ids imports id

-- An import that was set is found under its path, and the other imports and the rendered files are
-- found as before.
find_import-set_import :
    (m : Manifest) (i : Import) (p : Text)
    → (find_import (set_import m i) p ≡ (if text_eq i.path p then some i else find_import m p))
      × (find_rendered (set_import m i) p ≡ find_rendered m p)
unfolding find_import set_import find_rendered
find_import-set_import m i p = (find_by_path-set_by_path (λ i. i.path) m.imports i p, refl)

-- So it is with a rendered file.
find_rendered-set_rendered :
    (m : Manifest) (r : RenderedFile) (p : Text)
    → (find_rendered (set_rendered m r) p
        ≡ (if text_eq r.path p then some r else find_rendered m p))
      × (find_import (set_rendered m r) p ≡ find_import m p)
unfolding find_import set_rendered find_rendered
find_rendered-set_rendered m r p = (find_by_path-set_by_path (λ r. r.path) m.rendered r p, refl)
