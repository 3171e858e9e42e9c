-- ===== src/Core/ScopeKey.antt =====
-- internal/core/scope.go: coordinates in the scope lattice, their canonical text and containment.
pub mod RoundTrip
pub mod Containment
pub mod Resolve
use keelage.Prelude.{
  ℕ, suc, Bool, true, false, not, ◌&&◌, ◌||◌, ◌⊎◌, inl, inr, Option, none, some, List, [], ◌∷◌,
  ◌++◌, ◌==◌, if◌then◌else◌, length,
}
use keelage.Prelude.Text.{
  Text, codes, text_eq, is_empty, contains_any, split, cut, cut_suffix, has_prefix, trim_suffix,
}
use keelage.Core.Std.{Std}

-- An unset axis, "", means any.
pub record ScopeKey : Type 0 where
  pub org : Text
  pub product : Text
  pub team : Text
  pub repo : Text
  pub path_glob : Text
  pub person : Text

abbrev pub global : ScopeKey
global = record { org = []; product = []; team = []; repo = []; path_glob = []; person = [] }

-- The slices that `Validate` and `Width` range over.
abbrev pub axes : ScopeKey → List Text
axes k = k.org ∷ k.product ∷ k.team ∷ k.repo ∷ k.path_glob ∷ k.person ∷ []

-- Go's `==` on the struct.
unfoldable pub key_eq : ScopeKey → ScopeKey → Bool
key_eq a b =
    text_eq a.org b.org
    && (text_eq a.product b.product
        && (text_eq a.team b.team
            && (text_eq a.repo b.repo
                && (text_eq a.path_glob b.path_glob && text_eq a.person b.person))))

-- `IsZero`.
unfoldable pub is_zero : ScopeKey → Bool
unfolding key_eq
is_zero k = key_eq k global

abbrev pub scope_sep : ℕ
scope_sep = b'|'

abbrev pub axis_names : List Text
axis_names =
    codes "org" ∷ codes "product" ∷ codes "team" ∷ codes "repo" ∷ codes "path" ∷ codes "person" ∷ []

abbrev pub axis : Text → Text → Text
axis name value = name ++ b'=' ∷ value

-- `String`: the six axes, each after its name, joined by the separator.
unfoldable pub to_text : ScopeKey → Text
to_text k =
    axis (codes "org") k.org
    ++ (scope_sep ∷ axis (codes "product") k.product)
    ++ (scope_sep ∷ axis (codes "team") k.team)
    ++ (scope_sep ∷ axis (codes "repo") k.repo)
    ++ (scope_sep ∷ axis (codes "path") k.path_glob)
    ++ (scope_sep ∷ axis (codes "person") k.person)

-- The errors of `Validate` and `ParseScopeKey`, with what their messages show.
pub data ScopeError : Type 0 where
  reserved_character : Text → ScopeError
  glob_needs_repo : ScopeError
  bad_glob : Text → ScopeError
  axis_count : ℕ → ScopeError
  axis_name : ℕ → ScopeError

abbrev pub reserved : Text
reserved = scope_sep ∷ b'=' ∷ 10 ∷ []

-- The first loop of `Validate`.
reserved_axis : List Text → Option ScopeError
reserved_axis [] = none
reserved_axis (v ∷ vs) =
    if contains_any v reserved then some (reserved_character v) else reserved_axis vs

count_empty : List Text → ℕ
count_empty [] = 0
count_empty (v ∷ vs) = if is_empty v then suc (count_empty vs) else count_empty vs

-- `Width`: the number of axes that are not set.
unfoldable pub width : ScopeKey → ℕ
unfolding count_empty
width k = count_empty (axes k)

-- One round of the loop of `ParseScopeKey`, given the result of `strings.Cut`: the value of the
-- axis, if it has the name wanted.
abbrev pub cut_value : Text → Text × Text × Bool → Option Text
cut_value want (name, value, found) =
    if not found || not (text_eq name want) then none else some value

unfoldable pub axis_value : Text → Text → Option Text
axis_value want part = cut_value want (cut part (codes "="))

abbrev cons_value : Text → ScopeError ⊎ List Text → ScopeError ⊎ List Text
cons_value v (inl e) = inl e
cons_value v (inr vs) = inr (v ∷ vs)

-- The loop, which stops at the first axis that is not as wanted.
read_axes : ℕ → List Text → List Text → ScopeError ⊎ List Text
read_axes i [] parts = inr []
read_axes i (want ∷ wants) [] = inr []
read_axes i (want ∷ wants) (part ∷ parts) =
    let rest = read_axes (suc i) wants parts in
    elim (axis_value want part) [ none ↦ inl (axis_name i) | some v ↦ cons_value v rest ]

-- The assignments of the inner `switch`.
abbrev from_axes : List Text → ScopeKey
from_axes (o ∷ p ∷ t ∷ r ∷ g ∷ q ∷ []) = record {
  org = o;
  product = p;
  team = t;
  repo = r;
  path_glob = g;
  person = q;
}
from_axes _ = global

module _ ⦃go : Std⦄ where
  abbrev bad_pattern : Text → Bool
  bad_pattern glob = elim (go.path_match (trim_suffix glob (codes "/**")) []) [
    | none ↦ true
    | some _ ↦ false
  ]

  -- The second half of `Validate`.
  check_glob : ScopeKey → Option ScopeError
  check_glob k =
      if is_empty k.path_glob
      then none
      else if is_empty k.repo
      then some glob_needs_repo
      else if bad_pattern k.path_glob
      then some (bad_glob k.path_glob)
      else none

  -- `Validate`, `none` for no error.
  unfoldable pub validate : ScopeKey → Option ScopeError
  unfolding reserved_axis check_glob
  validate k = elim (reserved_axis (axes k)) [ some e ↦ some e | none ↦ check_glob k ]

  abbrev pub is_valid : ScopeKey → Bool
  is_valid k = elim (validate k) [ none ↦ true | some _ ↦ false ]

  -- `globMatch`.
  unfoldable pub glob_match : Text → Text → Bool
  glob_match pattern p = elim (cut_suffix pattern (codes "/**")) [
    | some dir ↦ text_eq p dir || has_prefix p (dir ++ codes "/")
    | none ↦
        if text_eq pattern (codes "**")
        then true
        else elim (go.path_match pattern p) [ none ↦ false | some matched ↦ matched ]
  ]

  -- `k.X != "" && k.X != target.X`.
  abbrev pub differs : Text → Text → Bool
  differs own other = not (is_empty own) && not (text_eq own other)

  abbrev pub path_contains : Text → Text → Bool
  path_contains own other =
      if is_empty own
      then true
      else if is_empty other || text_eq own other
      then not (is_empty other)
      else glob_match own other

  -- `Contains`.
  unfoldable pub contains : ScopeKey → ScopeKey → Bool
  contains k target =
      if differs k.org target.org
      then false
      else if differs k.product target.product
      then false
      else if differs k.team target.team
      then false
      else if differs k.repo target.repo
      then false
      else if differs k.person target.person
      then false
      else path_contains k.path_glob target.path_glob

  -- `ParseScopeKey`.
  unfoldable pub parse_scope_key : Text → ScopeKey × Option ScopeError
  unfolding read_axes
  parse_scope_key s =
      let parts = split s scope_sep in
      if not (length parts == 6)
      then (global, some (axis_count (length parts)))
      else elim (read_axes 0 axis_names parts) [
        | inl e ↦ (global, some e)
        | inr values ↦ (from_axes values, validate (from_axes values))
      ]
