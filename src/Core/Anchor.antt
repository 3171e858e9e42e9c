-- ===== src/Core/Anchor.antt =====
-- internal/core/anchor.go: realization anchors and their canonical text.
use keelage.Prelude.{
  Bool, true, false, not, ◌||◌, ◌⊎◌, inl, inr, Option, none, some, [], ◌∷◌, ◌++◌, any,
  if◌then◌else◌,
}
use keelage.Prelude.Text.{Text, codes, text_eq, is_empty, contains_any, split, cut, has_prefix}
use keelage.Core.Std.{Std}

pub data AnchorScheme : Type 0 where
  code route ui schema infra doc contract : AnchorScheme
  other : Text → AnchorScheme

unfoldable pub scheme_text : AnchorScheme → Text
scheme_text code = codes "code"
scheme_text route = codes "route"
scheme_text ui = codes "ui"
scheme_text schema = codes "schema"
scheme_text infra = codes "infra"
scheme_text doc = codes "doc"
scheme_text contract = codes "contract"
scheme_text (other t) = t

-- The conversion `AnchorScheme(schemeStr)`, as the constant that it equals.
unfoldable pub scheme_of : Text → AnchorScheme
scheme_of t =
    if text_eq t (codes "code")
    then code
    else if text_eq t (codes "route")
    then route
    else if text_eq t (codes "ui")
    then ui
    else if text_eq t (codes "schema")
    then schema
    else if text_eq t (codes "infra")
    then infra
    else if text_eq t (codes "doc")
    then doc
    else if text_eq t (codes "contract")
    then contract
    else other t

pub record Anchor : Type 0 where
  pub scheme : AnchorScheme
  pub path : Text
  pub symbol : Text

-- The errors of `ParseAnchor`, one for each `return`.
pub data AnchorError : Type 0 where
  not_an_anchor control_characters bad_symbol bad_route reserved_character unknown_scheme :
      AnchorError
  empty_path absolute_path unclean_path escaping_path : AnchorError

abbrev pub scheme_sep : Text
scheme_sep = codes "://"

module _ ⦃go : Std⦄ where
  -- `validateRepoPath`, `none` for no error.
  unfoldable pub validate_repo_path : Text → Option AnchorError
  validate_repo_path p =
      if is_empty p
      then some empty_path
      else if has_prefix p (codes "/")
      then some absolute_path
      else if not (text_eq (go.path_clean p) p)
      then some unclean_path
      else if any (λ seg. text_eq seg (codes "..")) (split p b'/')
      then some escaping_path
      else none

  -- The case `SchemeCode`, given what `strings.Cut` makes of the rest.
  code_anchor : Text × Text × Bool → AnchorError ⊎ Anchor
  code_anchor (p, sym, _) = elim (validate_repo_path p) [
    | some e ↦ inl e
    | none ↦
        if contains_any sym (codes "#") || contains_any sym (codes " ")
        then inl bad_symbol
        else inr (record { scheme = code; path = p; symbol = sym })
  ]

  -- The case `SchemeRoute`.
  route_anchor : Text × Text × Bool → AnchorError ⊎ Anchor
  route_anchor (method, p, found) =
      if not found
        || (is_empty method
            || (not (text_eq method (go.to_upper method)) || not (has_prefix p (codes "/"))))
      then inl bad_route
      else inr (record { scheme = route; path = method ++ (codes " " ++ p); symbol = [] })

  -- The other known schemes.
  plain_anchor : AnchorScheme → Text → AnchorError ⊎ Anchor
  plain_anchor s rest =
      if contains_any rest (codes " #")
      then inl reserved_character
      else inr (record { scheme = s; path = rest; symbol = [] })

  -- The `switch`.
  scheme_anchor : AnchorScheme → Text → AnchorError ⊎ Anchor
  unfolding code_anchor route_anchor plain_anchor
  scheme_anchor code rest = code_anchor (cut rest (codes "#"))
  scheme_anchor route rest = route_anchor (cut rest (codes " "))
  scheme_anchor ui rest = plain_anchor ui rest
  scheme_anchor schema rest = plain_anchor schema rest
  scheme_anchor infra rest = plain_anchor infra rest
  scheme_anchor doc rest = plain_anchor doc rest
  scheme_anchor contract rest = plain_anchor contract rest
  scheme_anchor (other _) rest = inl unknown_scheme

  -- `ParseAnchor`, given what `strings.Cut(s, "://")` returns.
  anchor_of_cut : Text × Text × Bool → AnchorError ⊎ Anchor
  unfolding scheme_anchor
  anchor_of_cut (scheme_str, rest, found) =
      if not found || is_empty rest
      then inl not_an_anchor
      else if contains_any rest (10 ∷ 13 ∷ 9 ∷ [])
      then inl control_characters
      else scheme_anchor (scheme_of scheme_str) rest

  unfoldable pub parse_anchor : Text → AnchorError ⊎ Anchor
  unfolding anchor_of_cut
  parse_anchor s = anchor_of_cut (cut s scheme_sep)

  -- Whether `ParseAnchor` returns no error.
  unfoldable pub is_anchor : Text → Bool
  is_anchor s = elim (parse_anchor s) [ inl _ ↦ false | inr _ ↦ true ]

-- `Anchor.String`.
unfoldable pub to_text : Anchor → Text
to_text a =
    (scheme_text a.scheme ++ (scheme_sep ++ a.path))
    ++ (if is_empty a.symbol then [] else b'#' ∷ a.symbol)

-- `Anchor.Equal`.
unfoldable pub equal : Anchor → Anchor → Bool
unfolding to_text
equal a b = text_eq (to_text a) (to_text b)

abbrev pub is_code : AnchorScheme → Bool
is_code code = true
is_code _ = false

-- `Anchor.IsFile`.
unfoldable pub is_file : Anchor → Bool
is_file a = if is_code a.scheme then is_empty a.symbol else false
