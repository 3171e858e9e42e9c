-- ===== src/App/Projection/Constraints.antt =====
-- internal/app/projection.go: `ConstraintIndex`, the constraints as they are now.
pub mod Agreement
pub mod InForce
use keelage.Prelude.{
  ℕ, ◌≡◌, refl, ap, ◌∙◌, Bool, true, false, not, ◌&&◌, ◌||◌, inl, inr, Option, none, some,
  Bool-cases, List, [], ◌∷◌, ◌++◌, map, any, is_nil, ltb, ◌==◌, if◌then◌else◌, arith,
}
use keelage.Prelude.Dict.{Dict, find, put, find-put}
use keelage.Prelude.Sort.{sort}
use keelage.Prelude.Text.{Text, codes, is_empty, text_eq, text_eq_iff, text_eq_refl}
use keelage.Prelude.Text.Order.{text_lt}
use keelage.Core.Actor.{Ident}
use keelage.Core.Std.{Std}
use keelage.Core.Anchor.{AnchorScheme, is_code, parse_anchor}
use keelage.Core.Anchor
use keelage.Core.Event.{replay}
use keelage.Core.Level.{Level, l0}
use keelage.Core.ScopeKey.{ScopeKey, global, to_text, width, contains}
use keelage.Harness.Constraint.State.{
  ConstraintKind, ConstraintState, Constraint, no_constraint, ConstraintEvent,
}
use keelage.Harness.Constraint.Decide.{apply}
use keelage.Ledger.Log.{filter}

pub record ConstraintSummary : Type 0 where
  pub id : Ident
  pub kind : ConstraintKind
  pub scope : ScopeKey
  pub state : ConstraintState
  pub level : Level
  pub body : Text
  pub explanation : Text
  pub checkable : Text
  pub anchors : List Text
  pub supersedes : Ident
  pub superseded_by : Ident

-- The zero value `ConstraintSummary{}`, what a missing key gives.
abbrev pub no_summary : ConstraintSummary
no_summary = record {
  id = [];
  kind = ConstraintKind.other [];
  scope = global;
  state = ConstraintState.absent;
  level = l0;
  body = [];
  explanation = [];
  checkable = [];
  anchors = [];
  supersedes = [];
  superseded_by = [];
}

-- `ConstraintIndex`.
abbrev pub ConstraintIndex : Type 0
ConstraintIndex = Dict ConstraintSummary

abbrev summary_or : Option ConstraintSummary → ConstraintSummary
summary_or none = no_summary
summary_or (some e) = e

-- `c.entries[id]`.
unfoldable pub current : ConstraintIndex → Ident → ConstraintSummary
current c id = summary_or (find id c)

-- `ConstraintIndex.Handle`.
unfoldable pub handle_constraint : ConstraintIndex → ConstraintEvent → ConstraintIndex
handle_constraint c (ConstraintEvent.constraint_drafted v) =
    put v.id
      (record no_summary {
        id = v.id;
        kind = v.kind;
        scope = v.scope;
        state = ConstraintState.generated;
        level = v.level;
        body = v.body;
        explanation = v.explanation;
        checkable = v.checkable;
        anchors = v.anchors;
        supersedes = v.supersedes;
      })
      c
handle_constraint c (ConstraintEvent.constraint_rebound id anchors by at) =
    put id (record (current c id) { anchors = anchors }) c
handle_constraint c (ConstraintEvent.constraint_verified id by at) =
    put id (record (current c id) { state = ConstraintState.verified }) c
handle_constraint c (ConstraintEvent.constraint_promoted v) =
    put v.id (record (current c v.id) { scope = v.to; explanation = v.explanation }) c
handle_constraint c (ConstraintEvent.constraint_demoted v) =
    put v.id (record (current c v.id) { scope = v.to }) c
handle_constraint c (ConstraintEvent.constraint_superseded id by at actor) =
    put id (record (current c id) { state = ConstraintState.retired; superseded_by = by }) c
handle_constraint c (ConstraintEvent.constraint_retired id reason by at) =
    put id (record (current c id) { state = ConstraintState.retired }) c
handle_constraint c (ConstraintEvent.other kind) = c

-- The constraint that an event is about.
abbrev pub is_about : Ident → ConstraintEvent → Bool
is_about id (ConstraintEvent.constraint_drafted v) = text_eq v.id id
is_about id (ConstraintEvent.constraint_rebound i anchors by at) = text_eq i id
is_about id (ConstraintEvent.constraint_verified i by at) = text_eq i id
is_about id (ConstraintEvent.constraint_promoted v) = text_eq v.id id
is_about id (ConstraintEvent.constraint_demoted v) = text_eq v.id id
is_about id (ConstraintEvent.constraint_superseded i by at actor) = text_eq i id
is_about id (ConstraintEvent.constraint_retired i reason by at) = text_eq i id
is_about id (ConstraintEvent.other kind) = false

-- What the index keeps of an aggregate.
unfoldable pub summary_of : Constraint → ConstraintSummary
summary_of c = record {
  id = c.id;
  kind = c.kind;
  scope = c.scope;
  state = c.state;
  level = c.level;
  body = c.body;
  explanation = c.explanation;
  checkable = c.checkable;
  anchors = c.anchors;
  supersedes = c.supersedes;
  superseded_by = c.superseded_by;
}

-- `e.State == harness.StateVerified || e.State == harness.StateReview`.
abbrev pub is_in_force : ConstraintState → Bool
is_in_force ConstraintState.verified = true
is_in_force ConstraintState.review = true
is_in_force _ = false

-- The `less` of `InForce`.
unfoldable pub wider_first : ConstraintSummary → ConstraintSummary → Bool
wider_first a b =
    if not (width a.scope == width b.scope)
    then ltb (width b.scope) (width a.scope)
    else text_lt a.id b.id

-- The `less` of `BoundTo` and `All`.
abbrev pub by_id : ConstraintSummary → ConstraintSummary → Bool
by_id a b = text_lt a.id b.id

abbrev pub entries : ConstraintIndex → List ConstraintSummary
entries c = map (λ (e : Text × ConstraintSummary). e.1) c

-- `InForce`.
unfoldable pub in_force : ⦃go : Std⦄ → ConstraintIndex → ScopeKey → List ConstraintSummary
in_force c target =
    sort wider_first (filter (λ e. is_in_force e.state && contains e.scope target) (entries c))

abbrev is_retired : ConstraintState → Bool
is_retired ConstraintState.retired = true
is_retired _ = false

-- The text of the file anchor of an anchor of code with a symbol; other texts stand for themselves.
unfoldable pub file_of : ⦃go : Std⦄ → Text → Text
file_of anchor = elim (parse_anchor anchor) [
  | inl problem ↦ anchor
  | inr a ↦
      if is_code a.scheme && not (is_empty a.symbol)
      then Anchor.to_text (record { scheme = AnchorScheme.code; path = a.path; symbol = [] })
      else anchor
]

-- `BoundTo`.
unfoldable pub bound_to : ⦃go : Std⦄ → ConstraintIndex → Text → List ConstraintSummary
unfolding file_of
bound_to c anchor = sort by_id (
    filter
      (λ e.
        not (is_retired e.state)
        && any (λ a. text_eq a anchor || text_eq a (file_of anchor)) e.anchors)
      (entries c))

-- `All`.
unfoldable pub all_constraints : ConstraintIndex → List ConstraintSummary
all_constraints c = sort by_id (entries c)
