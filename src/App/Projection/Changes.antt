-- ===== src/App/Projection/Changes.antt =====
-- internal/app/projection.go: `ChangeIndex`, the changes as they are now.
pub mod Agreement
use keelage.Prelude.{ℕ, Bool, not, Option, none, some, List, [], ◌∷◌, ◌++◌, map, if◌then◌else◌}
use keelage.Prelude.Dict.{Dict, find, put}
use keelage.Prelude.Int.{succ_64}
use keelage.Prelude.Sort.{sort}
use keelage.Prelude.Text.{Text, text_eq, contains_text}
use keelage.Prelude.Text.Order.{text_lt}
use keelage.Core.Actor.{Ident}
use keelage.Core.Level.{Level, l0}
use keelage.Core.Context.{Time}
use keelage.Core.ScopeKey.{ScopeKey, global}
use keelage.Accountability.Change.State.{
  ChangeKind, ChangeMode, ChangeState, Proposal, ImpactRef, Change, ChangeEvent,
}
use keelage.Accountability.Change.Rules.{is_settled}
use keelage.Ledger.Log.{filter}

pub record ChangeSummary : Type 0 where
  pub id : Ident
  pub kind : ChangeKind
  pub mode : ChangeMode
  pub scope : ScopeKey
  pub state : ChangeState
  pub autonomy_applied : Level
  pub judgments : ℕ
  pub constraints : List Ident
  pub anchors : List Text
  pub refs : List Text
  pub sessions : List Text
  pub opened_at : Time
  pub updated_at : Time

-- The zero value `ChangeSummary{}`, what a missing key gives.
abbrev pub no_summary : ChangeSummary
no_summary = record {
  id = [];
  kind = ChangeKind.unknown [];
  mode = ChangeMode.unknown [];
  scope = global;
  state = ChangeState.absent;
  autonomy_applied = l0;
  judgments = 0;
  constraints = [];
  anchors = [];
  refs = [];
  sessions = [];
  opened_at = 0;
  updated_at = 0;
}

-- `ChangeIndex`.
abbrev pub ChangeIndex : Type 0
ChangeIndex = Dict ChangeSummary

abbrev summary_or : Option ChangeSummary → ChangeSummary
summary_or none = no_summary
summary_or (some e) = e

-- `c.entries[id]`.
unfoldable pub current : ChangeIndex → Ident → ChangeSummary
current c id = summary_or (find id c)

abbrev pub constraints_of : List ImpactRef → List Ident
constraints_of refs = map (λ (r : ImpactRef). r.constraint) refs

abbrev pub refs_of : List Proposal → List Text
refs_of proposals = map (λ (p : Proposal). p.ref) proposals

abbrev opening_refs : Option Proposal → List Text
opening_refs none = []
opening_refs (some p) = p.ref ∷ []

-- `ChangeIndex.Handle`.
unfoldable pub handle_change : ChangeIndex → ChangeEvent → ChangeIndex
handle_change c (ChangeEvent.change_opened v) =
    put v.id
      (record no_summary {
        id = v.id;
        kind = v.change_kind;
        mode = v.mode;
        scope = v.scope;
        state = ChangeState.proposed;
        autonomy_applied = v.autonomy_applied;
        constraints = constraints_of v.impact.constraints;
        anchors = v.impact.anchors;
        refs = opening_refs v.proposal;
        sessions = v.sessions;
        opened_at = v.at;
        updated_at = v.at;
      })
      c
handle_change c (ChangeEvent.proposal_added id p) =
    put id (record (current c id) { refs = (current c id).refs ++ p.ref ∷ []; updated_at = p.at }) c
handle_change c (ChangeEvent.judged id j) =
    put id
      (record (current c id) {
        state = ChangeState.judged;
        judgments = succ_64 (current c id).judgments;
        updated_at = j.at;
      })
      c
handle_change c (ChangeEvent.deployed id d) =
    put id (record (current c id) { state = ChangeState.deployed; updated_at = d.at }) c
handle_change c (ChangeEvent.outcome_recorded id o) =
    put id (record (current c id) { state = ChangeState.observed; updated_at = o.at }) c
handle_change c (ChangeEvent.settled id derived at) =
    put id (record (current c id) { state = ChangeState.settled; updated_at = at }) c
handle_change c (ChangeEvent.other kind) = c

abbrev pub entries : ChangeIndex → List ChangeSummary
entries c = map (λ (e : Text × ChangeSummary). e.1) c

abbrev by_id : ChangeSummary → ChangeSummary → Bool
by_id a b = text_lt a.id b.id

-- The loop of `ByRef`. Of several changes with the ref Go gives any.
unfoldable pub by_ref : Text → List ChangeSummary → Option ChangeSummary
by_ref ref [] = none
by_ref ref (e ∷ es) = if contains_text e.refs ref then some e else by_ref ref es

-- `All`.
unfoldable pub all_changes : ChangeIndex → List ChangeSummary
all_changes c = sort by_id (entries c)

-- `Open`.
unfoldable pub open_changes : ChangeIndex → List ChangeSummary
open_changes c = sort by_id (filter (λ e. not (is_settled e.state)) (entries c))
