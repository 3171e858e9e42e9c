-- ===== src/Tests/Projections.antt =====
-- Two nested scopes, a constraint and a change, as the read models show them.
use keelage.Prelude.{◌≡◌, true, none, List, [], ◌∷◌}
use keelage.Prelude.Text.{codes}
use keelage.Core.Event.{replay}
use keelage.Core.Level.{l2, l3, Trigger}
use keelage.Core.ScopeKey.{ScopeKey, global}
use keelage.Core.ScopeKey.Resolve.{ObjectKind, resolve, IsResolution, resolve-IsResolution}
use keelage.Harness.Scope.State.{ScopeEvent, new_scope}
use keelage.Harness.Scope.Decide
use keelage.Harness.Constraint.State.{ConstraintEvent, no_constraint}
use keelage.Harness.Constraint.Decide as ConstraintDecide
use keelage.Accountability.Change.State.{
  ChangeKind, ChangeMode, Proposal, ChangeOpened, ChangeEvent, no_change,
}
use keelage.Accountability.Change.Decide as ChangeDecide
use keelage.Ledger.Log.{filter}
use keelage.App.Projection.Scopes.{
  ScopeIndex, handle_scope, effective, is_of, Shows, IsScopeIndex, replay_scopes-IsScopeIndex,
}
use keelage.App.Projection.Scopes.Agreement.{handle_scope_agrees}
use keelage.App.Projection.Scopes.Effective.{IsEffective, effective-IsEffective}
use keelage.App.Projection.Constraints
use keelage.App.Projection.Constraints.Agreement.{handle_constraint_agrees}
use keelage.App.Projection.Changes
use keelage.App.Projection.Changes.Agreement as ChangeAgreement
use keelage.App.Projection.Changes.Agreement.{handle_change_agrees}
use keelage.Tests.Values.{literal_std, alice, team_scope}

abbrev org_scope : ScopeKey
org_scope = record global { org = codes "acme" }

-- The narrow key first, and twice.
resolve-IsResolution_example :
    IsResolution team_scope
      (team_scope ∷ org_scope ∷ team_scope ∷ [])
      ObjectKind.constraint
      (resolve team_scope (team_scope ∷ org_scope ∷ team_scope ∷ []) ObjectKind.constraint)
resolve-IsResolution_example =
    resolve-IsResolution team_scope (team_scope ∷ org_scope ∷ team_scope ∷ []) ObjectKind.constraint

-- The team is at level 3, under the cap 2 of its organisation.
abbrev scope_events : List ScopeEvent
scope_events =
    ScopeEvent.autonomy_changed (record {
      key = team_scope;
      from = l2;
      to = l3;
      trigger = Trigger.promote;
      change_ref = [];
      by = alice;
      at = 1;
    })
    ∷ ScopeEvent.cap_changed
        (record { key = org_scope; from = l3; to = l2; change_ref = []; by = alice; at = 2 })
    ∷ []

abbrev index : ScopeIndex
index = replay handle_scope [] scope_events

index-IsScopeIndex : IsScopeIndex index
index-IsScopeIndex = replay_scopes-IsScopeIndex [] scope_events (record { keyed = tt; dict = tt })

effective-IsEffective_example :
    IsEffective index team_scope (effective index team_scope).0 (effective index team_scope).1
effective-IsEffective_example = effective-IsEffective index index-IsScopeIndex team_scope

handle_scope_agrees_example :
    Shows
      (replay handle_scope [] scope_events)
      team_scope
      (replay Decide.apply (new_scope team_scope) (filter (is_of team_scope) scope_events))
handle_scope_agrees_example = handle_scope_agrees team_scope scope_events

abbrev constraint_events : List ConstraintEvent
constraint_events =
    ConstraintEvent.constraint_verified (codes "k1") alice 2
    ∷ ConstraintEvent.constraint_rebound (codes "k2") (codes "code://a.go" ∷ []) alice 3
    ∷ ConstraintEvent.constraint_retired (codes "k1") [] alice 4
    ∷ []

handle_constraint_agrees_example :
    Constraints.current (replay Constraints.handle_constraint [] constraint_events) (codes "k1")
    ≡ Constraints.summary_of (
        replay ConstraintDecide.apply no_constraint
          (filter (Constraints.is_about (codes "k1")) constraint_events))
handle_constraint_agrees_example = handle_constraint_agrees (codes "k1") constraint_events

abbrev proposal : Proposal
proposal = record { ref = codes "abc"; actor = alice; at = 2; sig = [] }

abbrev opening : ChangeOpened
opening = record {
  id = codes "c1";
  change_kind = ChangeKind.realization;
  mode = ChangeMode.session;
  scope = team_scope;
  intent_ref = [];
  no_intent = true;
  impact = record { constraints = []; decisions = []; anchors = codes "ui://Button" ∷ [] };
  proposal = none;
  sessions = [];
  autonomy_applied = l2;
  by = alice;
  at = 1;
}

abbrev change_events : List ChangeEvent
change_events =
    ChangeEvent.change_opened opening
    ∷ ChangeEvent.proposal_added (codes "c1") proposal
    ∷ ChangeEvent.deployed (codes "c2") (record { ref = []; at = 3 })
    ∷ ChangeEvent.settled (codes "c1") [] 4
    ∷ []

abbrev own_events : List ChangeEvent
own_events = filter (ChangeAgreement.is_about (codes "c1")) change_events

handle_change_agrees_example :
    Changes.current (replay Changes.handle_change [] change_events) (codes "c1")
    ≡ ChangeAgreement.summary_of
        (replay ChangeDecide.apply no_change own_events)
        (replay ChangeAgreement.opened_scope global own_events)
        (replay ChangeAgreement.event_time 0 own_events)
handle_change_agrees_example = handle_change_agrees (codes "c1") change_events
