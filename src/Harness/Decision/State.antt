-- ===== src/Harness/Decision/State.antt =====
-- internal/core/harness/decision.go: the data of a decision, its commands and its events.
use keelage.Prelude.{List, [], ◌++◌}
use keelage.Prelude.Text.{Text, codes}
use keelage.Core.Actor.{Ident, ActorRef}
use keelage.Core.ScopeKey.{ScopeKey, global}
use keelage.Core.Context.{Time}

-- `absent` is the empty text of `DecisionStateNone`.
pub data DecisionState : Type 0 where
  absent generated verified retired : DecisionState

pub record Decision : Type 0 where
  pub id : Ident
  pub kind : Text
  pub title : Text
  pub body : Text
  pub scope : ScopeKey
  pub from : List Ident
  pub anchors : List Text
  pub supersedes : Ident
  pub superseded_by : Ident
  pub state : DecisionState
  pub updated_at : Time

-- The zero `Decision`, from which a stream is replayed.
abbrev pub no_decision : Decision
no_decision = record {
  id = [];
  kind = [];
  title = [];
  body = [];
  scope = global;
  from = [];
  anchors = [];
  supersedes = [];
  superseded_by = [];
  state = DecisionState.absent;
  updated_at = 0;
}

-- `DecisionStream`.
unfoldable pub decision_stream : Ident → Text
decision_stream id = codes "decision/" ++ id

pub record DecisionCmd : Type 0 where
  pub id : Ident
  pub idem : Text

pub record DraftDecision : Type 0 where
  pub cmd : DecisionCmd
  pub title : Text
  pub body : Text
  pub scope : ScopeKey
  pub from : List Ident
  pub anchors : List Text
  pub supersedes : Ident

-- `other` is a command of another aggregate.
pub data DecisionCommand : Type 0 where
  draft : DraftDecision → DecisionCommand
  verify : DecisionCmd → DecisionCommand
  revise : (cmd : DecisionCmd) (title body : Text) → DecisionCommand
  supersede : (cmd : DecisionCmd) (by : Ident) → DecisionCommand
  retire : DecisionCmd → DecisionCommand
  other : Text → DecisionCommand

pub record DecisionDrafted : Type 0 where
  pub id : Ident
  pub title : Text
  pub body : Text
  pub scope : ScopeKey
  pub from : List Ident
  pub anchors : List Text
  pub supersedes : Ident
  pub by : ActorRef
  pub at : Time

pub data DecisionEvent : Type 0 where
  decision_drafted : DecisionDrafted → DecisionEvent
  decision_verified : (id : Ident) (by : ActorRef) (at : Time) → DecisionEvent
  decision_revised : (id : Ident) (title body : Text) (by : ActorRef) (at : Time) → DecisionEvent
  decision_superseded : (id by : Ident) (at : Time) → DecisionEvent
  decision_retired : (id : Ident) (at : Time) → DecisionEvent
  other : Text → DecisionEvent
