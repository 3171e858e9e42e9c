-- ===== src/Harness/Constraint/State.antt =====
-- internal/core/harness/constraint.go: the data of a constraint, its commands and its events.
use keelage.Prelude.{Bool, false, List, [], ◌++◌}
use keelage.Prelude.Text.{Text, codes}
use keelage.Core.Actor.{Ident, ActorRef}
use keelage.Core.Level.{Level, l0}
use keelage.Core.ScopeKey.{ScopeKey, global}
use keelage.Core.Context.{Time}

-- `other` holds any text but the constants.
pub data ConstraintKind : Type 0 where
  contract invariant rule budget autonomy : ConstraintKind
  other : Text → ConstraintKind

-- `absent` is the empty text of `StateNone`.
pub data ConstraintState : Type 0 where
  absent generated verified review stale retired : ConstraintState

pub record Constraint : Type 0 where
  pub id : Ident
  pub kind : ConstraintKind
  pub scope : ScopeKey
  pub body : Text
  pub checkable : Text
  pub origin : List Ident
  pub authored : Bool
  pub explanation : Text
  pub level : Level
  pub anchors : List Text
  pub state : ConstraintState
  pub supersedes : Ident
  pub superseded_by : Ident
  pub updated_at : Time

-- The zero `Constraint`, from which a stream is replayed.
abbrev pub no_constraint : Constraint
no_constraint = record {
  id = [];
  kind = ConstraintKind.other [];
  scope = global;
  body = [];
  checkable = [];
  origin = [];
  authored = false;
  explanation = [];
  level = l0;
  anchors = [];
  state = ConstraintState.absent;
  supersedes = [];
  superseded_by = [];
  updated_at = 0;
}

-- `ConstraintStream`.
unfoldable pub constraint_stream : Ident → Text
constraint_stream id = codes "constraint/" ++ id

pub record ConstraintCmd : Type 0 where
  pub id : Ident
  pub idem : Text

pub record DraftConstraint : Type 0 where
  pub cmd : ConstraintCmd
  pub kind : ConstraintKind
  pub scope : ScopeKey
  pub body : Text
  pub checkable : Text
  pub origin : List Ident
  pub authored : Bool
  pub explanation : Text
  pub level : Level
  pub supersedes : Ident
  pub anchors : List Text

pub record PromoteConstraint : Type 0 where
  pub cmd : ConstraintCmd
  pub to_scope : ScopeKey
  pub origin : List Ident
  pub explanation : Text

pub record DemoteConstraint : Type 0 where
  pub cmd : ConstraintCmd
  pub to_scope : ScopeKey
  pub reason : Text

-- `other` is a command of another aggregate.
pub data ConstraintCommand : Type 0 where
  draft : DraftConstraint → ConstraintCommand
  verify : ConstraintCmd → ConstraintCommand
  promote : PromoteConstraint → ConstraintCommand
  demote : DemoteConstraint → ConstraintCommand
  supersede : (cmd : ConstraintCmd) (by : Ident) → ConstraintCommand
  retire : (cmd : ConstraintCmd) (reason : Text) → ConstraintCommand
  rebind : (cmd : ConstraintCmd) (anchors : List Text) → ConstraintCommand
  other : Text → ConstraintCommand

pub record ConstraintDraftedV1 : Type 0 where
  pub id : Ident
  pub kind : ConstraintKind
  pub scope : ScopeKey
  pub body : Text
  pub checkable : Text
  pub origin : List Ident
  pub authored : Bool
  pub explanation : Text
  pub level : Level
  pub supersedes : Ident
  pub at : Time

pub record ConstraintDrafted : Type 0 where
  pub id : Ident
  pub kind : ConstraintKind
  pub scope : ScopeKey
  pub body : Text
  pub checkable : Text
  pub origin : List Ident
  pub authored : Bool
  pub explanation : Text
  pub level : Level
  pub supersedes : Ident
  pub anchors : List Text
  pub at : Time

pub record ConstraintPromoted : Type 0 where
  pub id : Ident
  pub from : ScopeKey
  pub to : ScopeKey
  pub origin : List Ident
  pub explanation : Text
  pub by : ActorRef
  pub at : Time

pub record ConstraintDemoted : Type 0 where
  pub id : Ident
  pub from : ScopeKey
  pub to : ScopeKey
  pub reason : Text
  pub by : ActorRef
  pub at : Time

pub data ConstraintEvent : Type 0 where
  constraint_drafted : ConstraintDrafted → ConstraintEvent
  constraint_rebound :
      (id : Ident) (anchors : List Text) (by : ActorRef) (at : Time) → ConstraintEvent
  constraint_verified : (id : Ident) (by : ActorRef) (at : Time) → ConstraintEvent
  constraint_promoted : ConstraintPromoted → ConstraintEvent
  constraint_demoted : ConstraintDemoted → ConstraintEvent
  constraint_superseded : (id by : Ident) (at : Time) (actor : ActorRef) → ConstraintEvent
  constraint_retired : (id : Ident) (reason : Text) (by : ActorRef) (at : Time) → ConstraintEvent
  other : Text → ConstraintEvent

-- The upcast of `ConstraintDrafted` from version 1 in `RegisterEvents`.
unfoldable pub upcast_drafted : ConstraintDraftedV1 → ConstraintDrafted
upcast_drafted v = record {
  id = v.id;
  kind = v.kind;
  scope = v.scope;
  body = v.body;
  checkable = v.checkable;
  origin = v.origin;
  authored = v.authored;
  explanation = v.explanation;
  level = v.level;
  supersedes = v.supersedes;
  anchors = [];
  at = v.at;
}
