-- ===== src/Accountability/Gate/State.antt =====
-- internal/core/accountability/gate.go: the data of a gate, its commands and its events.
use keelage.Prelude.{Option, none, List, [], ◌++◌}
use keelage.Prelude.Text.{Text, codes}
use keelage.Core.Actor.{Ident, ActorRef, ActorKind}
use keelage.Core.Level.{Level, l0}
use keelage.Core.ScopeKey
use keelage.Core.ScopeKey.{ScopeKey}
use keelage.Core.Context.{Time}

pub data GateDecision : Type 0 where
  allow deny ask : GateDecision
  unknown : Text → GateDecision

-- `absent` is the empty string.
pub data GateState : Type 0 where
  absent decided open_gate resolved expired : GateState

pub record Resolution : Type 0 where
  pub decision : GateDecision
  pub reason : Text
  pub by : ActorRef
  pub at : Time
  pub sig : Text

pub record Gate : Type 0 where
  pub id : Ident
  pub actor : ActorRef
  pub scope : ScopeKey
  pub anchors : List Text
  pub action : Text
  pub proposal_ref : Text
  pub requested_level : Level
  pub decision : GateDecision
  pub policy_ref : Text
  pub state : GateState
  pub opened_at : Time
  pub expires_at : Time
  pub resolution : Option Resolution

-- The zero value `Gate{}`.
abbrev pub no_gate : Gate
no_gate = record {
  id = [];
  actor = record { kind = ActorKind.other []; id = []; key = []; owner = [] };
  scope = ScopeKey.global;
  anchors = [];
  action = [];
  proposal_ref = [];
  requested_level = l0;
  decision = GateDecision.unknown [];
  policy_ref = [];
  state = GateState.absent;
  opened_at = 0;
  expires_at = 0;
  resolution = none;
}

-- `GateStream`.
unfoldable pub gate_stream : Ident → Text
gate_stream id = codes "gate/" ++ id

pub record GateCmd : Type 0 where
  pub id : Ident
  pub idem : Text

pub record RequestGate : Type 0 where
  pub cmd : GateCmd
  pub actor : ActorRef
  pub scope : ScopeKey
  pub anchors : List Text
  pub action : Text
  pub proposal_ref : Text
  pub requested_level : Level

pub data GateCommand : Type 0 where
  request_gate : RequestGate → GateCommand
  resolve_gate : GateCmd → Resolution → GateCommand
  expire_gate : GateCmd → GateCommand
  other : Text → GateCommand

pub record GateDecided : Type 0 where
  pub id : Ident
  pub actor : ActorRef
  pub scope : ScopeKey
  pub anchors : List Text
  pub action : Text
  pub proposal_ref : Text
  pub requested_level : Level
  pub decision : GateDecision
  pub policy_ref : Text
  pub at : Time

pub record GateOpened : Type 0 where
  pub id : Ident
  pub actor : ActorRef
  pub scope : ScopeKey
  pub anchors : List Text
  pub action : Text
  pub proposal_ref : Text
  pub requested_level : Level
  pub policy_ref : Text
  pub at : Time
  pub expires_at : Time

pub data GateEvent : Type 0 where
  gate_decided : GateDecided → GateEvent
  gate_opened : GateOpened → GateEvent
  gate_resolved : Ident → Resolution → GateEvent
  gate_expired : Ident → Time → GateEvent
  other : Text → GateEvent
