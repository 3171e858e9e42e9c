-- ===== src/Accountability/Change/State.antt =====
-- internal/core/accountability/change.go: the data of a change, its commands and its events.
use keelage.Prelude.{Bool, false, ◌&&◌, Option, none, List, [], ◌++◌, is_nil}
use keelage.Prelude.Text.{Text, codes}
use keelage.Core.Actor.{Ident, ActorRef}
use keelage.Core.Level.{Level, l0}
use keelage.Core.Context.{Time, Duration}
use keelage.Core.ScopeKey.{ScopeKey}

-- A type whose underlying type is a string has a constructor `unknown` for the texts that are none
-- of its constants.
pub data ChangeKind : Type 0 where
  realization harness : ChangeKind
  unknown : Text → ChangeKind

pub data ChangeMode : Type 0 where
  manual session delegated autonomous : ChangeMode
  unknown : Text → ChangeMode

-- `none` is the empty string, the state of a change that was not opened.
pub data ChangeState : Type 0 where
  absent proposed judged deployed observed settled : ChangeState

pub record Proposal : Type 0 where
  pub ref : Text
  pub actor : ActorRef
  pub at : Time
  pub sig : Text

pub data ImpactRelation : Type 0 where
  references violates conflicts : ImpactRelation
  unknown : Text → ImpactRelation

pub record ImpactRef : Type 0 where
  pub constraint : Ident
  pub relation : ImpactRelation

pub record Impact : Type 0 where
  pub constraints : List ImpactRef
  pub decisions : List Ident
  pub anchors : List Text

abbrev pub no_impact : Impact
no_impact = record { constraints = []; decisions = []; anchors = [] }

-- `Impact.Empty`.
unfoldable pub impact_is_empty : Impact → Bool
impact_is_empty i = is_nil i.constraints && is_nil i.decisions

pub data JudgmentDecision : Type 0 where
  accept modify reject : JudgmentDecision
  unknown : Text → JudgmentDecision

pub data JudgmentSource : Type 0 where
  session review harness : JudgmentSource
  unknown : Text → JudgmentSource

pub record Judgment : Type 0 where
  pub id : Ident
  pub decision : JudgmentDecision
  pub reason : Text
  pub by : ActorRef
  pub at : Time
  pub source : JudgmentSource
  pub sig : Text

pub data OutcomeVerdict : Type 0 where
  confirmed regressed inconclusive : OutcomeVerdict
  unknown : Text → OutcomeVerdict

pub record Outcome : Type 0 where
  pub window : Duration
  pub signals : List Text
  pub verdict : OutcomeVerdict
  pub at : Time

pub record Deployment : Type 0 where
  pub ref : Text
  pub at : Time

pub record Change : Type 0 where
  pub id : Ident
  pub kind : ChangeKind
  pub mode : ChangeMode
  pub intent_ref : Ident
  pub no_intent : Bool
  pub proposals : List Proposal
  pub impact : Impact
  pub judgments : List Judgment
  pub deployment : Option Deployment
  pub outcome : Option Outcome
  pub derived : List Ident
  pub sessions : List Text
  pub autonomy_applied : Level
  pub state : ChangeState
  pub opened_at : Time
  pub settled_at : Time

-- The zero value `Change{}`.
abbrev pub no_change : Change
no_change = record {
  id = [];
  kind = ChangeKind.unknown [];
  mode = ChangeMode.unknown [];
  intent_ref = [];
  no_intent = false;
  proposals = [];
  impact = no_impact;
  judgments = [];
  deployment = none;
  outcome = none;
  derived = [];
  sessions = [];
  autonomy_applied = l0;
  state = ChangeState.absent;
  opened_at = 0;
  settled_at = 0;
}

-- `ChangeStream`.
unfoldable pub change_stream : Ident → Text
change_stream id = codes "change/" ++ id

pub record ChangeCmd : Type 0 where
  pub id : Ident
  pub idem : Text

pub record OpenChange : Type 0 where
  pub cmd : ChangeCmd
  pub change_kind : ChangeKind
  pub mode : ChangeMode
  pub scope : ScopeKey
  pub intent_ref : Ident
  pub no_intent : Bool
  pub impact : Impact
  pub proposal : Option Proposal
  pub sessions : List Text

-- `other` is a command of another aggregate, with its kind.
pub data ChangeCommand : Type 0 where
  open_change : OpenChange → ChangeCommand
  add_proposal : ChangeCmd → Proposal → ChangeCommand
  judge : ChangeCmd → Judgment → ChangeCommand
  deploy : ChangeCmd → Text → ChangeCommand
  record_outcome : ChangeCmd → Outcome → ChangeCommand
  settle : ChangeCmd → List Ident → ChangeCommand
  other : Text → ChangeCommand

-- `ChangeOpenedV1`, which only old ledgers hold.
pub record ChangeOpenedV1 : Type 0 where
  pub id : Ident
  pub change_kind : ChangeKind
  pub mode : ChangeMode
  pub scope : ScopeKey
  pub intent_ref : Ident
  pub no_intent : Bool
  pub impact : Impact
  pub proposal : Option Proposal
  pub autonomy_applied : Level
  pub by : ActorRef
  pub at : Time

pub record ChangeOpened : Type 0 where
  pub id : Ident
  pub change_kind : ChangeKind
  pub mode : ChangeMode
  pub scope : ScopeKey
  pub intent_ref : Ident
  pub no_intent : Bool
  pub impact : Impact
  pub proposal : Option Proposal
  pub sessions : List Text
  pub autonomy_applied : Level
  pub by : ActorRef
  pub at : Time

-- `other` is an event of another kind, which `Apply` ignores.
pub data ChangeEvent : Type 0 where
  change_opened : ChangeOpened → ChangeEvent
  proposal_added : Ident → Proposal → ChangeEvent
  judged : Ident → Judgment → ChangeEvent
  deployed : Ident → Deployment → ChangeEvent
  outcome_recorded : Ident → Outcome → ChangeEvent
  settled : Ident → List Ident → Time → ChangeEvent
  other : Text → ChangeEvent

-- The upcaster that `RegisterEvents` registers: version 1 has no sessions.
unfoldable pub upcast_opened : ChangeOpenedV1 → ChangeOpened
upcast_opened v = record {
  id = v.id;
  change_kind = v.change_kind;
  mode = v.mode;
  scope = v.scope;
  intent_ref = v.intent_ref;
  no_intent = v.no_intent;
  impact = v.impact;
  proposal = v.proposal;
  sessions = [];
  autonomy_applied = v.autonomy_applied;
  by = v.by;
  at = v.at;
}
