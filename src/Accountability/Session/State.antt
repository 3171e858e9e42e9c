-- ===== src/Accountability/Session/State.antt =====
-- internal/core/accountability/session.go: the data of a session, its commands and its events.
use keelage.Prelude.{ℕ, List, [], ◌++◌}
use keelage.Prelude.Text.{Text, codes}
use keelage.Core.Actor.{Ident, ActorKind, ActorRef}
use keelage.Core.Context.{Time}

-- `other` holds any text but the constants.
pub data TurnClass : Type 0 where
  accept redirect revert : TurnClass
  other : Text → TurnClass

pub record Turn : Type 0 where
  pub seq : ℕ
  pub class : TurnClass
  pub files : List Text
  pub signal : Text
  pub at : Time

pub record SessionJudgment : Type 0 where
  pub turn : ℕ
  pub class : TurnClass
  pub files : List Text
  pub signal : Text
  pub at : Time

-- `absent` is the empty text of `SessionStateNone`.
pub data SessionState : Type 0 where
  absent open_session ended shared : SessionState

pub record Session : Type 0 where
  pub id : Text
  pub tool : Text
  pub repo : Text
  pub agent : ActorRef
  pub owner : Ident
  pub state : SessionState
  pub started_at : Time
  pub ended_at : Time
  pub reason : Text
  pub turns : List Turn
  pub touched : List Text
  pub judgments : List SessionJudgment
  pub summary : Text
  pub shared : List Text

-- The zero `Session`, from which a stream is replayed.
abbrev pub no_session : Session
no_session = record {
  id = [];
  tool = [];
  repo = [];
  agent = record { kind = ActorKind.other []; id = []; key = []; owner = [] };
  owner = [];
  state = SessionState.absent;
  started_at = 0;
  ended_at = 0;
  reason = [];
  turns = [];
  touched = [];
  judgments = [];
  summary = [];
  shared = [];
}

-- `SessionStream`.
unfoldable pub session_stream : Text → Text → Text
session_stream tool id = codes "session/" ++ (tool ++ (codes "/" ++ id))

pub record SessionCmd : Type 0 where
  pub tool : Text
  pub id : Text
  pub idem : Text

pub record StartSession : Type 0 where
  pub cmd : SessionCmd
  pub repo : Text
  pub agent : ActorRef

pub record RecordTurn : Type 0 where
  pub cmd : SessionCmd
  pub class : TurnClass
  pub files : List Text
  pub signal : Text

pub record EndSession : Type 0 where
  pub cmd : SessionCmd
  pub reason : Text
  pub summary : Text

-- `other` is a command of another aggregate.
pub data SessionCommand : Type 0 where
  start_session : StartSession → SessionCommand
  record_turn : RecordTurn → SessionCommand
  end_session : EndSession → SessionCommand
  share_session : (cmd : SessionCmd) (parts : List Text) → SessionCommand
  other : Text → SessionCommand

pub data SessionEvent : Type 0 where
  session_started : (id tool repo : Text) (agent : ActorRef) (at : Time) → SessionEvent
  turn_recorded : (id : Text) (turn : Turn) → SessionEvent
  session_ended : (id reason summary : Text) (at : Time) → SessionEvent
  session_shared : (id : Text) (parts : List Text) (at : Time) → SessionEvent
  other : Text → SessionEvent
