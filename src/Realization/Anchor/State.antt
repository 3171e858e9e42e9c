-- ===== src/Realization/Anchor/State.antt =====
-- internal/core/realization/anchor.go: the data of an anchor, its commands and its events.
use keelage.Prelude.{ℕ, Bool, [], ◌++◌}
use keelage.Prelude.Text.{Text, codes}
use keelage.Core.Actor.{ActorRef}
use keelage.Core.Hash3.{Hash3, no_hash, HashChange}
use keelage.Core.Context.{Time}

-- `absent` is the empty text of `StateNone`.
pub data AnchorState : Type 0 where
  absent recorded verified review stale unrealized : AnchorState

pub record Anchor : Type 0 where
  pub key : Text
  pub hash : Hash3
  pub state : AnchorState
  pub commit : Text
  pub moved_to : Text
  pub updated_at : Time
  pub verifies : ℕ
  pub staled : ℕ

-- The zero `Anchor`, from which a stream is replayed.
abbrev pub no_anchor : Anchor
no_anchor = record {
  key = [];
  hash = no_hash;
  state = AnchorState.absent;
  commit = [];
  moved_to = [];
  updated_at = 0;
  verifies = 0;
  staled = 0;
}

-- `AnchorStream`.
unfoldable pub anchor_stream : Text → Text
anchor_stream key = codes "anchor/" ++ key

pub record AnchorCmd : Type 0 where
  pub key : Text
  pub idem : Text

pub record RecordAnchor : Type 0 where
  pub cmd : AnchorCmd
  pub hash : Hash3
  pub commit : Text

pub record VerifyAnchor : Type 0 where
  pub cmd : AnchorCmd
  pub current : Hash3
  pub exists : Bool
  pub commit : Text

pub record MoveAnchor : Type 0 where
  pub cmd : AnchorCmd
  pub to : Text
  pub hash : Hash3
  pub commit : Text

-- `other` is a command of another aggregate.
pub data AnchorCommand : Type 0 where
  record_anchor : RecordAnchor → AnchorCommand
  verify_anchor : VerifyAnchor → AnchorCommand
  move_anchor : MoveAnchor → AnchorCommand
  other : Text → AnchorCommand

pub record AnchorRecorded : Type 0 where
  pub key : Text
  pub hash : Hash3
  pub commit : Text
  pub by : ActorRef
  pub at : Time

pub record AnchorVerified : Type 0 where
  pub key : Text
  pub hash : Hash3
  pub change : HashChange
  pub commit : Text
  pub at : Time

pub record AnchorStaled : Type 0 where
  pub key : Text
  pub state : AnchorState
  pub cause : HashChange
  pub old : Hash3
  pub new : Hash3
  pub commit : Text
  pub at : Time

pub record AnchorMoved : Type 0 where
  pub key : Text
  pub to : Text
  pub hash : Hash3
  pub commit : Text
  pub at : Time

pub data AnchorEvent : Type 0 where
  anchor_recorded : AnchorRecorded → AnchorEvent
  anchor_verified : AnchorVerified → AnchorEvent
  anchor_staled : AnchorStaled → AnchorEvent
  anchor_moved : AnchorMoved → AnchorEvent
  other : Text → AnchorEvent
