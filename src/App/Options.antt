-- ===== src/App/Options.antt =====
-- internal/app/pipeline.go and internal/core/event.go: what a pipeline is configured with, and what it
-- answers.
use keelage.Prelude.{ℕ, Bool, ◌&&◌, ◌==◌, ◌⊎◌, Option, List, if◌then◌else◌}
use keelage.Prelude.Int.{ℤ, pos, eqb_ℤ}
use keelage.Prelude.Text.{Text, codes}
use keelage.Core.Actor.{ActorRef}
use keelage.Core.Context.{Policy, DecideContext, default_policy}
use keelage.Core.Envelope.{Envelope}
use keelage.Core.Event.{Rejection, Result}
use keelage.Ledger.Port.{LedgerPort}
use keelage.Ledger.State.{LedgerError, Range}

-- `RejectedStream`.
abbrev pub rejected_stream : Text
rejected_stream = codes "rejected"

-- The event `Rejected`, without the reason, a message for people.
pub record Rejected : Type 0 where
  pub command : Text
  pub target : Text
  pub code : Rejection
  pub actor : ActorRef

-- `port.Projector`: whether `Handle` succeeds, and the read models after it. An aggregate's events
-- are on the left.
abbrev pub Projector : Type 0 → Type 0 → Type 0
Projector P E = P → Envelope → E ⊎ Rejected → Bool × P

-- A command of an aggregate: `Kind`, `Stream`, `IdempotencyKey`, and `TouchedAnchors`, nothing for
-- one that is not `Anchored`.
pub record Command (C : Type 0) : Type 0 where
  pub kind : C → Text
  pub stream : C → Text
  pub idempotency_key : C → Text
  pub touched_anchors : C → List Text

-- An aggregate, `Root[T]` with the `zero` that it is registered with.
pub record Root (S C E : Type 0) : Type 0 where
  pub zero : Text → S
  pub decide : S → C → DecideContext → Result (List E)
  pub apply : S → E → S

-- `Codec`, of which the pipeline calls `Encode` and `Decode`, `none` for an error, with `Kind` and
-- `Version` of an event.
pub record Codec (E : Type 0) : Type 0 where
  pub kind : E → Text
  pub version : E → ℤ
  pub encode : E → Option Text
  pub decode : Text → ℤ → Text → Option E
  pub encode_rejected : Rejected → Option Text

-- `Options`, for the commands of one aggregate. `L` is the ledger's state, `P` that of the read
-- models; `ContextSource.Build` reads these.
pub record Options (L P S C E : Type 0) : Type 0 where
  pub ledger : LedgerPort L
  pub root : Root S C E
  pub command : Command C
  pub codec : Codec E
  pub build : P → C → Option DecideContext
  pub policy : Policy
  pub projectors : List (Projector P E)

-- What the pipeline reads and writes.
pub record World (L P : Type 0) : Type 0 where
  pub ledger : L
  pub views : P

-- `Result`. Go's zero `Range` is `none`.
pub record Reply (E : Type 0) : Type 0 where
  pub stream : Text
  pub version : ℕ
  pub range : Option Range
  pub events : List E
  pub replayed : Bool

-- The errors that the pipeline returns, one for each `return`. A rejection that could not be recorded
-- is joined with the error of recording it.
pub data HandleError : Type 0 where
  unknown_command : HandleError
  rejected rejected_unrecorded : Rejection → HandleError
  lookup_failed load_failed append_failed replay_lookup_failed : LedgerError → HandleError
  replay_failed context_failed encode_failed projection_failed : HandleError

-- `p == (core.Policy{})`.
abbrev pub policy_is_zero : Policy → Bool
policy_is_zero p =
    eqb_ℤ p.promotion_min_outcomes (pos 0) && (p.outcome_window == 0 && p.gate_ttl == 0)

-- `New`: a pipeline without a policy has the default one.
unfoldable pub new : {L P S C E : Type 0} → Options L P S C E → Options L P S C E
new o = record o { policy = if policy_is_zero o.policy then default_policy else o.policy }
