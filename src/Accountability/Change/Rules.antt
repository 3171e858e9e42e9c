-- ===== src/Accountability/Change/Rules.antt =====
-- internal/core/accountability/change.go: the tests on a change, and what opens, extends and judges it.
use keelage.Prelude.{Bool, true, false, not, ◌&&◌, List, [], ◌∷◌, any, all, if◌then◌else◌}
use keelage.Prelude.Int.{ltb_ℤ}
use keelage.Prelude.Text.{text_eq, is_empty}
use keelage.Core.Event.{Rejection, Result, ok, reject_if, ◌>>◌}
use keelage.Core.Std.{Std}
use keelage.Core.Actor.{Ident, is_zero, is_human, is_agent, ActorRef}
use keelage.Core.Actor
use keelage.Core.Level.{Level, l0, l1, l2}
use keelage.Core.ScopeKey
use keelage.Core.Anchor.{is_anchor}
use keelage.Core.Context.{DecideContext}
use keelage.Accountability.Change.State.{
  ChangeKind, ChangeMode, ChangeState, Proposal, impact_is_empty, JudgmentDecision, Judgment,
  OutcomeVerdict, Change, OpenChange, ChangeEvent, ChangeOpened,
}

abbrev pub is_absent : ChangeState → Bool
is_absent ChangeState.absent = true
is_absent _ = false

-- `exists`.
abbrev pub exists : Change → Bool
exists c = not (is_absent c.state)

abbrev pub is_harness : ChangeKind → Bool
is_harness ChangeKind.harness = true
is_harness _ = false

abbrev pub known_kind : ChangeKind → Bool
known_kind (ChangeKind.unknown _) = false
known_kind _ = true

abbrev pub known_mode : ChangeMode → Bool
known_mode (ChangeMode.unknown _) = false
known_mode _ = true

abbrev pub is_autonomous : ChangeMode → Bool
is_autonomous ChangeMode.autonomous = true
is_autonomous _ = false

abbrev pub known_decision : JudgmentDecision → Bool
known_decision (JudgmentDecision.unknown _) = false
known_decision _ = true

abbrev pub is_reject : JudgmentDecision → Bool
is_reject JudgmentDecision.reject = true
is_reject _ = false

abbrev pub known_verdict : OutcomeVerdict → Bool
known_verdict (OutcomeVerdict.unknown _) = false
known_verdict _ = true

-- `c.State != StateProposed && c.State != StateJudged`, negated.
abbrev pub is_judgeable : ChangeState → Bool
is_judgeable ChangeState.proposed = true
is_judgeable ChangeState.judged = true
is_judgeable _ = false

abbrev pub is_deployed : ChangeState → Bool
is_deployed ChangeState.deployed = true
is_deployed _ = false

abbrev pub is_settled : ChangeState → Bool
is_settled ChangeState.settled = true
is_settled _ = false

-- An actor whose `Validate` returns an error is refused as "invalid".
abbrev pub check_actor : ActorRef → Result (Unit {0})
check_actor a = Actor.validate a

abbrev pub effective_level : ChangeKind → Level → Level
effective_level kind autonomy = if is_harness kind then l0 else autonomy

-- The event that `open` builds.
abbrev pub opening : OpenChange → DecideContext → ChangeOpened
opening m ctx = record {
  id = m.cmd.id;
  change_kind = m.change_kind;
  mode = m.mode;
  scope = m.scope;
  intent_ref = m.intent_ref;
  no_intent = m.no_intent;
  impact = m.impact;
  proposal = m.proposal;
  sessions = m.sessions;
  autonomy_applied = effective_level m.change_kind ctx.autonomy;
  by = ctx.actor;
  at = ctx.now;
}

-- `open`.
unfoldable pub open_with :
    ⦃go : Std⦄ → Change → OpenChange → DecideContext → Result (List ChangeEvent)
open_with c m ctx = do
  reject_if (exists c) Rejection.exists
  reject_if (is_zero m.cmd.id) Rejection.invalid
  reject_if (not (known_kind m.change_kind)) Rejection.invalid
  reject_if (not (known_mode m.mode)) Rejection.invalid
  reject_if (not (ScopeKey.is_valid m.scope)) Rejection.invalid
  reject_if (is_zero m.intent_ref && not m.no_intent) Rejection.no_intent
  reject_if (not (all is_anchor m.impact.anchors)) Rejection.invalid
  reject_if (is_autonomous m.mode && ltb_ℤ (effective_level m.change_kind ctx.autonomy) l2)
      Rejection.autonomy
  ok (ChangeEvent.change_opened (opening m ctx) ∷ [])

-- `addProposal`.
unfoldable pub add_proposal : Change → Proposal → Result (List ChangeEvent)
add_proposal c p = do
  reject_if (not (exists c)) Rejection.not_found
  reject_if (not (is_judgeable c.state)) Rejection.bad_state
  reject_if (is_empty p.ref) Rejection.invalid
  check_actor p.actor
  ok (ChangeEvent.proposal_added c.id p ∷ [])

-- `judge`.
unfoldable pub judge : Change → Judgment → Result (List ChangeEvent)
judge c j = do
  reject_if (not (exists c)) Rejection.not_found
  reject_if (not (is_judgeable c.state)) Rejection.bad_state
  reject_if (is_zero j.id) Rejection.invalid
  reject_if (not (known_decision j.decision)) Rejection.invalid
  check_actor j.by
  reject_if (is_agent j.by && is_harness c.kind) Rejection.human_only
  reject_if (is_agent j.by && ltb_ℤ c.autonomy_applied l1) Rejection.autonomy
  reject_if (not (impact_is_empty c.impact) && is_empty j.reason) Rejection.no_reason
  reject_if (any (λ prev. text_eq prev.id j.id) c.judgments) Rejection.duplicate
  ok (ChangeEvent.judged c.id j ∷ [])
