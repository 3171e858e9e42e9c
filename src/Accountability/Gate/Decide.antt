-- ===== src/Accountability/Gate/Decide.antt =====
-- internal/core/accountability/gate.go: the broker's policy, `Decide` and `Apply`.
use keelage.Prelude.{
  ◌+◌, Bool, true, false, not, ◌&&◌, some, List, [], ◌∷◌, ◌++◌, all, is_nil, if◌then◌else◌,
}
use keelage.Prelude.Int.{ltb_ℤ, leb_ℤ}
use keelage.Prelude.Text.{Text, codes, is_empty}
use keelage.Core.Event.{Rejection, Result, ok, err, reject_if, ◌>>◌}
use keelage.Core.Std.{Std}
use keelage.Core.Actor.{Ident, is_zero, is_human, is_agent, ActorRef, ActorKind}
use keelage.Core.Actor
use keelage.Core.Level.{Level, l0, valid}
use keelage.Core.Level
use keelage.Core.ScopeKey
use keelage.Core.ScopeKey.{ScopeKey}
use keelage.Core.Anchor.{is_anchor}
use keelage.Core.Context.{Time, before, time_is_zero, DecideContext, requires_judge}
use keelage.Accountability.Gate.State.{
  GateDecision, GateState, Resolution, Gate, no_gate, RequestGate, GateCommand, GateEvent,
}

-- `policy`: the decision and the text that names its ground.
unfoldable pub policy : DecideContext → Level → GateDecision × Text
policy ctx requested =
    if ltb_ℤ ctx.cap requested
    then (
      GateDecision.deny,
      codes "cap:" ++ (Level.to_text ctx.cap ++ (codes "<requested:" ++ Level.to_text requested)),
    )
    else if not (is_nil ctx.judges)
    then (GateDecision.ask, codes "ownership:other-owner")
    else if leb_ℤ requested ctx.autonomy
    then (
      GateDecision.allow,
      codes "autonomy:"
          ++ (Level.to_text ctx.autonomy ++ (codes ">=requested:" ++ Level.to_text requested)),
    )
    else (
      GateDecision.ask,
      codes "autonomy:"
          ++ (Level.to_text ctx.autonomy ++ (codes "<requested:" ++ Level.to_text requested)),
    )

abbrev pub is_ask : GateDecision → Bool
is_ask GateDecision.ask = true
is_ask _ = false

-- `r.Decision == GateAllow || r.Decision == GateDeny`.
abbrev pub is_answer : GateDecision → Bool
is_answer GateDecision.allow = true
is_answer GateDecision.deny = true
is_answer _ = false

abbrev pub is_absent : GateState → Bool
is_absent GateState.absent = true
is_absent _ = false

abbrev pub is_open : GateState → Bool
is_open GateState.open_gate = true
is_open _ = false

-- The event of an accepted request, by the policy's decision.
abbrev pub answer : RequestGate → DecideContext → GateDecision × Text → GateEvent
answer m ctx (decision, ref) =
    if is_ask decision
    then GateEvent.gate_opened (record {
      id = m.cmd.id;
      actor = m.actor;
      scope = m.scope;
      anchors = m.anchors;
      action = m.action;
      proposal_ref = m.proposal_ref;
      requested_level = m.requested_level;
      policy_ref = ref;
      at = ctx.now;
      expires_at = ctx.now + ctx.policy.gate_ttl;
    })
    else GateEvent.gate_decided (record {
      id = m.cmd.id;
      actor = m.actor;
      scope = m.scope;
      anchors = m.anchors;
      action = m.action;
      proposal_ref = m.proposal_ref;
      requested_level = m.requested_level;
      decision = decision;
      policy_ref = ref;
      at = ctx.now;
    })

-- The tests of `request` on a gate that does not exist yet.
unfoldable pub check_request : ⦃go : Std⦄ → RequestGate → Result (Unit {0})
check_request m = do
  reject_if (is_zero m.cmd.id) Rejection.invalid
  Actor.validate m.actor
  reject_if (not (is_agent m.actor)) Rejection.agent_only
  reject_if (not (ScopeKey.is_valid m.scope)) Rejection.invalid
  reject_if (is_empty m.proposal_ref) Rejection.invalid
  reject_if (not (valid m.requested_level)) Rejection.invalid
  reject_if (not (all is_anchor m.anchors)) Rejection.invalid

-- `request`; asking again for a gate that exists changes nothing.
unfoldable pub request : ⦃go : Std⦄ → Gate → RequestGate → DecideContext → Result (List GateEvent)
request g m ctx =
    if not (is_absent g.state)
    then ok []
    else (do check_request m; ok (answer m ctx (policy ctx m.requested_level) ∷ []))

abbrev pub stamped : Resolution → Time → Resolution
stamped r now = record r { at = if time_is_zero r.at then now else r.at }

-- `resolve`.
unfoldable pub resolve : Gate → Resolution → DecideContext → Result (List GateEvent)
resolve g r ctx = do
  reject_if (is_absent g.state) Rejection.not_found
  reject_if (not (is_open g.state)) Rejection.bad_state
  reject_if (not (is_answer r.decision)) Rejection.invalid
  Actor.validate r.by
  reject_if (not (is_human r.by)) Rejection.human_only
  reject_if (not (is_nil ctx.judges) && not (requires_judge ctx r.by.id)) Rejection.not_a_judge
  reject_if (is_empty r.reason) Rejection.no_reason
  reject_if (not (before ctx.now g.expires_at)) Rejection.expired
  ok (GateEvent.gate_resolved g.id (stamped r ctx.now) ∷ [])

-- `expire`.
unfoldable pub expire : Gate → DecideContext → Result (List GateEvent)
expire g ctx =
    if is_absent g.state
    then err Rejection.not_found
    else if not (is_open g.state)
    then ok []
    else if before ctx.now g.expires_at
    then err Rejection.not_yet
    else ok (GateEvent.gate_expired g.id ctx.now ∷ [])

-- `Decide`.
unfoldable pub decide : ⦃go : Std⦄ → Gate → GateCommand → DecideContext → Result (List GateEvent)
decide g (GateCommand.request_gate m) ctx = request g m ctx
decide g (GateCommand.resolve_gate cmd r) ctx = resolve g r ctx
decide g (GateCommand.expire_gate cmd) ctx = expire g ctx
decide g (GateCommand.other kind) ctx = err Rejection.unknown_command

-- `Apply`.
unfoldable pub apply : Gate → GateEvent → Gate
apply g (GateEvent.gate_decided v) = record no_gate {
  id = v.id;
  actor = v.actor;
  scope = v.scope;
  anchors = v.anchors;
  action = v.action;
  proposal_ref = v.proposal_ref;
  requested_level = v.requested_level;
  decision = v.decision;
  policy_ref = v.policy_ref;
  state = GateState.decided;
  opened_at = v.at;
}
apply g (GateEvent.gate_opened v) = record no_gate {
  id = v.id;
  actor = v.actor;
  scope = v.scope;
  anchors = v.anchors;
  action = v.action;
  proposal_ref = v.proposal_ref;
  requested_level = v.requested_level;
  decision = GateDecision.ask;
  policy_ref = v.policy_ref;
  state = GateState.open_gate;
  opened_at = v.at;
  expires_at = v.expires_at;
}
apply g (GateEvent.gate_resolved id r) = record g {
  resolution = some r;
  decision = r.decision;
  state = GateState.resolved;
}
apply g (GateEvent.gate_expired id at) = record g { state = GateState.expired }
apply g (GateEvent.other kind) = g
