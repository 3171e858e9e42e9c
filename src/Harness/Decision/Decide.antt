-- ===== src/Harness/Decision/Decide.antt =====
-- internal/core/harness/decision.go: `Decide` and `Apply` of a decision.
use keelage.Prelude.{Bool, true, false, not, ◌&&◌, ◌||◌, List, [], ◌∷◌, all, if◌then◌else◌}
use keelage.Prelude.Text.{Text, codes, is_empty, text_eq}
use keelage.Core.Event.{Rejection, Result, ok, err, reject_if, ◌>>◌}
use keelage.Core.Std.{Std}
use keelage.Core.Actor.{is_zero, is_human}
use keelage.Core.ScopeKey
use keelage.Core.Anchor.{is_anchor}
use keelage.Core.Context.{DecideContext}
use keelage.Harness.Decision.State.{
  DecisionState, Decision, no_decision, DecisionCommand, DecisionEvent,
}

abbrev pub is_absent : DecisionState → Bool
is_absent DecisionState.absent = true
is_absent _ = false

abbrev pub is_generated : DecisionState → Bool
is_generated DecisionState.generated = true
is_generated _ = false

abbrev pub is_retired : DecisionState → Bool
is_retired DecisionState.retired = true
is_retired _ = false

-- The guards that `ReviseDecision`, `SupersedeDecision` and `RetireDecision` begin with.
abbrev check_active : Decision → Result (Unit {0})
check_active d = do
  reject_if (is_absent d.state) Rejection.not_found
  reject_if (is_retired d.state) Rejection.bad_state

-- The case `ReviseDecision` after its guards.
abbrev pub revise_text : Decision → Text → Text → DecideContext → Result (List DecisionEvent)
revise_text d title body ctx = if text_eq title d.title && text_eq body d.body then ok [] else (do
  reject_if (is_empty title || is_empty body) Rejection.invalid
  ok (DecisionEvent.decision_revised d.id title body ctx.actor ctx.now ∷ []))

-- `Decide`.
unfoldable pub decide :
    ⦃go : Std⦄ → Decision → DecisionCommand → DecideContext → Result (List DecisionEvent)
decide d (DecisionCommand.draft m) ctx = do
  reject_if (not (is_absent d.state)) Rejection.exists
  reject_if (is_zero m.cmd.id || (is_empty m.title || is_empty m.body)) Rejection.invalid
  reject_if (not (ScopeKey.is_valid m.scope)) Rejection.invalid
  reject_if (not (all is_anchor m.anchors)) Rejection.invalid
  ok (
      DecisionEvent.decision_drafted (record {
        id = m.cmd.id;
        title = m.title;
        body = m.body;
        scope = m.scope;
        from = m.from;
        anchors = m.anchors;
        supersedes = m.supersedes;
        by = ctx.actor;
        at = ctx.now;
      })
      ∷ [])
decide d (DecisionCommand.verify cmd) ctx = do
  reject_if (is_absent d.state) Rejection.not_found
  reject_if (not (is_human ctx.actor)) Rejection.human_only
  reject_if (not (is_generated d.state)) Rejection.bad_state
  ok (DecisionEvent.decision_verified d.id ctx.actor ctx.now ∷ [])
decide d (DecisionCommand.revise cmd title body) ctx = do
  check_active d
  revise_text d title body ctx
decide d (DecisionCommand.supersede cmd by) ctx = do
  check_active d
  reject_if (is_zero by || text_eq by d.id) Rejection.invalid
  ok (DecisionEvent.decision_superseded d.id by ctx.now ∷ [])
decide d (DecisionCommand.retire cmd) ctx = do
  check_active d
  ok (DecisionEvent.decision_retired d.id ctx.now ∷ [])
decide d (DecisionCommand.other kind) ctx = err Rejection.unknown_command

-- `Apply`.
unfoldable pub apply : Decision → DecisionEvent → Decision
apply d (DecisionEvent.decision_drafted v) = record no_decision {
  id = v.id;
  kind = codes "adr";
  title = v.title;
  body = v.body;
  scope = v.scope;
  from = v.from;
  anchors = v.anchors;
  supersedes = v.supersedes;
  state = DecisionState.generated;
  updated_at = v.at;
}
apply d (DecisionEvent.decision_verified id by at) = record d {
  state = DecisionState.verified;
  updated_at = at;
}
apply d (DecisionEvent.decision_revised id title body by at) = record d {
  title = title;
  body = body;
  state = DecisionState.generated;
  updated_at = at;
}
apply d (DecisionEvent.decision_superseded id by at) = record d {
  state = DecisionState.retired;
  superseded_by = by;
  updated_at = at;
}
apply d (DecisionEvent.decision_retired id at) = record d {
  state = DecisionState.retired;
  updated_at = at;
}
apply d (DecisionEvent.other kind) = d
