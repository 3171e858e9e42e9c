-- ===== src/Accountability/Change/Decide.antt =====
-- internal/core/accountability/change.go: deployment, outcome and settlement, `Decide` and `Apply`.
use keelage.Prelude.{
  ◌+◌, Bool, true, not, ◌&&◌, Option, none, some, List, [], ◌∷◌, ◌++◌, is_nil, if◌then◌else◌,
}
use keelage.Prelude.Int.{ltb_ℤ}
use keelage.Prelude.Text.{Text, is_empty}
use keelage.Core.Event.{Rejection, Result, ok, err, reject_if, ◌>>◌}
use keelage.Core.Std.{Std}
use keelage.Core.Actor.{Ident, is_agent}
use keelage.Core.Level.{l2}
use keelage.Core.Context.{before, time_is_zero, DecideContext}
use keelage.Accountability.Change.State.{
  ChangeState, Proposal, impact_is_empty, Outcome, Deployment, Change, no_change, ChangeCommand,
  ChangeEvent,
}
use keelage.Accountability.Change.Rules.{
  exists, is_deployed, is_settled, known_verdict, open_with, add_proposal, judge,
}
use keelage.Accountability.Change.Clearance.{judgments_allow}

-- The `switch` of `deploy`.
unfoldable pub may_deploy : ChangeState → Change → DecideContext → Result (Unit {0})
may_deploy ChangeState.judged c ctx = judgments_allow c ctx
may_deploy ChangeState.proposed c ctx =
    reject_if (not (impact_is_empty c.impact)) Rejection.unjudged
may_deploy _ c ctx = err Rejection.bad_state

-- `deploy`.
unfoldable pub deploy : Change → Text → DecideContext → Result (List ChangeEvent)
deploy c ref ctx = do
  reject_if (not (exists c)) Rejection.not_found
  reject_if (is_empty ref) Rejection.invalid
  may_deploy c.state c ctx
  ok (ChangeEvent.deployed c.id (record { ref = ref; at = ctx.now }) ∷ [])

-- `recordOutcome`.
unfoldable pub record_outcome : Change → Outcome → DecideContext → Result (List ChangeEvent)
record_outcome c o ctx = do
  reject_if (not (exists c)) Rejection.not_found
  reject_if (not (is_deployed c.state)) Rejection.bad_state
  reject_if (not (known_verdict o.verdict)) Rejection.invalid
  let at = if time_is_zero o.at then ctx.now else o.at
  ok (ChangeEvent.outcome_recorded c.id (record o { at = at }) ∷ [])

-- Whether the outcome window is open: `Deployment == nil || Now.Before(Deployment.At.Add(window))`.
abbrev pub window_open : Option Deployment → DecideContext → Bool
window_open none ctx = true
window_open (some d) ctx = before ctx.now (d.at + ctx.policy.outcome_window)

-- The `switch` of `settle`.
unfoldable pub may_settle : ChangeState → Change → DecideContext → Result (Unit {0})
may_settle ChangeState.observed c ctx = ok tt
may_settle ChangeState.deployed c ctx = reject_if (window_open c.deployment ctx) Rejection.observing
may_settle _ c ctx = err Rejection.bad_state

-- `settle` of a change outside the harness, and of one with impact.
unfoldable pub settle_free : Change → List Ident → DecideContext → Result (List ChangeEvent)
settle_free c derived ctx = do
  reject_if (not (is_nil derived)) Rejection.no_derivation
  ok (ChangeEvent.settled c.id [] ctx.now ∷ [])

unfoldable pub settle_impact : Change → List Ident → DecideContext → Result (List ChangeEvent)
settle_impact c derived ctx = do
  may_settle c.state c ctx
  judgments_allow c ctx
  reject_if (is_agent ctx.actor && ltb_ℤ c.autonomy_applied l2) Rejection.autonomy
  ok (ChangeEvent.settled c.id derived ctx.now ∷ [])

-- `settle`.
unfoldable pub settle : Change → List Ident → DecideContext → Result (List ChangeEvent)
settle c derived ctx = do
  reject_if (not (exists c)) Rejection.not_found
  reject_if (is_settled c.state) Rejection.bad_state
  if impact_is_empty c.impact then settle_free c derived ctx else settle_impact c derived ctx

-- `Decide`.
unfoldable pub decide :
    ⦃go : Std⦄ → Change → ChangeCommand → DecideContext → Result (List ChangeEvent)
decide c (ChangeCommand.open_change m) ctx = open_with c m ctx
decide c (ChangeCommand.add_proposal cmd p) ctx = add_proposal c p
decide c (ChangeCommand.judge cmd j) ctx = judge c j
decide c (ChangeCommand.deploy cmd ref) ctx = deploy c ref ctx
decide c (ChangeCommand.record_outcome cmd o) ctx = record_outcome c o ctx
decide c (ChangeCommand.settle cmd derived) ctx = settle c derived ctx
decide c (ChangeCommand.other kind) ctx = err Rejection.unknown_command

abbrev opening_proposals : Option Proposal → List Proposal
opening_proposals none = []
opening_proposals (some p) = p ∷ []

-- `Apply`.
unfoldable pub apply : Change → ChangeEvent → Change
apply c (ChangeEvent.change_opened v) = record no_change {
  id = v.id;
  kind = v.change_kind;
  mode = v.mode;
  intent_ref = v.intent_ref;
  no_intent = v.no_intent;
  impact = v.impact;
  sessions = v.sessions;
  autonomy_applied = v.autonomy_applied;
  state = ChangeState.proposed;
  opened_at = v.at;
  proposals = opening_proposals v.proposal;
}
apply c (ChangeEvent.proposal_added id p) = record c { proposals = c.proposals ++ p ∷ [] }
apply c (ChangeEvent.judged id j) = record c {
  judgments = c.judgments ++ j ∷ [];
  state = ChangeState.judged;
}
apply c (ChangeEvent.deployed id d) = record c { deployment = some d; state = ChangeState.deployed }
apply c (ChangeEvent.outcome_recorded id o) = record c {
  outcome = some o;
  state = ChangeState.observed;
}
apply c (ChangeEvent.settled id derived at) = record c {
  derived = derived;
  state = ChangeState.settled;
  settled_at = at;
}
apply c (ChangeEvent.other kind) = c
