-- ===== src/Tests/Gates.antt =====
-- A gate that is asked, answered and closed.
use keelage.Prelude.{◌≡◌, ◌↔◌, ◌≤◌, refl, List, [], ◌∷◌}
use keelage.Prelude.Int.{leb_ℤ, ◌<ℤ◌}
use keelage.Prelude.Text.{codes, contains_any, text_eq}
use keelage.Core.Event.{ok, replay}
use keelage.Core.Aggregate.{after, run}
use keelage.Core.Actor
use keelage.Core.Actor.{is_agent, is_human}
use keelage.Core.ScopeKey
use keelage.Core.Level.{l1, l2, valid}
use keelage.Core.Context.{DecideContext}
use keelage.Accountability.Gate.State.{
  GateDecision, GateState, Resolution, Gate, no_gate, RequestGate, GateCommand, GateCmd, GateEvent,
}
use keelage.Accountability.Gate.Decide.{policy, check_request, resolve, expire, decide, apply}
use keelage.Accountability.Gate.Decide
use keelage.Accountability.Gate.Policy.{MayAllow, MustAsk, policy_decisions}
use keelage.Accountability.Gate.Lifecycle.{IsSound, run_gate-IsSound}
use keelage.Accountability.Gate.Closing.{resolve_or_expire}
use keelage.Tests.Values.{literal_std, alice, bot, team_scope, context}

abbrev cmd : GateCmd
cmd = record { id = codes "g1"; idem = [] }

abbrev request : RequestGate
request = record {
  cmd = cmd;
  actor = bot;
  scope = team_scope;
  anchors = [];
  action = codes "deploy";
  proposal_ref = codes "p1";
  requested_level = l2;
}

abbrev yes_please : Resolution
yes_please = record {
  decision = GateDecision.allow;
  reason = codes "fine";
  by = alice;
  at = 0;
  sig = [];
}

abbrev history : List (GateCommand × DecideContext)
history =
    (GateCommand.request_gate request, context bot 1 l1)
    ∷ (GateCommand.resolve_gate cmd yes_please, context alice 2 l1)
    ∷ []

run_gate-IsSound_example : IsSound (run decide apply no_gate history)
run_gate-IsSound_example = run_gate-IsSound history

-- The request opens the gate, and the answer resolves it.
answered : (run decide apply no_gate history).state ≡ GateState.resolved
unfolding run after decide Decide.request check_request Actor.validate is_agent is_human
    ScopeKey.validate valid contains_any text_eq policy leb_ℤ resolve replay apply
answered = refl

policy_decisions_example :
    (((policy (context bot 1 l1) l2).0 ≡ GateDecision.deny) ↔ ((context bot 1 l1).cap <ℤ l2))
    × (((policy (context bot 1 l1) l2).0 ≡ GateDecision.allow) ↔ MayAllow (context bot 1 l1) l2)
    × (((policy (context bot 1 l1) l2).0 ≡ GateDecision.ask) ↔ MustAsk (context bot 1 l1) l2)
policy_decisions_example = policy_decisions (context bot 1 l1) l2

-- The agent's level is below the one requested.
asks : (policy (context bot 1 l1) l2).0 ≡ GateDecision.ask
unfolding policy leb_ℤ
asks = refl

abbrev pub open_gate : Gate
open_gate = record no_gate {
  id = codes "g1";
  actor = bot;
  scope = team_scope;
  action = codes "deploy";
  requested_level = l2;
  decision = GateDecision.ask;
  state = GateState.open_gate;
  expires_at = 6;
}

resolve_or_expire_example :
    ((expire open_gate (context alice 7 l1) ≡ ok (GateEvent.gate_expired (codes "g1") 7 ∷ []))
      ↔ (6 ≤ 7))
    × (¬ (
        (6 ≤ 7)
        × ((evs : List GateEvent) × (resolve open_gate yes_please (context alice 7 l1) ≡ ok evs))))
resolve_or_expire_example = resolve_or_expire open_gate yes_please (context alice 7 l1) refl

abbrev expired_gate : Gate
expired_gate = record open_gate { state = GateState.expired }
