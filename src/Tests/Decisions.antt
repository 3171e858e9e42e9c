-- ===== src/Tests/Decisions.antt =====
-- A decision that is drafted, verified and revised.
use keelage.Prelude.{◌≡◌, ◌⊎◌, refl, true, List, [], ◌∷◌}
use keelage.Prelude.Text.{codes}
use keelage.Core.Event.{ok, replay}
use keelage.Core.Aggregate.{run}
use keelage.Core.Actor.{is_human}
use keelage.Core.Level.{l1}
use keelage.Core.Context.{DecideContext}
use keelage.Harness.Decision.State.{
  DecisionState, Decision, no_decision, DecisionCmd, DraftDecision, DecisionCommand, DecisionEvent,
}
use keelage.Harness.Decision.Decide.{decide, apply}
use keelage.Harness.Decision.Invariant.{IsSound, run_decision-IsSound, verified_text}
use keelage.Tests.Values.{literal_std, alice, bot, team_scope, context}

abbrev cmd : DecisionCmd
cmd = record { id = codes "d1"; idem = [] }

abbrev adr : DraftDecision
adr = record {
  cmd = cmd;
  title = codes "Use events";
  body = codes "We record events.";
  scope = team_scope;
  from = [];
  anchors = [];
  supersedes = [];
}

abbrev history : List (DecisionCommand × DecideContext)
history =
    (DecisionCommand.draft adr, context bot 1 l1)
    ∷ (DecisionCommand.verify cmd, context alice 2 l1)
    ∷ []

run_decision-IsSound_example : IsSound (run decide apply no_decision history)
run_decision-IsSound_example = run_decision-IsSound history

abbrev drafted : Decision
drafted = record no_decision {
  id = codes "d1";
  kind = codes "adr";
  title = codes "Use events";
  body = codes "We record events.";
  scope = team_scope;
  state = DecisionState.generated;
  updated_at = 1;
}

abbrev verified : DecisionEvent
verified = DecisionEvent.decision_verified (codes "d1") alice 2

verifies : decide drafted (DecisionCommand.verify cmd) (context alice 2 l1) ≡ ok (verified ∷ [])
unfolding decide is_human
verifies = refl

is_verified : (replay apply drafted (verified ∷ [])).state ≡ DecisionState.verified
unfolding replay apply
is_verified = refl

verified_text_example :
    (((replay apply drafted (verified ∷ [])).title ≡ codes "Use events")
      × ((replay apply drafted (verified ∷ [])).body ≡ codes "We record events."))
    × ((DecisionState.generated ≡ DecisionState.verified)
        ⊎ ((DecisionState.generated ≡ DecisionState.generated) × (is_human alice ≡ true)))
verified_text_example =
    verified_text drafted (DecisionCommand.verify cmd) (context alice 2 l1) (verified ∷ []) verifies
      is_verified
