-- ===== src/Tests/Changes.antt =====
-- A change from its opening to its settlement.
use keelage.Prelude.{◌≡◌, refl, true, none, some, List, [], ◌∷◌, ◌↔◌}
use keelage.Prelude.Int.{leb_ℤ}
use keelage.Prelude.Text.{codes, text_eq, contains_text, contains_any, cut_prefix, cut}
use keelage.Core.Event.{Rejection, ok, err, replay}
use keelage.Core.Aggregate.{after, run}
use keelage.Core.Actor.{is_human, is_agent}
use keelage.Core.Actor
use keelage.Core.Level.{l1}
use keelage.Core.ScopeKey
use keelage.Core.Anchor.{is_anchor, parse_anchor, scheme_of}
use keelage.Core.Context.{DecideContext}
use keelage.Accountability.Change.State.{
  ChangeKind, ChangeMode, ChangeState, JudgmentDecision, JudgmentSource, Judgment, ImpactRelation,
  Impact, Change, no_change, OpenChange, ChangeCmd, ChangeCommand, ChangeEvent, impact_is_empty,
}
use keelage.Accountability.Change.Rules.{open_with, judge}
use keelage.Accountability.Change.Clearance.{count_judgment, tally, judgments_allow}
use keelage.Accountability.Change.Cleared.{IsCleared, judgments_allow_iff}
use keelage.Accountability.Change.Decide.{
  may_deploy, deploy, may_settle, settle, settle_impact, decide, apply,
}
use keelage.Accountability.Change.Invariant.{IsContextIn, IsSound, run_change-IsSound}
use keelage.Accountability.Change.Lifecycle.{Continues, run_change-Continues}
use keelage.Accountability.Change.Settlement.{MaySettle, settle_iff}
use keelage.Tests.Values.{literal_std, alice, bot, team_scope, context}

abbrev cmd : ChangeCmd
cmd = record { id = codes "c1"; idem = [] }

abbrev billing : Impact
billing = record {
  constraints = record { constraint = codes "k1"; relation = ImpactRelation.references } ∷ [];
  decisions = [];
  anchors = codes "ui://Button" ∷ [];
}

abbrev opening_cmd : OpenChange
opening_cmd = record {
  cmd = cmd;
  change_kind = ChangeKind.realization;
  mode = ChangeMode.session;
  scope = team_scope;
  intent_ref = [];
  no_intent = true;
  impact = billing;
  proposal = none;
  sessions = [];
}

abbrev approval : Judgment
approval = record {
  id = codes "j1";
  decision = JudgmentDecision.accept;
  reason = codes "fine";
  by = alice;
  at = 2;
  source = JudgmentSource.review;
  sig = [];
}

abbrev history : List (ChangeCommand × DecideContext)
history =
    (ChangeCommand.open_change opening_cmd, context bot 1 l1)
    ∷ (ChangeCommand.judge cmd approval, context alice 2 l1)
    ∷ (ChangeCommand.deploy cmd (codes "v1"), context bot 3 l1)
    ∷ []

abbrev deployed_change : Change
deployed_change = record {
  id = codes "c1";
  kind = ChangeKind.realization;
  mode = ChangeMode.session;
  intent_ref = [];
  no_intent = true;
  proposals = [];
  impact = billing;
  judgments = approval ∷ [];
  deployment = some (record { ref = codes "v1"; at = 3 });
  outcome = none;
  derived = [];
  sessions = [];
  autonomy_applied = l1;
  state = ChangeState.deployed;
  opened_at = 1;
  settled_at = 0;
}

-- Opened, judged by a human and deployed.
history_deploys : run decide apply no_change history ≡ deployed_change
unfolding run after decide open_with ScopeKey.validate contains_any is_anchor parse_anchor cut
    cut_prefix text_eq judge Actor.validate is_agent is_human impact_is_empty leb_ℤ deploy
    may_deploy judgments_allow tally count_judgment contains_text replay apply scheme_of
history_deploys = refl

run_change-IsSound_example : IsSound (IsContextIn history) (run decide apply no_change history)
run_change-IsSound_example = run_change-IsSound history

abbrev settling : ChangeCommand
settling = ChangeCommand.settle cmd []

run_change-Continues_example :
    Continues deployed_change
      (run decide apply deployed_change ((settling, context alice 20 l1) ∷ []))
run_change-Continues_example =
    run_change-Continues deployed_change ((settling, context alice 20 l1) ∷ []) refl

settles_late :
    settle deployed_change [] (context alice 20 l1)
    ≡ ok (ChangeEvent.settled (codes "c1") [] 20 ∷ [])
unfolding settle settle_impact may_settle impact_is_empty judgments_allow tally count_judgment
    is_human is_agent leb_ℤ
settles_late = refl

-- Before the window of ten is over.
settles_early : settle deployed_change [] (context alice 12 l1) ≡ err Rejection.observing
unfolding settle settle_impact may_settle impact_is_empty
settles_early = refl

settle_iff_example :
    (settle deployed_change [] (context alice 20 l1)
      ≡ ok (ChangeEvent.settled (codes "c1") [] 20 ∷ []))
    ↔ MaySettle deployed_change (context alice 20 l1)
unfolding impact_is_empty
settle_iff_example = settle_iff deployed_change [] (context alice 20 l1) refl

judgments_allow_iff_example :
    (judgments_allow deployed_change (context alice 20 l1) ≡ ok tt)
    ↔ IsCleared deployed_change (context alice 20 l1) (approval ∷ [])
judgments_allow_iff_example = judgments_allow_iff deployed_change (context alice 20 l1)
