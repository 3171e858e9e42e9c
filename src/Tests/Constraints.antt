-- ===== src/Tests/Constraints.antt =====
-- A constraint that is drafted, verified, promoted, demoted and retired.
use keelage.Prelude.{◌≡◌, refl, true, false, List, [], ◌∷◌, ◌++◌, is_nil, arith}
use keelage.Prelude.Text.{codes, text_eq, contains_any}
use keelage.Core.Event.{ok, replay}
use keelage.Core.Aggregate.{run}
use keelage.Core.Actor.{is_human}
use keelage.Core.Level.{l0, l1}
use keelage.Core.ScopeKey.{ScopeKey, key_eq, contains}
use keelage.Core.ScopeKey
use keelage.Core.ScopeKey.Containment.{Covers}
use keelage.Core.Context.{DecideContext}
use keelage.Harness.Constraint.State.{
  ConstraintKind, ConstraintState, Constraint, no_constraint, ConstraintCmd, DraftConstraint,
  PromoteConstraint, DemoteConstraint, ConstraintCommand, ConstraintEvent,
}
use keelage.Harness.Constraint.Decide.{promote, demote, decide, apply}
use keelage.Harness.Constraint.Lifecycle.{IsSound, IsWellFormed, run_constraint-IsSound}
use keelage.Harness.Constraint.Widening.{promote-Covers, promote-demote}
use keelage.Tests.Values.{literal_std, alice, bot, team_scope, context}

abbrev cmd : ConstraintCmd
cmd = record { id = codes "k1"; idem = [] }

abbrev rule : DraftConstraint
rule = record {
  cmd = cmd;
  kind = ConstraintKind.rule;
  scope = team_scope;
  body = codes "no globals";
  checkable = [];
  origin = codes "j1" ∷ [];
  authored = false;
  explanation = [];
  level = l0;
  supersedes = [];
  anchors = [];
}

abbrev repo_scope : ScopeKey
repo_scope = record team_scope { path_glob = [] }

abbrev widening : PromoteConstraint
widening = record {
  cmd = cmd;
  to_scope = repo_scope;
  origin = codes "j2" ∷ [];
  explanation = codes "seen twice";
}

abbrev narrowing : DemoteConstraint
narrowing = record { cmd = cmd; to_scope = team_scope; reason = codes "too wide" }

abbrev history : List (ConstraintCommand × DecideContext)
history =
    (ConstraintCommand.draft rule, context bot 1 l1)
    ∷ (ConstraintCommand.verify cmd, context alice 2 l1)
    ∷ (ConstraintCommand.promote widening, context alice 3 l1)
    ∷ []

run_constraint-IsSound_example : IsSound (run decide apply no_constraint history)
run_constraint-IsSound_example = run_constraint-IsSound history

abbrev verified_rule : Constraint
verified_rule = record no_constraint {
  id = codes "k1";
  kind = ConstraintKind.rule;
  scope = team_scope;
  body = codes "no globals";
  origin = codes "j1" ∷ [];
  state = ConstraintState.verified;
  updated_at = 2;
}

verified_rule-IsWellFormed : IsWellFormed verified_rule
unfolding ScopeKey.validate text_eq contains_any
verified_rule-IsWellFormed = record {
  id = refl;
  kind = refl;
  scope = refl;
  body = refl;
  source = refl;
  anchors = refl;
  level = λ a. ground arith;
}

abbrev promoted : ConstraintEvent
promoted = ConstraintEvent.constraint_promoted (record {
  id = codes "k1";
  from = team_scope;
  to = repo_scope;
  origin = codes "j1" ∷ codes "j2" ∷ [];
  explanation = codes "seen twice";
  by = alice;
  at = 3;
})

promotes : promote verified_rule widening (context alice 3 l1) ≡ ok (promoted ∷ [])
unfolding promote ScopeKey.validate text_eq contains_any contains key_eq is_human
promotes = refl

promote-Covers_example :
    (is_human alice ≡ true)
    × (((replay apply verified_rule (promoted ∷ [])).state ≡ ConstraintState.verified)
        × (Covers (replay apply verified_rule (promoted ∷ [])).scope team_scope
            × ((key_eq (replay apply verified_rule (promoted ∷ [])).scope team_scope ≡ false)
                × (((replay apply verified_rule (promoted ∷ [])).origin
                      ≡ (codes "j1" ∷ []) ++ (codes "j2" ∷ []))
                    × (is_nil (replay apply verified_rule (promoted ∷ [])).origin ≡ false)))))
promote-Covers_example =
    promote-Covers verified_rule widening (context alice 3 l1) (promoted ∷ []) promotes

promote-demote_example :
    (back : List ConstraintEvent) × ((demote
          (replay apply verified_rule (promoted ∷ []))
          narrowing
          (context bot 4 l1)
        ≡ ok back)
      × (((replay apply (replay apply verified_rule (promoted ∷ [])) back).scope ≡ team_scope)
          × (((replay apply (replay apply verified_rule (promoted ∷ [])) back).state
                ≡ ConstraintState.verified)
              × ((replay apply (replay apply verified_rule (promoted ∷ [])) back).origin
                  ≡ (codes "j1" ∷ []) ++ (codes "j2" ∷ [])))))
promote-demote_example =
    promote-demote verified_rule widening (context alice 3 l1) (promoted ∷ []) narrowing
      (context bot 4 l1) verified_rule-IsWellFormed promotes refl refl

abbrev retired_rule : Constraint
retired_rule = record verified_rule { state = ConstraintState.retired }
