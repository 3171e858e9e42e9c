-- ===== src/Tests/Scopes.antt =====
-- A scope that is raised, regresses and is lowered.
use keelage.Prelude.{◌≡◌, refl, true, inl, List, [], ◌∷◌, arith}
use keelage.Prelude.Int.{pos, leb_ℤ, eqb_ℤ, ◌≤ℤ◌}
use keelage.Prelude.Text.{codes, text_eq, contains_any}
use keelage.Core.Event.{ok, replay}
use keelage.Core.Aggregate.{run}
use keelage.Core.Actor.{is_human}
use keelage.Core.Level.{l0, l1, l2, Level, transition, Trigger, valid}
use keelage.Core.ScopeKey
use keelage.Core.Context.{DecideContext}
use keelage.Harness.Scope.State.{
  Scope, new_scope, ScopeCmd, SetAutonomy, RecordRegression, ScopeCommand, ScopeEvent, Evidence,
}
use keelage.Harness.Scope.Decide.{
  changed, check_raise, move_level, set_autonomy, regress_events, regress, decide, apply,
}
use keelage.Harness.Scope.Autonomy.{IsSound, run_scope-IsSound}
use keelage.Harness.Scope.Demotion.{
  IsRaise, set_autonomy-IsRaise, regress_refutes_evidence, lowering_keeps_last_demoted_at,
}
use keelage.Tests.Values.{literal_std, alice, bot, team_scope, context}

abbrev cmd : ScopeCmd
cmd = record { key = team_scope; idem = [] }

abbrev evidence : Evidence
evidence = record { since = 0; outcomes = pos 3; regressions = pos 0 }

abbrev set_to : Level → SetAutonomy
set_to l = record { cmd = cmd; level = l; change_ref = codes "c1"; evidence = evidence }

abbrev regression_cmd : RecordRegression
regression_cmd = record { cmd = cmd; change_ref = codes "c2" }

abbrev history : List (ScopeCommand × DecideContext)
history =
    (ScopeCommand.set_autonomy (set_to l1), context alice 1 l0)
    ∷ (ScopeCommand.record_regression regression_cmd, context bot 2 l0)
    ∷ []

run_scope-IsSound_example : IsSound (run decide apply (new_scope team_scope) history)
run_scope-IsSound_example = run_scope-IsSound team_scope history

abbrev raised_to : Level → ScopeEvent
raised_to l = changed team_scope l0 l Trigger.promote (codes "c1") (context alice 1 l0)

raises :
    set_autonomy (new_scope team_scope) (set_to l1) (context alice 1 l0) ≡ ok (raised_to l1 ∷ [])
unfolding set_autonomy move_level check_raise ScopeKey.validate contains_any text_eq valid is_human
    leb_ℤ eqb_ℤ transition
raises = refl

set_autonomy-IsRaise_example :
    (is_human alice ≡ true)
    × ((l1 ≤ℤ (new_scope team_scope).cap)
        × IsRaise (new_scope team_scope) (set_to l1) (context alice 1 l0))
set_autonomy-IsRaise_example =
    set_autonomy-IsRaise (new_scope team_scope) (set_to l1) (context alice 1 l0) (raised_to l1 ∷ [])
      raises (λ h. omega arith)

abbrev raised_scope : Scope
raised_scope = record (new_scope team_scope) { level = l2 }

regresses :
    regress raised_scope regression_cmd (context bot 2 l0)
    ≡ ok (regress_events raised_scope regression_cmd (context bot 2 l0))
unfolding regress ScopeKey.validate contains_any text_eq
regresses = refl

abbrev regressed_scope : Scope
regressed_scope =
    replay apply raised_scope (regress_events raised_scope regression_cmd (context bot 2 l0))

regress_refutes_evidence_example :
    ¬ (set_autonomy regressed_scope (set_to l2) (context alice 3 l0) ≡ ok (raised_to l2 ∷ []))
unfolding replay apply regress_events transition eqb_ℤ
regress_refutes_evidence_example =
    regress_refutes_evidence raised_scope regression_cmd (context bot 2 l0)
      (regress_events raised_scope regression_cmd (context bot 2 l0)) (set_to l2)
      (context alice 3 l0) (raised_to l2 ∷ []) regresses (λ h. omega arith) (omega arith)

abbrev lowered : ScopeEvent
lowered = changed team_scope l2 l0 Trigger.promote (codes "c1") (context alice 4 l0)

lowers : set_autonomy raised_scope (set_to l0) (context alice 4 l0) ≡ ok (lowered ∷ [])
unfolding set_autonomy move_level ScopeKey.validate contains_any text_eq valid is_human leb_ℤ eqb_ℤ
lowers = refl

-- A human lowers the level at time 4, and the time of the last demotion stays 0.
lowering_keeps_last_demoted_at_example :
    (replay apply raised_scope (lowered ∷ [])).last_demoted_at ≡ 0
lowering_keeps_last_demoted_at_example =
    lowering_keeps_last_demoted_at raised_scope (context alice 4 l0) (lowered ∷ [])
      (inl (set_to l0, lowers))
