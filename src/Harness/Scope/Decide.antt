-- ===== src/Harness/Scope/Decide.antt =====
-- internal/core/harness/scope.go: `Decide` and `Apply` of a scope.
use keelage.Prelude.{Bool, true, false, not, ◌&&◌, List, [], ◌∷◌, if◌then◌else◌}
use keelage.Prelude.Int.{ltb_ℤ, eqb_ℤ, pos, succ_64}
use keelage.Prelude.Text.{Text, codes, text_eq}
use keelage.Core.Event.{Rejection, Result, ok, err, reject_if, ◌>>◌}
use keelage.Core.Std.{Std}
use keelage.Core.Actor.{Ident, is_zero, is_human}
use keelage.Core.Level.{Level, valid, Trigger, transition}
use keelage.Core.ScopeKey
use keelage.Core.Context.{before, DecideContext}
use keelage.Harness.Scope.State.{
  Scope, SetAutonomy, SetCap, RecordRegression, ScopeCommand, ScopeEvent,
}

-- The event `AutonomyChanged` of a command.
abbrev pub changed :
    ScopeKey.ScopeKey → Level → Level → Trigger → Ident → DecideContext → ScopeEvent
changed key from to trigger ref ctx = ScopeEvent.autonomy_changed (record {
  key = key;
  from = from;
  to = to;
  trigger = trigger;
  change_ref = ref;
  by = ctx.actor;
  at = ctx.now;
})

-- The tests of `setAutonomy` before it raises the level.
unfoldable pub check_raise : Scope → SetAutonomy → DecideContext → Result (Unit {0})
check_raise s m ctx = do
  reject_if (is_zero m.change_ref) Rejection.no_change
  reject_if (not (eqb_ℤ m.level (transition s.level Trigger.promote).0)) Rejection.one_step
  reject_if (before m.evidence.since s.last_demoted_at) Rejection.stale_evidence
  reject_if (ltb_ℤ (pos 0) m.evidence.regressions) Rejection.regressed
  reject_if (ltb_ℤ m.evidence.outcomes ctx.policy.promotion_min_outcomes)
      Rejection.insufficient_evidence

-- The rest of `setAutonomy`: stay, lower or raise.
unfoldable pub move_level : Scope → SetAutonomy → DecideContext → Result (List ScopeEvent)
move_level s m ctx =
    let event = changed m.cmd.key s.level m.level Trigger.promote m.change_ref ctx in
    if eqb_ℤ m.level s.level
    then ok []
    else if ltb_ℤ m.level s.level
    then ok (event ∷ [])
    else (do check_raise s m ctx; ok (event ∷ []))

-- `setAutonomy`.
unfoldable pub set_autonomy :
    ⦃go : Std⦄ → Scope → SetAutonomy → DecideContext → Result (List ScopeEvent)
set_autonomy s m ctx = do
  reject_if (not (ScopeKey.is_valid m.cmd.key)) Rejection.invalid
  reject_if (not (valid m.level)) Rejection.invalid
  reject_if (not (is_human ctx.actor)) Rejection.human_only
  reject_if (ltb_ℤ s.cap m.level) Rejection.over_cap
  move_level s m ctx

-- The events of a new cap: the level is lowered to fit.
unfoldable pub cap_events : Scope → SetCap → DecideContext → List ScopeEvent
cap_events s m ctx =
    ScopeEvent.cap_changed (record {
      key = m.cmd.key;
      from = s.cap;
      to = m.cap;
      change_ref = m.change_ref;
      by = ctx.actor;
      at = ctx.now;
    })
    ∷ (if ltb_ℤ m.cap s.level
        then changed m.cmd.key s.level m.cap Trigger.promote m.change_ref ctx ∷ []
        else [])

-- `setCap`.
unfoldable pub set_cap : ⦃go : Std⦄ → Scope → SetCap → DecideContext → Result (List ScopeEvent)
set_cap s m ctx = do
  reject_if (not (ScopeKey.is_valid m.cmd.key)) Rejection.invalid
  reject_if (not (valid m.cap)) Rejection.invalid
  reject_if (not (is_human ctx.actor)) Rejection.human_only
  reject_if (is_zero m.change_ref) Rejection.no_change
  if eqb_ℤ m.cap s.cap then ok [] else ok (cap_events s m ctx)

abbrev pub regression : Text
regression = codes "regression"

-- The events of a regression: one step down, if there is one, and an exception.
unfoldable pub regress_events : Scope → RecordRegression → DecideContext → List ScopeEvent
regress_events s m ctx =
    let to = (transition s.level Trigger.regress).0 in
    let raised = ScopeEvent.exception_raised (record {
      key = m.cmd.key;
      category = regression;
      change_ref = m.change_ref;
      level = to;
      at = ctx.now;
    }) in
    if not (eqb_ℤ to s.level)
    then changed m.cmd.key s.level to Trigger.regress m.change_ref ctx ∷ raised ∷ []
    else raised ∷ []

-- `regress`.
unfoldable pub regress :
    ⦃go : Std⦄ → Scope → RecordRegression → DecideContext → Result (List ScopeEvent)
regress s m ctx = do
  reject_if (not (ScopeKey.is_valid m.cmd.key)) Rejection.invalid
  ok (regress_events s m ctx)

-- `Decide`.
unfoldable pub decide : ⦃go : Std⦄ → Scope → ScopeCommand → DecideContext → Result (List ScopeEvent)
decide s (ScopeCommand.set_autonomy m) ctx = set_autonomy s m ctx
decide s (ScopeCommand.set_cap m) ctx = set_cap s m ctx
decide s (ScopeCommand.record_regression m) ctx = regress s m ctx
decide s (ScopeCommand.other kind) ctx = err Rejection.unknown_command

abbrev pub is_regress : Trigger → Bool
is_regress Trigger.regress = true
is_regress _ = false

-- `Apply`.
unfoldable pub apply : Scope → ScopeEvent → Scope
apply s (ScopeEvent.autonomy_changed v) = record s {
  key = v.key;
  level = v.to;
  initialized = true;
  updated_at = v.at;
  last_demoted_at = if is_regress v.trigger then v.at else s.last_demoted_at;
}
apply s (ScopeEvent.cap_changed v) = record s {
  key = v.key;
  cap = v.to;
  initialized = true;
  updated_at = v.at;
}
apply s (ScopeEvent.exception_raised v) = record s {
  regressions = succ_64 s.regressions;
  last_demoted_at =
      if text_eq v.category regression && before s.last_demoted_at v.at
      then v.at
      else s.last_demoted_at;
  updated_at = v.at;
}
apply s (ScopeEvent.other kind) = s
