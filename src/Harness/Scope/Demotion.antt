-- ===== src/Harness/Scope/Demotion.antt =====
-- internal/core/harness/scope.go: raises of the level, regressions and the time of the last
-- demotion.
use keelage.Prelude.{◌≤◌, ◌<◌, ◌≡◌, refl, true, false, ◌⊎◌, inl, inr, List, arith, sym, Bool-cases}
use keelage.Prelude.Int.{pos, ≤ℤ_total, ltb_ℤ, eqb_ℤ, leb_ℤ_iff, eqb_ℤ_iff, ◌≤ℤ◌, ◌<ℤ◌, ≤ℤ_refl}
use keelage.Prelude.Text.{text_eq_refl}
use keelage.Core.Event.{ok, replay}
use keelage.Core.Std.{Std}
use keelage.Core.Actor.{is_zero, is_human}
use keelage.Core.Level.{Trigger, transition}
use keelage.Core.Context.{DecideContext}
use keelage.Harness.Scope.State.{Scope, SetAutonomy, SetCap, RecordRegression, ScopeEvent}
use keelage.Harness.Scope.Decide.{
  check_raise, move_level, set_autonomy, cap_events, set_cap, regression, regress_events, regress,
  apply,
}
use keelage.Harness.Scope.Autonomy.{set_autonomy-Sets, regress_event_lem, cap_event_cases}

-- What a raise of the level has passed.
pub record IsRaise (s : Scope) (m : SetAutonomy) (ctx : DecideContext) : Type 0 where
  pub change_ref : is_zero m.change_ref ≡ false
  pub one_step : m.level ≡ (transition s.level Trigger.promote).0
  pub fresh : s.last_demoted_at ≤ m.evidence.since
  pub no_regressions : m.evidence.regressions ≤ℤ pos 0
  pub outcomes : ctx.policy.promotion_min_outcomes ≤ℤ m.evidence.outcomes

raised :
    (s : Scope) (m : SetAutonomy) (ctx : DecideContext) {evs : List ScopeEvent}
    → move_level s m ctx ≡ ok evs
    → s.level <ℤ m.level
    → check_raise s m ctx ≡ ok tt
unfolding move_level
raised s m ctx h up = elim (≤ℤ_total s.level m.level) [
  | inl le ↦
      let not_lower = (leb_ℤ_iff s.level m.level).1 le in
      elim (Bool-cases (eqb_ℤ m.level s.level)) [
        | inl same ↦ absurd (up (rw ((eqb_ℤ_iff m.level s.level).0 same) (≤ℤ_refl s.level)))
        | inr other ↦ ground arith
      ]
  | inr ge ↦ absurd (up ge)
]

check_raise-IsRaise :
    (s : Scope) (m : SetAutonomy) (ctx : DecideContext)
    → check_raise s m ctx ≡ ok tt
    → IsRaise s m ctx
unfolding check_raise
check_raise-IsRaise s m ctx h = record {
  change_ref = ground arith;
  one_step = ground (arith, eqb_ℤ_iff m.level (transition s.level Trigger.promote).0);
  fresh = ground arith;
  no_regressions = ground (arith, leb_ℤ_iff m.evidence.regressions (pos 0));
  outcomes = ground (arith, leb_ℤ_iff ctx.policy.promotion_min_outcomes m.evidence.outcomes);
}

-- A `set_autonomy` that is accepted for a level above the present one was sent by a human, names a
-- change, rises by the one step that the table of transitions gives and within the cap, and rests
-- on evidence that is no older than the last demotion, has no regression and has the outcomes that
-- the policy asks for.
pub set_autonomy-IsRaise :
    ⦃go : Std⦄
    → (s : Scope) (m : SetAutonomy) (ctx : DecideContext) (evs : List ScopeEvent)
    → set_autonomy s m ctx ≡ ok evs
    → s.level <ℤ m.level
    → (is_human ctx.actor ≡ true) × ((m.level ≤ℤ s.cap) × IsRaise s m ctx)
set_autonomy-IsRaise s m ctx evs h up =
    let k = set_autonomy-Sets s m ctx h in
    (k.human, (k.within_cap, check_raise-IsRaise s m ctx (raised s m ctx k.move up)))

regressed :
    (s : Scope) (m : RecordRegression) (ctx : DecideContext)
    → let next = replay apply s (regress_events s m ctx) in
      (next.level ≡ (transition s.level Trigger.regress).0) × (ctx.now ≤ next.last_demoted_at)
unfolding replay apply regress_events
regressed s m ctx =
    let to = (transition s.level Trigger.regress).0 in
    elim (Bool-cases (eqb_ℤ to s.level)) [
      | inl same ↦
          rw (same, text_eq_refl regression) ((sym ((eqb_ℤ_iff to s.level).0 same)), ground arith)
      | inr down ↦ rw (down, text_eq_refl regression) (refl, ground arith)
    ]

-- An accepted regression leaves the scope at the level that the table of transitions gives, and at
-- a time of last demotion that is not before the command's.
pub regressed_by :
    ⦃go : Std⦄
    → (s : Scope) (r : RecordRegression) (ctx : DecideContext) (evs : List ScopeEvent)
    → regress s r ctx ≡ ok evs
    → ((replay apply s evs).level ≡ (transition s.level Trigger.regress).0)
      × (ctx.now ≤ (replay apply s evs).last_demoted_at)
regressed_by s r ctx evs h = rw (regress_event_lem s r ctx h) (regressed s r ctx)

-- After an accepted regression no raise is accepted on evidence that starts before the regression,
-- with no other command between the two.
pub regress_refutes_evidence :
    ⦃go : Std⦄
    → (s : Scope) (r : RecordRegression) (ctx : DecideContext) (evs : List ScopeEvent)
    → (m : SetAutonomy) (later : DecideContext) (raise : List ScopeEvent) → regress s r ctx ≡ ok evs
    → (replay apply s evs).level <ℤ m.level
    → m.evidence.since < ctx.now
    → ¬ (set_autonomy (replay apply s evs) m later ≡ ok raise)
regress_refutes_evidence s r ctx evs m later raise h up old accepted =
    let k = set_autonomy-IsRaise (replay apply s evs) m later raise accepted up in
    let fresh = k.1.1.fresh in let (_, at) = regressed_by s r ctx evs h in omega arith

set_autonomy_keeps :
    ⦃go : Std⦄
    → (s : Scope) (m : SetAutonomy) (ctx : DecideContext) (evs : List ScopeEvent)
    → set_autonomy s m ctx ≡ ok evs
    → (replay apply s evs).last_demoted_at ≡ s.last_demoted_at
unfolding replay apply
set_autonomy_keeps s m ctx evs h = elim (set_autonomy-Sets s m ctx h).events [
  | inl (nothing, _) ↦ rw nothing refl
  | inr one ↦ rw one refl
]

cap_events_keep :
    (s : Scope) (m : SetCap) (ctx : DecideContext)
    → (replay apply s (cap_events s m ctx)).last_demoted_at ≡ s.last_demoted_at
unfolding replay apply cap_events
cap_events_keep s m ctx = elim (Bool-cases (ltb_ℤ m.cap s.level)) [
  | inl low ↦ rw low refl
  | inr fits ↦ rw fits refl
]

-- Neither `set_autonomy` nor `set_cap` moves the time of the last demotion, also where they lower
-- the level.
pub lowering_keeps_last_demoted_at :
    ⦃go : Std⦄
    → (s : Scope) (ctx : DecideContext) (evs : List ScopeEvent)
    → ((m : SetAutonomy) × (set_autonomy s m ctx ≡ ok evs))
      ⊎ ((m : SetCap) × (set_cap s m ctx ≡ ok evs))
    → (replay apply s evs).last_demoted_at ≡ s.last_demoted_at
unfolding replay
lowering_keeps_last_demoted_at s ctx evs (inl (m, h)) = set_autonomy_keeps s m ctx evs h
lowering_keeps_last_demoted_at s ctx evs (inr (m, h)) = elim (cap_event_cases s m ctx h) [
  | inl nothing ↦ rw nothing refl
  | inr some_events ↦ rw some_events (cap_events_keep s m ctx)
]
