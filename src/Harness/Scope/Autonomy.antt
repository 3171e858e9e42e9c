-- ===== src/Harness/Scope/Autonomy.antt =====
-- internal/core/harness/scope.go: the range of a scope's level and cap.
use keelage.Prelude.{zero, suc, ◌≡◌, true, ◌⊎◌, inl, inr, List, [], ◌∷◌, arith, Bool-cases}
use keelage.Prelude.Int.{pos, negsuc, ltb_ℤ, eqb_ℤ, leb_ℤ_iff, eqb_ℤ_iff, ◌≤ℤ◌, ≤ℤ_trans, ≤ℤ_refl}
use keelage.Core.Event.{ok, replay}
use keelage.Core.Aggregate.{after_elim, run, run_induction}
use keelage.Core.Std.{Std}
use keelage.Core.Actor.{is_human}
use keelage.Core.Level.{Level, l0, max_level, valid, valid-IsLevel, IsLevel, Trigger, transition}
use keelage.Core.ScopeKey.{ScopeKey}
use keelage.Core.Context.{DecideContext}
use keelage.Harness.Scope.State.{
  Scope, new_scope, SetAutonomy, SetCap, RecordRegression, ScopeCommand, ScopeEvent,
}
use keelage.Harness.Scope.Decide.{
  changed, move_level, set_autonomy, cap_events, set_cap, regress_events, regress, decide, apply,
}

pub record IsSound (s : Scope) : Type 0 where
  pub level : l0 ≤ℤ s.level
  pub below_cap : s.level ≤ℤ s.cap
  pub cap : s.cap ≤ℤ max_level

-- the level that a regression leads to
pub regress-le :
    (l : Level)
    → l0 ≤ℤ l
    → (l0 ≤ℤ (transition l Trigger.regress).0) × ((transition l Trigger.regress).0 ≤ℤ l)
unfolding transition
regress-le (pos zero) h = omega arith
regress-le (pos (suc zero)) h = omega arith
regress-le (pos (suc (suc zero))) h = omega arith
regress-le (pos (suc (suc (suc zero)))) h = omega arith
regress-le (pos (suc (suc (suc (suc n))))) h = omega arith
regress-le (negsuc n) h = absurd h

-- What an accepted `setAutonomy` has passed.
pub record Sets (s : Scope) (m : SetAutonomy) (ctx : DecideContext) (evs : List ScopeEvent)
    : Type 0 where
  pub valid_level : valid m.level ≡ true
  pub human : is_human ctx.actor ≡ true
  pub within_cap : m.level ≤ℤ s.cap
  pub events :
      ((evs ≡ []) × (m.level ≡ s.level))
      ⊎ (evs ≡ changed m.cmd.key s.level m.level Trigger.promote m.change_ref ctx ∷ [])
  pub move : move_level s m ctx ≡ ok evs

move_events :
    (s : Scope) (m : SetAutonomy) (ctx : DecideContext) {evs : List ScopeEvent}
    → move_level s m ctx ≡ ok evs
    → ((evs ≡ []) × (m.level ≡ s.level))
      ⊎ (evs ≡ changed m.cmd.key s.level m.level Trigger.promote m.change_ref ctx ∷ [])
unfolding move_level
move_events s m ctx h = ground (arith, eqb_ℤ_iff m.level s.level)

module _ ⦃go : Std⦄ where
  moved :
      (s : Scope) (m : SetAutonomy) (ctx : DecideContext) {evs : List ScopeEvent}
      → set_autonomy s m ctx ≡ ok evs
      → move_level s m ctx ≡ ok evs
  unfolding set_autonomy
  moved s m ctx h = ground arith

  pub set_autonomy-Sets :
      (s : Scope) (m : SetAutonomy) (ctx : DecideContext) {evs : List ScopeEvent}
      → set_autonomy s m ctx ≡ ok evs
      → Sets s m ctx evs
  unfolding set_autonomy
  set_autonomy-Sets s m ctx h = record {
    valid_level = ground arith;
    human = ground arith;
    within_cap = ground (arith, leb_ℤ_iff m.level s.cap);
    events = move_events s m ctx (moved s m ctx h);
    move = moved s m ctx h;
  }

  set_autonomy-IsSound :
      (s : Scope) (m : SetAutonomy) (ctx : DecideContext) (evs : List ScopeEvent)
      → IsSound s
      → set_autonomy s m ctx ≡ ok evs
      → IsSound (replay apply s evs)
  unfolding replay apply
  set_autonomy-IsSound s m ctx evs i h =
      let k = set_autonomy-Sets s m ctx h in
      elim k.events [
        | inl (nothing, _) ↦ rw nothing i
        | inr one ↦ rw one (record {
          level = (valid-IsLevel m.level k.valid_level).0;
          below_cap = k.within_cap;
          cap = i.cap;
        })
      ]

  valid_cap :
      (s : Scope) (m : SetCap) (ctx : DecideContext) {evs : List ScopeEvent}
      → set_cap s m ctx ≡ ok evs
      → valid m.cap ≡ true
  unfolding set_cap
  valid_cap s m ctx h = ground arith

  pub cap_event_cases :
      (s : Scope) (m : SetCap) (ctx : DecideContext) {evs : List ScopeEvent}
      → set_cap s m ctx ≡ ok evs
      → (evs ≡ []) ⊎ (evs ≡ cap_events s m ctx)
  unfolding set_cap
  cap_event_cases s m ctx h = ground arith

  pub regress_event_lem :
      (s : Scope) (m : RecordRegression) (ctx : DecideContext) {evs : List ScopeEvent}
      → regress s m ctx ≡ ok evs
      → evs ≡ regress_events s m ctx
  unfolding regress
  regress_event_lem s m ctx h = ground arith

cap_events-IsSound :
    (s : Scope) (m : SetCap) (ctx : DecideContext)
    → IsSound s
    → IsLevel m.cap
    → IsSound (replay apply s (cap_events s m ctx))
unfolding replay apply cap_events
cap_events-IsSound s m ctx i (lo, hi) = elim (Bool-cases (ltb_ℤ m.cap s.level)) [
  | inl low ↦ rw low (record { level = lo; below_cap = ≤ℤ_refl m.cap; cap = hi })
  | inr fits ↦
      rw fits
        (record { level = i.level; below_cap = ground (arith, leb_ℤ_iff s.level m.cap); cap = hi })
]

regress_events-IsSound :
    (s : Scope) (m : RecordRegression) (ctx : DecideContext)
    → IsSound s
    → IsSound (replay apply s (regress_events s m ctx))
unfolding replay apply regress_events
regress_events-IsSound s m ctx i =
    let to = (transition s.level Trigger.regress).0 in
    let (lo, hi) = regress-le s.level i.level in
    elim (Bool-cases (eqb_ℤ to s.level)) [
      | inl same ↦ rw same (record { level = i.level; below_cap = i.below_cap; cap = i.cap })
      | inr down ↦
          rw down (record {
            level = lo;
            below_cap = ≤ℤ_trans to s.level s.cap hi i.below_cap;
            cap = i.cap;
          })
    ]

decide-IsSound :
    ⦃go : Std⦄
    → (s : Scope) (c : ScopeCommand) (ctx : DecideContext) (evs : List ScopeEvent) → IsSound s
    → decide s c ctx ≡ ok evs
    → IsSound (replay apply s evs)
unfolding decide replay
decide-IsSound s (ScopeCommand.set_autonomy m) ctx evs i h = set_autonomy-IsSound s m ctx evs i h
decide-IsSound s (ScopeCommand.set_cap m) ctx evs i h = elim (cap_event_cases s m ctx h) [
  | inl nothing ↦ rw nothing i
  | inr some_events ↦
      rw some_events (cap_events-IsSound s m ctx i (valid-IsLevel m.cap (valid_cap s m ctx h)))
]
decide-IsSound s (ScopeCommand.record_regression m) ctx evs i h =
    rw (regress_event_lem s m ctx h) (regress_events-IsSound s m ctx i)
decide-IsSound s (ScopeCommand.other kind) ctx evs i h = ground arith

-- Whatever commands a new scope is sent, its level is at least 0 and at most its cap, and its cap
-- is at most 3.
pub run_scope-IsSound :
    ⦃go : Std⦄
    → (key : ScopeKey) (cs : List (ScopeCommand × DecideContext))
    → IsSound (run decide apply (new_scope key) cs)
run_scope-IsSound key cs =
    run_induction decide apply IsSound
      (λ s c ctx i.
        after_elim decide apply IsSound s c ctx i (λ evs h. decide-IsSound s c ctx evs i h))
      (new_scope key) cs
      (record { level = omega arith; below_cap = omega arith; cap = omega arith })
