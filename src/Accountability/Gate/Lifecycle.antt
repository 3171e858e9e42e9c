-- ===== src/Accountability/Gate/Lifecycle.antt =====
-- internal/core/accountability/gate.go: who asked, and who answered.
use keelage.Prelude.{
  ◌≤◌, ◌<◌, ◌≡◌, ◌≢◌, refl, true, false, ◌⊎◌, inl, inr, Option, none, some, List, [], ◌∷◌, arith,
  Bool-cases,
}
use keelage.Prelude.Text.{Text, is_empty}
use keelage.Core.Event.{ok, replay}
use keelage.Core.Aggregate.{after_elim, run, run_induction}
use keelage.Core.Std.{Std}
use keelage.Core.Actor.{Ident, is_agent, is_human, IsAccountable, validate-IsAccountable}
use keelage.Core.Actor
use keelage.Core.Level.{Level, valid, valid-IsLevel, IsLevel}
use keelage.Core.Context.{DecideContext, requires_judge}
use keelage.Accountability.Gate.State.{
  GateDecision, GateState, Resolution, Gate, no_gate, RequestGate, GateCommand, GateEvent,
}
use keelage.Accountability.Gate.Decide.{
  policy, is_ask, is_answer, is_absent, is_open, answer, check_request, request, stamped, resolve,
  expire, decide, apply,
}

-- What a gate's answer by a human carries.
pub record IsAnswer (r : Resolution) : Type 0 where
  pub decision : is_answer r.decision ≡ true
  pub human : is_human r.by ≡ true
  pub actor : IsAccountable r.by
  pub reason : is_empty r.reason ≡ false

abbrev pub Answered : Option Resolution → GateDecision → Type 0
Answered none d = ⊥
Answered (some r) d = IsAnswer r × (d ≡ r.decision)

-- What holds of a gate in each state.
abbrev pub Holds : GateState → Gate → Type 0
Holds GateState.absent g = Unit
Holds GateState.decided g = is_answer g.decision ≡ true
Holds GateState.open_gate g = g.decision ≡ GateDecision.ask
Holds GateState.resolved g = Answered g.resolution g.decision
Holds GateState.expired g = g.decision ≡ GateDecision.ask

pub record IsSound (g : Gate) : Type 0 where
  pub state : Holds g.state g
  pub asked : is_absent g.state ≡ false → (is_agent g.actor ≡ true) × IsAccountable g.actor
  pub level : is_absent g.state ≡ false → IsLevel g.requested_level

-- What an accepted request has passed.
pub record Asks (m : RequestGate) : Type 0 where
  pub agent : is_agent m.actor ≡ true
  pub actor : IsAccountable m.actor
  pub level : IsLevel m.requested_level

validated :
    ⦃go : Std⦄ → (m : RequestGate) → check_request m ≡ ok tt → Actor.validate m.actor ≡ ok tt
unfolding check_request
validated m h = ground arith

levelled : ⦃go : Std⦄ → (m : RequestGate) → check_request m ≡ ok tt → valid m.requested_level ≡ true
unfolding check_request
levelled m h = ground arith

check_request-Asks : ⦃go : Std⦄ → (m : RequestGate) → check_request m ≡ ok tt → Asks m
unfolding check_request
check_request-Asks m h = record {
  agent = ground arith;
  actor = validate-IsAccountable m.actor (validated m h);
  level = valid-IsLevel m.requested_level (levelled m h);
}

-- A policy answers by allow, deny or ask only.
policy_answers :
    (ctx : DecideContext) (l : Level)
    → is_ask (policy ctx l).0 ≡ false
    → is_answer (policy ctx l).0 ≡ true
unfolding policy
policy_answers ctx l h = ground arith

answer-IsSound :
    (g : Gate) (m : RequestGate) (ctx : DecideContext) (d : GateDecision) (ref : Text)
    → Asks m
    → (is_ask d ≡ false → is_answer d ≡ true)
    → IsSound (apply g (answer m ctx (d, ref)))
unfolding apply
answer-IsSound g m ctx d ref a p = elim (Bool-cases (is_ask d)) [
  | inl e ↦ rw e (record { state = refl; asked = λ _. (a.agent, a.actor); level = λ _. a.level })
  | inr e ↦ rw e (record { state = p e; asked = λ _. (a.agent, a.actor); level = λ _. a.level })
]

-- What an accepted resolution has passed.
pub record Resolves (g : Gate) (r : Resolution) (ctx : DecideContext) (evs : List GateEvent)
    : Type 0 where
  pub event : evs ≡ GateEvent.gate_resolved g.id (stamped r ctx.now) ∷ []
  pub state : is_open g.state ≡ true
  pub answer : IsAnswer r
  pub judge : ctx.judges ≢ [] → requires_judge ctx r.by.id ≡ true
  pub in_time : ctx.now < g.expires_at

resolver_valid :
    (g : Gate) (r : Resolution) (ctx : DecideContext) {evs : List GateEvent}
    → resolve g r ctx ≡ ok evs
    → Actor.validate r.by ≡ ok tt
unfolding resolve
resolver_valid g r ctx h = ground arith

pub resolve-Resolves :
    (g : Gate) (r : Resolution) (ctx : DecideContext) {evs : List GateEvent}
    → resolve g r ctx ≡ ok evs
    → Resolves g r ctx evs
unfolding resolve
resolve-Resolves g r ctx h = record {
  event = ground arith;
  state = ground arith;
  answer = record {
    decision = ground arith;
    human = ground arith;
    actor = validate-IsAccountable r.by (resolver_valid g r ctx h);
    reason = ground arith;
  };
  judge = λ n. ground arith;
  in_time = ground arith;
}

pub record Expires (g : Gate) (ctx : DecideContext) (evs : List GateEvent) : Type 0 where
  pub events :
      (evs ≡ [])
      ⊎ ((evs ≡ GateEvent.gate_expired g.id ctx.now ∷ [])
          × ((is_open g.state ≡ true) × (g.expires_at ≤ ctx.now)))

expire-Expires :
    (g : Gate) (ctx : DecideContext) {evs : List GateEvent}
    → expire g ctx ≡ ok evs
    → Expires g ctx evs
unfolding expire
expire-Expires g ctx h = record { events = ground arith }

open_asks : (g : Gate) → Holds g.state g → is_open g.state ≡ true → g.decision ≡ GateDecision.ask
open_asks g h o = go g.state h o
  where
    go : (s : GateState) → Holds s g → is_open s ≡ true → g.decision ≡ GateDecision.ask
    go GateState.open_gate h o = h
    go GateState.absent h o = cc
    go _ h o = cc

open_present : (s : GateState) → is_open s ≡ true → is_absent s ≡ false
open_present s h = ground arith

module _ ⦃go : Std⦄ where
  checked :
      (g : Gate) (m : RequestGate) (ctx : DecideContext) {evs : List GateEvent}
      → request g m ctx ≡ ok evs
      → (evs ≡ [])
        ⊎ ((is_absent g.state ≡ true)
            × ((check_request m ≡ ok tt)
                × (evs ≡ answer m ctx (policy ctx m.requested_level) ∷ [])))
  unfolding request
  checked g m ctx h = ground arith

  request-IsSound :
      (g : Gate) (m : RequestGate) (ctx : DecideContext) (evs : List GateEvent)
      → IsSound g
      → request g m ctx ≡ ok evs
      → IsSound (replay apply g evs)
  unfolding replay
  request-IsSound g m ctx evs s h = elim (checked g m ctx h) [
    | inl none_new ↦ rw none_new s
    | inr (_, (c, one)) ↦ rw one (
        answer-IsSound g m ctx (policy ctx m.requested_level).0 (policy ctx m.requested_level).1
          (check_request-Asks m c) (policy_answers ctx m.requested_level))
  ]

resolve-IsSound :
    (g : Gate) (r : Resolution) (ctx : DecideContext) (evs : List GateEvent)
    → IsSound g
    → resolve g r ctx ≡ ok evs
    → IsSound (replay apply g evs)
unfolding replay apply
resolve-IsSound g r ctx evs s h =
    let k = resolve-Resolves g r ctx h in
    rw k.event (record {
      state = (
        record {
          decision = k.answer.decision;
          human = k.answer.human;
          actor = k.answer.actor;
          reason = k.answer.reason;
        },
        refl,
      );
      asked = λ _. s.asked (open_present g.state k.state);
      level = λ _. s.level (open_present g.state k.state);
    })

expire-IsSound :
    (g : Gate) (ctx : DecideContext) (evs : List GateEvent)
    → IsSound g
    → expire g ctx ≡ ok evs
    → IsSound (replay apply g evs)
unfolding replay apply
expire-IsSound g ctx evs s h = elim (expire-Expires g ctx h).events [
  | inl none_new ↦ rw none_new s
  | inr (one, (o, _)) ↦ rw one (record {
    state = open_asks g s.state o;
    asked = λ _. s.asked (open_present g.state o);
    level = λ _. s.level (open_present g.state o);
  })
]

module _ ⦃go : Std⦄ where
  decide-IsSound :
      (g : Gate) (cmd : GateCommand) (ctx : DecideContext) (evs : List GateEvent)
      → IsSound g
      → decide g cmd ctx ≡ ok evs
      → IsSound (replay apply g evs)
  unfolding decide
  decide-IsSound g (GateCommand.request_gate m) ctx evs s h = request-IsSound g m ctx evs s h
  decide-IsSound g (GateCommand.resolve_gate _ r) ctx evs s h = resolve-IsSound g r ctx evs s h
  decide-IsSound g (GateCommand.expire_gate _) ctx evs s h = expire-IsSound g ctx evs s h
  decide-IsSound g (GateCommand.other _) ctx evs s h = cc

  -- Whatever commands a gate is sent: it was asked by an accountable agent for a level in range; one
  -- that was decided at once holds an allow or a deny, one that is open or has expired still asks,
  -- and one that is resolved holds the answer of an accountable human, allow or deny, with a reason.
  pub run_gate-IsSound :
      (history : List (GateCommand × DecideContext)) → IsSound (run decide apply no_gate history)
  run_gate-IsSound history =
      run_induction decide apply IsSound
        (λ g cmd ctx s.
          after_elim decide apply IsSound g cmd ctx s (λ evs h. decide-IsSound g cmd ctx evs s h))
        no_gate history (record { state = tt; asked = λ a. cc; level = λ a. cc })
