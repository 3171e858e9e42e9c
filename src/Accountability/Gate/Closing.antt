-- ===== src/Accountability/Gate/Closing.antt =====
-- internal/core/accountability/gate.go: closed gates, and the time of closing.
use keelage.Prelude.{◌≤◌, ◌≡◌, refl, Bool, true, false, ◌↔◌, List, [], ◌∷◌, arith}
use keelage.Core.Event.{ok, replay}
use keelage.Core.Aggregate.{after, run}
use keelage.Core.Std.{Std}
use keelage.Core.Context.{DecideContext}
use keelage.Accountability.Gate.State.{GateState, Resolution, Gate, GateCommand, GateEvent}
use keelage.Accountability.Gate.Decide.{is_open, request, resolve, expire, decide, apply}
use keelage.Accountability.Gate.Lifecycle.{resolve-Resolves}

-- An answered or expired gate.
abbrev pub is_closed : GateState → Bool
is_closed GateState.decided = true
is_closed GateState.resolved = true
is_closed GateState.expired = true
is_closed _ = false

module _ ⦃go : Std⦄ where
  after_closed :
      (g : Gate) (cmd : GateCommand) (ctx : DecideContext)
      → is_closed g.state ≡ true
      → after decide apply g cmd ctx ≡ g
  unfolding after decide request resolve expire replay
  after_closed g (GateCommand.request_gate m) ctx h = ground arith
  after_closed g (GateCommand.resolve_gate _ r) ctx h = ground arith
  after_closed g (GateCommand.expire_gate _) ctx h = ground arith
  after_closed g (GateCommand.other _) ctx h = refl

  -- A gate that was decided, resolved or has expired is final: no sequence of commands changes it.
  pub run_closed :
      (g : Gate) (history : List (GateCommand × DecideContext))
      → is_closed g.state ≡ true
      → run decide apply g history ≡ g
  unfolding run
  run_closed g [] h = refl
  run_closed g ((cmd, ctx) ∷ history) h = rw (after_closed g cmd ctx h) (run_closed g history h)

late_resolution :
    (g : Gate) (r : Resolution) (ctx : DecideContext) (evs : List GateEvent)
    → g.expires_at ≤ ctx.now
    → resolve g r ctx ≡ ok evs
    → ⊥
late_resolution g r ctx evs late h =
    let k = resolve-Resolves g r ctx h in let in_time = k.in_time in omega arith

-- The expiry worker and a human never both succeed at one time: while the gate is open, `expire`
-- is accepted exactly from the expiry time on, and then every resolution is refused.
pub resolve_or_expire :
    (g : Gate) (r : Resolution) (ctx : DecideContext)
    → is_open g.state ≡ true
    → ((expire g ctx ≡ ok (GateEvent.gate_expired g.id ctx.now ∷ [])) ↔ (g.expires_at ≤ ctx.now))
      × (¬ ((g.expires_at ≤ ctx.now) × ((evs : List GateEvent) × (resolve g r ctx ≡ ok evs))))
unfolding expire
resolve_or_expire g r ctx o =
    ((λ h. ground arith, λ t. ground arith), λ (late, (evs, h)). late_resolution g r ctx evs late h)
