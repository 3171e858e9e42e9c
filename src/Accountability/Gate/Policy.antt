-- ===== src/Accountability/Gate/Policy.antt =====
-- internal/core/accountability/gate.go: the broker's policy, decision by decision.
use keelage.Prelude.{◌≡◌, ◌≢◌, ◌⊎◌, ◌↔◌, [], arith}
use keelage.Prelude.Int.{leb_ℤ_iff, ◌≤ℤ◌, ◌<ℤ◌}
use keelage.Core.Level.{Level}
use keelage.Core.Context.{DecideContext}
use keelage.Accountability.Gate.State.{GateDecision}
use keelage.Accountability.Gate.Decide.{policy}

-- When the broker allows: within the cap and the effective level, with no other owner involved.
pub record MayAllow (ctx : DecideContext) (requested : Level) : Type 0 where
  pub within_cap : requested ≤ℤ ctx.cap
  pub unowned : ctx.judges ≡ []
  pub within_level : requested ≤ℤ ctx.autonomy

-- When it asks a human: within the cap, but an owner is involved or the level does not suffice.
pub record MustAsk (ctx : DecideContext) (requested : Level) : Type 0 where
  pub within_cap : requested ≤ℤ ctx.cap
  pub needed : (ctx.judges ≢ []) ⊎ (ctx.autonomy <ℤ requested)

allow_iff :
    (ctx : DecideContext) (requested : Level)
    → ((policy ctx requested).0 ≡ GateDecision.allow) ↔ MayAllow ctx requested
unfolding policy
allow_iff ctx requested = (
  λ h. record {
    within_cap = ground (arith, leb_ℤ_iff requested ctx.cap);
    unowned = ground arith;
    within_level = ground (arith, leb_ℤ_iff requested ctx.autonomy);
  },
  λ m. ground (
    arith,
    m.within_cap,
    m.unowned,
    m.within_level,
    leb_ℤ_iff requested ctx.cap,
    leb_ℤ_iff requested ctx.autonomy,
  ),
)

deny_iff :
    (ctx : DecideContext) (requested : Level)
    → ((policy ctx requested).0 ≡ GateDecision.deny) ↔ (ctx.cap <ℤ requested)
unfolding policy
deny_iff ctx requested = (
  λ h. ground (arith, leb_ℤ_iff requested ctx.cap),
  λ m. ground (arith, leb_ℤ_iff requested ctx.cap),
)

ask_iff :
    (ctx : DecideContext) (requested : Level)
    → ((policy ctx requested).0 ≡ GateDecision.ask) ↔ MustAsk ctx requested
unfolding policy
ask_iff ctx requested = (
  λ h. record {
    within_cap = ground (arith, leb_ℤ_iff requested ctx.cap);
    needed = ground (arith, leb_ℤ_iff requested ctx.autonomy);
  },
  λ m. ground (
    arith,
    m.within_cap,
    m.needed,
    leb_ℤ_iff requested ctx.cap,
    leb_ℤ_iff requested ctx.autonomy,
  ),
)

-- The broker denies exactly what is above the cap; it allows exactly what is within the cap and the
-- effective level while no other owner is involved; and it asks a human about the rest.
pub policy_decisions :
    (ctx : DecideContext) (requested : Level)
    → (((policy ctx requested).0 ≡ GateDecision.deny) ↔ (ctx.cap <ℤ requested))
      × (((policy ctx requested).0 ≡ GateDecision.allow) ↔ MayAllow ctx requested)
      × (((policy ctx requested).0 ≡ GateDecision.ask) ↔ MustAsk ctx requested)
policy_decisions ctx requested =
    (deny_iff ctx requested, allow_iff ctx requested, ask_iff ctx requested)
