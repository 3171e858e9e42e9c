-- ===== src/Accountability/Change/Settlement.antt =====
-- internal/core/accountability/change.go: the order of the states of a change, and its settlement.
use keelage.Prelude.{
  ◌+◌, ◌≤◌, ◌≡◌, ◌≢◌, refl, true, false, ◌⊎◌, inl, inr, ◌↔◌, Option, none, some, List, [], ◌∷◌,
  arith,
}
use keelage.Prelude.Int.{leb_ℤ_iff, ◌≤ℤ◌}
use keelage.Core.Event.{ok, replay}
use keelage.Core.Aggregate.{after, after_elim, run}
use keelage.Core.Std.{Std}
use keelage.Core.Actor.{Ident, is_agent}
use keelage.Core.Level.{l2}
use keelage.Core.Context.{DecideContext}
use keelage.Accountability.Change.State.{
  ChangeState, Deployment, Change, ChangeCommand, ChangeEvent, impact_is_empty,
}
use keelage.Accountability.Change.Rules.{exists, is_judgeable, is_settled, is_deployed}
use keelage.Accountability.Change.Cleared.{IsCleared, judgments_allow_iff}
use keelage.Accountability.Change.Accepted.{
  open-Opens, judge-Judges, deploy-Deploys, settle-Settles, record_outcome-Records,
  add_proposal-Adds,
}
use keelage.Accountability.Change.Decide.{
  window_open, may_settle, settle_impact, settle, decide, apply,
}

-- The diagram of the states: proposed, judged (as often as needed), deployed, observed, settled.
-- An observation may be left out, and a change outside the harness skips what it does not need.
infix 40 ◌⟶◌
pub data ◌⟶◌ : ChangeState → ChangeState → Type 0 where
  opens : ChangeState.absent ⟶ ChangeState.proposed
  proposes : {s : ChangeState} → is_judgeable s ≡ true → s ⟶ s
  judges : {s : ChangeState} → is_judgeable s ≡ true → s ⟶ ChangeState.judged
  deploys : {s : ChangeState} → is_judgeable s ≡ true → s ⟶ ChangeState.deployed
  observes : ChangeState.deployed ⟶ ChangeState.observed
  settles :
      {s : ChangeState} → s ≢ ChangeState.absent → s ≢ ChangeState.settled → s ⟶ ChangeState.settled

from_absent : (s t : ChangeState) → s ≡ ChangeState.absent → t ≡ ChangeState.proposed → s ⟶ t
from_absent s t p q = rw (p, q) opens

-- states as the tests read them
absent_of : (c : Change) → exists c ≡ false → c.state ≡ ChangeState.absent
absent_of c h = ground arith

deployed_of : (c : Change) → is_deployed c.state ≡ true → c.state ≡ ChangeState.deployed
deployed_of c h = ground arith

module _ ⦃go : Std⦄ where
  -- Every accepted command moves the state along an edge of the diagram.
  pub decide-⟶ :
      (c : Change) (cmd : ChangeCommand) (ctx : DecideContext) (evs : List ChangeEvent)
      → decide c cmd ctx ≡ ok evs
      → c.state ⟶ (replay apply c evs).state
  unfolding decide replay apply
  decide-⟶ c (ChangeCommand.open_change m) ctx evs h =
      let k = open-Opens c m ctx h in rw k.event (rw (absent_of c (ground (arith, k.absent))) opens)
  decide-⟶ c (ChangeCommand.add_proposal _ p) ctx evs h =
      let k = add_proposal-Adds c p h in rw k.event (proposes k.state)
  decide-⟶ c (ChangeCommand.judge _ j) ctx evs h =
      let k = judge-Judges c j h in rw k.event (judges k.state)
  decide-⟶ c (ChangeCommand.deploy _ ref) ctx evs h =
      let k = deploy-Deploys c ref ctx h in rw k.event (deploys k.state)
  decide-⟶ c (ChangeCommand.record_outcome _ o) ctx evs h =
      let k = record_outcome-Records c o ctx h in rw k.event (rw (deployed_of c k.state) observes)
  decide-⟶ c (ChangeCommand.settle _ derived) ctx evs h =
      let k = settle-Settles c derived ctx h in
      rw k.event (settles (ground (arith, k.exists)) (ground (arith, k.unsettled)))
  decide-⟶ c (ChangeCommand.other _) ctx evs h = absurd (ground arith)

  no_edge : (s t : ChangeState) → s ≡ ChangeState.settled → s ⟶ t → ⊥
  no_edge s t e opens = cc
  no_edge s t e (proposes j) = ground arith
  no_edge s t e (judges j) = ground arith
  no_edge s t e (deploys j) = ground arith
  no_edge s t e observes = cc
  no_edge s t e (settles a b) = b e

  after_settled :
      (c : Change) (cmd : ChangeCommand) (ctx : DecideContext)
      → c.state ≡ ChangeState.settled
      → after decide apply c cmd ctx ≡ c
  after_settled c cmd ctx e =
      after_elim decide apply (λ s. s ≡ c) c cmd ctx refl
        (λ evs h. absurd (no_edge c.state _ e (decide-⟶ c cmd ctx evs h)))

  -- A settled change is final: no sequence of commands, in any contexts, changes anything of it.
  pub run_settled :
      (c : Change) (history : List (ChangeCommand × DecideContext))
      → c.state ≡ ChangeState.settled
      → run decide apply c history ≡ c
  unfolding run
  run_settled c [] e = refl
  run_settled c ((cmd, ctx) ∷ history) e = rw (after_settled c cmd ctx e) (run_settled c history e)

-- The change was observed, or it was deployed and its outcome window is over.
abbrev pub HasWaited : Change → DecideContext → Type 0
HasWaited c ctx =
    (c.state ≡ ChangeState.observed)
    ⊎ ((c.state ≡ ChangeState.deployed)
        × ((d : Deployment) × (c.deployment ≡ some d)
            × (d.at + ctx.policy.outcome_window ≤ ctx.now)))

-- What the settlement of a change with impact demands.
pub record MaySettle (c : Change) (ctx : DecideContext) : Type 0 where
  pub waited : HasWaited c ctx
  pub cleared : IsCleared c ctx c.judgments
  pub actor : is_agent ctx.actor ≡ true → l2 ≤ℤ c.autonomy_applied

window_over :
    (o : Option Deployment) (ctx : DecideContext)
    → window_open o ctx ≡ false
    → (d : Deployment) × (o ≡ some d) × (d.at + ctx.policy.outcome_window ≤ ctx.now)
window_over none ctx h = absurd (ground arith)
window_over (some d) ctx h = (d, refl, ground arith)

waited_of :
    (s : ChangeState) (c : Change) (ctx : DecideContext)
    → c.state ≡ s
    → may_settle s c ctx ≡ ok tt
    → HasWaited c ctx
unfolding may_settle
waited_of ChangeState.observed c ctx e h = inl e
waited_of ChangeState.deployed c ctx e h = inr (e, window_over c.deployment ctx (ground arith))
waited_of _ c ctx e h = absurd (ground arith)

may_settle_of :
    (c : Change) (ctx : DecideContext) → HasWaited c ctx → may_settle c.state c ctx ≡ ok tt
unfolding may_settle
may_settle_of c ctx (inl e) = rw e refl
may_settle_of c ctx (inr (e, (d, some_d, over))) = rw e (ground arith)

settle_impact_of :
    (c : Change) (derived : List Ident) (ctx : DecideContext)
    → MaySettle c ctx
    → settle_impact c derived ctx ≡ ok (ChangeEvent.settled c.id derived ctx.now ∷ [])
unfolding settle_impact
settle_impact_of c derived ctx m =
    rw (may_settle_of c ctx m.waited, (judgments_allow_iff c ctx).1 m.cleared)
      (ground (arith, m.actor, leb_ℤ_iff l2 c.autonomy_applied))

waiting_exists :
    (c : Change) (ctx : DecideContext)
    → HasWaited c ctx
    → (exists c ≡ true) × (is_settled c.state ≡ false)
waiting_exists c ctx w = ground arith

-- A change with impact settles exactly when it was observed or its outcome window is over, its
-- judgments allow it, and the one who settles it is no agent or its autonomy is L2 or above; the
-- event then names the derived objects of the command and the time of the context.
pub settle_iff :
    (c : Change) (derived : List Ident) (ctx : DecideContext)
    → impact_is_empty c.impact ≡ false
    → (settle c derived ctx ≡ ok (ChangeEvent.settled c.id derived ctx.now ∷ [])) ↔ MaySettle c ctx
settle_iff c derived ctx i = (
  λ h.
      let k = settle-Settles c derived ctx h in
      record {
        waited = waited_of c.state c ctx refl (k.waited i);
        cleared = k.cleared i;
        actor = k.actor i;
      },
  λ m.
      let (x, u) = waiting_exists c ctx m.waited in
      unfold settle in rw (x, u, i) (settle_impact_of c derived ctx m),
)
