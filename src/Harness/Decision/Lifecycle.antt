-- ===== src/Harness/Decision/Lifecycle.antt =====
-- internal/core/harness/decision.go: how the states of a decision follow one another.
use keelage.Prelude.{
  ◌≡◌, refl, true, false, ◌&&◌, ◌⊎◌, inl, inr, List, [], ◌∷◌, all, arith, Bool-cases,
}
use keelage.Prelude.Text.{Text, is_empty, text_eq, text_eq_iff}
use keelage.Core.Event.{ok, replay}
use keelage.Core.Std.{Std}
use keelage.Core.Actor.{Ident, is_zero, is_human}
use keelage.Core.ScopeKey
use keelage.Core.Anchor.{is_anchor}
use keelage.Core.Context.{DecideContext}
use keelage.Harness.Decision.State.{
  DecisionState, Decision, DraftDecision, DecisionCmd, DecisionCommand, DecisionEvent,
}
use keelage.Harness.Decision.Decide.{is_absent, is_retired, decide, apply}

-- One accepted command: what it does to a decision, and under which conditions.
pub data Step : Decision → DecideContext → Decision → Type 0 where
  drafted :
      {d d' : Decision} {ctx : DecideContext}
      → d.state ≡ DecisionState.absent
      → d'.state ≡ DecisionState.generated
      → Step d ctx d'
  verified :
      {d : Decision} {ctx : DecideContext}
      → d.state ≡ DecisionState.generated
      → is_human ctx.actor ≡ true
      → Step d ctx (record d { state = DecisionState.verified; updated_at = ctx.now })
  revised :
      {d : Decision} {ctx : DecideContext} (title body : Text)
      → (d.state ≡ DecisionState.generated) ⊎ (d.state ≡ DecisionState.verified)
      → ¬ ((title ≡ d.title) × (body ≡ d.body))
      → Step d ctx (record d {
        title = title;
        body = body;
        state = DecisionState.generated;
        updated_at = ctx.now;
      })
  unchanged : {d : Decision} {ctx : DecideContext} → Step d ctx d
  retired :
      {d : Decision} {ctx : DecideContext} (by : Text)
      → (d.state ≡ DecisionState.generated) ⊎ (d.state ≡ DecisionState.verified)
      → Step d ctx
          (record d { state = DecisionState.retired; superseded_by = by; updated_at = ctx.now })

active :
    (s : DecisionState)
    → is_absent s ≡ false
    → is_retired s ≡ false
    → (s ≡ DecisionState.generated) ⊎ (s ≡ DecisionState.verified)
active DecisionState.absent a r = ground arith
active DecisionState.generated a r = inl refl
active DecisionState.verified a r = inr refl
active DecisionState.retired a r = ground arith

-- What `draft` has passed.
pub record IsWellFormed ⦃go : Std⦄ (d : Decision) : Type 0 where
  pub id : is_zero d.id ≡ false
  pub title : is_empty d.title ≡ false
  pub body : is_empty d.body ≡ false
  pub scope : ScopeKey.is_valid d.scope ≡ true
  pub anchors : all is_anchor d.anchors ≡ true

module _ ⦃go : Std⦄ where
  pub drafts :
      (d : Decision) (m : DraftDecision) (ctx : DecideContext) {evs : List DecisionEvent}
      → decide d (DecisionCommand.draft m) ctx ≡ ok evs
      → (d.state ≡ DecisionState.absent)
        × (((replay apply d evs).state ≡ DecisionState.generated)
            × IsWellFormed (replay apply d evs))
  unfolding decide replay apply
  drafts d m ctx h = (
    ground arith,
    (
      ground arith,
      record {
        id = ground arith;
        title = ground arith;
        body = ground arith;
        scope = ground arith;
        anchors = ground arith;
      },
    ),
  )

  pub verifies :
      (d : Decision) (cmd : DecisionCmd) (ctx : DecideContext) {evs : List DecisionEvent}
      → decide d (DecisionCommand.verify cmd) ctx ≡ ok evs
      → (d.state ≡ DecisionState.generated)
        × ((is_human ctx.actor ≡ true)
            × (evs ≡ DecisionEvent.decision_verified d.id ctx.actor ctx.now ∷ []))
  unfolding decide
  verifies d cmd ctx h = (ground arith, (ground arith, ground arith))

  pub revises :
      (d : Decision) (cmd : DecisionCmd) (title body : Text) (ctx : DecideContext)
      {evs : List DecisionEvent}
      → decide d (DecisionCommand.revise cmd title body) ctx ≡ ok evs
      → ((d.state ≡ DecisionState.generated) ⊎ (d.state ≡ DecisionState.verified))
        × ((evs ≡ [])
            ⊎ ((¬ ((title ≡ d.title) × (body ≡ d.body)))
                × ((is_empty title ≡ false)
                    × ((is_empty body ≡ false)
                        × (evs
                            ≡ DecisionEvent.decision_revised d.id title body ctx.actor ctx.now
                              ∷ [])))))
  unfolding decide
  revises d cmd title body ctx h = (
    active d.state (ground arith) (ground arith),
    elim (Bool-cases (text_eq title d.title && text_eq body d.body)) [
      | inl same ↦ inl (ground arith)
      | inr other ↦ inr (
        λ (t, b). ground (arith, text_eq_iff title d.title, text_eq_iff body d.body),
        (ground arith, (ground arith, ground arith)),
      )
    ],
  )

  pub retires :
      (d : Decision) (cmd : DecisionCmd) (ctx : DecideContext) {evs : List DecisionEvent}
      → decide d (DecisionCommand.retire cmd) ctx ≡ ok evs
      → ((d.state ≡ DecisionState.generated) ⊎ (d.state ≡ DecisionState.verified))
        × (evs ≡ DecisionEvent.decision_retired d.id ctx.now ∷ [])
  unfolding decide
  retires d cmd ctx h = (active d.state (ground arith) (ground arith), ground arith)

  pub supersedes :
      (d : Decision) (cmd : DecisionCmd) (by : Ident) (ctx : DecideContext)
      {evs : List DecisionEvent}
      → decide d (DecisionCommand.supersede cmd by) ctx ≡ ok evs
      → ((d.state ≡ DecisionState.generated) ⊎ (d.state ≡ DecisionState.verified))
        × (evs ≡ DecisionEvent.decision_superseded d.id by ctx.now ∷ [])
  unfolding decide
  supersedes d cmd by ctx h = (active d.state (ground arith) (ground arith), ground arith)

  -- Every accepted command is a step: it drafts a decision that is absent, verifies a generated one
  -- by a human, revises an active one to another text that is to be verified again, leaves it as it
  -- is, or retires an active one.
  pub decide-Step :
      (d : Decision) (cmd : DecisionCommand) (ctx : DecideContext) (evs : List DecisionEvent)
      → decide d cmd ctx ≡ ok evs
      → Step d ctx (replay apply d evs)
  unfolding decide replay apply
  decide-Step d (DecisionCommand.draft m) ctx evs h = let k = drafts d m ctx h in drafted k.0 k.1.0
  decide-Step d (DecisionCommand.verify cmd) ctx evs h =
      let k = verifies d cmd ctx h in rw k.1.1 (verified k.0 k.1.0)
  decide-Step d (DecisionCommand.revise cmd title body) ctx evs h =
      let k = revises d cmd title body ctx h in
      elim k.1 [
        | inl nothing ↦ rw nothing unchanged
        | inr (other, (_, (_, one))) ↦ rw one (revised title body k.0 other)
      ]
  decide-Step d (DecisionCommand.supersede cmd by) ctx evs h =
      let k = supersedes d cmd by ctx h in rw k.1 (retired by k.0)
  decide-Step d (DecisionCommand.retire cmd) ctx evs h =
      let k = retires d cmd ctx h in rw k.1 (retired d.superseded_by k.0)
  decide-Step d (DecisionCommand.other kind) ctx evs h = ground arith
