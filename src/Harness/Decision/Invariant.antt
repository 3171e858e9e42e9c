-- ===== src/Harness/Decision/Invariant.antt =====
-- internal/core/harness/decision.go: what holds of every decision that is replayed from its stream.
use keelage.Prelude.{◌≡◌, refl, true, ◌⊎◌, inl, inr, List, arith}
use keelage.Core.Event.{ok, replay}
use keelage.Core.Aggregate.{after_elim, run, run_induction}
use keelage.Core.Std.{Std}
use keelage.Core.Actor.{is_human}
use keelage.Core.Context.{DecideContext}
use keelage.Harness.Decision.State.{
  DecisionState, Decision, no_decision, DecisionCommand, DecisionEvent,
}
use keelage.Harness.Decision.Decide.{decide, apply}
use keelage.Harness.Decision.Lifecycle.{
  IsWellFormed, Step, drafts, verifies, revises, retires, supersedes, decide-Step,
}

module _ ⦃go : Std⦄ where
  -- An absent decision, or one with an id, a title, a body, a valid scope and anchors that parse.
  pub IsSound : Decision → Type 0
  IsSound d = (d.state ≡ DecisionState.absent) ⊎ IsWellFormed d

  present :
      (d : Decision)
      → IsSound d
      → (d.state ≡ DecisionState.generated) ⊎ (d.state ≡ DecisionState.verified)
      → IsWellFormed d
  unfolding IsSound
  present d (inl none) s = absurd (ground arith)
  present d (inr w) s = w

  decide-IsSound :
      (d : Decision) (cmd : DecisionCommand) (ctx : DecideContext) (evs : List DecisionEvent)
      → IsSound d
      → decide d cmd ctx ≡ ok evs
      → IsSound (replay apply d evs)
  unfolding IsSound replay apply decide
  decide-IsSound d (DecisionCommand.draft m) ctx evs i h = inr (drafts d m ctx h).1.1
  decide-IsSound d (DecisionCommand.verify cmd) ctx evs i h =
      let k = verifies d cmd ctx h in
      let w = present d i (inl k.0) in
      rw k.1.1 (
        inr (record {
          id = w.id;
          title = w.title;
          body = w.body;
          scope = w.scope;
          anchors = w.anchors;
        }))
  decide-IsSound d (DecisionCommand.revise cmd title body) ctx evs i h =
      let k = revises d cmd title body ctx h in
      let w = present d i k.0 in
      elim k.1 [
        | inl nothing ↦ rw nothing i
        | inr (_, (t, (b, one))) ↦
            rw one (
              inr (record { id = w.id; title = t; body = b; scope = w.scope; anchors = w.anchors }))
      ]
  decide-IsSound d (DecisionCommand.supersede cmd by) ctx evs i h =
      let k = supersedes d cmd by ctx h in
      let w = present d i k.0 in
      rw k.1 (
        inr (record {
          id = w.id;
          title = w.title;
          body = w.body;
          scope = w.scope;
          anchors = w.anchors;
        }))
  decide-IsSound d (DecisionCommand.retire cmd) ctx evs i h =
      let k = retires d cmd ctx h in
      let w = present d i k.0 in
      rw k.1 (
        inr (record {
          id = w.id;
          title = w.title;
          body = w.body;
          scope = w.scope;
          anchors = w.anchors;
        }))
  decide-IsSound d (DecisionCommand.other kind) ctx evs i h = ground arith

  -- Whatever commands a stream of a decision is sent, the decision is absent, or it has an id, a
  -- title, a body, a valid scope and anchors that all parse.
  pub run_decision-IsSound :
      (history : List (DecisionCommand × DecideContext))
      → IsSound (run decide apply no_decision history)
  unfolding IsSound
  run_decision-IsSound history =
      run_induction decide apply IsSound
        (λ d cmd ctx i.
          after_elim decide apply IsSound d cmd ctx i (λ evs h. decide-IsSound d cmd ctx evs i h))
        no_decision history (inl refl)

  step_text :
      {d d' : Decision} {ctx : DecideContext}
      → Step d ctx d'
      → d'.state ≡ DecisionState.verified
      → ((d'.title ≡ d.title) × (d'.body ≡ d.body))
        × ((d.state ≡ DecisionState.verified)
            ⊎ ((d.state ≡ DecisionState.generated) × (is_human ctx.actor ≡ true)))
  step_text (Step.drafted a g) v = absurd (ground arith)
  step_text (Step.verified g a) v = ((refl, refl), inr (g, a))
  step_text (Step.revised t b s n) v = absurd (ground arith)
  step_text Step.unchanged v = ((refl, refl), inl v)
  step_text (Step.retired by s) v = absurd (ground arith)

  -- A decision that an accepted command leaves verified has the title and the body that it had
  -- before, and was verified before or was verified now, by a human: no text is verified that a
  -- human did not see.
  pub verified_text :
      (d : Decision) (cmd : DecisionCommand) (ctx : DecideContext) (evs : List DecisionEvent)
      → decide d cmd ctx ≡ ok evs
      → (replay apply d evs).state ≡ DecisionState.verified
      → (((replay apply d evs).title ≡ d.title) × ((replay apply d evs).body ≡ d.body))
        × ((d.state ≡ DecisionState.verified)
            ⊎ ((d.state ≡ DecisionState.generated) × (is_human ctx.actor ≡ true)))
  verified_text d cmd ctx evs h v = step_text (decide-Step d cmd ctx evs h) v
