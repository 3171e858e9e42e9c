-- ===== src/Core/Aggregate.antt =====
-- internal/core/event.go, `Root`: an aggregate, and streams of commands sent to it.
use keelage.Prelude.{◌≡◌, inl, inr, List, [], ◌∷◌}
use keelage.Core.Event.{Result, ok, err, replay, Result-cases}

module _ {ℓ} {S C X E : Type ℓ} (decide : S → C → X → Result (List E)) (apply : S → E → S) where
  -- The state that a `Decide` leads to.
  abbrev pub resume : S → Result (List E) → S
  resume s (ok evs) = replay apply s evs
  resume s (err _) = s

  unfoldable pub after : S → C → X → S
  after s cmd ctx = resume s (decide s cmd ctx)

  -- Commands one after another, each with the context that it is decided in.
  unfoldable pub run : S → List (C × X) → S
  run s [] = s
  run s ((cmd, ctx) ∷ history) = run (after s cmd ctx) history

  -- What holds of the state before, and after the events of an accepted command, holds after it.
  pub after_elim {κ} :
      (P : S → Type κ) (s : S) (cmd : C) (ctx : X)
      → P s
      → ((evs : List E) → decide s cmd ctx ≡ ok evs → P (replay apply s evs))
      → P (after s cmd ctx)
  unfolding after
  after_elim P s cmd ctx h k = elim (Result-cases (decide s cmd ctx)) [
    | inl (evs, e) ↦ rw e (k evs e)
    | inr (r, e) ↦ rw e h
  ]

  module _ {κ} (P : S → Type κ)
      (step : (s : S) (cmd : C) (ctx : X) → P s → P (after s cmd ctx)) where
    pub run_induction : (s : S) (history : List (C × X)) → P s → P (run s history)
    unfolding run
    run_induction s [] h = h
    run_induction s ((cmd, ctx) ∷ history) h =
        run_induction (after s cmd ctx) history (step s cmd ctx h)
