-- ===== src/Core/Event.antt =====
-- internal/core/event.go: refusals, what `Decide` returns, and `Replay`.
use keelage.Prelude.{Bool, true, false, List, [], ◌∷◌, ◌++◌, ◌≡◌, refl, ◌⊎◌, inl, inr}

-- The codes that the program passes to `core.Reject`. The reason, a message for people that
-- `fmt.Sprintf` formats, is left out.
pub data Rejection : Type 0 where
  unknown_command unauthenticated : Rejection
  exists invalid not_found bad_state duplicate : Rejection
  no_intent no_reason no_origin no_explanation no_derivation no_change : Rejection
  autonomy human_only human_required agent_only owner_required not_a_judge : Rejection
  unjudged rejected observing expired not_yet : Rejection
  over_cap one_step stale_evidence regressed insufficient_evidence : Rejection
  not_wider not_narrower not_a_move : Rejection

-- A value, or the refusal: Go's pair of a result and an `error`.
pub data Result {ℓ} (A : Type ℓ) : Type ℓ where
  ok : A → Result A
  err : Rejection → Result A

-- `v, err := m; if err != nil { return err }`, then the rest.
infixl 5 ◌>>=◌ ◌>>◌
abbrev pub ◌>>=◌ {κ ℓ} : {V : Type κ} {W : Type ℓ} → Result V → (V → Result W) → Result W
err code >>= rest = err code
ok value >>= rest = rest value

-- The same after a check, which has no value.
abbrev pub ◌>>◌ {κ} : {W : Type κ} → Result (Unit {0}) → Result W → Result W
check >> rest = check >>= λ _. rest

pub Result-cases {ℓ} :
    {A : Type ℓ} (r : Result A) → ((a : A) × (r ≡ ok a)) ⊎ ((e : Rejection) × (r ≡ err e))
Result-cases (ok a) = inl (a, refl)
Result-cases (err e) = inr (e, refl)

-- `if cond { return nil, core.Reject(code, …) }`.
abbrev pub reject_if : Bool → Rejection → Result (Unit {0})
reject_if true r = err r
reject_if false r = ok tt

module _ {ℓ κ} {S : Type ℓ} {E : Type κ} (apply : S → E → S) where
  -- `Replay`: the fold of `Apply` over the events.
  unfoldable pub replay : S → List E → S
  replay zero [] = zero
  replay zero (e ∷ evs) = replay (apply zero e) evs

  pub replay-append :
      (s : S) (evs later : List E) → replay s (evs ++ later) ≡ replay (replay s evs) later
  unfolding replay
  replay-append s [] later = refl
  replay-append s (e ∷ evs) later = replay-append (apply s e) evs later
