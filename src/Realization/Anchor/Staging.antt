-- ===== src/Realization/Anchor/Staging.antt =====
-- internal/core/realization/anchor.go: the stages of drift that a verification finds.
use keelage.Prelude.{
  ◌≡◌, ◌≢◌, refl, ap, Bool, true, false, inl, inr, List, [], ◌∷◌, Bool-cases, arith,
}
use keelage.Core.Event.{ok, replay}
use keelage.Core.Hash3.{Hash3, HashChange, cmp, Differs, cmp-Differs}
use keelage.Core.Context.{DecideContext}
use keelage.Realization.Anchor.State.{AnchorState, Anchor, VerifyAnchor, AnchorEvent}
use keelage.Realization.Anchor.Decide.{
  is_absent, is_stale, is_unrealized, staled, stage, verify, apply,
}

-- How the state of an anchor follows from the one before, from whether the code exists, and from
-- the recorded hash and the present one.
pub data Stages : AnchorState → Bool → Hash3 → Hash3 → AnchorState → Type 0 where
  gone : {s : AnchorState} {old new : Hash3} → Stages s false old new AnchorState.unrealized
  matches :
      {s : AnchorState} {old new : Hash3}
      → old.signature ≡ new.signature
      → old.body ≡ new.body
      → Stages s true old new AnchorState.verified
  body_changed :
      {s : AnchorState} {old new : Hash3}
      → is_stale s ≡ false
      → old.signature ≡ new.signature
      → old.body ≢ new.body
      → Stages s true old new AnchorState.review
  still_stale :
      {old new : Hash3}
      → old.signature ≡ new.signature
      → old.body ≢ new.body
      → Stages AnchorState.stale true old new AnchorState.stale
  signature_changed :
      {s : AnchorState} {old new : Hash3}
      → old.signature ≢ new.signature
      → Stages s true old new AnchorState.stale

is_stale_lem : (s : AnchorState) → is_stale s ≡ true → s ≡ AnchorState.stale
is_stale_lem s h = ground arith

is_unrealized_lem : (s : AnchorState) → is_unrealized s ≡ true → s ≡ AnchorState.unrealized
is_unrealized_lem s h = ground arith

stage-Stages :
    (a : Anchor) (m : VerifyAnchor) (ctx : DecideContext) (change : HashChange)
    → Differs change a.hash m.current
    → Stages a.state true a.hash m.current (replay apply a (stage a m ctx change)).state
unfolding replay apply stage
stage-Stages a m ctx HashChange.hash_none same =
    Stages.matches (ap (λ h. h.signature) same) (ap (λ h. h.body) same)
stage-Stages a m ctx HashChange.hash_file (s, b, _) = Stages.matches s b
stage-Stages a m ctx HashChange.hash_body (s, b) = elim (Bool-cases (is_stale a.state)) [
  | inl stale ↦ rw (is_stale_lem a.state stale) (Stages.still_stale s b)
  | inr other ↦ rw other (Stages.body_changed other s b)
]
stage-Stages a m ctx HashChange.hash_signature d = Stages.signature_changed d

-- A verification of an anchor that was recorded is accepted, and the stage that it leads to is the
-- one that the hashes say: unrealized where the code is gone; else verified where signature and body
-- are the recorded ones, review where only the body changed, unless the anchor is stale already and
-- stays so, and stale where the signature changed.
pub verify-Stages :
    (a : Anchor) (m : VerifyAnchor) (ctx : DecideContext)
    → is_absent a.state ≡ false
    → (evs : List AnchorEvent) × ((verify a m ctx ≡ ok evs)
        × Stages a.state m.exists a.hash m.current (replay apply a evs).state)
unfolding verify replay apply stage
verify-Stages a m ctx present = elim (Bool-cases m.exists) [
  | inl there ↦
      rw (present, there)
        (
          stage a m ctx (cmp a.hash m.current),
          (refl, stage-Stages a m ctx (cmp a.hash m.current) (cmp-Differs a.hash m.current)),
        )
  | inr missing ↦ elim (Bool-cases (is_unrealized a.state)) [
    | inl already ↦
        rw (present, missing, already)
          ([], (refl, rw (is_unrealized_lem a.state already) Stages.gone))
    | inr first ↦
        rw (present, missing, first)
          (
            staled a m ctx AnchorState.unrealized HashChange.hash_signature ∷ [],
            (refl, Stages.gone),
          )
  ]
]
