-- ===== src/Realization/Anchor/Baseline.antt =====
-- internal/core/realization/anchor.go: the baseline that drift is measured against.
use keelage.Prelude.{
  ◌≡◌, refl, sym, ap, ◌∙◌, Bool, true, false, ◌⊎◌, inl, inr, List, [], ◌∷◌, Bool-cases, All, arith,
}
use keelage.Core.Event.{ok, replay}
use keelage.Core.Aggregate.{after, after_elim, run}
use keelage.Core.Std.{Std}
use keelage.Core.Hash3.{HashChange, cmp, Differs, cmp-Differs}
use keelage.Core.Context.{DecideContext}
use keelage.Realization.Anchor.State.{
  AnchorState, Anchor, VerifyAnchor, MoveAnchor, AnchorCommand, AnchorEvent,
}
use keelage.Realization.Anchor.Decide.{is_stale, staled, stage, verify, move, decide, apply}

-- The baseline of `a'` is that of `a`.
pub record IsKept (a a' : Anchor) : Type 0 where
  pub key : a'.key ≡ a.key
  pub signature : a'.hash.signature ≡ a.hash.signature
  pub body : a'.hash.body ≡ a.hash.body

IsKept-refl : (a : Anchor) → IsKept a a
IsKept-refl a = record { key = refl; signature = refl; body = refl }

IsKept-trans : (a b c : Anchor) → IsKept a b → IsKept b c → IsKept a c
IsKept-trans a b c p q = record {
  key = q.key ∙ p.key;
  signature = q.signature ∙ p.signature;
  body = q.body ∙ p.body;
}

stage-IsKept :
    (a : Anchor) (m : VerifyAnchor) (ctx : DecideContext) (change : HashChange)
    → Differs change a.hash m.current
    → IsKept a (replay apply a (stage a m ctx change))
unfolding replay apply stage
stage-IsKept a m ctx HashChange.hash_none same = record {
  key = refl;
  signature = sym (ap (λ h. h.signature) same);
  body = sym (ap (λ h. h.body) same);
}
stage-IsKept a m ctx HashChange.hash_file (s, b, _) = record {
  key = refl;
  signature = sym s;
  body = sym b;
}
stage-IsKept a m ctx HashChange.hash_body _ = elim (Bool-cases (is_stale a.state)) [
  | inl stale ↦ rw stale (IsKept-refl a)
  | inr other ↦ rw other (record { key = refl; signature = refl; body = refl })
]
stage-IsKept a m ctx HashChange.hash_signature _ = record {
  key = refl;
  signature = refl;
  body = refl;
}

verify_cases :
    (a : Anchor) (m : VerifyAnchor) (ctx : DecideContext) {evs : List AnchorEvent}
    → verify a m ctx ≡ ok evs
    → (evs ≡ [])
      ⊎ ((evs ≡ staled a m ctx AnchorState.unrealized HashChange.hash_signature ∷ [])
          ⊎ (evs ≡ stage a m ctx (cmp a.hash m.current)))
unfolding verify
verify_cases a m ctx h = ground arith

module _ ⦃go : Std⦄ where
  move_lem :
      (a : Anchor) (m : MoveAnchor) (ctx : DecideContext) {evs : List AnchorEvent}
      → move a m ctx ≡ ok evs
      → evs
        ≡ AnchorEvent.anchor_moved
            (record { key = a.key; to = m.to; hash = m.hash; commit = m.commit; at = ctx.now })
          ∷ []
  unfolding move
  move_lem a m ctx h = ground arith

-- The commands that do not record.
abbrev pub keeps_baseline : AnchorCommand → Bool
keeps_baseline (AnchorCommand.record_anchor _) = false
keeps_baseline _ = true

module _ ⦃go : Std⦄ where
  decide-IsKept :
      (a : Anchor) (cmd : AnchorCommand) (ctx : DecideContext) (evs : List AnchorEvent)
      → keeps_baseline cmd ≡ true
      → decide a cmd ctx ≡ ok evs
      → IsKept a (replay apply a evs)
  unfolding decide replay apply
  decide-IsKept a (AnchorCommand.record_anchor m) ctx evs k h = absurd (ground arith)
  decide-IsKept a (AnchorCommand.verify_anchor m) ctx evs k h = elim (verify_cases a m ctx h) [
    | inl nothing ↦ rw nothing (IsKept-refl a)
    | inr (inl missing) ↦ rw missing (record { key = refl; signature = refl; body = refl })
    | inr (inr found) ↦
        rw found (stage-IsKept a m ctx (cmp a.hash m.current) (cmp-Differs a.hash m.current))
  ]
  decide-IsKept a (AnchorCommand.move_anchor m) ctx evs k h =
      rw (move_lem a m ctx h) (record { key = refl; signature = refl; body = refl })
  decide-IsKept a (AnchorCommand.other kind) ctx evs k h = ground arith

  -- Verifications and moves, however many, never move the baseline: the key, the signature and the
  -- body that drift is measured against stay those of the last `RecordAnchor`.
  pub run-keeps_baseline :
      (a : Anchor) (history : List (AnchorCommand × DecideContext))
      → All (λ step. keeps_baseline step.0 ≡ true) history
      → IsKept a (run decide apply a history)
  unfolding run
  run-keeps_baseline a [] h = IsKept-refl a
  run-keeps_baseline a ((cmd, ctx) ∷ history) (k, h) =
      let next = after decide apply a cmd ctx in
      IsKept-trans a next (run decide apply next history)
        (after_elim decide apply (IsKept a) a cmd ctx (IsKept-refl a)
          (λ evs e. decide-IsKept a cmd ctx evs k e))
        (run-keeps_baseline next history h)
