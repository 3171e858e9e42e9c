-- ===== src/Realization/Anchor/Decide.antt =====
-- internal/core/realization/anchor.go: `Decide` and `Apply` of an anchor.
use keelage.Prelude.{Bool, true, false, not, ◌&&◌, List, [], ◌∷◌, if◌then◌else◌}
use keelage.Prelude.Int.{succ_64}
use keelage.Prelude.Text.{text_eq}
use keelage.Core.Event.{Rejection, Result, ok, err, reject_if, ◌>>◌}
use keelage.Core.Std.{Std}
use keelage.Core.Anchor.{is_anchor}
use keelage.Core.Hash3.{no_hash, HashChange, cmp, hash_eq}
use keelage.Core.Context.{DecideContext}
use keelage.Realization.Anchor.State.{
  AnchorState, Anchor, no_anchor, RecordAnchor, VerifyAnchor, MoveAnchor, AnchorCommand,
  AnchorEvent,
}

abbrev pub is_absent : AnchorState → Bool
is_absent AnchorState.absent = true
is_absent _ = false

abbrev pub is_stale : AnchorState → Bool
is_stale AnchorState.stale = true
is_stale _ = false

abbrev pub is_unrealized : AnchorState → Bool
is_unrealized AnchorState.unrealized = true
is_unrealized _ = false

-- `record`.
unfoldable pub record_baseline :
    ⦃go : Std⦄ → Anchor → RecordAnchor → DecideContext → Result (List AnchorEvent)
record_baseline a m ctx = do
  reject_if (not (is_anchor m.cmd.key)) Rejection.invalid
  reject_if (hash_eq m.hash no_hash) Rejection.invalid
  ok (
      if not (is_absent a.state) && (hash_eq a.hash m.hash && not (is_unrealized a.state))
      then []
      else (AnchorEvent.anchor_recorded (record {
        key = m.cmd.key;
        hash = m.hash;
        commit = m.commit;
        by = ctx.actor;
        at = ctx.now;
      })
          ∷ []))

-- The event `AnchorStaled` of a verification.
abbrev pub staled : Anchor → VerifyAnchor → DecideContext → AnchorState → HashChange → AnchorEvent
staled a m ctx next cause = AnchorEvent.anchor_staled (record {
  key = a.key;
  state = next;
  cause = cause;
  old = a.hash;
  new = m.current;
  commit = m.commit;
  at = ctx.now;
})

abbrev pub matched : Anchor → VerifyAnchor → DecideContext → HashChange → AnchorEvent
matched a m ctx change =
    AnchorEvent.anchor_verified
      (record { key = a.key; hash = m.current; change = change; commit = m.commit; at = ctx.now })

-- The `switch` of `verify` on the change.
unfoldable pub stage : Anchor → VerifyAnchor → DecideContext → HashChange → List AnchorEvent
stage a m ctx HashChange.hash_none = matched a m ctx HashChange.hash_none ∷ []
stage a m ctx HashChange.hash_file = matched a m ctx HashChange.hash_file ∷ []
stage a m ctx HashChange.hash_body =
    if is_stale a.state then [] else staled a m ctx AnchorState.review HashChange.hash_body ∷ []
stage a m ctx HashChange.hash_signature =
    staled a m ctx AnchorState.stale HashChange.hash_signature ∷ []

-- `verify`.
unfoldable pub verify : Anchor → VerifyAnchor → DecideContext → Result (List AnchorEvent)
verify a m ctx = do
  reject_if (is_absent a.state) Rejection.not_found
  ok (
      if not m.exists
      then (if is_unrealized a.state
          then []
          else staled a m ctx AnchorState.unrealized HashChange.hash_signature ∷ [])
      else stage a m ctx (cmp a.hash m.current))

-- `move`.
unfoldable pub move : ⦃go : Std⦄ → Anchor → MoveAnchor → DecideContext → Result (List AnchorEvent)
move a m ctx = do
  reject_if (is_absent a.state) Rejection.not_found
  reject_if (not (is_anchor m.to)) Rejection.invalid
  reject_if (text_eq m.to a.key) Rejection.invalid
  reject_if (not (text_eq m.hash.signature a.hash.signature)) Rejection.not_a_move
  ok (
      AnchorEvent.anchor_moved
        (record { key = a.key; to = m.to; hash = m.hash; commit = m.commit; at = ctx.now })
      ∷ [])

-- `Decide`.
unfoldable pub decide :
    ⦃go : Std⦄ → Anchor → AnchorCommand → DecideContext → Result (List AnchorEvent)
decide a (AnchorCommand.record_anchor m) ctx = record_baseline a m ctx
decide a (AnchorCommand.verify_anchor m) ctx = verify a m ctx
decide a (AnchorCommand.move_anchor m) ctx = move a m ctx
decide a (AnchorCommand.other kind) ctx = err Rejection.unknown_command

-- `Apply`.
unfoldable pub apply : Anchor → AnchorEvent → Anchor
apply a (AnchorEvent.anchor_recorded v) = record no_anchor {
  key = v.key;
  hash = v.hash;
  state = AnchorState.recorded;
  commit = v.commit;
  updated_at = v.at;
  verifies = a.verifies;
  staled = a.staled;
}
apply a (AnchorEvent.anchor_verified v) = record a {
  hash = v.hash;
  state = AnchorState.verified;
  commit = v.commit;
  updated_at = v.at;
  verifies = succ_64 a.verifies;
}
apply a (AnchorEvent.anchor_staled v) = record a {
  state = v.state;
  updated_at = v.at;
  staled = succ_64 a.staled;
}
apply a (AnchorEvent.anchor_moved v) = record a { moved_to = v.to; updated_at = v.at }
apply a (AnchorEvent.other kind) = a
