-- ===== src/Tests/Anchors.antt =====
-- An anchor whose code drifts.
use keelage.Prelude.{◌≡◌, refl, true, false, List, [], ◌∷◌}
use keelage.Prelude.Text.{codes}
use keelage.Core.Event.{ok, replay}
use keelage.Core.Level.{l1}
use keelage.Core.Hash3.{Hash3}
use keelage.Core.Context.{DecideContext}
use keelage.Realization.Anchor.State.{
  AnchorState, Anchor, no_anchor, AnchorCmd, VerifyAnchor, AnchorCommand, AnchorEvent,
}
use keelage.Realization.Anchor.Decide.{verify, apply}
use keelage.Realization.Anchor.Staging.{Stages, verify-Stages}
use keelage.Tests.Values.{literal_std, bot, context}

abbrev cmd : AnchorCmd
cmd = record { key = codes "ui://Button"; idem = [] }

abbrev recorded_hash : Hash3
recorded_hash = record { signature = codes "s"; body = codes "b"; file = codes "f" }

abbrev drifted_hash : Hash3
drifted_hash = record { signature = codes "s"; body = codes "c"; file = codes "g" }

abbrev recorded : Anchor
recorded = record no_anchor {
  key = codes "ui://Button";
  hash = recorded_hash;
  state = AnchorState.recorded;
}

abbrev look : VerifyAnchor
look = record { cmd = cmd; current = drifted_hash; exists = true; commit = [] }

verify-Stages_example :
    (evs : List AnchorEvent) × ((verify recorded look (context bot 2 l1) ≡ ok evs)
      × Stages AnchorState.recorded true recorded_hash drifted_hash
          (replay apply recorded evs).state)
verify-Stages_example = verify-Stages recorded look (context bot 2 l1) refl

-- Another body: the anchor is up for review, and its baseline stays.
abbrev history : List (AnchorCommand × DecideContext)
history =
    (AnchorCommand.verify_anchor look, context bot 2 l1)
    ∷ (AnchorCommand.verify_anchor (record look { exists = false }), context bot 3 l1)
    ∷ []
