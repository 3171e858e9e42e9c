-- ===== src/App/Pipeline/Refinement.antt =====
-- internal/app/pipeline.go: `handle` against the aggregate that it runs.
use keelage.Prelude.{ℕ, ◌≡◌, refl, false, none, some, List, [], arith}
use keelage.Core.Actor.{ActorRef}
use keelage.Core.Context.{DecideContext, Time}
use keelage.Core.Event.{ok, replay}
use keelage.Core.Aggregate.{after}
use keelage.Ledger.State.{Range}
use keelage.Ledger.Port.{Contract}
use keelage.App.Options.{Options, World}
use keelage.App.Pipeline.{Handled, fill, handle}
use keelage.App.Pipeline.Loaded.{IsCodec}
use keelage.App.Pipeline.Ends.{Loads, Writes, Commits, Ends, handle-Ends}
use keelage.App.Pipeline.Written.{Publishes, publish_written-Publishes, Writes-Loads}
use keelage.App.Pipeline.Refusals.{record_rejection-Fails}

module _ {L P S C E : Type 0} (o : Options L P S C E) (k : Contract L o.ledger) where
  -- The command was decided by the aggregate that its stream loads to, and the stream afterwards
  -- loads to the state that the aggregate reaches, at the version of the answer.
  pub record Refines (actor : ActorRef) (cmd : C) (now : Time) (w : World L P) (out : Handled o)
      : Type 0 where
    pub agg : S
    pub version : ℕ
    pub ctx : DecideContext
    pub before : Loads o k w cmd agg version
    pub built : o.build w.views cmd ≡ some ctx
    pub later :
        Loads o k out.1 cmd
          (after o.root.decide o.root.apply agg cmd (fill o actor now ctx))
          out.0.0.version

  decided-after :
      (agg : S) (cmd : C) (ctx : DecideContext) (events : List E)
      → o.root.decide agg cmd ctx ≡ ok events
      → after o.root.decide o.root.apply agg cmd ctx ≡ replay o.root.apply agg events
  unfolding after
  decided-after agg cmd ctx events h = rw (after, h) refl

  pub Writes-after :
      (law : IsCodec o.codec) (actor : ActorRef) (cmd : C) (now : Time) (ctx : DecideContext)
      (agg : S) (version : ℕ) (events : List E) (r : Range) (w w' : World L P) (out : Handled o)
      → Publishes o k cmd r events w' out
      → Loads o k w cmd agg version
      → o.root.decide agg cmd ctx ≡ ok events
      → Writes o k actor cmd now ctx version events r w w'.ledger
      → Loads o k out.1 cmd (after o.root.decide o.root.apply agg cmd ctx) out.0.0.version
  Writes-after law actor cmd now ctx agg version events r w w' out p loads accepts writes =
      rw (p.version, p.ledger, decided-after agg cmd ctx events accepts)
        (Writes-Loads o k law actor cmd now ctx agg version events r w w' loads writes)

  ends-Refines :
      (law : IsCodec o.codec) (actor : ActorRef) (cmd : C) (now : Time) (w : World L P)
      (out : Handled o)
      → Ends o k actor cmd now w out
      → out.0.1 ≡ none
      → out.0.0.replayed ≡ false
      → Refines actor cmd now w out
  unfolding replay
  ends-Refines law actor cmd now w out (Ends.rejects answer code a b) e r =
      absurd (record_rejection-Fails o k answer (o.command.stream cmd) actor cmd now code w e)
  ends-Refines law actor cmd now w out (Ends.stops problem other) e r = absurd (ground arith)
  ends-Refines law actor cmd now w out (Ends.finds prev) e r = absurd (ground arith)
  ends-Refines law actor cmd now w out (Ends.idles agg version ctx loads built quiet) e r = record {
    agg = agg;
    version = version;
    ctx = ctx;
    before = loads;
    built = built;
    later = rw (decided-after agg cmd (fill o actor now ctx) [] quiet) loads;
  }
  ends-Refines law actor cmd now w out
        (Ends.commits agg version ctx events _ loads built accepts some_event c) e r =
      record {
        agg = agg;
        version = version;
        ctx = ctx;
        before = loads;
        built = built;
        later = committed out c e r;
      }
    where
      committed :
          (out : Handled o)
          → Commits o k actor cmd now (fill o actor now ctx) version events w out
          → out.0.1 ≡ none
          → out.0.0.replayed ≡ false
          → Loads o k out.1 cmd
              (after o.root.decide o.root.apply agg cmd (fill o actor now ctx))
              out.0.0.version
      committed out (Commits.aborts problem w' other h) e r = absurd (ground arith)
      committed out (Commits.replays prev w' h) e r = absurd (ground arith)
      committed out (Commits.writes range next writes) e r =
          let w' = record w { ledger = next } in
          Writes-after law actor cmd now (fill o actor now ctx) agg version events range w w' out
            (publish_written-Publishes o k cmd range events w') loads accepts writes

  -- A command that `handle` accepts, and does not answer from an earlier one, was decided by the
  -- aggregate that its stream loads to, in the context that was built for it, and afterwards the
  -- stream loads to what `Decide` and `Apply` make of that aggregate, at the version of the answer;
  -- for any ledger that keeps the contract and any codec that reads back what it writes.
  pub handle-Refines :
      (law : IsCodec o.codec) (actor : ActorRef) (cmd : C) (now : Time) (w : World L P)
      → k.IsGood w.ledger
      → (handle o actor cmd now w).0.1 ≡ none
      → (handle o actor cmd now w).0.0.replayed ≡ false
      → Refines actor cmd now w (handle o actor cmd now w)
  handle-Refines law actor cmd now w g =
      ends-Refines law actor cmd now w (handle o actor cmd now w)
        (handle-Ends o k actor cmd now w g)
