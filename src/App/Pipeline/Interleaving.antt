-- ===== src/App/Pipeline/Interleaving.antt =====
-- internal/app/pipeline.go: appends of others between the load of a command and its own append.
use mathlib.Core.List.{append-nil}
use keelage.Prelude.{
  ℕ, ◌+◌, ◌≡◌, refl, ap, ◌∙◌, some, List, [], ◌∷◌, ◌++◌, length, length-append, arith,
}
use keelage.Prelude.Text.{text_eq}
use keelage.Core.Actor.{ActorRef}
use keelage.Core.Context.{DecideContext, Time}
use keelage.Core.Envelope.{Envelope}
use keelage.Core.Event.{ok}
use keelage.Core.Aggregate.{after}
use keelage.Ledger.State.{Range}
use keelage.Ledger.Port.{Contract, of_stream}
use keelage.Ledger.Streams.{filter-append}
use keelage.App.Options.{Options, World}
use keelage.App.Pipeline.{Handled, commit}
use keelage.App.Pipeline.Loaded.{IsCodec, load-version}
use keelage.App.Pipeline.Ends.{Loads, Commits, commit-Commits}
use keelage.App.Pipeline.Written.{Extends-at, publish_written-Publishes}
use keelage.App.Pipeline.Refinement.{Writes-after}

nil_of_length : {A : Type 0} (xs : List A) → length xs ≡ 0 → xs ≡ []
nil_of_length [] h = refl
nil_of_length (x ∷ xs) h = absurd (omega arith)

module _ {L P S C E : Type 0} (o : Options L P S C E) (k : Contract L o.ledger)
    (law : IsCodec o.codec) (actor : ActorRef) (cmd : C) (now : Time) (ctx : DecideContext)
    (agg : S) (version : ℕ) (events : List E) (w w' : World L P) (more : List Envelope) where
  -- A stream of the same length is the same stream, since logs only grow.
  same_stream :
      k.IsGood w.ledger
      → k.log w'.ledger ≡ k.log w.ledger ++ more
      → Loads o k w cmd agg version
      → version ≡ length (of_stream (o.command.stream cmd) (k.log w'.ledger))
      → Loads o k w' cmd agg version
  same_stream g grown loads at =
      let stream = o.command.stream cmd in
      let apart : of_stream stream (k.log w'.ledger)
          ≡ of_stream stream (k.log w.ledger) ++ of_stream stream more =
        ap (of_stream stream) grown
        ∙ filter-append (λ (e : Envelope). text_eq e.stream stream) (k.log w.ledger) more in
      let size =
        load-version o (o.root.zero stream) 0 (of_stream stream (k.log w.ledger)) agg version
          (k.numbered w.ledger stream g) loads in
      let whole : version
          ≡ length (of_stream stream (k.log w.ledger)) + length (of_stream stream more) =
        at
        ∙ ap length apart
        ∙ length-append (of_stream stream (k.log w.ledger)) (of_stream stream more) in
      let none_more = nil_of_length (of_stream stream more) (omega arith) in
      let same : of_stream stream (k.log w'.ledger) ≡ of_stream stream (k.log w.ledger) =
        apart ∙ rw none_more (append-nil (of_stream stream (k.log w.ledger))) in
      rw same loads

  commits-after :
      (r : Range) (out : Handled o)
      → k.IsGood w.ledger
      → k.log w'.ledger ≡ k.log w.ledger ++ more
      → Loads o k w cmd agg version
      → o.root.decide agg cmd ctx ≡ ok events
      → Commits o k actor cmd now ctx version events w' out
      → out.0.0.range ≡ some r
      → (Loads o k w' cmd agg version)
        × Loads o k out.1 cmd (after o.root.decide o.root.apply agg cmd ctx) out.0.0.version
  commits-after r out g grown loads accepts (Commits.aborts problem w'' other h) e =
      absurd (ground arith)
  commits-after r out g grown loads accepts (Commits.replays prev w'' h) e = absurd (ground arith)
  commits-after r out g grown loads accepts (Commits.writes range next writes) e =
      let (batch, made, x) = writes.batch in
      let last = record w' { ledger = next } in
      let still =
        same_stream g grown loads (
          Extends-at (o.command.stream cmd) version batch (k.log w'.ledger) range (k.log next) x) in
      (
        still,
        Writes-after o k law actor cmd now ctx agg version events range w' last out
            (publish_written-Publishes o k cmd range events last) still accepts writes,
      )

  -- Whatever others append between the load of a command and its own append: if that append is
  -- accepted, none of it was on the stream of the command, the aggregate that was loaded is still the
  -- current one, and the stream then loads to what `Decide` and `Apply` make of it, at the version of
  -- the answer.
  pub commit-Interleaves :
      (r : Range)
      → k.IsGood w.ledger
      → k.IsGood w'.ledger
      → k.log w'.ledger ≡ k.log w.ledger ++ more
      → Loads o k w cmd agg version
      → o.root.decide agg cmd ctx ≡ ok events
      → (commit o cmd actor now ctx version events w').0.0.range ≡ some r
      → (Loads o k w' cmd agg version)
        × Loads o k
            (commit o cmd actor now ctx version events w').1
            cmd
            (after o.root.decide o.root.apply agg cmd ctx)
            (commit o cmd actor now ctx version events w').0.0.version
  commit-Interleaves r g g' grown loads accepts =
      commits-after r (commit o cmd actor now ctx version events w') g grown loads accepts
        (commit-Commits o k actor cmd now ctx version events w' g')
