-- ===== src/App/Pipeline/Written.antt =====
-- internal/app/pipeline.go: the streams after an append of the pipeline.
use mathlib.Core.List.{append-nil}
use keelage.Prelude.{
  ℕ, suc, ◌+◌, ◌≡◌, refl, ap, ◌∙◌, false, ◌⊎◌, inl, inr, Option, none, some, Sum-cases, List, [],
  ◌∷◌, ◌++◌, length, arith,
}
use keelage.Prelude.Int.{ℤ, pos}
use keelage.Prelude.Text.{Text, text_eq}
use keelage.Core.Actor.{ActorRef}
use keelage.Core.Context.{DecideContext, Time}
use keelage.Core.Envelope.{Envelope, EventMeta}
use keelage.Core.Event.{replay}
use keelage.Ledger.State.{Range}
use keelage.Ledger.Copied.{Copied, Copied-stream}
use keelage.Ledger.Port.{Contract, of_stream, Extends}
use keelage.Ledger.Streams.{filter-append, of_stream-same, of_stream-other}
use keelage.App.Options.{Options, World, Reply, HandleError}
use keelage.App.Pipeline.{make_batch, publish_written}
use keelage.App.Pipeline.Loaded.{IsCodec, load-append, make_batch-cons, load-Copied}
use keelage.App.Pipeline.Ends.{Loads, Writes, meta_of}

-- An append leaves every other stream alone.
pub Extends-other :
    (stream : Text) (expected : ℤ) (evs all : List Envelope) (r : Range) (all' : List Envelope)
    (other : Text)
    → Extends stream expected evs all r all'
    → text_eq stream other ≡ false
    → of_stream other all' ≡ of_stream other all
Extends-other stream expected evs all r all' other x ne =
    rw
      (
        x.whole,
        filter-append (λ (e : Envelope). text_eq e.stream other) all x.out,
        of_stream-other stream other x.out ne (Copied-stream evs x.out x.copied),
      )
      (append-nil (of_stream other all))

-- It appends its records to its own stream.
pub Extends-own :
    (stream : Text) (expected : ℤ) (evs all : List Envelope) (r : Range) (all' : List Envelope)
    → (x : Extends stream expected evs all r all')
    → of_stream stream all' ≡ of_stream stream all ++ x.out
Extends-own stream expected evs all r all' x =
    rw
      (
        x.whole,
        filter-append (λ (e : Envelope). text_eq e.stream stream) all x.out,
        of_stream-same stream x.out (Copied-stream evs x.out x.copied),
      )
      refl

-- An append that expects a version was made at that version.
pub Extends-at :
    (stream : Text) (n : ℕ) (evs all : List Envelope) (r : Range) (all' : List Envelope)
    → Extends stream (pos n) evs all r all'
    → n ≡ length (of_stream stream all)
Extends-at stream n evs all r all' x = elim x.matches [
  | inl any ↦ absurd (ground arith)
  | inr same ↦ ground arith
]

module _ {L P S C E : Type 0} (o : Options L P S C E) (k : Contract L o.ledger) where
  make_batch-length :
      (now : Time) (actor : ActorRef) (meta : EventMeta) (idem : Text) (events : List E)
      (batch : List Envelope)
      → make_batch o now actor meta idem events ≡ some batch
      → length batch ≡ length events
  unfolding make_batch
  make_batch-length now actor meta idem [] batch h =
      let none_in : batch ≡ [] = ground arith in rw none_in refl
  make_batch-length now actor meta idem (ev ∷ events) batch h =
      let (body, rest, encodes, more, whole) =
        make_batch-cons o now actor meta idem ev events batch h in
      let size = make_batch-length now actor meta [] events rest more in rw whole (omega arith)

  -- After an accepted command its stream loads to the aggregate that applies the events.
  pub Writes-Loads :
      (law : IsCodec o.codec) (actor : ActorRef) (cmd : C) (now : Time) (ctx : DecideContext)
      (agg : S) (version : ℕ) (events : List E) (r : Range) (w w' : World L P)
      → Loads o k w cmd agg version
      → Writes o k actor cmd now ctx version events r w w'.ledger
      → Loads o k w' cmd (replay o.root.apply agg events) r.to_ver
  Writes-Loads law actor cmd now ctx agg version events r w w' loads writes =
      let (batch, made, x) = writes.batch in
      let stream = o.command.stream cmd in
      let at = Extends-at stream version batch (k.log w.ledger) r (k.log w'.ledger) x in
      let size =
        make_batch-length now actor (meta_of o k cmd ctx) (o.command.idempotency_key cmd) events
          batch made in
      let first : length (of_stream stream (k.log w.ledger)) + 1 ≡ suc version = omega arith in
      let copied : Copied stream (suc version) batch x.out = rw (← first) x.copied in
      let last : version + length events ≡ r.to_ver = omega (arith, x.to_ver, size, at) in
      let end =
        load-Copied o law now actor (meta_of o k cmd ctx) stream agg version
          (o.command.idempotency_key cmd) events batch x.out made copied in
      rw (Extends-own stream (pos version) batch (k.log w.ledger) r (k.log w'.ledger) x) (
        load-append o (o.root.zero stream) 0 (of_stream stream (k.log w.ledger)) x.out agg version
          loads
        ∙ end
        ∙ ap (λ n. some (replay o.root.apply agg events, n)) last)

  -- Publishing leaves the ledger as the append left it, and answers its range.
  pub record Publishes (cmd : C) (r : Range) (events : List E) (w : World L P)
      (out : (Reply E × Option HandleError) × World L P) : Type 0 where
    pub ledger : out.1.ledger ≡ w.ledger
    pub version : out.0.0.version ≡ r.to_ver
    pub range : out.0.0.range ≡ some r
    pub replayed : out.0.0.replayed ≡ false
    pub error : (out.0.1 ≡ none) ⊎ (out.0.1 ≡ some HandleError.projection_failed)

  pub publish_written-Publishes :
      (cmd : C) (r : Range) (events : List E) (w : World L P)
      → Publishes cmd r events w (publish_written o cmd r events w)
  unfolding publish_written
  publish_written-Publishes cmd r events w =
      elim (Sum-cases (o.ledger.read w.ledger (o.command.stream cmd) r.from_ver)) [
        | inl (problem, e) ↦
            rw (publish_written, e)
              (record {
                ledger = refl;
                version = refl;
                range = refl;
                replayed = refl;
                error = inr refl;
              })
        | inr (written, e) ↦
            rw (publish_written, e)
              (record {
                ledger = refl;
                version = refl;
                range = refl;
                replayed = refl;
                error = ground arith;
              })
      ]
