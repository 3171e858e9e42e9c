-- ===== src/App/Pipeline/Retry.antt =====
-- internal/app/pipeline.go: a command that is sent again with its idempotency key.
use keelage.Prelude.{
  ℕ, suc, ◌+◌, ◌≡◌, refl, sym, ap, ◌∙◌, true, false, ◌⊎◌, inl, inr, none, some, Bool-cases,
  Sum-cases, List, [], ◌∷◌, ◌++◌, length, is_nil, arith,
}
use keelage.Prelude.Text.{Text, is_empty, text_eq_refl}
use keelage.Core.Actor.{ActorRef, validate}
use keelage.Core.Context.{DecideContext, Time}
use keelage.Core.Envelope.{Envelope, EventMeta}
use keelage.Core.Event.{ok}
use keelage.Ledger.State.{LedgerError, Range, idem_key}
use keelage.Ledger.Log.{has_idem, last_with}
use keelage.Ledger.Copied.{Copied, Copied-nil, Copied-cons}
use keelage.Ledger.Port.{Contract, of_stream}
use keelage.Ledger.Streams.{last_with-append, last_with-first}
use keelage.App.Options.{Options, World, HandleError}
use keelage.App.Pipeline.{
  Handled, fails, new_record, make_batch, record_rejection, replayed, is_not_found, replay_or_load,
  fill, handle,
}
use keelage.App.Pipeline.Loaded.{make_batch-cons}
use keelage.App.Pipeline.Ends.{Writes, Commits, Ends, meta_of, handle-Ends}
use keelage.App.Pipeline.Written.{publish_written-Publishes}

module _ {L P S C E : Type 0} (o : Options L P S C E) (k : Contract L o.ledger) where
  -- The key of the command, in its stream.
  abbrev pub key_of : C → Text
  key_of cmd = idem_key (o.command.stream cmd) (o.command.idempotency_key cmd)

  -- The answer to a command that was handled before, as the record `prev`: either it says so, or
  -- the lookup fails, and nothing at all changes.
  abbrev pub Repeats : C → Envelope → World L P → Handled o → Type 0
  Repeats cmd prev w out =
      (out ≡ ((replayed o cmd prev, none), w))
      ⊎ ((problem : LedgerError) × (out ≡ fails o (HandleError.lookup_failed problem) w))

  -- A valid actor's command whose key the log has on a record is answered with that record's version
  -- and as replayed, or with a failure of the lookup; neither the ledger nor a read model changes.
  pub handle-Repeats :
      (actor : ActorRef) (cmd : C) (now : Time) (w : World L P) (prev : Envelope)
      → k.IsGood w.ledger
      → validate actor ≡ ok tt
      → is_empty (o.command.idempotency_key cmd) ≡ false
      → last_with (has_idem (key_of cmd)) (k.log w.ledger) ≡ some prev
      → Repeats cmd prev w (handle o actor cmd now w)
  unfolding handle replay_or_load
  handle-Repeats actor cmd now w prev g valid keyed there =
      let stream = o.command.stream cmd in
      let idem = o.command.idempotency_key cmd in
      elim (Sum-cases (o.ledger.lookup w.ledger stream idem)) [
        | inr (found, e) ↦
            let same : prev ≡ found = ground (arith, k.finds w.ledger stream idem found g e) in
            inl (rw (handle, valid) (rw (keyed, e, same) refl))
        | inl (problem, e) ↦ elim (Bool-cases (is_not_found problem)) [
          | inr broken ↦ inr (problem, rw (handle, valid) (rw (keyed, e) (rw broken refl)))
          | inl missing ↦
              let gone : problem ≡ LedgerError.not_found = only problem missing in
              absurd (ground (arith, k.misses w.ledger stream idem g (e ∙ ap inl gone)))
        ]
      ]
    where
      only : (problem : LedgerError) → is_not_found problem ≡ true → problem ≡ LedgerError.not_found
      only problem h = ground arith

  -- Only the first record of a batch carries the key.
  rest-last_with :
      (now : Time) (actor : ActorRef) (meta : EventMeta) (stream : Text) (ver : ℕ) (key : Text)
      (events : List E) (batch out : List Envelope)
      → make_batch o now actor meta [] events ≡ some batch
      → Copied stream ver batch out
      → last_with (has_idem key) out ≡ none
  unfolding make_batch last_with
  rest-last_with now actor meta stream ver key [] batch out h c =
      let none_in : batch ≡ [] = ground arith in
      let none_out : out ≡ [] = Copied-nil {stream = stream} {ver = ver} out (rw (← none_in) c) in
      rw none_out refl
  rest-last_with now actor meta stream ver key (ev ∷ events) batch out h c =
      let (body, rest, encodes, more, whole) =
        make_batch-cons o now actor meta [] ev events batch h in
      let (t, later, end, copies, copied) =
        Copied-cons {stream = stream} {ver = ver}
          (new_record (o.codec.kind ev) (o.codec.version ev) now actor meta body []) rest out
          (rw (← whole) c) in
      let tail = rest-last_with now actor meta stream (suc ver) key events rest later more copied in
      ap (last_with (has_idem key)) end ∙ unkeyed key t later copies.idem tail
    where
      unkeyed :
          (key : Text) (t : Envelope) (later : List Envelope)
          → t.idem ≡ []
          → last_with (has_idem key) later ≡ none
          → last_with (has_idem key) (t ∷ later) ≡ none
      unkeyed key t later bare tail = rw (last_with, tail, bare) refl

  -- The record of the log that a command's key leads to.
  pub record IsKeyed (cmd : C) (r : Range) (all : List Envelope) : Type 0 where
    pub first : Envelope
    pub found : last_with (has_idem (key_of cmd)) all ≡ some first
    pub at : first.ver ≡ r.from_ver

  Writes-IsKeyed :
      (actor : ActorRef) (cmd : C) (now : Time) (ctx : DecideContext) (version : ℕ)
      (events : List E) (r : Range) (w : World L P) (next : L)
      → is_empty (o.command.idempotency_key cmd) ≡ false
      → is_nil events ≡ false
      → Writes o k actor cmd now ctx version events r w next
      → IsKeyed cmd r (k.log next)
  Writes-IsKeyed actor cmd now ctx version [] r w next keyed some_event writes =
      absurd (ground arith)
  Writes-IsKeyed actor cmd now ctx version (ev ∷ events) r w next keyed some_event writes =
      let (batch, made, x) = writes.batch in
      let stream = o.command.stream cmd in
      let idem = o.command.idempotency_key cmd in
      let meta = meta_of o k cmd ctx in
      let ver = length (of_stream stream (k.log w.ledger)) + 1 in
      let (body, rest, encodes, more, whole) =
        make_batch-cons o now actor meta idem ev events batch made in
      let (t, later, end, copies, copied) =
        Copied-cons {stream = stream} {ver = ver}
          (new_record (o.codec.kind ev) (o.codec.version ev) now actor meta body idem) rest x.out
          (rw (← whole) x.copied) in
      let none_later =
        rest-last_with now actor meta stream (suc ver) (key_of cmd) events rest later more copied in
      record {
        first = t;
        found =
            ap (last_with (has_idem (key_of cmd))) (x.whole ∙ ap (λ out. k.log w.ledger ++ out) end)
            ∙ last_with-first (has_idem (key_of cmd)) (k.log w.ledger) t later
                (carries cmd t copies.in_stream copies.idem keyed) none_later;
        at = copies.at ∙ sym x.from_ver;
      }
    where
      carries :
          (cmd : C) (t : Envelope)
          → t.stream ≡ o.command.stream cmd
          → t.idem ≡ o.command.idempotency_key cmd
          → is_empty (o.command.idempotency_key cmd) ≡ false
          → has_idem (key_of cmd) t ≡ true
      carries cmd t s i keyed = rw (s, i, keyed, text_eq_refl (key_of cmd)) refl

  ends-IsKeyed :
      (actor : ActorRef) (cmd : C) (now : Time) (w : World L P) (r : Range) (out : Handled o)
      → is_empty (o.command.idempotency_key cmd) ≡ false
      → Ends o k actor cmd now w out
      → out.0.0.range ≡ some r
      → IsKeyed cmd r (k.log out.1.ledger)
  unfolding record_rejection
  ends-IsKeyed actor cmd now w r out keyed (Ends.rejects answer code a b) e = absurd (ground arith)
  ends-IsKeyed actor cmd now w r out keyed (Ends.stops problem other) e = absurd (ground arith)
  ends-IsKeyed actor cmd now w r out keyed (Ends.finds prev) e = absurd (ground arith)
  ends-IsKeyed actor cmd now w r out keyed (Ends.idles agg version ctx loads built quiet) e =
      absurd (ground arith)
  ends-IsKeyed actor cmd now w r out keyed
        (Ends.commits agg version ctx events _ loads built accepts some_event c) e =
      committed out c e
    where
      committed :
          (out : Handled o)
          → Commits o k actor cmd now (fill o actor now ctx) version events w out
          → out.0.0.range ≡ some r
          → IsKeyed cmd r (k.log out.1.ledger)
      committed out (Commits.aborts problem w' other h) e = absurd (ground arith)
      committed out (Commits.replays prev w' h) e = absurd (ground arith)
      committed out (Commits.writes range next writes) e =
          let w' = record w { ledger = next } in
          let p = publish_written-Publishes o k cmd range events w' in
          let same : range ≡ r = ground (arith, p.range) in
          rw (p.ledger, ← same)
            (Writes-IsKeyed actor cmd now (fill o actor now ctx) version events range w next keyed
              some_event writes)

  -- A command that carries a key takes effect at most once: after it has written records, sending it
  -- again, by whichever valid actor, whenever, and whatever else was appended meanwhile without the
  -- key, is answered as replayed, or with a failure of the lookup, and changes nothing. The answer's
  -- version is that of the first record that the command has written.
  pub handle-once :
      (actor : ActorRef) (cmd : C) (now : Time) (w : World L P) (r : Range) (again : ActorRef)
      (later : Time) (w' : World L P) (more : List Envelope)
      → k.IsGood w.ledger
      → is_empty (o.command.idempotency_key cmd) ≡ false
      → (handle o actor cmd now w).0.0.range ≡ some r
      → k.IsGood w'.ledger
      → k.log w'.ledger ≡ k.log (handle o actor cmd now w).1.ledger ++ more
      → last_with (has_idem (key_of cmd)) more ≡ none
      → validate again ≡ ok tt
      → (first : Envelope) × (first.ver ≡ r.from_ver)
        × Repeats cmd first w' (handle o again cmd later w')
  handle-once actor cmd now w r again later w' more g keyed wrote g' grown unkeyed valid =
      let key = has_idem (key_of cmd) in
      let i =
        ends-IsKeyed actor cmd now w r (handle o actor cmd now w) keyed
          (handle-Ends o k actor cmd now w g) wrote in
      let all = k.log (handle o actor cmd now w).1.ledger in
      let there : last_with key (k.log w'.ledger) ≡ some i.first =
        ap (last_with key) grown ∙ last_with-append key all more ∙ rw unkeyed i.found in
      (i.first, i.at, handle-Repeats again cmd later w' i.first g' valid keyed there)
