-- ===== src/App/Pipeline/Ends.antt =====
-- internal/app/pipeline.go: the ways that `handle` ends.
use keelage.Prelude.{
  ℕ, ◌≡◌, refl, Bool, true, false, ◌⊎◌, inl, inr, none, some, Bool-cases, Option-cases, Sum-cases,
  List, [], ◌∷◌, is_nil, arith,
}
use keelage.Prelude.Int.{pos}
use keelage.Prelude.Text.{Text, is_empty}
use keelage.Core.Actor.{ActorRef, validate}
use keelage.Core.Context.{DecideContext, Time}
use keelage.Core.Envelope.{Envelope, EventMeta}
use keelage.Core.Event.{Rejection, ok, Result-cases}
use keelage.Ledger.State.{LedgerError, Range}
use keelage.Ledger.Log.{filter, is_read}
use keelage.Ledger.Port.{Contract, of_stream, Extends}
use keelage.App.Options.{Options, World, Reply, HandleError}
use keelage.App.Pipeline.{
  Handled, reply, fails, record_rejection, load, make_batch, publish_written, replayed,
  is_duplicate, is_not_found, append_fails, commit, fill, decided, decide_on, load_and_decide,
  replay_or_load, handle,
}

-- The error of a rejection, recorded or not.
abbrev pub is_rejected : HandleError → Bool
is_rejected (HandleError.rejected code) = true
is_rejected (HandleError.rejected_unrecorded code) = true
is_rejected _ = false

-- Every version is at least 0.
is_read_all :
    (stream : Text) (all : List Envelope) → filter (is_read stream 0) all ≡ of_stream stream all
unfolding filter
is_read_all stream [] = refl
is_read_all stream (e ∷ all) = ground (arith, is_read_all stream all)

module _ {L P S C E : Type 0} (o : Options L P S C E) (k : Contract L o.ledger) where
  -- The stream of the command loads to this aggregate, at this version.
  abbrev pub Loads : World L P → C → S → ℕ → Type 0
  Loads w cmd agg version =
      load o (o.root.zero (o.command.stream cmd)) 0
        (of_stream (o.command.stream cmd) (k.log w.ledger))
      ≡ some (agg, version)

  abbrev pub meta_of : C → DecideContext → EventMeta
  meta_of cmd ctx = record {
    refs = o.command.stream cmd ∷ o.command.touched_anchors cmd;
    constraints_hash = ctx.constraints_hash;
    autonomy = ctx.autonomy;
  }

  -- The log is as it was.
  pub record Keeps (w w' : World L P) : Type 0 where
    pub log : k.log w'.ledger ≡ k.log w.ledger
    pub good : k.IsGood w'.ledger

  -- The records that an accepted command has written.
  pub record Writes (actor : ActorRef) (cmd : C) (now : Time) (ctx : DecideContext) (version : ℕ)
      (events : List E) (r : Range) (w : World L P) (next : L) : Type 0 where
    pub batch :
        (batch : List Envelope) × (make_batch o now actor
            (meta_of cmd ctx)
            (o.command.idempotency_key cmd)
            events
          ≡ some batch)
        × Extends (o.command.stream cmd) (pos version) batch (k.log w.ledger) r (k.log next)
    pub good : k.IsGood next

  -- How steps 5 to 7 end.
  pub data Commits (actor : ActorRef) (cmd : C) (now : Time) (ctx : DecideContext) (version : ℕ)
      (events : List E) (w : World L P) : Handled o → Type 0 where
    aborts :
        (problem : HandleError) (w' : World L P)
        → is_rejected problem ≡ false
        → Keeps w w'
        → Commits actor cmd now ctx version events w (fails o problem w')
    replays :
        (prev : Envelope) (w' : World L P)
        → Keeps w w'
        → Commits actor cmd now ctx version events w ((replayed o cmd prev, none), w')
    writes :
        (r : Range) (next : L)
        → Writes actor cmd now ctx version events r w next
        → Commits actor cmd now ctx version events w
            (publish_written o cmd r events (record w { ledger = next }))

  append_fails-Commits :
      (actor : ActorRef) (cmd : C) (now : Time) (ctx : DecideContext) (version : ℕ)
      (events : List E) (w w' : World L P) (problem : LedgerError)
      → Keeps w w'
      → Commits actor cmd now ctx version events w (append_fails o cmd problem w')
  unfolding append_fails
  append_fails-Commits actor cmd now ctx version events w w' problem h =
      elim (Bool-cases (is_duplicate problem)) [
        | inr other ↦ rw (append_fails, other) (Commits.aborts _ w' refl h)
        | inl dup ↦
            elim (Sum-cases
              (o.ledger.lookup w'.ledger (o.command.stream cmd) (o.command.idempotency_key cmd))) [
                | inl (missing, e) ↦ rw (append_fails, dup, e) (Commits.aborts _ w' refl h)
                | inr (prev, e) ↦ rw (append_fails, dup, e) (Commits.replays prev w' h)
              ]
      ]

  pub commit-Commits :
      (actor : ActorRef) (cmd : C) (now : Time) (ctx : DecideContext) (version : ℕ)
      (events : List E) (w : World L P)
      → k.IsGood w.ledger
      → Commits actor cmd now ctx version events w (commit o cmd actor now ctx version events w)
  unfolding commit
  commit-Commits actor cmd now ctx version events w g =
      elim (Option-cases
        (make_batch o now actor (meta_of cmd ctx) (o.command.idempotency_key cmd) events)) [
          | inl bad ↦ rw (commit, bad) (Commits.aborts _ w refl (record { log = refl; good = g }))
          | inr (batch, made) ↦
              rw (commit, made)
                (appended batch made
                  (o.ledger.append w.ledger (o.command.stream cmd) (pos version) batch) refl)
        ]
    where
      appended :
          (batch : List Envelope)
          → make_batch o now actor (meta_of cmd ctx) (o.command.idempotency_key cmd) events
            ≡ some batch
          → (end : (LedgerError ⊎ Range) × L)
          → o.ledger.append w.ledger (o.command.stream cmd) (pos version) batch ≡ end
          → Commits actor cmd now ctx version events w (elim end.0 [
            | inl problem ↦ append_fails o cmd problem (record w { ledger = end.1 })
            | inr rng ↦ publish_written o cmd rng events (record w { ledger = end.1 })
          ])
      appended batch made (inl problem, next) h =
          let (same, good) =
            k.refuses w.ledger (o.command.stream cmd) (pos version) batch problem next g h in
          append_fails-Commits actor cmd now ctx version events w (record w { ledger = next })
            problem (record { log = same; good = good })
      appended batch made (inr rng, next) h =
          let (more, good) =
            k.extends w.ledger (o.command.stream cmd) (pos version) batch rng next g h in
          Commits.writes rng next (record { batch = (batch, made, more); good = good })

  -- How `handle` ends.
  pub data Ends (actor : ActorRef) (cmd : C) (now : Time) (w : World L P) : Handled o → Type 0 where
    rejects :
        (answer : Reply E) (code : Rejection)
        → answer.range ≡ none
        → answer.replayed ≡ false
        → Ends actor cmd now w
            (record_rejection o answer (o.command.stream cmd) actor cmd now code w)
    stops :
        (problem : HandleError)
        → is_rejected problem ≡ false
        → Ends actor cmd now w (fails o problem w)
    finds : (prev : Envelope) → Ends actor cmd now w ((replayed o cmd prev, none), w)
    idles :
        (agg : S) (version : ℕ) (ctx : DecideContext)
        → Loads w cmd agg version
        → o.build w.views cmd ≡ some ctx
        → o.root.decide agg cmd (fill o actor now ctx) ≡ ok []
        → Ends actor cmd now w ((reply o (o.command.stream cmd) version, none), w)
    commits :
        (agg : S) (version : ℕ) (ctx : DecideContext) (events : List E) (out : Handled o)
        → Loads w cmd agg version
        → o.build w.views cmd ≡ some ctx
        → o.root.decide agg cmd (fill o actor now ctx) ≡ ok events
        → is_nil events ≡ false
        → Commits actor cmd now (fill o actor now ctx) version events w out
        → Ends actor cmd now w out

  module _ (actor : ActorRef) (cmd : C) (now : Time) (w : World L P) (g : k.IsGood w.ledger) where
    decide_on-Ends :
        (agg : S) (version : ℕ)
        → Loads w cmd agg version
        → Ends actor cmd now w (decide_on o cmd actor now agg version w)
    unfolding decide_on decided
    decide_on-Ends agg version loads = elim (Option-cases (o.build w.views cmd)) [
      | inl bad ↦ rw (decide_on, bad) (Ends.stops _ refl)
      | inr (ctx, built) ↦ elim (Result-cases (o.root.decide agg cmd (fill o actor now ctx))) [
        | inr (code, refuses) ↦ rw (decide_on, built) (rw refuses (Ends.rejects _ code refl refl))
        | inl ([], quiet) ↦
            rw (decide_on, built) (rw quiet (Ends.idles agg version ctx loads built quiet))
        | inl (ev ∷ events, accepts) ↦
            rw (decide_on, built)
              (rw accepts (
                Ends.commits agg version ctx (ev ∷ events) _ loads built accepts refl
                  (commit-Commits actor cmd now (fill o actor now ctx) version (ev ∷ events) w g)))
      ]
    ]

    load_and_decide-Ends : Ends actor cmd now w (load_and_decide o cmd actor now w)
    unfolding load_and_decide
    load_and_decide-Ends = elim (Sum-cases (o.ledger.read w.ledger (o.command.stream cmd) 0)) [
      | inl (problem, bad) ↦ rw (load_and_decide, bad) (Ends.stops _ refl)
      | inr (envs, reads) ↦
          elim (Option-cases (load o (o.root.zero (o.command.stream cmd)) 0 envs)) [
            | inl bad ↦ rw (load_and_decide, reads) (rw bad (Ends.stops _ refl))
            | inr ((agg, version), loads) ↦
                rw (load_and_decide, reads)
                  (rw loads (decide_on-Ends agg version (loaded envs agg version reads loads)))
          ]
    ]
      where
        loaded :
            (envs : List Envelope) (agg : S) (version : ℕ)
            → o.ledger.read w.ledger (o.command.stream cmd) 0 ≡ inr envs
            → load o (o.root.zero (o.command.stream cmd)) 0 envs ≡ some (agg, version)
            → Loads w cmd agg version
        loaded envs agg version reads loads =
            let all = k.reads w.ledger (o.command.stream cmd) 0 envs g reads in
            rw (← is_read_all (o.command.stream cmd) (k.log w.ledger), ← all) loads

    pub handle-Ends : Ends actor cmd now w (handle o actor cmd now w)
    unfolding handle replay_or_load
    handle-Ends = elim (Result-cases (validate actor)) [
      | inr (code, bad) ↦ rw (handle, bad) (Ends.rejects _ _ refl refl)
      | inl (fine, good) ↦
          rw (handle, good)
            (elim (Bool-cases (is_empty (o.command.idempotency_key cmd))) [
              | inl bare ↦ rw bare load_and_decide-Ends
              | inr keyed ↦
                  elim (Sum-cases (
                    o.ledger.lookup w.ledger (o.command.stream cmd)
                      (o.command.idempotency_key cmd))) [
                        | inr (prev, e) ↦ rw (keyed, e) (Ends.finds prev)
                        | inl (problem, e) ↦ elim (Bool-cases (is_not_found problem)) [
                          | inl missing ↦ rw (keyed, e) (rw missing load_and_decide-Ends)
                          | inr broken ↦ rw (keyed, e) (rw broken (Ends.stops _ refl))
                        ]
                      ]
            ])
    ]
