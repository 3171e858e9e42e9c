-- ===== src/App/Pipeline.antt =====
-- internal/app/pipeline.go and internal/app/rejected.go: the command pipeline.
pub mod Loaded
pub mod Ends
pub mod Written
pub mod Refinement
pub mod Retry
pub mod Interleaving
pub mod Refusals
use keelage.Prelude.{
  ℕ, Bool, true, false, not, ◌&&◌, ◌⊎◌, inl, inr, Option, none, some, List, [], ◌∷◌, ◌++◌, is_nil,
  if◌then◌else◌,
}
use keelage.Prelude.Int.{ℤ, pos}
use keelage.Prelude.Text.{Text, codes, is_empty}
use keelage.Core.Actor.{ActorRef, validate}
use keelage.Core.Level.{Level, l0}
use keelage.Core.Context.{Policy, DecideContext, Time}
use keelage.Core.Envelope.{Envelope, EventMeta}
use keelage.Core.Event.{Rejection, Result, ok, err}
use keelage.Ledger.State.{LedgerError, Range, any_version}
use keelage.App.Options.{
  rejected_stream, Rejected, Projector, Options, World, Reply, HandleError, policy_is_zero,
}

-- `errors.Is(err, port.ErrNotFound)`.
abbrev pub is_not_found : LedgerError → Bool
is_not_found LedgerError.not_found = true
is_not_found _ = false

-- `errors.Is(err, port.ErrDuplicateIdempotencyKey)`.
abbrev pub is_duplicate : LedgerError → Bool
is_duplicate LedgerError.duplicate_idempotency_key = true
is_duplicate _ = false

-- A record as the pipeline hands it to the ledger, which fills in the rest.
abbrev pub new_record : Text → ℤ → Time → ActorRef → EventMeta → Text → Text → Envelope
new_record kind v now actor meta body idem = record {
  seq = 0;
  stream = [];
  ver = 0;
  kind = kind;
  v = v;
  ts = now;
  actor = actor;
  meta = meta;
  body = body;
  meta_hash = [];
  body_hash = [];
  prev_hash = [];
  hash = [];
  sig = [];
  idem = idem;
  origin = none;
}

-- Every projector in turn, and whether all succeed.
unfoldable pub project :
    {P E : Type 0} → List (Projector P E) → P → Envelope → E ⊎ Rejected → Bool × P
project [] views e ev = (true, views)
project (handle ∷ projectors) views e ev =
    let (fine, next) = handle views e ev in
    let (rest, final) = project projectors next e ev in (fine && rest, final)

-- `publish`: the records that were read again with the events that they carry.
unfoldable pub publish :
    {P E : Type 0} → List (Projector P E) → P → List Envelope → List E → Bool × P
publish projectors views [] events = (true, views)
publish projectors views (e ∷ envs) [] = (true, views)
publish projectors views (e ∷ envs) (ev ∷ events) =
    let (fine, next) = project projectors views e (inl ev) in
    let (rest, final) = publish projectors next envs events in (fine && rest, final)

module _ {L P S C E : Type 0} (o : Options L P S C E) where
  -- What a handled command gives, Go's pair of a `Result` and an error, with the state after it.
  abbrev pub Handled : Type 0
  Handled = (Reply E × Option HandleError) × World L P

  -- `Result{Stream: stream, Version: version}`; `Result{}` has an empty stream.
  abbrev pub reply : Text → ℕ → Reply E
  reply stream version = record {
    stream = stream;
    version = version;
    range = none;
    events = [];
    replayed = false;
  }

  -- `return Result{}, err`.
  abbrev pub fails : HandleError → World L P → Handled
  fails problem w = ((reply [] 0, some problem), w)

  -- The projectors of a recorded rejection, whose errors are ignored.
  abbrev pub project_first : World L P → Rejected → LedgerError ⊎ List Envelope → World L P
  project_first w ev (inl problem) = w
  project_first w ev (inr []) = w
  project_first w ev (inr (e ∷ written)) = record w {
    views = (project o.projectors w.views e (inr ev)).1;
  }

  -- `appendRejected` after its append: whether that succeeded.
  abbrev pub rejection_appended :
      Rejected → World L P → (LedgerError ⊎ Range) × L → Bool × World L P
  rejection_appended ev w (inl problem, next) = (false, record w { ledger = next })
  rejection_appended ev w (inr rng, next) = (
    true,
    project_first (record w { ledger = next }) ev (o.ledger.read next rejected_stream rng.from_ver),
  )

  -- The record of a rejection.
  abbrev pub rejection_draft : Rejected → Time → Text → Envelope
  rejection_draft ev now body =
      new_record (codes "Rejected") (pos 1) now ev.actor
        (record { refs = ev.target ∷ []; constraints_hash = []; autonomy = l0 }) body []

  -- `appendRejected`: whether it succeeds.
  unfoldable pub append_rejected : Rejected → Time → World L P → Bool × World L P
  append_rejected ev now w = elim (o.codec.encode_rejected ev) [
    | none ↦ (false, w)
    | some body ↦
        rejection_appended ev w
          (o.ledger.append w.ledger rejected_stream any_version (rejection_draft ev now body ∷ []))
  ]

  -- `recordRejection`, with the reply that its callers return it with.
  unfoldable pub record_rejection :
      Reply E → Text → ActorRef → C → Time → Rejection → World L P → Handled
  record_rejection answer target actor cmd now code w =
      let (fine, next) =
        append_rejected
          (record { command = o.command.kind cmd; target = target; code = code; actor = actor }) now
          w in
      (
        (
          answer,
          some (if fine then HandleError.rejected code else HandleError.rejected_unrecorded code),
        ),
        next,
      )

  -- The loop of step 2: the aggregate and its version.
  unfoldable pub load : S → ℕ → List Envelope → Option (S × ℕ)
  load agg version [] = some (agg, version)
  load agg version (e ∷ envs) = elim (o.codec.decode e.kind e.v e.body) [
    | none ↦ none
    | some ev ↦ load (o.root.apply agg ev) e.ver envs
  ]

  -- The loop of step 5: the key of the command goes to the first record.
  unfoldable pub make_batch : Time → ActorRef → EventMeta → Text → List E → Option (List Envelope)
  make_batch now actor meta idem [] = some []
  make_batch now actor meta idem (ev ∷ events) =
      let rest = make_batch now actor meta [] events in
      elim (o.codec.encode ev) [
        | none ↦ none
        | some body ↦ elim rest [
          | none ↦ none
          | some batch ↦
              some
                (new_record (o.codec.kind ev) (o.codec.version ev) now actor meta body idem ∷ batch)
        ]
      ]

  -- Steps 6 and 7, after an append that wrote `rng`.
  unfoldable pub publish_written : C → Range → List E → World L P → Handled
  publish_written cmd rng events w =
      let answer : Reply E = record {
        stream = o.command.stream cmd;
        version = rng.to_ver;
        range = some rng;
        events = events;
        replayed = false;
      } in
      elim (o.ledger.read w.ledger (o.command.stream cmd) rng.from_ver) [
        | inl problem ↦ ((answer, some HandleError.projection_failed), w)
        | inr written ↦
            let (fine, final) = publish o.projectors w.views written events in
            (
              (answer, if fine then none else some HandleError.projection_failed),
              record w { views = final },
            )
      ]

  -- `Result{Stream: stream, Version: prev.Ver, Replayed: true}`.
  abbrev pub replayed : C → Envelope → Reply E
  replayed cmd prev = record (reply (o.command.stream cmd) prev.ver) { replayed = true }

  -- The errors of step 5.
  unfoldable pub append_fails : C → LedgerError → World L P → Handled
  append_fails cmd problem w =
      let again = o.ledger.lookup w.ledger (o.command.stream cmd) (o.command.idempotency_key cmd) in
      if is_duplicate problem
      then elim again [
        | inl missing ↦ fails (HandleError.replay_lookup_failed missing) w
        | inr prev ↦ ((replayed cmd prev, none), w)
      ]
      else fails (HandleError.append_failed problem) w

  -- Steps 5 to 7, for an aggregate that was loaded at `version` and decided `events`.
  unfoldable pub commit : C → ActorRef → Time → DecideContext → ℕ → List E → World L P → Handled
  commit cmd actor now ctx version events w =
      elim (make_batch now actor
        (record {
          refs = o.command.stream cmd ∷ o.command.touched_anchors cmd;
          constraints_hash = ctx.constraints_hash;
          autonomy = ctx.autonomy;
        })
        (o.command.idempotency_key cmd) events) [
          | none ↦ fails HandleError.encode_failed w
          | some batch ↦
              let (answer, next) =
                o.ledger.append w.ledger (o.command.stream cmd) (pos version) batch in
              elim answer [
                | inl problem ↦ append_fails cmd problem (record w { ledger = next })
                | inr rng ↦ publish_written cmd rng events (record w { ledger = next })
              ]
        ]

  -- The context of step 3, once it is built.
  abbrev pub fill : ActorRef → Time → DecideContext → DecideContext
  fill actor now ctx = record ctx {
    now = now;
    actor = actor;
    policy = if policy_is_zero ctx.policy then o.policy else ctx.policy;
  }

  -- Steps 4 to 7, from what `Decide` returned. All its errors are rejections.
  unfoldable pub decided :
      C → ActorRef → Time → DecideContext → ℕ → Result (List E) → World L P → Handled
  decided cmd actor now ctx version (err code) w =
      record_rejection (reply (o.command.stream cmd) version) (o.command.stream cmd) actor cmd now
        code w
  decided cmd actor now ctx version (ok events) w =
      if is_nil events
      then ((reply (o.command.stream cmd) version, none), w)
      else commit cmd actor now ctx version events w

  -- Steps 3 to 7.
  unfoldable pub decide_on : C → ActorRef → Time → S → ℕ → World L P → Handled
  decide_on cmd actor now agg version w = elim (o.build w.views cmd) [
    | none ↦ fails HandleError.context_failed w
    | some ctx ↦
        decided cmd actor now (fill actor now ctx) version
          (o.root.decide agg cmd (fill actor now ctx)) w
  ]

  -- Steps 2 to 7.
  unfoldable pub load_and_decide : C → ActorRef → Time → World L P → Handled
  load_and_decide cmd actor now w = elim (o.ledger.read w.ledger (o.command.stream cmd) 0) [
    | inl problem ↦ fails (HandleError.load_failed problem) w
    | inr envs ↦ elim (load (o.root.zero (o.command.stream cmd)) 0 envs) [
      | none ↦ fails HandleError.replay_failed w
      | some (agg, version) ↦ decide_on cmd actor now agg version w
    ]
  ]

  -- The idempotent replay before step 2.
  unfoldable pub replay_or_load : C → ActorRef → Time → World L P → Handled
  replay_or_load cmd actor now w =
      let found = o.ledger.lookup w.ledger (o.command.stream cmd) (o.command.idempotency_key cmd) in
      if is_empty (o.command.idempotency_key cmd)
      then load_and_decide cmd actor now w
      else elim found [
        | inr prev ↦ ((replayed cmd prev, none), w)
        | inl problem ↦
            if is_not_found problem
            then load_and_decide cmd actor now w
            else fails (HandleError.lookup_failed problem) w
      ]

  -- `handle`.
  unfoldable pub handle : ActorRef → C → Time → World L P → Handled
  handle actor cmd now w = elim (validate actor) [
    | err problem ↦
        record_rejection (reply (o.command.stream cmd) 0) (o.command.stream cmd) actor cmd now
          Rejection.unauthenticated w
    | ok fine ↦ replay_or_load cmd actor now w
  ]
