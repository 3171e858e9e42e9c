-- ===== src/Tests/Pipelines.antt =====
-- A pipeline over the memory ledger that runs an open gate, with a codec for one event.
use keelage.Prelude.{ℕ, ◌≡◌, refl, true, Option, none, some, [], ◌∷◌, arith}
use keelage.Prelude.Int.{ℤ, pos, eqb_ℤ}
use keelage.Prelude.Text.{Text, codes, text_eq, contains_text}
use keelage.Core.Event.{Rejection}
use keelage.Core.Aggregate.{after}
use keelage.Core.Actor.{validate}
use keelage.Core.Level.{l1}
use keelage.Core.Envelope.{Envelope, meta_hash, seal}
use keelage.Accountability.Gate.State.{Gate, GateCommand, GateEvent}
use keelage.Accountability.Gate.Decide
use keelage.Ledger.State.{Range, Ledger, new_ledger, lookup, record_at, last_hash}
use keelage.Ledger.Append.{
  signed, seal_all, store, store_all, repeats_idem, repeats_origin, check_append, append,
}
use keelage.Ledger.Reads.{gather, read}
use keelage.Ledger.Log.{filter, last_with}
use keelage.Ledger.Port.{Contract}
use keelage.Ledger.Memory.{memory_port, memory_contract, new_ledger-IsGood, append-IsGood}
use keelage.App.Options.{Codec, Options, World, HandleError}
use keelage.App.Pipeline.{
  new_record, project, publish, append_rejected, record_rejection, load, make_batch,
  publish_written, commit, decided, decide_on, load_and_decide, replay_or_load, handle,
}
use keelage.App.Pipeline.Loaded.{IsCodec}
use keelage.App.Pipeline.Ends.{Loads}
use keelage.App.Pipeline.Refinement.{Refines, handle-Refines}
use keelage.App.Pipeline.Refusals.{Recorded, handle-Recorded}
use keelage.App.Pipeline.Interleaving.{commit-Interleaves}
use keelage.App.Pipeline.Retry.{Repeats, handle-once}
use keelage.Tests.Values.{literal_std, alice, context}
use keelage.Tests.Gates.{open_gate}
use keelage.Tests.Ledgers.{plain_sealing, event}

-- The body of an expiry is its time and then its gate.
abbrev encode : GateEvent → Option Text
encode (GateEvent.gate_expired id at) = some (at ∷ id)
encode _ = none

abbrev decode : Text → ℤ → Text → Option GateEvent
decode kind v [] = none
decode kind v (at ∷ id) = some (GateEvent.gate_expired id at)

abbrev expiry_codec : Codec GateEvent
expiry_codec = record {
  kind = λ ev. codes "GateExpired";
  version = λ ev. pos 1;
  encode = encode;
  decode = decode;
  encode_rejected = λ ev. some ev.target;
}

expiry_codec-IsCodec : IsCodec expiry_codec
expiry_codec-IsCodec = record { decodes = decodes }
  where
    decodes :
        (ev : GateEvent) (body : Text)
        → encode ev ≡ some body
        → decode (codes "GateExpired") (pos 1) body ≡ some ev
    decodes (GateEvent.gate_expired id at) body h =
        let whole : body ≡ at ∷ id = ground arith in rw whole refl
    decodes (GateEvent.gate_decided v) body h = absurd (ground arith)
    decodes (GateEvent.gate_opened v) body h = absurd (ground arith)
    decodes (GateEvent.gate_resolved id r) body h = absurd (ground arith)
    decodes (GateEvent.other kind) body h = absurd (ground arith)

abbrev options : Options Ledger ℕ Gate GateCommand GateEvent
options = record {
  ledger = memory_port none;
  root = record { zero = λ stream. open_gate; decide = Decide.decide; apply = Decide.apply };
  command = record {
    kind = λ cmd. codes "ExpireGate";
    stream = λ cmd. codes "gate/g1";
    idempotency_key = λ cmd. codes "i1";
    touched_anchors = λ cmd. [];
  };
  codec = expiry_codec;
  build = λ views cmd. some (context alice 0 l1);
  policy = (context alice 0 l1).policy;
  projectors = (λ views e ev. (true, views)) ∷ [];
}

abbrev contract : Contract Ledger (memory_port none)
unfolding memory_contract
contract = memory_contract none

abbrev world : World Ledger ℕ
world = record { ledger = new_ledger; views = 0 }

abbrev command : GateCommand
command = GateCommand.expire_gate (record { id = codes "g1"; idem = codes "i1" })

-- After the expiry time of the gate.
handle-Refines_example :
    Refines options contract alice command 7 world (handle options alice command 7 world)
unfolding contract handle validate replay_or_load lookup load_and_decide read gather load decide_on
    decided Decide.decide Decide.expire commit make_batch append check_append repeats_idem
    repeats_origin eqb_ℤ seal_all seal meta_hash signed last_hash store_all store text_eq
    contains_text publish_written publish project record_at
handle-Refines_example =
    handle-Refines options contract expiry_codec-IsCodec alice command 7 world new_ledger-IsGood
      refl refl

-- Before it.
handle-Recorded_example :
    Recorded options contract alice command 3
      (HandleError.rejected Rejection.not_yet)
      world
      (handle options alice command 3 world).1
unfolding contract handle validate replay_or_load lookup load_and_decide read gather load decide_on
    decided Decide.decide Decide.expire record_rejection append_rejected append check_append
    repeats_idem repeats_origin eqb_ℤ seal_all seal meta_hash signed last_hash store_all store
    text_eq contains_text project record_at
handle-Recorded_example =
    handle-Recorded options contract alice command 3 world (HandleError.rejected Rejection.not_yet)
      new_ledger-IsGood refl (λ h. ground arith)

abbrev range : Range
range = record { stream = codes "gate/g1"; from_ver = 1; to_ver = 1; from_seq = 1; to_seq = 1 }

-- What the command writes.
abbrev expiry : Envelope
expiry =
    new_record (codes "GateExpired") (pos 1) 7 alice
      (record { refs = codes "gate/g1" ∷ []; constraints_hash = []; autonomy = l1 })
      (7 ∷ codes "g1") (codes "i1")

abbrev written : World Ledger ℕ
written = record world {
  ledger = (append none new_ledger (codes "gate/g1") (pos 0) (expiry ∷ [])).1;
}

-- The same command, an hour of the clock later.
handle-once_example :
    (first : Envelope) × (first.ver ≡ 1)
    × Repeats options contract command first written (handle options alice command 9 written)
unfolding contract handle validate replay_or_load lookup load_and_decide read gather load decide_on
    decided Decide.decide Decide.expire commit make_batch append check_append repeats_idem
    repeats_origin eqb_ℤ seal_all seal meta_hash signed last_hash store_all store text_eq
    contains_text publish_written publish project record_at last_with
handle-once_example =
    handle-once options contract alice command 7 world range alice 9 written [] new_ledger-IsGood
      refl refl
      (append-IsGood none new_ledger new_ledger-IsGood (codes "gate/g1") (pos 0) (expiry ∷ [])) refl
      refl refl

-- Another gate's stream grows while the command is decided.
abbrev meanwhile : World Ledger ℕ
meanwhile = record world {
  ledger = (append none new_ledger (codes "gate/g2") (pos 0) (event ∷ [])).1;
}

abbrev later : Range
later = record { stream = codes "gate/g1"; from_ver = 1; to_ver = 1; from_seq = 2; to_seq = 2 }

commit-Interleaves_example :
    (Loads options contract meanwhile command open_gate 0)
    × Loads options contract
        (commit options command alice 7
          (context alice 7 l1)
          0
          (GateEvent.gate_expired (codes "g1") 7 ∷ [])
          meanwhile).1
        command
        (after Decide.decide Decide.apply open_gate command (context alice 7 l1))
        (commit options command alice 7
          (context alice 7 l1)
          0
          (GateEvent.gate_expired (codes "g1") 7 ∷ [])
          meanwhile).0.0.version
unfolding contract load Decide.decide Decide.expire commit make_batch append check_append
    repeats_idem repeats_origin eqb_ℤ seal_all seal meta_hash signed last_hash store_all store
    text_eq contains_text publish_written publish project read gather record_at filter
commit-Interleaves_example =
    commit-Interleaves options contract expiry_codec-IsCodec alice command 7 (context alice 7 l1)
      open_gate 0 (GateEvent.gate_expired (codes "g1") 7 ∷ []) world meanwhile meanwhile.ledger.all
      later new_ledger-IsGood
      (append-IsGood none new_ledger new_ledger-IsGood (codes "gate/g2") (pos 0) (event ∷ [])) refl
      refl refl refl
