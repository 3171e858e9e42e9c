-- ===== src/Tests/Ledgers.antt =====
-- A ledger that two writers append to, with a hash that is the text itself.
use keelage.Prelude.{◌≡◌, ◌⊎◌, refl, inl, inr, Option, none, some, List, [], ◌∷◌}
use keelage.Prelude.Int.{ℤ, pos, eqb_ℤ}
use keelage.Prelude.Text.{Text, codes, text_eq, contains_text}
use keelage.Core.Level.{l0}
use keelage.Core.Envelope.{Envelope, Sealing, meta_hash, seal, dated, sealed, verify_chain}
use keelage.Ledger.State.{LedgerError, Range, Ledger, new_ledger, last_hash, head}
use keelage.Ledger.Append.{
  Signer, signed, seal_all, store, store_all, repeats_idem, repeats_origin, check_append, append,
}
use keelage.Ledger.Integrity.{
  Appends, run_appends, verify_chain-run_appends, append_is_atomic, second_writer_fails,
}
use keelage.Ledger.Views.{ReadsLog, run_appends-ReadsLog}
use keelage.Tests.Values.{alice}

instance abbrev pub plain_sealing : Sealing
plain_sealing = record { sha256 = λ t. t; format_time = λ t. []; marshal_meta = λ m. some m.stream }

abbrev pub event : Envelope
event = record {
  seq = 0;
  stream = [];
  ver = 0;
  kind = codes "GateExpired";
  v = pos 1;
  ts = 5;
  actor = alice;
  meta = record { refs = []; constraints_hash = []; autonomy = l0 };
  body = codes "x";
  meta_hash = [];
  body_hash = [];
  prev_hash = [];
  hash = [];
  sig = [];
  idem = codes "i1";
  origin = none;
}

abbrev placed_event : Envelope
placed_event = record event { stream = codes "gate/1"; ver = 1; seq = 1 }

seals : seal placed_event [] ≡ some (sealed (dated placed_event) [] (codes "gate/1"))
unfolding seal meta_hash
seals = refl

abbrev history : List (Option Signer × Text × ℤ × List Envelope)
history =
    (none, codes "gate/1", pos 0, event ∷ [])
    ∷ (some (λ h. some (codes "sig")), codes "gate/2", pos 0, event ∷ [])
    ∷ []

verify_chain-run_appends_example :
    verify_chain [] (run_appends new_ledger history).all
    ≡ inr (head (run_appends new_ledger history)).hash
verify_chain-run_appends_example = verify_chain-run_appends history

append_is_atomic_example :
    ((problem : LedgerError) × (append none new_ledger (codes "gate/1") (pos 0) (event ∷ [])
        ≡ (inl problem, new_ledger)))
    ⊎ ((r : Range) × (l' : Ledger) × ((append none new_ledger (codes "gate/1") (pos 0) (event ∷ [])
            ≡ (inr r, l'))
          × Appends new_ledger (codes "gate/1") (event ∷ []) r l'))
append_is_atomic_example = append_is_atomic none new_ledger (codes "gate/1") (pos 0) (event ∷ [])

abbrev written : Range
written = record { stream = codes "gate/1"; from_ver = 1; to_ver = 1; from_seq = 1; to_seq = 1 }

abbrev ledger : Ledger
ledger =
    store_all (codes "gate/1") new_ledger (sealed (dated placed_event) [] (codes "gate/1") ∷ [])

writes : append none new_ledger (codes "gate/1") (pos 0) (event ∷ []) ≡ (inr written, ledger)
unfolding append check_append repeats_idem repeats_origin eqb_ℤ seal_all seal meta_hash signed
    last_hash store_all store text_eq contains_text
writes = refl

-- The same expected version again, by another signer, after appends to this stream and to another.
second_writer_fails_example : ¬ (
    append
      (some (λ h. some (codes "sig")))
      (run_appends ledger history)
      (codes "gate/1")
      (pos 0)
      (event ∷ [])
    ≡ (inr written, ledger))
second_writer_fails_example =
    second_writer_fails none new_ledger (codes "gate/1") 0 (event ∷ []) written ledger history
      (some (λ h. some (codes "sig"))) (event ∷ []) written ledger writes

run_appends-ReadsLog_example : ReadsLog (run_appends new_ledger history)
run_appends-ReadsLog_example = run_appends-ReadsLog history
