-- ===== src/Ledger/Views.antt =====
-- internal/adapter/memory/ledger.go: the reads of a ledger that was only ever appended to.
use keelage.Prelude.{ℕ, ◌≡◌, refl, ◌⊎◌, inl, inr, Option, none, some, List, [], ◌∷◌}
use keelage.Prelude.Int.{ℤ}
use keelage.Prelude.Text.{Text}
use keelage.Core.Envelope.{Envelope, Sealing}
use keelage.Ledger.State.{LedgerError, Ledger, new_ledger, idem_key, origin_key, lookup}
use keelage.Ledger.Append.{Signer, append}
use keelage.Ledger.Integrity.{run_appends}
use keelage.Ledger.Reads.{read, find_origin}
use keelage.Ledger.Log.{filter, is_read, has_idem, has_origin, last_with, last_position-Finds}
use keelage.Ledger.Port.{of_stream, Numbered}
use keelage.Ledger.Memory.{IsGood, new_ledger-IsGood, found_or, read_lem, lookup_lem, append-IsGood}

-- `FindOrigin`'s result, from the record that there is.
abbrev pub seq_or : Option Envelope → LedgerError ⊎ ℕ
seq_or none = inl LedgerError.not_found
seq_or (some e) = inr e.seq

find_origin_lem :
    (l : Ledger) (daemon : Text) (local_seq : ℤ)
    → IsGood l
    → find_origin l daemon local_seq
      ≡ seq_or (last_with (has_origin (origin_key daemon local_seq)) l.all)
unfolding find_origin
find_origin_lem l daemon local_seq g =
    let found = last_position-Finds (has_origin (origin_key daemon local_seq)) [] l.all in
    rw (find_origin, g.indexed.origins (origin_key daemon local_seq))
      (elim found.by [ inl (a, b) ↦ rw (a, b) refl | inr (i, e, a, b, c) ↦ rw (a, b) (rw c refl) ])

-- What the reads give, and the versions of a stream's records, in terms of the log.
pub record ReadsLog (l : Ledger) : Type 0 where
  pub read_is : (stream : Text) (from : ℕ) → read l stream from ≡ filter (is_read stream from) l.all
  pub lookup_is :
      (stream idem : Text)
      → lookup l stream idem ≡ found_or (last_with (has_idem (idem_key stream idem)) l.all)
  pub find_origin_is :
      (daemon : Text) (local_seq : ℤ)
      → find_origin l daemon local_seq
        ≡ seq_or (last_with (has_origin (origin_key daemon local_seq)) l.all)
  pub versions : (stream : Text) → Numbered 1 (of_stream stream l.all)

module _ ⦃go : Sealing⦄ where
  run_appends-IsGood :
      (l : Ledger) (history : List (Option Signer × Text × ℤ × List Envelope))
      → IsGood l
      → IsGood (run_appends l history)
  unfolding run_appends
  run_appends-IsGood l [] g = g
  run_appends-IsGood l ((signer, stream, expected, evs) ∷ history) g =
      run_appends-IsGood (append signer l stream expected evs).1 history
        (append-IsGood signer l g stream expected evs)

  -- Whatever is appended to a new ledger, its indices answer as a scan of all its records would:
  -- `Read` with the records of the stream from the version on, in order, `Lookup` and `FindOrigin`
  -- with the last record that carries the key; and each stream's versions count from 1.
  pub run_appends-ReadsLog :
      (history : List (Option Signer × Text × ℤ × List Envelope))
      → ReadsLog (run_appends new_ledger history)
  run_appends-ReadsLog history =
      let l = run_appends new_ledger history in
      let g = run_appends-IsGood new_ledger history new_ledger-IsGood in
      record {
        read_is = read_lem l g;
        lookup_is = lookup_lem l g;
        find_origin_is = λ daemon local_seq. find_origin_lem l daemon local_seq g;
        versions = g.numbered;
      }
