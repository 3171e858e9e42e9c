-- ===== src/Ledger/Integrity.antt =====
-- internal/adapter/memory/ledger.go: the ledger as a whole, after one append and after many.
use keelage.Prelude.{
  ℕ, ◌+◌, ◌<◌, ◌≤◌, ◌≡◌, refl, ap, ◌⊎◌, inl, inr, Option, none, Option-cases, Sum-cases, List, [],
  ◌∷◌, ◌++◌, length, arith,
}
use keelage.Prelude.Int.{ℤ, pos, eqb_ℤ}
use keelage.Prelude.Text.{Text}
use keelage.Core.Envelope.{Envelope, Sealing, verify_chain}
use keelage.Core.Envelope.Chain.{Chained, Chained-append, verify_chain-Chained}
use keelage.Ledger.State.{LedgerError, Range, Ledger, new_ledger, last_hash, head}
use keelage.Ledger.Append.{Signer, seal_all, store_all, check_append, append}
use keelage.Ledger.Copied.{Copied, seal_all-Copied}
use keelage.Ledger.Appended.{
  last_hash-Chained, seal_all-Chained, store_all-all, store_all-streams, store_all-grows,
}

-- What an `Append` that returns a range has done.
pub record Appends (l : Ledger) (stream : Text) (evs : List Envelope) (r : Range) (l' : Ledger)
    : Type 0 where
  pub sealed :
      (out : List Envelope) × (l'.all ≡ l.all ++ out)
      × (length out ≡ length evs)
      × Copied stream (length (l.streams stream) + 1) evs out
  pub streams : length (l'.streams stream) ≡ length (l.streams stream) + length evs
  pub from_ver : r.from_ver ≡ length (l.streams stream) + 1
  pub to_ver : r.to_ver ≡ length (l'.streams stream)
  pub from_seq : r.from_seq ≡ length l.all + 1
  pub to_seq : r.to_seq ≡ length l'.all

module _ ⦃go : Sealing⦄ where
  -- The two ways that `Append` ends.
  pub data Ends (signer : Option Signer) (l : Ledger) (stream : Text) (expected : ℤ)
      (evs : List Envelope) : (LedgerError ⊎ Range) × Ledger → Type 0 where
    refused : (problem : LedgerError) → Ends signer l stream expected evs (inl problem, l)
    written :
        (out : List Envelope) (r : Range)
        → check_append l stream expected evs ≡ none
        → Appends l stream evs r (store_all stream l out)
        → Chained (length l.all + 1) (last_hash [] l.all) out (last_hash (last_hash [] l.all) out)
        → Ends signer l stream expected evs (inr r, store_all stream l out)

  pub append-Ends :
      (signer : Option Signer) (l : Ledger) (stream : Text) (expected : ℤ) (evs : List Envelope)
      → Ends signer l stream expected evs (append signer l stream expected evs)
  unfolding append
  append-Ends signer l stream expected evs =
      let start = last_hash [] l.all in
      let cur = length (l.streams stream) in
      elim (Option-cases (check_append l stream expected evs)) [
        | inr (problem, bad) ↦ rw (append, bad) (Ends.refused problem)
        | inl ok ↦
            elim (Sum-cases (seal_all signer stream (cur + 1) (length l.all + 1) start evs)) [
              | inl (problem, bad) ↦ rw (append, ok, bad) (Ends.refused problem)
              | inr (out, good) ↦
                  let (c, size) =
                    seal_all-Chained signer stream (cur + 1) (length l.all + 1) start evs out
                      good in
                  let grown = store_all-streams stream l out in
                  rw (append, ok, good)
                    (Ends.written out _ ok
                      (record {
                        sealed = (
                          out,
                          store_all-all stream l out,
                          size,
                          seal_all-Copied signer stream (cur + 1) (length l.all + 1) start evs out
                              good,
                        );
                        streams = omega arith;
                        from_ver = refl;
                        to_ver = omega arith;
                        from_seq = refl;
                        to_seq = refl;
                      })
                      c)
            ]
      ]

  -- The records are one chain from the first on, numbered from 1, that ends at the head.
  pub IsIntact : Ledger → Type 0
  IsIntact l = Chained 1 [] l.all (head l).hash

  step-IsIntact :
      (signer : Option Signer) (l : Ledger) (stream : Text) (expected : ℤ) (evs : List Envelope)
      (end : (LedgerError ⊎ Range) × Ledger)
      → IsIntact l
      → Ends signer l stream expected evs end
      → IsIntact end.1
  unfolding IsIntact head
  step-IsIntact signer l stream expected evs end i (Ends.refused problem) = i
  step-IsIntact signer l stream expected evs end i (Ends.written out r ok a c) =
      let whole = Chained-append 1 (length l.all + 1) l.all out (omega arith) i c in
      rw (store_all-all stream l out, last_hash-Chained (l.all ++ out) whole) whole

  -- One append after another, each by whatever signer, to whatever stream.
  unfoldable pub run_appends : Ledger → List (Option Signer × Text × ℤ × List Envelope) → Ledger
  run_appends l [] = l
  run_appends l ((signer, stream, expected, evs) ∷ history) =
      run_appends (append signer l stream expected evs).1 history

  new_ledger-IsIntact : IsIntact new_ledger
  unfolding IsIntact head last_hash
  new_ledger-IsIntact = Chained.end

  run_appends-IsIntact :
      (l : Ledger) (history : List (Option Signer × Text × ℤ × List Envelope))
      → IsIntact l
      → IsIntact (run_appends l history)
  unfolding run_appends
  run_appends-IsIntact l [] i = i
  run_appends-IsIntact l ((signer, stream, expected, evs) ∷ history) i =
      run_appends-IsIntact (append signer l stream expected evs).1 history (
        step-IsIntact signer l stream expected evs (append signer l stream expected evs) i
          (append-Ends signer l stream expected evs))

  -- Whatever is appended to a new ledger, and by whichever signers, `VerifyChain` accepts all its
  -- records from the beginning and gives the hash that `Head` reports.
  pub verify_chain-run_appends :
      (history : List (Option Signer × Text × ℤ × List Envelope))
      → verify_chain [] (run_appends new_ledger history).all
        ≡ inr (head (run_appends new_ledger history)).hash
  unfolding IsIntact
  verify_chain-run_appends history =
      let l = run_appends new_ledger history in
      verify_chain-Chained 1 [] (head l).hash l.all
        (run_appends-IsIntact new_ledger history new_ledger-IsIntact)

  -- An `Append` either refuses and leaves the ledger as it was, or writes, behind the records that
  -- were there and in the order of the batch, a record of the stream for each of the batch, with its
  -- kind, version of the kind, body, actor, meta and key, at consecutive versions, and returns their
  -- range.
  pub append_is_atomic :
      (signer : Option Signer) (l : Ledger) (stream : Text) (expected : ℤ) (evs : List Envelope)
      → ((problem : LedgerError) × (append signer l stream expected evs ≡ (inl problem, l)))
        ⊎ ((r : Range) × (l' : Ledger) × ((append signer l stream expected evs ≡ (inr r, l'))
              × Appends l stream evs r l'))
  append_is_atomic signer l stream expected evs =
      ended (append signer l stream expected evs) (append-Ends signer l stream expected evs)
    where
      ended :
          (end : (LedgerError ⊎ Range) × Ledger)
          → Ends signer l stream expected evs end
          → ((problem : LedgerError) × (end ≡ (inl problem, l)))
            ⊎ ((r : Range) × (l' : Ledger) × ((end ≡ (inr r, l')) × Appends l stream evs r l'))
      ended end (Ends.refused problem) = inl (problem, refl)
      ended end (Ends.written out r ok a c) = inr (r, _, (refl, a))

  passed :
      (l : Ledger) (stream : Text) (n : ℕ) (evs : List Envelope)
      → check_append l stream (pos n) evs ≡ none
      → (n ≡ length (l.streams stream)) × (0 < length evs)
  unfolding check_append eqb_ℤ
  passed l stream n [] h = absurd (ground arith)
  passed l stream n (e ∷ evs) h = (ground arith, omega arith)

  in_time :
      (signer : Option Signer) (l : Ledger) (stream : Text) (n : ℕ) (evs : List Envelope)
      (end : (LedgerError ⊎ Range) × Ledger) (r : Range) (l' : Ledger)
      → Ends signer l stream (pos n) evs end
      → end ≡ (inr r, l')
      → (n ≡ length (l.streams stream)) × (n < length (l'.streams stream))
  in_time signer l stream n evs end r l' (Ends.refused problem) e = absurd (ground arith)
  in_time signer l stream n evs end r l' (Ends.written out s ok a c) e =
      let (cur, some_evs) = passed l stream n evs ok in
      let same : store_all stream l out ≡ l' = ap (λ x. x.1) e in
      let grown = a.streams in (cur, rw (← same) (omega arith))

  Ends-grows :
      (signer : Option Signer) (l : Ledger) (stream : Text) (expected : ℤ) (evs : List Envelope)
      (end : (LedgerError ⊎ Range) × Ledger) (other : Text)
      → Ends signer l stream expected evs end
      → length (l.streams other) ≤ length (end.1.streams other)
  Ends-grows signer l stream expected evs end other (Ends.refused problem) = omega arith
  Ends-grows signer l stream expected evs end other (Ends.written out r ok a c) =
      store_all-grows stream other l out

  run_appends-grows :
      (l : Ledger) (history : List (Option Signer × Text × ℤ × List Envelope)) (other : Text)
      → length (l.streams other) ≤ length ((run_appends l history).streams other)
  unfolding run_appends
  run_appends-grows l [] other = omega arith
  run_appends-grows l ((signer, stream, expected, evs) ∷ history) other =
      let next = append signer l stream expected evs in
      let one =
        Ends-grows signer l stream expected evs next other
          (append-Ends signer l stream expected evs) in
      let more = run_appends-grows next.1 history other in omega arith

  -- Of two writers that expect the same version of a stream, the second is refused: once an append
  -- that expects version `n` has written, whatever is appended to whatever streams after it, every
  -- later append to the stream that expects `n` fails, whoever signs it.
  pub second_writer_fails :
      (signer : Option Signer) (l : Ledger) (stream : Text) (n : ℕ) (evs : List Envelope)
      (r : Range) (l' : Ledger) (between : List (Option Signer × Text × ℤ × List Envelope))
      (signer' : Option Signer) (other : List Envelope) (s : Range) (l'' : Ledger)
      → append signer l stream (pos n) evs ≡ (inr r, l')
      → ¬ (append signer' (run_appends l' between) stream (pos n) other ≡ (inr s, l''))
  second_writer_fails signer l stream n evs r l' between signer' other s l'' first second =
      let (_, later) =
        in_time signer l stream n evs _ r l' (append-Ends signer l stream (pos n) evs) first in
      let (again, _) =
        in_time signer' (run_appends l' between) stream n other _ s l''
          (append-Ends signer' (run_appends l' between) stream (pos n) other) second in
      let grown = run_appends-grows l' between stream in omega arith
