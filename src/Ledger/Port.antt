-- ===== src/Ledger/Port.antt =====
-- internal/port/ledger.go: the interface `Ledger` that the rest of the program uses, and the contract
-- in its comments.
use keelage.Prelude.{
  ℕ, suc, ◌+◌, ◌≡◌, ◌⊎◌, inl, inr, false, none, some, List, [], ◌∷◌, ◌++◌, length, All,
}
use keelage.Prelude.Int.{ℤ, pos}
use keelage.Prelude.Text.{Text, is_empty, text_eq}
use keelage.Core.Envelope.{Envelope}
use keelage.Ledger.State.{LedgerError, Range, any_version, idem_key}
use keelage.Ledger.Copied.{Copied}
use keelage.Ledger.Log.{filter, is_read, has_idem, last_with}

-- The operations, on the implementation's own state.
pub record LedgerPort (L : Type 0) : Type 0 where
  pub append : L → Text → ℤ → List Envelope → (LedgerError ⊎ Range) × L
  pub read : L → Text → ℕ → LedgerError ⊎ List Envelope
  pub lookup : L → Text → Text → LedgerError ⊎ Envelope

-- The records of a stream.
abbrev pub of_stream : Text → List Envelope → List Envelope
of_stream stream all = filter (λ e. text_eq e.stream stream) all

-- Consecutive versions from `n` on.
abbrev pub Numbered : ℕ → List Envelope → Type 0
Numbered n [] = Unit
Numbered n (e ∷ es) = (e.ver ≡ n) × Numbered (suc n) es

-- No record of the log carries the key of this one.
abbrev pub IsFresh : Text → List Envelope → Envelope → Type 0
IsFresh stream all e =
    is_empty e.idem ≡ false → last_with (has_idem (idem_key stream e.idem)) all ≡ none

-- What an append to the log `all` has done that ends with `all'`.
pub record Extends (stream : Text) (expected : ℤ) (evs : List Envelope) (all : List Envelope)
    (r : Range) (all' : List Envelope) : Type 0 where
  pub out : List Envelope
  pub whole : all' ≡ all ++ out
  pub copied : Copied stream (length (of_stream stream all) + 1) evs out
  pub matches : (expected ≡ any_version) ⊎ (expected ≡ pos (length (of_stream stream all)))
  pub fresh : All (IsFresh stream all) evs
  pub from_ver : r.from_ver ≡ length (of_stream stream all) + 1
  pub to_ver : r.to_ver ≡ length (of_stream stream all) + length evs

-- The contract: the state stands for a log, a list of records, that reads are answered from and that
-- appends extend. A read may fail; what it gives, if it does not, is right.
pub record Contract (L : Type 0) (port : LedgerPort L) : Type 1 where
  pub IsGood : L → Type 0
  pub log : L → List Envelope
  pub numbered : (l : L) (stream : Text) → IsGood l → Numbered 1 (of_stream stream (log l))
  pub reads :
      (l : L) (stream : Text) (from : ℕ) (es : List Envelope)
      → IsGood l
      → port.read l stream from ≡ inr es
      → es ≡ filter (is_read stream from) (log l)
  pub finds :
      (l : L) (stream idem : Text) (e : Envelope)
      → IsGood l
      → port.lookup l stream idem ≡ inr e
      → last_with (has_idem (idem_key stream idem)) (log l) ≡ some e
  pub misses :
      (l : L) (stream idem : Text)
      → IsGood l
      → port.lookup l stream idem ≡ inl LedgerError.not_found
      → last_with (has_idem (idem_key stream idem)) (log l) ≡ none
  pub refuses :
      (l : L) (stream : Text) (expected : ℤ) (evs : List Envelope) (problem : LedgerError) (l' : L)
      → IsGood l
      → port.append l stream expected evs ≡ (inl problem, l')
      → (log l' ≡ log l) × IsGood l'
  pub extends :
      (l : L) (stream : Text) (expected : ℤ) (evs : List Envelope) (r : Range) (l' : L)
      → IsGood l
      → port.append l stream expected evs ≡ (inr r, l')
      → (Extends stream expected evs (log l) r (log l')) × IsGood l'
