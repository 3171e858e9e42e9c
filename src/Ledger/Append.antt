-- ===== src/Ledger/Append.antt =====
-- internal/adapter/memory/ledger.go: `Append`.
use keelage.Prelude.{
  ℕ, suc, ◌+◌, Bool, true, false, not, ◌&&◌, ◌||◌, ◌⊎◌, inl, inr, Option, none, some, List, [], ◌∷◌,
  ◌++◌, length, is_nil, if◌then◌else◌,
}
use keelage.Prelude.Int.{ℤ, pos, eqb_ℤ}
use keelage.Prelude.Text.{Text, is_empty, contains_text}
use keelage.Core.Envelope.{Hash, Envelope, Sealing, seal}
use keelage.Ledger.State.{
  LedgerError, any_version, Range, Ledger, idem_key, origin_key, set, last_hash,
}

-- `port.Signer`, of which the ledger calls `Sign`, `none` for an error.
abbrev pub Signer : Type 0
Signer = Hash → Option Text

abbrev pub is_some {ℓ} : {A : Type ℓ} → Option A → Bool
is_some none = false
is_some (some a) = true

-- The first loop: whether a key was appended before or stands twice in the batch.
unfoldable pub repeats_idem : Ledger → Text → List Text → List Envelope → Bool
repeats_idem l stream batch [] = false
repeats_idem l stream batch (e ∷ evs) =
    let key = idem_key stream e.idem in
    let rest = repeats_idem l stream (if is_empty e.idem then batch else key ∷ batch) evs in
    if is_empty e.idem then rest else (is_some (l.idem key) || (contains_text batch key || rest))

-- The second loop.
unfoldable pub repeats_origin : Ledger → List Envelope → Bool
repeats_origin l [] = false
repeats_origin l (e ∷ evs) =
    elim e.origin [
      | none ↦ false
      | some o ↦ is_some (l.origins (origin_key o.daemon_id o.local_seq))
    ]
    || repeats_origin l evs

-- The record at its place in its stream and in the ledger.
abbrev pub placed : Text → ℕ → ℕ → Envelope → Envelope
placed stream ver seq e = record e { stream = stream; ver = ver; seq = seq }

-- `Sign`, where there is a signer and the record has no signature.
unfoldable pub signed : Option Signer → Envelope → Option Envelope
signed none e = some e
signed (some sign) e =
    if is_empty e.sig
    then elim (sign e.hash) [ none ↦ none | some sig ↦ some (record e { sig = sig }) ]
    else some e

-- The third loop, from version `ver` and sequence number `seq` on.
unfoldable pub seal_all :
    ⦃go : Sealing⦄
    → Option Signer
    → Text
    → ℕ
    → ℕ
    → Hash
    → List Envelope
    → LedgerError ⊎ List Envelope
seal_all signer stream ver seq prev [] = inr []
seal_all signer stream ver seq prev (e ∷ evs) = elim (seal (placed stream ver seq e) prev) [
  | none ↦ inl LedgerError.unsealed
  | some s ↦ elim (signed signer s) [
    | none ↦ inl LedgerError.unsigned
    | some t ↦ elim (seal_all signer stream (suc ver) (suc seq) t.hash evs) [
      | inl problem ↦ inl problem
      | inr rest ↦ inr (t ∷ rest)
    ]
  ]
]

-- The last loop.
unfoldable pub store : Text → Ledger → Envelope → Ledger
store stream l e =
    let idx = length l.all in
    record {
      all = l.all ++ (e ∷ []);
      streams = set l.streams stream (l.streams stream ++ (idx ∷ []));
      idem = if is_empty e.idem then l.idem else set l.idem (idem_key stream e.idem) (some idx);
      origins = elim e.origin [
        | none ↦ l.origins
        | some o ↦ set l.origins (origin_key o.daemon_id o.local_seq) (some idx)
      ];
    }

unfoldable pub store_all : Text → Ledger → List Envelope → Ledger
unfolding store
store_all stream l [] = l
store_all stream l (e ∷ evs) = store_all stream (store stream l e) evs

-- The guards of `Append`, before anything is sealed.
unfoldable pub check_append : Ledger → Text → ℤ → List Envelope → Option LedgerError
check_append l stream expected evs =
    if is_nil evs
    then some LedgerError.empty_append
    else if repeats_idem l stream [] evs
    then some LedgerError.duplicate_idempotency_key
    else if repeats_origin l evs
    then some LedgerError.duplicate_origin
    else if not (eqb_ℤ expected any_version)
        && not (eqb_ℤ expected (pos (length (l.streams stream))))
    then some LedgerError.version_conflict
    else none

-- `Append`: the error or the range, and the ledger afterwards.
unfoldable pub append :
    ⦃go : Sealing⦄
    → Option Signer
    → Ledger
    → Text
    → ℤ
    → List Envelope
    → (LedgerError ⊎ Range) × Ledger
append signer l stream expected evs = elim (check_append l stream expected evs) [
  | some problem ↦ (inl problem, l)
  | none ↦
      elim (seal_all signer stream (length (l.streams stream) + 1) (length l.all + 1)
        (last_hash [] l.all) evs) [
          | inl problem ↦ (inl problem, l)
          | inr sealed ↦ (
            inr (record {
              stream = stream;
              from_ver = length (l.streams stream) + 1;
              to_ver = length (l.streams stream) + length evs;
              from_seq = length l.all + 1;
              to_seq = length (store_all stream l sealed).all;
            }),
            store_all stream l sealed,
          )
        ]
]
