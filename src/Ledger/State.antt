-- ===== src/Ledger/State.antt =====
-- internal/adapter/memory/ledger.go and internal/port/ledger.go: the ledger's state, its errors, and
-- its reads.
use keelage.Prelude.{
  ℕ, zero, suc, ◌⊎◌, inl, inr, Option, none, some, List, [], ◌∷◌, ◌++◌, length, if◌then◌else◌,
}
use keelage.Prelude.Int.{ℤ, pos, negsuc}
use keelage.Prelude.Text.{Text, text_eq, itoa}
use keelage.Core.Envelope.{Hash, Envelope}

pub data LedgerError : Type 0 where
  version_conflict duplicate_idempotency_key empty_append not_found duplicate_origin : LedgerError
  unsealed unsigned : LedgerError

-- `AnyVersion`.
abbrev pub any_version : ℤ
any_version = negsuc 0

pub record Range : Type 0 where
  pub stream : Text
  pub from_ver : ℕ
  pub to_ver : ℕ
  pub from_seq : ℕ
  pub to_seq : ℕ

pub record Head : Type 0 where
  pub seq : ℕ
  pub hash : Hash

-- A map of Go is a function; a missing key gives `none`, and in `streams` the empty list.
pub record Ledger : Type 0 where
  pub all : List Envelope
  pub streams : Text → List ℕ
  pub idem : Text → Option ℕ
  pub origins : Text → Option ℕ

-- `NewLedger`.
abbrev pub new_ledger : Ledger
new_ledger = record { all = []; streams = λ stream. []; idem = λ key. none; origins = λ key. none }

-- The byte between the parts of a key.
abbrev separator : ℕ
separator = 0

-- `idemKey`.
abbrev pub idem_key : Text → Text → Text
idem_key stream idem = stream ++ (separator ∷ idem)

-- `strconv.FormatInt(n, 10)`.
abbrev pub format_int : ℤ → Text
format_int (pos n) = itoa n
format_int (negsuc n) = b'-' ∷ itoa (suc n)

-- `originKey`.
abbrev pub origin_key : Text → ℤ → Text
origin_key daemon local_seq = daemon ++ (separator ∷ format_int local_seq)

-- `m[key] = value`.
abbrev pub set {ℓ} : {V : Type ℓ} → (Text → V) → Text → V → Text → V
set m key value k = if text_eq k key then value else m k

-- `l.all[i]`, `none` where Go panics.
unfoldable pub record_at : List Envelope → ℕ → Option Envelope
record_at [] i = none
record_at (e ∷ es) zero = some e
record_at (e ∷ es) (suc i) = record_at es i

-- The hash of the last record, the empty one of an empty ledger.
unfoldable pub last_hash : Hash → List Envelope → Hash
last_hash prev [] = prev
last_hash prev (e ∷ es) = last_hash e.hash es

-- `Head`.
unfoldable pub head : Ledger → Head
head l = record { seq = length l.all; hash = last_hash [] l.all }

-- `Lookup`.
unfoldable pub lookup : Ledger → Text → Text → LedgerError ⊎ Envelope
lookup l stream idem = elim (l.idem (idem_key stream idem)) [
  | none ↦ inl LedgerError.not_found
  | some i ↦ elim (record_at l.all i) [ none ↦ inl LedgerError.not_found | some e ↦ inr e ]
]
