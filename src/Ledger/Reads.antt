-- ===== src/Ledger/Reads.antt =====
-- internal/adapter/memory/ledger.go: `Read`, `ReadAll` and `FindOrigin`.
use keelage.Prelude.{
  ℕ, zero, suc, ◌-◌, ◌&&◌, ◌⊎◌, inl, inr, none, some, List, [], ◌∷◌, leb, ltb, if◌then◌else◌,
}
use keelage.Prelude.Int.{ℤ}
use keelage.Prelude.Text.{Text}
use keelage.Core.Envelope.{Envelope}
use keelage.Ledger.State.{LedgerError, Ledger, origin_key, record_at}

-- The loop of `Read`: the records at the indices, those from version `from` on.
unfoldable pub gather : List Envelope → ℕ → List ℕ → List Envelope
gather all from [] = []
gather all from (i ∷ idxs) =
    let rest = gather all from idxs in
    elim (record_at all i) [ none ↦ rest | some e ↦ if leb from e.ver then e ∷ rest else rest ]

-- `Read`. Its callers pass no negative version.
unfoldable pub read : Ledger → Text → ℕ → List Envelope
read l stream from = gather l.all from (l.streams stream)

-- The loop of `ReadAll` over the records that are left, `count` of them taken before.
unfoldable pub page : ℕ → ℕ → List Envelope → List Envelope
page limit count [] = []
page limit count (e ∷ es) =
    let rest = page limit (suc count) es in if ltb 0 limit && leb limit count then [] else e ∷ rest

-- The records from index `i` on.
unfoldable pub drop : ℕ → List Envelope → List Envelope
drop zero es = es
drop (suc i) [] = []
drop (suc i) (e ∷ es) = drop i es

-- `ReadAll`. Its callers pass no negative number; subtraction on ℕ makes a `from_seq` of 0 a 1.
unfoldable pub read_all : Ledger → ℕ → ℕ → List Envelope
read_all l from_seq limit = page limit 0 (drop (from_seq - 1) l.all)

-- `FindOrigin`.
unfoldable pub find_origin : Ledger → Text → ℤ → LedgerError ⊎ ℕ
find_origin l daemon local_seq = elim (l.origins (origin_key daemon local_seq)) [
  | none ↦ inl LedgerError.not_found
  | some i ↦ elim (record_at l.all i) [ none ↦ inl LedgerError.not_found | some e ↦ inr e.seq ]
]
