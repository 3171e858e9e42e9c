-- ===== src/Ledger/Log.antt =====
-- internal/port/ledger.go: what the interface `Ledger` says of its reads, stated of the list of all
-- records; and that internal/adapter/memory/ledger.go keeps to it.
use mathlib.Core.List.{append_assoc}
use keelage.Prelude.{
  ℕ, suc, ◌+◌, ◌≡◌, refl, Bool, false, not, ◌&&◌, ◌⊎◌, inl, inr, Option, none, some, Bool-cases,
  List, [], ◌∷◌, ◌++◌, length, length-append, leb, if◌then◌else◌, arith,
}
use keelage.Prelude.Text.{Text, is_empty, text_eq}
use keelage.Core.Envelope.{Envelope}
use keelage.Ledger.State.{idem_key, origin_key, record_at}
use keelage.Ledger.Reads.{gather}

-- The records of a log that pass a test, in the order of the log.
unfoldable pub filter {ℓ} : {A : Type ℓ} → (A → Bool) → List A → List A
filter p [] = []
filter p (x ∷ xs) = let rest = filter p xs in if p x then x ∷ rest else rest

-- The record belongs to the stream, and to the part of it from version `from` on.
abbrev pub is_read : Text → ℕ → Envelope → Bool
is_read stream from e = text_eq e.stream stream && leb from e.ver

-- The record carries the key (stream, idem).
abbrev pub has_idem : Text → Envelope → Bool
has_idem key e = not (is_empty e.idem) && text_eq key (idem_key e.stream e.idem)

-- The record has an origin of the key.
abbrev pub has_origin : Text → Envelope → Bool
has_origin key e = elim e.origin [
  | none ↦ false
  | some o ↦ text_eq key (origin_key o.daemon_id o.local_seq)
]

-- The position of the last record that passes the test, where the first stands at `n`.
unfoldable pub last_position : (Envelope → Bool) → ℕ → List Envelope → Option ℕ
last_position p n [] = none
last_position p n (e ∷ es) = elim (last_position p (suc n) es) [
  | some i ↦ some i
  | none ↦ if p e then some n else none
]

-- The positions of a stream's records.
unfoldable pub positions : Text → ℕ → List Envelope → List ℕ
positions stream n [] = []
positions stream n (e ∷ es) =
    let rest = positions stream (suc n) es in if text_eq e.stream stream then n ∷ rest else rest

pub positions-append :
    (stream : Text) (n k : ℕ) (es : List Envelope) (e : Envelope)
    → n + length es ≡ k
    → positions stream n (es ++ (e ∷ []))
      ≡ positions stream n es ++ (if text_eq e.stream stream then k ∷ [] else [])
unfolding positions
positions-append stream n k [] e at = let same : n ≡ k = omega arith in rw (← same) (ground arith)
positions-append stream n k (d ∷ es) e at =
    rw (positions-append stream (suc n) k es e (omega arith))
      (elim (Bool-cases (text_eq d.stream stream)) [ inl h ↦ rw h refl | inr h ↦ rw h refl ])

pub last_position-append :
    (p : Envelope → Bool) (n k : ℕ) (es : List Envelope) (e : Envelope)
    → n + length es ≡ k
    → last_position p n (es ++ (e ∷ [])) ≡ (if p e then some k else last_position p n es)
unfolding last_position
last_position-append p n k [] e at = let same : n ≡ k = omega arith in rw (← same) (ground arith)
last_position-append p n k (d ∷ es) e at =
    rw (last_position-append p (suc n) k es e (omega arith))
      (elim (Bool-cases (p e)) [ inl h ↦ rw h refl | inr h ↦ rw h refl ])

-- The last record that passes the test.
unfoldable pub last_with : (Envelope → Bool) → List Envelope → Option Envelope
last_with p [] = none
last_with p (e ∷ es) = elim (last_with p es) [
  | some d ↦ some d
  | none ↦ if p e then some e else none
]

-- A position of the log, and the record that stands there.
pub record Finds (all : List Envelope) (at : Option ℕ) (found : Option Envelope) : Type 0 where
  pub by :
      ((at ≡ none) × (found ≡ none))
      ⊎ ((i : ℕ) × (e : Envelope) × (at ≡ some i) × (found ≡ some e) × (record_at all i ≡ some e))

pub record_at-append :
    (before : List Envelope) (e : Envelope) (es : List Envelope)
    → record_at (before ++ (e ∷ es)) (length before) ≡ some e
unfolding record_at
record_at-append [] e es = refl
record_at-append (d ∷ before) e es = record_at-append before e es

module _ (p : Envelope → Bool) where
  pub last_position-Finds :
      (before es : List Envelope)
      → Finds (before ++ es) (last_position p (length before) es) (last_with p es)
  unfolding last_position last_with
  last_position-Finds before [] = record { by = inl (refl, refl) }
  last_position-Finds before (e ∷ es) =
      let step : (before ++ (e ∷ [])) ++ es ≡ before ++ (e ∷ es) =
        append_assoc before (e ∷ []) es in
      let size : length (before ++ (e ∷ [])) ≡ suc (length before) =
        omega (arith, length-append before (e ∷ [])) in
      let rest : Finds (before ++ (e ∷ es)) (last_position p (suc (length before)) es)
          (last_with p es) =
        rw (← step, ← size) (last_position-Finds (before ++ (e ∷ [])) es) in
      elim rest.by [
        | inr (i, d, a, b, c) ↦ rw (a, b) (record { by = inr (i, d, refl, refl, c) })
        | inl (a, b) ↦ elim (Bool-cases (p e)) [
          | inl h ↦
              rw (a, b, h)
                (record { by = inr (length before, e, refl, refl, record_at-append before e es) })
          | inr h ↦ rw (a, b, h) (record { by = inl (refl, refl) })
        ]
      ]

pub gather-positions :
    (stream : Text) (from : ℕ) (before es : List Envelope)
    → gather (before ++ es) from (positions stream (length before) es)
      ≡ filter (is_read stream from) es
unfolding gather positions filter
gather-positions stream from before [] = refl
gather-positions stream from before (e ∷ es) =
    let step : (before ++ (e ∷ [])) ++ es ≡ before ++ (e ∷ es) = append_assoc before (e ∷ []) es in
    let size : length (before ++ (e ∷ [])) ≡ suc (length before) =
      omega (arith, length-append before (e ∷ [])) in
    let rest : gather (before ++ (e ∷ es)) from (positions stream (suc (length before)) es)
        ≡ filter (is_read stream from) es =
      rw (← step, ← size) (gather-positions stream from (before ++ (e ∷ [])) es) in
    ground (arith, rest, record_at-append before e es)
