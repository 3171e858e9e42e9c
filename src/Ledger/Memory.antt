-- ===== src/Ledger/Memory.antt =====
-- internal/adapter/memory/ledger.go as an implementation of the interface of internal/port/ledger.go.
use mathlib.Core.List.{append-nil}
use keelage.Prelude.{
  ℕ, ◌+◌, ◌≡◌, refl, sym, ap, ◌∙◌, false, ◌⊎◌, inl, inr, Option, none, some, Option-cases,
  Sum-cases, Bool-cases, List, [], ◌∷◌, length, All, if◌then◌else◌, arith,
}
use keelage.Prelude.Int.{ℤ, pos, eqb_ℤ, eqb_ℤ_iff}
use keelage.Prelude.Text.{Text, is_empty, text_eq, text_eq_iff}
use keelage.Core.Envelope.{Envelope, Sealing}
use keelage.Ledger.State.{
  LedgerError, Range, Ledger, any_version, idem_key, new_ledger, last_hash, lookup,
}
use keelage.Ledger.Append.{Signer, is_some, repeats_idem, check_append, seal_all, store_all, append}
use keelage.Ledger.Appended.{store_all-all}
use keelage.Ledger.Copied.{Copied, Copied-stream, seal_all-Copied}
use keelage.Ledger.Reads.{read}
use keelage.Ledger.Log.{filter, is_read, has_idem, last_with, last_position-Finds, gather-positions}
use keelage.Ledger.Indexed.{IsIndexed, new_ledger-IsIndexed, store_all-IsIndexed}
use keelage.Ledger.Port.{LedgerPort, of_stream, Numbered, IsFresh, Extends, Contract}
use keelage.Ledger.Streams.{
  filter-append, length-positions, Numbered-append, Copied-Numbered, of_stream-same,
  of_stream-other,
}

-- The reads of the memory ledger never fail.
abbrev pub memory_port : ⦃go : Sealing⦄ → Option Signer → LedgerPort Ledger
memory_port signer = record {
  append = append signer;
  read = λ l stream from. inr (read l stream from);
  lookup = lookup;
}

pub record IsGood (l : Ledger) : Type 0 where
  pub indexed : IsIndexed l
  pub numbered : (stream : Text) → Numbered 1 (of_stream stream l.all)

pub new_ledger-IsGood : IsGood new_ledger
unfolding filter
new_ledger-IsGood = record { indexed = new_ledger-IsIndexed; numbered = λ stream. tt }

-- `Lookup`'s result, from the record that there is.
abbrev pub found_or : Option Envelope → LedgerError ⊎ Envelope
found_or none = inl LedgerError.not_found
found_or (some e) = inr e

module _ (l : Ledger) (g : IsGood l) where
  -- `Read` gives the records of the stream from version `from` on, in the order of the log.
  pub read_lem :
      (stream : Text) (from : ℕ) → read l stream from ≡ filter (is_read stream from) l.all
  unfolding read
  read_lem stream from = rw (g.indexed.streams stream) (gather-positions stream from [] l.all)

  pub reads_lem :
      ⦃go : Sealing⦄ (stream : Text) (from : ℕ) (es : List Envelope)
      → (memory_port none).read l stream from ≡ inr es
      → es ≡ filter (is_read stream from) l.all
  reads_lem stream from es h = ground (arith, read_lem stream from)

  -- `Lookup` gives the last record that carries the key.
  pub lookup_lem :
      (stream idem : Text)
      → lookup l stream idem ≡ found_or (last_with (has_idem (idem_key stream idem)) l.all)
  unfolding lookup
  lookup_lem stream idem =
      let found = last_position-Finds (has_idem (idem_key stream idem)) [] l.all in
      rw (lookup, g.indexed.idem (idem_key stream idem))
        (elim found.by [
          | inl (a, b) ↦ rw (a, b) refl
          | inr (i, e, a, b, c) ↦ rw (a, b) (rw c refl)
        ])

module _ (l : Ledger) (i : IsIndexed l) (stream : Text) where
  -- Keys that the first loop of `Append` lets through are on no record.
  repeats_idem-IsFresh :
      (batch : List Text) (evs : List Envelope)
      → repeats_idem l stream batch evs ≡ false
      → All (IsFresh stream l.all) evs
  unfolding repeats_idem
  repeats_idem-IsFresh batch [] h = tt
  repeats_idem-IsFresh batch (e ∷ evs) h = (
    λ has. missing e (ground arith),
    repeats_idem-IsFresh (if is_empty e.idem then batch else idem_key stream e.idem ∷ batch) evs
        (ground arith),
  )
    where
      missing :
          (e : Envelope)
          → is_some (l.idem (idem_key stream e.idem)) ≡ false
          → last_with (has_idem (idem_key stream e.idem)) l.all ≡ none
      missing e h =
          let key = idem_key stream e.idem in
          elim (last_position-Finds (has_idem key) [] l.all).by [
            | inl (a, b) ↦ b
            | inr (n, d, a, b, c) ↦ absurd (ground (arith, i.idem key ∙ a))
          ]

  -- Past the guards, the keys are new and the expected version is the stream's, or any.
  check_append_lem :
      (expected : ℤ) (evs : List Envelope)
      → check_append l stream expected evs ≡ none
      → (All (IsFresh stream l.all) evs)
        × ((expected ≡ any_version) ⊎ (expected ≡ pos (length (of_stream stream l.all))))
  unfolding check_append
  check_append_lem expected evs h =
      let size : length (l.streams stream) ≡ length (of_stream stream l.all) =
        ap length (i.streams stream) ∙ length-positions stream 0 l.all in
      let fresh = repeats_idem-IsFresh [] evs (ground arith) in
      let cur = pos (length (l.streams stream)) in
      (
        fresh,
        elim (Bool-cases (eqb_ℤ expected any_version)) [
          | inl any ↦ inl ((eqb_ℤ_iff expected any_version).0 any)
          | inr one ↦ elim (Bool-cases (eqb_ℤ expected cur)) [
            | inl same ↦ inr ((eqb_ℤ_iff expected cur).0 same ∙ ap pos size)
            | inr differs ↦ absurd (ground arith)
          ]
        ],
      )

-- Records copied to the end of a stream leave a good ledger.
store_all-IsGood :
    (l : Ledger) (stream : Text) (evs out : List Envelope)
    → IsGood l
    → Copied stream (length (of_stream stream l.all) + 1) evs out
    → IsGood (store_all stream l out)
store_all-IsGood l stream evs out g c = record { indexed = indexed; numbered = numbered }
  where
    here : All (λ t. t.stream ≡ stream) out
    here = Copied-stream evs out c

    indexed : IsIndexed (store_all stream l out)
    indexed = store_all-IsIndexed stream l out g.indexed here

    numbered : (other : Text) → Numbered 1 (of_stream other (store_all stream l out).all)
    numbered other =
        rw
          (
            store_all-all stream l out,
            filter-append (λ (e : Envelope). text_eq e.stream other) l.all out,
          )
          (elim (Bool-cases (text_eq stream other)) [
            | inr h ↦
                rw (of_stream-other stream other out h here, append-nil (of_stream other l.all))
                  (g.numbered other)
            | inl h ↦
                let same : stream ≡ other = (text_eq_iff stream other).0 h in
                rw (← same, of_stream-same stream out here)
                  (Numbered-append 1 (length (of_stream stream l.all) + 1) (of_stream stream l.all)
                    out (omega arith) (g.numbered stream)
                    (Copied-Numbered stream (length (of_stream stream l.all) + 1) evs out c))
          ])

module _ ⦃go : Sealing⦄ (signer : Option Signer) (l : Ledger) (g : IsGood l) (stream : Text)
    (expected : ℤ) (evs : List Envelope) where
  size : length (l.streams stream) ≡ length (of_stream stream l.all)
  size = ap length (g.indexed.streams stream) ∙ length-positions stream 0 l.all

  -- The two ways that `Append` ends.
  append_ends :
      (end : (LedgerError ⊎ Range) × Ledger)
      → append signer l stream expected evs ≡ end
      → ((problem : LedgerError) × (end ≡ (inl problem, l)))
        ⊎ ((r : Range) × (l' : Ledger) × (end ≡ (inr r, l'))
            × (Extends stream expected evs l.all r l'.all)
            × IsGood l')
  unfolding append
  append_ends end h = elim (Option-cases (check_append l stream expected evs)) [
    | inr (problem, bad) ↦ inl (problem, sym h ∙ rw (append, bad) refl)
    | inl ok ↦
        elim (Sum-cases (
          seal_all signer stream (length (l.streams stream) + 1) (length l.all + 1)
            (last_hash [] l.all) evs)) [
              | inl (problem, bad) ↦ inl (problem, sym h ∙ rw (append, ok, bad) refl)
              | inr (out, good) ↦
                  let c : Copied stream (length (of_stream stream l.all) + 1) evs out =
                    rw (← size) (
                      seal_all-Copied signer stream (length (l.streams stream) + 1)
                        (length l.all + 1) (last_hash [] l.all) evs out good) in
                  let (fresh, at) = check_append_lem l g.indexed stream expected evs ok in
                  let r : Range = record {
                    stream = stream;
                    from_ver = length (l.streams stream) + 1;
                    to_ver = length (l.streams stream) + length evs;
                    from_seq = length l.all + 1;
                    to_seq = length (store_all stream l out).all;
                  } in
                  let ends : append signer l stream expected evs ≡ (inr r, store_all stream l out) =
                    rw (append, ok, good) refl in
                  inr (
                    r,
                    store_all stream l out,
                    sym h ∙ ends,
                    record {
                      out = out;
                      whole = store_all-all stream l out;
                      copied = c;
                      matches = at;
                      fresh = fresh;
                      from_ver = omega (arith, size);
                      to_ver = omega (arith, size);
                    },
                    store_all-IsGood l stream evs out g c,
                  )
            ]
  ]

  pub append-refuses :
      (problem : LedgerError) (l' : Ledger)
      → append signer l stream expected evs ≡ (inl problem, l')
      → (l'.all ≡ l.all) × IsGood l'
  append-refuses problem l' h = elim (append_ends (inl problem, l') h) [
    | inr (r, next, e, x, i) ↦ absurd (ground arith)
    | inl (other, e) ↦ let same : l' ≡ l = ap (λ x. x.1) e in rw same (refl, g)
  ]

  pub append-Extends :
      (r : Range) (l' : Ledger)
      → append signer l stream expected evs ≡ (inr r, l')
      → (Extends stream expected evs l.all r l'.all) × IsGood l'
  append-Extends r l' h = elim (append_ends (inr r, l') h) [
    | inl (problem, e) ↦ absurd (ground arith)
    | inr (s, next, e, x, i) ↦
        let same : l' ≡ next = ap (λ x. x.1) e in
        let range : r ≡ s = ground arith in rw (same, range) (x, i)
  ]

  pub append-IsGood : IsGood (append signer l stream expected evs).1
  append-IsGood = elim (append_ends _ refl) [
    | inl (problem, e) ↦ rw e g
    | inr (s, next, e, x, i) ↦ rw e i
  ]

pub found_some : (found : Option Envelope) (e : Envelope) → found_or found ≡ inr e → found ≡ some e
found_some none e h = absurd (ground arith)
found_some (some d) e h = ground arith

pub found_none :
    (found : Option Envelope) → found_or found ≡ inl LedgerError.not_found → found ≡ none
found_none none h = refl
found_none (some d) h = absurd (ground arith)

-- The memory ledger keeps the contract.
unfoldable pub memory_contract :
    ⦃go : Sealing⦄ (signer : Option Signer) → Contract Ledger (memory_port signer)
memory_contract signer = record {
  IsGood = IsGood;
  log = λ l. l.all;
  numbered = λ l stream g. g.numbered stream;
  reads = λ l stream from es g h. reads_lem l g stream from es h;
  finds = λ l stream idem e g h. found_some _ e (sym (lookup_lem l g stream idem) ∙ h);
  misses = λ l stream idem g h. found_none _ (sym (lookup_lem l g stream idem) ∙ h);
  refuses = λ l stream expected evs problem l' g h.
      append-refuses signer l g stream expected evs problem l' h;
  extends = λ l stream expected evs r l' g h. append-Extends signer l g stream expected evs r l' h;
}
