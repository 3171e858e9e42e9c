-- ===== src/Ledger/Appended.antt =====
-- internal/adapter/memory/ledger.go: what `Append` does to the ledger.
use mathlib.Core.List.{append-nil, append_assoc}
use keelage.Prelude.{
  ℕ, suc, ◌+◌, ◌≤◌, ◌≡◌, refl, sym, ap, ◌∙◌, inl, inr, Option, none, some, Option-cases, Sum-cases,
  List, [], ◌∷◌, ◌++◌, length, length-append, Bool-cases, arith,
}
use keelage.Prelude.Text.{Text, is_empty, text_eq, text_eq_iff, text_eq_refl}
use keelage.Core.Envelope.{Hash, Envelope, Sealing, seal, meta_hash, verify, verify_hashes}
use keelage.Core.Envelope.Chain.{Chained, sealed_lem, verify-seal}
use keelage.Ledger.State.{Ledger, last_hash}
use keelage.Ledger.Append.{Signer, placed, signed, seal_all, store, store_all}

pub last_hash-Chained :
    ⦃go : Sealing⦄
    → {k : ℕ} {prev h : Hash} (evs : List Envelope) → Chained k prev evs h
    → last_hash prev evs ≡ h
unfolding last_hash
last_hash-Chained [] Chained.end = refl
last_hash-Chained (e ∷ evs) (Chained.link s v c) = last_hash-Chained evs c

-- Signing does not touch what `Verify` reads.
pub record Signs (s t : Envelope) : Type 0 where
  pub sig : (sig : Text) × (t ≡ record s { sig = sig })

pub signed-Signs : (signer : Option Signer) (s t : Envelope) → signed signer s ≡ some t → Signs s t
unfolding signed
signed-Signs none s t h = record { sig = (s.sig, ground arith) }
signed-Signs (some sign) s t h = elim (Bool-cases (is_empty s.sig)) [
  | inr has ↦ record { sig = (s.sig, ground arith) }
  | inl bare ↦ elim (Option-cases (sign s.hash)) [
    | inl fails ↦ absurd (ground arith)
    | inr (sig, e) ↦ record { sig = (sig, ground arith) }
  ]
]

module _ ⦃go : Sealing⦄ where
  meta_hash-sig : (s : Envelope) (sig : Text) → meta_hash (record s { sig = sig }) ≡ meta_hash s
  unfolding meta_hash
  meta_hash-sig s sig = refl

  verify_hashes-sig :
      (s : Envelope) (sig : Text) (mh : Option Hash)
      → verify_hashes (record s { sig = sig }) mh ≡ verify_hashes s mh
  unfolding verify_hashes
  verify_hashes-sig s sig none = refl
  verify_hashes-sig s sig (some mh) = refl

  verify-sig :
      (s : Envelope) (sig : Text) (prev : Hash)
      → verify (record s { sig = sig }) prev ≡ verify s prev
  unfolding verify
  verify-sig s sig prev = rw (meta_hash-sig s sig, verify_hashes-sig s sig (meta_hash s)) refl

  seal-seq : (e : Envelope) (prev : Hash) (s : Envelope) → seal e prev ≡ some s → s.seq ≡ e.seq
  seal-seq e prev s h = ap (λ x. x.seq) (sealed_lem e prev s h).1.1

  -- One record of the loop: it is placed, sealed on the one before it, and signed.
  seal_step :
      (signer : Option Signer) (stream : Text) (ver seq : ℕ) (prev : Hash) (e s t : Envelope)
      → seal (placed stream ver seq e) prev ≡ some s
      → signed signer s ≡ some t
      → (t.seq ≡ seq) × (verify t prev ≡ none)
  seal_step signer stream ver seq prev e s t h k =
      let (sig, same) = (signed-Signs signer s t k).sig in
      rw same (
        seal-seq (placed stream ver seq e) prev s h,
        verify-sig s sig prev ∙ verify-seal (placed stream ver seq e) prev s h,
      )

  pub seal_all-Chained :
      (signer : Option Signer) (stream : Text) (ver seq : ℕ) (prev : Hash) (evs out : List Envelope)
      → seal_all signer stream ver seq prev evs ≡ inr out
      → (Chained seq prev out (last_hash prev out)) × (length out ≡ length evs)
  unfolding seal_all last_hash
  seal_all-Chained signer stream ver seq prev [] out h =
      let none_out : out ≡ [] = ground arith in rw none_out (Chained.end, refl)
  seal_all-Chained signer stream ver seq prev (e ∷ evs) out h =
      elim (Option-cases (seal (placed stream ver seq e) prev)) [
        | inl bad ↦ absurd (ground arith)
        | inr (s, sealed) ↦ elim (Option-cases (signed signer s)) [
          | inl bad ↦ absurd (ground arith)
          | inr (t, signs) ↦
              elim (Sum-cases (seal_all signer stream (suc ver) (suc seq) t.hash evs)) [
                | inl (problem, bad) ↦ absurd (ground arith)
                | inr (rest, more) ↦
                    let (at, ok) = seal_step signer stream ver seq prev e s t sealed signs in
                    let (c, size) =
                      seal_all-Chained signer stream (suc ver) (suc seq) t.hash evs rest more in
                    let whole : out ≡ t ∷ rest = ground arith in
                    rw whole (Chained.link at ok c, ap suc size)
              ]
        ]
      ]

pub store_all-all :
    (stream : Text) (l : Ledger) (out : List Envelope) → (store_all stream l out).all ≡ l.all ++ out
unfolding store_all store
store_all-all stream l [] = sym (append-nil l.all)
store_all-all stream l (e ∷ out) =
    store_all-all stream (store stream l e) out ∙ append_assoc l.all (e ∷ []) out

pub store_all-grows :
    (stream other : Text) (l : Ledger) (out : List Envelope)
    → length (l.streams other) ≤ length ((store_all stream l out).streams other)
unfolding store_all store
store_all-grows stream other l [] = omega arith
store_all-grows stream other l (e ∷ out) =
    let next = store_all-grows stream other (store stream l e) out in
    let one : length (l.streams other) ≤ length ((store stream l e).streams other) =
      elim (Bool-cases (text_eq other stream)) [
        | inl same ↦
            let at = ap (λ t. length (l.streams t)) ((text_eq_iff other stream).0 same) in
            let longer = length-append (l.streams stream) (length l.all ∷ []) in
            rw same (omega arith)
        | inr differs ↦ rw differs (omega arith)
      ] in
    omega arith

pub store_all-streams :
    (stream : Text) (l : Ledger) (out : List Envelope)
    → length ((store_all stream l out).streams stream) ≡ length (l.streams stream) + length out
unfolding store_all store
store_all-streams stream l [] = omega arith
store_all-streams stream l (e ∷ out) =
    let next = store_all-streams stream (store stream l e) out in
    let one : length ((store stream l e).streams stream) ≡ length (l.streams stream) + 1 =
      rw (text_eq_refl stream) (length-append (l.streams stream) (length l.all ∷ [])) in
    omega arith
