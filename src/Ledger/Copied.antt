-- ===== src/Ledger/Copied.antt =====
-- internal/adapter/memory/ledger.go: what of a record `Append` keeps, and where it puts it.
use keelage.Prelude.{
  ℕ, suc, ◌≡◌, refl, ap, inl, inr, Option, some, Option-cases, Sum-cases, List, [], ◌∷◌, length,
  All, arith,
}
use keelage.Prelude.Text.{Text}
use keelage.Core.Envelope.{Hash, Envelope, Sealing, seal}
use keelage.Core.Envelope.Chain.{sealed_lem}
use keelage.Ledger.Appended.{signed-Signs}
use keelage.Ledger.Append.{Signer, placed, signed, seal_all}

-- The record `t` says what `e` says, at version `ver` of the stream.
pub record Copies (stream : Text) (ver : ℕ) (e t : Envelope) : Type 0 where
  pub in_stream : t.stream ≡ stream
  pub at : t.ver ≡ ver
  pub kind : t.kind ≡ e.kind
  pub v : t.v ≡ e.v
  pub body : t.body ≡ e.body
  pub actor : t.actor ≡ e.actor
  pub meta : t.meta ≡ e.meta
  pub idem : t.idem ≡ e.idem

-- The records of a batch, at consecutive versions from `ver` on.
pub data Copied (stream : Text) : ℕ → List Envelope → List Envelope → Type 0 where
  end : {ver : ℕ} → Copied stream ver [] []
  next :
      {ver : ℕ} {e t : Envelope} {evs out : List Envelope}
      → Copies stream ver e t
      → Copied stream (suc ver) evs out
      → Copied stream ver (e ∷ evs) (t ∷ out)

pub Copied-nil :
    {stream : Text} {ver : ℕ} (out : List Envelope) → Copied stream ver [] out → out ≡ []
Copied-nil [] c = refl
Copied-nil (t ∷ out) c = elim c [ ]

pub Copied-cons :
    {stream : Text} {ver : ℕ} (e : Envelope) (evs out : List Envelope)
    → Copied stream ver (e ∷ evs) out
    → (t : Envelope) × (rest : List Envelope) × (out ≡ t ∷ rest)
      × (Copies stream ver e t)
      × Copied stream (suc ver) evs rest
Copied-cons e evs [] c = elim c [ ]
Copied-cons e evs (t ∷ out) (Copied.next c rest) = (t, out, refl, c, rest)

pub Copied-stream :
    {stream : Text} {ver : ℕ} (evs out : List Envelope)
    → Copied stream ver evs out
    → All (λ t. t.stream ≡ stream) out
Copied-stream [] [] Copied.end = tt
Copied-stream [] (t ∷ out) c = elim c [ ]
Copied-stream (e ∷ evs) [] c = elim c [ ]
Copied-stream (e ∷ evs) (t ∷ out) (Copied.next c rest) = (c.in_stream, Copied-stream evs out rest)

pub Copied-length :
    {stream : Text} {ver : ℕ} (evs out : List Envelope)
    → Copied stream ver evs out
    → length out ≡ length evs
Copied-length [] [] Copied.end = refl
Copied-length [] (t ∷ out) c = elim c [ ]
Copied-length (e ∷ evs) [] c = elim c [ ]
Copied-length (e ∷ evs) (t ∷ out) (Copied.next c rest) = ap suc (Copied-length evs out rest)

module _ ⦃go : Sealing⦄ where
  step-Copies :
      (signer : Option Signer) (stream : Text) (ver seq : ℕ) (prev : Hash) (e s t : Envelope)
      → seal (placed stream ver seq e) prev ≡ some s
      → signed signer s ≡ some t
      → Copies stream ver e t
  step-Copies signer stream ver seq prev e s t h k =
      let same = (sealed_lem (placed stream ver seq e) prev s h).1.1 in
      let (sig, signs) = (signed-Signs signer s t k).sig in
      rw (signs, same)
        (record {
          in_stream = refl;
          at = refl;
          kind = refl;
          v = refl;
          body = refl;
          actor = refl;
          meta = refl;
          idem = refl;
        })

  pub seal_all-Copied :
      (signer : Option Signer) (stream : Text) (ver seq : ℕ) (prev : Hash) (evs out : List Envelope)
      → seal_all signer stream ver seq prev evs ≡ inr out
      → Copied stream ver evs out
  unfolding seal_all
  seal_all-Copied signer stream ver seq prev [] out h =
      let none_out : out ≡ [] = ground arith in rw none_out Copied.end
  seal_all-Copied signer stream ver seq prev (e ∷ evs) out h =
      elim (Option-cases (seal (placed stream ver seq e) prev)) [
        | inl bad ↦ absurd (ground arith)
        | inr (s, sealed) ↦ elim (Option-cases (signed signer s)) [
          | inl bad ↦ absurd (ground arith)
          | inr (t, signs) ↦
              elim (Sum-cases (seal_all signer stream (suc ver) (suc seq) t.hash evs)) [
                | inl (problem, bad) ↦ absurd (ground arith)
                | inr (rest, more) ↦
                    let c = step-Copies signer stream ver seq prev e s t sealed signs in
                    let cs =
                      seal_all-Copied signer stream (suc ver) (suc seq) t.hash evs rest more in
                    let whole : out ≡ t ∷ rest = ground arith in rw whole (Copied.next c cs)
              ]
        ]
      ]
