-- ===== src/Core/Envelope/Chain.antt =====
-- internal/core/envelope.go: sealed records and chains of them.
use keelage.Prelude.{
  ℕ, suc, ◌+◌, ◌≡◌, refl, sym, ap, ◌∙◌, length, false, inl, inr, Option, none, some, Option-cases,
  List, [], ◌∷◌, ◌++◌, arith,
}
use keelage.Prelude.Text.{text_eq_refl}
use keelage.Core.Envelope.{
  Hash, Envelope, Sealing, sum, meta_hash, sealed, dated, seal, verify_hashes, verify, has_gap,
  verify_from, verify_chain,
}

module _ ⦃go : Sealing⦄ where
  pub sealed_lem :
      (e : Envelope) (prev : Hash) (s : Envelope)
      → seal e prev ≡ some s
      → (mh : Hash) × ((meta_hash (dated e) ≡ some mh) × (s ≡ sealed (dated e) prev mh))
  unfolding seal
  sealed_lem e prev s h = elim (Option-cases (meta_hash (dated e))) [
    | inl missing ↦ absurd (ground arith)
    | inr (mh, found) ↦ (mh, (found, ground arith))
  ]

  -- The hash of the meta part does not depend on what `Seal` writes after it.
  meta_hash-sealed : (e : Envelope) (prev mh : Hash) → meta_hash (sealed e prev mh) ≡ meta_hash e
  unfolding meta_hash
  meta_hash-sealed e prev mh = refl

  -- A record that `Seal` accepts passes `Verify` against the hash that it was sealed on.
  pub verify-seal :
      (e : Envelope) (prev : Hash) (s : Envelope) → seal e prev ≡ some s → verify s prev ≡ none
  unfolding verify verify_hashes
  verify-seal e prev s h =
      let (mh, (found, same)) = sealed_lem e prev s h in
      rw same (
        rw
          (
            text_eq_refl prev,
            text_eq_refl (go.sha256 e.body),
            meta_hash-sealed (dated e) prev mh,
            found,
            text_eq_refl mh,
            text_eq_refl (sum prev mh (go.sha256 e.body)),
          )
          refl)

  -- The records are numbered from `k` on without a gap, and each is sealed on the one before it, the
  -- first on `prev`. The hash is that of the last record.
  pub data Chained : ℕ → Hash → List Envelope → Hash → Type 0 where
    end : {k : ℕ} {prev : Hash} → Chained k prev [] prev
    link :
        {k : ℕ} {prev head : Hash} {e : Envelope} {evs : List Envelope}
        → e.seq ≡ k
        → verify e prev ≡ none
        → Chained (suc k) e.hash evs head
        → Chained k prev (e ∷ evs) head

  pub Chained-append :
      (k m : ℕ) {prev mid head : Hash} (xs ys : List Envelope)
      → m ≡ k + length xs
      → Chained k prev xs mid
      → Chained m mid ys head
      → Chained k prev (xs ++ ys) head
  Chained-append k m [] ys e Chained.end d = let same : k ≡ m = omega arith in rw same d
  Chained-append k m (x ∷ xs) ys e (Chained.link s v c) d =
      Chained.link s v (Chained-append (suc k) m xs ys (omega arith) c d)

  follows : (last : ℕ) (seq : ℕ) → seq ≡ suc last → has_gap (some last) seq ≡ false
  follows last seq h = ground arith

  verify_from-Chained :
      (last : Option ℕ) (k : ℕ) (prev head : Hash) (evs : List Envelope)
      → ((seq : ℕ) → seq ≡ k → has_gap last seq ≡ false)
      → Chained k prev evs head
      → verify_from last prev evs ≡ inr head
  unfolding verify_from
  verify_from-Chained last k prev head [] n Chained.end = refl
  verify_from-Chained last k prev head (e ∷ evs) n (Chained.link s v c) =
      rw (n e.seq s, v)
        (verify_from-Chained (some e.seq) (suc k) e.hash head evs
          (λ seq h. follows e.seq seq (h ∙ sym (ap suc s))) c)

  -- `VerifyChain` accepts a chain, from wherever it starts, and gives the hash of its last record.
  pub verify_chain-Chained :
      (k : ℕ) (prev head : Hash) (evs : List Envelope)
      → Chained k prev evs head
      → verify_chain prev evs ≡ inr head
  unfolding verify_chain
  verify_chain-Chained k prev head evs c =
      verify_from-Chained none k prev head evs (λ seq h. refl) c
