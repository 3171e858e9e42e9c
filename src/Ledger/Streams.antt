-- ===== src/Ledger/Streams.antt =====
-- internal/port/ledger.go: a log and its streams, as it grows.
use keelage.Prelude.{
  ℕ, suc, ◌+◌, ◌≡◌, refl, Bool, true, false, inl, inr, none, some, Option-cases, List, [], ◌∷◌,
  ◌++◌, length, All, arith,
}
use keelage.Prelude.Text.{Text, text_eq, text_eq_refl}
use keelage.Core.Envelope.{Envelope}
use keelage.Ledger.Copied.{Copied}
use keelage.Ledger.Log.{filter, positions, last_with}
use keelage.Ledger.Port.{of_stream, Numbered}

pub filter-append {ℓ} :
    {A : Type ℓ} (p : A → Bool) (xs ys : List A) → filter p (xs ++ ys) ≡ filter p xs ++ filter p ys
unfolding filter
filter-append p [] ys = refl
filter-append p (x ∷ xs) ys = ground (arith, filter-append p xs ys)

pub filter-All {ℓ} :
    {A : Type ℓ} (p : A → Bool) (xs : List A) → All (λ x. p x ≡ true) xs → filter p xs ≡ xs
unfolding filter
filter-All p [] h = refl
filter-All p (x ∷ xs) (h, hs) = rw (h, filter-All p xs hs) refl

pub filter-none {ℓ} :
    {A : Type ℓ} (p : A → Bool) (xs : List A) → All (λ x. p x ≡ false) xs → filter p xs ≡ []
unfolding filter
filter-none p [] h = refl
filter-none p (x ∷ xs) (h, hs) = rw (h, filter-none p xs hs) refl

pub length-positions :
    (stream : Text) (n : ℕ) (es : List Envelope)
    → length (positions stream n es) ≡ length (of_stream stream es)
unfolding positions filter
length-positions stream n [] = refl
length-positions stream n (e ∷ es) = ground (arith, length-positions stream (suc n) es)

pub last_with-append :
    (p : Envelope → Bool) (all more : List Envelope)
    → last_with p (all ++ more)
      ≡ elim (last_with p more) [ some d ↦ some d | none ↦ last_with p all ]
unfolding last_with
last_with-append p [] more = elim (Option-cases (last_with p more)) [
  | inl h ↦ rw h refl
  | inr (d, h) ↦ rw h refl
]
last_with-append p (x ∷ all) more =
    rw (last_with-append p all more)
      (elim (Option-cases (last_with p more)) [ inl h ↦ rw h refl | inr (d, h) ↦ rw h refl ])

-- A record that was found in a log is found in a log that extends it.
pub last_with-kept :
    (p : Envelope → Bool) (all more : List Envelope) (e : Envelope)
    → last_with p all ≡ some e
    → (d : Envelope) × (last_with p (all ++ more) ≡ some d)
last_with-kept p all more e h =
    rw (last_with-append p all more) (elim (Option-cases (last_with p more)) [
      | inl k ↦ rw (k, h) (e, refl)
      | inr (d, k) ↦ rw k (d, refl)
    ])

-- The last record with the test is the first of a batch, where it is the only one of it.
pub last_with-first :
    (p : Envelope → Bool) (all : List Envelope) (t : Envelope) (rest : List Envelope)
    → p t ≡ true
    → last_with p rest ≡ none
    → last_with p (all ++ (t ∷ rest)) ≡ some t
unfolding last_with
last_with-first p all t rest h none_later =
    rw (last_with-append p all (t ∷ rest)) (rw (none_later, h) refl)

pub Numbered-append :
    (n m : ℕ) (xs ys : List Envelope)
    → n + length xs ≡ m
    → Numbered n xs
    → Numbered m ys
    → Numbered n (xs ++ ys)
Numbered-append n m [] ys at h k = let same : n ≡ m = omega arith in rw same k
Numbered-append n m (x ∷ xs) ys at (h, hs) k =
    (h, Numbered-append (suc n) m xs ys (omega arith) hs k)

pub Copied-Numbered :
    (stream : Text) (n : ℕ) (evs out : List Envelope) → Copied stream n evs out → Numbered n out
Copied-Numbered stream n [] [] Copied.end = tt
Copied-Numbered stream n [] (t ∷ out) c = elim c [ ]
Copied-Numbered stream n (e ∷ evs) [] c = elim c [ ]
Copied-Numbered stream n (e ∷ evs) (t ∷ out) (Copied.next c rest) =
    (c.at, Copied-Numbered stream (suc n) evs out rest)

module _ (stream : Text) where
  pub of_stream-same :
      (out : List Envelope) → All (λ t. t.stream ≡ stream) out → of_stream stream out ≡ out
  of_stream-same out h = filter-All (λ (e : Envelope). text_eq e.stream stream) out (each out h)
    where
      each :
          (out : List Envelope)
          → All (λ t. t.stream ≡ stream) out
          → All (λ (t : Envelope). text_eq t.stream stream ≡ true) out
      each [] h = tt
      each (t ∷ out) (h, hs) = (rw h (text_eq_refl stream), each out hs)

  pub of_stream-other :
      (other : Text) (out : List Envelope)
      → text_eq stream other ≡ false
      → All (λ t. t.stream ≡ stream) out
      → of_stream other out ≡ []
  of_stream-other other out ne h =
      filter-none (λ (e : Envelope). text_eq e.stream other) out (each out h)
    where
      each :
          (out : List Envelope)
          → All (λ t. t.stream ≡ stream) out
          → All (λ (t : Envelope). text_eq t.stream other ≡ false) out
      each [] h = tt
      each (t ∷ out) (h, hs) = (rw h ne, each out hs)
