-- ===== src/Core/Codec/Laws.antt =====
-- internal/core/codec.go: what `Decode` gives.
use keelage.Prelude.{
  ℕ, zero, suc, ◌+◌, ◌≤◌, ◌≡◌, ◌≢◌, refl, false, not, ◌||◌, ◌⊎◌, inl, inr, some, Bool-cases,
  Option-cases, ltb, ◌==◌, arith,
}
use keelage.Prelude.Int.{ℤ, pos}
use keelage.Prelude.Text.{Text, text_eq, text_eq_iff}
use keelage.Core.Codec.{
  Events, Json, Registry, DecodeError, encode, step_up, climb_versions, decode,
}

-- JSON reads back, as the type of its kind and version, what it writes.
pub record IsJson {E : Type 0} (events : Events E) (json : Json E) : Type 0 where
  pub reads :
      (e : E) (body : Text)
      → json.marshal e ≡ some body
      → json.unmarshal (events.kind e) (pos (events.version e)) body ≡ some e

module _ {E : Type 0} (events : Events E) (json : Json E) (c : Registry E) where
  -- The result of `Decode`: an event of the latest version or above, or an error of the program, never the end
  -- of the fuel.
  pub data IsDecoded (kind : Text) : DecodeError ⊎ E → Type 0 where
    refused :
        (problem : DecodeError) → problem ≢ DecodeError.out_of_fuel → IsDecoded kind (inl problem)
    latest :
        (e : E) → c.latest kind ≤ events.version e → events.kind e ≡ kind → IsDecoded kind (inr e)

  record StepsUp (kind : Text) (e : E) (next : DecodeError ⊎ E) : Type 0 where
    pub by :
        ((problem : DecodeError) × (next ≡ inl problem) × (problem ≢ DecodeError.out_of_fuel))
        ⊎ ((f : E) × (next ≡ inr f)
            × (events.kind f ≡ kind)
            × (events.version f ≡ events.version e + 1))

  step_up-StepsUp : (kind : Text) (e : E) → StepsUp kind e (step_up events json c kind e)
  unfolding step_up
  step_up-StepsUp kind e = elim (Option-cases (c.upcasters kind (events.version e))) [
    | inl h ↦ record {
      by = inl (DecodeError.no_upcaster, rw (step_up, h) refl, λ bad. ground arith);
    }
    | inr (up, h) ↦
        elim (Bool-cases (
          not (text_eq (events.kind (up e)) kind)
          || not (events.version (up e) == events.version e + 1))) [
            | inl bad ↦ record {
              by = inl (DecodeError.bad_upcaster, rw (step_up, h, bad) refl, λ out. ground arith);
            }
            | inr good ↦ record {
              by = inr (
                up e,
                rw (step_up, h, good) refl,
                (text_eq_iff (events.kind (up e)) kind).0 (ground arith),
                ground arith,
              );
            }
          ]
  ]

  climb-IsDecoded :
      (fuel : ℕ) (kind : Text) (e : E)
      → c.latest kind ≤ events.version e + fuel
      → events.kind e ≡ kind
      → IsDecoded kind (climb_versions events json c fuel kind e)
  unfolding climb_versions
  climb-IsDecoded zero kind e enough same =
      elim (Bool-cases (ltb (events.version e) (c.latest kind))) [
        | inl less ↦ absurd (ground arith)
        | inr done ↦ rw (climb_versions, done) (IsDecoded.latest e (ground arith) same)
      ]
  climb-IsDecoded (suc fuel) kind e enough same =
      elim (Bool-cases (ltb (events.version e) (c.latest kind))) [
        | inr done ↦ rw (climb_versions, done) (IsDecoded.latest e (ground arith) same)
        | inl less ↦ elim (step_up-StepsUp kind e).by [
          | inl (problem, h, fair) ↦ rw (climb_versions, less, h) (IsDecoded.refused problem fair)
          | inr (next, h, kept, up) ↦
              rw (climb_versions, less, h) (climb-IsDecoded fuel kind next (omega arith) kept)
        ]
      ]

  -- Decode ends, with an error or with an event of the kind that was asked for, at its latest version
  -- or above, where the JSON library gives events of the kind that it was asked for.
  pub decode-IsDecoded :
      (kind : Text) (v : ℤ) (body : Text)
      → ((e : E) → json.unmarshal kind v body ≡ some e → events.kind e ≡ kind)
      → IsDecoded kind (decode events json c kind v body)
  unfolding decode
  decode-IsDecoded kind v body typed = elim (Bool-cases (c.types kind v)) [
    | inr missing ↦
        rw (decode, missing) (IsDecoded.refused DecodeError.not_registered (λ out. ground arith))
    | inl known ↦ elim (Option-cases (json.unmarshal kind v body)) [
      | inl bad ↦
          rw (decode, known, bad) (IsDecoded.refused DecodeError.malformed (λ out. ground arith))
      | inr (e, read) ↦
          rw (decode, known, read)
            (climb-IsDecoded (c.latest kind) kind e (omega arith) (typed e read))
    ]
  ]

  -- What Encode writes of an event at the latest version of its kind or above, Decode reads back,
  -- where the JSON library reads back what it writes.
  pub decode-encode :
      (law : IsJson events json) (e : E) (body : Text)
      → c.latest (events.kind e) ≤ events.version e
      → encode events json c e ≡ some body
      → decode events json c (events.kind e) (pos (events.version e)) body ≡ inr e
  unfolding encode decode
  decode-encode law e body newest h =
      elim (Bool-cases (c.types (events.kind e) (pos (events.version e)))) [
        | inr missing ↦ absurd (ground arith)
        | inl known ↦
            let written : json.marshal e ≡ some body = ground arith in
            rw (decode, known, law.reads e body written) (unchanged (c.latest (events.kind e)))
      ]
    where
      unchanged : (fuel : ℕ) → climb_versions events json c fuel (events.kind e) e ≡ inr e
      unchanged zero = ground arith
      unchanged (suc fuel) =
          let old : ltb (events.version e) (c.latest (events.kind e)) ≡ false = ground arith in
          rw (climb_versions, old) refl
