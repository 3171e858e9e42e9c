-- ===== src/Core/Codec.antt =====
-- internal/core/codec.go: the registry of event types, encoding, and decoding with upcasts.
pub mod Laws
use keelage.Prelude.{
  ℕ, zero, suc, ◌+◌, ◌-◌, Bool, true, false, not, ◌&&◌, ◌||◌, ◌⊎◌, inl, inr, Option, none, some,
  ltb, ◌==◌, if◌then◌else◌,
}
use keelage.Prelude.Int.{ℤ, pos, eqb_ℤ}
use keelage.Prelude.Text.{Text, text_eq}

-- An event type as the codec sees it: `Kind` and `Version`, which are 1 or more in every event type of
-- the program.
pub record Events (E : Type 0) : Type 0 where
  pub kind : E → Text
  pub version : E → ℕ

-- What the codec takes from encoding/json: `Marshal`, and `Unmarshal` into the type that is
-- registered for the kind and the version. `none` is an error.
pub record Json (E : Type 0) : Type 0 where
  pub marshal : E → Option Text
  pub unmarshal : Text → ℤ → Text → Option E

-- `Codec`. A map is a function; `types` says which types are registered, and a missing kind has the
-- latest version 0.
pub record Registry (E : Type 0) : Type 0 where
  pub types : Text → ℤ → Bool
  pub latest : Text → ℕ
  pub upcasters : Text → ℕ → Option (E → E)

-- The errors of `Decode`, one for each `return`. The loop of upcasts never runs out of its fuel.
pub data DecodeError : Type 0 where
  not_registered malformed no_upcaster bad_upcaster out_of_fuel : DecodeError

module _ {E : Type 0} (events : Events E) where
  -- `Register` of one event type, given by a value of it; `none` where Go panics.
  unfoldable pub register : Registry E → E → Option (Registry E)
  register c proto =
      let kind = events.kind proto in
      let v = events.version proto in
      if c.types kind (pos v)
      then none
      else some (record c {
        types = λ k w. (text_eq k kind && eqb_ℤ w (pos v)) || c.types k w;
        latest = λ k. if text_eq k kind && ltb (c.latest kind) v then v else c.latest k;
      })

  -- `Upcast`.
  unfoldable pub upcast : Registry E → Text → ℕ → (E → E) → Registry E
  upcast c kind from fn = record c {
    upcasters = λ k v. if text_eq k kind && (v == from) then some fn else c.upcasters k v;
  }

  module _ (json : Json E) (c : Registry E) where
    -- `Encode`.
    unfoldable pub encode : E → Option Text
    encode e = if c.types (events.kind e) (pos (events.version e)) then json.marshal e else none

    -- One round of the loop of `Decode`: the next event.
    unfoldable pub step_up : Text → E → DecodeError ⊎ E
    step_up kind e = elim (c.upcasters kind (events.version e)) [
      | none ↦ inl DecodeError.no_upcaster
      | some up ↦
          if not (text_eq (events.kind (up e)) kind)
            || not (events.version (up e) == events.version e + 1)
          then inl DecodeError.bad_upcaster
          else inr (up e)
    ]

    -- The loop of `Decode`.
    unfoldable pub climb_versions : ℕ → Text → E → DecodeError ⊎ E
    unfolding step_up
    climb_versions zero kind e =
        if ltb (events.version e) (c.latest kind) then inl DecodeError.out_of_fuel else inr e
    climb_versions (suc fuel) kind e =
        if ltb (events.version e) (c.latest kind)
        then elim (step_up kind e) [
          | inl problem ↦ inl problem
          | inr next ↦ climb_versions fuel kind next
        ]
        else inr e

    -- `Decode`. Each round raises the version by one, so that the latest version is fuel enough.
    unfoldable pub decode : Text → ℤ → Text → DecodeError ⊎ E
    unfolding climb_versions
    decode kind v body =
        if not (c.types kind v)
        then inl DecodeError.not_registered
        else elim (json.unmarshal kind v body) [
          | none ↦ inl DecodeError.malformed
          | some e ↦ climb_versions (c.latest kind) kind e
        ]
