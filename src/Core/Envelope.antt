-- ===== src/Core/Envelope.antt =====
-- internal/core/envelope.go: a record of the ledger, its seal, and the chain of hashes.
pub mod Chain
use keelage.Prelude.{
  ℕ, suc, ◌+◌, ◌-◌, ◌%◌, ◌==◌, ◌≡◌, refl, Bool, true, false, not, ◌||◌, ◌⊎◌, inl, inr, Option, none,
  some, List, [], ◌∷◌, ◌++◌, if◌then◌else◌, arith,
}
use keelage.Prelude.Int.{ℤ}
use keelage.Prelude.Text.{Text, is_empty, text_eq, text_eq_refl}
use keelage.Core.Actor.{ActorRef}
use keelage.Core.Level.{Level}
use keelage.Core.Context.{Time}

-- A digest, as its bytes.
abbrev pub Hash : Type 0
Hash = Text

pub record EventMeta : Type 0 where
  pub refs : List Text
  pub constraints_hash : Text
  pub autonomy : Level

pub record Origin : Type 0 where
  pub daemon_id : Text
  pub local_seq : ℤ
  pub prev_hash : Hash

-- `seq` and `ver` are never negative here: a ledger assigns them.
pub record Envelope : Type 0 where
  pub seq : ℕ
  pub stream : Text
  pub ver : ℕ
  pub kind : Text
  pub v : ℤ
  pub ts : Time
  pub actor : ActorRef
  pub meta : EventMeta
  pub body : Text
  pub meta_hash : Hash
  pub body_hash : Hash
  pub prev_hash : Hash
  pub hash : Hash
  pub sig : Text
  pub idem : Text
  pub origin : Option Origin

pub record SealedMeta : Type 0 where
  pub stream : Text
  pub ver : ℕ
  pub kind : Text
  pub v : ℤ
  pub ts : Text
  pub actor : ActorRef
  pub meta : EventMeta
  pub body_hash : Hash

-- What sealing takes from Go's library: SHA-256, the RFC 3339 text of a time, and the JSON of the
-- meta part, `none` for an error. Everything holds whatever they compute.
pub record Sealing : Type 0 where
  pub sha256 : Text → Hash
  pub format_time : Time → Text
  pub marshal_meta : SealedMeta → Option Text

-- The errors of `Verify` and `VerifyChain`, one for each `return`.
pub data EnvelopeError : Type 0 where
  prev_hash_mismatch body_hash_mismatch meta_hash_mismatch hash_mismatch : EnvelopeError
  gap unmarshalled : EnvelopeError

-- `TS.Truncate(time.Microsecond)`.
abbrev pub truncate : Time → Time
truncate t = t - t % 1000

module _ ⦃go : Sealing⦄ where
  -- `sum` of the three parts that a record's hash is made of.
  abbrev pub sum : Hash → Hash → Hash → Hash
  sum prev meta body = go.sha256 (prev ++ (meta ++ body))

  -- `metaHash`.
  unfoldable pub meta_hash : Envelope → Option Hash
  meta_hash e =
      elim (go.marshal_meta (record {
        stream = e.stream;
        ver = e.ver;
        kind = e.kind;
        v = e.v;
        ts = go.format_time e.ts;
        actor = e.actor;
        meta = e.meta;
        body_hash = e.body_hash;
      })) [ none ↦ none | some b ↦ some (go.sha256 b) ]

  -- What `Seal` writes once the hash of the meta part is known.
  abbrev pub sealed : Envelope → Hash → Hash → Envelope
  sealed e prev mh = record e { meta_hash = mh; prev_hash = prev; hash = sum prev mh e.body_hash }

  abbrev pub dated : Envelope → Envelope
  dated e = record e { ts = truncate e.ts; body_hash = go.sha256 e.body }

  -- `Seal`, `none` for an error.
  unfoldable pub seal : Envelope → Hash → Option Envelope
  seal e prev =
      if is_empty e.stream || (is_empty e.kind || e.ver == 0)
      then none
      else elim (meta_hash (dated e)) [ none ↦ none | some mh ↦ some (sealed (dated e) prev mh) ]

  -- The end of `Verify`, from `mh`.
  unfoldable pub verify_hashes : Envelope → Option Hash → Option EnvelopeError
  verify_hashes e none = some EnvelopeError.unmarshalled
  verify_hashes e (some mh) =
      if not (text_eq mh e.meta_hash)
      then some EnvelopeError.meta_hash_mismatch
      else if not (text_eq (sum e.prev_hash e.meta_hash e.body_hash) e.hash)
      then some EnvelopeError.hash_mismatch
      else none

  -- `Verify`, `none` for no error.
  unfoldable pub verify : Envelope → Hash → Option EnvelopeError
  verify e prev =
      if not (text_eq e.prev_hash prev)
      then some EnvelopeError.prev_hash_mismatch
      else if not (text_eq (go.sha256 e.body) e.body_hash)
      then some EnvelopeError.body_hash_mismatch
      else verify_hashes e (meta_hash e)

  -- The gap between a record and the one before it, if there is one.
  abbrev pub has_gap : Option ℕ → ℕ → Bool
  has_gap none seq = false
  has_gap (some last) seq = not (seq == last + 1)

  -- The loop of `VerifyChain`: `last` is the seq of the record before.
  unfoldable pub verify_from : Option ℕ → Hash → List Envelope → EnvelopeError ⊎ Hash
  verify_from last prev [] = inr prev
  verify_from last prev (e ∷ evs) =
      let rest = verify_from (some e.seq) e.hash evs in
      if has_gap last e.seq
      then inl EnvelopeError.gap
      else elim (verify e prev) [ some problem ↦ inl problem | none ↦ rest ]

  -- `VerifyChain`: the head hash, or the first error.
  unfoldable pub verify_chain : Hash → List Envelope → EnvelopeError ⊎ Hash
  unfolding verify_from
  verify_chain prev evs = verify_from none prev evs
