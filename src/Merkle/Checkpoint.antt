-- ===== src/Merkle/Checkpoint.antt =====
-- internal/merkle/merkle.go: signed checkpoints, and the bundles that an auditor verifies offline.
pub mod Issued
use keelage.Prelude.{
  ℕ, ◌-◌, ◌%◌, ◌≡◌, ◌↔◌, refl, Bool, true, not, ◌||◌, Option, none, some, List, ◌++◌, ◌==◌,
  if◌then◌else◌, arith,
}
use keelage.Prelude.Text.{Text, codes, text_eq, text_eq_refl, itoa}
use keelage.Core.Context.{Time}
use keelage.Core.Envelope.{Hash}
use keelage.Merkle.Tree.{Tree}

-- What checkpoints take from their libraries: hexadecimal text, the RFC 3339 text of a time in UTC,
-- Ed25519, whose `verify` is false for a public key of the wrong size as well, and the verification
-- of proofs over the hashes of RFC 6962.
pub record Crypto : Type 0 where
  pub hex : Hash → Text
  pub format_time : Time → Text
  pub sign : Text → Text → Text
  pub verify : Text → Text → Text → Bool
  pub public : Text → Text
  pub verify_inclusion : ℕ → ℕ → Hash → List Hash → Hash → Bool
  pub verify_consistency : ℕ → ℕ → List Hash → Hash → Hash → Bool

pub record Checkpoint : Type 0 where
  pub org : Text
  pub tree_size : ℕ
  pub root : Hash
  pub at : Time
  pub sig : Text
  pub key_id : Text

pub record Bundle : Type 0 where
  pub org : Text
  pub seq : ℕ
  pub leaf_index : ℕ
  pub leaf_hash : Hash
  pub meta_hash : Hash
  pub body_hash : Hash
  pub tree_size : ℕ
  pub proof : List Hash
  pub checkpoint : Checkpoint

pub record ConsistencyBundle : Type 0 where
  pub org : Text
  pub from : Checkpoint
  pub to : Checkpoint
  pub proof : List Hash

-- The errors of the verifications, one for each `return`.
pub data BundleError : Type 0 where
  bad_signature other_checkpoint bad_leaf bad_proof bad_from bad_to org_mismatch : BundleError

abbrev newline : Text
newline = codes "\n"

-- `LeafHash`.
unfoldable pub leaf_hash : Tree → Hash → Hash → Hash
leaf_hash tree meta body = tree.hash_leaf (meta ++ body)

module _ (crypto : Crypto) where
  -- `Canonical`.
  unfoldable pub canonical : Checkpoint → Text
  canonical c =
      codes "keelage-checkpoint/v1"
      ++ (newline
          ++ (c.org
              ++ (newline
                  ++ (itoa c.tree_size
                      ++ (newline
                          ++ (crypto.hex c.root
                              ++ (newline ++ (crypto.format_time c.at ++ newline))))))))

  -- `Sign`: the time is cut to whole seconds, and then everything is signed.
  unfoldable pub sign_checkpoint : Checkpoint → Text → Text → Checkpoint
  sign_checkpoint c priv key_id =
      let dated = record c { at = c.at - c.at % 1000000000; key_id = key_id } in
      record dated { sig = crypto.sign priv (canonical dated) }

  -- `Verify`: whether it returns no error.
  unfoldable pub verify_checkpoint : Checkpoint → Text → Bool
  verify_checkpoint c key = crypto.verify key (canonical c) c.sig

  -- `VerifyBundle`, `none` for no error.
  unfoldable pub verify_bundle : Tree → Bundle → Text → Option BundleError
  verify_bundle tree b key =
      if not (verify_checkpoint b.checkpoint key)
      then some BundleError.bad_signature
      else if not (b.checkpoint.tree_size == b.tree_size) || not (text_eq b.checkpoint.org b.org)
      then some BundleError.other_checkpoint
      else if not (text_eq (leaf_hash tree b.meta_hash b.body_hash) b.leaf_hash)
      then some BundleError.bad_leaf
      else if crypto.verify_inclusion b.leaf_index b.tree_size b.leaf_hash b.proof b.checkpoint.root
      then none
      else some BundleError.bad_proof

  -- `VerifyConsistencyBundle`, `none` for no error.
  unfoldable pub verify_consistency_bundle : ConsistencyBundle → Text → Option BundleError
  verify_consistency_bundle b key =
      if not (verify_checkpoint b.from key)
      then some BundleError.bad_from
      else if not (verify_checkpoint b.to key)
      then some BundleError.bad_to
      else if not (text_eq b.from.org b.org) || not (text_eq b.to.org b.org)
      then some BundleError.org_mismatch
      else if crypto.verify_consistency b.from.tree_size b.to.tree_size b.proof b.from.root
          b.to.root
      then none
      else some BundleError.bad_proof
