-- ===== src/Merkle/Checkpoint/Issued.antt =====
-- internal/merkle/merkle.go: bundles against the checkpoints that the owner of the key has signed.
use keelage.Prelude.{◌≡◌, true, List, [], ◌∷◌, ◌++◌, Any, All}
use keelage.Prelude.Text.{Text, itoa, Lacks}
use keelage.Core.Context.{Time}
use keelage.Core.Envelope.{Hash}
use keelage.Merkle.Tree.{Tree}
use keelage.Merkle.Checkpoint.{
  Crypto, Checkpoint, Bundle, leaf_hash, canonical, sign_checkpoint, verify_checkpoint,
}

-- Hexadecimal text tells hashes apart, and it and the text of a time are on one line.
pub record IsText (crypto : Crypto) : Type 0 where
  pub hex_injective : (a b : Hash) → crypto.hex a ≡ crypto.hex b → a ≡ b
  pub hex_line : (h : Hash) → Lacks 10 (crypto.hex h)
  pub time_line : (t : Time) → Lacks 10 (crypto.format_time t)

module _ (crypto : Crypto) (text : IsText crypto) where
  -- The lines after the first.
  abbrev lines : Checkpoint → Text
  lines c =
      (((c.org ++ 10 ∷ itoa c.tree_size) ++ 10 ∷ crypto.hex c.root) ++ 10 ∷ crypto.format_time c.at)
      ++ 10 ∷ []

  -- The owner of `priv` has signed these checkpoints by Sign, and Ed25519 verifies exactly what was
  -- signed.
  pub record IsKeyOf (priv key_id : Text) (issued : List Checkpoint) : Type 0 where
    pub verifies :
        All
          (λ c.
            crypto.verify
              (crypto.public priv)
              (canonical crypto (sign_checkpoint crypto c priv key_id))
              (sign_checkpoint crypto c priv key_id).sig
            ≡ true)
          issued
    pub unforged :
        (message sig : Text)
        → crypto.verify (crypto.public priv) message sig ≡ true
        → Any (λ c. canonical crypto (sign_checkpoint crypto c priv key_id) ≡ message) issued

  module _ (tree : Tree) (b : Bundle) where
    -- The checkpoint is of the bundle's organisation and size, and the proof leads from the hash of
    -- the record to its root.
    abbrev pub Proves : Checkpoint → Type 0
    Proves c =
        (c.org ≡ b.org)
        × (c.tree_size ≡ b.tree_size)
        × (crypto.verify_inclusion b.leaf_index c.tree_size (leaf_hash tree b.meta_hash b.body_hash)
              b.proof c.root
            ≡ true)

    -- The bundle of the record with this checkpoint.
    abbrev pub with_checkpoint : Checkpoint → Bundle
    with_checkpoint c = record b {
      leaf_hash = leaf_hash tree b.meta_hash b.body_hash;
      checkpoint = c;
    }

    -- What a bundle has passed that verifies.
    record Passes (key : Text) : Type 0 where
      signed : verify_checkpoint crypto b.checkpoint key ≡ true
      size : b.checkpoint.tree_size ≡ b.tree_size
      org : b.checkpoint.org ≡ b.org
      leaf : leaf_hash tree b.meta_hash b.body_hash ≡ b.leaf_hash
      included :
          crypto.verify_inclusion b.leaf_index b.tree_size b.leaf_hash b.proof b.checkpoint.root
          ≡ true
