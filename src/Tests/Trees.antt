-- ===== src/Tests/Trees.antt =====
-- A tree of three leaves that gets its fourth, with hashes that are the texts themselves.
use keelage.Prelude.{
  ℕ, suc, ◌+◌, ◌/◌, ◌&&◌, ◌≡◌, ◌≢◌, refl, true, inr, none, some, List, [], ◌∷◌, ◌++◌, ltb,
  if◌then◌else◌, arith,
}
use keelage.Prelude.Text.{Text, codes, text_eq}
use keelage.Core.Envelope.{Hash}
use keelage.Merkle.Tree.{Node, Tree, HasParents, climb, parents_to_store, parents_to_store_ends}
use keelage.Merkle.Stored.{
  Store, fetch_from, put_all, last_leaf, subtree, IsStored, parents_to_store-IsStored,
}
use keelage.Merkle.Checkpoint.{Crypto, Checkpoint, Bundle, leaf_hash}

abbrev plain_tree : Tree
plain_tree = record {
  hash_leaf = λ h. 0 ∷ h;
  hash_children = λ l r. 1 ∷ (l ++ r);
  parent = λ n. record { level = suc n.level; index = n.index / 2 };
}

plain_tree-HasParents : HasParents plain_tree
plain_tree-HasParents = record { level = λ n. refl; index = λ n. refl }

abbrev leaf : ℕ → Hash
leaf n = n ∷ []

-- Every node that ends before the fourth leaf.
abbrev three : Store
three level index =
    if ltb (last_leaf level index) 3 then some (subtree plain_tree leaf level index) else none

three-IsStored : IsStored plain_tree leaf three 3
three-IsStored level index h =
    let small : ltb (last_leaf level index) 3 ≡ true = ground arith in rw small refl

parents_to_store-IsStored_example :
    (nodes : List Node) × (parents_to_store plain_tree (fetch_from three) 3 (leaf 3)
      ≡ some (inr nodes))
    × IsStored plain_tree leaf (put_all three nodes) 4
parents_to_store-IsStored_example =
    parents_to_store-IsStored plain_tree leaf plain_tree-HasParents three 3 three-IsStored

-- The fourth leaf completes a tree of two and one of four.
completes :
    parents_to_store plain_tree (fetch_from three) 3 (leaf 3)
    ≡ some (
        inr (
          record { id = record { level = 0; index = 3 }; hash = 3 ∷ [] }
          ∷ record { id = record { level = 1; index = 1 }; hash = 1 ∷ 2 ∷ 3 ∷ [] }
          ∷ record { id = record { level = 2; index = 0 }; hash = 1 ∷ 1 ∷ 0 ∷ 1 ∷ 1 ∷ 2 ∷ 3 ∷ [] }
          ∷ []))
unfolding parents_to_store climb last_leaf subtree
completes = refl

parents_to_store_ends_example :
    parents_to_store plain_tree (fetch_from (λ level index. none)) 3 (leaf 3) ≢ none
parents_to_store_ends_example =
    parents_to_store_ends plain_tree (fetch_from (λ level index. none)) plain_tree-HasParents 3
      (leaf 3)

abbrev checkpoint : Checkpoint
checkpoint = record {
  org = codes "acme";
  tree_size = 4;
  root = codes "r";
  at = 7;
  sig = [];
  key_id = [];
}

-- Bytes are written ten higher, so that none is a line break.
abbrev raised : Hash → Text
raised [] = []
raised (b ∷ h) = (b + 11) ∷ raised h

-- What is signed of `checkpoint`.
abbrev signed_text : Text
signed_text = codes "keelage-checkpoint/v1\nacme\n4\n" ++ raised (codes "r") ++ codes "\n\n"

-- The key verifies this text only, with itself as the signature; a proof is the root.
abbrev plain_crypto : Crypto
plain_crypto = record {
  hex = raised;
  format_time = λ t. [];
  sign = λ priv message. priv;
  verify = λ key message sig. text_eq sig key && text_eq signed_text message;
  public = λ priv. priv;
  verify_inclusion = λ index size hash proof root. ltb index size;
  verify_consistency = λ size1 size2 proof root1 root2. true;
}

abbrev bundle : Bundle
bundle = record {
  org = codes "acme";
  seq = 4;
  leaf_index = 3;
  leaf_hash = leaf_hash plain_tree (codes "m") (codes "b");
  meta_hash = codes "m";
  body_hash = codes "b";
  tree_size = 4;
  proof = [];
  checkpoint = record checkpoint { sig = codes "k" };
}
