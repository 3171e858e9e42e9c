-- ===== src/Merkle/Tree.antt =====
-- internal/merkle/merkle.go: `ParentsToStore`.
use keelage.Prelude.{
  ℕ, zero, suc, ◌-◌, ◌/◌, ◌%◌, ◌<◌, ◌≡◌, ◌≢◌, ◌⊎◌, inl, inr, Option, none, some, Bool-cases,
  Sum-cases, Option-cases, List, [], ◌∷◌, ◌==◌, if◌then◌else◌, arith,
}
use keelage.Core.Envelope.{Hash}

-- `compact.NodeID`: a perfect subtree of 2 ^ level leaves, the `index`-th of its level.
pub record NodeId : Type 0 where
  pub level : ℕ
  pub index : ℕ

pub record Node : Type 0 where
  pub id : NodeId
  pub hash : Hash

-- What the tree takes from its libraries: the hashes of RFC 6962, and a node's parent.
pub record Tree : Type 0 where
  pub hash_leaf : Hash → Hash
  pub hash_children : Hash → Hash → Hash
  pub parent : NodeId → NodeId

-- The parent of a node, as its documentation says: the node above that the two children 2 i and
-- 2 i + 1 share.
pub record HasParents (tree : Tree) : Type 0 where
  pub level : (n : NodeId) → (tree.parent n).level ≡ suc n.level
  pub index : (n : NodeId) → (tree.parent n).index ≡ n.index / 2

module _ {E : Type 0} (tree : Tree) (fetch : NodeId → E ⊎ Hash) where
  -- The step of the loop after the hash on the left was fetched.
  abbrev pub grown : NodeId → Hash → Hash → Node
  grown cur hash left = record { id = tree.parent cur; hash = tree.hash_children left hash }

  -- The loop of `ParentsToStore`, `none` where the fuel runs out: the nodes after the first.
  unfoldable pub climb : ℕ → NodeId → Hash → Option (E ⊎ List Node)
  climb zero cur hash = none
  climb (suc fuel) cur hash =
      if cur.index % 2 == 1
      then elim (fetch (record { level = cur.level; index = cur.index - 1 })) [
        | inl problem ↦ some (inl problem)
        | inr left ↦ elim (climb fuel (tree.parent cur) (tree.hash_children left hash)) [
          | none ↦ none
          | some (inl problem) ↦ some (inl problem)
          | some (inr nodes) ↦ some (inr (grown cur hash left ∷ nodes))
        ]
      ]
      else some (inr [])

  -- `ParentsToStore`. The index is halved in every round, so that the index itself, and one round
  -- more, is fuel enough.
  unfoldable pub parents_to_store : ℕ → Hash → Option (E ⊎ List Node)
  unfolding climb
  parents_to_store index leaf =
      elim (climb (suc index) (record { level = 0; index = index }) leaf) [
        | none ↦ none
        | some (inl problem) ↦ some (inl problem)
        | some (inr nodes) ↦
            some (inr (record { id = record { level = 0; index = index }; hash = leaf } ∷ nodes))
      ]

  climb_ends :
      (parents : HasParents tree) (fuel : ℕ) (cur : NodeId) (hash : Hash)
      → cur.index < fuel
      → climb fuel cur hash ≢ none
  unfolding climb
  climb_ends parents zero cur hash small h = omega arith
  climb_ends parents (suc fuel) cur hash small h = elim (Bool-cases (cur.index % 2 == 1)) [
    | inr even ↦ ground arith
    | inl odd ↦ elim (Sum-cases (fetch (record { level = cur.level; index = cur.index - 1 }))) [
      | inl (problem, e) ↦ ground arith
      | inr (left, e) ↦
          let half = parents.index cur in
          let bit : cur.index % 2 ≡ 1 = ground arith in
          let less : (tree.parent cur).index < fuel = omega arith in
          elim (Option-cases (climb fuel (tree.parent cur) (tree.hash_children left hash))) [
            | inl stuck ↦
                climb_ends parents fuel (tree.parent cur) (tree.hash_children left hash) less stuck
            | inr (inl problem, k) ↦ ground arith
            | inr (inr nodes, k) ↦ ground arith
          ]
    ]
  ]

  -- `ParentsToStore` ends for every index, whatever `fetch` answers: with a list of nodes, or with an
  -- error of `fetch`.
  pub parents_to_store_ends :
      (parents : HasParents tree) (index : ℕ) (leaf : Hash) → parents_to_store index leaf ≢ none
  unfolding parents_to_store
  parents_to_store_ends parents index leaf h =
      let start : NodeId = record { level = 0; index = index } in
      elim (Option-cases (climb (suc index) start leaf)) [
        | inl stuck ↦ climb_ends parents (suc index) start leaf (omega arith) stuck
        | inr (inl problem, k) ↦ ground arith
        | inr (inr nodes, k) ↦ ground arith
      ]
