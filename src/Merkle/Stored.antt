-- ===== src/Merkle/Stored.antt =====
-- internal/merkle/merkle.go: the stored nodes of a tree that grows leaf by leaf.
use keelage.Prelude.{
  ℕ, zero, suc, ◌+◌, ◌-◌, ◌*◌, ◌/◌, ◌%◌, ◌<◌, ◌≡◌, ◌≢◌, refl, sym, ap, ◌∙◌, ◌&&◌, ◌⊎◌, inl, inr,
  Option, none, some, Bool-cases, List, [], ◌∷◌, ◌==◌, All, Any, if◌then◌else◌, arith,
}
use keelage.Core.Envelope.{Hash}
use keelage.Merkle.Tree.{NodeId, Node, Tree, HasParents, grown, climb, parents_to_store}

-- The table of nodes that the caller keeps, and its `fetch`: a missing node is an error.
abbrev pub Store : Type 0
Store = ℕ → ℕ → Option Hash

abbrev pub Missing : Type 0
Missing = Unit

abbrev found_or : Option Hash → Missing ⊎ Hash
found_or none = inl tt
found_or (some h) = inr h

abbrev pub fetch_from : Store → NodeId → Missing ⊎ Hash
fetch_from store n = found_or (store n.level n.index)

abbrev pub put : Store → Node → Store
put store n level index =
    if n.id.level == level && n.id.index == index then some n.hash else store level index

-- "The caller stores every returned node."
unfoldable pub put_all : Store → List Node → Store
put_all store [] = store
put_all store (n ∷ nodes) = put_all (put store n) nodes

-- The last leaf below a node.
unfoldable pub last_leaf : ℕ → ℕ → ℕ
last_leaf zero index = index
last_leaf (suc level) index = last_leaf level (2 * index + 1)

-- The hash of a node, from those of all the leaves: RFC 6962's hash of a perfect subtree.
unfoldable pub subtree : Tree → (ℕ → Hash) → ℕ → ℕ → Hash
subtree tree leaf zero index = leaf index
subtree tree leaf (suc level) index =
    tree.hash_children (subtree tree leaf level (2 * index))
      (subtree tree leaf level (2 * index + 1))

last_leaf-lt : (level i j : ℕ) → i < j → last_leaf level i < last_leaf level j
unfolding last_leaf
last_leaf-lt zero i j h = h
last_leaf-lt (suc level) i j h = last_leaf-lt level (2 * i + 1) (2 * j + 1) (omega arith)

last_leaf-inj : (level i j : ℕ) → last_leaf level i ≡ last_leaf level j → i ≡ j
unfolding last_leaf
last_leaf-inj zero i j h = h
last_leaf-inj (suc level) i j h =
    let same = last_leaf-inj level (2 * i + 1) (2 * j + 1) h in omega arith

-- Every node above level `level` ends, on that level, with an odd index.
record EndsOdd (level above i : ℕ) : Type 0 where
  pub at : (j : ℕ) × (last_leaf (suc above + level) i ≡ last_leaf level (2 * j + 1))

ends_odd : (level above i : ℕ) → EndsOdd level above i
unfolding last_leaf
ends_odd level zero i =
    let size : suc zero + level ≡ suc level = omega arith in
    record { at = (i, rw (last_leaf, size) refl) }
ends_odd level (suc above) i =
    let (j, e) = (ends_odd level above (2 * i + 1)).at in
    let size : suc (suc above) + level ≡ suc (suc above + level) = omega arith in
    record { at = (j, rw (last_leaf, size) e) }

module _ (tree : Tree) (leaf : ℕ → Hash) where
  -- The store has every node whose leaves are all among the first `size`, with its hash.
  abbrev pub IsStored : Store → ℕ → Type 0
  IsStored store size =
      (level index : ℕ)
      → last_leaf level index < size
      → store level index ≡ some (subtree tree leaf level index)

  abbrev IsRight : Node → Type 0
  IsRight n = n.hash ≡ subtree tree leaf n.id.level n.id.index

  abbrev IsAt : ℕ → ℕ → Node → Type 0
  IsAt level index n = (n.id.level ≡ level) × (n.id.index ≡ index)

  put_right :
      (store : Store) (n : Node) (level index : ℕ)
      → IsRight n
      → (IsAt level index n) ⊎ (store level index ≡ some (subtree tree leaf level index))
      → put store n level index ≡ some (subtree tree leaf level index)
  put_right store n level index r h =
      elim (Bool-cases (n.id.level == level && n.id.index == index)) [
        | inl here ↦
            let one : n.id.level ≡ level = ground arith in
            let two : n.id.index ≡ index = ground arith in rw (here, r, one, two) refl
        | inr away ↦ elim h [ inl at ↦ absurd (ground arith) | inr kept ↦ rw away kept ]
      ]

  put_all_right :
      (store : Store) (nodes : List Node) (level index : ℕ)
      → All IsRight nodes
      → (Any (IsAt level index) nodes) ⊎ (store level index ≡ some (subtree tree leaf level index))
      → put_all store nodes level index ≡ some (subtree tree leaf level index)
  unfolding put_all
  put_all_right store [] level index r (inl bad) = absurd bad
  put_all_right store [] level index r (inr kept) = kept
  put_all_right store (n ∷ nodes) level index (r, rs) (inl (inl at)) =
      put_all_right (put store n) nodes level index rs
        (inr (put_right store n level index r (inl at)))
  put_all_right store (n ∷ nodes) level index (r, rs) (inl (inr later)) =
      put_all_right (put store n) nodes level index rs (inl later)
  put_all_right store (n ∷ nodes) level index (r, rs) (inr kept) =
      put_all_right (put store n) nodes level index rs
        (inr (put_right store n level index r (inr kept)))

  -- What the loop gives, from a node that ends with the new leaf.
  record Climbs (store : Store) (size : ℕ) (fuel : ℕ) (cur : NodeId) (hash : Hash) : Type 0 where
    pub nodes : List Node
    pub ends : climb tree (fetch_from store) fuel cur hash ≡ some (inr nodes)
    pub right : All IsRight nodes
    pub above :
        (level index : ℕ)
        → cur.level < level
        → last_leaf level index ≡ size
        → Any (IsAt level index) nodes

  module _ (parents : HasParents tree) (store : Store) (size : ℕ)
      (stored : IsStored store size) where
    -- A node above one with an even index does not end with the same leaf.
    none_above :
        (cur : NodeId) (level index : ℕ)
        → last_leaf cur.level cur.index ≡ size
        → cur.index % 2 ≢ 1
        → cur.level < level
        → last_leaf level index ≢ size
    none_above cur level index here even above same =
        let (j, e) = (ends_odd cur.level (level - cur.level - 1) index).at in
        let at : suc (level - cur.level - 1) + cur.level ≡ level = omega arith in
        let odd : last_leaf level index ≡ last_leaf cur.level (2 * j + 1) =
          ap (λ n. last_leaf n index) (sym at) ∙ e in
        let one = last_leaf-inj cur.level cur.index (2 * j + 1) (here ∙ sym same ∙ odd) in
        even (omega arith)

    left_stored :
        (cur : NodeId)
        → last_leaf cur.level cur.index ≡ size
        → cur.index % 2 ≡ 1
        → fetch_from store (record { level = cur.level; index = cur.index - 1 })
          ≡ inr (subtree tree leaf cur.level (cur.index - 1))
    left_stored cur here odd =
        let before = last_leaf-lt cur.level (cur.index - 1) cur.index (omega arith) in
        rw (stored cur.level (cur.index - 1) (omega arith)) refl

    -- The two children, below the parent.
    parent_subtree :
        (cur : NodeId)
        → cur.index % 2 ≡ 1
        → tree.hash_children
            (subtree tree leaf cur.level (cur.index - 1))
            (subtree tree leaf cur.level cur.index)
          ≡ subtree tree leaf (tree.parent cur).level (tree.parent cur).index
    unfolding subtree
    parent_subtree cur odd =
        let level = parents.level cur in
        let index = parents.index cur in
        let one : 2 * (cur.index / 2) ≡ cur.index - 1 = omega arith in
        let two : cur.index - 1 + 1 ≡ cur.index = omega arith in
        rw (level, index, subtree, one, two) refl

    parent_last :
        (cur : NodeId)
        → cur.index % 2 ≡ 1
        → last_leaf (tree.parent cur).level (tree.parent cur).index ≡ last_leaf cur.level cur.index
    unfolding last_leaf
    parent_last cur odd =
        let level = parents.level cur in
        let index = parents.index cur in
        let one : 2 * (cur.index / 2) + 1 ≡ cur.index = omega arith in
        rw (level, index, last_leaf, one) refl

    climb-Climbs :
        (fuel : ℕ) (cur : NodeId) (hash : Hash)
        → cur.index < fuel
        → last_leaf cur.level cur.index ≡ size
        → hash ≡ subtree tree leaf cur.level cur.index
        → Climbs store size fuel cur hash
    unfolding climb
    climb-Climbs zero cur hash small here right = absurd (omega arith)
    climb-Climbs (suc fuel) cur hash small here right = elim (Bool-cases (cur.index % 2 == 1)) [
      | inr even ↦ record {
        nodes = [];
        ends = rw (climb, even) refl;
        right = tt;
        above = λ level index over same.
            none_above cur level index here (λ odd. ground arith) over same;
      }
      | inl odd ↦
          let bit : cur.index % 2 ≡ 1 = ground arith in
          let half = parents.index cur in
          let up = parents.level cur in
          let left = subtree tree leaf cur.level (cur.index - 1) in
          let next =
            climb-Climbs fuel (tree.parent cur) (tree.hash_children left hash) (omega arith)
              (parent_last cur bit ∙ here)
              (ap (tree.hash_children left) right ∙ parent_subtree cur bit) in
          record {
            nodes = grown tree (fetch_from store) cur hash left ∷ next.nodes;
            ends = rw (climb, odd, left_stored cur here bit, next.ends) refl;
            right = (ap (tree.hash_children left) right ∙ parent_subtree cur bit, next.right);
            above = λ level index over same. elim (Bool-cases (level == (tree.parent cur).level)) [
              | inl at ↦
                  let one : level ≡ (tree.parent cur).level = ground arith in
                  let two = last_leaf-inj level (tree.parent cur).index index (
                    ap (λ n. last_leaf n (tree.parent cur).index) one
                    ∙ parent_last cur bit
                    ∙ here
                    ∙ sym same) in
                  inl (sym one, two)
              | inr other ↦
                  let beyond : (tree.parent cur).level < level = ground arith in
                  inr (next.above level index beyond same)
            ];
          }
    ]

    new_node :
        (level index : ℕ)
        → last_leaf level index ≡ size
        → (c : Climbs store size (suc size) (record { level = 0; index = size }) (leaf size))
        → Any
            (IsAt level index)
            (record { id = record { level = 0; index = size }; hash = leaf size } ∷ c.nodes)
    unfolding last_leaf
    new_node zero index same c = inl (refl, sym same)
    new_node (suc level) index same c = inr (c.above (suc level) index (omega arith) same)

    -- Where the store has every node of the tree of `size` leaves, `ParentsToStore` for the next leaf
    -- succeeds, and storing what it returns leaves every node of the tree of one leaf more.
    pub parents_to_store-IsStored :
        (nodes : List Node) × (parents_to_store tree (fetch_from store) size (leaf size)
          ≡ some (inr nodes))
        × IsStored (put_all store nodes) (suc size)
    unfolding parents_to_store last_leaf subtree
    parents_to_store-IsStored =
        let start : NodeId = record { level = 0; index = size } in
        let first : Node = record { id = start; hash = leaf size } in
        let c = climb-Climbs (suc size) start (leaf size) (omega arith) refl refl in
        (
          first ∷ c.nodes,
          rw (parents_to_store, c.ends) refl,
          λ level index below.
              put_all_right store (first ∷ c.nodes) level index (refl, c.right)
                (elim (Bool-cases (last_leaf level index == size)) [
                  | inr other ↦ inr (stored level index (ground arith))
                  | inl new ↦ inl (new_node level index (ground arith) c)
                ]),
        )
