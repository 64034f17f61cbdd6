-- ===== src/SortedMap/Store.antt =====
-- Reads and writes of the fields of nodes, and the rotations of src/rbtree.c. The code has each
-- routine that turns or repairs the tree twice, as mirror images: here a side stands for left or
-- right.
use python_ctools.Base.{
  ℕ, Bool, true, false, some, ◌==◌, if◌then◌else◌, Result, ok, fault, assertion, ◌>>=◌,
}
use python_ctools.SortedMap.{Node, SortedMap, read}

pub data Side : Type 0 where
  left right : Side

abbrev pub other : Side → Side
other left = right
other right = left

module _ {ℓ} {K V : Type ℓ} where
  abbrev pub child : Node K V → Side → ℕ
  child node left = node.left
  child node right = node.right

  abbrev pub with_child : Node K V → Side → ℕ → Node K V
  with_child node left x = record node { left = x }
  with_child node right x = record node { right = x }

  -- the whole node behind a pointer; also the allocation of one
  unfoldable pub write : SortedMap K V → ℕ → Node K V → SortedMap K V
  write tree x node = record tree { nodes = λ q. if q == x then some node else tree.nodes q }

  unfoldable pub set_child : SortedMap K V → ℕ → Side → ℕ → Result (SortedMap K V)
  set_child tree x side y = do node ← read tree x; ok (write tree x (with_child node side y))

  unfoldable pub get_parent : SortedMap K V → ℕ → Result ℕ
  get_parent tree x = elim (x == 0) [
    | true ↦ ok tree.sentinel_parent
    | false ↦ do node ← read tree x; ok node.parent
  ]

  unfoldable pub set_parent : SortedMap K V → ℕ → ℕ → Result (SortedMap K V)
  set_parent tree x y = elim (x == 0) [
    | true ↦ ok (record tree { sentinel_parent = y })
    | false ↦ do node ← read tree x; ok (write tree x (record node { parent = y }))
  ]

  -- The sentinel is black.
  unfoldable pub is_red : SortedMap K V → ℕ → Result Bool
  is_red tree x = elim (x == 0) [ true ↦ ok false | false ↦ do node ← read tree x; ok node.red ]

  -- All trees share the sentinel, which must stay black: to paint it red is a fault.
  unfoldable pub paint : SortedMap K V → ℕ → Bool → Result (SortedMap K V)
  paint tree x red = elim (x == 0) [
    | true ↦ if red then fault assertion else ok tree
    | false ↦ do node ← read tree x; ok (write tree x (record node { red = red }))
  ]

  -- `y` takes the place of `x` below the parent of `x`. The side is the one that is tested first.
  unfoldable pub replace_child : Side → SortedMap K V → ℕ → ℕ → ℕ → Result (SortedMap K V)
  replace_child side tree parent x y = elim (parent == 0) [
    | true ↦ ok (record tree { root = y })
    | false ↦ do
      node ← read tree parent
      set_child tree parent (if x == child node side then side else other side) y
  ]

  -- `rbtree_left_rotate`, and `rbtree_right_rotate` at the side `right`
  unfoldable pub rotate : Side → SortedMap K V → ℕ → Result (SortedMap K V)
  rotate side tree x = do
    node ← read tree x
    let y = child node (other side)
    above ← read tree y
    tree1 ← set_child tree x (other side) (child above side)
    tree2 ← elim (child above side == 0) [
      | true ↦ ok tree1
      | false ↦ set_parent tree1 (child above side) x
    ]
    parent ← get_parent tree2 x
    tree3 ← set_parent tree2 y parent
    tree4 ← replace_child side tree3 parent x y
    tree5 ← set_child tree4 y side x
    set_parent tree5 x y
