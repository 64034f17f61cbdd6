-- ===== src/SortedMap/Delete.antt =====
-- The deletion of src/rbtree.c: `rbtree_transplant`, `rbtree_delete`, `rbtree_delete_fixup`,
-- `RBTree_RemoveNode` and `RBTree_Remove`.
mod Turns
mod Black
mod Sibling
pub mod Loop
mod Steps
mod Fixup
pub mod Unlink
pub mod Leave
mod Least
mod Inner
mod Lift
pub mod Both
use python_ctools.Base.{
  ℕ, zero, suc, ◌-◌, Bool, true, false, ◌||◌, ◌&&◌, Option, none, some, ◌==◌, if◌then◌else◌, Result,
  ok, raise, fault, assertion, starved, ◌>>=◌,
}
use python_ctools.SortedMap.{Node, SortedMap, read, find, leftmost}
use python_ctools.SortedMap.Store.{
  Side, left, right, other, child, write, set_child, get_parent, set_parent, is_red, paint,
  replace_child, rotate,
}

module _ {ℓ} {K V : Type ℓ} where
  -- `rbtree_transplant`
  unfoldable pub transplant : SortedMap K V → ℕ → ℕ → Result (SortedMap K V)
  transplant tree u v = do
    parent ← get_parent tree u
    tree1 ← replace_child left tree parent u v
    parent1 ← get_parent tree1 u
    set_parent tree1 v parent1

  -- the sibling of `x` on the other side
  unfoldable pub sibling : Side → SortedMap K V → ℕ → Result ℕ
  sibling side tree x = do
    parent ← get_parent tree x
    node ← read tree parent
    ok (child node (other side))

  -- the last case of a turn: the far child of the sibling is red
  unfoldable pub delete_end : Side → ℕ → SortedMap K V → ℕ → ℕ → Result (SortedMap K V × ℕ)
  delete_end side root tree x w = do
    parent ← get_parent tree x
    red ← is_red tree parent
    tree1 ← paint tree w red
    tree2 ← paint tree1 parent false
    above ← read tree2 w
    tree3 ← paint tree2 (child above (other side)) false
    tree4 ← rotate side tree3 parent
    ok (tree4, root)

  -- A red child near `x` is turned to the far side first.
  unfoldable pub delete_near : Side → ℕ → SortedMap K V → ℕ → ℕ → Result (SortedMap K V × ℕ)
  delete_near side root tree x w = do
    above ← read tree w
    tree1 ← paint tree (child above side) false
    tree2 ← paint tree1 w true
    tree3 ← rotate (other side) tree2 w
    w' ← sibling side tree3 x
    delete_end side root tree3 x w'

  -- the cases with a black sibling
  unfoldable pub delete_black : Side → ℕ → SortedMap K V → ℕ → ℕ → Result (SortedMap K V × ℕ)
  delete_black side root tree x w = do
    above ← read tree w
    near ← is_red tree (child above side)
    far ← is_red tree (child above (other side))
    elim far [
      | true ↦ delete_end side root tree x w
      | false ↦ elim near [
        | true ↦ delete_near side root tree x w
        | false ↦ do tree1 ← paint tree w true; parent ← get_parent tree1 x; ok (tree1, parent)
      ]
    ]

  -- one turn of the loop of `rbtree_delete_fixup`, where `x` is on this side: the map and the next `x`
  unfoldable pub delete_turn : Side → ℕ → SortedMap K V → ℕ → ℕ → Result (SortedMap K V × ℕ)
  delete_turn side root tree x parent = do
    node ← read tree parent
    let w = child node (other side)
    red ← is_red tree w
    elim red [
      | false ↦ delete_black side root tree x w
      | true ↦ do
        tree1 ← paint tree w false
        tree2 ← paint tree1 parent true
        tree3 ← rotate side tree2 parent
        w' ← sibling side tree3 x
        delete_black side root tree3 x w'
    ]

  -- `rbtree_delete_fixup`; `root` is the root at its start.
  unfoldable pub delete_fixup : ℕ → ℕ → SortedMap K V → ℕ → Result (SortedMap K V)
  delete_fixup zero root tree x = fault starved
  delete_fixup (suc fuel) root tree x = do
    red ← is_red tree x
    elim (x == root || red) [
      | true ↦ paint tree x false
      | false ↦ do
        parent ← get_parent tree x
        node ← read tree parent
        out ← delete_turn (if x == node.left then left else right) root tree x parent
        delete_fixup fuel root out.0 out.1
    ]

  -- the end of `rbtree_delete`; a turn goes one level up, or is the last but one.
  unfoldable pub repair : Bool → SortedMap K V → ℕ → Result (SortedMap K V)
  repair red tree x = elim red [
    | true ↦ ok tree
    | false ↦ delete_fixup (suc (suc tree.size)) tree.root tree x
  ]

  -- `y`, the successor of `z`, leaves its place for its right child, and gets the right child of `z`.
  unfoldable pub lift : SortedMap K V → ℕ → ℕ → Result (SortedMap K V)
  lift tree z y = do
    low ← read tree y
    elim (low.parent == z) [
      | true ↦ set_parent tree low.right y
      | false ↦ do
        tree1 ← transplant tree y low.right
        node ← read tree1 z
        tree2 ← set_child tree1 y right node.right
        set_parent tree2 node.right y
    ]

  -- the case of `rbtree_delete` with two children
  unfoldable pub delete_inner : SortedMap K V → ℕ → Result (SortedMap K V)
  delete_inner tree z = do
    node ← read tree z
    y ← leftmost (suc tree.size) tree node.right
    low ← read tree y
    tree1 ← lift tree z y
    tree2 ← transplant tree1 z y
    node2 ← read tree2 z
    tree3 ← set_child tree2 y left node2.left
    tree4 ← set_parent tree3 node2.left y
    tree5 ← paint tree4 y node2.red
    repair low.red tree5 low.right

  -- `rbtree_delete`
  unfoldable pub delete : SortedMap K V → ℕ → Result (SortedMap K V)
  delete tree z = do
    node ← read tree z
    elim (node.left == 0) [
      | true ↦ do tree1 ← transplant tree z node.right; repair node.red tree1 node.right
      | false ↦ elim (node.right == 0) [
        | true ↦ do tree1 ← transplant tree z node.left; repair node.red tree1 node.left
        | false ↦ delete_inner tree z
      ]
    ]

  -- `RBTree_RemoveNode`; the node is freed.
  unfoldable pub remove_node : SortedMap K V → ℕ → Result (SortedMap K V)
  remove_node tree z = elim (tree.root == 0 || z == 0) [
    | true ↦ fault assertion
    | false ↦ do
      tree1 ← elim (tree.root == z && tree.size == 1) [
        | true ↦ ok (record tree { root = 0 })
        | false ↦ delete tree z
      ]
      ok (record tree1 {
        nodes = λ q. if q == z then none else tree1.nodes q;
        size = tree1.size - 1;
      })
  ]

  -- `RBTree_Remove`: the map, and the value if the key was there
  unfoldable pub remove : SortedMap K V → K → Result (SortedMap K V × Option V)
  remove tree key = do
    found ← find tree key
    elim found [
      | none ↦ ok (tree, none)
      | some x ↦ do node ← read tree x; tree1 ← remove_node tree x; ok (tree1, some node.value)
    ]
