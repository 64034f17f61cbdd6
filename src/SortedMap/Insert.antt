-- ===== src/SortedMap/Insert.antt =====
-- The insertion of src/rbtree.c: `RBTree_PutNode`, `rbtree_insert_fix` and `RBTree_Put`. What the
-- allocator returns for the new node is an argument.
mod Fix
mod Close
mod Loop
mod Descend
mod Attach
pub mod Put
use python_ctools.Base.{
  ℕ, zero, suc, Bool, true, false, ◌==◌, if◌then◌else◌, Result, ok, raise, fault, assertion,
  starved, ◌>>=◌,
}
use python_ctools.SortedMap.{Order, less, same, greater, Node, SortedMap, read, key_compare}
use python_ctools.SortedMap.Store.{
  Side, left, right, other, child, write, set_child, get_parent, is_red, paint, rotate,
}

-- Where the descent ends: at a node with the key, or below a node, on the side of the last flag.
pub data Slot : Type 0 where
  taken : ℕ → Slot
  vacant : ℕ → Order → Slot

module _ {ℓ} {K V : Type ℓ} where
  -- the loop of `RBTree_PutNode`
  unfoldable pub descend : ℕ → SortedMap K V → K → ℕ → ℕ → Order → Result Slot
  descend zero tree key x y flag = fault starved
  descend (suc fuel) tree key x y flag = elim (x == 0) [
    | true ↦ ok (vacant y flag)
    | false ↦ do
      node ← read tree x
      flag' ← key_compare tree.ordering key node.key
      elim flag' [
        | less ↦ descend fuel tree key node.left x less
        | greater ↦ descend fuel tree key node.right x greater
        | same ↦ ok (taken x)
      ]
  ]

  -- The end of a turn without a red uncle: the map, and the next `z`.
  unfoldable pub insert_end : Side → SortedMap K V → ℕ → Result (SortedMap K V × ℕ)
  insert_end side tree z = do
    parent ← get_parent tree z
    tree1 ← paint tree parent false
    grand ← get_parent tree1 parent
    tree2 ← paint tree1 grand true
    tree3 ← rotate (other side) tree2 grand
    ok (tree3, z)

  -- one turn of the loop of `rbtree_insert_fix`, where the parent is on this side of its own
  unfoldable pub insert_turn : Side → SortedMap K V → ℕ → ℕ → ℕ → Result (SortedMap K V × ℕ)
  insert_turn side tree z parent grand = do
    above ← read tree grand
    red ← is_red tree (child above (other side))
    elim red [
      | true ↦ do
        tree1 ← paint tree parent false
        tree2 ← paint tree1 (child above (other side)) false
        tree3 ← paint tree2 grand true
        ok (tree3, grand)
      | false ↦ do
        node ← read tree parent
        elim (z == child node (other side)) [
          | true ↦ do tree1 ← rotate side tree parent; insert_end side tree1 parent
          | false ↦ insert_end side tree z
        ]
    ]

  unfoldable pub insert_loop : ℕ → SortedMap K V → ℕ → Result (SortedMap K V)
  insert_loop zero tree z = fault starved
  insert_loop (suc fuel) tree z = do
    parent ← get_parent tree z
    red ← is_red tree parent
    elim red [
      | false ↦ ok tree
      | true ↦ do
        grand ← get_parent tree parent
        above ← read tree grand
        out ← insert_turn (if parent == above.left then left else right) tree z parent grand
        insert_loop fuel out.0 out.1
    ]

  -- `rbtree_insert_fix`; a turn goes two levels up, or is the last.
  unfoldable pub insert_fix : SortedMap K V → ℕ → Result (SortedMap K V)
  insert_fix tree z = do tree1 ← insert_loop (suc tree.size) tree z; paint tree1 tree1.root false

  -- the link to a new node `z` from its parent
  unfoldable pub attach : SortedMap K V → ℕ → Order → ℕ → Result (SortedMap K V)
  attach tree y flag z = elim (y == 0) [
    | true ↦ ok (record tree { root = z })
    | false ↦ elim flag [
      | less ↦ set_child tree y left z
      | greater ↦ set_child tree y right z
      | same ↦ fault assertion
    ]
  ]

  -- `RBTree_Put` with `RBTree_PutNode`; `z` is the address of the new node, which is freed again if
  -- the key is there.
  unfoldable pub put_node : SortedMap K V → ℕ → K → V → Result (SortedMap K V)
  put_node tree z key value = do
    slot ← descend (suc tree.size) tree key tree.root 0 same
    elim slot [
      | taken x ↦ do node ← read tree x; ok (write tree x (record node { value = value }))
      | vacant y flag ↦ do
        let new =
            write tree z
              (record { key = key; value = value; left = 0; right = 0; parent = y; red = true })
        tree1 ← attach new y flag z
        insert_fix (record tree1 { size = suc tree.size }) z
    ]
