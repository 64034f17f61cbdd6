-- ===== src/SortedMap/Iterate.antt =====
-- The successor of a node and the lists of entries of src/rbtree.c.
pub mod Walk
use python_ctools.Base.{
  ℕ, zero, suc, Bool, true, false, Option, none, some, List, [], ◌∷◌, map, ◌==◌, Result, ok, raise,
  fault, index_error, out_of_bounds, starved, ◌>>=◌,
}
use python_ctools.Base.Dict
use python_ctools.Base.Dict.{Dict}
use python_ctools.SortedMap.{Node, SortedMap, read, leftmost}
use python_ctools.SortedMap.Store.{get_parent}

module _ {ℓ} {K V : Type ℓ} where
  -- the loop of `rbtree_next`
  unfoldable pub climb : ℕ → SortedMap K V → ℕ → Result (Option ℕ)
  climb zero tree x = fault starved
  climb (suc fuel) tree x = do
    parent ← get_parent tree x
    elim (x == tree.root) [
      | true ↦ ok none
      | false ↦ do
        above ← read tree parent
        elim (x == above.left) [ true ↦ ok (some parent) | false ↦ climb fuel tree parent ]
    ]

  -- `rbtree_next`; `none` is NULL.
  unfoldable pub next : SortedMap K V → ℕ → Result (Option ℕ)
  next tree x = do
    node ← read tree x
    elim (node.right == 0) [
      | true ↦ climb (suc tree.size) tree x
      | false ↦ do y ← leftmost (suc tree.size) tree node.right; ok (some y)
    ]

  -- The loop of `RBtree_iter` from a node on, with `room` places of the list to fill. A place that is
  -- left over holds NULL.
  unfoldable pub iter_from : ℕ → SortedMap K V → Option ℕ → Result (Dict K V)
  iter_from zero tree none = ok []
  iter_from zero tree (some x) = raise index_error
  iter_from (suc room) tree none = fault out_of_bounds
  iter_from (suc room) tree (some x) = do
    node ← read tree x
    y ← next tree x
    rest ← iter_from room tree y
    ok ((node.key, node.value) ∷ rest)

  -- `RBTree_items`, and below the same loop for keys and for values
  unfoldable pub items : SortedMap K V → Result (Dict K V)
  items tree = elim (tree.size == 0) [
    | true ↦ ok []
    | false ↦ do x ← leftmost (suc tree.size) tree tree.root; iter_from tree.size tree (some x)
  ]

  unfoldable pub keys : SortedMap K V → Result (List K)
  keys tree = do entries ← items tree; ok (Dict.keys entries)

  unfoldable pub values : SortedMap K V → Result (List V)
  values tree = do entries ← items tree; ok (map (λ e. e.1) entries)
