-- ===== src/SortedMap.antt =====
-- `CtsRBTree` of src/rbtree.c: nodes behind pointers, the comparison of keys, and the search. A
-- pointer is a number, and 0 is the sentinel, one static node of which the code writes only the
-- parent. What a comparison of two Python objects returns is a parameter; the caller's comparisons
-- do not use the map. Loops run on fuel, and one that runs out is starved. Failed allocations and
-- reference counts are left out.
pub mod Shape
pub mod Search
pub mod Ends
pub mod Sorted
pub mod Valid
pub mod Lookup
pub mod Store
pub mod Insert
pub mod Delete
pub mod Iterate
pub mod Methods
pub mod Tree
mod Tests
use python_ctools.Base.{
  ℕ, zero, suc, ◌+◌, Bool, true, false, Option, none, some, ◌==◌, if◌then◌else◌, Result, ok, raise,
  fault, type_error, key_error, out_of_bounds, starved, ◌>>=◌,
}
use mathlib.Core.Option.{get_or}
use python_ctools.Base.Int.{ℤ, pos, negsuc}

-- RBTree_LT, RBTree_EQ and RBTree_GT
pub data Order : Type 0 where
  less same greater : Order

-- The order of a map: `<` and `>` of the keys, or the caller's function, which may return an object
-- that is no integer (`none`).
pub data Ordering {ℓ} (K : Type ℓ) : Type ℓ where
  rich : (K → K → Result Bool) → (K → K → Result Bool) → Ordering K
  cmpfunc : (K → K → Result (Option ℤ)) → Ordering K

-- `cts_rbtree_node`; `red` is the colour.
pub record Node {ℓ} (K V : Type ℓ) : Type ℓ where
  pub key : K
  pub value : V
  pub left : ℕ
  pub right : ℕ
  pub parent : ℕ
  pub red : Bool

pub record SortedMap {ℓ} (K V : Type ℓ) : Type ℓ where
  pub nodes : ℕ → Option (Node K V)
  pub root : ℕ
  pub ordering : Ordering K
  pub size : ℕ
  pub sentinel_parent : ℕ

pub of_sign : ℤ → Order
of_sign (pos zero) = same
of_sign (pos (suc _)) = greater
of_sign (negsuc _) = less

-- `rbtree_key_compare`
module _ {ℓ} {K : Type ℓ} where
  pub key_compare : Ordering K → K → K → Result Order
  key_compare (rich lt gt) key1 key2 = elim (lt key1 key2) [
    | raise e ↦ raise e
    | fault f ↦ fault f
    | ok true ↦ ok less
    | ok false ↦ elim (gt key1 key2) [
      | raise e ↦ raise e
      | fault f ↦ fault f
      | ok true ↦ ok greater
      | ok false ↦ ok same
    ]
  ]
  key_compare (cmpfunc cmp) key1 key2 = elim (cmp key1 key2) [
    | raise e ↦ raise e
    | fault f ↦ fault f
    | ok none ↦ raise type_error
    | ok (some n) ↦ ok (of_sign n)
  ]

module _ {ℓ} {K V : Type ℓ} where
  -- a node behind a pointer; what the sentinel has of one is never set
  unfoldable pub read : SortedMap K V → ℕ → Result (Node K V)
  read tree x = elim (x == 0) [
    | true ↦ fault out_of_bounds
    | false ↦ elim (tree.nodes x) [ none ↦ fault out_of_bounds | some node ↦ ok node ]
  ]

  -- The loop of `rbtree_find` from a node on: the pointer to the node with the key, if there is one.
  pub find_from : ℕ → SortedMap K V → K → ℕ → Result (Option ℕ)
  find_from zero tree key x = fault starved
  find_from (suc fuel) tree key x = elim (x == 0) [
    | true ↦ ok none
    | false ↦ do
      node ← read tree x
      flag ← key_compare tree.ordering key node.key
      elim flag [
        | less ↦ find_from fuel tree key node.left
        | greater ↦ find_from fuel tree key node.right
        | same ↦ ok (some x)
      ]
  ]

  -- A path from the root has at most as many nodes as the map.
  pub find : SortedMap K V → K → Result (Option ℕ)
  find tree key = find_from (suc tree.size) tree key tree.root

  -- `RBTree_Get`
  pub get_value : SortedMap K V → K → Result (Option V)
  get_value tree key = do
    found ← find tree key
    elim found [ none ↦ ok none | some x ↦ do node ← read tree x; ok (some node.value) ]

  -- `__getitem__`
  pub subscript : SortedMap K V → K → Result V
  subscript tree key = do
    found ← get_value tree key
    elim found [ none ↦ raise key_error | some value ↦ ok value ]

  pub contains : SortedMap K V → K → Result Bool
  contains tree key = do
    found ← get_value tree key
    elim found [ none ↦ ok false | some _ ↦ ok true ]

  -- `rbtree_min`, and the loop of `RBTree_max`
  pub leftmost : ℕ → SortedMap K V → ℕ → Result ℕ
  leftmost zero tree x = fault starved
  leftmost (suc fuel) tree x = do
    node ← read tree x
    elim (node.left == 0) [ true ↦ ok x | false ↦ leftmost fuel tree node.left ]

  pub rightmost : ℕ → SortedMap K V → ℕ → Result ℕ
  rightmost zero tree x = fault starved
  rightmost (suc fuel) tree x = do
    node ← read tree x
    elim (node.right == 0) [ true ↦ ok x | false ↦ rightmost fuel tree node.right ]

  -- `rbtree_build_tuple`
  pub build_tuple : SortedMap K V → ℕ → Result (K × V)
  build_tuple tree x = do node ← read tree x; ok (node.key, node.value)

  pub min_item : SortedMap K V → Result (K × V)
  min_item tree = elim (tree.root == 0) [
    | true ↦ raise key_error
    | false ↦ do x ← leftmost (suc tree.size) tree tree.root; build_tuple tree x
  ]

  pub max_item : SortedMap K V → Result (K × V)
  max_item tree = elim (tree.root == 0) [
    | true ↦ raise key_error
    | false ↦ do x ← rightmost (suc tree.size) tree tree.root; build_tuple tree x
  ]

  -- `py_none` is the object None.
  pub get : V → SortedMap K V → K → Option V → Result V
  get py_none tree key default = do
    found ← get_value tree key
    elim found [ none ↦ ok (get_or default py_none) | some value ↦ ok value ]
