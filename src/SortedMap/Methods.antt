-- ===== src/SortedMap/Methods.antt =====
-- The methods of the sorted map of src/rbtree.c that change it. A method returns the new map beside
-- its result; an exception comes before any change, except that
-- `update` keeps the entries that it stored before the one that raised.
use python_ctools.Base.{
  ℕ, suc, Bool, true, false, Option, none, some, [], ◌∷◌, length, ◌==◌, Result, ok, raise, fault,
  key_error, type_error, ◌>>=◌,
}
use mathlib.Core.Option.{get_or}
use python_ctools.Base.Dict.{Dict}
use python_ctools.SortedMap.{Ordering, rich, SortedMap, get_value, leftmost, build_tuple}
use python_ctools.SortedMap.Insert.{put_node}
use python_ctools.SortedMap.Delete.{remove_node, remove}

module _ {ℓ} {K V : Type ℓ} where
  -- `RBTree_New`
  unfoldable pub new : Ordering K → SortedMap K V
  new ordering = record {
    nodes = λ _. none;
    root = 0;
    ordering = ordering;
    size = 0;
    sentinel_parent = 0;
  }

  -- `RBTree_tp_new`: nothing or None for the order of the keys, or a callable; `some none` is an
  -- object that cannot be called.
  unfoldable pub tp_new :
      (K → K → Result Bool)
      → (K → K → Result Bool)
      → Option (Option (Ordering K))
      → Result (SortedMap K V)
  tp_new lt gt none = ok (new (rich lt gt))
  tp_new lt gt (some none) = raise type_error
  tp_new lt gt (some (some ordering)) = ok (new ordering)

-- what a call leaves and returns: the old map if it ends in an exception
unfoldable pub settle {ℓ} :
    {K V A : Type ℓ} → SortedMap K V → Result (SortedMap K V × A) → SortedMap K V × Result A
settle tree (ok (tree', a)) = (tree', ok a)
settle tree (raise e) = (tree, raise e)
settle tree (fault f) = (tree, fault f)

module _ {ℓ} {K V : Type ℓ} where
  -- `__setitem__`; `z` is what the allocator returns.
  unfoldable pub put : SortedMap K V → ℕ → K → V → SortedMap K V × Result V
  put tree z key value = settle tree (do tree' ← put_node tree z key value; ok (tree', value))

  -- `__delitem__`
  unfoldable pub del_item : SortedMap K V → K → SortedMap K V × Result V
  del_item tree key = settle tree (do
    out ← remove tree key
    elim out.1 [ none ↦ raise key_error | some value ↦ ok (out.0, value) ])

  -- `py_none` is the object None.
  unfoldable pub pop : V → SortedMap K V → K → Option V → SortedMap K V × Result V
  pop py_none tree key default = settle tree (do
    out ← remove tree key
    elim out.1 [ none ↦ ok (out.0, get_or default py_none) | some value ↦ ok (out.0, value) ])

  unfoldable pub popitem : SortedMap K V → SortedMap K V × Result (K × V)
  popitem tree = elim (tree.root == 0) [
    | true ↦ (tree, raise key_error)
    | false ↦ settle tree (do
      x ← leftmost (suc tree.size) tree tree.root
      entry ← build_tuple tree x
      tree' ← remove_node tree x
      ok (tree', entry))
  ]

  -- the second half of `setdefault` and `setnx`
  unfoldable pub setdefault : V → SortedMap K V → ℕ → K → Option V → SortedMap K V × Result V
  setdefault py_none tree z key default = elim (get_value tree key) [
    | raise e ↦ (tree, raise e)
    | fault f ↦ (tree, fault f)
    | ok (some value) ↦ (tree, ok value)
    | ok none ↦ put tree z key (get_or default py_none)
  ]

  -- the end of `setnx`, with what the callback left and returned
  unfoldable pub keep_answer : ℕ → K → SortedMap K V × Result V → SortedMap K V × Result V
  keep_answer z key (tree, ok value) = put tree z key value
  keep_answer z key (tree, raise e) = (tree, raise e)
  keep_answer z key (tree, fault f) = (tree, fault f)

  -- Without a callback the value is None. A callback may use the map.
  unfoldable pub setnx :
      V
      → SortedMap K V
      → ℕ
      → K
      → Option (K → SortedMap K V → SortedMap K V × Result V)
      → SortedMap K V × Result V
  setnx py_none tree z key callback = elim (get_value tree key) [
    | raise e ↦ (tree, raise e)
    | fault f ↦ (tree, fault f)
    | ok (some value) ↦ (tree, ok value)
    | ok none ↦ elim callback [
      | none ↦ put tree z key py_none
      | some f ↦ keep_answer z key (f key tree)
    ]
  ]

  -- One loop of `update` over the entries that `PyDict_Next` yields, at the addresses that the
  -- allocator returns.
  unfoldable pub put_all :
      (ℕ → ℕ) → ℕ → SortedMap K V → Dict K V → SortedMap K V × Result (Unit {0})
  put_all malloc n tree [] = (tree, ok tt)
  put_all malloc n tree ((key, value) ∷ entries) =
      let (tree', stored) = put tree (malloc n) key value in
      elim stored [
        | ok _ ↦ put_all malloc (suc n) tree' entries
        | raise e ↦ (tree', raise e)
        | fault f ↦ (tree', fault f)
      ]

  -- `PyDict_Next` is a parameter: `end_pos d` is the position it leaves after the last entry of
  -- `d`, and `from_pos p d` are the entries that it yields from position `p` on. The second loop
  -- starts at the position that the first one left.
  module _ (end_pos : Dict K V → ℕ) (from_pos : ℕ → Dict K V → Dict K V) where
    unfoldable pub update :
        (ℕ → ℕ)
        → SortedMap K V
        → Option (Dict K V)
        → Option (Dict K V)
        → SortedMap K V × Result (Unit {0})
    update malloc tree none none = (tree, ok tt)
    update malloc tree none (some kwargs) = put_all malloc 0 tree (from_pos 0 kwargs)
    update malloc tree (some arg) none = put_all malloc 0 tree (from_pos 0 arg)
    update malloc tree (some arg) (some kwargs) =
        let (tree', stored) = put_all malloc 0 tree (from_pos 0 arg) in
        elim stored [
          | ok _ ↦ put_all malloc (length (from_pos 0 arg)) tree' (from_pos (end_pos arg) kwargs)
          | raise e ↦ (tree', raise e)
          | fault f ↦ (tree', fault f)
        ]

  -- The nodes are left to the reference counts.
  unfoldable pub clear : SortedMap K V → SortedMap K V
  clear tree = elim (tree.size == 0) [
    | true ↦ tree
    | false ↦ record tree { nodes = λ _. none; root = 0; size = 0 }
  ]
