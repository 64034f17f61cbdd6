-- ===== src/SortedMap/Lookup.antt =====
-- Lookups in a valid map, and after an insertion.
use python_ctools.Base.{
  ℕ, ◌≡◌, ◌≢◌, inl, inr, refl, sym, ap, ap₂, subst, ◌∙◌, Option, none, some, ◌∷◌, ◌++◌, arith, ok,
}
use python_ctools.SortedMap.{Order, less, same, greater, Node, SortedMap, key_compare, get_value}
use python_ctools.SortedMap.Shape
use python_ctools.SortedMap.Shape.{Shape, AllKeys, Before, Ascends, Leads, Holds, first_same}
use python_ctools.SortedMap.Sorted.{
  Order-cases, TotalOrder, Ascending, Ascending-parts, first_same-put_entry,
}
use python_ctools.SortedMap.Valid.{Valid}
use python_ctools.SortedMap.Search.{get_value_lem}
use python_ctools.SortedMap.Insert.{put_node}
use python_ctools.SortedMap.Insert.Put.{put_node_lem}
use python_ctools.SortedMap.Store.{left}
use python_ctools.SortedMap.Tree.{Tree, leaf, branch, addr, entries, count, cell, Rep}

module _ {ℓ} {K V : Type ℓ} where
  -- the tree without the addresses of its nodes, below a parent
  abbrev pub shape_of : ℕ → Tree K V → Shape K V
  shape_of parent leaf = Shape.leaf
  shape_of parent (branch c l p k v r) =
      Shape.branch (shape_of p l) (cell left c k v (addr l) (addr r) parent) (shape_of p r)

  entries-shape_of : (parent : ℕ) (t : Tree K V) → Shape.entries (shape_of parent t) ≡ entries t
  entries-shape_of parent leaf = refl
  entries-shape_of parent (branch c l p k v r) =
      ap₂ (λ i j. i ++ (k, v) ∷ j) (entries-shape_of p l) (entries-shape_of p r)

  count-shape_of : (parent : ℕ) (t : Tree K V) → Shape.count (shape_of parent t) ≡ count t
  count-shape_of parent leaf = refl
  count-shape_of parent (branch c l p k v r) = omega (arith, count-shape_of p l, count-shape_of p r)

  shape_of-Leads :
      (nodes : ℕ → Option (Node K V)) (parent : ℕ) (t : Tree K V)
      → Rep nodes parent t
      → Leads nodes (addr t) (shape_of parent t)
  shape_of-Leads nodes parent leaf h = (refl, tt)
  shape_of-Leads nodes parent (branch c l p k v r) h =
      (h.0, h.1, (shape_of-Leads nodes p l h.2.0, shape_of-Leads nodes p r h.2.1))

module _ {ℓ} {K V : Type ℓ} (compare : K → K → Order) where
  shape_of-Ascends :
      (parent : ℕ) (t : Tree K V)
      → Ascending compare (entries t)
      → Ascends compare (shape_of parent t)
  shape_of-Ascends parent leaf h = tt
  shape_of-Ascends parent (branch c l p k v r) h =
      let parts = Ascending-parts compare (entries l) k v (entries r) h in
      (
        subst (AllKeys (λ i. Before compare i k)) (sym (entries-shape_of p l)) parts.2,
        subst (AllKeys (λ j. Before compare k j)) (sym (entries-shape_of p r)) parts.3,
        (shape_of-Ascends p l parts.0, shape_of-Ascends p r parts.1),
      )

  pub Valid-Holds :
      (tree : SortedMap K V) (t : Tree K V)
      → Valid compare tree t
      → Holds compare tree (shape_of 0 t)
  Valid-Holds tree t h = record {
    leads =
        subst (λ i. Leads tree.nodes i (shape_of 0 t)) (sym h.located.root)
          (shape_of-Leads tree.nodes 0 t h.located.rep);
    sized = count-shape_of 0 t ∙ sym h.sized;
    ascends = shape_of-Ascends 0 t h.ascending;
  }

  -- A lookup in a valid map scans its entries.
  pub get_value-Valid :
      (tree : SortedMap K V) (t : Tree K V) (key : K)
      → ((a b : K) → key_compare tree.ordering a b ≡ ok (compare a b))
      → Valid compare tree t
      → get_value tree key ≡ ok (first_same compare key (entries t))
  get_value-Valid tree t key answers h =
      get_value_lem compare tree answers (shape_of 0 t) key (Valid-Holds tree t h)
      ∙ ap (λ d. ok (first_same compare key d)) (entries-shape_of 0 t)

  -- On a map that is a red-black tree of its size with ascending keys, under comparisons that
  -- succeed as a total preorder, an insertion at a fresh address ends, and then a lookup finds the
  -- new value at each key that compares the same, and at each other key what it found before.
  pub get_value-put_node :
      (tree : SortedMap K V) (t : Tree K V) (x : ℕ) (key q : K) (value : V)
      → TotalOrder compare
      → ((a b : K) → key_compare tree.ordering a b ≡ ok (compare a b))
      → Valid compare tree t
      → x ≢ 0
      → tree.nodes x ≡ none
      → (tree' : SortedMap K V) × (put_node tree x key value ≡ ok tree')
        × (get_value tree' q ≡ elim (compare q key) [
          | less ↦ get_value tree q
          | same ↦ ok (some value)
          | greater ↦ get_value tree q
        ])
  get_value-put_node tree t x key q value total answers h nonzero free =
      let s = put_node_lem compare tree t x key value total answers h nonzero free in
      let answers' : (a b : K) → key_compare s.tree'.ordering a b ≡ ok (compare a b) =
        λ a b. ap (λ i. key_compare i a b) s.same_order ∙ answers a b in
      let after =
        get_value-Valid s.tree' s.t' q answers' s.valid
        ∙ ap (λ d. ok (first_same compare q d)) s.same_entries
        ∙ ap ok (first_same-put_entry compare q key value (entries t) total) in
      let before = get_value-Valid tree t q answers h in
      (
        s.tree',
        s.ends,
        elim (Order-cases (compare q key)) [
          | inl o ↦ ground (arith, o, after, before)
          | inr (inl o) ↦ ground (arith, o, after)
          | inr (inr o) ↦ ground (arith, o, after, before)
        ],
      )
