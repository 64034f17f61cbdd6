-- ===== src/SortedMap/Tree/Links.antt =====
-- The links above and below a tree: what `replace_child` and `set_parent` leave of a layout.
use python_ctools.Base.{
  ℕ, ◌≤◌, ◌≡◌, ◌≢◌, refl, Bool, true, false, some, ◌==◌, if◌then◌else◌, arith, Result, ok,
}
use python_ctools.SortedMap.{Node, SortedMap, read}
use python_ctools.SortedMap.Store.{
  Side, left, right, other, child, write, set_child, get_parent, set_parent, is_red, paint,
  replace_child,
}
use python_ctools.SortedMap.Tree.{
  Tree, leaf, branch, Place, top, below, addr, above, occ, occ_around, cell, Rep, RepAround,
  root_of,
}
use python_ctools.SortedMap.Tree.Frame.{Rep-Agrees, RepAround-Agrees}

module _ {ℓ} {K V : Type ℓ} where
  pub write-off :
      (tree : SortedMap K V) (x : ℕ) (node : Node K V) (q : ℕ)
      → q ≢ x
      → (write tree x node).nodes q ≡ tree.nodes q
  unfolding write
  write-off tree x node q ne = ground (arith, ne)

  -- the map with another address in a place
  abbrev pub relink : SortedMap K V → Place K V → ℕ → SortedMap K V
  relink tree top y = record tree { root = y }
  relink tree (below d c p k v s rest) y = write tree p (cell d c k v y (addr s) (above rest))

  pub relink-off :
      (tree : SortedMap K V) (z : Place K V) (y q : ℕ)
      → occ_around q z ≡ 0
      → (relink tree z y).nodes q ≡ tree.nodes q
  unfolding write
  relink-off tree top y q absent = refl
  relink-off tree (below d c p k v s rest) y q absent = ground arith

  pub addr-ne : (s : Tree K V) (x : ℕ) → x ≢ 0 → occ x s ≡ 0 → x ≢ addr s
  addr-ne leaf x nonzero absent = nonzero
  addr-ne (branch c l p k v r) x nonzero absent = λ e. ground (arith, e, absent)

  pub replace_child_lem :
      (side : Side) (tree : SortedMap K V) (z : Place K V) (x y : ℕ)
      → x ≢ 0
      → occ_around x z ≡ 0
      → RepAround tree.nodes z x
      → replace_child side tree (above z) x y ≡ ok (relink tree z y)
  unfolding replace_child set_child read
  replace_child_lem side tree top x y nonzero absent h = refl
  replace_child_lem left tree (below left c p k v s rest) x y nonzero absent h =
      ground (arith, h.0, h.1)
  replace_child_lem left tree (below right c p k v s rest) x y nonzero absent h =
      ground (arith, h.0, h.1, addr-ne s x)
  replace_child_lem right tree (below left c p k v s rest) x y nonzero absent h =
      ground (arith, h.0, h.1, addr-ne s x)
  replace_child_lem right tree (below right c p k v s rest) x y nonzero absent h =
      ground (arith, h.0, h.1)

  pub relink-RepAround :
      (tree : SortedMap K V) (z : Place K V) (x y : ℕ)
      → ((q : ℕ) → occ_around q z ≤ 1)
      → RepAround tree.nodes z x
      → RepAround (relink tree z y).nodes z y
  unfolding write
  relink-RepAround tree top x y once h = tt
  relink-RepAround tree (below d c p k v s rest) x y once h =
      let agrees : (q : ℕ)
          → q ≢ p
          → (relink tree (below d c p k v s rest) y).nodes q ≡ tree.nodes q =
        λ q ne. ground arith in
      (
        h.0,
        ground arith,
        (
          Rep-Agrees tree.nodes (relink tree (below d c p k v s rest) y).nodes p s
              (λ q o. agrees q (λ e. ground (arith, once q))) h.2.0,
          RepAround-Agrees tree.nodes (relink tree (below d c p k v s rest) y).nodes rest p
              (λ q o. agrees q (λ e. ground (arith, once q))) h.2.1,
        ),
      )

  pub relink-root :
      (tree : SortedMap K V) (z : Place K V) (x y : ℕ)
      → tree.root ≡ root_of z x
      → (relink tree z y).root ≡ root_of z y
  unfolding write
  relink-root tree top x y e = refl
  relink-root tree (below d c p k v s rest) x y e = e

  -- the map with another parent for a tree; the sentinel is left as it is
  abbrev pub adopt : SortedMap K V → Tree K V → ℕ → SortedMap K V
  adopt tree leaf x = tree
  adopt tree (branch c l p k v r) x = write tree p (cell left c k v (addr l) (addr r) x)

  pub adopt-off :
      (tree : SortedMap K V) (t : Tree K V) (x q : ℕ)
      → occ q t ≡ 0
      → (adopt tree t x).nodes q ≡ tree.nodes q
  unfolding write
  adopt-off tree leaf x q absent = refl
  adopt-off tree (branch c l p k v r) x q absent = ground arith

  pub set_parent_lem :
      (tree : SortedMap K V) (t : Tree K V) (parent x : ℕ)
      → Rep tree.nodes parent t
      → addr t ≢ 0
      → set_parent tree (addr t) x ≡ ok (adopt tree t x)
  unfolding set_parent read
  set_parent_lem tree leaf parent x h ne = absurd (ne refl)
  set_parent_lem tree (branch c l p k v r) parent x h ne = ground (arith, h.0, h.1)

  pub adopt-Rep :
      (tree : SortedMap K V) (t : Tree K V) (parent x : ℕ)
      → ((q : ℕ) → occ q t ≤ 1)
      → Rep tree.nodes parent t
      → Rep (adopt tree t x).nodes x t
  unfolding write
  adopt-Rep tree leaf parent x once h = tt
  adopt-Rep tree (branch c l p k v r) parent x once h =
      let agrees : (q : ℕ) → q ≢ p → (adopt tree (branch c l p k v r) x).nodes q ≡ tree.nodes q =
        λ q ne. ground arith in
      (
        h.0,
        ground arith,
        (
          Rep-Agrees tree.nodes (adopt tree (branch c l p k v r) x).nodes p l
              (λ q o. agrees q (λ e. ground (arith, once q))) h.2.0,
          Rep-Agrees tree.nodes (adopt tree (branch c l p k v r) x).nodes p r
              (λ q o. agrees q (λ e. ground (arith, once q))) h.2.1,
        ),
      )

  -- the optional write of a rotation
  pub adopt_lem :
      (tree : SortedMap K V) (t : Tree K V) (parent x : ℕ)
      → Rep tree.nodes parent t
      → elim (addr t == 0) as (λ _. Result (SortedMap K V)) [
        | true ↦ ok tree
        | false ↦ set_parent tree (addr t) x
      ]
        ≡ ok (adopt tree t x)
  unfolding set_parent read
  adopt_lem tree leaf parent x h = refl
  adopt_lem tree (branch c l p k v r) parent x h = ground (arith, h.0, h.1)

  pub child-near :
      (d : Side) (c : Bool) (k : K) (v : V) (a b p : ℕ) → child (cell d c k v a b p) d ≡ a
  child-near left c k v a b p = refl
  child-near right c k v a b p = refl

  pub child-far :
      (d : Side) (c : Bool) (k : K) (v : V) (a b p : ℕ) → child (cell d c k v a b p) (other d) ≡ b
  child-far left c k v a b p = refl
  child-far right c k v a b p = refl

  pub set_child_near :
      (tree : SortedMap K V) (d : Side) (c : Bool) (k : K) (v : V) (a b p q x : ℕ)
      → q ≢ 0
      → tree.nodes q ≡ some (cell d c k v a b p)
      → set_child tree q d x ≡ ok (write tree q (cell d c k v x b p))
  unfolding set_child read
  set_child_near tree left c k v a b p q x nonzero h = ground arith
  set_child_near tree right c k v a b p q x nonzero h = ground arith

  pub set_child_far :
      (tree : SortedMap K V) (d : Side) (c : Bool) (k : K) (v : V) (a b p q x : ℕ)
      → q ≢ 0
      → tree.nodes q ≡ some (cell d c k v a b p)
      → set_child tree q (other d) x ≡ ok (write tree q (cell d c k v a x p))
  unfolding set_child read
  set_child_far tree left c k v a b p q x nonzero h = ground arith
  set_child_far tree right c k v a b p q x nonzero h = ground arith

  pub get_parent_at :
      (tree : SortedMap K V) (d : Side) (c : Bool) (k : K) (v : V) (a b p q : ℕ)
      → q ≢ 0
      → tree.nodes q ≡ some (cell d c k v a b p)
      → get_parent tree q ≡ ok p
  unfolding get_parent read
  get_parent_at tree left c k v a b p q nonzero h = ground arith
  get_parent_at tree right c k v a b p q nonzero h = ground arith

  pub set_parent_at :
      (tree : SortedMap K V) (d : Side) (c : Bool) (k : K) (v : V) (a b p q x : ℕ)
      → q ≢ 0
      → tree.nodes q ≡ some (cell d c k v a b p)
      → set_parent tree q x ≡ ok (write tree q (cell d c k v a b x))
  unfolding set_parent read
  set_parent_at tree left c k v a b p q x nonzero h = ground arith
  set_parent_at tree right c k v a b p q x nonzero h = ground arith

  pub read_at :
      (tree : SortedMap K V) (q : ℕ) (node : Node K V)
      → q ≢ 0
      → tree.nodes q ≡ some node
      → read tree q ≡ ok node
  unfolding read
  read_at tree q node nonzero h = ground arith

  pub is_red_at :
      (tree : SortedMap K V) (d : Side) (c : Bool) (k : K) (v : V) (a b p q : ℕ)
      → q ≢ 0
      → tree.nodes q ≡ some (cell d c k v a b p)
      → is_red tree q ≡ ok c
  unfolding is_red read
  is_red_at tree left c k v a b p q nonzero h = ground arith
  is_red_at tree right c k v a b p q nonzero h = ground arith

  pub paint_at :
      (tree : SortedMap K V) (d : Side) (c c' : Bool) (k : K) (v : V) (a b p q : ℕ)
      → q ≢ 0
      → tree.nodes q ≡ some (cell d c k v a b p)
      → paint tree q c' ≡ ok (write tree q (cell d c' k v a b p))
  unfolding paint read
  paint_at tree left c c' k v a b p q nonzero h = ground arith
  paint_at tree right c c' k v a b p q nonzero h = ground arith

  -- the test on which side of its parent a node is
  pub pick_side :
      (d : Side) (kg : K) (vg : V) (p q par : ℕ) (c : Bool)
      → p ≢ q
      → (if p == (cell d c kg vg p q par).left then left else right) ≡ d
  pick_side left kg vg p q par c ne = ground arith
  pick_side right kg vg p q par c ne = ground arith
