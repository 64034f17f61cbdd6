-- ===== src/SortedMap/Delete/Inner.antt =====
-- The node that moves to the place of a deleted one.
use python_ctools.Base.{
  ℕ, ◌+◌, ◌≤◌, ◌<◌, ◌≡◌, ◌≢◌, refl, ◌∙◌, Bool, some, ◌==◌, if◌then◌else◌, arith, ok,
}
use python_ctools.SortedMap.{SortedMap, read}
use python_ctools.SortedMap.Store.{left, write, set_child, set_parent, paint}
use python_ctools.SortedMap.Delete.{transplant}
use python_ctools.SortedMap.Tree.{
  Tree, branch, Place, addr, above, occ, occ_around, cell, Rep, RepAround, root_of, Located,
}
use python_ctools.SortedMap.Tree.Frame.{Rep-Agrees, RepAround-Agrees}
use python_ctools.SortedMap.Tree.Links.{
  relink, relink-off, relink-RepAround, relink-root, replace_child_lem, adopt, adopt-off, adopt-Rep,
  set_parent_lem, get_parent_at, set_parent_at, set_child_near, paint_at, read_at, write-off,
}
use python_ctools.SortedMap.Tree.Grow.{
  Kept, Kept-trans, write-Kept, relink-Kept, adopt-Kept, adopt-root,
}
use python_ctools.SortedMap.Tree.Rotate.{one_if, elsewhere}

module _ {ℓ} {K V : Type ℓ} (tree : SortedMap K V) (z : Place K V) (c : Bool) (l r : Tree K V)
    (p : ℕ) (k : K) (v : V) (pr : ℕ) (cy : Bool) (y : ℕ) (ky : K) (vy : V) (yl yp : ℕ) where
  -- the map after each write
  abbrev pub linked : SortedMap K V
  linked = relink tree z y

  abbrev pub raised_y : SortedMap K V
  raised_y = write linked y (cell left cy ky vy yl (addr r) (above z))

  abbrev pub with_left : SortedMap K V
  with_left = write raised_y y (cell left cy ky vy (addr l) (addr r) (above z))

  abbrev pub adopted : SortedMap K V
  adopted = adopt with_left l y

  abbrev pub moved : SortedMap K V
  moved = write adopted y (cell left c ky vy (addr l) (addr r) (above z))

  -- Before the move: `y` has its right subtree, and `p` its left one.
  pub record Movable : Type ℓ where
    pub p_nonzero : p ≢ 0
    pub y_nonzero : y ≢ 0
    pub l_nonzero : addr l ≢ 0
    pub p_cell : tree.nodes p ≡ some (cell left c k v (addr l) pr (above z))
    pub y_cell : tree.nodes y ≡ some (cell left cy ky vy yl (addr r) yp)
    pub l_rep : Rep tree.nodes p l
    pub r_rep : Rep tree.nodes y r
    pub around : RepAround tree.nodes z p
    pub root : tree.root ≡ root_of z p
    pub distinct :
        (q : ℕ)
        → occ q l + occ q r + (if q == p then 1 else 0) + (if q == y then 1 else 0) + occ_around q z
          ≤ 1

  module _ (h : Movable) where
    y_off_z : occ_around y z ≡ 0
    y_off_z = omega (arith, h.distinct y, one_if y y refl)

    p_off_z : occ_around p z ≡ 0
    p_off_z = omega (arith, h.distinct p, one_if p p refl)

    y_off_l : occ y l ≡ 0
    y_off_l = omega (arith, h.distinct y, one_if y y refl)

    p_off_l : occ p l ≡ 0
    p_off_l = omega (arith, h.distinct p, one_if p p refl)

    p_not_y : p ≢ y
    p_not_y = λ e. omega (arith, h.distinct p, one_if p p refl, one_if p y e)

    not_y : (q : ℕ) → 0 < occ q l + occ q r + occ_around q z → q ≢ y
    not_y q there =
        elsewhere q y (occ q l + occ q r + occ_around q z) there (omega (arith, h.distinct q))

    -- what the writes keep
    kept : (q : ℕ) → q ≢ y → occ q l ≡ 0 → occ_around q z ≡ 0 → moved.nodes q ≡ tree.nodes q
    kept q ny nl nz =
        write-off adopted y (cell left c ky vy (addr l) (addr r) (above z)) q ny
        ∙ adopt-off with_left l y q nl
        ∙ write-off raised_y y (cell left cy ky vy (addr l) (addr r) (above z)) q ny
        ∙ write-off linked y (cell left cy ky vy yl (addr r) (above z)) q ny
        ∙ relink-off tree z y q nz

    linked_l : (q : ℕ) → 0 < occ q l → with_left.nodes q ≡ tree.nodes q
    linked_l q o =
        let ny = not_y q (omega arith) in
        write-off raised_y y (cell left cy ky vy (addr l) (addr r) (above z)) q ny
        ∙ write-off linked y (cell left cy ky vy yl (addr r) (above z)) q ny
        ∙ relink-off tree z y q (omega (arith, h.distinct q))

    raised_l : Rep with_left.nodes p l
    raised_l = Rep-Agrees tree.nodes with_left.nodes p l linked_l h.l_rep

    l_moved : Rep moved.nodes y l
    l_moved =
        Rep-Agrees adopted.nodes moved.nodes y l
          (λ q o.
            write-off adopted y (cell left c ky vy (addr l) (addr r) (above z)) q
              (not_y q (omega arith)))
          (adopt-Rep with_left l p y (λ q. omega (arith, h.distinct q)) raised_l)

    r_moved : Rep moved.nodes y r
    r_moved =
        Rep-Agrees tree.nodes moved.nodes y r
          (λ q o.
            kept q (not_y q (omega arith)) (omega (arith, h.distinct q))
              (omega (arith, h.distinct q)))
          h.r_rep

    around_moved : RepAround moved.nodes z y
    around_moved =
        RepAround-Agrees linked.nodes moved.nodes z y
          (λ q o.
            let ny = not_y q (omega arith) in
            write-off adopted y (cell left c ky vy (addr l) (addr r) (above z)) q ny
            ∙ adopt-off with_left l y q (omega (arith, h.distinct q))
            ∙ write-off raised_y y (cell left cy ky vy (addr l) (addr r) (above z)) q ny
            ∙ write-off linked y (cell left cy ky vy yl (addr r) (above z)) q ny)
          (relink-RepAround tree z p y (λ q. omega (arith, h.distinct q)) h.around)

    y_moved : moved.nodes y ≡ some (cell left c ky vy (addr l) (addr r) (above z))
    unfolding write
    y_moved = ground arith

    moved_root : moved.root ≡ root_of z y
    unfolding write
    moved_root = adopt-root with_left l y ∙ relink-root tree z p y h.root

    pub moved-Located : Located moved z (branch c l y ky vy r)
    moved-Located = record {
      rep = (h.y_nonzero, y_moved, (l_moved, r_moved));
      rep_around = around_moved;
      root = moved_root;
      distinct = λ q. omega (arith, h.distinct q);
    }

    linked_y : linked.nodes y ≡ some (cell left cy ky vy yl (addr r) yp)
    linked_y = relink-off tree z y y y_off_z ∙ h.y_cell

    linked_p : linked.nodes p ≡ some (cell left c k v (addr l) pr (above z))
    linked_p = relink-off tree z y p p_off_z ∙ h.p_cell

    pub transplant_y : transplant tree p y ≡ ok raised_y
    unfolding transplant
    transplant_y = ground (
      arith,
      get_parent_at tree left c k v (addr l) pr (above z) p h.p_nonzero h.p_cell,
      replace_child_lem left tree z p y h.p_nonzero p_off_z h.around,
      get_parent_at linked left c k v (addr l) pr (above z) p h.p_nonzero linked_p,
      set_parent_at linked left cy ky vy yl (addr r) yp y (above z) h.y_nonzero linked_y,
    )

    -- the reads and writes after the transplant
    pub read_p : read raised_y p ≡ ok (cell left c k v (addr l) pr (above z))
    read_p =
        read_at raised_y p (cell left c k v (addr l) pr (above z)) h.p_nonzero
          (write-off linked y (cell left cy ky vy yl (addr r) (above z)) p p_not_y ∙ linked_p)

    at_y : raised_y.nodes y ≡ some (cell left cy ky vy yl (addr r) (above z))
    unfolding write
    at_y = ground arith

    pub set_left : set_child raised_y y left (addr l) ≡ ok with_left
    set_left =
        set_child_near raised_y left cy ky vy yl (addr r) (above z) y (addr l) h.y_nonzero at_y

    pub adopt_left : set_parent with_left (addr l) y ≡ ok adopted
    adopt_left = set_parent_lem with_left l p y raised_l h.l_nonzero

    at_y2 : adopted.nodes y ≡ some (cell left cy ky vy (addr l) (addr r) (above z))
    unfolding write
    at_y2 = adopt-off with_left l y y y_off_l ∙ ground arith

    pub paint_y : paint adopted y c ≡ ok moved
    paint_y = paint_at adopted left cy c ky vy (addr l) (addr r) (above z) y h.y_nonzero at_y2

  pub moved-Kept : Kept tree moved
  moved-Kept = Kept-trans tree linked moved (relink-Kept tree z y) (
      Kept-trans linked raised_y moved
        (write-Kept linked y (cell left cy ky vy yl (addr r) (above z)))
        (Kept-trans raised_y with_left moved
          (write-Kept raised_y y (cell left cy ky vy (addr l) (addr r) (above z)))
          (Kept-trans with_left adopted moved (adopt-Kept with_left l y)
            (write-Kept adopted y (cell left c ky vy (addr l) (addr r) (above z))))))
