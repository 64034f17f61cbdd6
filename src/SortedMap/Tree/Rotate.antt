-- ===== src/SortedMap/Tree/Rotate.antt =====
-- A rotation exchanges a node and a child of it.
use python_ctools.Base.{
  ℕ, ◌+◌, ◌≤◌, ◌<◌, ◌≡◌, ◌≢◌, refl, ◌∙◌, Bool, some, ◌==◌, if◌then◌else◌, arith, ok,
}
use python_ctools.SortedMap.{SortedMap}
use python_ctools.SortedMap.Store.{Side, write, rotate}
use python_ctools.SortedMap.Tree.{
  Tree, Place, addr, above, occ, occ_around, cell, Rep, RepAround, root_of,
}
use python_ctools.SortedMap.Tree.Frame.{Rep-Agrees, RepAround-Agrees}
use python_ctools.SortedMap.Tree.Links.{
  relink, relink-off, relink-RepAround, relink-root, replace_child_lem, adopt, adopt-off, adopt-Rep,
  adopt_lem, read_at, child-far, child-near, set_child_far, set_child_near, get_parent_at,
  set_parent_at,
}
use python_ctools.SortedMap.Tree.Grow.{
  Kept, Kept-trans, write-Kept, relink-Kept, adopt-Kept, adopt-root,
}

pub one_if : (p q : ℕ) → p ≡ q → ◌≡◌ {A = ℕ} (if p == q then 1 else 0) 1
one_if p q e = ground arith

-- An address that stands elsewhere is not this one.
pub elsewhere : (q x n : ℕ) → 0 < n → n + (if q == x then 1 else 0) ≤ 1 → q ≢ x
elsewhere q x n there once = λ e. omega (arith, one_if q x e)

module _ {ℓ} {K V : Type ℓ} (d : Side) (tree : SortedMap K V) (z : Place K V) (cx : Bool)
    (a : Tree K V) (x : ℕ) (kx : K) (vx : V) (cy : Bool) (b : Tree K V) (y : ℕ) (ky : K) (vy : V)
    (c : Tree K V) where
  -- the map after each write of a rotation
  abbrev first_write : SortedMap K V
  first_write = write tree x (cell d cx kx vx (addr a) (addr b) (above z))

  abbrev second_write : SortedMap K V
  second_write = adopt first_write b x

  abbrev third_write : SortedMap K V
  third_write = write second_write y (cell d cy ky vy (addr b) (addr c) (above z))

  abbrev fourth_write : SortedMap K V
  fourth_write = relink third_write z y

  abbrev fifth_write : SortedMap K V
  fifth_write = write fourth_write y (cell d cy ky vy x (addr c) (above z))

  abbrev pub rotated : SortedMap K V
  rotated = write fifth_write x (cell d cx kx vx (addr a) (addr b) y)

  -- The layout before, and that its addresses are distinct.
  pub record Rotatable : Type ℓ where
    pub x_nonzero : x ≢ 0
    pub x_cell : tree.nodes x ≡ some (cell d cx kx vx (addr a) y (above z))
    pub y_nonzero : y ≢ 0
    pub y_cell : tree.nodes y ≡ some (cell d cy ky vy (addr b) (addr c) x)
    pub a_rep : Rep tree.nodes x a
    pub b_rep : Rep tree.nodes y b
    pub c_rep : Rep tree.nodes y c
    pub around : RepAround tree.nodes z x
    pub root : tree.root ≡ root_of z x
    pub distinct :
        (q : ℕ)
        → occ q a
            + (if q == x then 1 else 0)
            + occ q b
            + (if q == y then 1 else 0)
            + occ q c
            + occ_around q z
          ≤ 1

  module _ (h : Rotatable) where
    pub apart : x ≢ y
    apart = λ e. omega (arith, h.distinct x, one_if x x refl, one_if x y e)

    -- what the writes keep
    kept :
        (q : ℕ) → q ≢ x → q ≢ y → occ q b ≡ 0 → occ_around q z ≡ 0 → rotated.nodes q ≡ tree.nodes q
    unfolding write
    kept q nx ny nb nz =
        let low : second_write.nodes q ≡ first_write.nodes q = adopt-off first_write b x q nb in
        let high : fourth_write.nodes q ≡ third_write.nodes q = relink-off third_write z y q nz in
        ground (arith, low, high)

    x_off_b : occ x b ≡ 0
    x_off_b = omega (arith, h.distinct x, one_if x x refl)

    y_off_b : occ y b ≡ 0
    y_off_b = omega (arith, h.distinct y, one_if y y refl)

    x_off_z : occ_around x z ≡ 0
    x_off_z = omega (arith, h.distinct x, one_if x x refl)

    y_off_z : occ_around y z ≡ 0
    y_off_z = omega (arith, h.distinct y, one_if y y refl)

    third_y : third_write.nodes y ≡ some (cell d cy ky vy (addr b) (addr c) (above z))
    unfolding write
    third_y = ground arith

    fourth_y : fourth_write.nodes y ≡ some (cell d cy ky vy (addr b) (addr c) (above z))
    fourth_y = relink-off third_write z y y y_off_z ∙ third_y

    second_x : second_write.nodes x ≡ some (cell d cx kx vx (addr a) (addr b) (above z))
    unfolding write
    second_x = adopt-off first_write b x x x_off_b ∙ ground arith

    second_y : second_write.nodes y ≡ some (cell d cy ky vy (addr b) (addr c) x)
    unfolding write
    second_y = adopt-off first_write b x y y_off_b ∙ ground (arith, apart, h.y_cell)

    third_x : third_write.nodes x ≡ some (cell d cx kx vx (addr a) (addr b) (above z))
    unfolding write
    third_x = ground (arith, apart, second_x)

    fifth_x : fifth_write.nodes x ≡ some (cell d cx kx vx (addr a) (addr b) (above z))
    unfolding write
    fifth_x = ground (arith, apart, relink-off third_write z y x x_off_z, third_x)

    not_x : (q : ℕ) → 0 < occ q a + occ q b + occ q c + occ_around q z → q ≢ x
    not_x q there =
        elsewhere q x (occ q a + occ q b + occ q c + occ_around q z) there
          (omega (arith, h.distinct q))

    not_y : (q : ℕ) → 0 < occ q a + occ q b + occ q c + occ_around q z → q ≢ y
    not_y q there =
        elsewhere q y (occ q a + occ q b + occ q c + occ_around q z) there
          (omega (arith, h.distinct q))

    first_b : Rep first_write.nodes y b
    unfolding write
    first_b =
        Rep-Agrees tree.nodes first_write.nodes y b (λ q o. ground (arith, not_x q (omega arith)))
          h.b_rep

    third_around : RepAround third_write.nodes z x
    unfolding write
    third_around =
        RepAround-Agrees tree.nodes third_write.nodes z x
          (λ q o. ground (
            arith,
            not_x q (omega arith),
            not_y q (omega arith),
            adopt-off first_write b x q (omega (arith, h.distinct q)),
          ))
          h.around

    pub a_kept : Rep rotated.nodes x a
    a_kept =
        Rep-Agrees tree.nodes rotated.nodes x a
          (λ q o.
            kept q (not_x q (omega arith)) (not_y q (omega arith)) (omega (arith, h.distinct q))
              (omega (arith, h.distinct q)))
          h.a_rep

    pub c_kept : Rep rotated.nodes y c
    c_kept =
        Rep-Agrees tree.nodes rotated.nodes y c
          (λ q o.
            kept q (not_x q (omega arith)) (not_y q (omega arith)) (omega (arith, h.distinct q))
              (omega (arith, h.distinct q)))
          h.c_rep

    pub b_moved : Rep rotated.nodes x b
    unfolding write
    b_moved =
        Rep-Agrees second_write.nodes rotated.nodes x b
          (λ q o. ground (
            arith,
            not_x q (omega arith),
            not_y q (omega arith),
            relink-off third_write z y q (omega (arith, h.distinct q)),
          ))
          (adopt-Rep first_write b y x (λ q. omega (arith, h.distinct q)) first_b)

    pub around_moved : RepAround rotated.nodes z y
    unfolding write
    around_moved =
        RepAround-Agrees fourth_write.nodes rotated.nodes z y
          (λ q o. ground (arith, not_x q (omega arith), not_y q (omega arith)))
          (relink-RepAround third_write z x y (λ q. omega (arith, h.distinct q)) third_around)

    pub rotate_writes : rotate d tree x ≡ ok rotated
    unfolding rotate
    rotate_writes = ground (
      arith,
      read_at tree x (cell d cx kx vx (addr a) y (above z)) h.x_nonzero h.x_cell,
      child-far d cx kx vx (addr a) y (above z),
      read_at tree y (cell d cy ky vy (addr b) (addr c) x) h.y_nonzero h.y_cell,
      child-near d cy ky vy (addr b) (addr c) x,
      set_child_far tree d cx kx vx (addr a) y (above z) x (addr b) h.x_nonzero h.x_cell,
      adopt_lem first_write b y x first_b,
      get_parent_at second_write d cx kx vx (addr a) (addr b) (above z) x h.x_nonzero second_x,
      set_parent_at second_write d cy ky vy (addr b) (addr c) x y (above z) h.y_nonzero second_y,
      replace_child_lem d third_write z x y h.x_nonzero x_off_z third_around,
      set_child_near fourth_write d cy ky vy (addr b) (addr c) (above z) y x h.y_nonzero fourth_y,
      set_parent_at fifth_write d cx kx vx (addr a) (addr b) (above z) x y h.x_nonzero fifth_x,
    )

    -- the cells of the two nodes in the end
    pub rotated_x : rotated.nodes x ≡ some (cell d cx kx vx (addr a) (addr b) y)
    unfolding write
    rotated_x = ground arith

    pub rotated_y : rotated.nodes y ≡ some (cell d cy ky vy x (addr c) (above z))
    unfolding write
    rotated_y = ground (arith, apart)

    third_root : third_write.root ≡ root_of z x
    unfolding write
    third_root = adopt-root first_write b x ∙ h.root

    pub rotated_root : rotated.root ≡ root_of z y
    unfolding write
    rotated_root = relink-root third_write z x y third_root

  pub rotated-Kept : Kept tree rotated
  rotated-Kept =
      Kept-trans tree first_write rotated
        (write-Kept tree x (cell d cx kx vx (addr a) (addr b) (above z)))
        (Kept-trans first_write second_write rotated (adopt-Kept first_write b x) (
          Kept-trans second_write third_write rotated
            (write-Kept second_write y (cell d cy ky vy (addr b) (addr c) (above z)))
            (Kept-trans third_write fourth_write rotated (relink-Kept third_write z y) (
              Kept-trans fourth_write fifth_write rotated
                (write-Kept fourth_write y (cell d cy ky vy x (addr c) (above z)))
                (write-Kept fifth_write x (cell d cx kx vx (addr a) (addr b) y))))))
