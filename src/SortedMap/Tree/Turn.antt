-- ===== src/SortedMap/Tree/Turn.antt =====
-- A rotation turns the tree at a place, and keeps its entries.
use mathlib.Core.List.{append_assoc}
use python_ctools.Base.{ℕ, ◌≡◌, sym, ap, subst, ◌∙◌, Bool, some, arith, ok, ◌∷◌}
use python_ctools.SortedMap.{SortedMap}
use python_ctools.SortedMap.Store.{Side, left, right, other, rotate}
use python_ctools.SortedMap.Tree.{
  Tree, Place, addr, above, grow, entries, cell, Rep, RepAround, root_of, Located,
}
use python_ctools.SortedMap.Tree.Focus.{grow-other}
use python_ctools.SortedMap.Tree.Grow.{grow-parts, grow-Rep, addr-grow, occ-grow, Kept}
use python_ctools.SortedMap.Tree.Rotate.{
  rotated, Rotatable, a_kept, b_moved, c_kept, around_moved, rotate_writes, rotated_x, rotated_y,
  rotated_root, rotated-Kept,
}

module _ {ℓ} {K V : Type ℓ} (d : Side) (tree : SortedMap K V) (z : Place K V) (cx : Bool)
    (a : Tree K V) (x : ℕ) (kx : K) (vx : V) (cy : Bool) (b : Tree K V) (y : ℕ) (ky : K) (vy : V)
    (c : Tree K V) where
  abbrev low : Tree K V
  low = grow d cy b y ky vy c

  abbrev lifted : Tree K V
  lifted = grow d cx a x kx vx b

  ready : Located tree z (grow d cx a x kx vx low) → Rotatable d tree z cx a x kx vx cy b y ky vy c
  ready h =
      let outer = grow-parts tree.nodes d cx a x kx vx low (above z) h.rep in
      let inner = grow-parts tree.nodes d cy b y ky vy c x outer.2.1 in
      let at_x : addr (grow d cx a x kx vx low) ≡ x = addr-grow d cx a x kx vx low in
      let at_y : addr low ≡ y = addr-grow d cy b y ky vy c in
      record {
        x_nonzero = outer.0;
        x_cell = outer.1 ∙ ap (λ i. some (cell d cx kx vx (addr a) i (above z))) at_y;
        y_nonzero = inner.0;
        y_cell = inner.1;
        a_rep = outer.2.0;
        b_rep = inner.2.0;
        c_rep = inner.2.1;
        around = subst (RepAround tree.nodes z) at_x h.rep_around;
        root = h.root ∙ ap (root_of z) at_x;
        distinct = λ q.
            omega (arith, h.distinct q, occ-grow q d cx a x kx vx low, occ-grow q d cy b y ky vy c);
      }

  -- A rotation at the place of `x` raises `y`.
  pub rotate_lem :
      Located tree z (grow d cx a x kx vx low)
      → (tree' : SortedMap K V) × (rotate d tree x ≡ ok tree')
        × Kept tree tree'
        × Located tree' z (grow d cy lifted y ky vy c)
  rotate_lem h =
      let map' : SortedMap K V = rotated d tree z cx a x kx vx cy b y ky vy c in
      let r = ready h in
      let at_x : addr lifted ≡ x = addr-grow d cx a x kx vx b in
      let at_y : addr (grow d cy lifted y ky vy c) ≡ y = addr-grow d cy lifted y ky vy c in
      let low_rep : Rep map'.nodes y lifted = grow-Rep map'.nodes d cx a x kx vx b y (
        (grow-parts tree.nodes d cx a x kx vx low (above z) h.rep).0,
        rotated_x d tree z cx a x kx vx cy b y ky vy c r,
        (
          a_kept d tree z cx a x kx vx cy b y ky vy c r,
          b_moved d tree z cx a x kx vx cy b y ky vy c r,
        ),
      ) in
      (
        map',
        rotate_writes d tree z cx a x kx vx cy b y ky vy c r,
        rotated-Kept d tree z cx a x kx vx cy b y ky vy c,
        record {
          rep = grow-Rep map'.nodes d cy lifted y ky vy c (above z) (
            (grow-parts tree.nodes d cy b y ky vy c x
                (grow-parts tree.nodes d cx a x kx vx low (above z) h.rep).2.1).0,
            rotated_y d tree z cx a x kx vx cy b y ky vy c r
                ∙ ap (λ i. some (cell d cy ky vy i (addr c) (above z))) (sym at_x),
            (low_rep, c_kept d tree z cx a x kx vx cy b y ky vy c r),
          );
          rep_around =
              subst (RepAround map'.nodes z) (sym at_y)
                (around_moved d tree z cx a x kx vx cy b y ky vy c r);
          root = rotated_root d tree z cx a x kx vx cy b y ky vy c r ∙ ap (root_of z) (sym at_y);
          distinct = λ q. omega (
            arith,
            h.distinct q,
            occ-grow q d cx a x kx vx low,
            occ-grow q d cy b y ky vy c,
            occ-grow q d cy lifted y ky vy c,
            occ-grow q d cx a x kx vx b,
          );
        },
      )

pub entries-turn {ℓ} :
    {K V : Type ℓ} (d : Side) (cx cy c'x c'y : Bool) (a : Tree K V) (x : ℕ) (kx : K) (vx : V)
    (b : Tree K V) (y : ℕ) (ky : K) (vy : V) (c : Tree K V)
    → entries (grow d c'y (grow d c'x a x kx vx b) y ky vy c)
      ≡ entries (grow d cx a x kx vx (grow d cy b y ky vy c))
entries-turn left cx cy c'x c'y a x kx vx b y ky vy c =
    append_assoc (entries a) ((kx, vx) ∷ entries b) ((ky, vy) ∷ entries c)
entries-turn right cx cy c'x c'y a x kx vx b y ky vy c =
    sym (append_assoc (entries c) ((ky, vy) ∷ entries b) ((kx, vx) ∷ entries a))

-- The same to the other side: the node near `d` takes the place of the one above it.
pub rotate_other_lem {ℓ} :
    {K V : Type ℓ} (d : Side) (tree : SortedMap K V) (z : Place K V) (cx cy : Bool) (c : Tree K V)
    (y : ℕ) (ky : K) (vy : V) (b : Tree K V) (x : ℕ) (kx : K) (vx : V) (a : Tree K V)
    → Located tree z (grow d cx (grow d cy c y ky vy b) x kx vx a)
    → (tree' : SortedMap K V) × (rotate (other d) tree x ≡ ok tree')
      × Kept tree tree'
      × Located tree' z (grow d cy c y ky vy (grow d cx b x kx vx a))
rotate_other_lem d tree z cx cy c y ky vy b x kx vx a h =
    let before =
      grow-other d cx (grow d cy c y ky vy b) x kx vx a
      ∙ ap (λ t. grow (other d) cx a x kx vx t) (grow-other d cy c y ky vy b) in
    let after =
      grow-other d cy c y ky vy (grow d cx b x kx vx a)
      ∙ ap (λ t. grow (other d) cy t y ky vy c) (grow-other d cx b x kx vx a) in
    let (tree', turned, kept, l) =
      rotate_lem (other d) tree z cx a x kx vx cy b y ky vy c (subst (Located tree z) before h) in
    (tree', turned, kept, subst (Located tree' z) (sym after) l)
