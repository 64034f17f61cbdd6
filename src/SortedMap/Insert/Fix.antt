-- ===== src/SortedMap/Insert/Fix.antt =====
-- The repair after an insertion, turn by turn.
use python_ctools.Base.{ℕ, zero, suc, ◌<◌, ◌≡◌, ◌≢◌, sym, ◌∙◌, true, false, arith, ok}
use python_ctools.SortedMap.{SortedMap}
use python_ctools.SortedMap.Store.{Side, left, is_red}
use python_ctools.SortedMap.Insert.{insert_end, insert_turn, insert_loop}
use python_ctools.SortedMap.Tree.{
  Tree, branch, Place, top, below, addr, red_root, above, grow, occ, cell, Located,
}
use python_ctools.SortedMap.Tree.Frame.{up-Located, down-Located}
use python_ctools.SortedMap.Tree.Links.{read_at, child-far, addr-ne}
use python_ctools.SortedMap.Tree.Balance.{above_red}
use python_ctools.SortedMap.Tree.Grow.{grow-parts, addr-grow, occ-grow, occ-addr, Kept, Kept-trans}
use python_ctools.SortedMap.Tree.Turn.{rotate_lem, rotate_other_lem}
use python_ctools.SortedMap.Tree.Focus.{
  is_red_lem, is_red-grow, get_parent_lem, get_parent-grow, paint_lem, paint_near, paint_far,
}

module _ {ℓ} {K V : Type ℓ} where
  -- Below a grandparent with a black uncle, the red parent takes its place.
  insert_end_lem :
      (tree : SortedMap K V) (z : Place K V) (d : Side) (x : Tree K V) (p : ℕ) (kp : K) (vp : V)
      (s : Tree K V) (g : ℕ) (kg : K) (vg : V) (u : Tree K V)
      → addr x ≢ 0
      → Located tree z (grow d false (grow d true x p kp vp s) g kg vg u)
      → (tree' : SortedMap K V) × (insert_end d tree (addr x) ≡ ok (tree', addr x))
        × Kept tree tree'
        × Located tree' z (grow d false x p kp vp (grow d true s g kg vg u))
  unfolding insert_end
  insert_end_lem tree z d x p kp vp s g kg vg u there h =
      let h1 = down-Located tree d false g kg vg u (grow d true x p kp vp s) z h in
      let h2 = down-Located tree d true p kp vp s x (below d false g kg vg u z) h1 in
      let parent = get_parent_lem tree p x h2.rep there in
      let (tree1, paint1, kept1, l2) =
        paint_near tree z d false g kg vg u d true false x p kp vp s h in
      let up =
        grow-parts tree1.nodes d false (grow d false x p kp vp s) g kg vg u (above z) l2.rep in
      let grand = get_parent-grow tree1 g d false x p kp vp s up.2.0 in
      let (tree2, paint2, kept2, l3) =
        paint_lem tree1 z d false true (grow d false x p kp vp s) g kg vg u l2 in
      let (tree3, turned, kept3, l4) =
        rotate_other_lem d tree2 z true false x p kp vp s g kg vg u l3 in
      (
        tree3,
        ground (arith, parent, paint1, grand, paint2, turned),
        Kept-trans tree tree1 tree3 kept1 (Kept-trans tree1 tree2 tree3 kept2 kept3),
        l4,
      )

  -- Below a parent that is not red, the loop ends.
  pub insert_loop-stops :
      (fuel : ℕ) (tree : SortedMap K V) (z : Place K V) (t : Tree K V)
      → 0 < fuel
      → addr t ≢ 0
      → above_red z ≡ false
      → Located tree z t
      → insert_loop fuel tree (addr t) ≡ ok tree
  unfolding insert_loop is_red
  insert_loop-stops zero tree z t enough there black h = absurd (omega arith)
  insert_loop-stops (suc fuel) tree top t enough there black h =
      ground (arith, get_parent_lem tree 0 t h.rep there)
  insert_loop-stops (suc fuel) tree (below d c p k v s rest) t enough there black h =
      let up = up-Located tree d c p k v s t rest h in
      ground (
        arith,
        get_parent_lem tree p t h.rep there,
        is_red-grow tree (above rest) d c t p k v s up.rep,
      )

  -- With a red uncle, the parents turn black and the grandparent red.
  pub recolour_lem :
      (tree : SortedMap K V) (z : Place K V) (d d' : Side) (x : Tree K V) (p : ℕ) (kp : K) (vp : V)
      (s : Tree K V) (g : ℕ) (kg : K) (vg : V) (l : Tree K V) (q : ℕ) (kq : K) (vq : V)
      (r : Tree K V)
      → addr x ≢ 0
      → Located tree z (grow d false (grow d' true x p kp vp s) g kg vg (branch true l q kq vq r))
      → (tree' : SortedMap K V) × (insert_turn d tree (addr x) p g ≡ ok (tree', g))
        × Kept tree tree'
        × Located tree' z
            (grow d true (grow d' false x p kp vp s) g kg vg (branch false l q kq vq r))
  unfolding insert_turn
  recolour_lem tree z d d' x p kp vp s g kg vg l q kq vq r there h =
      let parts =
        grow-parts tree.nodes d false (grow d' true x p kp vp s) g kg vg (branch true l q kq vq r)
          (above z) h.rep in
      let cell_g =
        read_at tree g (cell d false kg vg (addr (grow d' true x p kp vp s)) q (above z)) parts.0
          parts.1 in
      let far = child-far d false kg vg (addr (grow d' true x p kp vp s)) q (above z) in
      let red = is_red_lem tree g (branch true l q kq vq r) parts.2.1 in
      let (tree1, paint1, kept1, l2) =
        paint_near tree z d false g kg vg (branch true l q kq vq r) d' true false x p kp vp s h in
      let (tree2, paint2, kept2, l3) =
        paint_far tree1 z d false (grow d' false x p kp vp s) g kg vg left true false l q kq vq r
          l2 in
      let (tree3, paint3, kept3, l4) =
        paint_lem tree2 z d false true (grow d' false x p kp vp s) g kg vg
          (branch false l q kq vq r) l3 in
      (
        tree3,
        ground (arith, cell_g, far, red, paint1, paint2, paint3),
        Kept-trans tree tree1 tree3 kept1 (Kept-trans tree1 tree2 tree3 kept2 kept3),
        l4,
      )

  -- With a black uncle, an outer red child ends the loop.
  pub outer_lem :
      (tree : SortedMap K V) (z : Place K V) (d : Side) (x : Tree K V) (p : ℕ) (kp : K) (vp : V)
      (s : Tree K V) (g : ℕ) (kg : K) (vg : V) (u : Tree K V)
      → addr x ≢ 0
      → red_root u ≡ false
      → Located tree z (grow d false (grow d true x p kp vp s) g kg vg u)
      → (tree' : SortedMap K V) × (insert_turn d tree (addr x) p g ≡ ok (tree', addr x))
        × Kept tree tree'
        × Located tree' z (grow d false x p kp vp (grow d true s g kg vg u))
  unfolding insert_turn
  outer_lem tree z d x p kp vp s g kg vg u there black h =
      let low = grow d true x p kp vp s in
      let outer = grow-parts tree.nodes d false low g kg vg u (above z) h.rep in
      let inner = grow-parts tree.nodes d true x p kp vp s g outer.2.0 in
      let free : occ (addr x) s ≡ 0 = omega (
        arith,
        h.distinct (addr x),
        occ-grow (addr x) d false low g kg vg u,
        occ-grow (addr x) d true x p kp vp s,
        occ-addr x there,
      ) in
      let (tree', ended, kept, l) = insert_end_lem tree z d x p kp vp s g kg vg u there h in
      (
        tree',
        ground (
          arith,
          read_at tree g (cell d false kg vg (addr low) (addr u) (above z)) outer.0 outer.1,
          child-far d false kg vg (addr low) (addr u) (above z),
          is_red_lem tree g u outer.2.1,
          black,
          read_at tree p (cell d true kp vp (addr x) (addr s) g) inner.0 inner.1,
          child-far d true kp vp (addr x) (addr s) g,
          addr-ne s (addr x) there free,
          ended,
        ),
        kept,
        l,
      )

  -- An inner red child is turned to the outer side first.
  pub inner_lem :
      (tree : SortedMap K V) (z : Place K V) (d : Side) (a : Tree K V) (x : ℕ) (kx : K) (vx : V)
      (b : Tree K V) (p : ℕ) (kp : K) (vp : V) (s : Tree K V) (g : ℕ) (kg : K) (vg : V)
      (u : Tree K V)
      → red_root u ≡ false
      → Located tree z (grow d false (grow d true s p kp vp (grow d true a x kx vx b)) g kg vg u)
      → (tree' : SortedMap K V) × (insert_turn d tree x p g ≡ ok (tree', p))
        × Kept tree tree'
        × Located tree' z (grow d false (grow d true s p kp vp a) x kx vx (grow d true b g kg vg u))
  unfolding insert_turn
  inner_lem tree z d a x kx vx b p kp vp s g kg vg u black h =
      let child_x = grow d true a x kx vx b in
      let low = grow d true s p kp vp child_x in
      let outer = grow-parts tree.nodes d false low g kg vg u (above z) h.rep in
      let inner = grow-parts tree.nodes d true s p kp vp child_x g outer.2.0 in
      let (tree1, turned, kept1, l1) =
        rotate_lem d tree (below d false g kg vg u z) true s p kp vp true a x kx vx b
          (down-Located tree d false g kg vg u low z h) in
      let raised_x = grow d true (grow d true s p kp vp a) x kx vx b in
      let l2 = up-Located tree1 d false g kg vg u raised_x z l1 in
      let at_p = addr-grow d true s p kp vp a in
      let (tree', ended, kept2, l) =
        insert_end_lem tree1 z d (grow d true s p kp vp a) x kx vx b g kg vg u
          (λ e. inner.0 (sym at_p ∙ e)) l2 in
      (
        tree',
        ground (
          arith,
          read_at tree g (cell d false kg vg (addr low) (addr u) (above z)) outer.0 outer.1,
          child-far d false kg vg (addr low) (addr u) (above z),
          is_red_lem tree g u outer.2.1,
          black,
          read_at tree p (cell d true kp vp (addr s) (addr child_x) g) inner.0 inner.1,
          child-far d true kp vp (addr s) (addr child_x) g,
          addr-grow d true a x kx vx b,
          turned,
          at_p,
          ended,
        ),
        Kept-trans tree tree1 tree' kept1 kept2,
        l,
      )
