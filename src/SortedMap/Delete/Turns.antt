-- ===== src/SortedMap/Delete/Turns.antt =====
-- The cases of a turn of the repair after a deletion.
use python_ctools.Base.{ℕ, ◌≡◌, refl, ap, ◌∙◌, Bool, true, false, some, arith, ok}
use python_ctools.SortedMap.{SortedMap}
use python_ctools.SortedMap.Store.{Side, other, get_parent}
use python_ctools.SortedMap.Delete.{sibling, delete_end, delete_near}
use python_ctools.SortedMap.Tree.{
  Tree, leaf, branch, Place, below, addr, above, grow, cell, Rep, Located,
}
use python_ctools.SortedMap.Tree.Links.{read_at, child-near, child-far}
use python_ctools.SortedMap.Tree.Grow.{grow-parts, addr-grow, Kept, Kept-trans}
use python_ctools.SortedMap.Tree.Turn.{rotate_lem, rotate_other_lem}
use python_ctools.SortedMap.Tree.Focus.{
  is_red-grow, get_parent_lem, paint_lem, paint_near, paint_far, down_far, up_far,
}

module _ {ℓ} {K V : Type ℓ} where
  -- The sentinel in a place has the parent of the place.
  abbrev pub Anchored : SortedMap K V → Tree K V → ℕ → Type 0
  Anchored tree t p = addr t ≡ 0 → tree.sentinel_parent ≡ p

  pub parent_lem :
      (tree : SortedMap K V) (p : ℕ) (t : Tree K V)
      → Rep tree.nodes p t
      → Anchored tree t p
      → get_parent tree (addr t) ≡ ok p
  unfolding get_parent
  parent_lem tree p leaf h anchored = ap ok (anchored refl)
  parent_lem tree p (branch c l q k v r) h anchored =
      get_parent_lem tree p (branch c l q k v r) h h.0

  pub Anchored-Kept :
      (tree tree' : SortedMap K V) (t : Tree K V) (p : ℕ)
      → Kept tree tree'
      → Anchored tree t p
      → Anchored tree' t p
  Anchored-Kept tree tree' t p kept anchored e = kept.sentinel ∙ anchored e

  -- With a red far child of the sibling, one rotation is the last step.
  pub delete_end_lem :
      (root : ℕ) (tree : SortedMap K V) (z : Place K V) (d d' : Side) (c : Bool) (t : Tree K V)
      (p : ℕ) (kp : K) (vp : V) (b : Tree K V) (q : ℕ) (kq : K) (vq : V) (e : Tree K V) (s : ℕ)
      (ks : K) (vs : V) (f : Tree K V)
      → Anchored tree t p
      → Located tree z (grow d c t p kp vp (grow d false b q kq vq (grow d' true e s ks vs f)))
      → (tree' : SortedMap K V) × (delete_end d root tree (addr t) q ≡ ok (tree', root))
        × Kept tree tree'
        × Located tree' z (grow d c (grow d false t p kp vp b) q kq vq (grow d' false e s ks vs f))
  unfolding delete_end
  delete_end_lem root tree z d d' c t p kp vp b q kq vq e s ks vs f anchored h =
      let far = grow d' true e s ks vs f in
      let parts =
        grow-parts tree.nodes d c t p kp vp (grow d false b q kq vq far) (above z) h.rep in
      let parent = parent_lem tree p t parts.2.0 anchored in
      let colour = is_red-grow tree (above z) d c t p kp vp (grow d false b q kq vq far) h.rep in
      let (tree1, paint1, kept1, l1) = paint_far tree z d c t p kp vp d false c b q kq vq far h in
      let (tree2, paint2, kept2, l2) =
        paint_lem tree1 z d c false t p kp vp (grow d c b q kq vq far) l1 in
      let outer =
        grow-parts tree2.nodes d false t p kp vp (grow d c b q kq vq far) (above z) l2.rep in
      let inner = grow-parts tree2.nodes d c b q kq vq far p outer.2.1 in
      let cell_q = read_at tree2 q (cell d c kq vq (addr b) (addr far) p) inner.0 inner.1 in
      let (tree3, paint3, kept3, l3) =
        paint_far tree2 (below (other d) false p kp vp t z) d c b q kq vq d' true false e s ks vs f
          (down_far tree2 z d false t p kp vp (grow d c b q kq vq far) l2) in
      let up =
        up_far tree3 z d false t p kp vp (grow d c b q kq vq (grow d' false e s ks vs f)) l3 in
      let (tree4, turned, kept4, l4) =
        rotate_lem d tree3 z false t p kp vp c b q kq vq (grow d' false e s ks vs f) up in
      (
        tree4,
        ground (
          arith,
          parent,
          colour,
          paint1,
          paint2,
          cell_q,
          child-far d c kq vq (addr b) (addr far) p,
          addr-grow d' true e s ks vs f,
          paint3,
          turned,
        ),
        Kept-trans tree tree1 tree4 kept1
            (Kept-trans tree1 tree2 tree4 kept2 (Kept-trans tree2 tree3 tree4 kept3 kept4)),
        l4,
      )

  pub sibling_lem :
      (tree : SortedMap K V) (z : Place K V) (d : Side) (c : Bool) (t : Tree K V) (p : ℕ) (k : K)
      (v : V) (w : Tree K V)
      → Anchored tree t p
      → Located tree z (grow d c t p k v w)
      → sibling d tree (addr t) ≡ ok (addr w)
  unfolding sibling
  sibling_lem tree z d c t p k v w anchored h =
      let parts = grow-parts tree.nodes d c t p k v w (above z) h.rep in
      ground (
        arith,
        parent_lem tree p t parts.2.0 anchored,
        read_at tree p (cell d c k v (addr t) (addr w) (above z)) parts.0 parts.1,
        child-far d c k v (addr t) (addr w) (above z),
      )

  -- A red near child is turned to the far side first.
  pub delete_near_lem :
      (root : ℕ) (tree : SortedMap K V) (z : Place K V) (d : Side) (c : Bool) (t : Tree K V) (p : ℕ)
      (kp : K) (vp : V) (a : Tree K V) (r : ℕ) (kr : K) (vr : V) (b : Tree K V) (q : ℕ) (kq : K)
      (vq : V) (e : Tree K V)
      → Anchored tree t p
      → Located tree z (grow d c t p kp vp (grow d false (grow d true a r kr vr b) q kq vq e))
      → (tree' : SortedMap K V) × (delete_near d root tree (addr t) q ≡ ok (tree', root))
        × Kept tree tree'
        × Located tree' z (grow d c (grow d false t p kp vp a) r kr vr (grow d false b q kq vq e))
  unfolding delete_near
  delete_near_lem root tree z d c t p kp vp a r kr vr b q kq vq e anchored h =
      let near = grow d true a r kr vr b in
      let outer =
        grow-parts tree.nodes d c t p kp vp (grow d false near q kq vq e) (above z) h.rep in
      let inner = grow-parts tree.nodes d false near q kq vq e p outer.2.1 in
      let at_r = addr-grow d true a r kr vr b in
      let cell_q =
        read_at tree q (cell d false kq vq r (addr e) p) inner.0
          (inner.1 ∙ ap (λ i. some (cell d false kq vq i (addr e) p)) at_r) in
      let place = below (other d) c p kp vp t z in
      let (tree1, paint1, kept1, l1) =
        paint_near tree place d false q kq vq e d true false a r kr vr b
          (down_far tree z d c t p kp vp (grow d false near q kq vq e) h) in
      let (tree2, paint2, kept2, l2) =
        paint_lem tree1 place d false true (grow d false a r kr vr b) q kq vq e l1 in
      let (tree3, turned, kept3, l3) =
        rotate_other_lem d tree2 place true false a r kr vr b q kq vq e l2 in
      let kept = Kept-trans tree tree1 tree3 kept1 (Kept-trans tree1 tree2 tree3 kept2 kept3) in
      let new = grow d false a r kr vr (grow d true b q kq vq e) in
      let up = up_far tree3 z d c t p kp vp new l3 in
      let anchored3 = Anchored-Kept tree tree3 t p kept anchored in
      let at_new = addr-grow d false a r kr vr (grow d true b q kq vq e) in
      let (tree4, ended, kept4, l4) =
        delete_end_lem root tree3 z d d c t p kp vp a r kr vr b q kq vq e anchored3 up in
      (
        tree4,
        ground (
          arith,
          cell_q,
          child-near d false kq vq r (addr e) p,
          paint1,
          paint2,
          turned,
          sibling_lem tree3 z d c t p kp vp new anchored3 up,
          at_new,
          ended,
        ),
        Kept-trans tree tree3 tree4 kept kept4,
        l4,
      )
