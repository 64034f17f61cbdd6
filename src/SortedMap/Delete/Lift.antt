-- ===== src/SortedMap/Delete/Lift.antt =====
-- The successor of a deleted node leaves its place.
use python_ctools.Base.{
  ℕ, ◌+◌, ◌≤◌, ◌<◌, ◌≡◌, ◌≢◌, refl, sym, ◌∙◌, Bool, some, ◌==◌, if◌then◌else◌, arith, ok,
}
use python_ctools.SortedMap.{Node, SortedMap}
use python_ctools.SortedMap.Store.{Side, left, right, write}
use python_ctools.SortedMap.Delete.{lift}
use python_ctools.SortedMap.Delete.Turns.{Anchored}
use python_ctools.SortedMap.Delete.Unlink.{
  anchor, anchor-off, anchor-Rep, anchor-root, anchor-Anchored, anchor_lem, anchor-Same, Same,
  Same-trans, Kept-Same, transplant_lem,
}
use python_ctools.SortedMap.Delete.Least.{beneath, occ-beneath, Located-beneath}
use python_ctools.SortedMap.Delete.Inner.{Movable}
use python_ctools.SortedMap.Tree.{
  Tree, leaf, branch, Place, top, below, addr, above, grow, occ, occ_around, cell, Rep, Located,
}
use python_ctools.SortedMap.Tree.Balance.{fill, occ-fill}
use python_ctools.SortedMap.Tree.Frame.{Rep-Agrees, RepAround-Agrees, up-Located}
use python_ctools.SortedMap.Tree.Links.{read_at, set_child_far, write-off, relink, relink-off}
use python_ctools.SortedMap.Tree.Rotate.{one_if, elsewhere}
use python_ctools.SortedMap.Tree.Grow.{write-Kept}

module _ {ℓ} {K V : Type ℓ} where
  -- What `lift` leaves, where `t` has taken the place of `y` on the path.
  pub record Lifted (tree : SortedMap K V) (z : Place K V) (c : Bool) (l : Tree K V) (p : ℕ) (k : K)
      (v : V) (path : Place K V) (cy : Bool) (y : ℕ) (ky : K) (vy : V) (t : Tree K V) : Type ℓ where
    pub tree' : SortedMap K V
    pub pr : ℕ
    pub yp : ℕ
    pub ends : lift tree p y ≡ ok tree'
    pub same : Same tree tree'
    pub movable : Movable tree' z c l (fill path t) p k v pr cy y ky vy 0 yp
    pub anchored : Anchored tree' t (above (beneath path (below right c y ky vy l z)))

  -- The successor is the right child.
  lift_child :
      (tree : SortedMap K V) (z : Place K V) (c : Bool) (l : Tree K V) (p : ℕ) (k : K) (v : V)
      (cy : Bool) (y : ℕ) (ky : K) (vy : V) (t : Tree K V)
      → addr l ≢ 0
      → Located tree z (branch c l p k v (branch cy leaf y ky vy t))
      → Lifted tree z c l p k v top cy y ky vy t
  unfolding lift
  lift_child tree z c l p k v cy y ky vy t there h =
      let low = h.rep.2.1 in
      let off : (q : ℕ) → occ q t ≡ 0 → (anchor tree t y).nodes q ≡ tree.nodes q =
        λ q. anchor-off tree t y q in
      record {
        tree' = anchor tree t y;
        pr = y;
        yp = p;
        ends = ground (
          arith,
          read_at tree y (cell left cy ky vy 0 (addr t) p) low.0 low.1,
          anchor_lem tree t y y low.2.1,
        );
        same = anchor-Same tree t y;
        movable = record {
          p_nonzero = h.rep.0;
          y_nonzero = low.0;
          l_nonzero = there;
          p_cell = off p (omega (arith, h.distinct p, one_if p p refl)) ∙ h.rep.1;
          y_cell = off y (omega (arith, h.distinct y, one_if y y refl)) ∙ low.1;
          l_rep =
              Rep-Agrees tree.nodes (anchor tree t y).nodes p l
                (λ q o. off q (omega (arith, h.distinct q))) h.rep.2.0;
          r_rep = anchor-Rep tree t y y (λ q. omega (arith, h.distinct q)) low.2.1;
          around =
              RepAround-Agrees tree.nodes (anchor tree t y).nodes z p
                (λ q o. off q (omega (arith, h.distinct q))) h.rep_around;
          root = anchor-root tree t y ∙ h.root;
          distinct = λ q. omega (arith, h.distinct q);
        };
        anchored = anchor-Anchored tree t y y low.2.1;
      }

  fill-nonzero :
      (tree : SortedMap K V) (q : ℕ) (d : Side) (e : Bool) (a : ℕ) (j : K) (w : V) (s : Tree K V)
      (rest : Place K V) (t : Tree K V)
      → Rep tree.nodes q (fill (below d e a j w s rest) t)
      → addr (fill (below d e a j w s rest) t) ≢ 0
  fill-nonzero tree q left e a j w s top t h = h.0
  fill-nonzero tree q right e a j w s top t h = h.0
  fill-nonzero tree q d e a j w s (below d' e' a' j' w' s' rest) t h =
      fill-nonzero tree q d' e' a' j' w' s' rest (grow d e t a j w s) h

  anchor-sentinel :
      (tree : SortedMap K V) (t : Tree K V) (x : ℕ)
      → addr t ≢ 0
      → (anchor tree t x).sentinel_parent ≡ tree.sentinel_parent
  unfolding write
  anchor-sentinel tree leaf x ne = absurd (ne refl)
  anchor-sentinel tree (branch c l p k v r) x ne = refl

  written :
      (tree : SortedMap K V) (x : ℕ) (node : Node K V) → (write tree x node).nodes x ≡ some node
  unfolding write
  written tree x node = ground arith

  write-root :
      (tree : SortedMap K V) (x : ℕ) (node : Node K V) → (write tree x node).root ≡ tree.root
  unfolding write
  write-root tree x node = refl

  write-Same : (tree : SortedMap K V) (x : ℕ) (node : Node K V) → Same tree (write tree x node)
  write-Same tree x node = Kept-Same tree (write tree x node) (write-Kept tree x node)

  -- The successor is further down.
  lift_deep :
      (tree : SortedMap K V) (z : Place K V) (c : Bool) (l : Tree K V) (p : ℕ) (k : K) (v : V)
      (d : Side) (e : Bool) (a : ℕ) (j : K) (w : V) (s : Tree K V) (rest : Place K V) (cy : Bool)
      (y : ℕ) (ky : K) (vy : V) (t : Tree K V)
      → addr l ≢ 0
      → Located tree
          (beneath (below d e a j w s rest) (below right c p k v l z))
          (branch cy leaf y ky vy t)
      → Lifted tree z c l p k v (below d e a j w s rest) cy y ky vy t
  unfolding lift
  lift_deep tree z c l p k v d e a j w s rest cy y ky vy t there h =
      let path : Place K V = below d e a j w s rest in
      let frame : Place K V = below right c p k v l z in
      let r : Tree K V = fill path t in
      let at : Place K V = beneath path frame in
      let absent : occ_around y at ≡ 0 = omega (arith, h.distinct y, one_if y y refl) in
      let off_t : occ y t ≡ 0 = omega (arith, h.distinct y, one_if y y refl) in
      let counted : (q : ℕ)
          → occ q l
              + occ q r
              + (if q == p then 1 else 0)
              + (if q == y then 1 else 0)
              + occ_around q z
            ≤ 1 =
        λ q. omega (arith, h.distinct q, occ-beneath q path frame, occ-fill q path t) in
      let (gone, same_a, la, anchored) =
        transplant_lem tree at y y cy ky vy 0 (addr t) t h.rep.0 h.rep.1 h.rep_around absent h.root
          h.rep.2.1 (λ q. omega (arith, h.distinct q)) in
      let mid : SortedMap K V = relink tree at (addr t) in
      let tree_a : SortedMap K V = anchor mid t a in
      let lz : Located tree_a z (branch c l p k v r) =
        up-Located tree_a right c p k v l r z (Located-beneath tree_a path frame t la) in
      let y_cell : tree_a.nodes y ≡ some (cell left cy ky vy 0 (addr t) a) =
        anchor-off mid t a y off_t ∙ relink-off tree at (addr t) y absent ∙ h.rep.1 in
      let tree_b : SortedMap K V = write tree_a y (cell left cy ky vy 0 (addr r) a) in
      let tree_c : SortedMap K V = anchor tree_b r y in
      let y_off_r : occ y r ≡ 0 = omega (arith, counted y, one_if y y refl) in
      let p_not_y : p ≢ y = λ i. omega (arith, counted p, one_if p p refl, one_if p y i) in
      let p_not_a : a ≢ p = λ i.
        omega
          (arith, h.distinct p, one_if p a (sym i), occ-beneath p rest frame, one_if p p refl) in
      let off_b : (q : ℕ) → q ≢ y → tree_b.nodes q ≡ tree_a.nodes q =
        λ q ne. write-off tree_a y (cell left cy ky vy 0 (addr r) a) q ne in
      let not_y : (q : ℕ) → 0 < occ q l + occ q r + occ_around q z → q ≢ y =
        λ q o. elsewhere q y (occ q l + occ q r + occ_around q z) o (omega (arith, counted q)) in
      let rep_b : Rep tree_b.nodes p r =
        Rep-Agrees tree_a.nodes tree_b.nodes p r (λ q o. off_b q (not_y q (omega arith)))
          lz.rep.2.1 in
      record {
        tree' = tree_c;
        pr = addr r;
        yp = a;
        ends = ground (
          arith,
          read_at tree y (cell left cy ky vy 0 (addr t) a) h.rep.0 h.rep.1,
          p_not_a,
          gone,
          read_at tree_a p (cell left c k v (addr l) (addr r) (above z)) lz.rep.0 lz.rep.1,
          set_child_far tree_a left cy ky vy 0 (addr t) a y (addr r) h.rep.0 y_cell,
          anchor_lem tree_b r p y rep_b,
        );
        same = Same-trans tree tree_a tree_c same_a (
            Same-trans tree_a tree_b tree_c (write-Same tree_a y (cell left cy ky vy 0 (addr r) a))
              (anchor-Same tree_b r y));
        movable = record {
          p_nonzero = lz.rep.0;
          y_nonzero = h.rep.0;
          l_nonzero = there;
          p_cell =
              anchor-off tree_b r y p (omega (arith, counted p, one_if p p refl))
              ∙ off_b p p_not_y
              ∙ lz.rep.1;
          y_cell =
              anchor-off tree_b r y y y_off_r ∙ written tree_a y (cell left cy ky vy 0 (addr r) a);
          l_rep =
              Rep-Agrees tree_a.nodes tree_c.nodes p l
                (λ q o.
                  anchor-off tree_b r y q (omega (arith, counted q))
                  ∙ off_b q (not_y q (omega arith)))
                lz.rep.2.0;
          r_rep = anchor-Rep tree_b r p y (λ q. omega (arith, counted q)) rep_b;
          around =
              RepAround-Agrees tree_a.nodes tree_c.nodes z p
                (λ q o.
                  anchor-off tree_b r y q (omega (arith, counted q))
                  ∙ off_b q (not_y q (omega arith)))
                lz.rep_around;
          root =
              anchor-root tree_b r y
              ∙ write-root tree_a y (cell left cy ky vy 0 (addr r) a)
              ∙ lz.root;
          distinct = counted;
        };
        anchored = λ i.
            anchor-sentinel tree_b r y (fill-nonzero tree_b p d e a j w s rest t rep_b)
            ∙ (write-Kept tree_a y (cell left cy ky vy 0 (addr r) a)).sentinel
            ∙ anchored i;
      }

  pub lift_lem :
      (tree : SortedMap K V) (z : Place K V) (c : Bool) (l : Tree K V) (p : ℕ) (k : K) (v : V)
      (path : Place K V) (cy : Bool) (y : ℕ) (ky : K) (vy : V) (t : Tree K V)
      → addr l ≢ 0
      → Located tree (beneath path (below right c p k v l z)) (branch cy leaf y ky vy t)
      → Lifted tree z c l p k v path cy y ky vy t
  lift_lem tree z c l p k v top cy y ky vy t there h =
      lift_child tree z c l p k v cy y ky vy t there
        (up-Located tree right c p k v l (branch cy leaf y ky vy t) z h)
  lift_lem tree z c l p k v (below d e a j w s rest) cy y ky vy t there h =
      lift_deep tree z c l p k v d e a j w s rest cy y ky vy t there h
