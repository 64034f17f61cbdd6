-- ===== src/SortedMap/Insert/Close.antt =====
-- The last turn of the repair restores the red-black conditions and keeps the entries.
use python_ctools.Base.{
  ℕ, suc, ◌<◌, ◌≡◌, ◌≢◌, refl, sym, ap, ◌∙◌, true, false, some, arith, ok, ◌>>=◌,
}
use python_ctools.SortedMap.{SortedMap}
use python_ctools.SortedMap.Store.{Side, left, right}
use python_ctools.SortedMap.Insert.{insert_turn, insert_loop}
use python_ctools.SortedMap.Insert.Fix.{insert_loop-stops, outer_lem, inner_lem}
use python_ctools.SortedMap.Tree.{
  Tree, leaf, branch, Place, below, addr, red_root, above, grow, entries, occ, cell, Rep, Located,
}
use python_ctools.SortedMap.Tree.Frame.{down-Located}
use python_ctools.SortedMap.Tree.Links.{read_at, pick_side, addr-ne}
use python_ctools.SortedMap.Tree.Balance.{
  height, Balanced, height-grow, red_root-grow, grow-Balanced, Balanced-parts,
}
use python_ctools.SortedMap.Tree.Grow.{grow-parts, addr-grow, occ-grow, entries-grow, Kept}
use python_ctools.SortedMap.Tree.Turn.{entries-turn}
use python_ctools.SortedMap.Tree.Rotate.{one_if}
use python_ctools.SortedMap.Tree.Focus.{is_red-grow, get_parent_lem, get_parent-grow}

module _ {ℓ} {K V : Type ℓ} where
  -- What the last turn leaves of the tree `old` at a place.
  pub record Closes (d : Side) (tree : SortedMap K V) (z : Place K V) (x p g : ℕ) (old : Tree K V)
      (tree' : SortedMap K V) (t' : Tree K V) : Type ℓ where
    pub next : ℕ
    pub turn : insert_turn d tree x p g ≡ ok (tree', next)
    pub stops : (fuel : ℕ) → 0 < fuel → insert_loop fuel tree' next ≡ ok tree'
    pub kept : Kept tree tree'
    pub located : Located tree' z t'
    pub balanced : Balanced t'
    pub black : red_root t' ≡ false
    pub same_height : height t' ≡ height old
    pub same_entries : entries t' ≡ entries old

  -- the conditions on the child, its sibling and its uncle, before a last turn
  pub record Ready (t s u : Tree K V) : Type ℓ where
    pub red : red_root t ≡ true
    pub sibling_black : red_root s ≡ false
    pub uncle_black : red_root u ≡ false
    pub sibling_height : height s ≡ height t
    pub uncle_height : height u ≡ height t
    pub t_balanced : Balanced t
    pub s_balanced : Balanced s
    pub u_balanced : Balanced u

  pub red_root-addr :
      (t : Tree K V) (tree : SortedMap K V) (q : ℕ)
      → Rep tree.nodes q t
      → red_root t ≡ true
      → addr t ≢ 0
  red_root-addr leaf tree q h e = absurd (cc)
  red_root-addr (branch c l p k v r) tree q h e = h.0

  close_outer :
      (tree : SortedMap K V) (z : Place K V) (d : Side) (t : Tree K V) (p : ℕ) (kp : K) (vp : V)
      (s : Tree K V) (g : ℕ) (kg : K) (vg : V) (u : Tree K V)
      → Ready t s u
      → Located tree z (grow d false (grow d true t p kp vp s) g kg vg u)
      → (tree' : SortedMap K V) × (t' : Tree K V) × Closes d tree z
          (addr t)
          p
          g
          (grow d false (grow d true t p kp vp s) g kg vg u)
          tree'
          t'
  close_outer tree z d t p kp vp s g kg vg u ready h =
      let old = grow d false (grow d true t p kp vp s) g kg vg u in
      let low = grow d true s g kg vg u in
      let t' = grow d false t p kp vp low in
      let outer =
        grow-parts tree.nodes d false (grow d true t p kp vp s) g kg vg u (above z) h.rep in
      let inner = grow-parts tree.nodes d true t p kp vp s g outer.2.0 in
      let there = red_root-addr t tree p inner.2.0 ready.red in
      let low_height : height low ≡ height t =
        height-grow d true s g kg vg u (ready.sibling_height ∙ sym ready.uncle_height)
        ∙ ready.sibling_height in
      let (tree', turned, kept, l) =
        outer_lem tree z d t p kp vp s g kg vg u there ready.uncle_black h in
      (
        tree',
        t',
        record {
          next = addr t;
          turn = turned;
          stops = λ fuel enough.
              insert_loop-stops fuel tree' (below d false p kp vp low z) t enough there refl
                (down-Located tree' d false p kp vp low t z l);
          kept = kept;
          located = l;
          balanced = grow-Balanced d false t p kp vp low (
            sym low_height,
            λ e. absurd (cc),
            (
              ready.t_balanced,
              grow-Balanced d true s g kg vg u (
                ready.sibling_height ∙ sym ready.uncle_height,
                λ e. (ready.sibling_black, ready.uncle_black),
                (ready.s_balanced, ready.u_balanced),
              ),
            ),
          );
          black = red_root-grow d false t p kp vp low;
          same_height =
              height-grow d false t p kp vp low (sym low_height)
              ∙ sym (
                  height-grow d false (grow d true t p kp vp s) g kg vg u (
                    height-grow d true t p kp vp s (sym ready.sibling_height)
                    ∙ sym ready.uncle_height)
                  ∙ ap suc (height-grow d true t p kp vp s (sym ready.sibling_height)));
          same_entries = sym (entries-turn d false true true false t p kp vp s g kg vg u);
        },
      )

  close_inner :
      (tree : SortedMap K V) (z : Place K V) (d : Side) (a : Tree K V) (x : ℕ) (kx : K) (vx : V)
      (b : Tree K V) (p : ℕ) (kp : K) (vp : V) (s : Tree K V) (g : ℕ) (kg : K) (vg : V)
      (u : Tree K V)
      → Ready (grow d true a x kx vx b) s u
      → Located tree z (grow d false (grow d true s p kp vp (grow d true a x kx vx b)) g kg vg u)
      → (tree' : SortedMap K V) × (t' : Tree K V) × Closes d tree z x p g
          (grow d false (grow d true s p kp vp (grow d true a x kx vx b)) g kg vg u)
          tree'
          t'
  close_inner tree z d a x kx vx b p kp vp s g kg vg u ready h =
      let t = grow d true a x kx vx b in
      let near = grow d true s p kp vp a in
      let far = grow d true b g kg vg u in
      let t' = grow d false near x kx vx far in
      let parts = Balanced-parts d true a x kx vx b ready.t_balanced in
      let t_height : height t ≡ height a = height-grow d true a x kx vx b parts.0 in
      let outer =
        grow-parts tree.nodes d false (grow d true s p kp vp t) g kg vg u (above z) h.rep in
      let inner = grow-parts tree.nodes d true s p kp vp t g outer.2.0 in
      let s_height : height s ≡ height a = ready.sibling_height ∙ t_height in
      let u_height : height b ≡ height u = sym parts.0 ∙ sym t_height ∙ sym ready.uncle_height in
      let near_height : height near ≡ height s = height-grow d true s p kp vp a s_height in
      let far_height : height far ≡ height b = height-grow d true b g kg vg u u_height in
      let level : height near ≡ height far = near_height ∙ s_height ∙ parts.0 ∙ sym far_height in
      let old_height : height (grow d true s p kp vp t) ≡ height s =
        height-grow d true s p kp vp t ready.sibling_height in
      let (tree', turned, kept, l) =
        inner_lem tree z d a x kx vx b p kp vp s g kg vg u ready.uncle_black h in
      let at_p = addr-grow d true s p kp vp a in
      (
        tree',
        t',
        record {
          next = p;
          turn = turned;
          stops = λ fuel enough.
              ap (insert_loop fuel tree') (sym at_p)
              ∙ insert_loop-stops fuel tree' (below d false x kx vx far z) near enough
                  (λ e. inner.0 (sym at_p ∙ e)) refl
                  (down-Located tree' d false x kx vx far near z l);
          kept = kept;
          located = l;
          balanced = grow-Balanced d false near x kx vx far (
            level,
            λ e. absurd (cc),
            (
              grow-Balanced d true s p kp vp a (
                s_height,
                λ e. (ready.sibling_black, (parts.1 refl).0),
                (ready.s_balanced, parts.2.0),
              ),
              grow-Balanced d true b g kg vg u (
                u_height,
                λ e. ((parts.1 refl).1, ready.uncle_black),
                (parts.2.1, ready.u_balanced),
              ),
            ),
          );
          black = red_root-grow d false near x kx vx far;
          same_height =
              height-grow d false near x kx vx far level
              ∙ ap suc near_height
              ∙ sym (
                  height-grow d false (grow d true s p kp vp t) g kg vg u
                    (old_height ∙ ready.sibling_height ∙ sym ready.uncle_height)
                  ∙ ap suc old_height);
          same_entries = sym (
              entries-grow d false false (grow d true s p kp vp t) (grow d true near x kx vx b) g kg
                vg u u (sym (entries-turn d true true true true s p kp vp a x kx vx b)) refl
              ∙ entries-turn d false true true false near x kx vx b g kg vg u);
        },
      )

  -- the last turn, wherever the child and its parent stand
  pub close_lem :
      (tree : SortedMap K V) (z : Place K V) (d d' : Side) (t : Tree K V) (p : ℕ) (kp : K) (vp : V)
      (s : Tree K V) (g : ℕ) (kg : K) (vg : V) (u : Tree K V)
      → Ready t s u
      → Located tree z (grow d false (grow d' true t p kp vp s) g kg vg u)
      → (tree' : SortedMap K V) × (t' : Tree K V) × Closes d tree z
          (addr t)
          p
          g
          (grow d false (grow d' true t p kp vp s) g kg vg u)
          tree'
          t'
  close_lem tree z left left t p kp vp s g kg vg u ready h =
      close_outer tree z left t p kp vp s g kg vg u ready h
  close_lem tree z right right t p kp vp s g kg vg u ready h =
      close_outer tree z right t p kp vp s g kg vg u ready h
  close_lem tree z left right (branch true a x kx vx b) p kp vp s g kg vg u ready h =
      close_inner tree z left a x kx vx b p kp vp s g kg vg u ready h
  close_lem tree z left right (branch false a x kx vx b) p kp vp s g kg vg u ready h =
      absurd (let e = ready.red in cc)
  close_lem tree z left right leaf p kp vp s g kg vg u ready h = absurd (let e = ready.red in cc)
  close_lem tree z right left (branch true a x kx vx b) p kp vp s g kg vg u ready h =
      close_inner tree z right b x kx vx a p kp vp s g kg vg u ready h
  close_lem tree z right left (branch false a x kx vx b) p kp vp s g kg vg u ready h =
      absurd (let e = ready.red in cc)
  close_lem tree z right left leaf p kp vp s g kg vg u ready h = absurd (let e = ready.red in cc)

  -- a turn of the loop below a red parent
  pub turn_lem :
      (fuel : ℕ) (tree : SortedMap K V) (z : Place K V) (d d' : Side) (t : Tree K V) (p : ℕ)
      (kp : K) (vp : V) (s : Tree K V) (g : ℕ) (kg : K) (vg : V) (u : Tree K V)
      → addr t ≢ 0
      → Located tree z (grow d false (grow d' true t p kp vp s) g kg vg u)
      → insert_loop (suc fuel) tree (addr t)
        ≡ (insert_turn d tree (addr t) p g >>= (λ out. insert_loop fuel out.0 out.1))
  unfolding insert_loop
  turn_lem fuel tree z d d' t p kp vp s g kg vg u there h =
      let low = grow d' true t p kp vp s in
      let outer = grow-parts tree.nodes d false low g kg vg u (above z) h.rep in
      let inner = grow-parts tree.nodes d' true t p kp vp s g outer.2.0 in
      let at_p = addr-grow d' true t p kp vp s in
      let free : occ p u ≡ 0 = omega (
        arith,
        h.distinct p,
        occ-grow p d false low g kg vg u,
        occ-grow p d' true t p kp vp s,
        one_if p p refl,
      ) in
      let cell_g : tree.nodes g ≡ some (cell d false kg vg p (addr u) (above z)) =
        outer.1 ∙ ap (λ i. some (cell d false kg vg i (addr u) (above z))) at_p in
      ground (
        arith,
        get_parent_lem tree p t inner.2.0 there,
        is_red-grow tree g d' true t p kp vp s outer.2.0,
        get_parent-grow tree g d' true t p kp vp s outer.2.0,
        read_at tree g (cell d false kg vg p (addr u) (above z)) outer.0 cell_g,
        pick_side d kg vg p (addr u) (above z) false (addr-ne u p inner.0 free),
      )
