-- ===== src/SortedMap/Insert/Loop.antt =====
-- The loop of the repair restores the red-black conditions and keeps the entries.
use python_ctools.Base.{
  ℕ, zero, suc, ◌<◌, ◌≡◌, refl, sym, ap, subst, ◌∙◌, true, false, arith, Result, ok, ◌>>=◌,
}
use python_ctools.SortedMap.{SortedMap}
use python_ctools.SortedMap.Store.{Side}
use python_ctools.SortedMap.Insert.{insert_loop}
use python_ctools.SortedMap.Insert.Fix.{insert_loop-stops, recolour_lem}
use python_ctools.SortedMap.Insert.Close.{Ready, red_root-addr, close_lem, turn_lem}
use python_ctools.SortedMap.Tree.{
  Tree, leaf, branch, Place, top, below, addr, red_root, grow, entries, around, count_around,
  Located,
}
use python_ctools.SortedMap.Tree.Frame.{up-Located}
use python_ctools.SortedMap.Tree.Balance.{
  height, Balanced, above_red, BalancedAround, fill, height-grow, red_root-grow, grow-Balanced,
  around-grow, fill-Located, fill-Balanced, entries-fill,
}
use python_ctools.SortedMap.Tree.Grow.{addr-grow, entries-grow, Kept, Kept-refl, Kept-trans}

module _ {ℓ} {K V : Type ℓ} where
  -- What a run of the loop leaves, where the tree `t` is in the place.
  pub record Restored (tree : SortedMap K V) (z : Place K V) (t : Tree K V)
      (run : Result (SortedMap K V)) : Type ℓ where
    pub tree' : SortedMap K V
    pub t' : Tree K V
    pub ends : run ≡ ok tree'
    pub kept : Kept tree tree'
    pub located : Located tree' top t'
    pub balanced : Balanced t'
    pub same_entries : entries t' ≡ around z (entries t)

  -- Where the conditions hold, the loop has nothing to do.
  done_lem :
      (run : Result (SortedMap K V)) (tree tree' : SortedMap K V) (z : Place K V) (old t : Tree K V)
      → run ≡ ok tree'
      → Kept tree tree'
      → Located tree' z t
      → Balanced t
      → BalancedAround z (height t)
      → (red_root t ≡ true → above_red z ≡ false)
      → entries t ≡ entries old
      → Restored tree z old run
  done_lem run tree tree' z old t e kept h b outer clear same = record {
    tree' = tree';
    t' = fill z t;
    ends = e;
    kept = kept;
    located = fill-Located tree' z t h;
    balanced = fill-Balanced z t b outer clear;
    same_entries = entries-fill z t ∙ ap (around z) same;
  }

  around-twice :
      (d d' : Side) (t : Tree K V) (p : ℕ) (kp : K) (vp : V) (s : Tree K V) (g : ℕ) (kg : K)
      (vg : V) (u : Tree K V) (rest : Place K V)
      → around (below d' true p kp vp s (below d false g kg vg u rest)) (entries t)
        ≡ around rest (entries (grow d false (grow d' true t p kp vp s) g kg vg u))
  around-twice d d' t p kp vp s g kg vg u rest =
      around-grow d' true p kp vp s t (below d false g kg vg u rest)
      ∙ around-grow d false g kg vg u (grow d' true t p kp vp s) rest

  -- With a black uncle the turn is the last.
  closing :
      (fuel : ℕ) (tree : SortedMap K V) (rest : Place K V) (d d' : Side) (t : Tree K V) (p : ℕ)
      (kp : K) (vp : V) (s : Tree K V) (g : ℕ) (kg : K) (vg : V) (u : Tree K V)
      → 0 < fuel
      → Ready t s u
      → Located tree (below d' true p kp vp s (below d false g kg vg u rest)) t
      → BalancedAround rest (suc (height t))
      → Restored tree
          (below d' true p kp vp s (below d false g kg vg u rest))
          t
          (insert_loop (suc fuel) tree (addr t))
  closing fuel tree rest d d' t p kp vp s g kg vg u enough ready h outer =
      let old = grow d false (grow d' true t p kp vp s) g kg vg u in
      let up =
        up-Located tree d false g kg vg u (grow d' true t p kp vp s) rest
          (up-Located tree d' true p kp vp s t (below d false g kg vg u rest) h) in
      let (tree', t', c) = close_lem tree rest d d' t p kp vp s g kg vg u ready up in
      let low_height = height-grow d' true t p kp vp s (sym ready.sibling_height) in
      let old_height : height old ≡ suc (height t) =
        height-grow d false (grow d' true t p kp vp s) g kg vg u
          (low_height ∙ sym ready.uncle_height)
        ∙ ap suc low_height in
      let there = red_root-addr t tree p h.rep ready.red in
      let run : insert_loop (suc fuel) tree (addr t) ≡ ok tree' =
        turn_lem fuel tree rest d d' t p kp vp s g kg vg u there up
        ∙ ap (λ i. i >>= (λ out. insert_loop fuel out.0 out.1)) c.turn
        ∙ c.stops fuel enough in
      let rest_done =
        done_lem (insert_loop (suc fuel) tree (addr t)) tree tree' rest old t' run c.kept c.located
          c.balanced (subst (BalancedAround rest) (sym (c.same_height ∙ old_height)) outer)
          (λ e. absurd (let b = c.black in cc)) c.same_entries in
      record {
        tree' = rest_done.tree';
        t' = rest_done.t';
        ends = rest_done.ends;
        kept = rest_done.kept;
        located = rest_done.located;
        balanced = rest_done.balanced;
        same_entries = rest_done.same_entries ∙ sym (around-twice d d' t p kp vp s g kg vg u rest);
      }

  pub loop_lem :
      (fuel : ℕ) (tree : SortedMap K V) (z : Place K V) (t : Tree K V)
      → count_around z < fuel
      → red_root t ≡ true
      → Located tree z t
      → Balanced t
      → BalancedAround z (height t)
      → Restored tree z t (insert_loop fuel tree (addr t))
  loop_lem zero tree z t enough red h b outer = absurd (omega arith)
  loop_lem (suc fuel) tree top t enough red h b outer =
      done_lem (insert_loop (suc fuel) tree (addr t)) tree tree top t t
        (insert_loop-stops (suc fuel) tree top t (omega arith) (red_root-addr t tree 0 h.rep red)
          refl h)
        (Kept-refl tree) h b outer (λ e. refl) refl
  loop_lem (suc fuel) tree (below d false p k v s rest) t enough red h b outer =
      done_lem (insert_loop (suc fuel) tree (addr t)) tree tree (below d false p k v s rest) t t
        (insert_loop-stops (suc fuel) tree (below d false p k v s rest) t (omega arith)
          (red_root-addr t tree p h.rep red) refl h)
        (Kept-refl tree) h b outer (λ e. refl) refl
  loop_lem (suc fuel) tree (below d true p k v s top) t enough red h b outer =
      absurd (let e = (outer.1 refl).1 in cc)
  loop_lem (suc fuel) tree (below d true p k v s (below d' true g kg vg u rest)) t enough red h b
        outer =
      absurd (let e = (outer.1 refl).1 in cc)
  loop_lem (suc fuel) tree (below d' true p kp vp s (below d false g kg vg leaf rest)) t enough red
        h b outer =
      closing fuel tree rest d d' t p kp vp s g kg vg leaf (omega arith)
        (record {
          red = red;
          sibling_black = (outer.1 refl).0;
          uncle_black = refl;
          sibling_height = outer.0;
          uncle_height = outer.2.1.0;
          t_balanced = b;
          s_balanced = outer.2.0;
          u_balanced = outer.2.1.2.0;
        })
        h outer.2.1.2.1
  loop_lem (suc fuel) tree
        (below d' true p kp vp s (below d false g kg vg (branch false l q kq vq r) rest)) t enough
        red h b outer =
      closing fuel tree rest d d' t p kp vp s g kg vg (branch false l q kq vq r) (omega arith)
        (record {
          red = red;
          sibling_black = (outer.1 refl).0;
          uncle_black = refl;
          sibling_height = outer.0;
          uncle_height = outer.2.1.0;
          t_balanced = b;
          s_balanced = outer.2.0;
          u_balanced = outer.2.1.2.0;
        })
        h outer.2.1.2.1
  loop_lem (suc fuel) tree
        (below d' true p kp vp s (below d false g kg vg (branch true l q kq vq r) rest)) t enough
        red h b outer =
      let u' = branch false l q kq vq r in
      let low = grow d' false t p kp vp s in
      let t1 = grow d true low g kg vg u' in
      let up =
        up-Located tree d false g kg vg (branch true l q kq vq r) (grow d' true t p kp vp s) rest (
          up-Located tree d' true p kp vp s t (below d false g kg vg (branch true l q kq vq r) rest)
            h) in
      let there = red_root-addr t tree p h.rep red in
      let (tree1, turned, kept1, l1) =
        recolour_lem tree rest d d' t p kp vp s g kg vg l q kq vq r there up in
      let low_height : height low ≡ suc (height t) =
        height-grow d' false t p kp vp s (sym outer.0) in
      let level : height low ≡ height u' = low_height ∙ ap suc (sym outer.2.1.0) in
      let t1_height : height t1 ≡ suc (height t) =
        height-grow d true low g kg vg u' level ∙ low_height in
      let ub = outer.2.1.2.0 in
      let rec =
        loop_lem fuel tree1 rest t1 (omega arith) (red_root-grow d true low g kg vg u') l1
          (grow-Balanced d true low g kg vg u' (
            level,
            λ e. (red_root-grow d' false t p kp vp s, refl),
            (
              grow-Balanced d' false t p kp vp s (sym outer.0, λ e. absurd (cc), (b, outer.2.0)),
              (ub.0, λ e. absurd (cc), ub.2),
            ),
          ))
          (subst (BalancedAround rest) (sym t1_height) outer.2.1.2.1) in
      record {
        tree' = rec.tree';
        t' = rec.t';
        ends =
            turn_lem fuel tree rest d d' t p kp vp s g kg vg (branch true l q kq vq r) there up
            ∙ ap (λ i. i >>= (λ out. insert_loop fuel out.0 out.1)) turned
            ∙ ap (insert_loop fuel tree1) (sym (addr-grow d true low g kg vg u'))
            ∙ rec.ends;
        kept = Kept-trans tree tree1 rec.tree' kept1 rec.kept;
        located = rec.located;
        balanced = rec.balanced;
        same_entries =
            rec.same_entries
            ∙ ap (around rest) (
                entries-grow d true false low (grow d' true t p kp vp s) g kg vg u'
                  (branch true l q kq vq r) (entries-grow d' false true t t p kp vp s s refl refl)
                  refl)
            ∙ sym (around-twice d d' t p kp vp s g kg vg (branch true l q kq vq r) rest);
      }
