-- ===== src/SortedMap/Delete/Both.antt =====
-- The deletion of a node with two children.
use mathlib.Core.List.{append-nil}
use python_ctools.Base.{
  ℕ, suc, ◌+◌, ◌<◌, ◌≡◌, ◌≢◌, refl, sym, ap, subst, ◌∙◌, Bool, ◌++◌, ◌∷◌, arith, ok,
}
use python_ctools.SortedMap.{SortedMap, read, leftmost}
use python_ctools.SortedMap.Store.{left, right}
use python_ctools.SortedMap.Delete.{repair, lift, delete, delete_inner}
use python_ctools.SortedMap.Delete.Turns.{Anchored-Kept}
use python_ctools.SortedMap.Delete.Unlink.{Same-trans, Kept-Same, repair_lem}
use python_ctools.SortedMap.Delete.Leave.{Deleted, after_repair, delete_left, delete_right}
use python_ctools.SortedMap.Delete.Least.{
  beneath, beneath-Located, beneath-Focused, beneath-above_black, beneath-BalancedAround,
  count-beneath, around-beneath, occ-beneath, least_lem,
}
use python_ctools.SortedMap.Delete.Inner.{
  Movable, moved, moved-Located, moved-Kept, transplant_y, read_p, set_left, adopt_left, paint_y,
}
use python_ctools.SortedMap.Delete.Lift.{lift_lem}
use python_ctools.SortedMap.Tree.{
  Tree, leaf, branch, Place, below, addr, above, entries, around, count, count_around, occ,
  occ_around, cell,
}
use python_ctools.SortedMap.Tree.Frame.{down-Located}
use python_ctools.SortedMap.Tree.Links.{read_at}
use python_ctools.SortedMap.Tree.Rotate.{one_if}
use python_ctools.SortedMap.Tree.Balance.{
  fill, raised, height, BalancedAround, occ-fill, count-fill, entries-fill,
}
use python_ctools.SortedMap.Tree.Zipper.{Focused, down-Focused}

module _ {ℓ} {K V : Type ℓ} where
  -- the calls of the deletion, one after the other
  inner_run :
      (tree tree' : SortedMap K V) (z : Place K V) (c : Bool) (l r r' t : Tree K V) (p : ℕ) (k : K)
      (v : V) (pr : ℕ) (cy : Bool) (y : ℕ) (ky : K) (vy : V) (yp par : ℕ)
      → addr l ≢ 0
      → addr r ≢ 0
      → read tree p ≡ ok (cell left c k v (addr l) (addr r) (above z))
      → leftmost (suc tree.size) tree (addr r) ≡ ok y
      → read tree y ≡ ok (cell left cy ky vy 0 (addr t) par)
      → lift tree p y ≡ ok tree'
      → Movable tree' z c l r' p k v pr cy y ky vy 0 yp
      → delete tree p ≡ repair cy (moved tree' z c l r' p k v pr cy y ky vy 0 yp) (addr t)
  unfolding delete delete_inner
  inner_run tree tree' z c l r r' t p k v pr cy y ky vy yp par there right_there at_p found at_y
        lifts m =
      ground (
        arith,
        at_p,
        found,
        at_y,
        lifts,
        transplant_y tree' z c l r' p k v pr cy y ky vy 0 yp m,
        read_p tree' z c l r' p k v pr cy y ky vy 0 yp m,
        set_left tree' z c l r' p k v pr cy y ky vy 0 yp m,
        adopt_left tree' z c l r' p k v pr cy y ky vy 0 yp m,
        paint_y tree' z c l r' p k v pr cy y ky vy 0 yp m,
      )

  pub delete_both :
      (tree : SortedMap K V) (z : Place K V) (c : Bool) (l : Tree K V) (p : ℕ) (k : K) (v : V)
      (cr : Bool) (lr : Tree K V) (q : ℕ) (kr : K) (vr : V) (rr : Tree K V)
      → addr l ≢ 0
      → Focused tree z (branch c l p k v (branch cr lr q kr vr rr))
      → suc (count l + count (branch cr lr q kr vr rr)) + count_around z ≡ tree.size
      → Deleted tree p (around z (entries l ++ entries (branch cr lr q kr vr rr))) (delete tree p)
  delete_both tree z c l p k v cr lr q kr vr rr there f sized =
      let h = f.located in
      let r : Tree K V = branch cr lr q kr vr rr in
      let frame : Place K V = below right c p k v l z in
      let s =
        least_lem (suc tree.size) tree frame cr lr q kr vr rr (omega arith)
          (down-Located tree right c p k v l r z h) in
      let fy =
        beneath-Focused tree s.path frame (branch s.c leaf s.y s.k s.v s.low)
          (subst (Focused tree frame) (sym s.filled) (down-Focused tree z right c r p k v l f)) in
      let lifted = lift_lem tree z c l p k v s.path s.c s.y s.k s.v s.low there fy.located in
      let m = lifted.movable in
      let r' : Tree K V = fill s.path s.low in
      let final : SortedMap K V =
        moved lifted.tree' z c l r' p k v lifted.pr s.c s.y s.k s.v 0 lifted.yp in
      let kept = moved-Kept lifted.tree' z c l r' p k v lifted.pr s.c s.y s.k s.v 0 lifted.yp in
      let frame' : Place K V = below right c s.y s.k s.v l z in
      let place : Place K V = beneath s.path frame' in
      let located = beneath-Located final s.path frame' s.low (
        down-Located final right c s.y s.k s.v l r' z
          (moved-Located lifted.tree' z c l r' p k v lifted.pr s.c s.y s.k s.v 0 lifted.yp m)) in
      let same =
        Same-trans tree lifted.tree' final lifted.same (Kept-Same lifted.tree' final kept) in
      let depth : count_around place < suc final.size = omega (
        arith,
        same.size,
        sized,
        count-beneath s.path frame',
        sym (ap count s.filled) ∙ count-fill s.path (branch s.c leaf s.y s.k s.v s.low),
      ) in
      let repaired =
        repair_lem final place s.low s.c depth located
          (Anchored-Kept lifted.tree' final s.low (above place) kept lifted.anchored)
          fy.balanced.2.1
          (beneath-BalancedAround s.path right c p s.y k s.k v s.v l z (raised s.c (height s.low)) (
            subst (λ n. BalancedAround (beneath s.path frame) (raised s.c n)) fy.balanced.0
              fy.outer))
          (λ e. (
            (fy.balanced.1 e).1,
            sym (beneath-above_black s.path right c p s.y k s.k v s.v l z) ∙ fy.calm e,
          )) in
      let run : delete tree p ≡ repair s.c final (addr s.low) =
        inner_run tree lifted.tree' z c l r r' s.low p k v lifted.pr s.c s.y s.k s.v lifted.yp
          (above (beneath s.path frame)) there h.rep.2.1.0
          (read_at tree p (cell left c k v (addr l) q (above z)) h.rep.0 h.rep.1) s.found
          (read_at tree s.y (cell left s.c s.k s.v 0 (addr s.low) (above (beneath s.path frame)))
            fy.located.rep.0 fy.located.rep.1)
          lifted.ends m in
      let absent : occ p s.low + occ_around p place ≡ 0 = omega (
        arith,
        m.distinct p,
        one_if p p refl,
        occ-fill p s.path s.low,
        occ-beneath p s.path frame',
      ) in
      let entries_r : entries r ≡ (s.k, s.v) ∷ entries r' =
        sym (ap entries s.filled)
        ∙ s.least (branch s.c leaf s.y s.k s.v s.low)
        ∙ ap (λ i. (s.k, s.v) ∷ i) (sym (s.least s.low)) in
      let listed : around place (entries s.low) ≡ around z (entries l ++ entries r) =
        around-beneath s.path frame' (entries s.low)
        ∙ ap (around frame') (sym (entries-fill s.path s.low))
        ∙ ap (λ i. around z (entries l ++ i)) (sym entries_r) in
      subst (λ d. Deleted tree p d (delete tree p)) listed
        (after_repair tree final place s.low p (delete tree p) s.c repaired same absent run)

  -- On a map whose nodes form a red-black tree of its size with a black root, the deletion of any of
  -- them ends without a fault: in a red-black tree with a black root that has the other entries and
  -- not the node, in the same order; the size is not yet changed.
  pub delete_lem :
      (tree : SortedMap K V) (z : Place K V) (c : Bool) (l : Tree K V) (p : ℕ) (k : K) (v : V)
      (r : Tree K V)
      → Focused tree z (branch c l p k v r)
      → suc (count l + count r) + count_around z ≡ tree.size
      → Deleted tree p (around z (entries l ++ entries r)) (delete tree p)
  delete_lem tree z c leaf p k v r f sized = delete_right tree z c p k v r f (omega (arith, sized))
  delete_lem tree z c (branch cl ll pl kl vl rl) p k v leaf f sized =
      subst (λ d. Deleted tree p (around z d) (delete tree p))
        (sym (append-nil (entries (branch cl ll pl kl vl rl))))
        (delete_left tree z c (branch cl ll pl kl vl rl) p k v f.located.rep.2.0.0 f
          (omega (arith, sized)))
  delete_lem tree z c (branch cl ll pl kl vl rl) p k v (branch cr lr q kr vr rr) f sized =
      delete_both tree z c (branch cl ll pl kl vl rl) p k v cr lr q kr vr rr f.located.rep.2.0.0 f
        sized
