-- ===== src/SortedMap/Delete/Least.antt =====
-- The least node of a tree, and the place that it stands in.
use mathlib.Core.List.{append_assoc, append-nil}
use python_ctools.Base.{
  ℕ, zero, suc, ◌+◌, ◌<◌, ◌≡◌, refl, sym, ap, ◌∙◌, Bool, [], ◌∷◌, ◌++◌, arith, Result, ok,
}
use python_ctools.Base.Dict.{Dict}
use python_ctools.SortedMap.{SortedMap, leftmost}
use python_ctools.SortedMap.Store.{Side, left, right}
use python_ctools.SortedMap.Tree.{
  Tree, leaf, branch, Place, top, below, addr, above, grow, entries, around, count, count_around,
  occ_around, cell, Located,
}
use python_ctools.SortedMap.Tree.Frame.{up-Located, down-Located}
use python_ctools.SortedMap.Tree.Links.{read_at}
use python_ctools.SortedMap.Tree.Balance.{fill, raised, above_black, BalancedAround}
use python_ctools.SortedMap.Tree.Zipper.{Focused, down-Focused}

module _ {ℓ} {K V : Type ℓ} where
  -- a place within a tree that is in a place
  abbrev pub beneath : Place K V → Place K V → Place K V
  beneath top z = z
  beneath (below d c p k v s rest) z = below d c p k v s (beneath rest z)

  pub fill-beneath :
      (path z : Place K V) (t : Tree K V) → fill (beneath path z) t ≡ fill z (fill path t)
  fill-beneath top z t = refl
  fill-beneath (below d c p k v s rest) z t = fill-beneath rest z (grow d c t p k v s)

  pub beneath-Located :
      (tree : SortedMap K V) (path z : Place K V) (t : Tree K V)
      → Located tree z (fill path t)
      → Located tree (beneath path z) t
  beneath-Located tree top z t h = h
  beneath-Located tree (below d c p k v s rest) z t h =
      down-Located tree d c p k v s t (beneath rest z)
        (beneath-Located tree rest z (grow d c t p k v s) h)

  pub Located-beneath :
      (tree : SortedMap K V) (path z : Place K V) (t : Tree K V)
      → Located tree (beneath path z) t
      → Located tree z (fill path t)
  Located-beneath tree top z t h = h
  Located-beneath tree (below d c p k v s rest) z t h =
      Located-beneath tree rest z (grow d c t p k v s)
        (up-Located tree d c p k v s t (beneath rest z) h)

  pub occ-beneath :
      (q : ℕ) (path z : Place K V)
      → occ_around q (beneath path z) ≡ occ_around q path + occ_around q z
  occ-beneath q top z = omega arith
  occ-beneath q (below d c p k v s rest) z = omega (arith, occ-beneath q rest z)

  pub count-beneath :
      (path z : Place K V) → count_around (beneath path z) ≡ count_around path + count_around z
  count-beneath top z = omega arith
  count-beneath (below d c p k v s rest) z = omega (arith, count-beneath rest z)

  pub around-beneath :
      (path z : Place K V) (d : Dict K V) → around (beneath path z) d ≡ around z (around path d)
  around-beneath top z d = refl
  around-beneath (below left c p k v s rest) z d = around-beneath rest z (d ++ (k, v) ∷ entries s)
  around-beneath (below right c p k v s rest) z d = around-beneath rest z (entries s ++ (k, v) ∷ d)

  pub beneath-Focused :
      (tree : SortedMap K V) (path z : Place K V) (t : Tree K V)
      → Focused tree z (fill path t)
      → Focused tree (beneath path z) t
  beneath-Focused tree top z t h = h
  beneath-Focused tree (below d c p k v s rest) z t h =
      down-Focused tree (beneath rest z) d c t p k v s
        (beneath-Focused tree rest z (grow d c t p k v s) h)

  -- What is around the place does not depend on the key and the address of a node above.
  pub beneath-above_black :
      (path : Place K V) (d : Side) (c : Bool) (p p' : ℕ) (k k' : K) (v v' : V) (s : Tree K V)
      (z : Place K V)
      → above_black (beneath path (below d c p k v s z))
        ≡ above_black (beneath path (below d c p' k' v' s z))
  beneath-above_black top d c p p' k k' v v' s z = refl
  beneath-above_black (below e a q j w t rest) d c p p' k k' v v' s z = refl

  pub beneath-BalancedAround :
      (path : Place K V) (d : Side) (c : Bool) (p p' : ℕ) (k k' : K) (v v' : V) (s : Tree K V)
      (z : Place K V) (n : ℕ)
      → BalancedAround (beneath path (below d c p k v s z)) n
      → BalancedAround (beneath path (below d c p' k' v' s z)) n
  beneath-BalancedAround top d c p p' k k' v v' s z n h = h
  beneath-BalancedAround (below e a q j w t rest) d c p p' k k' v v' s z n h = (
    h.0,
    λ i. ((h.1 i).0, sym (beneath-above_black rest d c p p' k k' v v' s z) ∙ (h.1 i).1),
    (h.2.0, beneath-BalancedAround rest d c p p' k k' v v' s z (raised a n) h.2.1),
  )

  -- The least node of the tree `r`, in a place of `r` with these entries to its right.
  pub record Least (tree : SortedMap K V) (r : Tree K V) (run : Result ℕ) : Type ℓ where
    pub path : Place K V
    pub c : Bool
    pub y : ℕ
    pub k : K
    pub v : V
    pub low : Tree K V
    pub rest : Dict K V
    pub found : run ≡ ok y
    pub filled : fill path (branch c leaf y k v low) ≡ r
    pub least : (t : Tree K V) → entries (fill path t) ≡ entries t ++ rest

  pub least_lem :
      (fuel : ℕ) (tree : SortedMap K V) (z : Place K V) (c : Bool) (l : Tree K V) (p : ℕ) (k : K)
      (v : V) (r : Tree K V)
      → count l < fuel
      → Located tree z (branch c l p k v r)
      → Least tree (branch c l p k v r) (leftmost fuel tree p)
  unfolding leftmost
  least_lem zero tree z c l p k v r enough h = absurd (omega arith)
  least_lem (suc fuel) tree z c leaf p k v r enough h = record {
    path = top;
    c = c;
    y = p;
    k = k;
    v = v;
    low = r;
    rest = [];
    found = ground (arith, read_at tree p (cell left c k v 0 (addr r) (above z)) h.rep.0 h.rep.1);
    filled = refl;
    least = λ t. sym (append-nil (entries t));
  }
  least_lem (suc fuel) tree z c (branch c' l' p' k' v' r') p k v r enough h =
      let down = down-Located tree left c p k v r (branch c' l' p' k' v' r') z h in
      let s = least_lem fuel tree (below left c p k v r z) c' l' p' k' v' r' (omega arith) down in
      record {
        path = beneath s.path (below left c p k v r top);
        c = s.c;
        y = s.y;
        k = s.k;
        v = s.v;
        low = s.low;
        rest = s.rest ++ (k, v) ∷ entries r;
        found = ground (
          arith,
          read_at tree p (cell left c k v p' (addr r) (above z)) h.rep.0 h.rep.1,
          down.rep.0,
          s.found,
        );
        filled =
            fill-beneath s.path (below left c p k v r top) (branch s.c leaf s.y s.k s.v s.low)
            ∙ ap (λ i. branch c i p k v r) s.filled;
        least = λ t.
            ap entries (fill-beneath s.path (below left c p k v r top) t)
            ∙ ap (λ i. i ++ (k, v) ∷ entries r) (s.least t)
            ∙ append_assoc (entries t) s.rest ((k, v) ∷ entries r);
      }
