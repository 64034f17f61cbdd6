-- ===== src/SortedMap/Delete/Leave.antt =====
-- The deletion of a node with one child at most.
use python_ctools.Base.{
  ℕ, suc, ◌+◌, ◌≤◌, ◌<◌, ◌≡◌, ◌≢◌, refl, ap, subst, ◌∙◌, Bool, true, false, arith, Result, ok,
  ◌>>=◌,
}
use python_ctools.Base.Dict.{Dict}
use python_ctools.SortedMap.{SortedMap}
use python_ctools.SortedMap.Store.{left}
use python_ctools.SortedMap.Delete.{transplant, repair, delete}
use python_ctools.SortedMap.Delete.Loop.{Repaired}
use python_ctools.SortedMap.Delete.Unlink.{
  anchor, Same, Same-trans, Kept-Same, transplant_lem, repair_lem,
}
use python_ctools.SortedMap.Tree.{
  Tree, leaf, branch, Place, top, addr, red_root, above, entries, around, count_around, occ,
  occ_around, cell, Rep, Located,
}
use python_ctools.SortedMap.Tree.Links.{relink, read_at}
use python_ctools.SortedMap.Tree.Rotate.{one_if}
use python_ctools.SortedMap.Tree.Balance.{raised, height, Balanced, BalancedAround}
use python_ctools.SortedMap.Tree.Zipper.{Focused}

module _ {ℓ} {K V : Type ℓ} where
  -- What a deletion of the node `p` leaves: a red-black tree with these entries and without `p`.
  pub record Deleted (tree : SortedMap K V) (p : ℕ) (d : Dict K V) (run : Result (SortedMap K V))
      : Type ℓ where
    pub tree' : SortedMap K V
    pub t' : Tree K V
    pub ends : run ≡ ok tree'
    pub same : Same tree tree'
    pub located : Located tree' top t'
    pub balanced : Balanced t'
    pub black : red_root t' ≡ false
    pub same_entries : entries t' ≡ d
    pub absent : occ p t' ≡ 0

  pub after_repair :
      (tree tree1 : SortedMap K V) (z : Place K V) (t : Tree K V) (p : ℕ)
      (run : Result (SortedMap K V)) (c : Bool)
      → Repaired tree1 z t (repair c tree1 (addr t))
      → Same tree tree1
      → occ p t + occ_around p z ≡ 0
      → run ≡ repair c tree1 (addr t)
      → Deleted tree p (around z (entries t)) run
  after_repair tree tree1 z t p run c r same absent e = record {
    tree' = r.tree';
    t' = r.t';
    ends = e ∙ r.ends;
    same = Same-trans tree tree1 r.tree' same (Kept-Same tree1 r.tree' r.kept);
    located = r.located;
    balanced = r.balanced;
    black = r.black;
    same_entries = r.same_entries;
    absent = r.same_occ p ∙ absent;
  }

  module _ (tree : SortedMap K V) (z : Place K V) (c : Bool) (l : Tree K V) (p : ℕ) (k : K) (v : V)
      (r : Tree K V) (f : Focused tree z (branch c l p k v r))
      (enough : count_around z < suc tree.size) where
    gone_lem :
        (t : Tree K V) (run : Result (SortedMap K V))
        → Rep tree.nodes p t
        → ((q : ℕ) → occ q t ≤ occ q l + occ q r)
        → Balanced t
        → height (branch c l p k v r) ≡ raised c (height t)
        → (c ≡ true → red_root t ≡ false)
        → run ≡ (transplant tree p (addr t) >>= (λ tree1. repair c tree1 (addr t)))
        → Deleted tree p (around z (entries t)) run
    gone_lem t run rep sub b level calm e =
        let h = f.located in
        let absent : occ p (branch c l p k v r) ≡ 1 =
          omega (arith, h.distinct p, one_if p p refl) in
        let around_absent : occ_around p z ≡ 0 = omega (arith, h.distinct p, absent) in
        let none_low : occ p t ≡ 0 = omega (arith, h.distinct p, one_if p p refl, sub p) in
        let (moved, same, l1, anchored) =
          transplant_lem tree z p p c k v (addr l) (addr r) t h.rep.0 h.rep.1 h.rep_around
            around_absent h.root rep (λ q. omega (arith, h.distinct q, sub q)) in
        let tree1 : SortedMap K V = anchor (relink tree z (addr t)) t (above z) in
        let repaired =
          repair_lem tree1 z t c (omega (arith, enough, same.size)) l1 anchored b
            (subst (BalancedAround z) level f.outer) (λ i. (calm i, f.calm i)) in
        after_repair tree tree1 z t p run c repaired same (omega (arith, none_low, around_absent))
          (e ∙ ap (λ i. i >>= (λ tree2. repair c tree2 (addr t))) moved)

  -- without a left child
  pub delete_right :
      (tree : SortedMap K V) (z : Place K V) (c : Bool) (p : ℕ) (k : K) (v : V) (r : Tree K V)
      → Focused tree z (branch c leaf p k v r)
      → count_around z < suc tree.size
      → Deleted tree p (around z (entries r)) (delete tree p)
  unfolding delete
  delete_right tree z c p k v r f enough =
      let h = f.located in
      let b = f.balanced in
      gone_lem tree z c leaf p k v r f enough r (delete tree p) h.rep.2.1 (λ q. omega arith) b.2.1
        (ap (raised c) b.0) (λ e. (b.1 e).1)
        (let there = read_at tree p (cell left c k v 0 (addr r) (above z)) h.rep.0 h.rep.1 in
          ground (arith, there))

  -- with a left child and no right one
  pub delete_left :
      (tree : SortedMap K V) (z : Place K V) (c : Bool) (l : Tree K V) (p : ℕ) (k : K) (v : V)
      → addr l ≢ 0
      → Focused tree z (branch c l p k v leaf)
      → count_around z < suc tree.size
      → Deleted tree p (around z (entries l)) (delete tree p)
  unfolding delete
  delete_left tree z c l p k v there f enough =
      let h = f.located in
      let b = f.balanced in
      gone_lem tree z c l p k v leaf f enough l (delete tree p) h.rep.2.0 (λ q. omega arith) b.2.0
        refl (λ e. (b.1 e).0)
        (let node = read_at tree p (cell left c k v (addr l) 0 (above z)) h.rep.0 h.rep.1 in
          ground (arith, node, there))
