-- ===== src/SortedMap/Delete/Unlink.antt =====
-- A node leaves its place for a tree: what `transplant` leaves of a layout, and the repair after it.
use python_ctools.Base.{
  ℕ, suc, ◌+◌, ◌≤◌, ◌<◌, ◌≡◌, ◌≢◌, refl, sym, subst, ◌∙◌, Bool, true, false, Bool-cases, inl, inr,
  some, arith, ok,
}
use python_ctools.SortedMap.{SortedMap}
use python_ctools.SortedMap.Store.{left, write, set_parent}
use python_ctools.SortedMap.Delete.{transplant, repair}
use python_ctools.SortedMap.Delete.Turns.{Anchored}
use python_ctools.SortedMap.Delete.Loop.{Repaired, whole}
use python_ctools.SortedMap.Delete.Fixup.{fixup_lem}
use python_ctools.SortedMap.Tree.{
  Tree, leaf, branch, Place, top, below, addr, red_root, above, count_around, occ, occ_around, cell,
  Rep, RepAround, root_of, Located,
}
use python_ctools.SortedMap.Tree.Frame.{Rep-Agrees, RepAround-Agrees}
use python_ctools.SortedMap.Tree.Links.{
  relink, relink-off, relink-RepAround, relink-root, replace_child_lem, adopt, adopt-off, adopt-Rep,
  set_parent_lem, get_parent_at,
}
use python_ctools.SortedMap.Tree.Grow.{Kept, Kept-refl, adopt-root}
use python_ctools.SortedMap.Tree.Balance.{
  raised, height, Balanced, blacken, above_black, BalancedAround,
}

module _ {ℓ} {K V : Type ℓ} where
  -- the map with another parent for a tree, or for the sentinel
  abbrev pub anchor : SortedMap K V → Tree K V → ℕ → SortedMap K V
  anchor tree leaf x = record tree { sentinel_parent = x }
  anchor tree (branch c l p k v r) x = adopt tree (branch c l p k v r) x

  pub anchor-off :
      (tree : SortedMap K V) (t : Tree K V) (x q : ℕ)
      → occ q t ≡ 0
      → (anchor tree t x).nodes q ≡ tree.nodes q
  anchor-off tree leaf x q absent = refl
  anchor-off tree (branch c l p k v r) x q absent = adopt-off tree (branch c l p k v r) x q absent

  pub anchor-Rep :
      (tree : SortedMap K V) (t : Tree K V) (parent x : ℕ)
      → ((q : ℕ) → occ q t ≤ 1)
      → Rep tree.nodes parent t
      → Rep (anchor tree t x).nodes x t
  anchor-Rep tree leaf parent x once h = tt
  anchor-Rep tree (branch c l p k v r) parent x once h =
      adopt-Rep tree (branch c l p k v r) parent x once h

  pub anchor-root :
      (tree : SortedMap K V) (t : Tree K V) (x : ℕ) → (anchor tree t x).root ≡ tree.root
  anchor-root tree leaf x = refl
  anchor-root tree (branch c l p k v r) x = adopt-root tree (branch c l p k v r) x

  pub anchor-Anchored :
      (tree : SortedMap K V) (t : Tree K V) (parent x : ℕ)
      → Rep tree.nodes parent t
      → Anchored (anchor tree t x) t x
  anchor-Anchored tree leaf parent x h e = refl
  anchor-Anchored tree (branch c l p k v r) parent x h e = absurd (h.0 e)

  pub anchor_lem :
      (tree : SortedMap K V) (t : Tree K V) (parent x : ℕ)
      → Rep tree.nodes parent t
      → set_parent tree (addr t) x ≡ ok (anchor tree t x)
  unfolding set_parent
  anchor_lem tree leaf parent x h = refl
  anchor_lem tree (branch c l p k v r) parent x h =
      set_parent_lem tree (branch c l p k v r) parent x h h.0

  -- The order and the size of a map are those of another.
  pub record Same (tree tree' : SortedMap K V) : Type ℓ where
    pub ordering : tree'.ordering ≡ tree.ordering
    pub size : tree'.size ≡ tree.size

  pub Same-trans : (a b c : SortedMap K V) → Same a b → Same b c → Same a c
  Same-trans a b c f g = record { ordering = g.ordering ∙ f.ordering; size = g.size ∙ f.size }

  pub Kept-Same : (a b : SortedMap K V) → Kept a b → Same a b
  Kept-Same a b h = record { ordering = h.ordering; size = h.size }

  pub anchor-Same : (tree : SortedMap K V) (t : Tree K V) (x : ℕ) → Same tree (anchor tree t x)
  unfolding write
  anchor-Same tree leaf x = record { ordering = refl; size = refl }
  anchor-Same tree (branch c l p k v r) x = record { ordering = refl; size = refl }

  relink-Same : (tree : SortedMap K V) (z : Place K V) (y : ℕ) → Same tree (relink tree z y)
  unfolding write
  relink-Same tree top y = record { ordering = refl; size = refl }
  relink-Same tree (below d c p k v s rest) y = record { ordering = refl; size = refl }

  -- The tree takes the place of the node `u`.
  pub transplant_lem :
      (tree : SortedMap K V) (z : Place K V) (u parent : ℕ) (c : Bool) (k : K) (v : V) (a b : ℕ)
      (t : Tree K V)
      → u ≢ 0
      → tree.nodes u ≡ some (cell left c k v a b (above z))
      → RepAround tree.nodes z u
      → occ_around u z ≡ 0
      → tree.root ≡ root_of z u
      → Rep tree.nodes parent t
      → ((q : ℕ) → occ q t + occ_around q z ≤ 1)
      → (transplant tree u (addr t) ≡ ok (anchor (relink tree z (addr t)) t (above z)))
        × Same tree (anchor (relink tree z (addr t)) t (above z))
        × Located (anchor (relink tree z (addr t)) t (above z)) z t
        × Anchored (anchor (relink tree z (addr t)) t (above z)) t (above z)
  unfolding transplant
  transplant_lem tree z u parent c k v a b t nonzero there outer absent root h distinct =
      let mid : SortedMap K V = relink tree z (addr t) in
      let rep : Rep mid.nodes parent t =
        Rep-Agrees tree.nodes mid.nodes parent t
          (λ q o. relink-off tree z (addr t) q (omega (arith, distinct q))) h in
      let still : mid.nodes u ≡ some (cell left c k v a b (above z)) =
        relink-off tree z (addr t) u absent ∙ there in
      let outer1 = relink-RepAround tree z u (addr t) (λ q. omega (arith, distinct q)) outer in
      (
        ground (
          arith,
          get_parent_at tree left c k v a b (above z) u nonzero there,
          replace_child_lem left tree z u (addr t) nonzero absent outer,
          get_parent_at mid left c k v a b (above z) u nonzero still,
          anchor_lem mid t parent (above z) rep,
        ),
        Same-trans tree mid (anchor mid t (above z)) (relink-Same tree z (addr t))
            (anchor-Same mid t (above z)),
        record {
          rep = anchor-Rep mid t parent (above z) (λ q. omega (arith, distinct q)) rep;
          rep_around =
              RepAround-Agrees mid.nodes (anchor mid t (above z)).nodes z (addr t)
                (λ q o. anchor-off mid t (above z) q (omega (arith, distinct q))) outer1;
          root = anchor-root mid t (above z) ∙ relink-root tree z u (addr t) root;
          distinct = distinct;
        },
        anchor-Anchored mid t parent (above z) rep,
      )

  blacken-height : (t : Tree K V) → red_root t ≡ true → height (blacken t) ≡ suc (height t)
  blacken-height leaf e = absurd (cc)
  blacken-height (branch c l p k v r) e = ground (arith, e)

  blacken-Balanced : (t : Tree K V) → Balanced t → Balanced (blacken t)
  blacken-Balanced leaf b = tt
  blacken-Balanced (branch c l p k v r) b = (b.0, λ e. absurd (cc), b.2)

  -- After a node of the colour has left its place for the tree, the repair ends.
  pub repair_lem :
      (tree : SortedMap K V) (z : Place K V) (t : Tree K V) (c : Bool)
      → count_around z < suc tree.size
      → Located tree z t
      → Anchored tree t (above z)
      → Balanced t
      → BalancedAround z (raised c (height t))
      → (c ≡ true → (red_root t ≡ false) × (above_black z ≡ true))
      → Repaired tree z t (repair c tree (addr t))
  unfolding repair
  repair_lem tree z t true enough h anchored b outer calm =
      whole (ok tree) tree tree z t t refl (Kept-refl tree)
        (record {
          located = h;
          balanced = b;
          outer = outer;
          calm = λ e. absurd (let f = (calm refl).0 in cc);
        })
        refl (λ q. refl)
  repair_lem tree z t false enough h anchored b outer calm =
      fixup_lem (suc (suc tree.size)) tree.root tree z t (omega arith) (record {
        located = h;
        anchored = anchored;
        balanced = blacken-Balanced t b;
        short = elim (Bool-cases (red_root t)) [
          | inl e ↦ inl (e, subst (BalancedAround z) (sym (blacken-height t e)) outer)
          | inr e ↦ inr (e, outer, refl)
        ];
      })
