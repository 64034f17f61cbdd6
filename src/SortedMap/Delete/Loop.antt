-- ===== src/SortedMap/Delete/Loop.antt =====
-- The loop of the repair after a deletion restores the red-black conditions.
use python_ctools.Base.{
  ℕ, suc, ◌+◌, ◌≡◌, ◌≢◌, refl, sym, ap, subst, ◌∙◌, Bool, true, false, Bool-cases, inl, inr, ◌⊎◌,
  Option, some, ◌==◌, arith, ℕ_discrete, Result, ok, ◌>>=◌,
}
use python_ctools.SortedMap.{Node, SortedMap}
use python_ctools.SortedMap.Store.{left, is_red, paint, write}
use python_ctools.SortedMap.Delete.{delete_fixup}
use python_ctools.SortedMap.Delete.Turns.{Anchored}
use python_ctools.SortedMap.Delete.Black.{Finishes, cell-red}
use python_ctools.SortedMap.Tree.{
  Tree, leaf, branch, Place, top, below, addr, red_root, above, entries, around, occ, occ_around,
  cell, RepAround, root_of, Located,
}
use python_ctools.SortedMap.Tree.Frame.{Rep-Agrees, RepAround-Agrees}
use python_ctools.SortedMap.Tree.Links.{read_at}
use python_ctools.SortedMap.Tree.Grow.{Kept, Kept-refl, Kept-trans, write-Kept}
use python_ctools.SortedMap.Tree.Balance.{
  raised, height, Balanced, blacken, above_black, BalancedAround, fill, entries-fill, occ-fill,
}
use python_ctools.SortedMap.Tree.Zipper.{Focused, fill-Focused}
use python_ctools.SortedMap.Tree.Focus.{is_red_lem, paint_lem}

module _ {ℓ} {K V : Type ℓ} where
  -- What a run of the repair leaves, where the tree `t` was in the place.
  pub record Repaired (tree : SortedMap K V) (z : Place K V) (t : Tree K V)
      (run : Result (SortedMap K V)) : Type ℓ where
    pub tree' : SortedMap K V
    pub t' : Tree K V
    pub ends : run ≡ ok tree'
    pub kept : Kept tree tree'
    pub located : Located tree' top t'
    pub balanced : Balanced t'
    pub black : red_root t' ≡ false
    pub same_entries : entries t' ≡ around z (entries t)
    pub same_occ : (q : ℕ) → occ q t' ≡ occ q t + occ_around q z

  pub whole :
      (run : Result (SortedMap K V)) (tree tree' : SortedMap K V) (z : Place K V) (old t : Tree K V)
      → run ≡ ok tree'
      → Kept tree tree'
      → Focused tree' z t
      → entries t ≡ entries old
      → ((q : ℕ) → occ q t ≡ occ q old)
      → Repaired tree z old run
  whole run tree tree' z old t e kept f same once =
      let filled = fill-Focused tree' z t f in
      record {
        tree' = tree';
        t' = fill z t;
        ends = e;
        kept = kept;
        located = filled.0;
        balanced = filled.1;
        black = filled.2;
        same_entries = entries-fill z t ∙ ap (around z) same;
        same_occ = λ q. omega (arith, occ-fill q z t, once q);
      }

  paint_black :
      (tree : SortedMap K V) (z : Place K V) (t : Tree K V)
      → Located tree z t
      → (tree' : SortedMap K V) × (paint tree (addr t) false ≡ ok tree')
        × Kept tree tree'
        × Located tree' z (blacken t)
  unfolding paint
  paint_black tree z leaf h = (tree, refl, Kept-refl tree, h)
  paint_black tree z (branch c l p k v r) h = paint_lem tree z left c false l p k v r h

  blacken-red_root : (t : Tree K V) → red_root (blacken t) ≡ false
  blacken-red_root leaf = refl
  blacken-red_root (branch c l p k v r) = refl

  entries-blacken : (t : Tree K V) → entries (blacken t) ≡ entries t
  entries-blacken leaf = refl
  entries-blacken (branch c l p k v r) = refl

  occ-blacken : (q : ℕ) (t : Tree K V) → occ q (blacken t) ≡ occ q t
  occ-blacken q leaf = refl
  occ-blacken q (branch c l p k v r) = refl

  pub blacken-black : (t : Tree K V) → red_root t ≡ false → blacken t ≡ t
  blacken-black leaf e = refl
  blacken-black (branch c l p k v r) e = ap (λ i. branch i l p k v r) (sym e)

  -- A place whose tree is short of one black node: its root is red, or it is black and `root` is that
  -- of the map.
  pub record Missing (root : ℕ) (tree : SortedMap K V) (z : Place K V) (t : Tree K V) : Type ℓ where
    pub located : Located tree z t
    pub anchored : Anchored tree t (above z)
    pub balanced : Balanced (blacken t)
    pub short :
        ((red_root t ≡ true) × BalancedAround z (height (blacken t)))
        ⊎ ((red_root t ≡ false) × BalancedAround z (suc (height t)) × (tree.root ≡ root))

  -- A node that is red is painted black, and the loop ends; so does it at the root.
  pub exit_lem :
      (fuel root : ℕ) (tree : SortedMap K V) (z : Place K V) (t : Tree K V)
      → Located tree z t
      → Balanced (blacken t)
      → BalancedAround z (height (blacken t))
      → (addr t ≡ root) ⊎ (red_root t ≡ true)
      → Repaired tree z t (delete_fixup (suc fuel) root tree (addr t))
  unfolding delete_fixup
  exit_lem fuel root tree z t h b outer leaves =
      let (tree', painted, kept, l) = paint_black tree z t h in
      let red = is_red_lem tree (above z) t h.rep in
      let step : delete_fixup (suc fuel) root tree (addr t) ≡ ok tree' = elim leaves [
        | inl e ↦ ground (arith, red, e, painted)
        | inr e ↦ ground (arith, red, e, painted, Bool-cases (addr t == root))
      ] in
      whole (delete_fixup (suc fuel) root tree (addr t)) tree tree' z t (blacken t) step kept
        (record {
          located = l;
          balanced = b;
          outer = outer;
          calm = λ e. absurd (let f = blacken-red_root t in cc);
        })
        (entries-blacken t) (λ q. occ-blacken q t)

  -- The node at an address is black.
  abbrev pub BlackAt : (ℕ → Option (Node K V)) → ℕ → Type ℓ
  BlackAt nodes q = (node : Node K V) × (nodes q ≡ some node) × (node.red ≡ false)

  -- The root above a place is black.
  pub root-BlackAt :
      (nodes : ℕ → Option (Node K V)) (z : Place K V) (n p : ℕ)
      → RepAround nodes z p
      → BalancedAround z n
      → (above_black z ≡ true) ⊎ BlackAt nodes p
      → BlackAt nodes (root_of z p)
  root-BlackAt nodes top n p h b (inl e) = absurd (cc)
  root-BlackAt nodes top n p h b (inr at) = at
  root-BlackAt nodes (below d false q k v s rest) n p h b at =
      root-BlackAt nodes rest (suc n) q h.2.1 b.2.1 (
        inr (
          cell d false k v p (addr s) (above rest),
          h.1,
          cell-red d false k v p (addr s) (above rest),
        ))
  root-BlackAt nodes (below d true q k v s rest) n p h b at =
      root-BlackAt nodes rest n q h.2.1 b.2.1 (inl (b.1 refl).1)

  -- To paint a black node black changes nothing.
  unchanged :
      (tree : SortedMap K V) (root : ℕ) (node : Node K V) (q : ℕ)
      → tree.nodes root ≡ some node
      → (write tree root node).nodes q ≡ tree.nodes q
  unfolding write
  unchanged tree root node q at = elim (ℕ_discrete q root) [
    | yes e ↦ ap (write tree root node).nodes e ∙ ground arith ∙ sym at ∙ ap tree.nodes (sym e)
    | no ne ↦ ground (arith, ne)
  ]

  unchanged-Located :
      (tree : SortedMap K V) (root : ℕ) (node : Node K V) (z : Place K V) (t : Tree K V)
      → tree.nodes root ≡ some node
      → Located tree z t
      → Located (write tree root node) z t
  unfolding write
  unchanged-Located tree root node z t at h = record {
    rep =
        Rep-Agrees tree.nodes (write tree root node).nodes (above z) t
          (λ q o. unchanged tree root node q at) h.rep;
    rep_around =
        RepAround-Agrees tree.nodes (write tree root node).nodes z (addr t)
          (λ q o. unchanged tree root node q at) h.rep_around;
    root = h.root;
    distinct = h.distinct;
  }

  is_red_black :
      (tree : SortedMap K V) (q : ℕ) (node : Node K V)
      → q ≢ 0
      → tree.nodes q ≡ some node
      → node.red ≡ false
      → is_red tree q ≡ ok false
  unfolding is_red
  is_red_black tree q node nonzero at black =
      ground (arith, read_at tree q node nonzero at, nonzero, black)

  paint_again :
      (tree : SortedMap K V) (q : ℕ) (node : Node K V)
      → q ≢ 0
      → tree.nodes q ≡ some node
      → paint tree q false ≡ ok (write tree q (record node { red = false }))
  unfolding paint
  paint_again tree q node nonzero at = ground (arith, read_at tree q node nonzero at, nonzero)

  stay_lem :
      (fuel root : ℕ) (tree : SortedMap K V)
      → root ≢ 0
      → (at : BlackAt tree.nodes root)
      → delete_fixup (suc fuel) root tree root ≡ ok (write tree root at.0)
  unfolding delete_fixup
  stay_lem fuel root tree nonzero (node, at, black) =
      let red = is_red_black tree root node nonzero at black in
      let painted = paint_again tree root node nonzero at in
      let step : delete_fixup (suc fuel) root tree root ≡ paint tree root false =
        ground (arith, red) in
      step ∙ painted ∙ ap (λ i. ok (write tree root (record node { red = i }))) (sym black)

  -- After the last turn, the loop ends at the root that it had at its start.
  pub finish_lem :
      (fuel root : ℕ) (tree : SortedMap K V) (z : Place K V) (c : Bool) (n p : ℕ) (old : Tree K V)
      (run : Result (SortedMap K V × ℕ))
      → root ≢ 0
      → BalancedAround z (raised c n)
      → (c ≡ true → above_black z ≡ true)
      → (f : Finishes root tree z c n p old run) → BlackAt f.tree'.nodes root
      → Repaired tree z old (run >>= (λ out. delete_fixup (suc fuel) root out.0 out.1))
  finish_lem fuel root tree z c n p old run nonzero outer calm f at =
      let tree' : SortedMap K V = write f.tree' root at.0 in
      whole (run >>= (λ out. delete_fixup (suc fuel) root out.0 out.1)) tree tree' z old f.t'
        (ap (λ i. i >>= (λ out. delete_fixup (suc fuel) root out.0 out.1)) f.ends
          ∙ stay_lem fuel root f.tree' nonzero at)
        (Kept-trans tree f.tree' tree' f.kept (write-Kept f.tree' root at.0))
        (record {
          located = unchanged-Located f.tree' root at.0 z f.t' at.1 f.located;
          balanced = f.balanced;
          outer = subst (BalancedAround z) (sym f.same_height) outer;
          calm = λ e. calm (sym f.same_colour ∙ e);
        })
        f.same_entries f.same_occ
