-- ===== src/SortedMap/Delete/Steps.antt =====
-- The steps of the repair after a deletion, given that it succeeds from the next place on.
use python_ctools.Base.{
  ℕ, suc, ◌+◌, ◌<◌, ◌≡◌, ◌≢◌, refl, sym, ap, subst, ◌∙◌, Bool, true, false, inl, inr, Option, arith,
  Result, ◌>>=◌,
}
use python_ctools.SortedMap.{Node, SortedMap}
use python_ctools.SortedMap.Store.{Side}
use python_ctools.SortedMap.Delete.{delete_turn, delete_fixup}
use python_ctools.SortedMap.Delete.Turns.{Anchored, parent_lem}
use python_ctools.SortedMap.Delete.Black.{Climbs, Levels, cell-red}
use python_ctools.SortedMap.Delete.Sibling.{Turns}
use python_ctools.SortedMap.Delete.Loop.{
  Repaired, Missing, BlackAt, root-BlackAt, finish_lem, blacken-black,
}
use python_ctools.SortedMap.Tree.{
  Tree, leaf, branch, Place, top, below, addr, red_root, above, grow, entries, around, count_around,
  occ, occ_around, cell, RepAround, root_of, Located,
}
use python_ctools.SortedMap.Tree.Frame.{root-counted}
use python_ctools.SortedMap.Tree.Links.{read_at, pick_side}
use python_ctools.SortedMap.Tree.Grow.{
  grow-parts, addr-grow, occ-addr, occ-grow, near_of, far_of, near_of_both, far_of_both, Kept,
  Kept-trans,
}
use python_ctools.SortedMap.Tree.Balance.{raised, height, Balanced, above_black, BalancedAround}
use python_ctools.SortedMap.Tree.Rotate.{one_if}
use python_ctools.SortedMap.Tree.Focus.{is_red_lem}

-- The repair succeeds with this fuel, from every place of less depth.
abbrev pub Repairs {ℓ} : (K V : Type ℓ) → ℕ → ℕ → Type ℓ
Repairs K V fuel root =
    (tree : SortedMap K V) (z : Place K V) (t : Tree K V)
    → suc (count_around z) < fuel
    → Missing root tree z t
    → Repaired tree z t (delete_fixup fuel root tree (addr t))

module _ {ℓ} {K V : Type ℓ} where
  pub carry :
      (tree tree' : SortedMap K V) (z z' : Place K V) (t t' : Tree K V)
      (run run' : Result (SortedMap K V))
      → Repaired tree' z' t' run'
      → Kept tree tree'
      → run ≡ run'
      → around z' (entries t') ≡ around z (entries t)
      → ((q : ℕ) → occ q t' + occ_around q z' ≡ occ q t + occ_around q z)
      → Repaired tree z t run
  carry tree tree' z z' t t' run run' r kept e same once = record {
    tree' = r.tree';
    t' = r.t';
    ends = e ∙ r.ends;
    kept = Kept-trans tree tree' r.tree' kept r.kept;
    located = r.located;
    balanced = r.balanced;
    black = r.black;
    same_entries = r.same_entries ∙ same;
    same_occ = λ q. r.same_occ q ∙ once q;
  }

  climbed :
      (root : ℕ) (tree : SortedMap K V) (z : Place K V) (c : Bool) (n p : ℕ) (old : Tree K V)
      (run : Result (SortedMap K V × ℕ))
      → p ≢ 0
      → BalancedAround z (raised c n)
      → (c ≡ false → root ≡ root_of z p)
      → (m : Climbs tree z c n p old run) → Missing root m.tree' z m.t'
  climbed root tree z true n p old run nonzero outer at_root m = record {
    located = m.located;
    anchored = λ e. absurd (nonzero (sym m.same_address ∙ e));
    balanced = m.balanced;
    short = inl (m.same_colour, subst (BalancedAround z) (sym m.black_height) outer);
  }
  climbed root tree z false n p old run nonzero outer at_root m = record {
    located = m.located;
    anchored = λ e. absurd (nonzero (sym m.same_address ∙ e));
    balanced = m.balanced;
    short = inr (
      m.same_colour,
      subst (BalancedAround z)
          (sym (ap suc (sym (ap height (blacken-black m.t' m.same_colour)) ∙ m.black_height)))
          outer,
      m.located.root ∙ ap (root_of z) m.same_address ∙ sym (at_root refl),
    );
  }

  pub after_turn :
      (fuel root : ℕ) (tree : SortedMap K V) (z : Place K V) (c : Bool) (n p : ℕ) (old : Tree K V)
      (run : Result (SortedMap K V × ℕ))
      → Repairs K V (suc fuel) root
      → suc (count_around z) < suc fuel
      → root ≢ 0
      → p ≢ 0
      → BalancedAround z (raised c n)
      → (c ≡ true → above_black z ≡ true)
      → (c ≡ false → root ≡ root_of z p)
      → ((tree' : SortedMap K V) (t' : Tree K V)
          → Located tree' z t'
          → BlackAt tree'.nodes p
          → BlackAt tree'.nodes root)
      → Turns root tree z c n p old run
      → Repaired tree z old (run >>= (λ out. delete_fixup (suc fuel) root out.0 out.1))
  after_turn fuel root tree z c n p old run repairs enough root_there there outer calm at_root stale
        (inl f) =
      finish_lem fuel root tree z c n p old run root_there outer calm f
        (stale f.tree' f.t' f.located f.black_node)
  after_turn fuel root tree z c n p old run repairs enough root_there there outer calm at_root stale
        (inr m) =
      let rec =
        repairs m.tree' z m.t' enough (climbed root tree z c n p old run there outer at_root m) in
      carry tree m.tree' z z old m.t' (run >>= (λ out. delete_fixup (suc fuel) root out.0 out.1))
        (delete_fixup (suc fuel) root m.tree' (addr m.t')) rec m.kept
        (ap (λ i. i >>= (λ out. delete_fixup (suc fuel) root out.0 out.1)) m.ends
          ∙ ap (delete_fixup (suc fuel) root m.tree') (sym m.same_address))
        (ap (around z) m.same_entries) (λ q. omega (arith, m.same_occ q))

  pub fixup_step :
      (fuel root : ℕ) (tree : SortedMap K V) (rest : Place K V) (d : Side) (c : Bool) (t : Tree K V)
      (p : ℕ) (kp : K) (vp : V) (w : Tree K V)
      → Anchored tree t p
      → red_root t ≡ false
      → addr t ≢ root
      → addr t ≢ addr w
      → Located tree rest (grow d c t p kp vp w)
      → delete_fixup (suc fuel) root tree (addr t)
        ≡ (delete_turn d root tree (addr t) p >>= (λ out. delete_fixup fuel root out.0 out.1))
  unfolding delete_fixup
  fixup_step fuel root tree rest d c t p kp vp w anchored black not_root apart h =
      let parts = grow-parts tree.nodes d c t p kp vp w (above rest) h.rep in
      let red = is_red_lem tree p t parts.2.0 in
      let there = read_at tree p (cell d c kp vp (addr t) (addr w) (above rest)) parts.0 parts.1 in
      ground (
        arith,
        red,
        black,
        not_root,
        parent_lem tree p t parts.2.0 anchored,
        there,
        pick_side d kp vp (addr t) (addr w) (above rest) c apart,
      )

  pub root_of-nonzero :
      (nodes : ℕ → Option (Node K V)) (z : Place K V) (p : ℕ)
      → p ≢ 0
      → RepAround nodes z p
      → root_of z p ≢ 0
  root_of-nonzero nodes top p there h = there
  root_of-nonzero nodes (below d c q k v s rest) p there h = root_of-nonzero nodes rest q h.0 h.2.1

  -- A tree that is not as high as its sibling has another root.
  pub roots-apart :
      (tree : SortedMap K V) (rest : Place K V) (d : Side) (c : Bool) (t : Tree K V) (p : ℕ)
      (kp : K) (vp : V) (w : Tree K V)
      → height w ≡ suc (height t)
      → Located tree rest (grow d c t p kp vp w)
      → addr t ≢ addr w
  roots-apart tree rest d c t p kp vp leaf level h = absurd (omega (arith, level))
  roots-apart tree rest d c t p kp vp (branch cw l q kq vq r) level h = λ e.
      let parts = grow-parts tree.nodes d c t p kp vp (branch cw l q kq vq r) (above rest) h.rep in
      let there : addr t ≢ 0 = λ f. parts.2.1.0 (sym e ∙ f) in
      omega (
        arith,
        h.distinct q,
        occ-grow q d c t p kp vp (branch cw l q kq vq r),
        subst (λ i. 0 < occ i t) e (occ-addr t there),
        one_if q q refl,
      )

  pub not-root :
      (tree : SortedMap K V) (z : Place K V) (d : Side) (c : Bool) (t : Tree K V) (p : ℕ) (kp : K)
      (vp : V) (w : Tree K V)
      → Located tree z (grow d c t p kp vp w)
      → addr t ≢ tree.root
  not-root tree z d c t p kp vp w h e =
      let at_p = addr-grow d c t p kp vp w in
      let parts = grow-parts tree.nodes d c t p kp vp w (above z) h.rep in
      let r : addr t ≡ root_of z p = e ∙ h.root ∙ ap (root_of z) at_p in
      let nonzero =
        root_of-nonzero tree.nodes z p parts.0 (subst (RepAround tree.nodes z) at_p h.rep_around) in
      let there : addr t ≢ 0 = λ f. nonzero (sym r ∙ f) in
      omega (
        arith,
        h.distinct (root_of z p),
        occ-grow (root_of z p) d c t p kp vp w,
        root-counted z p,
        subst (λ i. 0 < occ i t) r (occ-addr t there),
      )

  -- The root at the start is black after the turn, be it at `p` or further up.
  pub stale_lem :
      (nodes : ℕ → Option (Node K V)) (rest : Place K V) (n hole p : ℕ)
      → RepAround nodes rest hole
      → BalancedAround rest n
      → BlackAt nodes p
      → BlackAt nodes (root_of rest p)
  stale_lem nodes top n hole p h b at = at
  stale_lem nodes (below d false q k v s rest) n hole p h b at =
      root-BlackAt nodes rest (suc n) q h.2.1 b.2.1 (
        inr (
          cell d false k v hole (addr s) (above rest),
          h.1,
          cell-red d false k v hole (addr s) (above rest),
        ))
  stale_lem nodes (below d true q k v s rest) n hole p h b at =
      root-BlackAt nodes rest n q h.2.1 b.2.1 (inl (b.1 refl).1)

  pub levels_lem :
      (d : Side) (t l r : Tree K V)
      → height l ≡ height t
      → height r ≡ height t
      → Balanced t
      → Balanced l
      → Balanced r
      → Levels t (near_of d l r) (far_of d l r)
  levels_lem d t l r lh rh tb lb rb = record {
    near_height = near_of_both (λ i. height i ≡ height t) d l r lh rh;
    far_height = far_of_both (λ i. height i ≡ height t) d l r lh rh;
    t_balanced = tb;
    b_balanced = near_of_both Balanced d l r lb rb;
    e_balanced = far_of_both Balanced d l r lb rb;
  }
