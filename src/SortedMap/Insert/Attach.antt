-- ===== src/SortedMap/Insert/Attach.antt =====
-- A new node in an empty place, and the repair of the whole tree.
use python_ctools.Base.{
  ℕ, suc, ◌+◌, ◌≤◌, ◌<◌, ◌≡◌, ◌≢◌, refl, ap, ◌∙◌, true, false, none, ◌==◌, if◌then◌else◌, arith, ok,
  ◌>>=◌, ℕ_discrete,
}
use python_ctools.SortedMap.{Order, SortedMap}
use python_ctools.SortedMap.Store.{left, right, write, paint}
use python_ctools.SortedMap.Insert.{attach, insert_fix}
use python_ctools.SortedMap.Insert.Descend.{Fits}
use python_ctools.SortedMap.Insert.Loop.{loop_lem}
use python_ctools.SortedMap.Tree.{
  Tree, leaf, branch, Place, top, below, addr, red_root, above, entries, around, count_around,
  occ_around, cell, RepAround, Located,
}
use python_ctools.SortedMap.Tree.Frame.{occ_around-free, RepAround-Agrees}
use python_ctools.SortedMap.Tree.Links.{
  write-off, relink, relink-off, relink-RepAround, relink-root, set_child_near,
}
use python_ctools.SortedMap.Tree.Balance.{height, Balanced, BalancedAround}
use python_ctools.SortedMap.Tree.Focus.{paint_lem}
use python_ctools.SortedMap.Tree.Grow.{Kept, Kept-refl, Kept-trans, write-Kept, relink-Kept}

-- An address that was nowhere is counted once.
counted_once :
    (q x : ℕ) (f : ℕ → ℕ) → f x ≡ 0 → f q ≤ 1 → 0 + (if q == x then 1 else 0) + 0 + f q ≤ 1
counted_once q x f absent once = elim (ℕ_discrete q x) [
  | yes e ↦ let g : f q ≡ 0 = ap f e ∙ absent in ground (arith, g)
  | no ne ↦ ground (arith, ne, once)
]

-- Where an address is not counted, what is counted is another.
counted_ne : (q x : ℕ) (f : ℕ → ℕ) → f x ≡ 0 → 0 < f q → q ≢ x
counted_ne q x f absent there e = let g : f q ≡ 0 = ap f e ∙ absent in omega (arith, g)

module _ {ℓ} {K V : Type ℓ} where
  blacken_lem :
      (tree : SortedMap K V) (t : Tree K V)
      → Located tree top t
      → Balanced t
      → (tree' : SortedMap K V) × (t' : Tree K V) × (paint tree tree.root false ≡ ok tree')
        × Kept tree tree'
        × Located tree' top t'
        × Balanced t'
        × (red_root t' ≡ false)
        × (entries t' ≡ entries t)
  unfolding paint
  blacken_lem tree leaf l b = (tree, leaf, ground (arith, l.root), Kept-refl tree, l, b, refl, refl)
  blacken_lem tree (branch c a p k v r) l b =
      let (tree', painted, kept, l') = paint_lem tree top left c false a p k v r l in
      (
        tree',
        branch false a p k v r,
        ap (λ i. paint tree i false) l.root ∙ painted,
        kept,
        l',
        (b.0, λ e. absurd (cc), b.2),
        refl,
        refl,
      )

  -- After the repair the whole tree satisfies the red-black conditions.
  pub insert_fix_lem :
      (tree : SortedMap K V) (z : Place K V) (t : Tree K V)
      → count_around z ≤ tree.size
      → red_root t ≡ true
      → Located tree z t
      → Balanced t
      → BalancedAround z (height t)
      → (tree' : SortedMap K V) × (t' : Tree K V) × (insert_fix tree (addr t) ≡ ok tree')
        × Kept tree tree'
        × Located tree' top t'
        × Balanced t'
        × (red_root t' ≡ false)
        × (entries t' ≡ around z (entries t))
  unfolding insert_fix
  insert_fix_lem tree z t enough red h b outer =
      let r = loop_lem (suc tree.size) tree z t (omega arith) red h b outer in
      let (tree', t', painted, kept, l, b', black, equal) =
        blacken_lem r.tree' r.t' r.located r.balanced in
      (
        tree',
        t',
        ap (λ i. i >>= (λ tree1. paint tree1 tree1.root false)) r.ends ∙ painted,
        Kept-trans tree r.tree' tree' r.kept kept,
        l,
        b',
        black,
        equal ∙ r.same_entries,
      )

  -- An empty place is linked from the node above it.
  attach-relink :
      (new : SortedMap K V) (z : Place K V) (flag : Order) (x : ℕ)
      → RepAround new.nodes z 0
      → Fits flag z
      → attach new (above z) flag x ≡ ok (relink new z x)
  unfolding attach
  attach-relink new top flag x h fits = refl
  attach-relink new (below left c p k v s rest) flag x h fits =
      ground (arith, h.0, fits, set_child_near new left c k v 0 (addr s) (above rest) p x h.0 h.1)
  attach-relink new (below right c p k v s rest) flag x h fits =
      ground (arith, h.0, fits, set_child_near new right c k v 0 (addr s) (above rest) p x h.0 h.1)

  pub attach_lem :
      (tree : SortedMap K V) (z : Place K V) (flag : Order) (x : ℕ) (key : K) (value : V)
      → x ≢ 0
      → tree.nodes x ≡ none
      → Located tree z leaf
      → Fits flag z
      → (tree' : SortedMap K V) × (attach
            (write tree x (cell left true key value 0 0 (above z)))
            (above z)
            flag
            x
          ≡ ok tree')
        × Kept tree tree'
        × Located tree' z (branch true leaf x key value leaf)
  unfolding write
  attach_lem tree z flag x key value nonzero free l fits =
      let new : SortedMap K V = write tree x (cell left true key value 0 0 (above z)) in
      let absent : occ_around x z ≡ 0 = occ_around-free tree.nodes x z 0 l.rep_around free in
      let outer : RepAround new.nodes z 0 =
        RepAround-Agrees tree.nodes new.nodes z 0
          (λ q o.
            write-off tree x (cell left true key value 0 0 (above z)) q
              (counted_ne q x (λ i. occ_around i z) absent o))
          l.rep_around in
      (
        relink new z x,
        attach-relink new z flag x outer fits,
        Kept-trans tree new (relink new z x)
            (write-Kept tree x (cell left true key value 0 0 (above z))) (relink-Kept new z x),
        record {
          rep = (nonzero, relink-off new z x x absent ∙ ground arith, (tt, tt));
          rep_around = relink-RepAround new z 0 x (λ q. omega (arith, l.distinct q)) outer;
          root = relink-root new z 0 x l.root;
          distinct =
              λ q. counted_once q x (λ i. occ_around i z) absent (omega (arith, l.distinct q));
        },
      )
