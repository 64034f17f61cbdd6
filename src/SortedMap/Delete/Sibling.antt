-- ===== src/SortedMap/Delete/Sibling.antt =====
-- A turn of the repair after a deletion, by the colour of the sibling.
use python_ctools.Base.{
  ℕ, suc, ◌≡◌, refl, sym, ap, ◌∙◌, Bool, true, false, inl, inr, ◌⊎◌, some, arith, Result, ok,
}
use python_ctools.SortedMap.{SortedMap}
use python_ctools.SortedMap.Store.{Side, left, right, is_red}
use python_ctools.SortedMap.Delete.{delete_black, delete_turn}
use python_ctools.SortedMap.Delete.Turns.{Anchored, Anchored-Kept, sibling_lem}
use python_ctools.SortedMap.Delete.Black.{
  Finishes, Climbs, Levels, finish_far, finish_near, climb_up,
}
use python_ctools.SortedMap.Tree.{
  Tree, leaf, branch, Place, below, addr, red_root, above, grow, cell, Located,
}
use python_ctools.SortedMap.Tree.Frame.{down-Located}
use python_ctools.SortedMap.Tree.Links.{read_at, child-far}
use python_ctools.SortedMap.Tree.Grow.{grow-parts, addr-grow, Kept, Kept-trans}
use python_ctools.SortedMap.Tree.Turn.{rotate_lem}
use python_ctools.SortedMap.Tree.Balance.{height, red_root-grow}
use python_ctools.SortedMap.Tree.Focus.{is_red_lem, paint_lem, paint_far}

module _ {ℓ} {K V : Type ℓ} where
  -- A turn finishes, or climbs.
  abbrev pub Turns :
      ℕ → SortedMap K V → Place K V → Bool → ℕ → ℕ → Tree K V → Result (SortedMap K V × ℕ) → Type ℓ
  Turns root tree z c n p old run = Finishes root tree z c n p old run ⊎ Climbs tree z c n p old run

  delete_black_near :
      (root : ℕ) (tree : SortedMap K V) (z : Place K V) (d : Side) (c : Bool) (t : Tree K V) (p : ℕ)
      (kp : K) (vp : V) (b : Tree K V) (q : ℕ) (kq : K) (vq : V) (e : Tree K V)
      → Anchored tree t p
      → red_root e ≡ false
      → Levels t b e
      → Located tree z (grow d c t p kp vp (grow d false b q kq vq e))
      → Turns root tree z c
          (suc (height t))
          p
          (grow d c t p kp vp (grow d false b q kq vq e))
          (delete_black d root tree (addr t) q)
  delete_black_near root tree z d c t p kp vp leaf q kq vq e anchored far lev h =
      inr (climb_up root tree z d c t p kp vp anchored leaf q kq vq e refl far lev h)
  delete_black_near root tree z d c t p kp vp (branch false l s k v r) q kq vq e anchored far lev
        h =
      inr (
        climb_up root tree z d c t p kp vp anchored (branch false l s k v r) q kq vq e refl far lev
          h)
  delete_black_near root tree z left c t p kp vp (branch true l s k v r) q kq vq e anchored far lev
        h =
      inl (finish_near root tree z left c t p kp vp anchored l s k v r q kq vq e far lev h)
  delete_black_near root tree z right c t p kp vp (branch true l s k v r) q kq vq e anchored far lev
        h =
      inl (finish_near root tree z right c t p kp vp anchored r s k v l q kq vq e far lev h)

  pub delete_black_lem :
      (root : ℕ) (tree : SortedMap K V) (z : Place K V) (d : Side) (c : Bool) (t : Tree K V) (p : ℕ)
      (kp : K) (vp : V) (b : Tree K V) (q : ℕ) (kq : K) (vq : V) (e : Tree K V)
      → Anchored tree t p
      → Levels t b e
      → Located tree z (grow d c t p kp vp (grow d false b q kq vq e))
      → Turns root tree z c
          (suc (height t))
          p
          (grow d c t p kp vp (grow d false b q kq vq e))
          (delete_black d root tree (addr t) q)
  delete_black_lem root tree z d c t p kp vp b q kq vq (branch true l s k v r) anchored lev h =
      inl (finish_far root tree z d c t p kp vp anchored b q kq vq l s k v r lev h)
  delete_black_lem root tree z d c t p kp vp b q kq vq leaf anchored lev h =
      delete_black_near root tree z d c t p kp vp b q kq vq leaf anchored refl lev h
  delete_black_lem root tree z d c t p kp vp b q kq vq (branch false l s k v r) anchored lev h =
      delete_black_near root tree z d c t p kp vp b q kq vq (branch false l s k v r) anchored refl
        lev h

  -- With a black sibling the turn is that of the black cases.
  pub black_turn :
      (root : ℕ) (tree : SortedMap K V) (z : Place K V) (d : Side) (c : Bool) (t : Tree K V) (p : ℕ)
      (kp : K) (vp : V) (w : Tree K V)
      → red_root w ≡ false
      → Located tree z (grow d c t p kp vp w)
      → delete_turn d root tree (addr t) p ≡ delete_black d root tree (addr t) (addr w)
  unfolding delete_turn
  black_turn root tree z d c t p kp vp w black h =
      let parts = grow-parts tree.nodes d c t p kp vp w (above z) h.rep in
      ground (
        arith,
        read_at tree p (cell d c kp vp (addr t) (addr w) (above z)) parts.0 parts.1,
        child-far d c kp vp (addr t) (addr w) (above z),
        is_red_lem tree p w parts.2.1,
        black,
      )

  -- A red sibling is rotated up first; then the sibling is its near child, and black.
  pub red_turn :
      (root : ℕ) (tree : SortedMap K V) (z : Place K V) (d : Side) (t : Tree K V) (p : ℕ) (kp : K)
      (vp : V) (b : Tree K V) (q : ℕ) (kq : K) (vq : V) (e : Tree K V)
      → Anchored tree t p
      → Located tree z (grow d false t p kp vp (grow d true b q kq vq e))
      → (tree' : SortedMap K V) × (delete_turn d root tree (addr t) p
          ≡ delete_black d root tree' (addr t) (addr b))
        × Kept tree tree'
        × Located tree' (below d false q kq vq e z) (grow d true t p kp vp b)
  unfolding delete_turn
  red_turn root tree z d t p kp vp b q kq vq e anchored h =
      let w = grow d true b q kq vq e in
      let parts = grow-parts tree.nodes d false t p kp vp w (above z) h.rep in
      let at_q = addr-grow d true b q kq vq e in
      let (tree1, paint1, kept1, l1) =
        paint_far tree z d false t p kp vp d true false b q kq vq e h in
      let (tree2, paint2, kept2, l2) =
        paint_lem tree1 z d false true t p kp vp (grow d false b q kq vq e) l1 in
      let (tree3, turned, kept3, l3) = rotate_lem d tree2 z true t p kp vp false b q kq vq e l2 in
      let kept = Kept-trans tree tree1 tree3 kept1 (Kept-trans tree1 tree2 tree3 kept2 kept3) in
      let down = down-Located tree3 d false q kq vq e (grow d true t p kp vp b) z l3 in
      let next =
        sibling_lem tree3 (below d false q kq vq e z) d true t p kp vp b
          (Anchored-Kept tree tree3 t p kept anchored) down in
      let red_w : is_red tree (addr w) ≡ ok true =
        is_red_lem tree p w parts.2.1 ∙ ap ok (red_root-grow d true b q kq vq e) in
      let red_q : is_red tree q ≡ ok true = sym (ap (is_red tree) at_q) ∙ red_w in
      let there =
        read_at tree p (cell d false kp vp (addr t) q (above z)) parts.0
          (parts.1 ∙ ap (λ i. some (cell d false kp vp (addr t) i (above z))) at_q) in
      (
        tree3,
        ground (
          arith,
          there,
          child-far d false kp vp (addr t) q (above z),
          red_q,
          paint1,
          paint2,
          turned,
          next,
        ),
        kept,
        down,
      )
