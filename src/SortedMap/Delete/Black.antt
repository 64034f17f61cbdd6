-- ===== src/SortedMap/Delete/Black.antt =====
-- A turn of the repair after a deletion, with a black sibling: it is the last, or one black node is
-- missing one level up.
use python_ctools.Base.{
  ℕ, suc, ◌≡◌, refl, sym, ap, subst, ◌∙◌, Bool, true, false, some, arith, Result, ok, ◌>>=◌,
}
use python_ctools.SortedMap.{Node, SortedMap}
use python_ctools.SortedMap.Store.{Side, left, right, get_parent, paint}
use python_ctools.SortedMap.Delete.{delete_end, delete_near, delete_black}
use python_ctools.SortedMap.Delete.Turns.{
  Anchored, Anchored-Kept, parent_lem, delete_end_lem, delete_near_lem,
}
use python_ctools.SortedMap.Tree.{
  Tree, branch, Place, addr, red_root, above, grow, entries, occ, cell, Located,
}
use python_ctools.SortedMap.Tree.Links.{read_at, child-near, child-far}
use python_ctools.SortedMap.Tree.Grow.{grow-parts, addr-grow, occ-grow, entries-grow, Kept}
use python_ctools.SortedMap.Tree.Turn.{entries-turn}
use python_ctools.SortedMap.Tree.Balance.{
  raised, height, Balanced, blacken, blacken-grow, height-grow, red_root-grow, grow-Balanced,
  Balanced-parts,
}
use python_ctools.SortedMap.Tree.Focus.{is_red_lem, paint_far}

module _ {ℓ} {K V : Type ℓ} where
  -- The turn is the last: it restores the height `n` of the tree in the place, whose root keeps its
  -- colour, and paints `p` black.
  pub record Finishes (root : ℕ) (tree : SortedMap K V) (z : Place K V) (c : Bool) (n p : ℕ)
      (old : Tree K V) (run : Result (SortedMap K V × ℕ)) : Type ℓ where
    pub tree' : SortedMap K V
    pub t' : Tree K V
    pub ends : run ≡ ok (tree', root)
    pub kept : Kept tree tree'
    pub located : Located tree' z t'
    pub balanced : Balanced t'
    pub same_height : height t' ≡ raised c n
    pub same_colour : red_root t' ≡ c
    pub black_node : (node : Node K V) × (tree'.nodes p ≡ some node) × (node.red ≡ false)
    pub same_entries : entries t' ≡ entries old
    pub same_occ : (q : ℕ) → occ q t' ≡ occ q old

  -- The tree in the place is short of one black node, which its root can be.
  pub record Climbs (tree : SortedMap K V) (z : Place K V) (c : Bool) (n p : ℕ) (old : Tree K V)
      (run : Result (SortedMap K V × ℕ)) : Type ℓ where
    pub tree' : SortedMap K V
    pub t' : Tree K V
    pub ends : run ≡ ok (tree', p)
    pub kept : Kept tree tree'
    pub located : Located tree' z t'
    pub same_address : addr t' ≡ p
    pub same_colour : red_root t' ≡ c
    pub balanced : Balanced (blacken t')
    pub black_height : height (blacken t') ≡ n
    pub same_entries : entries t' ≡ entries old
    pub same_occ : (q : ℕ) → occ q t' ≡ occ q old

  -- the heights before the turn
  pub record Levels (t b e : Tree K V) : Type ℓ where
    pub near_height : height b ≡ height t
    pub far_height : height e ≡ height t
    pub t_balanced : Balanced t
    pub b_balanced : Balanced b
    pub e_balanced : Balanced e

  pub cell-red : (d : Side) (c : Bool) (k : K) (v : V) (a b p : ℕ) → (cell d c k v a b p).red ≡ c
  cell-red left c k v a b p = refl
  cell-red right c k v a b p = refl

  -- the node `p` near the root of a tree in the place
  black_below :
      (tree : SortedMap K V) (z : Place K V) (d : Side) (c : Bool) (t : Tree K V) (p : ℕ) (kp : K)
      (vp : V) (b : Tree K V) (q : ℕ) (kq : K) (vq : V) (e : Tree K V)
      → Located tree z (grow d c (grow d false t p kp vp b) q kq vq e)
      → (node : Node K V) × (tree.nodes p ≡ some node) × (node.red ≡ false)
  black_below tree z d c t p kp vp b q kq vq e h =
      let outer = grow-parts tree.nodes d c (grow d false t p kp vp b) q kq vq e (above z) h.rep in
      let inner = grow-parts tree.nodes d false t p kp vp b q outer.2.0 in
      (cell d false kp vp (addr t) (addr b) q, inner.1, cell-red d false kp vp (addr t) (addr b) q)

  module _ (root : ℕ) (tree : SortedMap K V) (z : Place K V) (d : Side) (c : Bool) (t : Tree K V)
      (p : ℕ) (kp : K) (vp : V) (anchored : Anchored tree t p) where
    black_step :
        (b : Tree K V) (q : ℕ) (kq : K) (vq : V) (e : Tree K V)
        → Located tree z (grow d c t p kp vp (grow d false b q kq vq e))
        → delete_black d root tree (addr t) q
          ≡ elim (red_root e) as (λ _. Result (SortedMap K V × ℕ)) [
            | true ↦ delete_end d root tree (addr t) q
            | false ↦ elim (red_root b) as (λ _. Result (SortedMap K V × ℕ)) [
              | true ↦ delete_near d root tree (addr t) q
              | false ↦
                  paint tree q true
                  >>= (λ tree1. get_parent tree1 (addr t) >>= (λ parent. ok (tree1, parent)))
            ]
          ]
    unfolding delete_black
    black_step b q kq vq e h =
        let low = grow d false b q kq vq e in
        let outer = grow-parts tree.nodes d c t p kp vp low (above z) h.rep in
        let inner = grow-parts tree.nodes d false b q kq vq e p outer.2.1 in
        ground (
          arith,
          read_at tree q (cell d false kq vq (addr b) (addr e) p) inner.0 inner.1,
          child-near d false kq vq (addr b) (addr e) p,
          child-far d false kq vq (addr b) (addr e) p,
          is_red_lem tree q b inner.2.0,
          is_red_lem tree q e inner.2.1,
        )

    pub finish_far :
        (b : Tree K V) (q : ℕ) (kq : K) (vq : V) (l : Tree K V) (s : ℕ) (ks : K) (vs : V)
        (r : Tree K V)
        → Levels t b (branch true l s ks vs r)
        → Located tree z (grow d c t p kp vp (grow d false b q kq vq (branch true l s ks vs r)))
        → Finishes root tree z c
            (suc (height t))
            p
            (grow d c t p kp vp (grow d false b q kq vq (branch true l s ks vs r)))
            (delete_black d root tree (addr t) q)
    finish_far b q kq vq l s ks vs r lev h =
        let (tree', ended, kept, l') =
          delete_end_lem root tree z d left c t p kp vp b q kq vq l s ks vs r anchored h in
        let near = grow d false t p kp vp b in
        let far = branch false l s ks vs r in
        let near_height : height near ≡ suc (height t) =
          height-grow d false t p kp vp b (sym lev.near_height) in
        let level : height near ≡ height far = near_height ∙ ap suc (sym lev.far_height) in
        let eb = lev.e_balanced in
        record {
          tree' = tree';
          t' = grow d c near q kq vq far;
          ends = black_step b q kq vq (branch true l s ks vs r) h ∙ ended;
          kept = kept;
          located = l';
          balanced = grow-Balanced d c near q kq vq far (
            level,
            λ e. (red_root-grow d false t p kp vp b, refl),
            (
              grow-Balanced d false t p kp vp b
                  (sym lev.near_height, λ e. absurd (cc), (lev.t_balanced, lev.b_balanced)),
              (eb.0, λ e. absurd (cc), eb.2),
            ),
          );
          same_height = height-grow d c near q kq vq far level ∙ ap (raised c) near_height;
          same_colour = red_root-grow d c near q kq vq far;
          black_node = black_below tree' z d c t p kp vp b q kq vq far l';
          same_entries =
              entries-turn d c false false c t p kp vp b q kq vq far
              ∙ entries-grow d c c t t p kp vp (grow d false b q kq vq far)
                  (grow d false b q kq vq (branch true l s ks vs r)) refl
                  (entries-grow d false false b b q kq vq far (branch true l s ks vs r) refl refl);
          same_occ = λ i. omega (
            arith,
            occ-grow i d c near q kq vq far,
            occ-grow i d false t p kp vp b,
            occ-grow i d c t p kp vp (grow d false b q kq vq (branch true l s ks vs r)),
            occ-grow i d false b q kq vq (branch true l s ks vs r),
          );
        }

    pub finish_near :
        (a : Tree K V) (r : ℕ) (kr : K) (vr : V) (b : Tree K V) (q : ℕ) (kq : K) (vq : V)
        (e : Tree K V)
        → red_root e ≡ false
        → Levels t (grow d true a r kr vr b) e
        → Located tree z (grow d c t p kp vp (grow d false (grow d true a r kr vr b) q kq vq e))
        → Finishes root tree z c
            (suc (height t))
            p
            (grow d c t p kp vp (grow d false (grow d true a r kr vr b) q kq vq e))
            (delete_black d root tree (addr t) q)
    finish_near a r kr vr b q kq vq e far_black lev h =
        let low = grow d true a r kr vr b in
        let (tree', ended, kept, l') =
          delete_near_lem root tree z d c t p kp vp a r kr vr b q kq vq e anchored h in
        let parts = Balanced-parts d true a r kr vr b lev.b_balanced in
        let a_height : height a ≡ height t =
          sym (height-grow d true a r kr vr b parts.0) ∙ lev.near_height in
        let near = grow d false t p kp vp a in
        let far = grow d false b q kq vq e in
        let near_height : height near ≡ suc (height t) =
          height-grow d false t p kp vp a (sym a_height) in
        let b_height : height b ≡ height e = sym parts.0 ∙ a_height ∙ sym lev.far_height in
        let far_height : height far ≡ suc (height t) =
          height-grow d false b q kq vq e b_height ∙ ap suc (b_height ∙ lev.far_height) in
        let level : height near ≡ height far = near_height ∙ sym far_height in
        let red_low : red_root low ≡ true = red_root-grow d true a r kr vr b in
        let step = black_step low q kq vq e h in
        record {
          tree' = tree';
          t' = grow d c near r kr vr far;
          ends = ground (arith, step, far_black, red_low, ended);
          kept = kept;
          located = l';
          balanced = grow-Balanced d c near r kr vr far (
            level,
            λ i. (red_root-grow d false t p kp vp a, red_root-grow d false b q kq vq e),
            (
              grow-Balanced d false t p kp vp a
                  (sym a_height, λ e. absurd (cc), (lev.t_balanced, parts.2.0)),
              grow-Balanced d false b q kq vq e
                  (b_height, λ e. absurd (cc), (parts.2.1, lev.e_balanced)),
            ),
          );
          same_height = height-grow d c near r kr vr far level ∙ ap (raised c) near_height;
          same_colour = red_root-grow d c near r kr vr far;
          black_node = black_below tree' z d c t p kp vp a r kr vr far l';
          same_entries =
              entries-turn d c true false c t p kp vp a r kr vr far
              ∙ entries-grow d c c t t p kp vp (grow d true a r kr vr far)
                  (grow d false low q kq vq e) refl
                  (sym (entries-turn d true false true false a r kr vr b q kq vq e));
          same_occ = λ i. omega (
            arith,
            occ-grow i d c near r kr vr far,
            occ-grow i d false t p kp vp a,
            occ-grow i d false b q kq vq e,
            occ-grow i d c t p kp vp (grow d false low q kq vq e),
            occ-grow i d false low q kq vq e,
            occ-grow i d true a r kr vr b,
          );
        }

    pub climb_up :
        (b : Tree K V) (q : ℕ) (kq : K) (vq : V) (e : Tree K V)
        → red_root b ≡ false
        → red_root e ≡ false
        → Levels t b e
        → Located tree z (grow d c t p kp vp (grow d false b q kq vq e))
        → Climbs tree z c
            (suc (height t))
            p
            (grow d c t p kp vp (grow d false b q kq vq e))
            (delete_black d root tree (addr t) q)
    climb_up b q kq vq e near_black far_black lev h =
        let (tree', painted, kept, l') =
          paint_far tree z d c t p kp vp d false true b q kq vq e h in
        let low = grow d true b q kq vq e in
        let parts = grow-parts tree'.nodes d c t p kp vp low (above z) l'.rep in
        let parent = parent_lem tree' p t parts.2.0 (Anchored-Kept tree tree' t p kept anchored) in
        let b_height : height b ≡ height e = lev.near_height ∙ sym lev.far_height in
        let low_height : height low ≡ height t =
          height-grow d true b q kq vq e b_height ∙ lev.near_height in
        let step = black_step b q kq vq e h in
        let black = blacken-grow d c t p kp vp low in
        record {
          tree' = tree';
          t' = grow d c t p kp vp low;
          ends = ground (arith, step, far_black, near_black, painted, parent);
          kept = kept;
          located = l';
          same_address = addr-grow d c t p kp vp low;
          same_colour = red_root-grow d c t p kp vp low;
          balanced = subst Balanced (sym black) (
              grow-Balanced d false t p kp vp low (
                sym low_height,
                λ e. absurd (cc),
                (
                  lev.t_balanced,
                  grow-Balanced d true b q kq vq e
                      (b_height, λ i. (near_black, far_black), (lev.b_balanced, lev.e_balanced)),
                ),
              ));
          black_height = ap height black ∙ height-grow d false t p kp vp low (sym low_height);
          same_entries =
              entries-grow d c c t t p kp vp low (grow d false b q kq vq e) refl
                (entries-grow d true false b b q kq vq e e refl refl);
          same_occ = λ i. omega (
            arith,
            occ-grow i d c t p kp vp low,
            occ-grow i d true b q kq vq e,
            occ-grow i d c t p kp vp (grow d false b q kq vq e),
            occ-grow i d false b q kq vq e,
          );
        }
