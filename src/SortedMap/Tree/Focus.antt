-- ===== src/SortedMap/Tree/Focus.antt =====
-- Reads and repainting of the node at a place.
use python_ctools.Base.{ℕ, ◌≡◌, ◌≢◌, refl, sym, subst, Bool, arith, ok}
use python_ctools.SortedMap.{SortedMap}
use python_ctools.SortedMap.Store.{Side, left, right, other, write, get_parent, is_red, paint}
use python_ctools.SortedMap.Tree.{
  Tree, leaf, branch, Place, below, addr, red_root, above, grow, cell, Rep, Located,
}
use python_ctools.SortedMap.Tree.Frame.{Rep-Agrees, RepAround-Agrees, up-Located, down-Located}
use python_ctools.SortedMap.Tree.Links.{get_parent_at, is_red_at, paint_at}
use python_ctools.SortedMap.Tree.Grow.{Kept, write-Kept}

module _ {ℓ} {K V : Type ℓ} where
  pub grow-other :
      (d : Side) (c : Bool) (a : Tree K V) (p : ℕ) (k : K) (v : V) (b : Tree K V)
      → grow d c a p k v b ≡ grow (other d) c b p k v a
  grow-other left c a p k v b = refl
  grow-other right c a p k v b = refl

  pub is_red_lem :
      (tree : SortedMap K V) (parent : ℕ) (t : Tree K V)
      → Rep tree.nodes parent t
      → is_red tree (addr t) ≡ ok (red_root t)
  unfolding is_red
  is_red_lem tree parent leaf h = refl
  is_red_lem tree parent (branch c l p k v r) h =
      is_red_at tree left c k v (addr l) (addr r) parent p h.0 h.1

  pub get_parent_lem :
      (tree : SortedMap K V) (parent : ℕ) (t : Tree K V)
      → Rep tree.nodes parent t
      → addr t ≢ 0
      → get_parent tree (addr t) ≡ ok parent
  get_parent_lem tree parent leaf h ne = absurd (ne refl)
  get_parent_lem tree parent (branch c l p k v r) h ne =
      get_parent_at tree left c k v (addr l) (addr r) parent p h.0 h.1

  pub get_parent-grow :
      (tree : SortedMap K V) (parent : ℕ) (d : Side) (c : Bool) (a : Tree K V) (p : ℕ) (k : K)
      (v : V) (b : Tree K V)
      → Rep tree.nodes parent (grow d c a p k v b)
      → get_parent tree p ≡ ok parent
  get_parent-grow tree parent left c a p k v b h =
      get_parent_at tree left c k v (addr a) (addr b) parent p h.0 h.1
  get_parent-grow tree parent right c a p k v b h =
      get_parent_at tree left c k v (addr b) (addr a) parent p h.0 h.1

  pub is_red-grow :
      (tree : SortedMap K V) (parent : ℕ) (d : Side) (c : Bool) (a : Tree K V) (p : ℕ) (k : K)
      (v : V) (b : Tree K V)
      → Rep tree.nodes parent (grow d c a p k v b)
      → is_red tree p ≡ ok c
  is_red-grow tree parent left c a p k v b h =
      is_red_at tree left c k v (addr a) (addr b) parent p h.0 h.1
  is_red-grow tree parent right c a p k v b h =
      is_red_at tree left c k v (addr b) (addr a) parent p h.0 h.1

  -- The node at a place with another colour, key and value.
  pub renew :
      (tree : SortedMap K V) (z : Place K V) (c c' : Bool) (l : Tree K V) (p : ℕ) (k k' : K)
      (v v' : V) (r : Tree K V)
      → Located tree z (branch c l p k v r)
      → Located
          (write tree p (cell left c' k' v' (addr l) (addr r) (above z)))
          z
          (branch c' l p k' v' r)
  unfolding write
  renew tree z c c' l p k k' v v' r h =
      let tree' : SortedMap K V = write tree p (cell left c' k' v' (addr l) (addr r) (above z)) in
      let agrees : (q : ℕ) → q ≢ p → tree'.nodes q ≡ tree.nodes q = λ q ne. ground arith in
      record {
        rep = (
          h.rep.0,
          ground arith,
          (
            Rep-Agrees tree.nodes tree'.nodes p l
                (λ q o. agrees q (λ e. ground (arith, h.distinct q))) h.rep.2.0,
            Rep-Agrees tree.nodes tree'.nodes p r
                (λ q o. agrees q (λ e. ground (arith, h.distinct q))) h.rep.2.1,
          ),
        );
        rep_around =
            RepAround-Agrees tree.nodes tree'.nodes z p
              (λ q o. agrees q (λ e. ground (arith, h.distinct q))) h.rep_around;
        root = h.root;
        distinct = h.distinct;
      }

  -- To paint the node at a place changes its colour only.
  pub paint_lem :
      (tree : SortedMap K V) (z : Place K V) (d : Side) (c c' : Bool) (a : Tree K V) (p : ℕ) (k : K)
      (v : V) (b : Tree K V)
      → Located tree z (grow d c a p k v b)
      → (tree' : SortedMap K V) × (paint tree p c' ≡ ok tree')
        × Kept tree tree'
        × Located tree' z (grow d c' a p k v b)
  paint_lem tree z left c c' a p k v b h = (
    write tree p (cell left c' k v (addr a) (addr b) (above z)),
    paint_at tree left c c' k v (addr a) (addr b) (above z) p h.rep.0 h.rep.1,
    write-Kept tree p (cell left c' k v (addr a) (addr b) (above z)),
    renew tree z c c' a p k k v v b h,
  )
  paint_lem tree z right c c' a p k v b h = (
    write tree p (cell left c' k v (addr b) (addr a) (above z)),
    paint_at tree left c c' k v (addr b) (addr a) (above z) p h.rep.0 h.rep.1,
    write-Kept tree p (cell left c' k v (addr b) (addr a) (above z)),
    renew tree z c c' b p k k v v a h,
  )

  -- The same on the far side of a node above it.
  pub paint_far :
      (tree : SortedMap K V) (z : Place K V) (d : Side) (c : Bool) (a : Tree K V) (p : ℕ) (k : K)
      (v : V) (d' : Side) (cb c' : Bool) (l : Tree K V) (q : ℕ) (kq : K) (vq : V) (r : Tree K V)
      → Located tree z (grow d c a p k v (grow d' cb l q kq vq r))
      → (tree' : SortedMap K V) × (paint tree q c' ≡ ok tree')
        × Kept tree tree'
        × Located tree' z (grow d c a p k v (grow d' c' l q kq vq r))
  paint_far tree z d c a p k v d' cb c' l q kq vq r h =
      let far = subst (Located tree z) (grow-other d c a p k v (grow d' cb l q kq vq r)) h in
      let (tree', done, kept, l1) =
        paint_lem tree (below (other d) c p k v a z) d' cb c' l q kq vq r
          (down-Located tree (other d) c p k v a (grow d' cb l q kq vq r) z far) in
      (
        tree',
        done,
        kept,
        subst (Located tree' z) (sym (grow-other d c a p k v (grow d' c' l q kq vq r)))
            (up-Located tree' (other d) c p k v a (grow d' c' l q kq vq r) z l1),
      )

  -- The same on the near side.
  pub paint_near :
      (tree : SortedMap K V) (z : Place K V) (d : Side) (c : Bool) (p : ℕ) (k : K) (v : V)
      (b : Tree K V) (d' : Side) (ca c' : Bool) (l : Tree K V) (q : ℕ) (kq : K) (vq : V)
      (r : Tree K V)
      → Located tree z (grow d c (grow d' ca l q kq vq r) p k v b)
      → (tree' : SortedMap K V) × (paint tree q c' ≡ ok tree')
        × Kept tree tree'
        × Located tree' z (grow d c (grow d' c' l q kq vq r) p k v b)
  paint_near tree z d c p k v b d' ca c' l q kq vq r h =
      let (tree', done, kept, l1) =
        paint_lem tree (below d c p k v b z) d' ca c' l q kq vq r
          (down-Located tree d c p k v b (grow d' ca l q kq vq r) z h) in
      (tree', done, kept, up-Located tree' d c p k v b (grow d' c' l q kq vq r) z l1)

  -- a step down to the far side, and back
  pub down_far :
      (tree : SortedMap K V) (z : Place K V) (d : Side) (c : Bool) (a : Tree K V) (p : ℕ) (k : K)
      (v : V) (b : Tree K V)
      → Located tree z (grow d c a p k v b)
      → Located tree (below (other d) c p k v a z) b
  down_far tree z d c a p k v b h =
      down-Located tree (other d) c p k v a b z
        (subst (Located tree z) (grow-other d c a p k v b) h)

  pub up_far :
      (tree : SortedMap K V) (z : Place K V) (d : Side) (c : Bool) (a : Tree K V) (p : ℕ) (k : K)
      (v : V) (b : Tree K V)
      → Located tree (below (other d) c p k v a z) b
      → Located tree z (grow d c a p k v b)
  up_far tree z d c a p k v b h =
      subst (Located tree z) (sym (grow-other d c a p k v b))
        (up-Located tree (other d) c p k v a b z h)
