-- ===== src/SortedMap/Tree/Grow.antt =====
-- A branch with a side: its parts, and the fields of a map that the writes of links leave alone.
use python_ctools.Base.{
  ℕ, ◌+◌, ◌<◌, ◌≡◌, ◌≢◌, refl, ap₂, ◌∙◌, Bool, Option, some, ◌++◌, ◌∷◌, ◌==◌, if◌then◌else◌, arith,
}
use python_ctools.SortedMap.{Node, SortedMap}
use python_ctools.SortedMap.Store.{Side, left, right, write}
use python_ctools.SortedMap.Tree.{
  Tree, leaf, branch, Place, top, below, addr, above, grow, entries, occ, cell, Rep,
}
use python_ctools.SortedMap.Tree.Links.{relink, adopt}

module _ {ℓ} {K V : Type ℓ} where
  pub grow-parts :
      (nodes : ℕ → Option (Node K V)) (d : Side) (c : Bool) (a : Tree K V) (p : ℕ) (k : K) (v : V)
      (b : Tree K V) (parent : ℕ)
      → Rep nodes parent (grow d c a p k v b)
      → (p ≢ 0)
        × (nodes p ≡ some (cell d c k v (addr a) (addr b) parent))
        × (Rep nodes p a × Rep nodes p b)
  grow-parts nodes left c a p k v b parent h = h
  grow-parts nodes right c a p k v b parent h = (h.0, h.1, (h.2.1, h.2.0))

  pub grow-Rep :
      (nodes : ℕ → Option (Node K V)) (d : Side) (c : Bool) (a : Tree K V) (p : ℕ) (k : K) (v : V)
      (b : Tree K V) (parent : ℕ)
      → (p ≢ 0)
        × (nodes p ≡ some (cell d c k v (addr a) (addr b) parent))
        × (Rep nodes p a × Rep nodes p b)
      → Rep nodes parent (grow d c a p k v b)
  grow-Rep nodes left c a p k v b parent h = h
  grow-Rep nodes right c a p k v b parent h = (h.0, h.1, (h.2.1, h.2.0))

  pub addr-grow :
      (d : Side) (c : Bool) (a : Tree K V) (p : ℕ) (k : K) (v : V) (b : Tree K V)
      → addr (grow d c a p k v b) ≡ p
  addr-grow left c a p k v b = refl
  addr-grow right c a p k v b = refl

  pub occ-grow :
      (q : ℕ) (d : Side) (c : Bool) (a : Tree K V) (p : ℕ) (k : K) (v : V) (b : Tree K V)
      → occ q (grow d c a p k v b) ≡ occ q a + (if q == p then 1 else 0) + occ q b
  occ-grow q left c a p k v b = refl
  occ-grow q right c a p k v b = omega arith

  -- The entries of a branch are those of its parts, whatever the colours.
  pub entries-grow :
      (d : Side) (c c' : Bool) (a a' : Tree K V) (p : ℕ) (k : K) (v : V) (b b' : Tree K V)
      → entries a ≡ entries a'
      → entries b ≡ entries b'
      → entries (grow d c a p k v b) ≡ entries (grow d c' a' p k v b')
  entries-grow left c c' a a' p k v b b' e f = ap₂ (λ i j. i ++ (k, v) ∷ j) e f
  entries-grow right c c' a a' p k v b b' e f = ap₂ (λ i j. j ++ (k, v) ∷ i) e f

  -- the root of a tree stands in it
  pub occ-addr : (t : Tree K V) → addr t ≢ 0 → 0 < occ (addr t) t
  occ-addr leaf ne = absurd (ne refl)
  occ-addr (branch c l p k v r) ne = ground arith

  -- of two subtrees, the one on the side, and the other
  abbrev pub near_of : Side → Tree K V → Tree K V → Tree K V
  near_of left l r = l
  near_of right l r = r

  abbrev pub far_of : Side → Tree K V → Tree K V → Tree K V
  far_of left l r = r
  far_of right l r = l

  pub near_of_both {κ} :
      (P : Tree K V → Type κ) (d : Side) (l r : Tree K V) → P l → P r → P (near_of d l r)
  near_of_both P left l r a b = a
  near_of_both P right l r a b = b

  pub far_of_both {κ} :
      (P : Tree K V → Type κ) (d : Side) (l r : Tree K V) → P l → P r → P (far_of d l r)
  far_of_both P left l r a b = b
  far_of_both P right l r a b = a

  pub branch-grow :
      (d : Side) (c : Bool) (l : Tree K V) (p : ℕ) (k : K) (v : V) (r : Tree K V)
      → branch c l p k v r ≡ grow d c (near_of d l r) p k v (far_of d l r)
  branch-grow left c l p k v r = refl
  branch-grow right c l p k v r = refl

  -- The order, the size and the sentinel of a map are those of another.
  pub record Kept (tree tree' : SortedMap K V) : Type ℓ where
    pub ordering : tree'.ordering ≡ tree.ordering
    pub size : tree'.size ≡ tree.size
    pub sentinel : tree'.sentinel_parent ≡ tree.sentinel_parent

  pub Kept-refl : (tree : SortedMap K V) → Kept tree tree
  Kept-refl tree = record { ordering = refl; size = refl; sentinel = refl }

  pub Kept-trans : (a b c : SortedMap K V) → Kept a b → Kept b c → Kept a c
  Kept-trans a b c f g = record {
    ordering = g.ordering ∙ f.ordering;
    size = g.size ∙ f.size;
    sentinel = g.sentinel ∙ f.sentinel;
  }

  pub write-Kept : (tree : SortedMap K V) (x : ℕ) (node : Node K V) → Kept tree (write tree x node)
  unfolding write
  write-Kept tree x node = record { ordering = refl; size = refl; sentinel = refl }

  pub relink-Kept : (tree : SortedMap K V) (z : Place K V) (y : ℕ) → Kept tree (relink tree z y)
  relink-Kept tree top y = record { ordering = refl; size = refl; sentinel = refl }
  relink-Kept tree (below d c p k v s rest) y =
      write-Kept tree p (cell d c k v y (addr s) (above rest))

  pub adopt-Kept : (tree : SortedMap K V) (t : Tree K V) (x : ℕ) → Kept tree (adopt tree t x)
  adopt-Kept tree leaf x = record { ordering = refl; size = refl; sentinel = refl }
  adopt-Kept tree (branch c l p k v r) x = write-Kept tree p (cell left c k v (addr l) (addr r) x)

  pub adopt-root : (tree : SortedMap K V) (t : Tree K V) (x : ℕ) → (adopt tree t x).root ≡ tree.root
  unfolding write
  adopt-root tree leaf x = refl
  adopt-root tree (branch c l p k v r) x = refl
