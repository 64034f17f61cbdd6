-- ===== src/SortedMap/Tree/Balance.antt =====
-- Black heights, and the red-black conditions on a tree and around a place.
use python_ctools.Base.{
  ℕ, suc, ◌+◌, ◌≡◌, refl, sym, subst, ◌∙◌, Bool, true, false, not, ◌++◌, ◌∷◌, if◌then◌else◌, arith,
  length, length-append,
}
use python_ctools.Base.Dict.{Dict}
use python_ctools.SortedMap.{SortedMap}
use python_ctools.SortedMap.Store.{Side, left, right}
use python_ctools.SortedMap.Tree.{
  Tree, leaf, branch, Place, top, below, red_root, grow, entries, around, count, count_around, occ,
  occ_around, Located,
}
use python_ctools.SortedMap.Tree.Frame.{up-Located}

-- the height of a node over subtrees of this height
abbrev pub raised : Bool → ℕ → ℕ
raised c n = if c then n else suc n

module _ {ℓ} {K V : Type ℓ} where
  -- the black nodes on the way down to the left
  abbrev pub height : Tree K V → ℕ
  height leaf = 0
  height (branch c l p k v r) = raised c (height l)

  -- Every way down has the same number of black nodes, and a red node has no red child.
  abbrev pub Balanced : Tree K V → Type ℓ
  Balanced leaf = Unit {ℓ}
  Balanced (branch c l p k v r) =
      (height l ≡ height r)
      × (c ≡ true → (red_root l ≡ false) × (red_root r ≡ false))
      × (Balanced l × Balanced r)

  abbrev pub blacken : Tree K V → Tree K V
  blacken leaf = leaf
  blacken (branch c l p k v r) = branch false l p k v r

  -- whether the node above a place is red, and whether there is one that is black
  abbrev pub above_red : Place K V → Bool
  above_red top = false
  above_red (below d c p k v s rest) = c

  abbrev pub above_black : Place K V → Bool
  above_black top = false
  above_black (below d c p k v s rest) = not c

  -- What is around the place is balanced if the place has the given height; the root is black.
  abbrev pub BalancedAround : Place K V → ℕ → Type ℓ
  BalancedAround top n = Unit {ℓ}
  BalancedAround (below d c p k v s rest) n =
      (height s ≡ n)
      × (c ≡ true → (red_root s ≡ false) × (above_black rest ≡ true))
      × (Balanced s × BalancedAround rest (raised c n))

  pub height-grow :
      (d : Side) (c : Bool) (a : Tree K V) (p : ℕ) (k : K) (v : V) (b : Tree K V)
      → height a ≡ height b
      → height (grow d c a p k v b) ≡ raised c (height a)
  height-grow left c a p k v b e = refl
  height-grow right c a p k v b e = ground (arith, e)

  pub red_root-grow :
      (d : Side) (c : Bool) (a : Tree K V) (p : ℕ) (k : K) (v : V) (b : Tree K V)
      → red_root (grow d c a p k v b) ≡ c
  red_root-grow left c a p k v b = refl
  red_root-grow right c a p k v b = refl

  pub grow-Balanced :
      (d : Side) (c : Bool) (a : Tree K V) (p : ℕ) (k : K) (v : V) (b : Tree K V)
      → (height a ≡ height b)
        × (c ≡ true → (red_root a ≡ false) × (red_root b ≡ false))
        × (Balanced a × Balanced b)
      → Balanced (grow d c a p k v b)
  grow-Balanced left c a p k v b h = h
  grow-Balanced right c a p k v b h = (sym h.0, λ e. ((h.1 e).1, (h.1 e).0), (h.2.1, h.2.0))

  pub Balanced-parts :
      (d : Side) (c : Bool) (a : Tree K V) (p : ℕ) (k : K) (v : V) (b : Tree K V)
      → Balanced (grow d c a p k v b)
      → (height a ≡ height b)
        × (c ≡ true → (red_root a ≡ false) × (red_root b ≡ false))
        × (Balanced a × Balanced b)
  Balanced-parts left c a p k v b h = h
  Balanced-parts right c a p k v b h = (sym h.0, λ e. ((h.1 e).1, (h.1 e).0), (h.2.1, h.2.0))

  -- The whole tree, with this one in the place.
  abbrev pub fill : Place K V → Tree K V → Tree K V
  fill top t = t
  fill (below d c p k v s rest) t = fill rest (grow d c t p k v s)

  pub fill-Located :
      (tree : SortedMap K V) (z : Place K V) (t : Tree K V)
      → Located tree z t
      → Located tree top (fill z t)
  fill-Located tree top t h = h
  fill-Located tree (below d c p k v s rest) t h =
      fill-Located tree rest (grow d c t p k v s) (up-Located tree d c p k v s t rest h)

  pub above_black-red : (z : Place K V) → above_black z ≡ true → above_red z ≡ false
  above_black-red top e = refl
  above_black-red (below d c p k v s rest) e = ground arith

  pub fill-Balanced :
      (z : Place K V) (t : Tree K V)
      → Balanced t
      → BalancedAround z (height t)
      → (red_root t ≡ true → above_red z ≡ false)
      → Balanced (fill z t)
  fill-Balanced top t b outer clear = b
  fill-Balanced (below d c p k v s rest) t b outer clear =
      fill-Balanced rest (grow d c t p k v s)
        (grow-Balanced d c t p k v s
          (sym outer.0, λ e. (ground arith, (outer.1 e).0), (b, outer.2.0)))
        (subst (BalancedAround rest) (sym (height-grow d c t p k v s (sym outer.0))) outer.2.1)
        (λ e. above_black-red rest (outer.1 (sym (red_root-grow d c t p k v s) ∙ e)).1)

  pub entries-fill : (z : Place K V) (t : Tree K V) → entries (fill z t) ≡ around z (entries t)
  entries-fill top t = refl
  entries-fill (below left c p k v s rest) t = entries-fill rest (branch c t p k v s)
  entries-fill (below right c p k v s rest) t = entries-fill rest (branch c s p k v t)

  pub count-fill : (z : Place K V) (t : Tree K V) → count (fill z t) ≡ count t + count_around z
  count-fill top t = omega arith
  count-fill (below left c p k v s rest) t = omega (arith, count-fill rest (branch c t p k v s))
  count-fill (below right c p k v s rest) t = omega (arith, count-fill rest (branch c s p k v t))

  pub length-entries : (t : Tree K V) → length (entries t) ≡ count t
  length-entries leaf = refl
  length-entries (branch c l p k v r) =
      omega
        (arith, length-append (entries l) ((k, v) ∷ entries r), length-entries l, length-entries r)

  pub length-around :
      (z : Place K V) (d : Dict K V) → length (around z d) ≡ length d + count_around z
  length-around top d = omega arith
  length-around (below left c p k v s rest) d = omega (
    arith,
    length-around rest (d ++ (k, v) ∷ entries s),
    length-append d ((k, v) ∷ entries s),
    length-entries s,
  )
  length-around (below right c p k v s rest) d = omega (
    arith,
    length-around rest (entries s ++ (k, v) ∷ d),
    length-append (entries s) ((k, v) ∷ d),
    length-entries s,
  )

  pub blacken-grow :
      (d : Side) (c : Bool) (a : Tree K V) (p : ℕ) (k : K) (v : V) (b : Tree K V)
      → blacken (grow d c a p k v b) ≡ grow d false a p k v b
  blacken-grow left c a p k v b = refl
  blacken-grow right c a p k v b = refl

  pub around-grow :
      (d : Side) (c : Bool) (p : ℕ) (k : K) (v : V) (s t : Tree K V) (rest : Place K V)
      → around (below d c p k v s rest) (entries t) ≡ around rest (entries (grow d c t p k v s))
  around-grow left c p k v s t rest = refl
  around-grow right c p k v s t rest = refl

  pub occ-fill :
      (q : ℕ) (z : Place K V) (t : Tree K V) → occ q (fill z t) ≡ occ q t + occ_around q z
  occ-fill q top t = omega arith
  occ-fill q (below left c p k v s rest) t = omega (arith, occ-fill q rest (branch c t p k v s))
  occ-fill q (below right c p k v s rest) t = omega (arith, occ-fill q rest (branch c s p k v t))
