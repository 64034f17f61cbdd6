-- ===== src/SortedMap/Tree/Zipper.antt =====
-- A place and the tree in it, of a red-black tree with a black root.
use python_ctools.Base.{ℕ, ◌≡◌, sym, subst, ◌∙◌, Bool, true, false, Bool-cases, arith}
use python_ctools.SortedMap.{SortedMap}
use python_ctools.SortedMap.Store.{Side}
use python_ctools.SortedMap.Tree.{Tree, Place, top, below, red_root, grow, Located}
use python_ctools.SortedMap.Tree.Frame.{down-Located}
use python_ctools.SortedMap.Tree.Balance.{
  raised, height, Balanced, above_black, BalancedAround, fill, height-grow, red_root-grow,
  Balanced-parts, above_black-red, fill-Located, fill-Balanced,
}

module _ {ℓ} {K V : Type ℓ} where
  -- A red root in the place stands below a black node.
  pub record Focused (tree : SortedMap K V) (z : Place K V) (t : Tree K V) : Type ℓ where
    pub located : Located tree z t
    pub balanced : Balanced t
    pub outer : BalancedAround z (height t)
    pub calm : red_root t ≡ true → above_black z ≡ true

  pub down-Focused :
      (tree : SortedMap K V) (z : Place K V) (d : Side) (c : Bool) (t : Tree K V) (p : ℕ) (k : K)
      (v : V) (s : Tree K V)
      → Focused tree z (grow d c t p k v s)
      → Focused tree (below d c p k v s z) t
  down-Focused tree z d c t p k v s f =
      let parts = Balanced-parts d c t p k v s f.balanced in
      record {
        located = down-Located tree d c p k v s t z f.located;
        balanced = parts.2.0;
        outer = (
          sym parts.0,
          λ e. ((parts.1 e).1, f.calm (red_root-grow d c t p k v s ∙ e)),
          (parts.2.1, subst (BalancedAround z) (height-grow d c t p k v s parts.0) f.outer),
        );
        calm = λ e. ground (arith, Bool-cases c, parts.1, e);
      }

  fill-red_root :
      (z : Place K V) (n : ℕ) (t : Tree K V)
      → BalancedAround z n
      → (red_root t ≡ true → above_black z ≡ true)
      → red_root (fill z t) ≡ false
  fill-red_root top n t outer calm = ground (arith, Bool-cases (red_root t))
  fill-red_root (below d c p k v s rest) n t outer calm =
      fill-red_root rest (raised c n) (grow d c t p k v s) outer.2.1
        (λ e. (outer.1 (sym (red_root-grow d c t p k v s) ∙ e)).1)

  -- the whole map
  pub fill-Focused :
      (tree : SortedMap K V) (z : Place K V) (t : Tree K V)
      → Focused tree z t
      → Located tree top (fill z t) × Balanced (fill z t) × (red_root (fill z t) ≡ false)
  fill-Focused tree z t f = (
    fill-Located tree z t f.located,
    fill-Balanced z t f.balanced f.outer (λ e. above_black-red z (f.calm e)),
    fill-red_root z (height t) t f.outer f.calm,
  )
