-- ===== src/SortedMap/Insert/Descend.antt =====
-- The descent of an insertion finds the place of the key.
use python_ctools.Base.{
  ℕ, zero, suc, ◌<◌, ◌≡◌, ◌⊎◌, inl, inr, refl, sym, ap, ◌∙◌, Bool, [], ◌∷◌, ◌++◌, arith, Result, ok,
}
use python_ctools.Base.Dict.{Dict}
use python_ctools.SortedMap.{Order, less, greater, SortedMap, key_compare}
use python_ctools.SortedMap.Sorted.{
  less≢same, less≢greater, Order-cases, Ascending, put_entry, Ascending-parts, put_entry-same,
  put_entry-greater, put_entry-skip, put_entry-stop, AllKeys-above,
}
use python_ctools.SortedMap.Store.{left, right}
use python_ctools.SortedMap.Insert.{Slot, taken, vacant, descend}
use python_ctools.SortedMap.Tree.{
  Tree, leaf, branch, Place, top, below, addr, above, entries, around, count, cell,
}
use python_ctools.SortedMap.Tree.Links.{read_at}
use python_ctools.SortedMap.Tree.Balance.{fill, entries-fill}
use python_ctools.SortedMap.Tree.Zipper.{Focused, down-Focused}

module _ {ℓ} {K V : Type ℓ} where
  -- The flag says on which side of its parent the place is.
  abbrev pub Fits : Order → Place K V → Type 0
  Fits flag top = Unit {0}
  Fits flag (below left c p k v s rest) = flag ≡ less
  Fits flag (below right c p k v s rest) = flag ≡ greater

module _ {ℓ} {K V : Type ℓ} (compare : K → K → Order) (key : K) (value : V) where
  -- To store the entry around the place is to store it in the place.
  abbrev Passes : Place K V → Type ℓ
  Passes z =
      (d : Dict K V)
      → put_entry compare key value (around z d) ≡ around z (put_entry compare key value d)

  -- The descent ends at an empty place, where the entry goes.
  pub record Opens (tree : SortedMap K V) (whole : Tree K V) (run : Result Slot) : Type ℓ where
    pub z : Place K V
    pub flag : Order
    pub ends : run ≡ ok (vacant (above z) flag)
    pub focused : Focused tree z leaf
    pub fits : Fits flag z
    pub filled : fill z leaf ≡ whole
    pub stored : put_entry compare key value (entries whole) ≡ around z ((key, value) ∷ [])

  -- The descent ends at a node, whose value is replaced.
  pub record Takes (tree : SortedMap K V) (whole : Tree K V) (run : Result Slot) : Type ℓ where
    pub z : Place K V
    pub c : Bool
    pub l : Tree K V
    pub p : ℕ
    pub k : K
    pub v : V
    pub r : Tree K V
    pub ends : run ≡ ok (taken p)
    pub focused : Focused tree z (branch c l p k v r)
    pub filled : fill z (branch c l p k v r) ≡ whole
    pub stored :
        put_entry compare key value (entries whole) ≡ around z (entries l ++ (k, value) ∷ entries r)

  module _ (tree : SortedMap K V)
      (answers : (a b : K) → key_compare tree.ordering a b ≡ ok (compare a b)) where
    pub descend_lem :
        (fuel : ℕ) (t : Tree K V) (z : Place K V) (flag : Order)
        → count t < fuel
        → Focused tree z t
        → Fits flag z
        → Passes z
        → Ascending compare (entries t)
        → Opens tree (fill z t) (descend fuel tree key (addr t) (above z) flag)
          ⊎ Takes tree (fill z t) (descend fuel tree key (addr t) (above z) flag)
    unfolding descend
    descend_lem zero t z flag enough f fits passes sorted = absurd (omega arith)
    descend_lem (suc fuel) leaf z flag enough f fits passes sorted = inl (record {
      z = z;
      flag = flag;
      ends = refl;
      focused = f;
      fits = fits;
      filled = refl;
      stored = ap (put_entry compare key value) (entries-fill z leaf) ∙ passes [];
    })
    descend_lem (suc fuel) (branch c l p k v r) z flag enough f fits passes sorted =
        let parts = Ascending-parts compare (entries l) k v (entries r) sorted in
        let node = cell left c k v (addr l) (addr r) (above z) in
        let there = read_at tree p node f.located.rep.0 f.located.rep.1 in
        elim (Order-cases (compare key k)) [
          | inl o ↦
              let step : descend (suc fuel) tree key p (above z) flag
                  ≡ descend fuel tree key (addr l) p less =
                ground (arith, f.located.rep.0, there, answers key k, o) in
              let low = below left c p k v r z in
              rw step (
                descend_lem fuel l low less (omega arith) (down-Focused tree z left c l p k v r f)
                  refl
                  (λ d.
                    passes (d ++ (k, v) ∷ entries r)
                    ∙ ap (around z) (put_entry-stop compare key value d k v (entries r) o))
                  parts.0)
          | inr (inl o) ↦
              let step : descend (suc fuel) tree key p (above z) flag ≡ ok (taken p) =
                ground (arith, f.located.rep.0, there, answers key k, o) in
              let skip =
                AllKeys-above compare key k (entries l) (λ e. less≢same (sym e ∙ o)) parts.2 in
              inr (record {
                z = z;
                c = c;
                l = l;
                p = p;
                k = k;
                v = v;
                r = r;
                ends = step;
                focused = f;
                filled = refl;
                stored =
                    ap (put_entry compare key value) (entries-fill z (branch c l p k v r))
                    ∙ passes (entries l ++ (k, v) ∷ entries r)
                    ∙ ap (around z) (
                        put_entry-skip compare key value (entries l) ((k, v) ∷ entries r) skip
                        ∙ ap (λ i. entries l ++ i)
                            (put_entry-same compare key k value v (entries r) o));
              })
          | inr (inr o) ↦
              let step : descend (suc fuel) tree key p (above z) flag
                  ≡ descend fuel tree key (addr r) p greater =
                ground (arith, f.located.rep.0, there, answers key k, o) in
              let skip =
                AllKeys-above compare key k (entries l) (λ e. less≢greater (sym e ∙ o)) parts.2 in
              let low = below right c p k v l z in
              rw step (
                descend_lem fuel r low greater (omega arith)
                  (down-Focused tree z right c r p k v l f) refl
                  (λ d.
                    passes (entries l ++ (k, v) ∷ d)
                    ∙ ap (around z) (
                        put_entry-skip compare key value (entries l) ((k, v) ∷ d) skip
                        ∙ ap (λ i. entries l ++ i) (put_entry-greater compare key k value v d o)))
                  parts.1)
        ]
