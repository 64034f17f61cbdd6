-- ===== src/SortedMap/Sorted.antt =====
-- Entries in ascending order of their keys: what storing one does to them.
use python_ctools.Base.{
  ◌≡◌, ◌≢◌, ◌⊎◌, inl, inr, refl, sym, ap, subst, ◌∙◌, some, [], ◌∷◌, ◌++◌, arith,
}
use python_ctools.Base.Dict.{Dict}
use python_ctools.SortedMap.{Order, less, same, greater}
use python_ctools.SortedMap.Shape.{AllKeys, Before, first_same}

abbrev pub opposite : Order → Order
opposite less = greater
opposite same = same
opposite greater = less

pub Order-cases : (o : Order) → (o ≡ less) ⊎ ((o ≡ same) ⊎ (o ≡ greater))
Order-cases less = inl refl
Order-cases same = inr (inl refl)
Order-cases greater = inr (inr refl)

pub less≢greater : less ≢ greater
less≢greater e = cc

pub less≢same : less ≢ same
less≢same e = cc

same≢greater : same ≢ greater
same≢greater e = cc

-- What the code relies on: the comparison is that of a total preorder.
pub record TotalOrder {ℓ} {K : Type ℓ} (compare : K → K → Order) : Type ℓ where
  pub turns : (a b : K) → compare b a ≡ opposite (compare a b)
  pub chains : (a b c : K) → compare a b ≢ greater → compare b c ≢ greater → compare a c ≢ greater

module _ {ℓ} {K : Type ℓ} (compare : K → K → Order) where
  Before-trans : (i j k : K) → Before compare i j → Before compare j k → Before compare i k
  Before-trans i j k f g = record {
    above = λ q h. f.above q (λ e. less≢greater (sym e ∙ g.above q h));
    below = λ q h. g.below q (λ e. less≢greater (sym (f.below q h) ∙ e));
  }

  module _ (total : TotalOrder compare) where
    -- What is not after `a` is before what `a` is before.
    no_return : (a b q : K) → compare a b ≡ less → compare q a ≢ greater → compare q b ≡ less
    no_return a b q e h =
        let back : compare b a ≡ greater = total.turns a b ∙ ap opposite e in
        let low : compare q b ≢ greater = total.chains q a b h (λ f. less≢greater (sym e ∙ f)) in
        elim (Order-cases (compare q b)) [
          | inl o ↦ o
          | inr (inl o) ↦
              let turned : compare b q ≡ same = total.turns q b ∙ ap opposite o in
              absurd (total.chains b q a (λ f. same≢greater (sym turned ∙ f)) h back)
          | inr (inr o) ↦ absurd (low o)
        ]

    -- what is not after and not before is the same
    both_ways : (a b : K) → compare a b ≢ greater → compare b a ≢ greater → compare a b ≡ same
    both_ways a b h g = elim (Order-cases (compare a b)) [
      | inl o ↦ absurd (g (total.turns a b ∙ ap opposite o))
      | inr (inl o) ↦ o
      | inr (inr o) ↦ absurd (h o)
    ]

    same_turned : (a b : K) → compare a b ≡ same → compare b a ≡ same
    same_turned a b e = total.turns a b ∙ ap opposite e

    same_not_greater : (a b : K) → compare a b ≡ same → compare a b ≢ greater
    same_not_greater a b e f = same≢greater (sym e ∙ f)

    pub same_trans : (a b c : K) → compare a b ≡ same → compare b c ≡ same → compare a c ≡ same
    same_trans a b c e f =
        both_ways a c (total.chains a b c (same_not_greater a b e) (same_not_greater b c f)) (
          total.chains c b a (same_not_greater c b (same_turned b c f))
            (same_not_greater b a (same_turned a b e)))

    pub less-Before : (a b : K) → compare a b ≡ less → Before compare a b
    less-Before a b e = record {
      above = λ q h. elim (Order-cases (compare q a)) [
        | inl o ↦ absurd (h (no_return a b q e (λ f. less≢greater (sym o ∙ f))))
        | inr (inl o) ↦ absurd (h (no_return a b q e (λ f. same≢greater (sym o ∙ f))))
        | inr (inr o) ↦ o
      ];
      below = λ q h. no_return a b q e h;
    }

    greater-Before : (a b : K) → compare a b ≡ greater → Before compare b a
    greater-Before a b e = less-Before b a (total.turns a b ∙ ap opposite e)

module _ {ℓ} {K V : Type ℓ} (compare : K → K → Order) where
  abbrev pub Ascending : Dict K V → Type ℓ
  Ascending [] = Unit {ℓ}
  Ascending ((k, v) ∷ d) = AllKeys (λ j. Before compare k j) d × Ascending d

  -- An entry whose key compares the same keeps its key and takes the value.
  abbrev pub put_entry : K → V → Dict K V → Dict K V
  put_entry key value [] = (key, value) ∷ []
  put_entry key value ((k, v) ∷ d) = elim (compare key k) [
    | less ↦ (key, value) ∷ (k, v) ∷ d
    | same ↦ (k, value) ∷ d
    | greater ↦ (k, v) ∷ put_entry key value d
  ]

  AllKeys-append {κ} :
      (P : K → Type κ) (d e : Dict K V) → AllKeys P (d ++ e) → AllKeys P d × AllKeys P e
  AllKeys-append P [] e h = (tt, h)
  AllKeys-append P ((k, v) ∷ d) e h = let rest = AllKeys-append P d e h.1 in ((h.0, rest.0), rest.1)

  -- An entry stands after those to its left and before those to its right.
  pub Ascending-parts :
      (d : Dict K V) (k : K) (v : V) (e : Dict K V)
      → Ascending (d ++ (k, v) ∷ e)
      → Ascending d
        × Ascending e
        × AllKeys (λ i. Before compare i k) d
        × AllKeys (λ j. Before compare k j) e
  Ascending-parts [] k v e h = (tt, h.1, tt, h.0)
  Ascending-parts ((i, w) ∷ d) k v e h =
      let rest = Ascending-parts d k v e h.1 in
      let first = AllKeys-append (λ j. Before compare i j) d ((k, v) ∷ e) h.0 in
      ((first.0, rest.0), rest.1, (first.1.0, rest.2), rest.3)

  -- what storing does at the first entry
  put_entry-less :
      (key k : K) (value v : V) (d : Dict K V)
      → compare key k ≡ less
      → put_entry key value ((k, v) ∷ d) ≡ (key, value) ∷ (k, v) ∷ d
  put_entry-less key k value v d o = ground (arith, o)

  pub put_entry-same :
      (key k : K) (value v : V) (d : Dict K V)
      → compare key k ≡ same
      → put_entry key value ((k, v) ∷ d) ≡ (k, value) ∷ d
  put_entry-same key k value v d o = ground (arith, o)

  pub put_entry-greater :
      (key k : K) (value v : V) (d : Dict K V)
      → compare key k ≡ greater
      → put_entry key value ((k, v) ∷ d) ≡ (k, v) ∷ put_entry key value d
  put_entry-greater key k value v d o = ground (arith, o)

  put_entry-AllKeys {κ} :
      (P : K → Type κ) (key : K) (value : V) (d : Dict K V)
      → P key
      → AllKeys P d
      → AllKeys P (put_entry key value d)
  put_entry-AllKeys P key value [] p h = (p, tt)
  put_entry-AllKeys P key value ((k, v) ∷ d) p h = elim (Order-cases (compare key k)) [
    | inl o ↦ subst (AllKeys P) (sym (put_entry-less key k value v d o)) (p, h)
    | inr (inl o) ↦ subst (AllKeys P) (sym (put_entry-same key k value v d o)) h
    | inr (inr o) ↦
        subst (AllKeys P) (sym (put_entry-greater key k value v d o))
          (h.0, put_entry-AllKeys P key value d p h.1)
  ]

  AllKeys-later :
      (i j : K) (d : Dict K V)
      → Before compare i j
      → AllKeys (λ q. Before compare j q) d
      → AllKeys (λ q. Before compare i q) d
  AllKeys-later i j [] b h = tt
  AllKeys-later i j ((k, v) ∷ d) b h = (Before-trans compare i j k b h.0, AllKeys-later i j d b h.1)

  -- To store an entry keeps the order.
  pub put_entry-Ascending :
      (key : K) (value : V) (d : Dict K V)
      → TotalOrder compare
      → Ascending d
      → Ascending (put_entry key value d)
  put_entry-Ascending key value [] total h = (tt, tt)
  put_entry-Ascending key value ((k, v) ∷ d) total h = elim (Order-cases (compare key k)) [
    | inl o ↦
        let b = less-Before compare total key k o in
        subst Ascending (sym (put_entry-less key k value v d o))
          ((b, AllKeys-later key k d b h.0), h)
    | inr (inl o) ↦ subst Ascending (sym (put_entry-same key k value v d o)) h
    | inr (inr o) ↦ subst Ascending (sym (put_entry-greater key k value v d o)) (
      put_entry-AllKeys (λ j. Before compare k j) key value d (greater-Before compare total key k o)
          h.0,
      put_entry-Ascending key value d total h.1,
    )
  ]

  -- Entries that the key comes after are passed over.
  pub put_entry-skip :
      (key : K) (value : V) (d e : Dict K V)
      → AllKeys (λ i. compare key i ≡ greater) d
      → put_entry key value (d ++ e) ≡ d ++ put_entry key value e
  put_entry-skip key value [] e h = refl
  put_entry-skip key value ((k, v) ∷ d) e h =
      put_entry-greater key k value v (d ++ e) h.0
      ∙ ap (λ i. (k, v) ∷ i) (put_entry-skip key value d e h.1)

  -- The search for the place does not pass an entry that comes after the key.
  pub put_entry-stop :
      (key : K) (value : V) (d : Dict K V) (k : K) (v : V) (e : Dict K V)
      → compare key k ≡ less
      → put_entry key value (d ++ (k, v) ∷ e) ≡ put_entry key value d ++ (k, v) ∷ e
  put_entry-stop key value [] k v e o = put_entry-less key k value v e o
  put_entry-stop key value ((i, w) ∷ d) k v e o = elim (Order-cases (compare key i)) [
    | inl f ↦ ground (arith, f)
    | inr (inl f) ↦ ground (arith, f)
    | inr (inr f) ↦ ground (arith, f, put_entry-stop key value d k v e o)
  ]

  -- The key of an entry to the right of a node, or equal to it, comes after all to the left.
  pub AllKeys-above :
      (key k : K) (d : Dict K V)
      → compare key k ≢ less
      → AllKeys (λ i. Before compare i k) d
      → AllKeys (λ i. compare key i ≡ greater) d
  AllKeys-above key k [] h b = tt
  AllKeys-above key k ((i, v) ∷ d) h b = (b.0.above key h, AllKeys-above key k d h b.1)

  -- A lookup after a store finds the new value at a key that compares the same, and what was there
  -- at another.
  pub first_same-put_entry :
      (q key : K) (value : V) (d : Dict K V)
      → TotalOrder compare
      → first_same compare q (put_entry key value d) ≡ elim (compare q key) [
        | less ↦ first_same compare q d
        | same ↦ some value
        | greater ↦ first_same compare q d
      ]
  first_same-put_entry q key value [] total = refl
  first_same-put_entry q key value ((k, v) ∷ d) total =
      let rec = first_same-put_entry q key value d total in
      elim (Order-cases (compare key k)) [
        | inl o ↦ ground (arith, o)
        | inr (inl o) ↦ elim (Order-cases (compare q k)) [
          | inl f ↦
              let ne : compare q key ≢ same =
                λ e. less≢same (sym f ∙ same_trans compare total q key k e o) in
              elim (Order-cases (compare q key)) [
                | inl g ↦ ground (arith, o, f, g)
                | inr (inl g) ↦ absurd (ne g)
                | inr (inr g) ↦ ground (arith, o, f, g)
              ]
          | inr (inl f) ↦
              let e : compare q key ≡ same =
                same_trans compare total q k key f (same_turned compare total key k o) in
              ground (arith, o, f, e)
          | inr (inr f) ↦
              let ne : compare q key ≢ same =
                λ e. same≢greater (sym (same_trans compare total q key k e o) ∙ f) in
              elim (Order-cases (compare q key)) [
                | inl g ↦ ground (arith, o, f, g)
                | inr (inl g) ↦ absurd (ne g)
                | inr (inr g) ↦ ground (arith, o, f, g)
              ]
        ]
        | inr (inr o) ↦ elim (Order-cases (compare q k)) [
          | inl f ↦ ground (arith, o, f, rec)
          | inr (inl f) ↦
              let ne : compare q key ≢ same = λ e. same≢greater (
                sym (same_trans compare total key q k (same_turned compare total q key e) f) ∙ o) in
              elim (Order-cases (compare q key)) [
                | inl g ↦ ground (arith, o, f, g)
                | inr (inl g) ↦ absurd (ne g)
                | inr (inr g) ↦ ground (arith, o, f, g)
              ]
          | inr (inr f) ↦ ground (arith, o, f, rec)
        ]
      ]
