-- ===== src/SortedMap/Ends.antt =====
-- The first and the last entry of a map.
use python_ctools.Base.{
  ℕ, zero, suc, ◌<◌, ◌≡◌, refl, Option, none, some, [], ◌∷◌, ◌++◌, arith, ok, raise, key_error,
}
use python_ctools.Base.Dict.{Dict}
use python_ctools.SortedMap.{
  Order, Node, SortedMap, read, leftmost, rightmost, build_tuple, min_item, max_item,
}
use python_ctools.SortedMap.Shape.{Shape, leaf, branch, count, entries, Leads, Holds}

module _ {ℓ} {K V : Type ℓ} where
  abbrev pub first_entry : Dict K V → Option (K × V)
  first_entry [] = none
  first_entry (e ∷ d) = some e

  abbrev pub last_entry : Dict K V → Option (K × V)
  last_entry [] = none
  last_entry (e ∷ d) = elim (last_entry d) [ none ↦ some e | some f ↦ some f ]

  first_entry-append :
      (d c : Dict K V) (e : K × V) → first_entry d ≡ some e → first_entry (d ++ c) ≡ some e
  first_entry-append [] c e h = cc
  first_entry-append (f ∷ d) c e h = h

  last_entry-append :
      (d c : Dict K V) (e : K × V) → last_entry c ≡ some e → last_entry (d ++ c) ≡ some e
  last_entry-append [] c e h = h
  last_entry-append (f ∷ d) c e h = ground (arith, last_entry-append d c e h)

  module _ (tree : SortedMap K V) where
    leftmost_lem :
        (l : Shape K V) (n : Node K V) (r : Shape K V) (fuel x : ℕ)
        → count l < fuel
        → Leads tree.nodes x (branch l n r)
        → (y : ℕ) × (m : Node K V) × (leftmost fuel tree x ≡ ok y)
          × (read tree y ≡ ok m)
          × (first_entry (entries (branch l n r)) ≡ some (m.key, m.value))
    unfolding leftmost read
    leftmost_lem l n r zero x enough lead = absurd (omega arith)
    leftmost_lem leaf n r (suc fuel) x enough lead =
        (x, n, ground (arith, lead.0, lead.1, lead.2.0), ground (arith, lead.0, lead.1), refl)
    leftmost_lem (branch l' n' r') n r (suc fuel) x enough lead =
        let (y, m, found, there, first) =
          leftmost_lem l' n' r' fuel n.left (omega arith) lead.2.0 in
        (
          y,
          m,
          ground (arith, lead.0, lead.1, lead.2.0.0, found),
          there,
          first_entry-append (entries (branch l' n' r')) ((n.key, n.value) ∷ entries r)
              (m.key, m.value) first,
        )

    rightmost_lem :
        (r : Shape K V) (n : Node K V) (l : Shape K V) (fuel x : ℕ)
        → count r < fuel
        → Leads tree.nodes x (branch l n r)
        → (y : ℕ) × (m : Node K V) × (rightmost fuel tree x ≡ ok y)
          × (read tree y ≡ ok m)
          × (last_entry (entries (branch l n r)) ≡ some (m.key, m.value))
    unfolding rightmost read
    rightmost_lem r n l zero x enough lead = absurd (omega arith)
    rightmost_lem leaf n l (suc fuel) x enough lead = (
      x,
      n,
      ground (arith, lead.0, lead.1, lead.2.1),
      ground (arith, lead.0, lead.1),
      last_entry-append (entries l) ((n.key, n.value) ∷ []) (n.key, n.value) refl,
    )
    rightmost_lem (branch l' n' r') n l (suc fuel) x enough lead =
        let (y, m, found, there, last) =
          rightmost_lem r' n' l' fuel n.right (omega arith) lead.2.1 in
        let rest : Dict K V = entries (branch l' n' r') in
        (
          y,
          m,
          ground (arith, lead.0, lead.1, lead.2.1.0, found),
          there,
          last_entry-append (entries l) ((n.key, n.value) ∷ rest) (m.key, m.value)
              (last_entry-append ((n.key, n.value) ∷ []) rest (m.key, m.value) last),
        )

    -- On a map whose nodes form a binary search tree of its size, `min` returns the first entry from
    -- the left and `max` the last one, or both raise KeyError if there is none.
    pub ends_lem :
        (compare : K → K → Order) (t : Shape K V)
        → Holds compare tree t
        → (min_item tree
            ≡ elim (first_entry (entries t)) [ none ↦ raise key_error | some e ↦ ok e ])
          × (max_item tree
              ≡ elim (last_entry (entries t)) [ none ↦ raise key_error | some e ↦ ok e ])
    unfolding min_item max_item build_tuple
    ends_lem compare leaf h = (ground (arith, h.leads.0), ground (arith, h.leads.0))
    ends_lem compare (branch l n r) h =
        let (x, low, low_found, low_there, first) =
          leftmost_lem l n r (suc tree.size) tree.root (omega (arith, h.sized)) h.leads in
        let (y, high, high_found, high_there, last) =
          rightmost_lem r n l (suc tree.size) tree.root (omega (arith, h.sized)) h.leads in
        (
          rw first (ground (arith, h.leads.0, low_found, low_there)),
          rw last (ground (arith, h.leads.0, high_found, high_there)),
        )
