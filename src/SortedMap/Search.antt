-- ===== src/SortedMap/Search.antt =====
-- The search of a map against a scan of its entries.
use mathlib.Core.Option.{get_or}
use python_ctools.Base.{
  ℕ, zero, suc, ◌<◌, ◌≡◌, ◌≢◌, ◌⊎◌, inl, inr, refl, ◌∙◌, true, false, Option, none, some, [], ◌∷◌,
  ◌++◌, Option-cases, arith, ok, raise, key_error,
}
use python_ctools.Base.Dict.{Dict}
use python_ctools.SortedMap.{
  Order, less, same, greater, Node, SortedMap, read, key_compare, find_from, find, get_value,
  subscript, contains, get,
}
use python_ctools.SortedMap.Shape.{
  Shape, leaf, branch, count, entries, Leads, AllKeys, Before, Ascends, first_same, Holds,
}

Order-cases : (o : Order) → (o ≡ less) ⊎ ((o ≡ same) ⊎ (o ≡ greater))
Order-cases less = inl refl
Order-cases same = inr (inl refl)
Order-cases greater = inr (inr refl)

module _ {ℓ} {K V : Type ℓ} (compare : K → K → Order) where
  -- Entries below the key are passed over, and among entries above it there is none.
  first_same-skip :
      (key : K) (d e : Dict K V)
      → AllKeys (λ i. compare key i ≡ greater) d
      → first_same compare key (d ++ e) ≡ first_same compare key e
  first_same-skip key [] e h = refl
  first_same-skip key ((k, v) ∷ d) e h = rw h.0 (first_same-skip key d e h.1)

  first_same-none :
      (key : K) (d : Dict K V)
      → AllKeys (λ j. compare key j ≡ less) d
      → first_same compare key d ≡ none
  first_same-none key [] h = refl
  first_same-none key ((k, v) ∷ d) h = ground (arith, h.0, first_same-none key d h.1)

  first_same-stop :
      (key : K) (d e : Dict K V)
      → first_same compare key e ≡ none
      → first_same compare key (d ++ e) ≡ first_same compare key d
  first_same-stop key [] e h = h
  first_same-stop key ((k, v) ∷ d) e h = elim (Order-cases (compare key k)) [
    | inl o ↦ ground (arith, o, first_same-stop key d e h)
    | inr (inl o) ↦ ground (arith, o)
    | inr (inr o) ↦ ground (arith, o, first_same-stop key d e h)
  ]

  AllKeys-map {κ μ} :
      (P : K → Type κ) (Q : K → Type μ) (d : Dict K V)
      → ((k : K) → P k → Q k)
      → AllKeys P d
      → AllKeys Q d
  AllKeys-map P Q [] f h = tt
  AllKeys-map P Q ((k, v) ∷ d) f h = (f k h.0, AllKeys-map P Q d f h.1)

  -- In a tree that ascends, one comparison says which side an entry is on.
  first_same-branch :
      (key : K) (l : Shape K V) (n : Node K V) (r : Shape K V)
      → Ascends compare (branch l n r)
      → ((compare key n.key ≡ less)
          → first_same compare key (entries (branch l n r)) ≡ first_same compare key (entries l))
        × ((compare key n.key ≡ greater)
            → first_same compare key (entries (branch l n r)) ≡ first_same compare key (entries r))
        × ((compare key n.key ≡ same)
            → first_same compare key (entries (branch l n r)) ≡ some n.value)
  first_same-branch key l n r a =
      let under : (compare key n.key ≢ less) → AllKeys (λ i. compare key i ≡ greater) (entries l) =
        λ o.
          AllKeys-map (λ i. Before compare i n.key) (λ i. compare key i ≡ greater) (entries l)
            (λ i b. b.above key o) a.0 in
      let over : (compare key n.key ≢ greater) → AllKeys (λ j. compare key j ≡ less) (entries r) =
        λ o.
          AllKeys-map (λ j. Before compare n.key j) (λ j. compare key j ≡ less) (entries r)
            (λ j b. b.below key o) a.1 in
      let rest : Dict K V = (n.key, n.value) ∷ entries r in
      (
        λ o.
            first_same-stop key (entries l) rest
              (ground (arith, o, first_same-none key (entries r) (over (λ e. cc)))),
        λ o. first_same-skip key (entries l) rest (under (λ e. cc)) ∙ ground (arith, o),
        λ o. first_same-skip key (entries l) rest (under (λ e. cc)) ∙ ground (arith, o),
      )

  -- The hypothesis on the order: comparisons succeed, and compute `compare`.
  module _ (tree : SortedMap K V)
      (answers : (a b : K) → key_compare tree.ordering a b ≡ ok (compare a b)) where
    -- From a node on, with fuel for the tree below it, the search finds what the scan finds.
    find_from_lem :
        (t : Shape K V) (fuel x : ℕ) (key : K)
        → count t < fuel
        → Leads tree.nodes x t
        → Ascends compare t
        → ((find_from fuel tree key x ≡ ok none) × (first_same compare key (entries t) ≡ none))
          ⊎ ((p : ℕ) × (n : Node K V) × (find_from fuel tree key x ≡ ok (some p))
              × (read tree p ≡ ok n)
              × (first_same compare key (entries t) ≡ some n.value))
    unfolding find_from read
    find_from_lem t zero x key enough lead a = absurd (omega arith)
    find_from_lem leaf (suc fuel) x key enough lead a = inl (ground (arith, lead.0), refl)
    find_from_lem (branch l n r) (suc fuel) x key enough lead a =
        let sides = first_same-branch key l n r a in
        elim (Order-cases (compare key n.key)) [
          | inl o ↦
              let step : find_from (suc fuel) tree key x ≡ find_from fuel tree key n.left =
                ground (arith, lead.0, lead.1, answers key n.key, o) in
              rw (step, sides.0 o) (find_from_lem l fuel n.left key (omega arith) lead.2.0 a.2.0)
          | inr (inl o) ↦
              let step : find_from (suc fuel) tree key x ≡ ok (some x) =
                ground (arith, lead.0, lead.1, answers key n.key, o) in
              inr (x, n, step, ground (arith, lead.0, lead.1), sides.2 o)
          | inr (inr o) ↦
              let step : find_from (suc fuel) tree key x ≡ find_from fuel tree key n.right =
                ground (arith, lead.0, lead.1, answers key n.key, o) in
              rw (step, sides.1 o) (find_from_lem r fuel n.right key (omega arith) lead.2.1 a.2.1)
        ]

    pub get_value_lem :
        (t : Shape K V) (key : K)
        → Holds compare tree t
        → get_value tree key ≡ ok (first_same compare key (entries t))
    unfolding find get_value
    get_value_lem t key h =
        elim (find_from_lem t (suc tree.size) tree.root key (omega (arith, h.sized)) h.leads
          h.ascends) [
            | inl (found, scanned) ↦ ground arith
            | inr (p, n, found, there, scanned) ↦ ground arith
          ]

    -- On a map whose nodes form a binary search tree, with comparisons that succeed, the search ends
    -- and returns the value of the entry whose key compares the same, if there is one. So `[]`
    -- answers with it or KeyError, `get` with it, else the default, else None, and `in` with
    -- whether there is one.
    pub lookups_lem :
        (t : Shape K V) (py_none : V) (key : K) (default : Option V)
        → Holds compare tree t
        → (get_value tree key ≡ ok (first_same compare key (entries t)))
          × (subscript tree key ≡ elim (first_same compare key (entries t)) [
            | none ↦ raise key_error
            | some v ↦ ok v
          ])
          × (contains tree key
              ≡ ok (elim (first_same compare key (entries t)) [ none ↦ false | some _ ↦ true ]))
          × (get py_none tree key default
              ≡ ok (get_or (first_same compare key (entries t)) (get_or default py_none)))
    unfolding subscript contains get
    lookups_lem t py_none key default h =
        let found = get_value_lem t key h in
        elim (Option-cases (first_same compare key (entries t))) [
          | inl e ↦
              (found, ground (arith, found, e), ground (arith, found, e), ground (arith, found, e))
          | inr (v, e) ↦
              (found, ground (arith, found, e), ground (arith, found, e), ground (arith, found, e))
        ]
