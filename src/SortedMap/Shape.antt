-- ===== src/SortedMap/Shape.antt =====
-- The binary search tree that the nodes of a map stand for.
use python_ctools.Base.{ℕ, suc, ◌+◌, ◌≡◌, ◌≢◌, Option, none, some, [], ◌∷◌, ◌++◌}
use python_ctools.Base.Dict.{Dict}
use python_ctools.SortedMap.{Order, less, same, greater, Node, SortedMap}

pub data Shape {ℓ} (K V : Type ℓ) : Type ℓ where
  leaf : Shape K V
  branch : Shape K V → Node K V → Shape K V → Shape K V

module _ {ℓ} {K V : Type ℓ} where
  abbrev pub count : Shape K V → ℕ
  count leaf = 0
  count (branch l n r) = count l + suc (count r)

  -- the entries from left to right
  abbrev pub entries : Shape K V → Dict K V
  entries leaf = []
  entries (branch l n r) = entries l ++ (n.key, n.value) ∷ entries r

  -- The pointer `x` leads to the tree.
  abbrev pub Leads : (ℕ → Option (Node K V)) → ℕ → Shape K V → Type ℓ
  Leads nodes x leaf = (x ≡ 0) × Unit {ℓ}
  Leads nodes x (branch l n r) =
      (x ≢ 0) × (nodes x ≡ some n) × (Leads nodes n.left l × Leads nodes n.right r)

-- a condition on every key
abbrev pub AllKeys {ℓ κ} : {K V : Type ℓ} → (K → Type κ) → Dict K V → Type κ
AllKeys P [] = Unit
AllKeys P ((k, _) ∷ d) = P k × AllKeys P d

-- Whatever is not below `j` is above `i`, and whatever is not above `i` is below `j`.
pub record Before {ℓ} {K : Type ℓ} (compare : K → K → Order) (i j : K) : Type ℓ where
  pub above : (q : K) → compare q j ≢ less → compare q i ≡ greater
  pub below : (q : K) → compare q i ≢ greater → compare q j ≡ less

module _ {ℓ} {K V : Type ℓ} where
  module _ (compare : K → K → Order) where
    -- The keys ascend from left to right.
    abbrev pub Ascends : Shape K V → Type ℓ
    Ascends leaf = Unit {ℓ}
    Ascends (branch l n r) =
        AllKeys (λ i. Before compare i n.key) (entries l)
        × AllKeys (λ j. Before compare n.key j) (entries r)
        × (Ascends l × Ascends r)

    -- The value of the first key that compares the same.
    abbrev pub first_same : K → Dict K V → Option V
    first_same key [] = none
    first_same key ((k, v) ∷ d) = elim (compare key k) [
      | less ↦ first_same key d
      | same ↦ some v
      | greater ↦ first_same key d
    ]

  -- The nodes of the map form a tree of its size, whose keys ascend.
  pub record Holds (compare : K → K → Order) (tree : SortedMap K V) (t : Shape K V) : Type ℓ where
    pub leads : Leads tree.nodes tree.root t
    pub sized : count t ≡ tree.size
    pub ascends : Ascends compare t
