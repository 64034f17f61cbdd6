-- ===== src/SortedMap/Tree.antt =====
-- Search trees with the addresses of their nodes, a place in one, and when the nodes of a map are
-- laid out like that.
pub mod Frame
pub mod Links
pub mod Rotate
pub mod Grow
pub mod Turn
pub mod Focus
pub mod Balance
pub mod Zipper
use python_ctools.Base.{
  ℕ, zero, suc, ◌+◌, ◌≤◌, ◌≡◌, ◌≢◌, Bool, true, false, Option, none, some, [], ◌∷◌, ◌++◌, ◌==◌,
  if◌then◌else◌,
}
use python_ctools.Base.Dict.{Dict}
use python_ctools.SortedMap.{Node, SortedMap}
use python_ctools.SortedMap.Store.{Side, left, right}

-- A branch has its colour (red or not), left subtree, address, key, value and right subtree.
pub data Tree {ℓ} (K V : Type ℓ) : Type ℓ where
  leaf : Tree K V
  branch : Bool → Tree K V → ℕ → K → V → Tree K V → Tree K V

-- A place below nodes: the side of the place, then colour, address, key, value and other subtree of
-- the node above it, and so on to the root.
pub data Place {ℓ} (K V : Type ℓ) : Type ℓ where
  top : Place K V
  below : Side → Bool → ℕ → K → V → Tree K V → Place K V → Place K V

module _ {ℓ} {K V : Type ℓ} where
  abbrev pub addr : Tree K V → ℕ
  addr leaf = 0
  addr (branch c l p k v r) = p

  abbrev pub red_root : Tree K V → Bool
  red_root leaf = false
  red_root (branch c l p k v r) = c

  -- the address above a place
  abbrev pub above : Place K V → ℕ
  above top = 0
  above (below d c p k v s rest) = p

  -- a branch with a subtree on the given side and the other one
  abbrev pub grow : Side → Bool → Tree K V → ℕ → K → V → Tree K V → Tree K V
  grow left c a p k v b = branch c a p k v b
  grow right c a p k v b = branch c b p k v a

  -- the entries from left to right
  abbrev pub entries : Tree K V → Dict K V
  entries leaf = []
  entries (branch c l p k v r) = entries l ++ (k, v) ∷ entries r

  -- the entries around a place, with those of the place
  abbrev pub around : Place K V → Dict K V → Dict K V
  around top d = d
  around (below left c p k v s rest) d = around rest (d ++ (k, v) ∷ entries s)
  around (below right c p k v s rest) d = around rest (entries s ++ (k, v) ∷ d)

  abbrev pub count : Tree K V → ℕ
  count leaf = 0
  count (branch c l p k v r) = suc (count l + count r)

  abbrev pub count_around : Place K V → ℕ
  count_around top = 0
  count_around (below d c p k v s rest) = suc (count s + count_around rest)

  -- how often an address stands in a tree, and around a place
  abbrev pub occ : ℕ → Tree K V → ℕ
  occ q leaf = 0
  occ q (branch c l p k v r) = occ q l + (if q == p then 1 else 0) + occ q r

  abbrev pub occ_around : ℕ → Place K V → ℕ
  occ_around q top = 0
  occ_around q (below d c p k v s rest) = (if q == p then 1 else 0) + occ q s + occ_around q rest

  -- the node at an address, with the children on the given side and the other one
  abbrev pub cell : Side → Bool → K → V → ℕ → ℕ → ℕ → Node K V
  cell left c k v a b parent = record {
    key = k;
    value = v;
    left = a;
    right = b;
    parent = parent;
    red = c;
  }
  cell right c k v a b parent = record {
    key = k;
    value = v;
    left = b;
    right = a;
    parent = parent;
    red = c;
  }

  -- The nodes are laid out as the tree, whose root has the given parent.
  abbrev pub Rep : (ℕ → Option (Node K V)) → ℕ → Tree K V → Type ℓ
  Rep nodes parent leaf = Unit {ℓ}
  Rep nodes parent (branch c l p k v r) =
      (p ≢ 0)
      × (nodes p ≡ some (cell left c k v (addr l) (addr r) parent))
      × (Rep nodes p l × Rep nodes p r)

  -- The nodes are laid out as what is around a place that holds the given address.
  abbrev pub RepAround : (ℕ → Option (Node K V)) → Place K V → ℕ → Type ℓ
  RepAround nodes top hole = Unit {ℓ}
  RepAround nodes (below d c p k v s rest) hole =
      (p ≢ 0)
      × (nodes p ≡ some (cell d c k v hole (addr s) (above rest)))
      × (Rep nodes p s × RepAround nodes rest p)

  abbrev pub root_of : Place K V → ℕ → ℕ
  root_of top hole = hole
  root_of (below d c p k v s rest) hole = root_of rest p

  -- The nodes of a map are laid out as a place and the tree in it.
  pub record Located (tree : SortedMap K V) (z : Place K V) (t : Tree K V) : Type ℓ where
    pub rep : Rep tree.nodes (above z) t
    pub rep_around : RepAround tree.nodes z (addr t)
    pub root : tree.root ≡ root_of z (addr t)
    pub distinct : (q : ℕ) → occ q t + occ_around q z ≤ 1
