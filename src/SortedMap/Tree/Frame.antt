-- ===== src/SortedMap/Tree/Frame.antt =====
-- A write changes only the trees with its address, and a place can be moved.
use python_ctools.Base.{ℕ, ◌+◌, ◌<◌, ◌≡◌, refl, ◌∙◌, Bool, Option, none, ◌==◌, if◌then◌else◌, arith}
use python_ctools.SortedMap.{Node, SortedMap}
use python_ctools.SortedMap.Store.{Side, left, right}
use python_ctools.SortedMap.Tree.{
  Tree, leaf, branch, Place, top, below, grow, occ, occ_around, Rep, RepAround, root_of, Located,
}

module _ {ℓ} {K V : Type ℓ} where
  -- The two stores agree on the addresses that are counted.
  abbrev pub Agrees : (ℕ → Option (Node K V)) → (ℕ → Option (Node K V)) → (ℕ → ℕ) → Type ℓ
  Agrees nodes nodes' f = (q : ℕ) → 0 < f q → nodes' q ≡ nodes q

  pub Rep-Agrees :
      (nodes nodes' : ℕ → Option (Node K V)) (parent : ℕ) (t : Tree K V)
      → Agrees nodes nodes' (λ q. occ q t)
      → Rep nodes parent t
      → Rep nodes' parent t
  Rep-Agrees nodes nodes' parent leaf a r = tt
  Rep-Agrees nodes nodes' parent (branch c l p k v r) a h = (
    h.0,
    a p (ground arith) ∙ h.1,
    (
      Rep-Agrees nodes nodes' p l (λ q o. a q (omega arith)) h.2.0,
      Rep-Agrees nodes nodes' p r (λ q o. a q (omega arith)) h.2.1,
    ),
  )

  pub RepAround-Agrees :
      (nodes nodes' : ℕ → Option (Node K V)) (z : Place K V) (hole : ℕ)
      → Agrees nodes nodes' (λ q. occ_around q z)
      → RepAround nodes z hole
      → RepAround nodes' z hole
  RepAround-Agrees nodes nodes' top hole a h = tt
  RepAround-Agrees nodes nodes' (below d c p k v s rest) hole a h = (
    h.0,
    a p (ground arith) ∙ h.1,
    (
      Rep-Agrees nodes nodes' p s (λ q o. a q (omega arith)) h.2.0,
      RepAround-Agrees nodes nodes' rest p (λ q o. a q (omega arith)) h.2.1,
    ),
  )

  -- An address that holds no node is nowhere in a tree.
  occ-free :
      (nodes : ℕ → Option (Node K V)) (parent q : ℕ) (t : Tree K V)
      → Rep nodes parent t
      → nodes q ≡ none
      → occ q t ≡ 0
  occ-free nodes parent q leaf h free = refl
  occ-free nodes parent q (branch c l p k v r) h free =
      ground (arith, occ-free nodes p q l h.2.0 free, occ-free nodes p q r h.2.1 free, h.1)

  pub occ_around-free :
      (nodes : ℕ → Option (Node K V)) (q : ℕ) (z : Place K V) (hole : ℕ)
      → RepAround nodes z hole
      → nodes q ≡ none
      → occ_around q z ≡ 0
  occ_around-free nodes q top hole h free = refl
  occ_around-free nodes q (below d c p k v s rest) hole h free =
      ground
        (arith, occ-free nodes p q s h.2.0 free, occ_around-free nodes q rest p h.2.1 free, h.1)

  -- A step up: the tree in the place, with the node above it.
  pub up-Located :
      (tree : SortedMap K V) (d : Side) (c : Bool) (p : ℕ) (k : K) (v : V) (s t : Tree K V)
      (rest : Place K V)
      → Located tree (below d c p k v s rest) t
      → Located tree rest (grow d c t p k v s)
  up-Located tree left c p k v s t rest h = record {
    rep = (h.rep_around.0, h.rep_around.1, (h.rep, h.rep_around.2.0));
    rep_around = h.rep_around.2.1;
    root = h.root;
    distinct = λ q. omega (arith, h.distinct q);
  }
  up-Located tree right c p k v s t rest h = record {
    rep = (h.rep_around.0, h.rep_around.1, (h.rep_around.2.0, h.rep));
    rep_around = h.rep_around.2.1;
    root = h.root;
    distinct = λ q. omega (arith, h.distinct q);
  }

  -- A step down to the side.
  pub down-Located :
      (tree : SortedMap K V) (d : Side) (c : Bool) (p : ℕ) (k : K) (v : V) (s t : Tree K V)
      (rest : Place K V)
      → Located tree rest (grow d c t p k v s)
      → Located tree (below d c p k v s rest) t
  down-Located tree left c p k v s t rest h = record {
    rep = h.rep.2.0;
    rep_around = (h.rep.0, h.rep.1, (h.rep.2.1, h.rep_around));
    root = h.root;
    distinct = λ q. omega (arith, h.distinct q);
  }
  down-Located tree right c p k v s t rest h = record {
    rep = h.rep.2.1;
    rep_around = (h.rep.0, h.rep.1, (h.rep.2.0, h.rep_around));
    root = h.root;
    distinct = λ q. omega (arith, h.distinct q);
  }

  -- the root stands at or above the place
  pub root-counted :
      (z : Place K V) (p : ℕ) → 0 < (if root_of z p == p then 1 else 0) + occ_around (root_of z p) z
  root-counted top p = ground arith
  root-counted (below d c q k v s rest) p = omega (arith, root-counted rest q)
