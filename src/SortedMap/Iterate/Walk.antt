-- ===== src/SortedMap/Iterate/Walk.antt =====
-- A walk from the first node on meets every entry in order.
use mathlib.Core.List.{append_assoc, append-nil}
use python_ctools.Base.{
  ℕ, zero, suc, ◌+◌, ◌<◌, ◌≡◌, ◌≢◌, ◌⊎◌, inl, inr, refl, sym, ap, subst, ◌∙◌, Bool, none, some, [],
  ◌∷◌, ◌++◌, arith, length, ok,
}
use python_ctools.Base.Dict.{Dict}
use python_ctools.SortedMap.{Order, SortedMap, leftmost}
use python_ctools.SortedMap.Valid.{Valid}
use python_ctools.SortedMap.Store.{Side, left, right}
use python_ctools.SortedMap.Iterate.{climb, next, iter_from, items}
use python_ctools.SortedMap.Tree.{
  Tree, leaf, branch, Place, top, below, addr, above, entries, count, count_around, occ, cell,
  root_of, Located,
}
use python_ctools.SortedMap.Tree.Frame.{root-counted, up-Located, down-Located}
use python_ctools.SortedMap.Tree.Links.{read_at, addr-ne}
use python_ctools.SortedMap.Tree.Grow.{occ-addr}
use python_ctools.SortedMap.Tree.Focus.{get_parent_lem}
use python_ctools.SortedMap.Tree.Balance.{length-entries}

module _ {ℓ} {K V : Type ℓ} where
  -- the entries after a place
  abbrev after : Place K V → Dict K V
  after top = []
  after (below left c p k v s rest) = (k, v) ∷ entries s ++ after rest
  after (below right c p k v s rest) = after rest

  -- The address is that of a node, from which on there are these entries.
  record Stands (tree : SortedMap K V) (d : Dict K V) (q : ℕ) : Type ℓ where
    z : Place K V
    c : Bool
    l : Tree K V
    k : K
    v : V
    r : Tree K V
    located : Located tree z (branch c l q k v r)
    sized : suc (count l + count r) + count_around z ≡ tree.size
    remain : (k, v) ∷ entries r ++ after z ≡ d

  leftmost_lem :
      (fuel : ℕ) (tree : SortedMap K V) (z : Place K V) (c : Bool) (l : Tree K V) (p : ℕ) (k : K)
      (v : V) (r : Tree K V)
      → count l < fuel
      → Located tree z (branch c l p k v r)
      → suc (count l + count r) + count_around z ≡ tree.size
      → (q : ℕ) × (leftmost fuel tree p ≡ ok q)
        × Stands tree (entries (branch c l p k v r) ++ after z) q
  unfolding leftmost
  leftmost_lem zero tree z c l p k v r enough h sized = absurd (omega arith)
  leftmost_lem (suc fuel) tree z c leaf p k v r enough h sized = (
    p,
    ground (arith, read_at tree p (cell left c k v 0 (addr r) (above z)) h.rep.0 h.rep.1),
    record {
      z = z;
      c = c;
      l = leaf;
      k = k;
      v = v;
      r = r;
      located = h;
      sized = sized;
      remain = refl;
    },
  )
  leftmost_lem (suc fuel) tree z c (branch c' l' p' k' v' r') p k v r enough h sized =
      let low = branch c' l' p' k' v' r' in
      let down = down-Located tree left c p k v r low z h in
      let (q, found, s) =
        leftmost_lem fuel tree (below left c p k v r z) c' l' p' k' v' r' (omega arith) down
          (omega arith) in
      (
        q,
        ground (
          arith,
          read_at tree p (cell left c k v p' (addr r) (above z)) h.rep.0 h.rep.1,
          down.rep.0,
          found,
        ),
        subst (λ d. Stands tree d q)
            (sym (append_assoc (entries low) ((k, v) ∷ entries r) (after z))) s,
      )

  below-root :
      (tree : SortedMap K V) (d : Side) (c : Bool) (p : ℕ) (k : K) (v : V) (s t : Tree K V)
      (rest : Place K V)
      → addr t ≢ 0
      → Located tree (below d c p k v s rest) t
      → addr t ≢ tree.root
  below-root tree d c p k v s t rest there h e =
      let r : addr t ≡ root_of rest p = e ∙ h.root in
      omega (
        arith,
        h.distinct (root_of rest p),
        root-counted rest p,
        subst (λ i. 0 < occ i t) r (occ-addr t there),
      )

  climb_lem :
      (fuel : ℕ) (tree : SortedMap K V) (z : Place K V) (t : Tree K V)
      → count_around z < fuel
      → addr t ≢ 0
      → Located tree z t
      → count t + count_around z ≡ tree.size
      → ((climb fuel tree (addr t) ≡ ok none) × (after z ≡ []))
        ⊎ ((q : ℕ) × (climb fuel tree (addr t) ≡ ok (some q)) × Stands tree (after z) q)
  unfolding climb
  climb_lem zero tree z t enough there h sized = absurd (omega arith)
  climb_lem (suc fuel) tree top t enough there h sized =
      inl (ground (arith, get_parent_lem tree 0 t h.rep there, h.root), refl)
  climb_lem (suc fuel) tree (below left c p k v s rest) t enough there h sized =
      let not_root : addr t ≢ tree.root = below-root tree left c p k v s t rest there h in
      inr (
        p,
        ground (
          arith,
          get_parent_lem tree p t h.rep there,
          not_root,
          read_at tree p (cell left c k v (addr t) (addr s) (above rest)) h.rep_around.0
              h.rep_around.1,
        ),
        record {
          z = rest;
          c = c;
          l = t;
          k = k;
          v = v;
          r = s;
          located = up-Located tree left c p k v s t rest h;
          sized = omega arith;
          remain = refl;
        },
      )
  climb_lem (suc fuel) tree (below right c p k v s rest) t enough there h sized =
      let not_root : addr t ≢ tree.root = below-root tree right c p k v s t rest there h in
      let not_left : addr t ≢ addr s =
        addr-ne s (addr t) there (omega (arith, h.distinct (addr t), occ-addr t there)) in
      let step : climb (suc fuel) tree (addr t) ≡ climb fuel tree p = ground (
        arith,
        get_parent_lem tree p t h.rep there,
        not_root,
        not_left,
        read_at tree p (cell right c k v (addr t) (addr s) (above rest)) h.rep_around.0
            h.rep_around.1,
      ) in
      rw step (
        climb_lem fuel tree rest (branch c s p k v t) (omega arith) h.rep_around.0
          (up-Located tree right c p k v s t rest h) (omega arith))

  next_lem :
      (tree : SortedMap K V) (z : Place K V) (c : Bool) (l : Tree K V) (q : ℕ) (k : K) (v : V)
      (r : Tree K V)
      → Located tree z (branch c l q k v r)
      → suc (count l + count r) + count_around z ≡ tree.size
      → ((next tree q ≡ ok none) × (entries r ++ after z ≡ []))
        ⊎ ((q' : ℕ) × (next tree q ≡ ok (some q')) × Stands tree (entries r ++ after z) q')
  unfolding next
  next_lem tree z c l q k v leaf h sized =
      let node = cell left c k v (addr l) 0 (above z) in
      let step : next tree q ≡ climb (suc tree.size) tree q =
        ground (arith, read_at tree q node h.rep.0 h.rep.1) in
      rw step (
        climb_lem (suc tree.size) tree z (branch c l q k v leaf) (omega arith) h.rep.0 h
          (omega arith))
  next_lem tree z c l q k v (branch c' l' p' k' v' r') h sized =
      let node = cell left c k v (addr l) p' (above z) in
      let down = down-Located tree right c q k v l (branch c' l' p' k' v' r') z h in
      let (q', found, s) =
        leftmost_lem (suc tree.size) tree (below right c q k v l z) c' l' p' k' v' r' (omega arith)
          down (omega arith) in
      inr (q', ground (arith, read_at tree q node h.rep.0 h.rep.1, down.rep.0, found), s)

  iter_from_lem :
      (room : ℕ) (tree : SortedMap K V) (d : Dict K V) (q : ℕ)
      → Stands tree d q
      → length d ≡ room
      → iter_from room tree (some q) ≡ ok d
  unfolding iter_from
  iter_from_lem zero tree d q s full = absurd (omega (arith, ap length s.remain))
  iter_from_lem (suc room) tree d q s full =
      let node = cell left s.c s.k s.v (addr s.l) (addr s.r) (above s.z) in
      let there = read_at tree q node s.located.rep.0 s.located.rep.1 in
      let left_over : length (entries s.r ++ after s.z) ≡ room =
        omega (arith, ap length s.remain) in
      elim (next_lem tree s.z s.c s.l q s.k s.v s.r s.located s.sized) [
        | inl (last, empty) ↦
            let none_left : room ≡ 0 = sym left_over ∙ ap length empty in
            let end : iter_from room tree none ≡ ok [] =
              ap (λ n. iter_from n tree none) none_left in
            ground (arith, there, last, end)
            ∙ ap (λ i. ok ((s.k, s.v) ∷ i)) (sym empty)
            ∙ ap ok s.remain
        | inr (q', step, s') ↦
            let rest = iter_from_lem room tree (entries s.r ++ after s.z) q' s' left_over in
            ground (arith, there, step, rest) ∙ ap ok s.remain
      ]

  -- On a map that is a red-black tree of its size with ascending keys, the walk over the nodes
  -- ends, and `items` lists all entries from left to right.
  pub items_lem :
      (compare : K → K → Order) (tree : SortedMap K V) (t : Tree K V)
      → Valid compare tree t
      → items tree ≡ ok (entries t)
  unfolding items
  items_lem compare tree leaf h = ground (arith, h.sized)
  items_lem compare tree (branch c l p k v r) h =
      let (q, found, s) =
        leftmost_lem (suc tree.size) tree top c l p k v r (omega (arith, h.sized)) h.located
          (omega (arith, h.sized)) in
      let whole = append-nil (entries (branch c l p k v r)) in
      let listed =
        iter_from_lem tree.size tree (entries (branch c l p k v r) ++ []) q s
          (ap length whole ∙ length-entries (branch c l p k v r) ∙ sym h.sized) in
      let there : tree.size ≢ 0 = omega (arith, h.sized) in
      ground (arith, there, h.located.root, found, listed) ∙ ap ok whole
