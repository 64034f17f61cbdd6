-- ===== src/SortedMap/Delete/Fixup.antt =====
-- The whole repair after a deletion, by induction on the place that is short of a black node.
use python_ctools.Base.{
  ℕ, zero, suc, ◌+◌, ◌<◌, ◌≡◌, ◌≢◌, refl, sym, ap, subst, ◌∙◌, Bool, true, false, inl, inr, arith,
  ◌>>=◌,
}
use python_ctools.SortedMap.{SortedMap}
use python_ctools.SortedMap.Store.{Side}
use python_ctools.SortedMap.Delete.{delete_turn, delete_black, delete_fixup}
use python_ctools.SortedMap.Delete.Turns.{Anchored, Anchored-Kept}
use python_ctools.SortedMap.Delete.Black.{Levels}
use python_ctools.SortedMap.Delete.Sibling.{delete_black_lem, black_turn, red_turn}
use python_ctools.SortedMap.Delete.Loop.{Repaired, Missing, exit_lem, BlackAt, blacken-black}
use python_ctools.SortedMap.Tree.{
  Tree, leaf, branch, Place, top, below, addr, red_root, above, grow, entries, around, count,
  count_around, occ, RepAround, root_of, Located,
}
use python_ctools.SortedMap.Tree.Frame.{up-Located}
use python_ctools.SortedMap.Tree.Grow.{
  grow-parts, addr-grow, near_of, far_of, near_of_both, far_of_both, branch-grow, entries-grow,
  occ-grow, Kept-refl,
}
use python_ctools.SortedMap.Tree.Balance.{
  raised, height, Balanced, above_black, BalancedAround, Balanced-parts, around-grow,
}
use python_ctools.SortedMap.Tree.Turn.{entries-turn}
use python_ctools.SortedMap.Delete.Steps.{
  Repairs, carry, after_turn, fixup_step, root_of-nonzero, roots-apart, not-root, stale_lem,
  levels_lem,
}

module _ {ℓ} {K V : Type ℓ} where
  -- A turn with a black sibling.
  black_case :
      (fuel root : ℕ) (tree : SortedMap K V) (rest : Place K V) (d : Side) (c : Bool) (t : Tree K V)
      (p : ℕ) (kp : K) (vp : V) (b : Tree K V) (q : ℕ) (kq : K) (vq : V) (e : Tree K V)
      → Repairs K V (suc fuel) root
      → suc (count_around rest) < suc fuel
      → Anchored tree t p
      → Levels t b e
      → Located tree rest (grow d c t p kp vp (grow d false b q kq vq e))
      → BalancedAround rest (raised c (suc (height t)))
      → (c ≡ true → above_black rest ≡ true)
      → (c ≡ false → root ≡ root_of rest p)
      → ((tree' : SortedMap K V) (t' : Tree K V)
          → Located tree' rest t'
          → BlackAt tree'.nodes p
          → BlackAt tree'.nodes root)
      → root ≢ 0
      → Repaired tree rest (grow d c t p kp vp (grow d false b q kq vq e)) (
          delete_black d root tree (addr t) q >>= (λ out. delete_fixup (suc fuel) root out.0 out.1))
  black_case fuel root tree rest d c t p kp vp b q kq vq e repairs enough anchored lev h outer calm
        at_root stale root_there =
      let parts =
        grow-parts tree.nodes d c t p kp vp (grow d false b q kq vq e) (above rest) h.rep in
      after_turn fuel root tree rest c (suc (height t)) p
        (grow d c t p kp vp (grow d false b q kq vq e)) (delete_black d root tree (addr t) q)
        repairs enough root_there parts.0 outer calm at_root stale
        (delete_black_lem root tree rest d c t p kp vp b q kq vq e anchored lev h)

  -- A turn with a red sibling, whose near child is the next sibling.
  red_case :
      (fuel root : ℕ) (tree : SortedMap K V) (rest : Place K V) (d : Side) (t : Tree K V) (p : ℕ)
      (kp : K) (vp : V) (b : Tree K V) (q : ℕ) (kq : K) (vq : V) (e : Tree K V)
      → Repairs K V (suc fuel) root
      → suc (suc (count e + count_around rest)) < suc fuel
      → Anchored tree t p
      → Balanced t
      → height b ≡ suc (height t)
      → Balanced (grow d true b q kq vq e)
      → Located tree rest (grow d false t p kp vp (grow d true b q kq vq e))
      → BalancedAround rest (suc (suc (height t)))
      → root ≡ root_of rest p
      → Repaired tree rest
          (grow d false t p kp vp (grow d true b q kq vq e))
          (delete_turn d root tree (addr t) p >>= (λ out. delete_fixup (suc fuel) root out.0 out.1))
  red_case fuel root tree rest d t p kp vp leaf q kq vq e repairs enough anchored tb level wb h
        outer at_root =
      absurd (omega (arith, level))
  red_case fuel root tree rest d t p kp vp (branch true l s k v r) q kq vq e repairs enough anchored
        tb level wb h outer at_root =
      absurd (let f = ((Balanced-parts d true (branch true l s k v r) q kq vq e wb).1 refl).0 in cc)
  red_case fuel root tree rest d t p kp vp (branch false l s k v r) q kq vq e repairs enough
        anchored tb level wb h outer at_root =
      let b = branch false l s k v r in
      let place = below d false q kq vq e rest in
      let (tree', turned, kept, l3) = red_turn root tree rest d t p kp vp b q kq vq e anchored h in
      let form = branch-grow d false l s k v r in
      let l4 = subst (λ i. Located tree' place (grow d true t p kp vp i)) form l3 in
      let wp = Balanced-parts d true b q kq vq e wb in
      let bb = wp.2.0 in
      let l_height : height l ≡ height t = omega (arith, level) in
      let lev = levels_lem d t l r l_height (sym bb.0 ∙ l_height) tb bb.2.0 bb.2.1 in
      let parts =
        grow-parts tree.nodes d false t p kp vp (grow d true b q kq vq e) (above rest) h.rep in
      let root_there : root ≢ 0 = λ i.
        root_of-nonzero tree.nodes rest p parts.0
          (subst (RepAround tree.nodes rest) (addr-grow d false t p kp vp (grow d true b q kq vq e))
            h.rep_around)
          (sym at_root ∙ i) in
      let rec =
        black_case fuel root tree' place d true t p kp vp (near_of d l r) s k v (far_of d l r)
          repairs (omega arith) (Anchored-Kept tree tree' t p kept anchored) lev l4
          (sym wp.0 ∙ level, λ i. absurd (cc), (wp.2.1, outer)) (λ i. refl) (λ i. absurd (cc))
          (λ tree'' t'' h'' at.
            subst (BlackAt tree''.nodes) (sym at_root)
              (stale_lem tree''.nodes rest (suc (suc (height t))) q p h''.rep_around.2.1 outer at))
          root_there in
      carry tree tree' rest place (grow d false t p kp vp (grow d true b q kq vq e))
        (grow d true t p kp vp (grow d false (near_of d l r) s k v (far_of d l r)))
        (delete_turn d root tree (addr t) p >>= (λ out. delete_fixup (suc fuel) root out.0 out.1))
        (delete_black d root tree' (addr t) s >>= (λ out. delete_fixup (suc fuel) root out.0 out.1))
        rec kept (ap (λ i. i >>= (λ out. delete_fixup (suc fuel) root out.0 out.1)) turned)
        (around-grow d false q kq vq e
            (grow d true t p kp vp (grow d false (near_of d l r) s k v (far_of d l r))) rest
          ∙ ap (around rest) (
              entries-grow d false false
                (grow d true t p kp vp (grow d false (near_of d l r) s k v (far_of d l r)))
                (grow d true t p kp vp b) q kq vq e e
                (ap (λ i. entries (grow d true t p kp vp i)) (sym form)) refl
              ∙ entries-turn d false true true false t p kp vp b q kq vq e))
        (λ i. omega (
          arith,
          occ-grow i d true t p kp vp (grow d false (near_of d l r) s k v (far_of d l r)),
          ap (occ i) form,
          occ-grow i d true b q kq vq e,
          occ-grow i d false t p kp vp (grow d true b q kq vq e),
        ))

  black_lem :
      (fuel root : ℕ) (tree : SortedMap K V) (z : Place K V) (t : Tree K V)
      → Repairs K V (suc fuel) root
      → suc (count_around z) < suc (suc fuel)
      → Missing root tree z t
      → red_root t ≡ false
      → BalancedAround z (suc (height t))
      → tree.root ≡ root
      → Repaired tree z t (delete_fixup (suc (suc fuel)) root tree (addr t))
  black_lem fuel root tree top t repairs enough m black outer at_root =
      exit_lem (suc fuel) root tree top t m.located m.balanced tt
        (inl (sym m.located.root ∙ at_root))
  black_lem fuel root tree (below d c p kp vp leaf rest) t repairs enough m black outer at_root =
      absurd (omega (arith, outer.0))
  black_lem fuel root tree (below d true p kp vp (branch true l q kq vq r) rest) t repairs enough m
        black outer at_root =
      absurd (let f = (outer.1 refl).0 in cc)
  black_lem fuel root tree (below d false p kp vp (branch true l q kq vq r) rest) t repairs enough m
        black outer at_root =
      let w = branch true l q kq vq r in
      let up = up-Located tree d false p kp vp w t rest m.located in
      let form = branch-grow d true l q kq vq r in
      let h = subst (λ i. Located tree rest (grow d false t p kp vp i)) form up in
      let tb : Balanced t = subst Balanced (blacken-black t black) m.balanced in
      let bw = outer.2.0 in
      let root_is : root ≡ root_of rest p = sym at_root ∙ m.located.root in
      let step =
        fixup_step (suc fuel) root tree rest d false t p kp vp w m.anchored black
          (λ e. not-root tree rest d false t p kp vp w up (e ∙ sym at_root))
          (roots-apart tree rest d false t p kp vp w outer.0 up) up in
      let same =
        ap (λ i. around rest (entries (grow d false t p kp vp i))) (sym form)
        ∙ sym (around-grow d false p kp vp w t rest) in
      let level : height l ≡ suc (height t) = outer.0 in
      let rec =
        red_case fuel root tree rest d t p kp vp (near_of d l r) q kq vq (far_of d l r) repairs
          (far_of_both (λ i. suc (suc (count i + count_around rest)) < suc fuel) d l r (omega arith)
            (omega arith))
          m.anchored tb
          (near_of_both (λ i. height i ≡ suc (height t)) d l r level (sym bw.0 ∙ level))
          (subst Balanced form bw) h outer.2.1 root_is in
      carry tree tree (below d false p kp vp w rest) rest t
        (grow d false t p kp vp (grow d true (near_of d l r) q kq vq (far_of d l r)))
        (delete_fixup (suc (suc fuel)) root tree (addr t))
        (delete_turn d root tree (addr t) p >>= (λ out. delete_fixup (suc fuel) root out.0 out.1))
        rec (Kept-refl tree) step same
        (λ i. omega (
          arith,
          occ-grow i d false t p kp vp (grow d true (near_of d l r) q kq vq (far_of d l r)),
          ap (occ i) form,
        ))
  black_lem fuel root tree (below d c p kp vp (branch false l q kq vq r) rest) t repairs enough m
        black outer at_root =
      let w = branch false l q kq vq r in
      let up = up-Located tree d c p kp vp w t rest m.located in
      let form = branch-grow d false l q kq vq r in
      let h = subst (λ i. Located tree rest (grow d c t p kp vp i)) form up in
      let tb : Balanced t = subst Balanced (blacken-black t black) m.balanced in
      let bw = outer.2.0 in
      let root_is : root ≡ root_of rest p = sym at_root ∙ m.located.root in
      let step =
        fixup_step (suc fuel) root tree rest d c t p kp vp w m.anchored black
          (λ e. not-root tree rest d c t p kp vp w up (e ∙ sym at_root))
          (roots-apart tree rest d c t p kp vp w outer.0 up) up in
      let same =
        ap (λ i. around rest (entries (grow d c t p kp vp i))) (sym form)
        ∙ sym (around-grow d c p kp vp w t rest) in
      let level : height l ≡ height t = omega (arith, outer.0) in
      let parts = grow-parts tree.nodes d c t p kp vp w (above rest) up.rep in
      let root_there : root ≢ 0 = λ i.
        root_of-nonzero tree.nodes rest p parts.0
          (subst (RepAround tree.nodes rest) (addr-grow d c t p kp vp w) up.rep_around)
          (sym root_is ∙ i) in
      let rec =
        black_case fuel root tree rest d c t p kp vp (near_of d l r) q kq vq (far_of d l r) repairs
          (omega arith) m.anchored (levels_lem d t l r level (sym bw.0 ∙ level) tb bw.2.0 bw.2.1) h
          outer.2.1 (λ e. (outer.1 e).1) (λ e. root_is)
          (λ tree' t' h' at. subst (BlackAt tree'.nodes) (sym root_is) (
            stale_lem tree'.nodes rest (raised c (suc (height t))) (addr t') p h'.rep_around
              outer.2.1 at))
          root_there in
      carry tree tree (below d c p kp vp w rest) rest t
        (grow d c t p kp vp (grow d false (near_of d l r) q kq vq (far_of d l r)))
        (delete_fixup (suc (suc fuel)) root tree (addr t))
        (delete_black d root tree (addr t) q >>= (λ out. delete_fixup (suc fuel) root out.0 out.1))
        rec (Kept-refl tree)
        (step
          ∙ ap (λ i. i >>= (λ out. delete_fixup (suc fuel) root out.0 out.1))
              (black_turn root tree rest d c t p kp vp w refl up))
        same
        (λ i. omega (
          arith,
          occ-grow i d c t p kp vp (grow d false (near_of d l r) q kq vq (far_of d l r)),
          ap (occ i) form,
        ))

  -- The repair of a place that is short of a black node ends, in a red-black tree with the entries.
  pub fixup_lem : (fuel root : ℕ) → Repairs K V fuel root
  fixup_lem zero root tree z t enough m = absurd (omega arith)
  fixup_lem (suc zero) root tree z t enough m = absurd (omega arith)
  fixup_lem (suc (suc fuel)) root tree z t enough m = elim m.short [
    | inl (red, outer) ↦ exit_lem (suc fuel) root tree z t m.located m.balanced outer (inr red)
    | inr (black, outer, at_root) ↦
        black_lem fuel root tree z t (fixup_lem (suc fuel) root) enough m black outer at_root
  ]
