-- ===== src/SortedMap/Insert/Put.antt =====
-- An insertion stores the entry in the order of the keys.
use python_ctools.Base.{
  ℕ, suc, ◌≡◌, ◌≢◌, inl, inr, refl, sym, ap, subst, ◌∙◌, true, none, [], ◌∷◌, arith, length, Result,
  ok,
}
use python_ctools.Base.Dict.{Dict}
use python_ctools.SortedMap.{Order, same, SortedMap, key_compare}
use python_ctools.SortedMap.Sorted.{TotalOrder, Ascending, put_entry, put_entry-Ascending}
use python_ctools.SortedMap.Valid.{Valid}
use python_ctools.SortedMap.Store.{left, write}
use python_ctools.SortedMap.Insert.{Slot, descend, put_node}
use python_ctools.SortedMap.Insert.Descend.{Opens, Takes, descend_lem}
use python_ctools.SortedMap.Insert.Attach.{insert_fix_lem, attach_lem}
use python_ctools.SortedMap.Tree.{
  Tree, leaf, branch, top, addr, above, entries, count, count_around, cell, Located,
}
use python_ctools.SortedMap.Tree.Links.{read_at}
use python_ctools.SortedMap.Tree.Balance.{
  fill, entries-fill, count-fill, length-entries, length-around,
}
use python_ctools.SortedMap.Tree.Zipper.{Focused, fill-Focused}
use python_ctools.SortedMap.Tree.Focus.{renew}
use python_ctools.SortedMap.Tree.Grow.{write-Kept}

module _ {ℓ} {K V : Type ℓ} (compare : K → K → Order) where
  -- A map that holds these entries, in the order of another.
  pub record Stores (tree : SortedMap K V) (d : Dict K V) (run : Result (SortedMap K V))
      : Type ℓ where
    pub tree' : SortedMap K V
    pub t' : Tree K V
    pub ends : run ≡ ok tree'
    pub valid : Valid compare tree' t'
    pub same_entries : entries t' ≡ d
    pub same_order : tree'.ordering ≡ tree.ordering
    same_sentinel : tree'.sentinel_parent ≡ tree.sentinel_parent

  Valid-Focused : (tree : SortedMap K V) (t : Tree K V) → Valid compare tree t → Focused tree top t
  Valid-Focused tree t h = record {
    located = h.located;
    balanced = h.balanced;
    outer = tt;
    calm = λ e. absurd (let b = h.black in cc);
  }

  module _ (tree : SortedMap K V) (t : Tree K V) (x : ℕ) (key : K) (value : V) where
    replace_value :
        TotalOrder compare
        → Valid compare tree t
        → Takes compare key value tree t (descend (suc tree.size) tree key tree.root 0 same)
        → Stores tree (put_entry compare key value (entries t)) (put_node tree x key value)
    unfolding put_node
    replace_value total h s =
        let node = cell left s.c s.k value (addr s.l) (addr s.r) (above s.z) in
        let old = branch s.c s.l s.p s.k s.v s.r in
        let new = branch s.c s.l s.p s.k value s.r in
        let f = s.focused in
        let tree' : SortedMap K V = write tree s.p node in
        let l = renew tree s.z s.c s.c s.l s.p s.k s.k s.v value s.r f.located in
        let whole =
          fill-Focused tree' s.z new
            (record { located = l; balanced = f.balanced; outer = f.outer; calm = f.calm }) in
        let same_entries : entries (fill s.z new) ≡ put_entry compare key value (entries t) =
          entries-fill s.z new ∙ sym s.stored in
        record {
          tree' = tree';
          t' = fill s.z new;
          ends = ground (
            arith,
            s.ends,
            read_at tree s.p (cell left s.c s.k s.v (addr s.l) (addr s.r) (above s.z))
                f.located.rep.0 f.located.rep.1,
          );
          valid = record {
            located = whole.0;
            balanced = whole.1;
            black = whole.2;
            sized = omega (
              arith,
              (write-Kept tree s.p node).size,
              h.sized,
              sym (ap count s.filled) ∙ count-fill s.z old,
              count-fill s.z new,
            );
            ascending =
                subst (Ascending compare) (sym same_entries)
                  (put_entry-Ascending compare key value (entries t) total h.ascending);
          };
          same_entries = same_entries;
          same_order = (write-Kept tree s.p node).ordering;
          same_sentinel = (write-Kept tree s.p node).sentinel;
        }

    add_entry :
        TotalOrder compare
        → Valid compare tree t
        → x ≢ 0
        → tree.nodes x ≡ none
        → Opens compare key value tree t (descend (suc tree.size) tree key tree.root 0 same)
        → Stores tree (put_entry compare key value (entries t)) (put_node tree x key value)
    unfolding put_node
    add_entry total h nonzero free s =
        let f = s.focused in
        let new = branch true leaf x key value leaf in
        let (tree1, attached, kept1, l1) =
          attach_lem tree s.z s.flag x key value nonzero free f.located s.fits in
        let tree2 : SortedMap K V = record tree1 { size = suc tree.size } in
        let l2 : Located tree2 s.z new = record {
          rep = l1.rep;
          rep_around = l1.rep_around;
          root = l1.root;
          distinct = l1.distinct;
        } in
        let counted : count t ≡ count_around s.z =
          sym (ap count s.filled) ∙ count-fill s.z leaf ∙ omega arith in
        let (tree', t', fixed, kept2, l, b, black, equal) =
          insert_fix_lem tree2 s.z new (omega (arith, counted, h.sized)) refl l2
            (refl, λ e. (refl, refl), (tt, tt)) f.outer in
        let same_entries : entries t' ≡ put_entry compare key value (entries t) =
          equal ∙ sym s.stored in
        record {
          tree' = tree';
          t' = t';
          ends = ground (arith, s.ends, attached, fixed);
          valid = record {
            located = l;
            balanced = b;
            black = black;
            sized = omega (
              arith,
              kept2.size,
              h.sized,
              counted,
              length-entries t',
              ap length equal ∙ length-around s.z ((key, value) ∷ []),
            );
            ascending =
                subst (Ascending compare) (sym same_entries)
                  (put_entry-Ascending compare key value (entries t) total h.ascending);
          };
          same_entries = same_entries;
          same_order = kept2.ordering ∙ kept1.ordering;
          same_sentinel = kept2.sentinel ∙ kept1.sentinel;
        }

    -- On a map that is a red-black tree of its size with ascending keys, under comparisons that
    -- succeed as a total preorder, an insertion at a fresh address ends without a fault; the map is
    -- again such a tree, in the same order, and its entries are those before with the entry stored.
    pub put_node_lem :
        TotalOrder compare
        → ((a b : K) → key_compare tree.ordering a b ≡ ok (compare a b))
        → Valid compare tree t
        → x ≢ 0
        → tree.nodes x ≡ none
        → Stores tree (put_entry compare key value (entries t)) (put_node tree x key value)
    put_node_lem total answers h nonzero free =
        let run : ℕ → Result Slot = λ root. descend (suc tree.size) tree key root 0 same in
        let found =
          descend_lem compare key value tree answers (suc tree.size) t top same
            (omega (arith, h.sized)) (Valid-Focused tree t h) tt (λ d. refl) h.ascending in
        elim found [
          | inl o ↦
              add_entry total h nonzero free
                (subst (λ i. Opens compare key value tree t (run i)) (sym h.located.root) o)
          | inr o ↦
              replace_value total h
                (subst (λ i. Takes compare key value tree t (run i)) (sym h.located.root) o)
        ]
