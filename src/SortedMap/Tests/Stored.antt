-- ===== src/SortedMap/Tests/Stored.antt =====
-- Insertions into a small map and its entries, and the theorems at it.
use python_ctools.Base.{ℕ, ◌≡◌, refl, true, false, some, List, [], ◌∷◌, arith, Result, ok, ◌>>=◌}
use python_ctools.SortedMap.{
  less, same, greater, SortedMap, of_sign, key_compare, read, find_from, find, get_value, leftmost,
}
use python_ctools.SortedMap.Sorted.{TotalOrder, put_entry}
use python_ctools.SortedMap.Valid.{Valid}
use python_ctools.SortedMap.Lookup.{get_value-put_node}
use python_ctools.SortedMap.Store.{
  write, set_child, get_parent, set_parent, is_red, paint, replace_child, rotate,
}
use python_ctools.SortedMap.Insert.{
  descend, insert_end, insert_turn, insert_loop, insert_fix, attach, put_node,
}
use python_ctools.SortedMap.Insert.Put.{Stores, put_node_lem}
use python_ctools.SortedMap.Iterate.{climb, next, iter_from, items}
use python_ctools.SortedMap.Iterate.Walk.{items_lem}
use python_ctools.SortedMap.Methods.{new}
use python_ctools.SortedMap.Tree.{Tree, leaf, branch, entries}
use python_ctools.SortedMap.Tests.{numbers, compare, numbers_answer, tree, Before-numbers}

program : Unit {0}
unfolding of_sign key_compare read find_from find get_value leftmost write set_child get_parent
    set_parent is_red paint replace_child rotate descend insert_end insert_turn insert_loop
    insert_fix attach put_node climb next iter_from items new
program = tt

abbrev shape : Tree ℕ ℕ
shape = branch false (branch true leaf 2 3 30 leaf) 1 5 50 leaf

numbers-TotalOrder : TotalOrder compare
numbers-TotalOrder = record { turns = λ a b. ground arith; chains = λ a b c h g e. ground arith }

shape-Valid : Valid compare tree shape
shape-Valid = record {
  located = record {
    rep = (λ e. omega (arith, e), refl, ((λ e. omega (arith, e), refl, (tt, tt)), tt));
    rep_around = tt;
    root = refl;
    distinct = λ q. ground arith;
  };
  balanced = (refl, λ e. absurd (cc), ((refl, λ e. (refl, refl), (tt, tt)), tt));
  black = refl;
  sized = refl;
  ascending = ((Before-numbers, tt), (tt, tt));
}

-- three insertions, the last with a rotation, and the walk over the map
three : Result (List (ℕ × ℕ))
three = do
  tree1 ← put_node (new numbers) 1 5 50
  tree2 ← put_node tree1 2 3 30
  tree3 ← put_node tree2 3 4 40
  items tree3

three_items : three ≡ ok ((3, 30) ∷ (4, 40) ∷ (5, 50) ∷ [])
unfolding program three
three_items = refl

put_node_lem_example :
    Stores compare tree (put_entry compare 4 40 (entries shape)) (put_node tree 3 4 40)
put_node_lem_example =
    put_node_lem compare tree shape 3 4 40 numbers-TotalOrder numbers_answer shape-Valid
      (λ e. omega (arith, e)) refl

get_value-put_node_example :
    (tree' : SortedMap ℕ ℕ) × (put_node tree 3 4 40 ≡ ok tree')
    × (get_value tree' 4 ≡ elim (compare 4 4) [
      | less ↦ get_value tree 4
      | same ↦ ok (some 40)
      | greater ↦ get_value tree 4
    ])
get_value-put_node_example =
    get_value-put_node compare tree shape 3 4 4 40 numbers-TotalOrder numbers_answer shape-Valid
      (λ e. omega (arith, e)) refl

items_lem_example : items tree ≡ ok (entries shape)
items_lem_example = items_lem compare tree shape shape-Valid
