-- ===== src/SortedMap/Tests/Removed.antt =====
-- Removals from a small map, and the theorem at one.
use python_ctools.Base.{
  ℕ, ◌≡◌, refl, true, false, none, some, List, [], ◌∷◌, ◌++◌, ◌==◌, if◌then◌else◌, arith, Result,
  ok, ◌>>=◌,
}
use python_ctools.SortedMap.{Node, SortedMap, of_sign, key_compare, read, find_from, find, leftmost}
use python_ctools.SortedMap.Store.{
  write, set_child, get_parent, set_parent, is_red, paint, replace_child, rotate,
}
use python_ctools.SortedMap.Insert.{
  descend, insert_end, insert_turn, insert_loop, insert_fix, attach, put_node,
}
use python_ctools.SortedMap.Delete.{
  transplant, sibling, delete_end, delete_near, delete_black, delete_turn, delete_fixup, repair,
  lift, delete_inner, delete, remove_node, remove,
}
use python_ctools.SortedMap.Iterate.{climb, next, iter_from, items}
use python_ctools.SortedMap.Methods.{new}
use python_ctools.SortedMap.Delete.Leave.{Deleted}
use python_ctools.SortedMap.Tree.Zipper.{Focused}
use python_ctools.SortedMap.Delete.Both.{delete_lem}
use python_ctools.SortedMap.Tree.{Tree, leaf, branch, top, entries, around}
use python_ctools.SortedMap.Tests.{numbers}

program : Unit {0}
unfolding of_sign key_compare read find_from find leftmost write set_child get_parent set_parent
    is_red paint replace_child rotate descend insert_end insert_turn insert_loop insert_fix attach
    put_node transplant sibling delete_end delete_near delete_black delete_turn delete_fixup repair
    lift delete_inner delete remove_node remove climb next iter_from items new
program = tt

-- four insertions, and the removal of a node with two children and then of its successor
removals : Result (List (ℕ × ℕ))
removals = do
  tree1 ← put_node (new numbers) 1 5 50
  tree2 ← put_node tree1 2 3 30
  tree3 ← put_node tree2 3 4 40
  tree4 ← put_node tree3 4 6 60
  out ← remove tree4 4
  out' ← remove out.0 5
  items out'.0

removals_items : removals ≡ ok ((3, 30) ∷ (6, 60) ∷ [])
unfolding program removals
removals_items = refl

abbrev root_node : Node ℕ ℕ
root_node = record { key = 5; value = 50; left = 3; right = 2; parent = 0; red = false }

abbrev low_node : Node ℕ ℕ
low_node = record { key = 3; value = 30; left = 0; right = 0; parent = 1; red = true }

abbrev high_node : Node ℕ ℕ
high_node = record { key = 8; value = 80; left = 0; right = 0; parent = 1; red = true }

abbrev full_tree : SortedMap ℕ ℕ
full_tree = record {
  nodes = λ x.
      if x == 1
      then some root_node
      else if x == 2
      then some high_node
      else if x == 3
      then some low_node
      else none;
  root = 1;
  ordering = numbers;
  size = 3;
  sentinel_parent = 0;
}

abbrev low_shape : Tree ℕ ℕ
low_shape = branch true leaf 3 3 30 leaf

abbrev high_shape : Tree ℕ ℕ
high_shape = branch true leaf 2 8 80 leaf

full_tree-Focused : Focused full_tree top (branch false low_shape 1 5 50 high_shape)
full_tree-Focused = record {
  located = record {
    rep = (
      λ e. omega (arith, e),
      refl,
      ((λ e. omega (arith, e), refl, (tt, tt)), (λ e. omega (arith, e), refl, (tt, tt))),
    );
    rep_around = tt;
    root = refl;
    distinct = λ q. ground arith;
  };
  balanced = (
    refl,
    λ e. absurd (cc),
    ((refl, λ e. (refl, refl), (tt, tt)), (refl, λ e. (refl, refl), (tt, tt))),
  );
  outer = tt;
  calm = λ e. absurd (cc);
}

delete_lem_example :
    Deleted full_tree 1 (around top (entries low_shape ++ entries high_shape)) (delete full_tree 1)
delete_lem_example =
    delete_lem full_tree top false low_shape 1 5 50 high_shape full_tree-Focused refl
