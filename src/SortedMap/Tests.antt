-- ===== src/SortedMap/Tests.antt =====
-- Lookups in a small map, and the theorem at it.
mod Stored
mod Removed
use mathlib.Core.Option.{get_or}
use python_ctools.Base.{
  ℕ, ◌≡◌, refl, true, false, Option, none, some, ltb, ◌==◌, if◌then◌else◌, arith, ok, raise,
  key_error, type_error,
}
use python_ctools.SortedMap.{
  min_item, max_item, Order, less, same, greater, Ordering, rich, cmpfunc, Node, SortedMap, of_sign,
  key_compare, read, find_from, find, get_value, subscript, contains, get,
}
use python_ctools.SortedMap.Shape.{Shape, leaf, branch, entries, first_same, Before, Holds}
use python_ctools.SortedMap.Ends.{first_entry, last_entry, ends_lem}
use python_ctools.SortedMap.Search.{lookups_lem}

program : Unit {0}
unfolding of_sign key_compare read find_from find get_value subscript contains get
program = tt

-- the numbers in their order
abbrev pub numbers : Ordering ℕ
numbers = rich (λ a b. ok (ltb a b)) (λ a b. ok (ltb b a))

abbrev pub compare : ℕ → ℕ → Order
compare a b = if ltb a b then less else if ltb b a then greater else same

pub numbers_answer : (a b : ℕ) → key_compare numbers a b ≡ ok (compare a b)
unfolding program
numbers_answer a b = ground arith

abbrev low_node : Node ℕ ℕ
low_node = record { key = 3; value = 30; left = 0; right = 0; parent = 1; red = true }

abbrev top_node : Node ℕ ℕ
top_node = record { key = 5; value = 50; left = 2; right = 0; parent = 0; red = false }

abbrev nodes : ℕ → Option (Node ℕ ℕ)
nodes x = if x == 1 then some top_node else if x == 2 then some low_node else none

abbrev pub tree : SortedMap ℕ ℕ
tree = record { nodes = nodes; root = 1; ordering = numbers; size = 2; sentinel_parent = 0 }

abbrev shape : Shape ℕ ℕ
shape = branch (branch leaf low_node leaf) top_node leaf

pub Before-numbers : Before compare 3 5
Before-numbers = record { above = λ q h. ground arith; below = λ q h. ground arith }

shape-Holds : Holds compare tree shape
shape-Holds = record {
  leads = (
    λ e. omega (arith, e),
    refl,
    ((λ e. omega (arith, e), refl, ((refl, tt), (refl, tt))), (refl, tt)),
  );
  sized = refl;
  ascends = ((Before-numbers, tt), tt, ((tt, tt, (tt, tt)), tt));
}

found : subscript tree 3 ≡ ok 30
unfolding program
found = refl

missing : subscript tree 4 ≡ raise key_error
unfolding program
missing = refl

not_an_integer : key_compare {K = ℕ} (cmpfunc (λ a b. ok none)) 3 5 ≡ raise type_error
unfolding program
not_an_integer = refl

lookups_lem_example :
    (get_value tree 3 ≡ ok (first_same compare 3 (entries shape)))
    × (subscript tree 3
        ≡ elim (first_same compare 3 (entries shape)) [ none ↦ raise key_error | some v ↦ ok v ])
    × (contains tree 3
        ≡ ok (elim (first_same compare 3 (entries shape)) [ none ↦ false | some _ ↦ true ]))
    × (get 99 tree 3 none ≡ ok (get_or (first_same compare 3 (entries shape)) (get_or none 99)))
lookups_lem_example = lookups_lem compare tree numbers_answer shape 99 3 none shape-Holds

ends_lem_example :
    (min_item tree ≡ elim (first_entry (entries shape)) [ none ↦ raise key_error | some e ↦ ok e ])
    × (max_item tree ≡ elim (last_entry (entries shape)) [ none ↦ raise key_error | some e ↦ ok e ])
ends_lem_example = ends_lem tree compare shape shape-Holds
