-- ===== src/CacheMap/Tests.antt =====
-- Runs of the map on small inputs, and the theorems at such inputs.
use mathlib.Core.Logic.{ite}
use mathlib.Core.Option.{get_or}
use python_ctools.Base.{
  ℕ, zero, suc, ap, ◌+◌, ◌-◌, ◌/◌, ◌≤◌, ◌^◌, ◌≡◌, ◌⊎◌, refl, Bool, true, false, none, some, List,
  [], ◌∷◌, ltb, ok, raise, fault, key_error, value_error, null_without_error, Fault,
  division_by_zero, arith, ℕ_discrete, length, drop,
}
use python_ctools.Base.Int.{pos, negsuc}
use python_ctools.Base.Dict
use python_ctools.Base.Dict.{Dict}
use python_ctools.CacheMap.{
  Entry, CacheMap, time_in_minutes, entry_new, new_visit, get_weight, rand_until, rand_integer,
}
use python_ctools.CacheMap.Evict.{
  scan, weigh, chosen, draw, sample, sample_rest, next_evict_key, evict,
}
use python_ctools.CacheMap.Methods.{
  new, tp_init, clear, size, hit_info, keys, values, items, contains, visit, subscript, add_entry,
  evict_and_add, set_item, del_item, ass_sub, get, pop,
}
use python_ctools.CacheMap.Compound.{
  popitem, set_and_return, setdefault, keep_answer, setnx, set_all, update, surplus, evict_all,
  fix_capacity, set_capacity,
}
use python_ctools.CacheMap.Choice.{has}
use python_ctools.CacheMap.Sampling.{next_evict_key_safe}
use python_ctools.CacheMap.Random.{DrawFault}
use python_ctools.CacheMap.Draws.{next_evict_key_ends}
use python_ctools.CacheMap.Bounded.{IsValid}
use python_ctools.CacheMap.Store.{Stored, Renewed, Added, Exchanged, Refused, set_item_stores}
use python_ctools.CacheMap.Capacity.{Failed, set_capacity_lem}
use python_ctools.CacheMap.Reach.{built, called, assign_step, reached-IsValid}
use python_ctools.CacheMap.View.{bound, reads_view, pop_view}
use python_ctools.CacheMap.Least.{AllHeavy, Among, next_evict_key_least, next_evict_key_zero}

program : Unit {0}
unfolding time_in_minutes entry_new new_visit get_weight rand_until rand_integer scan weigh chosen
    draw sample sample_rest next_evict_key evict new tp_init clear size hit_info keys values items
    contains visit subscript add_entry evict_and_add set_item del_item ass_sub get pop popitem
    set_and_return setdefault keep_answer setnx set_all update surplus evict_all fix_capacity
    set_capacity Dict.lookup Dict.store Dict.delete Dict.get_item Dict.set_item Dict.del_item
    ℕ_discrete
program = tt

abbrev dec : Discrete ℕ
dec = ℕ_discrete

-- every key but 0 can be hashed
abbrev hashable : ℕ → Bool
hashable k = ltb 0 k

abbrev rand_max : ℕ
rand_max = 2 ^ 31 - 1

abbrev entry : ℕ → ℕ → ℕ → Entry ℕ
entry value last_visit visits = record {
  ma_value = value;
  last_visit = last_visit;
  visits = visits;
}

-- a full map of two keys, the second with fewer visits
abbrev two : CacheMap ℕ ℕ
two = record {
  dict = (1, entry 10 100 256) ∷ (2, entry 20 100 255) ∷ [];
  capacity = 2;
  hits = 0;
  misses = 0;
}

two-IsValid : IsValid dec two
unfolding program
two-IsValid = record {
  distinct = (refl, (refl, tt));
  positive = omega arith;
  bounded = omega arith;
}

weights :
    (get_weight (entry 10 100 256) 119 ≡ 255)
    × (get_weight (entry 10 100 256) 2660 ≡ 0)
    × (get_weight (entry 10 100 256) 99 ≡ 0)
unfolding program
weights = (refl, refl, refl)

minutes : time_in_minutes 6059 ≡ 100
unfolding program
minutes = refl

draws : rand_integer rand_max ((2 ^ 31 - 1) ∷ 0 ∷ []) (pos 32) ≡ ok (pos 0, [])
unfolding program
draws = refl

-- With the least RAND_MAX of the C standard, a limit of 32767 is too large.
divides_by_zero : rand_integer 32767 (5 ∷ []) (pos 32767) ≡ fault division_by_zero
unfolding program
divides_by_zero = refl

-- The surplus of 2 ^ 31 entries is negative as an `int`.
negative_surplus : surplus (2 ^ 31 + 1) 1 ≡ 0
unfolding program
negative_surplus = refl

store_evicts :
    (set_item dec hashable rand_max two 3 30 110 110 []).0.dict
    ≡ (1, entry 10 100 256) ∷ (3, entry 30 110 255) ∷ []
unfolding program
store_evicts = refl

init_negative : (tp_init (new {K = ℕ} {V = ℕ}) (some (negsuc 0))).1 ≡ raise value_error
unfolding program
init_negative = refl

observers :
    (size two ≡ 2)
    × (keys two ≡ 1 ∷ 2 ∷ [])
    × (hit_info two ≡ (pos 2, pos 0, pos 0))
    × ((values two 110).1 ≡ 10 ∷ 20 ∷ [])
    × ((items two 110).1 ≡ (1, 10) ∷ (2, 20) ∷ [])
    × (clear two ≡ record two { dict = [] })
unfolding program
observers = (refl, refl, refl, refl, refl, refl)

popitem_first : (popitem dec hashable rand_max two 110).1 ≡ ok (1, 10)
unfolding program
popitem_first = refl

setdefault_without :
    (setdefault dec hashable rand_max 99 two 3 none 110 110 []) ≡ (two, ok (99, []))
unfolding program
setdefault_without = refl

setnx_calls : (setnx dec hashable rand_max two 3 (λ k c. (c, ok 7)) 110 110 []).1 ≡ ok (7, [])
unfolding program
setnx_calls = refl

set_all_stores :
    (set_all dec hashable rand_max (λ _. 110) 0 two ((1, 11) ∷ (2, 21) ∷ []) []).1 ≡ ok []
unfolding program
set_all_stores = refl

-- The keyword argument is skipped: the position is not set back.
update_keyword :
    (update dec hashable rand_max length drop
      (λ _. 110)
      two
      (some ((1, 11) ∷ []))
      (some ((2, 21) ∷ []))
      []).0.dict
    ≡ (1, entry 11 100 256) ∷ (2, entry 20 100 255) ∷ []
unfolding program
update_keyword = refl

next_evict_key_safe_example :
    ((key : ℕ) × (rest : List ℕ) × (next_evict_key dec rand_max two 110 [] ≡ ok (key, rest))
      × (has dec key two.dict ≡ true))
    ⊎ ((256 ≤ length two.dict)
        × ((f : Fault) × (next_evict_key dec rand_max two 110 [] ≡ fault f)
            × DrawFault rand_max (length two.dict / 8) f))
next_evict_key_safe_example = next_evict_key_safe dec rand_max two 110 [] (λ e. omega (arith, e))

set_item_stores_example :
    let out = set_item dec hashable rand_max two 3 30 110 111 [] in
    (Stored dec hashable rand_max out 3 30
      × (Renewed dec hashable rand_max two 3 30 [] out
          ⊎ (Added dec hashable rand_max two 3 30 111 [] out
              ⊎ Exchanged dec hashable rand_max two 3 30 111 out)))
    ⊎ Refused dec hashable rand_max two 3 out
set_item_stores_example = set_item_stores dec hashable rand_max two 3 30 110 111 [] two-IsValid refl

set_capacity_lem_example :
    (((rest : List ℕ) × ((set_capacity dec hashable rand_max two (some (pos 1)) 110 []).1
          ≡ ok rest))
      × IsValid dec (set_capacity dec hashable rand_max two (some (pos 1)) 110 []).0
      × ((set_capacity dec hashable rand_max two (some (pos 1)) 110 []).0.capacity ≡ 1))
    ⊎ Failed dec hashable rand_max two
        (set_capacity dec hashable rand_max two (some (pos 1)) 110 [])
set_capacity_lem_example =
    set_capacity_lem dec hashable rand_max two 0 110 [] two-IsValid (omega arith)

reads_view_example :
    ((subscript dec hashable rand_max two 1 110).1
      ≡ elim (bound dec two 1) [ none ↦ raise key_error | some v ↦ ok v ])
    × (get dec hashable rand_max 99 two 1 none ≡ ok (get_or (bound dec two 1) (get_or none 99)))
    × (contains dec hashable rand_max two 1
        ≡ ok (elim (bound dec two 1) [ none ↦ false | some _ ↦ true ]))
    × ((subscript dec hashable rand_max two 1 110).0.hits
        ≡ 0 + elim (bound dec two 1) [ none ↦ 0 | some _ ↦ 1 ])
    × ((subscript dec hashable rand_max two 1 110).0.misses
        ≡ 0 + elim (bound dec two 1) [ none ↦ 1 | some _ ↦ 0 ])
    × ((q : ℕ) → bound dec (subscript dec hashable rand_max two 1 110).0 q ≡ bound dec two q)
reads_view_example = reads_view dec hashable rand_max 99 two 1 none 110 refl

pop_view_example :
    ((value : ℕ)
      → bound dec two 1 ≡ some value
      → ((pop dec hashable rand_max 99 two 1 none).1 ≡ fault null_without_error)
        × ((q : ℕ)
            → bound dec (pop dec hashable rand_max 99 two 1 none).0 q
              ≡ ite (dec 1 q) none (bound dec two q)))
    × (bound dec two 1 ≡ none
        → pop dec hashable rand_max 99 two 1 none ≡ (two, ok (get_or none 99)))
pop_view_example = pop_view dec hashable rand_max 99 two 1 none two-IsValid.distinct refl

next_evict_key_least_example :
    (q : ℕ) × (e : Entry ℕ) × (next_evict_key dec rand_max two 110 [] ≡ ok (q, []))
    × Among dec rand_max 110 q e two.dict
    × AllHeavy dec rand_max 110 (get_weight e 110) two.dict
unfolding program
next_evict_key_least_example =
    next_evict_key_least dec rand_max 110 two [] (λ e. omega (arith, e)) (omega arith)
      (omega arith, (omega arith, tt))

-- The first entry has weight 0 and the second weight 1000, which is chosen.
abbrev stale : CacheMap ℕ ℕ
stale = record two { dict = (1, entry 10 100 5) ∷ (2, entry 20 160 1000) ∷ [] }

next_evict_key_zero_example : next_evict_key dec rand_max stale 160 [] ≡ ok (2, [])
unfolding program
next_evict_key_zero_example =
    next_evict_key_zero dec rand_max 160 stale [] [] 1 2 (entry 10 100 5) (entry 20 160 1000) refl
      (omega arith) refl

-- A new map for one entry, and two stores.
reached-IsValid_example :
    IsValid {V = ℕ} dec
      (ass_sub dec hashable rand_max
        (ass_sub dec hashable rand_max (tp_init new (some (pos 1))).0 1 (some 10) 100 100 []).0
        2
        (some 20)
        101
        101
        []).0
reached-IsValid_example = reached-IsValid dec hashable rand_max 99 length drop (
    called (called (built (some (pos 1))) (assign_step 1 (some 10) 100 100 []))
      (assign_step 2 (some 20) 101 101 []))

-- A second `__init__` sets a capacity without evictions.
init_twice : (tp_init two (some (pos 1))).0 ≡ record two { capacity = 1 }
unfolding program
init_twice = refl

-- a map of 256 entries, the fewest that are sampled
abbrev entries : ℕ → Dict ℕ (Entry ℕ)
entries zero = []
entries (suc n) = (suc n, entry n 100 (255 + n)) ∷ entries n

abbrev large : CacheMap ℕ ℕ
large = record { dict = entries 256; capacity = 256; hits = 0; misses = 0 }

length-entries : (n : ℕ) → length (entries n) ≡ n
length-entries zero = refl
length-entries (suc n) = ap suc (length-entries n)

abbrev zeros : List ℕ
zeros = 0 ∷ 0 ∷ 0 ∷ 0 ∷ 0 ∷ 0 ∷ 0 ∷ []

next_evict_key_ends_example :
    (key : ℕ) × (rest : List ℕ) × (next_evict_key dec rand_max large 110 zeros ≡ ok (key, rest))
    × (has dec key large.dict ≡ true)
next_evict_key_ends_example =
    next_evict_key_ends dec rand_max large 110 zeros (omega (arith, length-entries 256))
      (omega (arith, length-entries 256))
      (
        omega arith,
        (
          omega arith,
          (omega arith, (omega arith, (omega arith, (omega arith, (omega arith, tt))))),
        ),
      )

-- The draws are the first keys of the buckets, of which the last has the fewest visits.
samples : next_evict_key dec rand_max large 110 zeros ≡ ok (64, [])
unfolding program
samples = refl
