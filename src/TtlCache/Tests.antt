-- ===== src/TtlCache/Tests.antt =====
-- Runs of the cache on small inputs, and the theorems at such inputs.
use mathlib.Core.Logic.{ite}
use mathlib.Core.Option.{get_or, map}
use python_ctools.Base.{
  ℕ, ◌+◌, ◌≤◌, ◌≡◌, refl, ◌>>=◌, Bool, true, false, none, some, [], ◌∷◌, ltb, if◌then◌else◌, ok,
  raise, fault, key_error, raised, null_without_error, arith, ℕ_discrete, length, drop,
}
use python_ctools.Base.Int.{pos}
use python_ctools.Base.Dict
use python_ctools.Base.Dict.{Dict}
use python_ctools.TtlCache.{
  TtlCache, new, tp_new, expiry, entry_new, entry_tp_new, get_ttl_item, put_entry, set_item,
  del_item, subscript, contains, ass_sub, clear, get_size, keys, values, items, get_default_ttl,
  set_default_ttl,
}
use python_ctools.TtlCache.Methods.{
  get, pop, popitem, setdefault, setnx, set_all, update, set_and_return, keep_answer,
}
use python_ctools.TtlCache.Live.{IsValid, live, get_ttl_item-live, reads_live, set_item-live}
use python_ctools.TtlCache.Reach.{built, called, set_step, pop_step, Reach-IsValid}
use python_ctools.TtlCache.Update.{last_of, update_binds}
use python_ctools.TtlCache.Pop.{pop-live}

program : Unit {0}
unfolding new tp_new expiry entry_new entry_tp_new get_ttl_item put_entry set_item del_item
    subscript contains get pop popitem setdefault setnx set_all update ass_sub clear get_size keys
    values items get_default_ttl set_default_ttl set_and_return keep_answer Dict.lookup Dict.store
    Dict.delete Dict.get_item Dict.set_item Dict.del_item ℕ_discrete
program = tt

abbrev dec : Discrete ℕ
dec = ℕ_discrete

-- every key but 0 can be hashed
abbrev hashable : ℕ → Bool
hashable k = ltb 0 k

-- two keys, of which one expires at 110 and the other at 160
abbrev two : TtlCache ℕ ℕ
two = record {
  dict =
      (1, record { ma_value = 10; expire = 110 })
      ∷ (2, record { ma_value = 20; expire = 160 })
      ∷ [];
  default_ttl = 60;
}

two-IsValid : IsValid dec two
unfolding program
two-IsValid = record { distinct = (refl, (refl, tt)); positive = omega arith }

subscript_on_time : (subscript dec hashable two 1 110).1 ≡ ok 10
unfolding program
subscript_on_time = refl

subscript_late : (subscript dec hashable two 1 111).1 ≡ raise key_error
unfolding program
subscript_late = refl

observers :
    (get_size two ≡ 2)
    × (keys two ≡ 1 ∷ 2 ∷ [])
    × (values two ≡ 10 ∷ 20 ∷ [])
    × (items two ≡ (1, 10) ∷ (2, 20) ∷ [])
    × (get_default_ttl two ≡ 60)
unfolding program
observers = (refl, refl, refl, refl, refl)

setnx_calls : (setnx dec hashable 99 two 1 (some (λ k c. (c, ok 7))) 111 111).1 ≡ ok 7
unfolding program
setnx_calls = refl

entry_tp_new_default :
    entry_tp_new {V = ℕ} 5 (pos 3) 100 ≡ ok (record { ma_value = 5; expire = 103 })
unfolding program
entry_tp_new_default = refl

delete_by_assignment : (ass_sub dec hashable two 3 none 100).1 ≡ raise key_error
unfolding program
delete_by_assignment = refl

get_ttl_item-live_example :
    (((get_ttl_item dec hashable two 1 120).1 >>= (λ found. ok (map (λ e. e.ma_value) found)))
      ≡ ok (live dec two 120 1))
    × (live dec (get_ttl_item dec hashable two 1 120).0 130 2 ≡ live dec two 130 2)
get_ttl_item-live_example =
    get_ttl_item-live dec hashable two 1 2 120 130 two-IsValid refl (omega arith)

reads_live_example :
    (hashable 1 ≡ true
      → ((get dec hashable 99 two 1 none 105).1 ≡ ok (get_or (live dec two 105 1) (get_or none 99)))
        × ((subscript dec hashable two 1 105).1
            ≡ elim (live dec two 105 1) [ none ↦ raise key_error | some v ↦ ok v ])
        × ((contains dec hashable two 1 105).1
            ≡ ok (elim (live dec two 105 1) [ none ↦ false | some v ↦ true ])))
    × (hashable 1 ≡ false
        → (get dec hashable 99 two 1 none 105 ≡ (two, raise raised))
          × (subscript dec hashable two 1 105 ≡ (two, raise raised))
          × (contains dec hashable two 1 105 ≡ (two, raise raised)))
reads_live_example = reads_live dec hashable 99 two 1 none 105

set_item-live_example :
    ((set_item dec hashable two 1 11 120).1 ≡ ok tt)
    × ((later : ℕ) (q : ℕ)
        → live dec (set_item dec hashable two 1 11 120).0 later q
          ≡ ite (dec 1 q) (if ltb (120 + 60) later then none else some 11) (live dec two later q))
set_item-live_example = set_item-live dec hashable two 1 11 120 two-IsValid refl (omega arith)

-- a new cache, a store, and a pop
abbrev reached : TtlCache ℕ ℕ
reached = (pop dec hashable 99 (set_item dec hashable (new 30) 5 50 100).0 5 none 101).0

Reach-IsValid_example : IsValid dec reached
unfolding tp_new
Reach-IsValid_example =
    Reach-IsValid dec hashable 99 length drop
      (called (called (built (some (pos 30)) refl) (set_step 5 50 100)) (pop_step 5 none 101))

drop_none : (d : Dict ℕ ℕ) → drop 0 d ≡ d
drop_none d = refl

abbrev more : Dict ℕ ℕ
more = (2, 21) ∷ (3, 30) ∷ []

update_binds_example :
    (update dec hashable 99 length drop (λ _. 100) two (some more) none
      ≡ update dec hashable 99 length drop (λ _. 100) two none (some more))
    × ((update dec hashable 99 length drop (λ _. 100) two (some more) none).1 ≡ ok tt)
    × ((later : ℕ) (q : ℕ)
        → later ≤ 100 + 60
        → live dec (update dec hashable 99 length drop (λ _. 100) two (some more) none).0 later q
          ≡ last_of dec hashable 99 more q (live dec two later q))
update_binds_example =
    update_binds dec hashable 99 length drop drop_none 100 two more two-IsValid (refl, (refl, tt))
      (omega arith)

-- The keyword argument is skipped: the position is not set back.
update_keyword :
    (update dec hashable 99 length drop (λ _. 100) two (some more) (some ((4, 40) ∷ []))).0
    ≡ (update dec hashable 99 length drop (λ _. 100) two (some more) none).0
unfolding program
update_keyword = refl

pop-live_example :
    ((pop dec hashable 99 two 1 none 105).1 ≡ fault null_without_error)
    × ((later : ℕ) (q : ℕ)
        → live dec (pop dec hashable 99 two 1 none 105).0 later q
          ≡ ite (dec 1 q) none (live dec two later q))
unfolding program
pop-live_example = pop-live dec hashable 99 two 1 10 none 105 two-IsValid refl refl
