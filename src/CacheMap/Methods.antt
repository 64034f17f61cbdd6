-- ===== src/CacheMap/Methods.antt =====
-- The methods of `CtsCacheMap`.
use python_ctools.Base.{
  ℕ, zero, suc, ◌+◌, ◌-◌, ◌^◌, Bool, true, false, Option, none, some, List, [], map, leb,
  if◌then◌else◌, length, Result, ok, raise, fault, value_error, key_error, null_without_error,
}
use mathlib.Core.Option.{get_or}
use python_ctools.Base.Int.{ℤ, pos, negsuc, to_int}
use python_ctools.Base.Dict
use python_ctools.Base.Dict.{Dict}
use python_ctools.CacheMap.{Entry, CacheMap, entry_new, new_visit}
use python_ctools.CacheMap.Evict.{evict}

module _ {ℓ} {K V : Type ℓ} where
  -- `CacheMap_New`
  unfoldable pub new : CacheMap K V
  new = record { dict = []; capacity = 2 ^ 31 - 1; hits = 0; misses = 0 }

  -- `CacheMap_tp_init`, with the argument if there is one
  unfoldable pub tp_init : CacheMap K V → Option ℤ → CacheMap K V × Result (Unit {0})
  tp_init self none = (self, ok tt)
  tp_init self (some (pos zero)) = (self, ok tt)
  tp_init self (some (pos (suc n))) = (record self { capacity = suc n }, ok tt)
  tp_init self (some (negsuc n)) = (self, raise value_error)

  unfoldable pub clear : CacheMap K V → CacheMap K V
  clear self = record self { dict = []; hits = 0; misses = 0 }

  unfoldable pub size : CacheMap K V → ℕ
  size self = length self.dict

  -- The format "iii" reads each number as an `int`.
  unfoldable pub hit_info : CacheMap K V → ℤ × ℤ × ℤ
  hit_info self = (to_int self.capacity, to_int self.hits, to_int self.misses)

  unfoldable pub keys : CacheMap K V → List K
  keys self = Dict.keys self.dict

  -- Reading all values is a visit of every entry.
  abbrev pub visit_all : ℕ → Dict K (Entry V) → Dict K (Entry V)
  visit_all now = map (λ e. (e.0, new_visit e.1 now))

  unfoldable pub values : CacheMap K V → ℕ → CacheMap K V × List V
  values self now =
      (record self { dict = visit_all now self.dict }, map (λ e. e.1.ma_value) self.dict)

  unfoldable pub items : CacheMap K V → ℕ → CacheMap K V × List (K × V)
  items self now =
      (record self { dict = visit_all now self.dict }, map (λ e. (e.0, e.1.ma_value)) self.dict)

module _ {ℓ} {K V : Type ℓ} (dec : Discrete K) (hashable : K → Bool) (rand_max : ℕ) where
  unfoldable pub contains : CacheMap K V → K → Result Bool
  contains self key = elim (Dict.lookup dec hashable key self.dict) [
    | raise e ↦ raise e
    | fault f ↦ fault f
    | ok none ↦ ok false
    | ok (some _) ↦ ok true
  ]

  -- a visit of an entry that was found: `CacheEntry_get_ma_value`
  unfoldable pub visit : CacheMap K V → K → Entry V → ℕ → CacheMap K V
  visit self key entry now = record self {
    dict = Dict.set_item dec key (new_visit entry now) self.dict;
  }

  -- `__getitem__`
  unfoldable pub subscript : CacheMap K V → K → ℕ → CacheMap K V × Result V
  subscript self key now = elim (Dict.lookup dec hashable key self.dict) [
    | raise e ↦ (record self { misses = self.misses + 1 }, raise e)
    | fault f ↦ (self, fault f)
    | ok none ↦ (record self { misses = self.misses + 1 }, raise key_error)
    | ok (some entry) ↦
        (visit (record self { hits = self.hits + 1 }) key entry now, ok entry.ma_value)
  ]

  -- the end of `CacheMap_SetItem`: a new entry
  unfoldable pub add_entry : CacheMap K V → K → V → ℕ → List ℕ → CacheMap K V × Result (List ℕ)
  add_entry self key value now outputs =
      elim (Dict.store dec hashable key (entry_new value now) self.dict) [
        | ok d ↦ (record self { dict = d }, ok outputs)
        | raise e ↦ (self, raise e)
        | fault f ↦ (self, fault f)
      ]

  -- the same in a full map
  unfoldable pub evict_and_add :
      CacheMap K V → K → V → ℕ → ℕ → List ℕ → CacheMap K V × Result (List ℕ)
  evict_and_add self key value now later outputs =
      let (self', evicted) = evict dec rand_max self now outputs in
      elim evicted [
        | ok rest ↦ add_entry self' key value later rest
        | raise e ↦ (self', raise e)
        | fault f ↦ (self', fault f)
      ]

  -- `CacheMap_SetItem` reads the time to choose a key, at `now`, and for the new entry, at `later`.
  -- With the result come the outputs of `rand()` that are left.
  unfoldable pub set_item : CacheMap K V → K → V → ℕ → ℕ → List ℕ → CacheMap K V × Result (List ℕ)
  set_item self key value now later outputs = elim (Dict.lookup dec hashable key self.dict) [
    | raise e ↦ (self, raise e)
    | fault f ↦ (self, fault f)
    | ok (some entry) ↦ (
      record self { dict = Dict.set_item dec key (record entry { ma_value = value }) self.dict },
      ok outputs,
    )
    | ok none ↦
        if leb self.capacity (length self.dict)
        then evict_and_add self key value now later outputs
        else add_entry self key value later outputs
  ]

  unfoldable pub del_item : CacheMap K V → K → CacheMap K V × Result (Unit {0})
  del_item self key = elim (Dict.delete dec hashable key self.dict) [
    | ok d ↦ (record self { dict = d }, ok tt)
    | raise e ↦ (self, raise e)
    | fault f ↦ (self, fault f)
  ]

  -- `__setitem__`, and `__delitem__` where there is no value; with the outputs of `rand()` left
  unfoldable pub ass_sub :
      CacheMap K V → K → Option V → ℕ → ℕ → List ℕ → CacheMap K V × Result (List ℕ)
  ass_sub self key (some value) now later outputs = set_item self key value now later outputs
  ass_sub self key none now later outputs =
      let (self', deleted) = del_item self key in
      elim deleted [
        | ok _ ↦ (self', ok outputs)
        | raise e ↦ (self', raise e)
        | fault f ↦ (self', fault f)
      ]

  -- `py_none` is the object None. `get` is no visit.
  module _ (py_none : V) where
    unfoldable pub get : CacheMap K V → K → Option V → Result V
    get self key default = elim (Dict.lookup dec hashable key self.dict) [
      | raise e ↦ raise e
      | fault f ↦ fault f
      | ok none ↦ ok (get_or default py_none)
      | ok (some entry) ↦ ok entry.ma_value
    ]

    -- `CacheMap_DelItem` returns 0 when it deleted; `pop` takes that for its failure, and returns
    -- NULL with no exception set.
    unfoldable pub pop : CacheMap K V → K → Option V → CacheMap K V × Result V
    pop self key default = elim (Dict.lookup dec hashable key self.dict) [
      | raise e ↦ (self, raise e)
      | fault f ↦ (self, fault f)
      | ok none ↦ (self, ok (get_or default py_none))
      | ok (some entry) ↦
          let (self', deleted) = del_item self key in
          elim deleted [
            | ok _ ↦ (self', fault null_without_error)
            | raise e ↦ (self', raise e)
            | fault f ↦ (self', fault f)
          ]
    ]
