-- ===== src/CacheMap/Compound.antt =====
-- The methods of `CtsCacheMap` that combine lookups, stores, deletions and evictions.
use python_ctools.Base.{
  ℕ, zero, suc, ◌+◌, ◌-◌, ◌*◌, Bool, ◌&&◌, Option, none, some, List, [], ◌∷◌, ltb, if◌then◌else◌,
  length, Result, ok, raise, fault, value_error, key_error, raised,
}
use python_ctools.Base.Int.{ℤ, pos, negsuc, to_int}
use python_ctools.Base.Dict
use python_ctools.Base.Dict.{Dict}
use python_ctools.CacheMap.{CacheMap}
use python_ctools.CacheMap.Evict.{evict}
use python_ctools.CacheMap.Methods.{visit, set_item, del_item}

-- `int r = CacheMap_Size(self) - cap`, and the rounds of the loop up to it: none if it is negative
unfoldable pub surplus : ℕ → ℕ → ℕ
surplus size capacity = elim (to_int (size - capacity)) [ pos r ↦ r | negsuc _ ↦ 0 ]

module _ {ℓ} {K V : Type ℓ} (dec : Discrete K) (hashable : K → Bool) (rand_max : ℕ) where
  -- The first entry goes; its value is visited on the way.
  unfoldable pub popitem : CacheMap K V → ℕ → CacheMap K V × Result (K × V)
  popitem self now = elim self.dict [
    | [] ↦ (self, raise key_error)
    | (key, _) ∷ _ ↦ elim (Dict.lookup dec hashable key self.dict) [
      | raise e ↦ (self, raise e)
      | fault f ↦ (self, fault f)
      | ok none ↦ (self, raise key_error)
      | ok (some entry) ↦
          let (self', _) =
            del_item dec hashable rand_max (visit dec hashable rand_max self key entry now) key in
          (self', ok (key, entry.ma_value))
    ]
  ]

  -- the second half of `setdefault` and `setnx`: store the value and return it, with the outputs of
  -- `rand()` that are left
  unfoldable pub set_and_return :
      CacheMap K V → K → V → ℕ → ℕ → List ℕ → CacheMap K V × Result (V × List ℕ)
  set_and_return self key value now later outputs =
      let (self', stored) = set_item dec hashable rand_max self key value now later outputs in
      elim stored [
        | ok rest ↦ (self', ok (value, rest))
        | raise e ↦ (self', raise e)
        | fault f ↦ (self', fault f)
      ]

  -- Without a default nothing is stored.
  unfoldable pub setdefault :
      V → CacheMap K V → K → Option V → ℕ → ℕ → List ℕ → CacheMap K V × Result (V × List ℕ)
  setdefault py_none self key default now later outputs =
      elim (Dict.lookup dec hashable key self.dict) [
        | raise e ↦ (self, raise e)
        | fault f ↦ (self, fault f)
        | ok (some entry) ↦
            (visit dec hashable rand_max self key entry now, ok (entry.ma_value, outputs))
        | ok none ↦ elim default [
          | none ↦ (self, ok (py_none, outputs))
          | some value ↦ set_and_return self key value now later outputs
        ]
      ]

  -- the end of `setnx`, with what the callback returned
  unfoldable pub keep_answer :
      CacheMap K V → Result V → K → ℕ → ℕ → List ℕ → CacheMap K V × Result (V × List ℕ)
  keep_answer self (ok value) key now later outputs =
      set_and_return self key value now later outputs
  keep_answer self (raise e) key now later outputs = (self, raise e)
  keep_answer self (fault f) key now later outputs = (self, fault f)

  -- The callback may use the map.
  unfoldable pub setnx :
      CacheMap K V
      → K
      → (K → CacheMap K V → CacheMap K V × Result V)
      → ℕ
      → ℕ
      → List ℕ
      → CacheMap K V × Result (V × List ℕ)
  setnx self key callback now later outputs = elim (Dict.get_item dec key self.dict) [
    | some entry ↦ (visit dec hashable rand_max self key entry now, ok (entry.ma_value, outputs))
    | none ↦ let (self', value) = callback key self in keep_answer self' value key now later outputs
  ]

  -- One loop of `update` over the entries that `PyDict_Next` yields; `clock` gives its instants, two
  -- for each entry, from instant `n` on.
  unfoldable pub set_all :
      (ℕ → ℕ) → ℕ → CacheMap K V → Dict K V → List ℕ → CacheMap K V × Result (List ℕ)
  set_all clock n self [] outputs = (self, ok outputs)
  set_all clock n self ((key, value) ∷ entries) outputs =
      let (self', stored) =
        set_item dec hashable rand_max self key value (clock n) (clock (n + 1)) outputs in
      elim stored [
        | ok rest ↦ set_all clock (n + 2) self' entries rest
        | raise e ↦ (self', raise e)
        | fault f ↦ (self', fault f)
      ]

  -- `PyDict_Next` is a parameter: `end_pos d` is the position it leaves after the last entry of
  -- `d`, and `from_pos p d` are the entries that it yields from position `p` on. The second loop
  -- starts at the position that the first one left. The argument is `none` if it is left out or no
  -- dict, and so is `kwargs` if there are no keywords.
  module _ (end_pos : Dict K V → ℕ) (from_pos : ℕ → Dict K V → Dict K V) where
    unfoldable pub update :
        (ℕ → ℕ)
        → CacheMap K V
        → Option (Dict K V)
        → Option (Dict K V)
        → List ℕ
        → CacheMap K V × Result (List ℕ)
    update clock self none none outputs = (self, ok outputs)
    update clock self none (some kwargs) outputs = set_all clock 0 self (from_pos 0 kwargs) outputs
    update clock self (some arg) none outputs = set_all clock 0 self (from_pos 0 arg) outputs
    update clock self (some arg) (some kwargs) outputs =
        let first = from_pos 0 arg in
        let (self', stored) = set_all clock 0 self first outputs in
        elim stored [
          | ok rest ↦ set_all clock (2 * length first) self' (from_pos (end_pos arg) kwargs) rest
          | raise e ↦ (self', raise e)
          | fault f ↦ (self', fault f)
        ]

  -- The loop of `set_capacity`, with `rounds` evictions to go.
  unfoldable pub evict_all : ℕ → CacheMap K V → ℕ → List ℕ → CacheMap K V × Result (List ℕ)
  evict_all zero self now outputs = (self, ok outputs)
  evict_all (suc rounds) self now outputs =
      let (self', evicted) = evict dec rand_max self now outputs in
      elim evicted [
        | ok rest ↦ evict_all rounds self' now rest
        | raise e ↦ (self', raise e)
        | fault f ↦ (self', fault f)
      ]

  -- the end of `set_capacity`
  unfoldable pub fix_capacity : CacheMap K V × Result (List ℕ) → ℕ → CacheMap K V × Result (List ℕ)
  fix_capacity (self, ok rest) cap = (record self { capacity = cap }, ok rest)
  fix_capacity (self, raise e) cap = (self, raise e)
  fix_capacity (self, fault f) cap = (self, fault f)

  -- `none` is an object that does not convert to a long long, for which an exception is set.
  unfoldable pub set_capacity :
      CacheMap K V → Option ℤ → ℕ → List ℕ → CacheMap K V × Result (List ℕ)
  set_capacity self none now outputs = (self, raise raised)
  set_capacity self (some (negsuc _)) now outputs = (self, raise value_error)
  set_capacity self (some (pos zero)) now outputs = (self, raise value_error)
  set_capacity self (some (pos (suc n))) now outputs =
      let r =
        if ltb (suc n) self.capacity && ltb (suc n) (length self.dict)
        then surplus (length self.dict) (suc n)
        else 0 in
      fix_capacity (evict_all r self now outputs) (suc n)
