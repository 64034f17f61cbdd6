-- ===== src/CacheMap/View.antt =====
-- What a client sees of a map: the value of each key. Reads and `pop`, against that view.
use mathlib.Core.Logic.{ite}
use mathlib.Core.Option.{get_or}
use python_ctools.Base.{
  ℕ, ◌+◌, ◌≡◌, Bool, true, false, Option, none, some, Option-cases, arith, ok, raise, fault,
  key_error, null_without_error, inl, inr,
}
use python_ctools.Base.Dict
use python_ctools.Base.Dict.{Distinct, get_item-set_item, get_item-del_item}
use python_ctools.CacheMap.{CacheMap, new_visit}
use python_ctools.CacheMap.Methods.{contains, visit, subscript, get, pop, del_item}

module _ {ℓ} {K V : Type ℓ} (dec : Discrete K) where
  -- The view: what a key is bound to.
  abbrev pub bound : CacheMap K V → K → Option V
  bound self key = elim (Dict.get_item dec key self.dict) [ none ↦ none | some e ↦ some e.ma_value ]

module _ {ℓ} {K V : Type ℓ} (dec : Discrete K) (hashable : K → Bool) (rand_max : ℕ) where
  -- `[]`, `get` and `in` of a hashable key answer by the view: `[]` with the value or KeyError, `get`
  -- with the value, else the default, else None, and `in` with whether there is one. `[]` adds one
  -- to the hits or one to the misses, and leaves the view as it was.
  pub reads_view :
      (py_none : V) (self : CacheMap K V) (key : K) (default : Option V) (now : ℕ)
      → hashable key ≡ true
      → ((subscript dec hashable rand_max self key now).1
          ≡ elim (bound dec self key) [ none ↦ raise key_error | some v ↦ ok v ])
        × (get dec hashable rand_max py_none self key default
            ≡ ok (get_or (bound dec self key) (get_or default py_none)))
        × (contains dec hashable rand_max self key
            ≡ ok (elim (bound dec self key) [ none ↦ false | some _ ↦ true ]))
        × ((subscript dec hashable rand_max self key now).0.hits
            ≡ self.hits + elim (bound dec self key) [ none ↦ 0 | some _ ↦ 1 ])
        × ((subscript dec hashable rand_max self key now).0.misses
            ≡ self.misses + elim (bound dec self key) [ none ↦ 1 | some _ ↦ 0 ])
        × ((q : K)
            → bound dec (subscript dec hashable rand_max self key now).0 q ≡ bound dec self q)
  unfolding subscript get contains visit new_visit Dict.lookup
  reads_view py_none self key default now h =
      elim (Option-cases (Dict.get_item dec key self.dict)) [
        | inl missing ↦ (
          ground arith,
          ground arith,
          ground arith,
          ground arith,
          ground arith,
          λ q. ground arith,
        )
        | inr (entry, found) ↦ (
          ground arith,
          ground arith,
          ground arith,
          ground arith,
          ground arith,
          λ q. ground (arith, get_item-set_item dec key q (new_visit entry now) self.dict),
        )
      ]

  -- `pop` of a hashable key that is bound deletes the key, keeps the others, and ends in NULL with
  -- no exception set, so no value is returned; of one that is not bound it returns the default, or
  -- None, and changes nothing.
  pub pop_view :
      (py_none : V) (self : CacheMap K V) (key : K) (default : Option V)
      → Distinct dec self.dict
      → hashable key ≡ true
      → (((value : V)
            → bound dec self key ≡ some value
            → ((pop dec hashable rand_max py_none self key default).1 ≡ fault null_without_error)
              × ((q : K)
                  → bound dec (pop dec hashable rand_max py_none self key default).0 q
                    ≡ ite (dec key q) none (bound dec self q)))
          × (bound dec self key ≡ none
              → pop dec hashable rand_max py_none self key default
                ≡ (self, ok (get_or default py_none))))
  unfolding pop del_item Dict.lookup Dict.delete
  pop_view py_none self key default distinct h = (
    λ value is_bound.
        (ground arith, λ q. ground (arith, get_item-del_item dec key q self.dict distinct)),
    λ unbound. ground arith,
  )
