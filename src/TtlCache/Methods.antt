-- ===== src/TtlCache/Methods.antt =====
-- The methods of `CtsTTLCache` that combine lookups, stores and deletions.
use python_ctools.Base.{
  ℕ, ◌+◌, Bool, Option, none, some, [], ◌∷◌, length, Result, ok, raise, fault, type_error,
  key_error, null_without_error,
}
use mathlib.Core.Option.{get_or}
use python_ctools.Base.Dict
use python_ctools.Base.Dict.{Dict}
use python_ctools.TtlCache.{TtlCache, get_ttl_item, set_item, del_item}

-- `py_none` is the object None.
module _ {ℓ} {K V : Type ℓ} (dec : Discrete K) (hashable : K → Bool) (py_none : V) where
  unfoldable pub get : TtlCache K V → K → Option V → ℕ → TtlCache K V × Result V
  get self key default now =
      let (self', found) = get_ttl_item dec hashable self key now in
      elim found [
        | ok (some entry) ↦ (self', ok entry.ma_value)
        | ok none ↦ (self', ok (get_or default py_none))
        | raise e ↦ (self', raise e)
        | fault f ↦ (self', fault f)
      ]

  -- `TTLCache_DelItem` returns 0 when it deleted; `pop` takes that for its failure, and returns
  -- NULL with no exception set.
  unfoldable pub pop : TtlCache K V → K → Option V → ℕ → TtlCache K V × Result V
  pop self key default now =
      let (self', found) = get_ttl_item dec hashable self key now in
      elim found [
        | ok none ↦ (self', ok (get_or default py_none))
        | raise e ↦ (self', raise e)
        | fault f ↦ (self', fault f)
        | ok (some entry) ↦
            let (self'', deleted) = del_item dec hashable self' key in
            elim deleted [
              | ok _ ↦ (self'', fault null_without_error)
              | raise e ↦ (self'', raise e)
              | fault f ↦ (self'', fault f)
            ]
      ]

  -- The first entry goes, also if it has expired.
  unfoldable pub popitem : TtlCache K V → TtlCache K V × Result (K × V)
  popitem self = elim self.dict [
    | [] ↦ (self, raise key_error)
    | (key, _) ∷ _ ↦ elim (Dict.lookup dec hashable key self.dict) [
      | raise e ↦ (self, raise e)
      | fault f ↦ (self, fault f)
      | ok none ↦ (self, raise key_error)
      | ok (some entry) ↦
          let (self', _) = del_item dec hashable self key in (self', ok (key, entry.ma_value))
    ]
  ]

  -- the second half of `setdefault` and `setnx`: store the value and return it
  unfoldable pub set_and_return : TtlCache K V → K → V → ℕ → TtlCache K V × Result V
  set_and_return self key value now =
      let (self', stored) = set_item dec hashable self key value now in
      elim stored [
        | ok _ ↦ (self', ok value)
        | raise e ↦ (self', raise e)
        | fault f ↦ (self', fault f)
      ]

  unfoldable pub setdefault : TtlCache K V → K → Option V → ℕ → ℕ → TtlCache K V × Result V
  setdefault self key default now later =
      let (self', found) = get_ttl_item dec hashable self key now in
      elim found [
        | ok (some entry) ↦ (self', ok entry.ma_value)
        | ok none ↦ set_and_return self' key (get_or default py_none) later
        | raise e ↦ (self', raise e)
        | fault f ↦ (self', fault f)
      ]

  -- the end of `setnx`, with what the callback returned
  unfoldable pub keep_answer : TtlCache K V → Result V → K → ℕ → TtlCache K V × Result V
  keep_answer self (ok value) key now = set_and_return self key value now
  keep_answer self (raise e) key now = (self, raise e)
  keep_answer self (fault f) key now = (self, fault f)

  -- The callback may use the cache; it is `none` if the object is not callable.
  unfoldable pub setnx :
      TtlCache K V
      → K
      → Option (K → TtlCache K V → TtlCache K V × Result V)
      → ℕ
      → ℕ
      → TtlCache K V × Result V
  setnx self key none now later = (self, raise type_error)
  setnx self key (some callback) now later =
      let (self', found) = get_ttl_item dec hashable self key now in
      elim found [
        | ok (some entry) ↦ (self', ok entry.ma_value)
        | raise e ↦ (self', raise e)
        | fault f ↦ (self', fault f)
        | ok none ↦ let (self'', value) = callback key self' in keep_answer self'' value key later
      ]

  -- One loop of `update` over the entries that `PyDict_Next` yields; `clock` gives its readings
  -- of the time, from reading `n` on.
  unfoldable pub set_all : (ℕ → ℕ) → ℕ → TtlCache K V → Dict K V → TtlCache K V × Result (Unit {0})
  set_all clock n self [] = (self, ok tt)
  set_all clock n self ((key, value) ∷ entries) =
      let (self', stored) = set_item dec hashable self key value (clock n) in
      let rest = set_all clock (n + 1) self' entries in
      elim stored [ ok _ ↦ rest | raise e ↦ (self', raise e) | fault f ↦ (self', fault f) ]

  -- `PyDict_Next` is a parameter: `end_pos d` is the position it leaves after the last entry of
  -- `d`, and `from_pos p d` are the entries that it yields from position `p` on. The second loop
  -- starts at the position that the first one left. The argument is `none` if it is left out or no
  -- dict, and so is `kwargs` if there are no keywords.
  module _ (end_pos : Dict K V → ℕ) (from_pos : ℕ → Dict K V → Dict K V) where
    unfoldable pub update :
        (ℕ → ℕ)
        → TtlCache K V
        → Option (Dict K V)
        → Option (Dict K V)
        → TtlCache K V × Result (Unit {0})
    update clock self none none = (self, ok tt)
    update clock self none (some kwargs) = set_all clock 0 self (from_pos 0 kwargs)
    update clock self (some arg) none = set_all clock 0 self (from_pos 0 arg)
    update clock self (some arg) (some kwargs) =
        let first = from_pos 0 arg in
        let (self', stored) = set_all clock 0 self first in
        elim stored [
          | ok _ ↦ set_all clock (length first) self' (from_pos (end_pos arg) kwargs)
          | raise e ↦ (self', raise e)
          | fault f ↦ (self', fault f)
        ]
