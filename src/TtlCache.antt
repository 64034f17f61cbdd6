-- ===== src/TtlCache.antt =====
-- `CtsTTLCache` and `CtsTTLCacheEntry` of src/ttlcache.c: a dict of values that expire. A method
-- returns the new cache beside its result; `now` is what `time(NULL)` returns at a call, in
-- seconds, one argument for each reading. Failed allocations and reference counts are left out.
pub mod Methods
pub mod Live
pub mod Invariant
pub mod Reach
pub mod Update
pub mod Pop
mod Tests
use python_ctools.Base.{
  ℕ, zero, suc, ◌+◌, ◌^◌, Bool, true, false, Option, none, some, List, [], ◌∷◌, map, ltb, leb,
  if◌then◌else◌, length, Result, ok, raise, fault, value_error, type_error, key_error, raised,
  assertion, signed_overflow, null_without_error,
}
use python_ctools.Base.Int.{ℤ, pos, negsuc}
use python_ctools.Base.Dict
use python_ctools.Base.Dict.{Dict}

pub record Entry {ℓ} (V : Type ℓ) : Type ℓ where
  pub ma_value : V
  pub expire : ℕ

pub record TtlCache {ℓ} (K V : Type ℓ) : Type ℓ where
  pub dict : Dict K (Entry V)
  pub default_ttl : ℕ

abbrev pub default_ttl : ℕ
default_ttl = 60

-- NOW() + ttl, a sum of two int64_t
pub expiry : ℕ → ℕ → Result ℕ
expiry now ttl = if leb (2 ^ 63) (now + ttl) then fault signed_overflow else ok (now + ttl)

module _ {ℓ} {V : Type ℓ} where
  -- `TTLCacheEntry_New`, whose `ttl` must be positive
  pub entry_new : V → ℕ → ℕ → Result (Entry V)
  entry_new value zero now = fault assertion
  entry_new value (suc ttl) now = elim (expiry now (suc ttl)) [
    | ok t ↦ ok (record { ma_value = value; expire = t })
    | raise e ↦ raise e
    | fault f ↦ fault f
  ]

  -- `TTLCacheEntry_tp_new`
  pub entry_tp_new : V → ℤ → ℕ → Result (Entry V)
  entry_tp_new value (pos ttl) now = entry_new value ttl now
  entry_tp_new value (negsuc _) now = entry_new value default_ttl now

module _ {ℓ} {K V : Type ℓ} where
  -- `TTLCache_New`
  pub new : ℕ → TtlCache K V
  new ttl = record { dict = []; default_ttl = ttl }

  -- `TTLCache_tp_new`, with the argument if there is one
  pub tp_new : Option ℤ → Result (TtlCache K V)
  tp_new none = ok (new default_ttl)
  tp_new (some (pos zero)) = raise value_error
  tp_new (some (pos (suc ttl))) = ok (new (suc ttl))
  tp_new (some (negsuc _)) = raise value_error

  pub clear : TtlCache K V → TtlCache K V
  clear self = record self { dict = [] }

  pub get_size : TtlCache K V → ℕ
  get_size self = length self.dict

  pub keys : TtlCache K V → List K
  keys self = map (λ e. e.0) self.dict

  pub values : TtlCache K V → List V
  values self = map (λ e. e.1.ma_value) self.dict

  pub items : TtlCache K V → List (K × V)
  items self = map (λ e. (e.0, e.1.ma_value)) self.dict

  -- `none` is an object that does not convert to a long, for which an exception is set.
  pub set_default_ttl : TtlCache K V → Option ℤ → TtlCache K V × Result (Unit {0})
  set_default_ttl self none = (self, raise raised)
  set_default_ttl self (some (pos zero)) = (self, raise value_error)
  set_default_ttl self (some (pos (suc ttl))) = (record self { default_ttl = suc ttl }, ok tt)
  set_default_ttl self (some (negsuc _)) = (self, raise value_error)

  pub get_default_ttl : TtlCache K V → ℕ
  get_default_ttl self = self.default_ttl

module _ {ℓ} {K V : Type ℓ} (dec : Discrete K) (hashable : K → Bool) where
  -- `TTLCache_GetTTLItemWithError`: an entry that is found expired is deleted.
  pub get_ttl_item : TtlCache K V → K → ℕ → TtlCache K V × Result (Option (Entry V))
  get_ttl_item self key now = elim (Dict.lookup dec hashable key self.dict) [
    | raise e ↦ (self, raise e)
    | fault f ↦ (self, fault f)
    | ok none ↦ (self, ok none)
    | ok (some entry) ↦
        if ltb entry.expire now
        then (record self { dict = Dict.del_item dec key self.dict }, ok none)
        else (self, ok (some entry))
  ]

  -- the end of `TTLCache_SetItem`, once the new expiry is there
  pub put_entry : TtlCache K V → K → Result (Entry V) → TtlCache K V × Result (Unit {0})
  put_entry self key (raise e) = (self, raise e)
  put_entry self key (fault f) = (self, fault f)
  put_entry self key (ok entry) = elim (Dict.store dec hashable key entry self.dict) [
    | ok d ↦ (record self { dict = d }, ok tt)
    | raise e ↦ (self, raise e)
    | fault f ↦ (self, fault f)
  ]

  -- An entry that is there takes the value and a new expiry, in its place in the dict.
  pub set_item : TtlCache K V → K → V → ℕ → TtlCache K V × Result (Unit {0})
  set_item self key value now = elim (Dict.lookup dec hashable key self.dict) [
    | raise e ↦ (self, raise e)
    | fault f ↦ (self, fault f)
    | ok (some entry) ↦ elim (expiry now self.default_ttl) [
      | raise e ↦ (self, raise e)
      | fault f ↦ (self, fault f)
      | ok t ↦ (
        record self {
          dict = Dict.set_item dec key (record { ma_value = value; expire = t }) self.dict;
        },
        ok tt,
      )
    ]
    | ok none ↦ put_entry self key (entry_new value self.default_ttl now)
  ]

  pub del_item : TtlCache K V → K → TtlCache K V × Result (Unit {0})
  del_item self key = elim (Dict.delete dec hashable key self.dict) [
    | ok d ↦ (record self { dict = d }, ok tt)
    | raise e ↦ (self, raise e)
    | fault f ↦ (self, fault f)
  ]

  -- `__getitem__`
  pub subscript : TtlCache K V → K → ℕ → TtlCache K V × Result V
  subscript self key now =
      let (self', found) = get_ttl_item self key now in
      elim found [
        | ok (some entry) ↦ (self', ok entry.ma_value)
        | ok none ↦ (self', raise key_error)
        | raise e ↦ (self', raise e)
        | fault f ↦ (self', fault f)
      ]

  -- `__setitem__`, and `__delitem__` where there is no value
  pub ass_sub : TtlCache K V → K → Option V → ℕ → TtlCache K V × Result (Unit {0})
  ass_sub self key none now = del_item self key
  ass_sub self key (some value) now = set_item self key value now

  -- `in`
  pub contains : TtlCache K V → K → ℕ → TtlCache K V × Result Bool
  contains self key now =
      let (self', found) = get_ttl_item self key now in
      elim found [
        | ok (some entry) ↦ (self', ok true)
        | ok none ↦ (self', ok false)
        | raise e ↦ (self', raise e)
        | fault f ↦ (self', fault f)
      ]
