-- ===== src/TtlCache/Reach.antt =====
-- The caches that a client can reach by method calls, at whatever times.
use python_ctools.Base.{ℕ, ◌≡◌, Bool, Option, some, none, arith, Result, ok, raise, fault, length}
use python_ctools.Base.Int.{ℤ}
use python_ctools.Base.Dict.{Dict}
use python_ctools.TtlCache.{
  TtlCache, tp_new, clear, set_default_ttl, get_ttl_item, set_item, del_item,
}
use python_ctools.TtlCache.Methods.{pop, popitem, setdefault, keep_answer, setnx, set_all, update}
use python_ctools.TtlCache.Live.{IsValid}
use python_ctools.TtlCache.Invariant.{
  tp_new-IsValid, clear-IsValid, set_default_ttl-IsValid, get_ttl_item-IsValid, set_item-IsValid,
  del_item-IsValid, pop-IsValid, popitem-IsValid, set_and_return-IsValid, setdefault-IsValid,
  set_all-IsValid,
}

module _ {ℓ} {K V : Type ℓ} (dec : Discrete K) (hashable : K → Bool) (py_none : V)
    (end_pos : Dict K V → ℕ) (from_pos : ℕ → Dict K V → Dict K V) where
  -- A callback of `setnx` that leaves a valid cache valid.
  abbrev Keeps : (K → TtlCache K V → TtlCache K V × Result V) → Type ℓ
  Keeps callback =
      (key : K) (self : TtlCache K V) → IsValid dec self → IsValid dec (callback key self).0

  keep_answer-IsValid :
      (self : TtlCache K V) (answer : Result V) (key : K) (now : ℕ)
      → IsValid dec self
      → IsValid dec (keep_answer dec hashable py_none self answer key now).0
  unfolding keep_answer
  keep_answer-IsValid self (ok value) key now v =
      set_and_return-IsValid dec hashable py_none self key value now v
  keep_answer-IsValid self (raise e) key now v = v
  keep_answer-IsValid self (fault f) key now v = v

  setnx-IsValid :
      (callback : K → TtlCache K V → TtlCache K V × Result V)
      → Keeps callback
      → (self : TtlCache K V) (key : K) (now later : ℕ) → IsValid dec self
      → IsValid dec (setnx dec hashable py_none self key (some callback) now later).0
  unfolding setnx
  setnx-IsValid callback keeps self key now later v =
      let found : TtlCache K V = (get_ttl_item dec hashable self key now).0 in
      ground (
        arith,
        get_ttl_item-IsValid dec hashable self key now v,
        keeps key found,
        keep_answer-IsValid (callback key found).0 (callback key found).1 key later,
      )

  update-IsValid :
      (clock : ℕ → ℕ) (self : TtlCache K V) (arg kwargs : Option (Dict K V))
      → IsValid dec self
      → IsValid dec (update dec hashable py_none end_pos from_pos clock self arg kwargs).0
  unfolding update
  update-IsValid clock self none none v = v
  update-IsValid clock self none (some kwargs) v =
      set_all-IsValid dec hashable py_none clock 0 self (from_pos 0 kwargs) v
  update-IsValid clock self (some arg) none v =
      set_all-IsValid dec hashable py_none clock 0 self (from_pos 0 arg) v
  update-IsValid clock self (some arg) (some kwargs) v = ground (
    arith,
    set_all-IsValid dec hashable py_none clock 0 self (from_pos 0 arg) v,
    set_all-IsValid dec hashable py_none clock (length (from_pos 0 arg))
        (set_all dec hashable py_none clock 0 self (from_pos 0 arg)).0
        (from_pos (end_pos arg) kwargs),
  )

  -- One method call that may change the cache, with its arguments and the times that it reads.
  pub data Step (self : TtlCache K V) : TtlCache K V → Type ℓ where
    clear_step : Step self (clear self)
    ttl_step : (arg : Option ℤ) → Step self (set_default_ttl self arg).0
    lookup_step : (key : K) (now : ℕ) → Step self (get_ttl_item dec hashable self key now).0
    set_step :
        (key : K) (value : V) (now : ℕ) → Step self (set_item dec hashable self key value now).0
    del_step : (key : K) → Step self (del_item dec hashable self key).0
    pop_step :
        (key : K) (default : Option V) (now : ℕ)
        → Step self (pop dec hashable py_none self key default now).0
    popitem_step : Step self (popitem dec hashable py_none self).0
    setdefault_step :
        (key : K) (default : Option V) (now later : ℕ)
        → Step self (setdefault dec hashable py_none self key default now later).0
    setnx_step :
        (callback : K → TtlCache K V → TtlCache K V × Result V)
        → Keeps callback
        → (key : K) (now later : ℕ)
        → Step self (setnx dec hashable py_none self key (some callback) now later).0
    update_step :
        (clock : ℕ → ℕ) (arg kwargs : Option (Dict K V))
        → Step self (update dec hashable py_none end_pos from_pos clock self arg kwargs).0

  -- Built by the constructor, then changed by method calls.
  pub data Reach : TtlCache K V → Type ℓ where
    built : (arg : Option ℤ) {self : TtlCache K V} → tp_new arg ≡ ok self → Reach self
    called : {self self' : TtlCache K V} → Reach self → Step self self' → Reach self'

  Step-IsValid :
      {self self' : TtlCache K V} → Step self self' → IsValid dec self → IsValid dec self'
  Step-IsValid {self} clear_step v = clear-IsValid dec self v
  Step-IsValid {self} (ttl_step arg) v = set_default_ttl-IsValid dec self arg v
  Step-IsValid {self} (lookup_step key now) v = get_ttl_item-IsValid dec hashable self key now v
  Step-IsValid {self} (set_step key value now) v =
      set_item-IsValid dec hashable self key value now v
  Step-IsValid {self} (del_step key) v = del_item-IsValid dec hashable self key v
  Step-IsValid {self} (pop_step key default now) v =
      pop-IsValid dec hashable py_none self key default now v
  Step-IsValid {self} popitem_step v = popitem-IsValid dec hashable py_none self v
  Step-IsValid {self} (setdefault_step key default now later) v =
      setdefault-IsValid dec hashable py_none self key default now later v
  Step-IsValid {self} (setnx_step callback keeps key now later) v =
      setnx-IsValid callback keeps self key now later v
  Step-IsValid {self} (update_step clock arg kwargs) v = update-IsValid clock self arg kwargs v

  -- Every cache that method calls reach from the constructor, at whatever times and whatever they
  -- raise, holds each key once and has a positive default lifetime. Lookups stand for `get`, `[]`
  -- and `in`, which leave the cache that the lookup leaves; callbacks of `setnx` keep caches valid.
  pub Reach-IsValid : {self : TtlCache K V} → Reach self → IsValid dec self
  Reach-IsValid (built arg e) = tp_new-IsValid dec arg e
  Reach-IsValid (called r s) = Step-IsValid s (Reach-IsValid r)
