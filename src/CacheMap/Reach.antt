-- ===== src/CacheMap/Reach.antt =====
-- The maps that a client can reach by method calls, at whatever times and outputs of `rand()`.
use python_ctools.Base.{ℕ, ◌<◌, ◌^◌, length, Bool, Option, List, Result}
use python_ctools.Base.Int.{ℤ}
use python_ctools.Base.Dict.{Dict}
use python_ctools.CacheMap.{CacheMap}
use python_ctools.CacheMap.Evict.{evict}
use python_ctools.CacheMap.Methods.{new, tp_init, clear, values, items, subscript, ass_sub, pop}
use python_ctools.CacheMap.Compound.{popitem, setdefault, setnx, update, set_capacity}
use python_ctools.CacheMap.Bounded.{IsValid, evict-IsValid}
use python_ctools.CacheMap.Invariant.{
  tp_init-IsValid, clear-IsValid, values-IsValid, subscript-IsValid,
}
use python_ctools.CacheMap.Calls.{
  Keeps, ass_sub-IsValid, pop-IsValid, popitem-IsValid, setdefault-IsValid, setnx-IsValid,
  update-IsValid, set_capacity-IsValid,
}

module _ {ℓ} {K V : Type ℓ} (dec : Discrete K) (hashable : K → Bool) (rand_max : ℕ) (py_none : V)
    (end_pos : Dict K V → ℕ) (from_pos : ℕ → Dict K V → Dict K V) where
  -- One method call that may change the map, with its arguments, the times that it reads and the
  -- outputs of `rand()` at hand. `set_capacity` is called on fewer than 2 ^ 31 entries, since it
  -- counts its evictions in an `int`.
  pub data Step (self : CacheMap K V) : CacheMap K V → Type ℓ where
    clear_step : Step self (clear self)
    values_step : (now : ℕ) → Step self (values self now).0
    items_step : (now : ℕ) → Step self (items self now).0
    subscript_step :
        (key : K) (now : ℕ) → Step self (subscript dec hashable rand_max self key now).0
    assign_step :
        (key : K) (value : Option V) (now later : ℕ) (outputs : List ℕ)
        → Step self (ass_sub dec hashable rand_max self key value now later outputs).0
    evict_step : (now : ℕ) (outputs : List ℕ) → Step self (evict dec rand_max self now outputs).0
    pop_step :
        (key : K) (default : Option V)
        → Step self (pop dec hashable rand_max py_none self key default).0
    popitem_step : (now : ℕ) → Step self (popitem dec hashable rand_max self now).0
    setdefault_step :
        (key : K) (default : Option V) (now later : ℕ) (outputs : List ℕ)
        → Step self (setdefault dec hashable rand_max py_none self key default now later outputs).0
    setnx_step :
        (callback : K → CacheMap K V → CacheMap K V × Result V)
        → Keeps dec hashable rand_max py_none end_pos from_pos callback
        → (key : K) (now later : ℕ) (outputs : List ℕ)
        → Step self (setnx dec hashable rand_max self key callback now later outputs).0
    update_step :
        (clock : ℕ → ℕ) (arg kwargs : Option (Dict K V)) (outputs : List ℕ)
        → Step self (update dec hashable rand_max end_pos from_pos clock self arg kwargs outputs).0
    capacity_step :
        (arg : Option ℤ) (now : ℕ) (outputs : List ℕ)
        → length self.dict < 2 ^ 31
        → Step self (set_capacity dec hashable rand_max self arg now outputs).0

  -- Built and initialised once, then changed by method calls.
  pub data Reach : CacheMap K V → Type ℓ where
    built : (arg : Option ℤ) → Reach (tp_init new arg).0
    called : {self self' : CacheMap K V} → Reach self → Step self self' → Reach self'

  Step-IsValid :
      {self self' : CacheMap K V} → Step self self' → IsValid dec self → IsValid dec self'
  Step-IsValid {self} clear_step v = clear-IsValid dec self v
  Step-IsValid {self} (values_step now) v = (values-IsValid dec self now v).0
  Step-IsValid {self} (items_step now) v = (values-IsValid dec self now v).1
  Step-IsValid {self} (subscript_step key now) v =
      subscript-IsValid dec hashable rand_max self key now v
  Step-IsValid {self} (assign_step key value now later outputs) v =
      ass_sub-IsValid dec hashable rand_max py_none end_pos from_pos self key value now later
        outputs v
  Step-IsValid {self} (evict_step now outputs) v =
      evict-IsValid dec hashable rand_max self now outputs v
  Step-IsValid {self} (pop_step key default) v =
      pop-IsValid dec hashable rand_max py_none end_pos from_pos self key default v
  Step-IsValid {self} (popitem_step now) v =
      popitem-IsValid dec hashable rand_max py_none end_pos from_pos self now v
  Step-IsValid {self} (setdefault_step key default now later outputs) v =
      setdefault-IsValid dec hashable rand_max py_none end_pos from_pos self key default now later
        outputs v
  Step-IsValid {self} (setnx_step callback keeps key now later outputs) v =
      setnx-IsValid dec hashable rand_max py_none end_pos from_pos callback keeps self key now later
        outputs v
  Step-IsValid {self} (update_step clock arg kwargs outputs) v =
      update-IsValid dec hashable rand_max py_none end_pos from_pos clock self arg kwargs outputs v
  Step-IsValid {self} (capacity_step arg now outputs small) v =
      set_capacity-IsValid dec hashable rand_max py_none end_pos from_pos self arg now outputs v
        small

  -- Every map that method calls reach from one that `__init__` ran on once, at whatever times and
  -- outputs of `rand()` and whatever they raise, holds each key once and at most `capacity` entries,
  -- a positive number; callbacks of `setnx` keep maps valid, and `set_capacity` is called on maps of
  -- fewer than 2 ^ 31 entries.
  pub reached-IsValid : {self : CacheMap K V} → Reach self → IsValid dec self
  reached-IsValid (built arg) = tp_init-IsValid dec arg
  reached-IsValid (called r s) = Step-IsValid s (reached-IsValid r)
