-- ===== src/TtlCache/Pop.antt =====
-- `pop` takes the success of its deletion for a failure.
use mathlib.Core.Logic.{ite}
use mathlib.Core.Option.{get_or}
use python_ctools.Base.{
  ℕ, ◌≡◌, Bool, true, Option, none, some, arith, ok, fault, null_without_error,
}
use python_ctools.Base.Dict
use python_ctools.Base.Dict.{get_item-del_item}
use python_ctools.TtlCache.{TtlCache, get_ttl_item, del_item}
use python_ctools.TtlCache.Methods.{pop}
use python_ctools.TtlCache.Live.{IsValid, live}

module _ {ℓ} {K V : Type ℓ} (dec : Discrete K) (hashable : K → Bool) (py_none : V) where
  -- `pop` of a hashable key that is bound at the time deletes the key, keeps the others, and ends
  -- in NULL with no exception set: no value is returned.
  pub pop-live :
      (self : TtlCache K V) (key : K) (value : V) (default : Option V) (now : ℕ)
      → IsValid dec self
      → hashable key ≡ true
      → live dec self now key ≡ some value
      → ((pop dec hashable py_none self key default now).1 ≡ fault null_without_error)
        × ((later : ℕ) (q : K)
            → live dec (pop dec hashable py_none self key default now).0 later q
              ≡ ite (dec key q) none (live dec self later q))
  unfolding pop get_ttl_item del_item Dict.lookup Dict.delete
  pop-live self key value default now v h bound =
      (ground arith, λ later q. ground (arith, get_item-del_item dec key q self.dict v.distinct))

  -- `pop` of a hashable key that is bound to nothing at the time returns the default, or None.
  pop_missing :
      (self : TtlCache K V) (key : K) (default : Option V) (now : ℕ)
      → hashable key ≡ true
      → live dec self now key ≡ none
      → (pop dec hashable py_none self key default now).1 ≡ ok (get_or default py_none)
  unfolding pop get_ttl_item Dict.lookup
  pop_missing self key default now h bound = ground arith
