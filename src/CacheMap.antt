-- ===== src/CacheMap.antt =====
-- `CtsCacheMap` and `CtsCacheMapEntry` of src/cachemap.c: a dict of bounded size that evicts by the
-- visits of its entries. A method returns the new map beside its result; `now` is the time in
-- minutes at a call. Failed allocations and reference counts are left out, and `hits` and `misses`
-- count without a bound.
pub mod Evict
pub mod Methods
pub mod Compound
pub mod Random
pub mod Choice
pub mod Sampling
pub mod Draws
pub mod Bounded
pub mod Store
pub mod Capacity
pub mod Invariant
pub mod Calls
pub mod Reach
pub mod View
pub mod Least
mod Tests
use python_ctools.Base.{
  ℕ, zero, suc, ◌+◌, ◌-◌, ◌*◌, ◌/◌, ◌%◌, ◌^◌, Bool, true, false, ◌||◌, Option, none, some, List, [],
  ◌∷◌, map, ltb, leb, ◌==◌, if◌then◌else◌, length, get_elem?, Result, ok, raise, fault, value_error,
  key_error, raised, assertion, out_of_bounds, starved, signed_overflow, division_by_zero,
}
use python_ctools.Base.Int.{ℤ, pos, negsuc, is_pos, above, next, quotient}
use python_ctools.Base.Dict
use python_ctools.Base.Dict.{Dict}

-- `last_visit` and `visits` are uint32_t.
pub record Entry {ℓ} (V : Type ℓ) : Type ℓ where
  pub ma_value : V
  pub last_visit : ℕ
  pub visits : ℕ

pub record CacheMap {ℓ} (K V : Type ℓ) : Type ℓ where
  pub dict : Dict K (Entry V)
  pub capacity : ℕ
  pub hits : ℕ
  pub misses : ℕ

-- (unsigned int)(((uint64_t)time(NULL) / 60) & UINT32_MAX)
pub time_in_minutes : ℕ → ℕ
time_in_minutes seconds = seconds / 60 % 2 ^ 32

module _ {ℓ} {V : Type ℓ} where
  -- `CacheEntry_New` with `CacheEntry_Init`
  pub entry_new : V → ℕ → Entry V
  entry_new value now = record { ma_value = value; last_visit = now; visits = 255 }

  -- `CacheEntry_NewVisit`
  pub new_visit : Entry V → ℕ → Entry V
  new_visit self now = record self { last_visit = now; visits = (self.visits + 1) % 2 ^ 32 }

  -- `CacheEntry_GetWeight`; the difference of the times wraps.
  pub get_weight : Entry V → ℕ → ℕ
  get_weight self now =
      let num = (now + 2 ^ 32 - self.last_visit) % 2 ^ 32 / 10 in
      if ltb num self.visits then self.visits - num else 0

-- `rand() / divisor` for one output of `rand()` after the other, until it is not above the limit;
-- with it come the outputs that are left.
pub rand_until : ℤ → List ℕ → ℤ → Result (ℤ × List ℕ)
rand_until divisor [] limit = fault starved
rand_until divisor (r ∷ outputs) limit =
    let again = rand_until divisor outputs limit in
    if above (quotient r divisor) limit then again else ok (quotient r divisor, outputs)

-- `rand_integer`, of an `int`; `rand_max` is RAND_MAX. The division of RAND_MAX by limit + 1 may be a
-- division by zero, and its quotient may be zero, by which the loop then divides.
pub rand_integer : ℕ → List ℕ → ℤ → Result (ℤ × List ℕ)
rand_integer rand_max outputs limit =
    if is_pos limit (2 ^ 31 - 1)
    then fault signed_overflow
    else if is_pos (next limit) 0 || is_pos (quotient rand_max (next limit)) 0
    then fault division_by_zero
    else rand_until (quotient rand_max (next limit)) outputs limit
