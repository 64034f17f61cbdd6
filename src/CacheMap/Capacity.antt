-- ===== src/CacheMap/Capacity.antt =====
-- `set_capacity` and the evictions that it makes.
use python_ctools.Base.{
  ℕ, zero, suc, ◌+◌, ◌-◌, ◌/◌, ◌^◌, ◌≤◌, ◌<◌, ◌≡◌, ◌⊎◌, inl, inr, refl, Bool, some, List, ltb, ◌&&◌,
  if◌then◌else◌, arith, length, Result, ok, fault, Fault,
}
use python_ctools.Base.Int.{pos}
use python_ctools.Base.Dict
use python_ctools.Base.Dict.{Distinct, del_item-Distinct}
use python_ctools.CacheMap.{CacheMap}
use python_ctools.CacheMap.Compound.{surplus, evict_all, fix_capacity, set_capacity}
use python_ctools.CacheMap.Random.{DrawFault}
use python_ctools.CacheMap.Bounded.{IsValid, evict_one}

-- Within an `int` the surplus is the difference.
surplus_fits : (size capacity : ℕ) → size < 2 ^ 31 → surplus size capacity ≡ size - capacity
unfolding surplus
surplus_fits size capacity h = ground arith

module _ {ℓ} {K V : Type ℓ} (dec : Discrete K) (hashable : K → Bool) (rand_max : ℕ) where
  -- what `rounds` evictions leave, if they succeed
  abbrev Evicted : CacheMap K V → ℕ → CacheMap K V × Result (List ℕ) → Type ℓ
  Evicted self rounds out =
      ((rest : List ℕ) × (out.1 ≡ ok rest))
      × Distinct dec out.0.dict
      × (length out.0.dict + rounds ≡ length self.dict)

  -- How a call on a map that has 256 entries or more can fail: a draw of `rand_integer` up to an
  -- eighth of a size between 256 and that of the map fails.
  abbrev pub Failed : CacheMap K V → CacheMap K V × Result (List ℕ) → Type 0
  Failed self out =
      (n : ℕ) × (f : Fault) × (256 ≤ n)
      × (n ≤ length self.dict)
      × (out.1 ≡ fault f)
      × DrawFault rand_max (n / 8) f

  evict_all_lem :
      (rounds : ℕ) (self : CacheMap K V) (now : ℕ) (outputs : List ℕ)
      → Distinct dec self.dict
      → rounds ≤ length self.dict
      → Evicted self rounds (evict_all dec hashable rand_max rounds self now outputs)
        ⊎ Failed self (evict_all dec hashable rand_max rounds self now outputs)
  unfolding evict_all
  evict_all_lem zero self now outputs distinct enough = inl ((outputs, refl), distinct, omega arith)
  evict_all_lem (suc rounds) self now outputs distinct enough =
      elim (evict_one dec hashable rand_max self now outputs (λ e. omega arith)) [
        | inr (many, (f, failed, because)) ↦
            inr (length self.dict, f, many, omega arith, ground (arith, failed), because)
        | inl (key, rest, done, less) ↦
            let smaller : CacheMap K V = record self { dict = Dict.del_item dec key self.dict } in
            let step : evict_all dec hashable rand_max (suc rounds) self now outputs
                ≡ evict_all dec hashable rand_max rounds smaller now rest =
              ground (arith, done) in
            elim (evict_all_lem rounds smaller now rest
              (del_item-Distinct dec key self.dict distinct) (omega (arith, less))) [
                | inl (finished, distinct', left) ↦
                    inl (rw step (finished, distinct', omega (arith, left, less)))
                | inr (n, f, many, bound, failed, because) ↦
                    inr (n, f, many, omega (arith, bound, less), rw step failed, because)
              ]
      ]

  -- On a valid map of fewer than 2 ^ 31 entries, setting a capacity of at least one succeeds and
  -- leaves a valid map of that capacity, so one with at most so many entries. With 256 entries or
  -- more it may end in the fault of a draw of `rand_integer`, up to an eighth of the size of the map
  -- at an eviction: the outputs of `rand()` at hand do not end its loop, or RAND_MAX is at most an
  -- eighth of that size, or an eighth of it and one more is no `int`.
  pub set_capacity_lem :
      (self : CacheMap K V) (n now : ℕ) (outputs : List ℕ)
      → IsValid dec self
      → length self.dict < 2 ^ 31
      → (((rest : List ℕ) × ((set_capacity dec hashable rand_max self
                (some (pos (suc n)))
                now
                outputs).1
              ≡ ok rest))
          × IsValid dec (set_capacity dec hashable rand_max self (some (pos (suc n))) now outputs).0
          × ((set_capacity dec hashable rand_max self (some (pos (suc n))) now outputs).0.capacity
              ≡ suc n))
        ⊎ Failed self (set_capacity dec hashable rand_max self (some (pos (suc n))) now outputs)
  unfolding set_capacity
  set_capacity_lem self n now outputs v small =
      let more : Bool = ltb (suc n) self.capacity && ltb (suc n) (length self.dict) in
      let r : ℕ = if more then surplus (length self.dict) (suc n) else 0 in
      let fits : surplus (length self.dict) (suc n) ≡ length self.dict - suc n =
        surplus_fits (length self.dict) (suc n) small in
      let few : r ≤ length self.dict = ground (arith, fits) in
      elim (evict_all_lem r self now outputs v.distinct few) [
        | inl ((rest, done), distinct, left) ↦
            let fixed : fix_capacity dec hashable rand_max
                  (evict_all dec hashable rand_max r self now outputs) (suc n)
                ≡ (
                  record (evict_all dec hashable rand_max r self now outputs).0 {
                    capacity = suc n;
                  },
                  ok rest,
                ) =
              unfold fix_capacity in ground (arith, done) in
            inl (
              rw fixed (
                (rest, refl),
                record {
                  distinct = distinct;
                  positive = omega arith;
                  bounded = ground (arith, left, fits, v.bounded);
                },
                refl,
              ))
        | inr (m, f, many, bound, failed, because) ↦
            inr (m, f, many, bound, unfold fix_capacity in ground (arith, failed), because)
      ]
