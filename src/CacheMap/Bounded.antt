-- ===== src/CacheMap/Bounded.antt =====
-- The bound of a map, and what an eviction leaves.
use python_ctools.Base.{
  ℕ, ◌+◌, ◌/◌, ◌≤◌, ◌<◌, ◌≡◌, ◌≢◌, ◌⊎◌, inl, inr, Bool, true, some, Option-cases, List, arith,
  length, ok, fault, Fault, ℕ_discrete,
}
use python_ctools.Base.Dict
use python_ctools.Base.Dict.{
  Dict, Distinct, del_item-Distinct, set_item-Distinct, length-del_item, length-set_item_new,
  length-set_item_old, get_item-set_item, get_item-del_item,
}
use python_ctools.CacheMap.{CacheMap}
use python_ctools.CacheMap.Evict.{next_evict_key, evict}
use python_ctools.CacheMap.Choice.{has}
use python_ctools.CacheMap.Random.{DrawFault}
use python_ctools.CacheMap.Sampling.{next_evict_key_safe}

module _ {ℓ} {K V : Type ℓ} (dec : Discrete K) where
  -- Each key stands once, the capacity is positive, and the map is within it.
  pub record IsValid (self : CacheMap K V) : Type ℓ where
    pub distinct : Distinct dec self.dict
    pub positive : 0 < self.capacity
    pub bounded : length self.dict ≤ self.capacity

  has_entry :
      (k : K) (d : Dict K V) → has dec k d ≡ true → (v : V) × (Dict.get_item dec k d ≡ some v)
  has_entry k d h = elim (Option-cases (Dict.get_item dec k d)) [
    | inl missing ↦ absurd (ground arith)
    | inr found ↦ found
  ]

module _ {ℓ} {K V : Type ℓ} (dec : Discrete K) (hashable : K → Bool) (rand_max : ℕ) where
  pub evict_one :
      (self : CacheMap K V) (now : ℕ) (outputs : List ℕ)
      → length self.dict ≢ 0
      → ((key : K) × (rest : List ℕ) × (evict dec rand_max self now outputs
            ≡ (record self { dict = Dict.del_item dec key self.dict }, ok rest))
          × (length (Dict.del_item dec key self.dict) + 1 ≡ length self.dict))
        ⊎ ((256 ≤ length self.dict)
            × ((f : Fault) × (evict dec rand_max self now outputs ≡ (self, fault f))
                × DrawFault rand_max (length self.dict / 8) f))
  unfolding evict
  evict_one self now outputs ne = elim (next_evict_key_safe dec rand_max self now outputs ne) [
    | inl (key, rest, chosen, there) ↦
        let (entry, found) = has_entry dec key self.dict there in
        inl (key, rest, ground (arith, chosen), length-del_item dec key entry self.dict found)
    | inr (many, (f, failed, because)) ↦ inr (many, (f, ground (arith, failed), because))
  ]

  pub evict-IsValid :
      (self : CacheMap K V) (now : ℕ) (outputs : List ℕ)
      → IsValid dec self
      → IsValid dec (evict dec rand_max self now outputs).0
  unfolding evict
  evict-IsValid self now outputs v = elim (ℕ_discrete (length self.dict) 0) [
    | yes empty ↦
        let same : (evict dec rand_max self now outputs).0 ≡ self =
          unfold next_evict_key in ground arith in
        rw same v
    | no ne ↦ elim (evict_one self now outputs ne) [
      | inl (key, rest, done, less) ↦ rw done (record {
        distinct = del_item-Distinct dec key self.dict v.distinct;
        positive = v.positive;
        bounded = omega (arith, v.bounded);
      })
      | inr (many, (f, failed, because)) ↦ rw failed v
    ]
  ]
