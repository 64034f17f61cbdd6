-- ===== src/CacheMap/Invariant.antt =====
-- No method leaves a map with a key twice, or with more entries than its capacity.
use python_ctools.Base.{
  ℕ, zero, suc, ◌+◌, ◌≡◌, refl, ap, Bool, Bool-cases, Option, none, some, Option-cases, List, [],
  ◌∷◌, inl, inr, arith, length,
}
use python_ctools.Base.Int.{ℤ, pos, negsuc}
use python_ctools.Base.Dict
use python_ctools.Base.Dict.{
  Dict, Distinct, set_item-Distinct, del_item-Distinct, length-del_item, length-set_item_old,
}
use python_ctools.CacheMap.{Entry, CacheMap, new_visit}
use python_ctools.CacheMap.Methods.{
  new, tp_init, clear, visit_all, values, items, visit, subscript, set_item, del_item,
}
use python_ctools.CacheMap.Bounded.{IsValid}
use python_ctools.CacheMap.Store.{set_item_stores}

module _ {ℓ} {K V : Type ℓ} (dec : Discrete K) where
  -- An object that `CacheMap_New` made and `__init__` finished.
  pub tp_init-IsValid : (arg : Option ℤ) → IsValid {V = V} dec (tp_init new arg).0
  unfolding tp_init new
  tp_init-IsValid none = record { distinct = tt; positive = omega arith; bounded = omega arith }
  tp_init-IsValid (some (pos zero)) = record {
    distinct = tt;
    positive = omega arith;
    bounded = omega arith;
  }
  tp_init-IsValid (some (pos (suc n))) = record {
    distinct = tt;
    positive = omega arith;
    bounded = omega arith;
  }
  tp_init-IsValid (some (negsuc n)) = record {
    distinct = tt;
    positive = omega arith;
    bounded = omega arith;
  }

  pub clear-IsValid : (self : CacheMap K V) → IsValid dec self → IsValid dec (clear self)
  unfolding clear
  clear-IsValid self v = record { distinct = tt; positive = v.positive; bounded = omega arith }

  get_item-visit_all :
      (now : ℕ) (k : K) (d : Dict K (Entry V))
      → Dict.get_item dec k d ≡ none
      → Dict.get_item dec k (visit_all now d) ≡ none
  unfolding Dict.get_item
  get_item-visit_all now k [] h = refl
  get_item-visit_all now k ((j, e) ∷ d) h = ground (arith, get_item-visit_all now k d)

  visit_all-Distinct :
      (now : ℕ) (d : Dict K (Entry V)) → Distinct dec d → Distinct dec (visit_all now d)
  visit_all-Distinct now [] h = h
  visit_all-Distinct now ((j, e) ∷ d) h =
      (get_item-visit_all now j d h.0, visit_all-Distinct now d h.1)

  length-visit_all : (now : ℕ) (d : Dict K (Entry V)) → length (visit_all now d) ≡ length d
  length-visit_all now [] = refl
  length-visit_all now ((j, e) ∷ d) = ap suc (length-visit_all now d)

  -- `values` and `items` leave the same map.
  pub values-IsValid :
      (self : CacheMap K V) (now : ℕ)
      → IsValid dec self
      → IsValid dec (values self now).0 × IsValid dec (items self now).0
  unfolding values items
  values-IsValid self now v =
      let after : IsValid dec (record self { dict = visit_all now self.dict }) = record {
        distinct = visit_all-Distinct now self.dict v.distinct;
        positive = v.positive;
        bounded = omega (arith, v.bounded, length-visit_all now self.dict);
      } in
      (after, after)

module _ {ℓ} {K V : Type ℓ} (dec : Discrete K) (hashable : K → Bool) (rand_max : ℕ) where
  pub visit-IsValid :
      (self : CacheMap K V) (key : K) (entry : Entry V) (now : ℕ)
      → IsValid dec self
      → Dict.get_item dec key self.dict ≡ some entry
      → IsValid dec (visit dec hashable rand_max self key entry now)
  unfolding visit
  visit-IsValid self key entry now v found = record {
    distinct = set_item-Distinct dec key (new_visit entry now) self.dict v.distinct;
    positive = v.positive;
    bounded =
        omega (
          arith,
          v.bounded,
          length-set_item_old dec key (new_visit entry now) entry self.dict found,
        );
  }

  pub subscript-IsValid :
      (self : CacheMap K V) (key : K) (now : ℕ)
      → IsValid dec self
      → IsValid dec (subscript dec hashable rand_max self key now).0
  unfolding subscript Dict.lookup
  subscript-IsValid self key now v =
      let hit : IsValid dec (record self { hits = self.hits + 1 }) = record {
        distinct = v.distinct;
        positive = v.positive;
        bounded = v.bounded;
      } in
      let miss : IsValid dec (record self { misses = self.misses + 1 }) = record {
        distinct = v.distinct;
        positive = v.positive;
        bounded = v.bounded;
      } in
      elim (Bool-cases (hashable key)) [
        | inr h ↦ ground (arith, h, miss)
        | inl h ↦ elim (Option-cases (Dict.get_item dec key self.dict)) [
          | inl missing ↦ ground (arith, h, missing, miss)
          | inr (entry, found) ↦ ground (
            arith,
            h,
            found,
            visit-IsValid (record self { hits = self.hits + 1 }) key entry now hit found,
          )
        ]
      ]

  pub set_item-IsValid :
      (self : CacheMap K V) (key : K) (value : V) (now later : ℕ) (outputs : List ℕ)
      → IsValid dec self
      → IsValid dec (set_item dec hashable rand_max self key value now later outputs).0
  set_item-IsValid self key value now later outputs v = elim (Bool-cases (hashable key)) [
    | inl h ↦ elim (set_item_stores dec hashable rand_max self key value now later outputs v h) [
      | inl (stored, way) ↦ stored.0
      | inr (new, full, many, (f, failed, because)) ↦ rw failed v
    ]
    | inr h ↦
        let same : (set_item dec hashable rand_max self key value now later outputs).0 ≡ self =
          unfold set_item Dict.lookup in ground arith in
        rw same v
  ]

  pub del_item-IsValid :
      (self : CacheMap K V) (key : K)
      → IsValid dec self
      → IsValid dec (del_item dec hashable rand_max self key).0
  unfolding del_item Dict.delete
  del_item-IsValid self key v = elim (Bool-cases (hashable key)) [
    | inr h ↦ ground (arith, h, v)
    | inl h ↦ elim (Option-cases (Dict.get_item dec key self.dict)) [
      | inl missing ↦ ground (arith, h, missing, v)
      | inr (entry, found) ↦
          let less : IsValid dec (record self { dict = Dict.del_item dec key self.dict }) = record {
            distinct = del_item-Distinct dec key self.dict v.distinct;
            positive = v.positive;
            bounded = omega (arith, v.bounded, length-del_item dec key entry self.dict found);
          } in
          ground (arith, h, found, less)
    ]
  ]
