-- ===== src/CacheMap/Choice.antt =====
-- Which key `next_evict_key` chooses.
use python_ctools.Base.{
  ℕ, zero, suc, ◌<◌, ◌≡◌, ◌≢◌, ◌⊎◌, inl, inr, refl, Bool, true, false, ◌||◌, Bool-cases, none, some,
  [], ◌∷◌, ltb, ◌==◌, arith, length, get_elem?,
}
use python_ctools.Base.Dict
use python_ctools.Base.Dict.{Dict, Distinct, keys}
use python_ctools.CacheMap.{Entry, get_weight}
use python_ctools.CacheMap.Evict.{scan}

module _ {ℓ} {K V : Type ℓ} (dec : Discrete K) where
  abbrev pub has : K → Dict K V → Bool
  has k d = elim (Dict.get_item dec k d) [ none ↦ false | some _ ↦ true ]

  has-cons : (k j : K) (v : V) (d : Dict K V) → has k d ≡ true → has k ((j, v) ∷ d) ≡ true
  unfolding Dict.get_item
  has-cons k j v d h = ground arith

  has-head : (k : K) (v : V) (d : Dict K V) → has k ((k, v) ∷ d) ≡ true
  unfolding Dict.get_item
  has-head k v d = ground arith

  pub keys-has :
      (d : Dict K V) (i : ℕ)
      → i < length d
      → (k : K) × (get_elem? (keys d) i ≡ some k) × (has k d ≡ true)
  keys-has [] i h = absurd (omega arith)
  keys-has ((k, v) ∷ d) zero h = (k, refl, has-head k v d)
  keys-has ((k, v) ∷ d) (suc i) h =
      let (q, found, there) = keys-has d i (omega arith) in (q, found, has-cons q k v d there)

module _ {ℓ} {K V : Type ℓ} (dec : Discrete K) (now : ℕ) where
  -- Once a key is chosen, the scan ends with that key or with one of the dict.
  scan-some :
      (min : ℕ) (k : K) (d : Dict K (Entry V))
      → (q : K) × (scan now min (some k) d ≡ some q) × ((q ≡ k) ⊎ (has dec q d ≡ true))
  unfolding scan
  scan-some min k [] = (k, refl, inl refl)
  scan-some min k ((j, e) ∷ d) = elim (Bool-cases (min == 0 || ltb (get_weight e now) min)) [
    | inl better ↦
        let (q, found, there) = scan-some (get_weight e now) j d in
        (
          q,
          rw better found,
          inr (elim there [
            | inl same ↦ rw same (has-head dec j e d)
            | inr h ↦ has-cons dec q j e d h
          ]),
        )
    | inr worse ↦
        let (q, found, there) = scan-some min k d in
        (
          q,
          rw worse found,
          elim there [ inl same ↦ inl same | inr h ↦ inr (has-cons dec q j e d h) ],
        )
  ]

  -- The scan of a dict that is not empty chooses a key of it.
  pub scan-has :
      (d : Dict K (Entry V))
      → length d ≢ 0
      → (q : K) × (scan now 0 none d ≡ some q) × (has dec q d ≡ true)
  unfolding scan
  scan-has [] h = absurd (h refl)
  scan-has ((j, e) ∷ d) h =
      let (q, found, there) = scan-some (get_weight e now) j d in
      (
        q,
        found,
        elim there [ inl same ↦ rw same (has-head dec j e d) | inr p ↦ has-cons dec q j e d p ],
      )
