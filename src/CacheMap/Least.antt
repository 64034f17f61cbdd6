-- ===== src/CacheMap/Least.antt =====
-- The weights that the choice of a small map goes by.
use python_ctools.Base.{
  ℕ, suc, ◌≤◌, ◌<◌, ◌≡◌, ◌≢◌, ◌⊎◌, inl, inr, refl, Bool, Bool-cases, ◌||◌, Option, none, some, List,
  [], ◌∷◌, ◌++◌, ltb, ◌==◌, if◌then◌else◌, arith, length, get_elem?, ok,
}
use python_ctools.Base.Dict.{Dict}
use python_ctools.CacheMap.{Entry, CacheMap, get_weight}
use python_ctools.CacheMap.Evict.{scan, chosen, next_evict_key}

module _ {ℓ} {K V : Type ℓ} (dec : Discrete K) (rand_max : ℕ) (now : ℕ) where
  -- every entry has a weight of at least `w`
  abbrev pub AllHeavy : ℕ → Dict K (Entry V) → Type 0
  AllHeavy w [] = Unit
  AllHeavy w ((_, e) ∷ d) = (w ≤ get_weight e now) × AllHeavy w d

  -- an entry of the dict
  abbrev pub Among : K → Entry V → Dict K (Entry V) → Type ℓ
  Among k e d = (i : ℕ) × (get_elem? d i ≡ some (k, e))

  AllHeavy-mono : (v w : ℕ) (d : Dict K (Entry V)) → v ≤ w → AllHeavy w d → AllHeavy v d
  AllHeavy-mono v w [] le h = tt
  AllHeavy-mono v w (f ∷ d) le h = (omega (arith, h.0), AllHeavy-mono v w d le h.1)

  -- With a positive least weight in hand the scan ends with it, or with a lighter entry of the dict.
  scan_least :
      (min : ℕ) (k : K) (d : Dict K (Entry V))
      → 0 < min
      → AllHeavy 1 d
      → ((scan now min (some k) d ≡ some k) × AllHeavy min d)
        ⊎ ((q : K) × (e : Entry V) × (scan now min (some k) d ≡ some q)
            × Among q e d
            × (get_weight e now < min)
            × AllHeavy (get_weight e now) d)
  unfolding scan
  scan_least min k [] positive h = inl (refl, tt)
  scan_least min k ((j, e) ∷ d) positive h =
      elim (Bool-cases (min == 0 || ltb (get_weight e now) min)) [
        | inl better ↦ elim (scan_least (get_weight e now) j d (omega (arith, h.0)) h.1) [
          | inl (same, heavy) ↦
              inr (j, e, rw better same, (0, refl), ground arith, (omega arith, heavy))
          | inr (q, f, found, there, lighter, heavy) ↦
              inr
                (q, f, rw better found, (suc there.0, there.1), ground arith, (omega arith, heavy))
        ]
        | inr worse ↦ elim (scan_least min k d positive h.1) [
          | inl (same, heavy) ↦ inl (rw worse same, (ground arith, heavy))
          | inr (q, f, found, there, lighter, heavy) ↦
              inr (q, f, rw worse found, (suc there.0, there.1), lighter, (ground arith, heavy))
        ]
      ]

  scan_first :
      (d : Dict K (Entry V))
      → length d ≢ 0
      → AllHeavy 1 d
      → (q : K) × (e : Entry V) × (scan now 0 none d ≡ some q)
        × Among q e d
        × AllHeavy (get_weight e now) d
  unfolding scan
  scan_first [] ne h = absurd (ne refl)
  scan_first ((j, e) ∷ d) ne h = elim (scan_least (get_weight e now) j d (omega (arith, h.0)) h.1) [
    | inl (same, heavy) ↦ (j, e, same, (0, refl), (omega arith, heavy))
    | inr (q, f, found, there, lighter, heavy) ↦
        (q, f, found, (suc there.0, there.1), (omega arith, heavy))
  ]

  scan_zero :
      (min : ℕ) (rv : Option K) (d : Dict K (Entry V)) (k0 k1 : K) (e0 e1 : Entry V)
      → get_weight e0 now ≡ 0
      → scan now min rv (d ++ (k0, e0) ∷ (k1, e1) ∷ []) ≡ some k1
  unfolding scan
  scan_zero min rv [] k0 k1 e0 e1 h = ground arith
  scan_zero min rv ((j, e) ∷ d) k0 k1 e0 e1 h =
      let better : Bool = min == 0 || ltb (get_weight e now) min in
      scan_zero (if better then get_weight e now else min) (if better then some j else rv) d k0 k1
        e0 e1 h

  length_back :
      (d : Dict K (Entry V)) (k0 k1 : K) (e0 e1 : Entry V)
      → 0 < length (d ++ (k0, e0) ∷ (k1, e1) ∷ [])
  length_back [] k0 k1 e0 e1 = omega arith
  length_back (f ∷ d) k0 k1 e0 e1 = omega arith

  -- On a map with between 1 and 255 entries, all of positive weight, `next_evict_key` chooses an entry
  -- of the map whose weight no other entry falls below, and draws no random number.
  pub next_evict_key_least :
      (self : CacheMap K V) (outputs : List ℕ)
      → length self.dict ≢ 0
      → length self.dict < 256
      → AllHeavy 1 self.dict
      → (q : K) × (e : Entry V) × (next_evict_key dec rand_max self now outputs ≡ ok (q, outputs))
        × Among q e self.dict
        × AllHeavy (get_weight e now) self.dict
  unfolding next_evict_key chosen
  next_evict_key_least self outputs ne few heavy =
      let (q, e, found, there, least) = scan_first self.dict ne heavy in
      (q, e, ground (arith, found), there, least)

  -- A weight of zero stands for no choice: in a map with fewer than 256 entries whose last entry
  -- but one has weight zero, the last entry is chosen, whatever its weight.
  pub next_evict_key_zero :
      (self : CacheMap K V) (outputs : List ℕ) (d : Dict K (Entry V)) (k0 k1 : K) (e0 e1 : Entry V)
      → self.dict ≡ d ++ (k0, e0) ∷ (k1, e1) ∷ []
      → length self.dict < 256
      → get_weight e0 now ≡ 0
      → next_evict_key dec rand_max self now outputs ≡ ok (k1, outputs)
  unfolding next_evict_key chosen
  next_evict_key_zero self outputs d k0 k1 e0 e1 last few zero_weight =
      let some_left : length self.dict ≢ 0 =
        rw last (λ e. omega (arith, length_back d k0 k1 e0 e1)) in
      ground (arith, last, scan_zero 0 none d k0 k1 e0 e1 zero_weight)
