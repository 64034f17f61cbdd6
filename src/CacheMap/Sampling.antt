-- ===== src/CacheMap/Sampling.antt =====
-- The sampling of a large map stays inside its list of keys and ends with a key of the map.
use python_ctools.Base.{
  ℕ, zero, suc, ◌+◌, ◌-◌, ◌*◌, ◌/◌, ◌%◌, ◌≤◌, ◌<◌, ◌≡◌, ◌≢◌, ◌⊎◌, inl, inr, refl, true, ◌||◌,
  Bool-cases, none, some, Option-cases, List, ltb, ◌==◌, arith, length, ok, fault, Fault,
  out_of_bounds, dec_lt, get_elem?,
}
use python_ctools.Base.Int.{ℤ, pos, negsuc, plus}
use python_ctools.Base.Dict
use python_ctools.Base.Dict.{Dict, keys}
use python_ctools.CacheMap.{Entry, CacheMap, get_weight}
use python_ctools.CacheMap.Evict.{Sample, weigh, draw, sample, sample_rest, chosen, next_evict_key}
use python_ctools.CacheMap.Choice.{has, keys-has, scan-has}
use python_ctools.CacheMap.Random.{DrawFault, rand_integer_lem}

pub mul_mono : (i j b : ℕ) → i ≤ j → i * b ≤ j * b
mul_mono i j b h = grind arith

module _ {ℓ} {K V : Type ℓ} (dec : Discrete K) (rand_max : ℕ) (d : Dict K (Entry V)) (now : ℕ) where
  -- A sample that has chosen and drawn keys of the dict.
  pub record HasChosen (s : Sample K) : Type ℓ where
    best : K
    best_is : s.rv ≡ some best
    best_has : has dec best d ≡ true
    last : K
    last_is : s.key ≡ some last
    last_has : has dec last d ≡ true

  -- one whose first draw will be chosen, or that has chosen already
  abbrev pub CanChoose : Sample K → Type ℓ
  CanChoose s = (s.min ≡ 0) ⊎ HasChosen s

  weigh-HasChosen :
      (s : Sample K) (key : K) (weight : ℕ)
      → CanChoose s
      → has dec key d ≡ true
      → HasChosen (weigh s key weight)
  unfolding weigh
  weigh-HasChosen s key weight (inl fresh) h = record {
    best = key;
    best_is = ground arith;
    best_has = h;
    last = key;
    last_is = refl;
    last_has = h;
  }
  weigh-HasChosen s key weight (inr c) h = elim (Bool-cases (s.min == 0 || ltb weight s.min)) [
    | inl better ↦ record {
      best = key;
      best_is = rw better;
      best_has = h;
      last = key;
      last_is = refl;
      last_has = h;
    }
    | inr worse ↦ record {
      best = c.best;
      best_is = rw worse c.best_is;
      best_has = c.best_has;
      last = key;
      last_is = refl;
      last_has = h;
    }
  ]

  pub CanChoose-outputs :
      (s : Sample K) (rest : List ℕ) → CanChoose s → CanChoose (record s { outputs = rest })
  CanChoose-outputs s rest (inl fresh) = inl fresh
  CanChoose-outputs s rest (inr c) = inr (record {
    best = c.best;
    best_is = c.best_is;
    best_has = c.best_has;
    last = c.last;
    last_is = c.last_is;
    last_has = c.last_has;
  })

  pub draw_chosen :
      (i : ℕ) (s : Sample K)
      → i < length d
      → CanChoose s
      → (s' : Sample K) × (draw dec rand_max d now (pos i) s ≡ ok s')
        × HasChosen s'
        × (s'.outputs ≡ s.outputs)
  unfolding draw
  draw_chosen i s h can =
      let (key, found, there) = keys-has dec d i h in
      elim (Option-cases (Dict.get_item dec key d)) [
        | inl missing ↦ absurd (ground arith)
        | inr (entry, here) ↦ (
          weigh s key (get_weight entry now),
          ground (arith, found, here),
          weigh-HasChosen s key (get_weight entry now) can there,
          unfold weigh in refl,
        )
      ]

  -- At any position, a draw has chosen or fails.
  draw_any :
      (i : ℤ) (s : Sample K)
      → CanChoose s
      → ((s' : Sample K) × (draw dec rand_max d now i s ≡ ok s') × HasChosen s')
        ⊎ (draw dec rand_max d now i s ≡ fault out_of_bounds)
  unfolding draw
  draw_any (negsuc i) s can = inr refl
  draw_any (pos i) s can = elim (dec_lt i (length d)) [
    | yes inside ↦ let (s', here, c', kept) = draw_chosen i s inside can in inl (s', here, c')
    | no outside ↦ elim (Option-cases (get_elem? (keys d) i)) [
      | inl beyond ↦ inr (ground (arith, beyond))
      | inr (key, found) ↦ elim (Option-cases (Dict.get_item dec key d)) [
        | inl missing ↦ inr (ground (arith, found, missing))
        | inr (entry, here) ↦ inl (
          weigh s key (get_weight entry now),
          ground (arith, found, here),
          weigh-HasChosen s key (get_weight entry now) can (ground (arith, here)),
        )
      ]
    ]
  ]

  -- One round of the loop: a sample that has chosen, or a fault of the draw.
  sample_round :
      (b_size rounds i : ℕ) (s : Sample K)
      → 0 < b_size
      → 8 * b_size ≤ length d
      → i ≤ 6
      → CanChoose s
      → ((s' : Sample K) × (sample dec rand_max d now b_size (suc rounds) i s
            ≡ sample dec rand_max d now b_size rounds (i + 1) s')
          × HasChosen s')
        ⊎ ((f : Fault) × (sample dec rand_max d now b_size (suc rounds) i s ≡ fault f)
            × DrawFault rand_max b_size f)
  unfolding sample
  sample_round b_size rounds i s positive room bound can =
      elim (rand_integer_lem rand_max b_size s.outputs) [
        | inr (f, failed, because) ↦ inr (f, ground (arith, failed), because)
        | inl (r, rest, drawn, small) ↦
            let s1 : Sample K = record s { outputs = rest } in
            let can1 : CanChoose s1 = CanChoose-outputs s rest can in
            elim small [
              | inl (n, is_n, below) ↦
                  let low : i * b_size ≤ 6 * b_size = mul_mono i 6 b_size bound in
                  let (s', here, c', kept) =
                    draw_chosen (i * b_size + n) s1 (omega (arith, low, below)) can1 in
                  inl (s', ground (arith, drawn, is_n, here), c')
              | inr large ↦ elim (draw_any (plus (i * b_size) r) s1 can1) [
                | inl (s', here, c') ↦ inl (s', ground (arith, drawn, here), c')
                | inr outside ↦ inr (out_of_bounds, ground (arith, drawn, outside), inr (inr large))
              ]
            ]
      ]

  -- The loop ends with a choice, or a draw fails.
  sample_chosen :
      (b_size rounds i : ℕ) (s : Sample K)
      → 0 < b_size
      → 8 * b_size ≤ length d
      → i + rounds ≤ 7
      → HasChosen s
      → ((s' : Sample K) × (sample dec rand_max d now b_size rounds i s ≡ ok s') × HasChosen s')
        ⊎ ((f : Fault) × (sample dec rand_max d now b_size rounds i s ≡ fault f)
            × DrawFault rand_max b_size f)
  sample_chosen b_size zero i s positive room bound c = inl (s, unfold sample in refl, c)
  sample_chosen b_size (suc rounds) i s positive room bound c =
      elim (sample_round b_size rounds i s positive room (omega arith) (inr c)) [
        | inr failed ↦ inr failed
        | inl (s', step, c') ↦
            rw step (sample_chosen b_size rounds (i + 1) s' positive room (omega arith) c')
      ]

  -- So does the loop from the start, with nothing chosen yet.
  sample_start :
      (b_size : ℕ) (outputs : List ℕ)
      → 0 < b_size
      → 8 * b_size ≤ length d
      → let s : Sample K = record { min = 0; rv = none; key = none; outputs = outputs } in
        ((s' : Sample K) × (sample dec rand_max d now b_size 7 0 s ≡ ok s') × HasChosen s')
        ⊎ ((f : Fault) × (sample dec rand_max d now b_size 7 0 s ≡ fault f)
            × DrawFault rand_max b_size f)
  sample_start b_size outputs positive room =
      let s : Sample K = record { min = 0; rv = none; key = none; outputs = outputs } in
      elim (sample_round b_size 6 0 s positive room (omega arith) (inl refl)) [
        | inr failed ↦ inr failed
        | inl (s', step, c') ↦ rw step (sample_chosen b_size 6 1 s' positive room (omega arith) c')
      ]

  -- The weighing of the rest finds its entry, and keeps a choice.
  pub sample_rest_chosen :
      (b_size : ℕ) (s : Sample K)
      → b_size ≡ length d / 8
      → HasChosen s
      → (s' : Sample K) × (sample_rest dec rand_max d now b_size s ≡ ok s')
        × ((k : K) × (s'.rv ≡ some k) × (has dec k d ≡ true))
  unfolding sample_rest
  sample_rest_chosen b_size s e c = elim (Bool-cases (length d % 8 == 0)) [
    | inl even ↦ (s, ground (arith, even), (c.best, c.best_is, c.best_has))
    | inr rest ↦
        let (middle, found, there) =
          keys-has dec d (8 * b_size + (length d - 8 * b_size) / 2) (ground arith) in
        elim (Option-cases (Dict.get_item dec middle d)) [
          | inl missing ↦ absurd (ground arith)
          | inr (entry, here) ↦ elim (Bool-cases (s.min == 0 || ltb (get_weight entry now) s.min)) [
            | inl better ↦ (
              record s { rv = s.key },
              ground (arith, rest, found, here, better),
              (c.last, c.last_is, c.last_has),
            )
            | inr worse ↦
                (s, ground (arith, rest, found, here, worse), (c.best, c.best_is, c.best_has))
          ]
        ]
  ]

module _ {ℓ} {K V : Type ℓ} (dec : Discrete K) (rand_max : ℕ) where
  -- On a map that is not empty `next_evict_key` returns a key of the map: always if it has fewer than
  -- 256 entries, and else unless a draw of `rand_integer` up to an eighth of the size fails. It then
  -- ends in the fault of the draw: the outputs of `rand()` at hand do not end its loop, or RAND_MAX is
  -- at most an eighth of the size, so that it divides by zero, or an eighth of the size and one more
  -- is no `int`. Unless the latter holds, it never reads outside its list of keys, and its assertion
  -- holds.
  pub next_evict_key_safe :
      (self : CacheMap K V) (now : ℕ) (outputs : List ℕ)
      → length self.dict ≢ 0
      → ((key : K) × (rest : List ℕ) × (next_evict_key dec rand_max self now outputs
            ≡ ok (key, rest))
          × (has dec key self.dict ≡ true))
        ⊎ ((256 ≤ length self.dict)
            × ((f : Fault) × (next_evict_key dec rand_max self now outputs ≡ fault f)
                × DrawFault rand_max (length self.dict / 8) f))
  unfolding next_evict_key chosen
  next_evict_key_safe self now outputs ne = elim (dec_lt (length self.dict) 256) [
    | yes few ↦
        let (key, found, there) = scan-has dec now self.dict ne in
        inl (key, outputs, ground (arith, found), there)
    | no many ↦
        elim (sample_start dec rand_max self.dict now (length self.dict / 8) outputs (omega arith)
          (omega arith)) [
            | inr (f, failed, because) ↦ inr (omega arith, (f, ground (arith, failed), because))
            | inl (s, sampled, c) ↦
                let (s', rested, (key, is_key, there)) =
                  sample_rest_chosen dec rand_max self.dict now (length self.dict / 8) s refl c in
                inl (key, s'.outputs, ground (arith, sampled, rested, is_key), there)
          ]
  ]
