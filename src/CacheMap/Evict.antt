-- ===== src/CacheMap/Evict.antt =====
-- The choice of the key to evict, and `CacheMap_evict`, of src/cachemap.c.
use python_ctools.Base.{
  ℕ, zero, suc, ◌+◌, ◌-◌, ◌*◌, ◌/◌, ◌%◌, ◌||◌, Option, none, some, List, [], ◌∷◌, ltb, ◌==◌,
  if◌then◌else◌, length, get_elem?, Result, ok, raise, fault, key_error, assertion, out_of_bounds,
}
use python_ctools.Base.Int.{ℤ, pos, negsuc, plus, to_int}
use python_ctools.Base.Dict
use python_ctools.Base.Dict.{Dict}
use python_ctools.CacheMap.{Entry, CacheMap, get_weight, rand_integer}

module _ {ℓ} {K V : Type ℓ} where
  -- The loop of `CacheMap_NextEvictKey` over the whole dict. A least weight of 0 counts as none.
  unfoldable pub scan : ℕ → ℕ → Option K → Dict K (Entry V) → Option K
  scan now min rv [] = rv
  scan now min rv ((key, entry) ∷ d) =
      let weight = get_weight entry now in
      let better = min == 0 || ltb weight min in
      scan now (if better then weight else min) (if better then some key else rv) d

-- what the sampling loop carries: the least weight, the key that it chose, the key that it drew
-- last, and the outputs of `rand()` that are left
pub record Sample {ℓ} (K : Type ℓ) : Type ℓ where
  pub min : ℕ
  pub rv : Option K
  pub key : Option K
  pub outputs : List ℕ

unfoldable pub weigh {ℓ} : {K : Type ℓ} → Sample K → K → ℕ → Sample K
weigh s key weight =
    let better = s.min == 0 || ltb weight s.min in
    record s {
      min = if better then weight else s.min;
      rv = if better then some key else s.rv;
      key = some key;
    }

-- assert(rv)
unfoldable pub chosen {ℓ} : {K : Type ℓ} → Option K → List ℕ → Result (K × List ℕ)
chosen none outputs = fault assertion
chosen (some key) outputs = ok (key, outputs)

module _ {ℓ} {K V : Type ℓ} (dec : Discrete K) (rand_max : ℕ) where
  -- weighs the entry at a position of the list of keys
  unfoldable pub draw : Dict K (Entry V) → ℕ → ℤ → Sample K → Result (Sample K)
  draw d now (negsuc i) s = fault out_of_bounds
  draw d now (pos i) s = elim (get_elem? (Dict.keys d) i) [
    | none ↦ fault out_of_bounds
    | some key ↦ elim (Dict.get_item dec key d) [
      | none ↦ fault out_of_bounds
      | some entry ↦ ok (weigh s key (get_weight entry now))
    ]
  ]

  -- The sampling loop, with `rounds` to go from bucket `i` on. The size of a bucket is converted to an
  -- `int` for `rand_integer`.
  unfoldable pub sample : Dict K (Entry V) → ℕ → ℕ → ℕ → ℕ → Sample K → Result (Sample K)
  sample d now b_size zero i s = ok s
  sample d now b_size (suc rounds) i s = elim (rand_integer rand_max s.outputs (to_int b_size)) [
    | raise e ↦ raise e
    | fault f ↦ fault f
    | ok (r, rest) ↦ elim (draw d now (plus (i * b_size) r) (record s { outputs = rest })) [
      | ok s' ↦ sample d now b_size rounds (i + 1) s'
      | raise e ↦ raise e
      | fault f ↦ fault f
    ]
  ]

  -- The entry in the middle of the rest is weighed, but the key chosen for it is the one drawn last.
  unfoldable pub sample_rest : Dict K (Entry V) → ℕ → ℕ → Sample K → Result (Sample K)
  sample_rest d now b_size s =
      if length d % 8 == 0
      then ok s
      else elim (get_elem? (Dict.keys d) (8 * b_size + (length d - 8 * b_size) / 2)) [
        | none ↦ fault out_of_bounds
        | some middle ↦ elim (Dict.get_item dec middle d) [
          | none ↦ fault out_of_bounds
          | some entry ↦ ok (
              if s.min == 0 || ltb (get_weight entry now) s.min then record s { rv = s.key } else s)
        ]
      ]

  -- `CacheMap_NextEvictKey`: the key, and the outputs of `rand()` that are left
  unfoldable pub next_evict_key : CacheMap K V → ℕ → List ℕ → Result (K × List ℕ)
  next_evict_key self now outputs =
      if length self.dict == 0
      then raise key_error
      else if ltb (length self.dict) 256
      then chosen (scan now 0 none self.dict) outputs
      else let b_size = length self.dict / 8 in
        elim (sample self.dict now b_size 7 0
          (record { min = 0; rv = none; key = none; outputs = outputs })) [
            | raise e ↦ raise e
            | fault f ↦ fault f
            | ok s ↦ elim (sample_rest self.dict now b_size s) [
              | raise e ↦ raise e
              | fault f ↦ fault f
              | ok s' ↦ chosen s'.rv s'.outputs
            ]
          ]

  -- `CacheMap_evict`: nothing to evict, or an exception while choosing, is no error. With the result
  -- come the outputs of `rand()` that are left.
  unfoldable pub evict : CacheMap K V → ℕ → List ℕ → CacheMap K V × Result (List ℕ)
  evict self now outputs = elim (next_evict_key self now outputs) [
    | raise _ ↦ (self, ok outputs)
    | fault f ↦ (self, fault f)
    | ok (key, rest) ↦ (record self { dict = Dict.del_item dec key self.dict }, ok rest)
  ]
