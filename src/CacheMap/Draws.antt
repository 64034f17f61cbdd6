-- ===== src/CacheMap/Draws.antt =====
-- Which outputs of `rand()` are enough for `next_evict_key`.
use python_ctools.Base.{
  ℕ, zero, suc, ◌+◌, ◌*◌, ◌/◌, ◌^◌, ◌≤◌, ◌<◌, ◌≡◌, refl, true, none, List, [], ◌∷◌, arith, length,
  ok, ap, sym, subst, inl, inr, List-cases, ℕ_discrete,
}
use native.Mathlib.Nat.{div-lt_iff_lt-mul}
use python_ctools.Base.Int.{pos, to_int}
use python_ctools.Base.Dict.{Dict}
use python_ctools.CacheMap.{Entry, CacheMap, rand_until, rand_integer}
use python_ctools.CacheMap.Evict.{Sample, sample, chosen, next_evict_key}
use python_ctools.CacheMap.Choice.{has}
use python_ctools.CacheMap.Random.{to_int-pos}
use python_ctools.CacheMap.Sampling.{
  mul_mono, HasChosen, CanChoose, CanChoose-outputs, draw_chosen, sample_rest_chosen,
}

-- The first so many outputs are there, and each is below the multiple of limit + 1 that a draw up to
-- the limit accepts.
abbrev pub Accepted : ℕ → ℕ → ℕ → List ℕ → Type 0
Accepted rand_max limit zero outputs = Unit {0}
Accepted rand_max limit (suc n) [] = ⊥
Accepted rand_max limit (suc n) (r ∷ outputs) =
    (r < (limit + 1) * (rand_max / (limit + 1))) × Accepted rand_max limit n outputs

-- An output that is accepted ends the draw.
rand_integer_accepts :
    (rand_max limit r : ℕ) (outputs : List ℕ)
    → limit + 1 < 2 ^ 31
    → r < (limit + 1) * (rand_max / (limit + 1))
    → (n : ℕ) × (rand_integer rand_max (r ∷ outputs) (to_int limit) ≡ ok (pos n, outputs))
      × (n ≤ limit)
unfolding rand_integer rand_until
rand_integer_accepts rand_max limit r outputs fits accepted =
    let positive : 0 < rand_max / (limit + 1) = elim (ℕ_discrete (rand_max / (limit + 1)) 0) [
      | yes none_left ↦ absurd (omega (arith, ap (λ t. (limit + 1) * t) none_left))
      | no some_left ↦ omega arith
    ] in
    let within : r / (rand_max / (limit + 1)) ≤ limit =
      omega (arith, (div-lt_iff_lt-mul positive).1 accepted) in
    (
      r / (rand_max / (limit + 1)),
      rw (to_int-pos limit (omega (arith, fits))) (ground (arith, positive, within, fits)),
      within,
    )

module _ {ℓ} {K V : Type ℓ} (dec : Discrete K) (rand_max : ℕ) (d : Dict K (Entry V)) (now : ℕ) where
  round_accepts :
      (b_size rounds i : ℕ) (s : Sample K)
      → 8 * b_size ≤ length d
      → 0 < b_size
      → b_size + 1 < 2 ^ 31
      → i ≤ 6
      → CanChoose dec rand_max d now s
      → Accepted rand_max b_size (suc rounds) s.outputs
      → (s' : Sample K) × (sample dec rand_max d now b_size (suc rounds) i s
          ≡ sample dec rand_max d now b_size rounds (i + 1) s')
        × HasChosen dec rand_max d now s'
        × Accepted rand_max b_size rounds s'.outputs
  unfolding sample
  round_accepts b_size rounds i s room positive fits bound can enough =
      elim (List-cases s.outputs) [
        | inl e ↦ absurd (subst (Accepted rand_max b_size (suc rounds)) e enough)
        | inr (r, rest, e) ↦
            let more : Accepted rand_max b_size (suc rounds) (r ∷ rest) =
              subst (Accepted rand_max b_size (suc rounds)) e enough in
            let (n, drawn, le) = rand_integer_accepts rand_max b_size r rest fits more.0 in
            let s1 : Sample K = record s { outputs = rest } in
            let low : i * b_size ≤ 6 * b_size = mul_mono i 6 b_size bound in
            let (s', here, c, kept) =
              draw_chosen dec rand_max d now (i * b_size + n) s1 (omega (arith, low, le))
                (CanChoose-outputs dec rand_max d now s rest can) in
            (
              s',
              ground (arith, e, drawn, here),
              c,
              subst (Accepted rand_max b_size rounds) (sym kept) more.1,
            )
      ]

  sample_accepts :
      (b_size rounds i : ℕ) (s : Sample K)
      → 8 * b_size ≤ length d
      → 0 < b_size
      → b_size + 1 < 2 ^ 31
      → i + rounds ≤ 7
      → HasChosen dec rand_max d now s
      → Accepted rand_max b_size rounds s.outputs
      → (s' : Sample K) × (sample dec rand_max d now b_size rounds i s ≡ ok s')
        × HasChosen dec rand_max d now s'
  sample_accepts b_size zero i s room positive fits bound c enough = (s, unfold sample in refl, c)
  sample_accepts b_size (suc rounds) i s room positive fits bound c enough =
      let (s1, step, c1, left) =
        round_accepts b_size rounds i s room positive fits (omega arith) (inr c) enough in
      rw step (sample_accepts b_size rounds (i + 1) s1 room positive fits (omega arith) c1 left)

module _ {ℓ} {K V : Type ℓ} (dec : Discrete K) (rand_max : ℕ) where
  -- On a map of 256 entries or more, but fewer than 2 ^ 33, seven outputs of `rand()` are enough if
  -- each is below the largest multiple of an eighth of the size and one more that is at most
  -- RAND_MAX: `next_evict_key` then returns a key of the map.
  pub next_evict_key_ends :
      (self : CacheMap K V) (now : ℕ) (outputs : List ℕ)
      → 256 ≤ length self.dict
      → length self.dict < 2 ^ 33
      → Accepted rand_max (length self.dict / 8) 7 outputs
      → (key : K) × (rest : List ℕ) × (next_evict_key dec rand_max self now outputs
          ≡ ok (key, rest))
        × (has dec key self.dict ≡ true)
  unfolding next_evict_key chosen
  next_evict_key_ends self now outputs many fits enough =
      let b_size : ℕ = length self.dict / 8 in
      let s : Sample K = record { min = 0; rv = none; key = none; outputs = outputs } in
      let (s1, step, c1, left) =
        round_accepts dec rand_max self.dict now b_size 6 0 s (omega arith) (omega arith)
          (omega arith) (omega arith) (inl refl) enough in
      let (s2, sampled, c2) =
        sample_accepts dec rand_max self.dict now b_size 6 1 s1 (omega arith) (omega arith)
          (omega arith) (omega arith) c1 left in
      let (s3, rested, (key, is_key, there)) =
        sample_rest_chosen dec rand_max self.dict now b_size s2 refl c2 in
      (key, s3.outputs, ground (arith, step, sampled, rested, is_key), there)
