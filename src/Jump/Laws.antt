-- ===== src/Jump/Laws.antt =====
-- Jump consistent hashing: the loop ends, its result is a bucket, and one more bucket moves a key
-- only to that bucket.
use python_ctools.Base.{
  ℕ, zero, suc, ◌+◌, ◌-◌, ◌/◌, ◌^◌, ◌≤◌, ◌<◌, ◌≡◌, ◌⊎◌, inl, inr, sym, ap, ◌∙◌, ℕ_discrete, some,
  ltb, Bool-cases, ltb→lt, lt→ltb, dec_lt, arith,
}
use python_ctools.Base.Int.{ℤ, pos, negsuc}
use python_ctools.Jump.{Doubles, next_key, next_j, jump_loop, jump_hash}

module _ (doubles : Doubles) where
  open doubles use {of_int, div, mul, to_int, one-le-div, le-mul, le-to_int}

  next_key-lt : (key : ℕ) → next_key key < 2 ^ 64
  unfolding next_key
  next_key-lt key = omega arith

  -- The next candidate is beyond the bucket just tried.
  lt-next_j : (b key : ℕ) → b < 2 ^ 31 → key < 2 ^ 64 → b < next_j doubles b key
  unfolding next_j
  lt-next_j b key small range =
      let q = div (of_int (2 ^ 31)) (of_int (key / 2 ^ 33 + 1)) in
      let grows =
        one-le-div (2 ^ 31) (key / 2 ^ 33 + 1) (omega arith) (omega arith) (omega arith) in
      omega (
        arith,
        le-to_int (b + 1) (mul (of_int (b + 1)) q) (omega arith)
            (le-mul (b + 1) q (omega arith) grows),
      )

  -- The loop stops at a candidate that is no bucket.
  jump_loop_stop :
      (fuel n key j : ℕ) (b : ℤ)
      → 0 < fuel
      → n ≤ j
      → jump_loop doubles fuel (pos n) key b j ≡ some b
  unfolding jump_loop
  jump_loop_stop zero n key j b f h = absurd (omega arith)
  jump_loop_stop (suc fuel) n key j b f h = ground arith

  -- With a bucket in hand and enough fuel the loop ends at a bucket.
  jump_loop_total :
      (fuel n key b j : ℕ)
      → n < 2 ^ 31
      → 0 < fuel
      → n < fuel + j
      → b < n
      → (r : ℕ) × (jump_loop doubles fuel (pos n) key (pos b) j ≡ some (pos r)) × (r < n)
  unfolding jump_loop
  jump_loop_total zero n key b j small fuelled enough hb = absurd (omega arith)
  jump_loop_total (suc fuel) n key b j small fuelled enough hb = elim (Bool-cases (ltb j n)) [
    | inl more ↦
        let lt : j < n = ltb→lt j n more in
        let beyond = lt-next_j j (next_key key) (omega arith) (next_key-lt key) in
        rw more (
          jump_loop_total fuel n (next_key key) j (next_j doubles j (next_key key)) small
            (omega arith) (omega arith) lt)
    | inr over ↦ (b, rw over, hb)
  ]

  -- For a number of buckets from 1 to 2 ^ 31 - 1 the loop ends, and the result is one of the
  -- buckets 0 to num_buckets - 1.
  pub jump_hash_bucket :
      (key n : ℕ)
      → 0 < n
      → n < 2 ^ 31
      → (r : ℕ) × (jump_hash doubles key (pos n) ≡ some (pos r)) × (r < n)
  unfolding jump_hash jump_loop
  jump_hash_bucket key n positive small =
      let beyond = lt-next_j 0 (next_key key) (omega arith) (next_key-lt key) in
      rw (lt→ltb 0 n positive) (
        jump_loop_total n n (next_key key) 0 (next_j doubles 0 (next_key key)) small positive
          (omega arith) positive)

  -- Two runs of the loop, for `n` and for one more bucket, part only at the new bucket.
  jump_loop_one_more :
      (fuel fuel' n key j : ℕ) (b : ℤ)
      → n < 2 ^ 31 - 1
      → 0 < fuel'
      → suc n < fuel + j
      → 0 < fuel
      → n < fuel' + j
      → (jump_loop doubles fuel (pos (suc n)) key b j ≡ some (pos n))
        ⊎ (jump_loop doubles fuel (pos (suc n)) key b j ≡ jump_loop doubles fuel' (pos n) key b j)
  unfolding jump_loop
  jump_loop_one_more zero fuel' n key j b small f' enough f enough' = absurd (omega arith)
  jump_loop_one_more (suc fuel) zero n key j b small f' enough f enough' = absurd (omega arith)
  jump_loop_one_more (suc fuel) (suc fuel') n key j b small f' enough f enough' =
      elim (dec_lt j n) [
        | yes lt ↦
            let beyond = lt-next_j j (next_key key) (omega arith) (next_key-lt key) in
            rw (lt→ltb j n lt, lt→ltb j (suc n) (omega arith))
              (jump_loop_one_more fuel fuel' n (next_key key) (next_j doubles j (next_key key))
                (pos j) small (omega arith) (omega arith) (omega arith) (omega arith))
        | no ge ↦ elim (ℕ_discrete j n) [
          | yes same ↦
              let beyond = lt-next_j j (next_key key) (omega arith) (next_key-lt key) in
              inl (
                rw (lt→ltb j (suc n) (omega arith)) (
                  jump_loop_stop fuel (suc n) (next_key key) (next_j doubles j (next_key key))
                    (pos j) (omega arith) (omega arith)
                  ∙ ap (λ t. some (pos t)) same))
          | no ne ↦ inr (
              jump_loop_stop (suc fuel) (suc n) key j b (omega arith) (omega arith)
              ∙ sym (jump_loop_stop (suc fuel') n key j b (omega arith) (omega arith)))
        ]
      ]

  -- One more bucket moves a key to the new bucket or not at all, from any number of buckets that
  -- leaves room for one more below 2 ^ 31 - 1.
  pub jump_hash_consistent :
      (key n : ℕ)
      → n < 2 ^ 31 - 1
      → (jump_hash doubles key (pos (suc n)) ≡ some (pos n))
        ⊎ (jump_hash doubles key (pos (suc n)) ≡ jump_hash doubles key (pos n))
  unfolding jump_hash
  jump_hash_consistent key n small =
      jump_loop_one_more (suc (suc n)) (suc n) n key 0 (negsuc 0) small (omega arith) (omega arith)
        (omega arith) (omega arith)
