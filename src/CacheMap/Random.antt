-- ===== src/CacheMap/Random.antt =====
-- What `rand_integer` returns, and how it can fail.
use python_ctools.Base.{
  ℕ, suc, ◌+◌, ◌-◌, ◌/◌, ◌^◌, ◌≤◌, ◌<◌, ◌≡◌, ◌⊎◌, inl, inr, refl, Bool-cases, List, [], ◌∷◌, ltb,
  ◌==◌, ◌||◌, arith, ok, fault, Fault, starved, division_by_zero, signed_overflow, dec_lt,
}
use python_ctools.Base.Int.{ℤ, pos, is_pos, above, next, quotient, to_int}
use python_ctools.CacheMap.{rand_until, rand_integer}

-- The faults that a draw up to a limit may end in: the outputs of `rand()` at hand do not end its
-- loop; RAND_MAX is no larger than the limit, so it divides by zero; or the limit does not leave
-- room for its successor in an `int`.
abbrev pub DrawFault : ℕ → ℕ → Fault → Type 0
DrawFault rand_max limit f =
    (f ≡ starved) ⊎ (((f ≡ division_by_zero) × (rand_max ≤ limit)) ⊎ (2 ^ 31 ≤ limit + 1))

rand_until-le :
    (divisor limit : ℕ) (outputs : List ℕ)
    → ((r : ℕ) × (rest : List ℕ) × (rand_until (pos divisor) outputs (pos limit) ≡ ok (pos r, rest))
        × (r ≤ limit))
      ⊎ (rand_until (pos divisor) outputs (pos limit) ≡ fault starved)
unfolding rand_until
rand_until-le divisor limit [] = inr refl
rand_until-le divisor limit (x ∷ outputs) = elim (Bool-cases (ltb limit (x / divisor))) [
  | inl over ↦ rw over (rand_until-le divisor limit outputs)
  | inr within ↦ inl (x / divisor, outputs, ground arith, ground arith)
]

rand_until_ends :
    (divisor limit : ℤ) (outputs : List ℕ)
    → ((r : ℤ) × (rest : List ℕ) × (rand_until divisor outputs limit ≡ ok (r, rest)))
      ⊎ (rand_until divisor outputs limit ≡ fault starved)
unfolding rand_until
rand_until_ends divisor limit [] = inr refl
rand_until_ends divisor limit (x ∷ outputs) = elim (Bool-cases (above (quotient x divisor) limit)) [
  | inl over ↦ rw over (rand_until_ends divisor limit outputs)
  | inr within ↦ inl (quotient x divisor, outputs, ground arith)
]

pub to_int-pos : (n : ℕ) → n < 2 ^ 31 → to_int n ≡ pos n
to_int-pos n h = ground arith

-- A draw of a limit that fits: a number up to the limit, or one of the faults.
rand_integer_fits :
    (rand_max limit : ℕ) (outputs : List ℕ)
    → limit + 1 < 2 ^ 31
    → ((r : ℕ) × (rest : List ℕ) × (rand_integer rand_max outputs (pos limit) ≡ ok (pos r, rest))
        × (r ≤ limit))
      ⊎ ((f : Fault) × (rand_integer rand_max outputs (pos limit) ≡ fault f)
          × DrawFault rand_max limit f)
unfolding rand_integer
rand_integer_fits rand_max limit outputs fits = elim (Bool-cases (rand_max / suc limit == 0)) [
  | inl by_zero ↦ inr (division_by_zero, ground arith, inr (inl (refl, ground arith)))
  | inr more ↦ elim (rand_until-le (rand_max / suc limit) limit outputs) [
    | inl (r, rest, drawn, le) ↦ inl (r, rest, ground (arith, drawn), le)
    | inr dry ↦ inr (starved, ground (arith, dry), inl refl)
  ]
]

-- Any draw: a number or a fault.
rand_integer_ends :
    (rand_max : ℕ) (limit : ℤ) (outputs : List ℕ)
    → ((r : ℤ) × (rest : List ℕ) × (rand_integer rand_max outputs limit ≡ ok (r, rest)))
      ⊎ ((f : Fault) × (rand_integer rand_max outputs limit ≡ fault f))
unfolding rand_integer
rand_integer_ends rand_max limit outputs = elim (Bool-cases (is_pos limit (2 ^ 31 - 1))) [
  | inl last ↦ inr (signed_overflow, rw last refl)
  | inr fits ↦
      elim (Bool-cases (is_pos (next limit) 0 || is_pos (quotient rand_max (next limit)) 0)) [
        | inl by_zero ↦ inr (division_by_zero, rw (fits, by_zero) refl)
        | inr more ↦ elim (rand_until_ends (quotient rand_max (next limit)) limit outputs) [
          | inl (r, rest, drawn) ↦ inl (r, rest, rw (fits, more) drawn)
          | inr dry ↦ inr (starved, rw (fits, more) dry)
        ]
      ]
]

-- The draw for buckets of a size: a number up to the size, unless the size is too large for an
-- `int`, or one of the faults.
pub rand_integer_lem :
    (rand_max b_size : ℕ) (outputs : List ℕ)
    → ((r : ℤ) × (rest : List ℕ) × (rand_integer rand_max outputs (to_int b_size) ≡ ok (r, rest))
        × (((n : ℕ) × (r ≡ pos n) × (n ≤ b_size)) ⊎ (2 ^ 31 ≤ b_size + 1)))
      ⊎ ((f : Fault) × (rand_integer rand_max outputs (to_int b_size) ≡ fault f)
          × DrawFault rand_max b_size f)
rand_integer_lem rand_max b_size outputs = elim (dec_lt (b_size + 1) (2 ^ 31)) [
  | yes fits ↦
      rw (to_int-pos b_size (omega (arith, fits)))
        (elim (rand_integer_fits rand_max b_size outputs fits) [
          | inl (r, rest, drawn, le) ↦ inl (pos r, rest, drawn, inl (r, refl, le))
          | inr failed ↦ inr failed
        ])
  | no large ↦ elim (rand_integer_ends rand_max (to_int b_size) outputs) [
    | inl (r, rest, drawn) ↦ inl (r, rest, drawn, inr (omega (arith, large)))
    | inr (f, failed) ↦ inr (f, failed, inr (inr (omega (arith, large))))
  ]
]
