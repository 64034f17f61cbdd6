-- ===== src/Jump.antt =====
-- `Ctools__jump_hash` of src/functions.c. Its doubles are a parameter: the conversions, the two
-- operations and the order, with what IEEE 754 guarantees of them in the range that is used.
pub mod Laws
mod Tests
use python_ctools.Base.{
  ℕ, zero, suc, ◌+◌, ◌*◌, ◌/◌, ◌%◌, ◌^◌, ◌≤◌, ◌<◌, Option, none, some, ltb, if◌then◌else◌, Bool,
  true, false,
}
use python_ctools.Base.Int.{ℤ, pos, negsuc}

pub record Doubles : Type 1 where
  pub Double : Type 0
  pub of_int : ℕ → Double
  pub div : Double → Double → Double
  pub mul : Double → Double → Double
  -- the conversion to int64_t of a double that is not negative
  pub to_int : Double → ℕ
  pub AtMost : Double → Double → Type 0
  -- Rounding is monotone, and integers up to 2 ^ 53 are exact: a quotient of at least one is not
  -- rounded below one,
  pub one-le-div :
      (n m : ℕ) → 0 < m → m ≤ n → n ≤ 2 ^ 53 → AtMost (of_int 1) (div (of_int n) (of_int m))
  -- a product with a factor of at least one is not rounded below the other factor,
  pub le-mul :
      (n : ℕ) (q : Double) → n ≤ 2 ^ 53 → AtMost (of_int 1) q → AtMost (of_int n) (mul (of_int n) q)
  -- and truncation does not fall below an integer that is not above.
  pub le-to_int : (n : ℕ) (x : Double) → n ≤ 2 ^ 53 → AtMost (of_int n) x → n ≤ to_int x

-- key * 2862933555777941757ULL + 1, on 64 bits
pub next_key : ℕ → ℕ
next_key key = (key * 2862933555777941757 + 1) % 2 ^ 64

-- j < num_buckets
abbrev pub below : ℕ → ℤ → Bool
below j (pos n) = ltb j n
below j (negsuc n) = false

module _ (doubles : Doubles) where
  open doubles use {of_int, div, mul, to_int}

  -- (b + 1) * ((double)(1LL << 31) / ((double)((key >> 33) + 1)))
  pub next_j : ℕ → ℕ → ℕ
  next_j b key = to_int (mul (of_int (b + 1)) (div (of_int (2 ^ 31)) (of_int (key / 2 ^ 33 + 1))))

  -- the loop, on fuel; `none` if it runs out
  pub jump_loop : ℕ → ℤ → ℕ → ℤ → ℕ → Option ℤ
  jump_loop zero num_buckets key b j = none
  jump_loop (suc fuel) num_buckets key b j =
      let rest = jump_loop fuel num_buckets (next_key key) (pos j) (next_j j (next_key key)) in
      if below j num_buckets then rest else some b

  -- Each round raises j, so num_buckets + 1 tests are enough.
  abbrev pub rounds : ℤ → ℕ
  rounds (pos n) = suc n
  rounds (negsuc n) = 1

  pub jump_hash : ℕ → ℤ → Option ℤ
  jump_hash key num_buckets = jump_loop (rounds num_buckets) num_buckets key (negsuc 0) 0
