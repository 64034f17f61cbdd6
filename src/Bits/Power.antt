-- ===== src/Bits/Power.antt =====
-- The macro `IsPowerOf2` of src/core.h tells the powers of two.
use python_ctools.Bits.Digits.{bit_and_halve}
use mathlib.Core.WellFounded
use native.Mathlib.Nat.{pow-suc}
use python_ctools.Base.{
  ℕ, zero, suc, ◌-◌, ◌/◌, ◌%◌, ◌^◌, ◌<◌, bit_and, ◌≡◌, ◌≢◌, refl, ap, arith, lt_wf, Bool, true,
  ◌&&◌, ℕ_discrete, not, ◌==◌,
}

-- ((x) != 0 && (((x) & ((x)-1)) == 0))
unfoldable pub is_power_of_2 : ℕ → Bool
is_power_of_2 x = not (x == 0) && bit_and x (x - 1) == 0

bit_and_self : (n : ℕ) → bit_and n n ≡ n
bit_and_self n = WellFounded.induction lt_wf {C = λ n. bit_and n n ≡ n} n step
  where
    step : (n : ℕ) → ((m : ℕ) → m < n → bit_and m m ≡ m) → bit_and n n ≡ n
    step zero ih = refl
    step (suc n) ih = omega (arith, bit_and_halve (suc n) (suc n), ih (suc n / 2) (omega arith))

-- Clearing the lowest one leaves nothing only of a power of two.
power_of_clear : (x : ℕ) → x ≢ 0 → bit_and x (x - 1) ≡ 0 → (k : ℕ) × (x ≡ 2 ^ k)
power_of_clear x =
    WellFounded.induction lt_wf {C = λ x. x ≢ 0 → bit_and x (x - 1) ≡ 0 → (k : ℕ) × (x ≡ 2 ^ k)} x
      step
  where
    step :
        (x : ℕ)
        → ((m : ℕ) → m < x → m ≢ 0 → bit_and m (m - 1) ≡ 0 → (k : ℕ) × (m ≡ 2 ^ k))
        → x ≢ 0
        → bit_and x (x - 1) ≡ 0
        → (k : ℕ) × (x ≡ 2 ^ k)
    step x ih p e = elim (ℕ_discrete (x % 2) 0) [
      | yes even ↦
          let half : (x - 1) / 2 ≡ x / 2 - 1 = omega arith in
          let clear : bit_and (x / 2) (x / 2 - 1) ≡ 0 =
            omega (arith, bit_and_halve x (x - 1), ap (bit_and (x / 2)) half) in
          let (k, found) = ih (x / 2) (omega arith) (omega arith) clear in
          (suc k, omega (arith, pow-suc 2 k))
      | no odd ↦
          let half : (x - 1) / 2 ≡ x / 2 = omega arith in
          (
            0,
            omega (arith, bit_and_halve x (x - 1), ap (bit_and (x / 2)) half, bit_and_self (x / 2)),
          )
    ]

-- What passes the macro's test is a power of two.
pub power_of_is_power_of_2 : (x : ℕ) → is_power_of_2 x ≡ true → (k : ℕ) × (x ≡ 2 ^ k)
unfolding is_power_of_2
power_of_is_power_of_2 x h = power_of_clear x (ground arith) (ground arith)
