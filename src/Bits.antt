-- ===== src/Bits.antt =====
-- `&`, `|` and `^` as arithmetic: masks, single bits, fields, and the macro `IsPowerOf2` of
-- src/core.h.
mod Digits
mod Power
unfoldable pub use Power.*
use Prim.Native.Nat.{bit_or-bitwise}
use Digits.{bit_and_halve, bit_or_halve, bit_xor_halve, bit_and-zero, bit_xor-zero}
use native.Mathlib.Nat.{
  pow-suc, one-le-pow, div-add-mod, mod-lt, mod-eq_of_lt, mul-add-mod_self_left,
}
use python_ctools.Base.{
  ℕ, zero, suc, ◌+◌, ◌-◌, ◌*◌, ◌/◌, ◌%◌, ◌^◌, ◌≤◌, ◌<◌, bit_and, bit_or, bit_xor, ◌≡◌, sym, ap, ◌∙◌,
  arith,
}

-- The remainder by twice a number, from the remainder of the half.
mod_double : (m x : ℕ) → 0 < m → x % (2 * m) ≡ (x / 2 % m) * 2 + x % 2
mod_double m x h =
    let low : ℕ = x / 2 % m * 2 + x % 2 in
    let whole : 2 * m * (x / 2 / m) + low ≡ x = omega (arith, div-add-mod (x / 2) m) in
    let small : low < 2 * m = omega (arith, mod-lt (x / 2) h) in
    ap (λ t. t % (2 * m)) (sym whole)
    ∙ mul-add-mod_self_left (2 * m) (x / 2 / m) low
    ∙ mod-eq_of_lt small

-- x & (2 ^ k - 1)
pub bit_and_mask : (k x : ℕ) → bit_and x (2 ^ k - 1) ≡ x % 2 ^ k
bit_and_mask zero x = omega (arith, bit_and-zero x)
bit_and_mask (suc k) x = ground (
  arith,
  bit_and_halve x (2 ^ suc k - 1),
  pow-suc 2 k,
  one-le-pow k 2,
  bit_and_mask k (x / 2),
  mod_double (2 ^ k) x,
)

-- r ^ 2 ^ k, for r of k + 1 bits, is half a turn of the 2 ^ (k + 1) values.
pub bit_xor_top : (k r : ℕ) → r < 2 ^ suc k → bit_xor r (2 ^ k) ≡ (r + 2 ^ k) % 2 ^ suc k
bit_xor_top zero r h = omega (arith, bit_xor_halve r 1, bit_xor-zero (r / 2))
bit_xor_top (suc k) r h = ground (
  arith,
  bit_xor_halve r (2 ^ suc k),
  pow-suc 2 k,
  pow-suc 2 (suc k),
  one-le-pow k 2,
  bit_xor_top k (r / 2),
  mod_double (2 ^ suc k) (r + 2 ^ suc k),
)

-- lo | (hi << k), for lo of k bits, is a sum.
pub bit_or_shifted : (k lo hi : ℕ) → lo < 2 ^ k → bit_or lo (hi * 2 ^ k) ≡ lo + hi * 2 ^ k
bit_or_shifted zero lo hi h = ground (arith, bit_or-bitwise 0 (hi * 1))
bit_or_shifted (suc k) lo hi h = ground (
  arith,
  bit_or_halve lo (hi * 2 ^ suc k),
  ap (λ (t : ℕ). hi * t) (pow-suc 2 k),
  bit_or_shifted k (lo / 2) hi,
)
