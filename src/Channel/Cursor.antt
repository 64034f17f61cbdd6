-- ===== src/Channel/Cursor.antt =====
-- The arithmetic of cursors that run over twice the size.
use python_ctools.Base.{
  ℕ, ◌+◌, ◌-◌, ◌*◌, ◌/◌, ◌%◌, ◌≤◌, ◌<◌, ◌≡◌, ◌≢◌, ◌↔◌, ◌⊎◌, ◌∙◌, sym, ap, arith, leb, if◌then◌else◌,
  dec_lt,
}
use native.Mathlib.Nat.{
  mod-eq_of_lt, mod-eq-sub-mod, mod-add-mod, mod-lt, div-add-mod, mul-add-mod_self_left,
}

-- A remainder takes at most one subtraction below twice the modulus.
pub mod_once : (a m : ℕ) → a < 2 * m → a % m ≡ (if leb m a then a - m else a)
mod_once a m h = elim (dec_lt a m) [
  | yes p ↦ ground (arith, mod-eq_of_lt p)
  | no p ↦
      let back : a % m ≡ (a - m) % m = mod-eq-sub-mod (omega arith) in
      let low : (a - m) % m ≡ a - m = mod-eq_of_lt (omega arith) in ground (arith, back, low)
]

-- Wrapping at twice the size is unseen by the index.
pub mod_double_mod : (a i m : ℕ) → (a % (2 * m) + i) % m ≡ (a + i) % m
mod_double_mod a i m =
    let q = a / (2 * m) in
    let whole : m * (2 * q) + (a % (2 * m) + i) ≡ a + i = omega (arith, div-add-mod a (2 * m)) in
    sym (mul-add-mod_self_left m (2 * q) (a % (2 * m) + i)) ∙ ap (λ t. t % m) whole

-- Two steps of less than a turn from one index reach the same index only if they are equal.
pub add-mod-ne : (a i j m : ℕ) → i < m → j < m → i ≢ j → (a + i) % m ≢ (a + j) % m
add-mod-ne a i j m p q ne same = ne (
    ground (
      arith,
      mod-add-mod a m i,
      mod-add-mod a m j,
      mod-lt a {m = m} (omega arith),
      mod_once (a % m + i) m,
      mod_once (a % m + j) m,
    ))

-- What the two cursors tell of a ring of `size` slots that holds `n` items.
module _ (size recvx n : ℕ) (range : recvx < 2 * size) (fits : n ≤ size) where
  -- the sending cursor
  abbrev ahead : ℕ
  ahead = (recvx + n) % (2 * size)

  -- The cursors meet exactly in an empty ring.
  pub meet_iff_empty : (ahead ≡ recvx) ↔ (n ≡ 0)
  meet_iff_empty = (
    λ e. ground (arith, mod_once (recvx + n) (2 * size)),
    λ e. ground (arith, mod_once (recvx + n) (2 * size)),
  )

  -- They are half a turn apart exactly in a full ring.
  pub opposite_iff_full : (ahead ≡ (recvx + size) % (2 * size)) ↔ (n ≡ size)
  opposite_iff_full = (
    λ e. ground (arith, mod_once (recvx + n) (2 * size), mod_once (recvx + size) (2 * size)),
    λ e. ap (λ t. (recvx + t) % (2 * size)) e,
  )

  -- They have one index exactly in an empty or a full ring.
  pub same_slot_iff : (ahead % size ≡ recvx % size) ↔ ((n ≡ 0) ⊎ (n ≡ size))
  same_slot_iff = (
    λ e. ground (arith, mod_once (recvx + n) (2 * size), mod_once ahead size, mod_once recvx size),
    λ e. ground (arith, mod_once (recvx + n) (2 * size), mod_once ahead size, mod_once recvx size),
  )
