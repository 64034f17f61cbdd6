-- ===== src/Channel/Represents.antt =====
-- When a ring holds the queue of a pipe, and the slot that each index function then finds.
use python_ctools.Bits.{is_power_of_2, power_of_is_power_of_2, bit_and_mask, bit_xor_top}
use native.Mathlib.Nat.{pow-suc}
use python_ctools.Base.{
  ℕ, suc, ◌+◌, ◌-◌, ◌*◌, ◌%◌, ◌^◌, ◌≤◌, ◌<◌, bit_and, bit_xor, ◌≡◌, ◌≢◌, refl, sym, ap, ap₂, ◌∙◌,
  inl, inr, Bool, true, false, Bool-cases, Option, none, some, List, [], ◌∷◌, arith, leb, ◌==◌,
  if◌then◌else◌, get_elem?, length, ℕ_discrete,
}
use python_ctools.Base.Int.{ℤ, pos, neg}
use python_ctools.Channel.{
  Channel, Index, closed, unavailable, slot, send_idx, recv_idx, first_is_free,
}
use python_ctools.Channel.Cursor.{
  meet_iff_empty, opposite_iff_full, same_slot_iff, mod_once, mod_double_mod,
}
use python_ctools.Channel.Pipe.{Pipe}

-- The flag of an open cursor: 3 for a power of two, else the half of the turn.
abbrev pub half_flag : ℕ → ℕ → ℕ
half_flag size x = if is_power_of_2 size then 3 else if leb size x then 2 else 1

-- Closing a side turns the sign of its flag.
abbrev signed : Bool → ℕ → ℤ
signed true n = pos n
signed false n = neg (pos n)

-- The slots from the receiving cursor on hold the queue, and the rest of the ring is free. A
-- size of one is served by its slot alone: its cursors only stay in range. Below 2 ^ 30 slots the
-- cursors are ints with room for one more step.
pub record Represents {ℓ} {A : Type ℓ} (c : Channel A) (p : Pipe A) : Type ℓ where
  pub cap : p.cap ≡ c.size
  pub positive : 0 < c.size
  pub small : c.size < 2 ^ 30
  pub storage : length c.items ≡ c.size
  pub send_range : c.sendx < 2 * c.size
  pub recv_range : c.recvx < 2 * c.size
  pub fits : length p.queue ≤ c.size
  pub sync : c.size ≢ 1 → c.sendx ≡ (c.recvx + length p.queue) % (2 * c.size)
  pub slots :
      (i : ℕ) → i < c.size → get_elem? c.items ((c.recvx + i) % c.size) ≡ some (get_elem? p.queue i)
  pub send_flag : c.sflag ≡ signed p.send_open (half_flag c.size c.sendx)
  pub recv_flag : c.rflag ≡ signed p.recv_open (half_flag c.size c.recvx)

-- The slot that a send writes, and a receive reads.
abbrev pub write_slot {ℓ} : {A : Type ℓ} → Channel A → Pipe A → ℕ
write_slot c p = (c.recvx + length p.queue) % c.size

-- The masks and the exclusive or of a size that is a power of two.
pub power_arith :
    (size a b : ℕ)
    → is_power_of_2 size ≡ true
    → b < 2 * size
    → (bit_and a (size - 1) ≡ a % size)
      × (bit_and a (2 * size - 1) ≡ a % (2 * size))
      × (bit_xor b size ≡ (b + size) % (2 * size))
power_arith size a b h range =
    let (k, e) = power_of_is_power_of_2 size h in
    let two : 2 ^ suc k ≡ 2 * size = omega (arith, pow-suc 2 k) in
    (
      ap (λ t. bit_and a (t - 1)) e ∙ bit_and_mask k a ∙ ap (λ t. a % t) (sym e),
      ap (λ t. bit_and a (t - 1)) (sym two) ∙ bit_and_mask (suc k) a ∙ ap (λ t. a % t) two,
      ap (bit_xor b) e ∙ bit_xor_top k b (omega arith) ∙ ap₂ (λ t u. (b + t) % u) (sym e) two,
    )

first_is_free_iff_empty {ℓ} :
    {A : Type ℓ} (items : List (Option A)) (q : List A)
    → get_elem? items 0 ≡ some (get_elem? q 0)
    → first_is_free items ≡ (length q == 0)
unfolding first_is_free
first_is_free_iff_empty [] q h = cc
first_is_free_iff_empty (none ∷ items) [] h = refl
first_is_free_iff_empty (none ∷ items) (x ∷ q) h = cc
first_is_free_iff_empty (some y ∷ items) [] h = cc
first_is_free_iff_empty (some y ∷ items) (x ∷ q) h = ground arith

mod_of_one : (a m : ℕ) → m ≡ 1 → a % m ≡ 0
mod_of_one a m h = rw h (omega arith)

module _ {ℓ} {A : Type ℓ} (c : Channel A) (p : Pipe A) (r : Represents c p) where
  -- the slot that `send` must find
  abbrev free_index : Index
  free_index =
      if p.send_open
      then (if length p.queue == c.size then unavailable else slot (write_slot c p))
      else closed

  -- the slot that `recv` must find
  abbrev first_index : Index
  first_index =
      if p.recv_open
      then (if length p.queue == 0 then unavailable else slot (c.recvx % c.size))
      else closed

  one_slot : c.size ≡ 1 → first_is_free c.items ≡ (length p.queue == 0)
  one_slot one =
      first_is_free_iff_empty c.items p.queue
        (rw (mod_of_one (c.recvx + 0) c.size one) at (r.slots 0 r.positive))

  send_idx_one : c.size ≡ 1 → send_idx c ≡ free_index
  unfolding send_idx
  send_idx_one one = ground (arith, one_slot one, mod_of_one (c.recvx + length p.queue) c.size one)

  recv_idx_one : c.size ≡ 1 → recv_idx c ≡ first_index
  unfolding recv_idx
  recv_idx_one one = ground (arith, one_slot one, mod_of_one c.recvx c.size one)

  send_idx_power : c.size ≢ 1 → is_power_of_2 c.size ≡ true → send_idx c ≡ free_index
  unfolding send_idx
  send_idx_power ne h = ground (
    arith,
    r.sync ne,
    power_arith c.size c.sendx c.recvx h,
    opposite_iff_full c.size c.recvx (length p.queue) r.recv_range r.fits,
    mod_double_mod (c.recvx + length p.queue) 0 c.size,
  )

  recv_idx_power : c.size ≢ 1 → is_power_of_2 c.size ≡ true → recv_idx c ≡ first_index
  unfolding recv_idx
  recv_idx_power ne h = ground (
    arith,
    r.sync ne,
    power_arith c.size c.recvx c.recvx h,
    meet_iff_empty c.size c.recvx (length p.queue) r.recv_range r.fits,
  )

  send_idx_other : c.size ≢ 1 → is_power_of_2 c.size ≡ false → send_idx c ≡ free_index
  unfolding send_idx
  send_idx_other ne h = ground (
    arith,
    r.sync ne,
    same_slot_iff c.size c.recvx (length p.queue) r.recv_range r.fits,
    mod_once (c.recvx + length p.queue) (2 * c.size),
    mod_double_mod (c.recvx + length p.queue) 0 c.size,
  )

  recv_idx_other : c.size ≢ 1 → is_power_of_2 c.size ≡ false → recv_idx c ≡ first_index
  unfolding recv_idx
  recv_idx_other ne h = ground (
    arith,
    r.sync ne,
    same_slot_iff c.size c.recvx (length p.queue) r.recv_range r.fits,
    mod_once (c.recvx + length p.queue) (2 * c.size),
  )

  -- The index functions agree on every kind of size.
  pub send_idx_lem : send_idx c ≡ free_index
  send_idx_lem = elim (ℕ_discrete c.size 1) [
    | yes one ↦ send_idx_one one
    | no ne ↦ elim (Bool-cases (is_power_of_2 c.size)) [
      | inl h ↦ send_idx_power ne h
      | inr h ↦ send_idx_other ne h
    ]
  ]

  pub recv_idx_lem : recv_idx c ≡ first_index
  recv_idx_lem = elim (ℕ_discrete c.size 1) [
    | yes one ↦ recv_idx_one one
    | no ne ↦ elim (Bool-cases (is_power_of_2 c.size)) [
      | inl h ↦ recv_idx_power ne h
      | inr h ↦ recv_idx_other ne h
    ]
  ]
