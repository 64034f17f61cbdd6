-- ===== src/Channel.antt =====
-- `CtsChannel` of src/channel.c: a bounded ring of objects with two cursors that run over twice
-- the size. A method returns the new object beside its result. The cursors are C ints that are
-- never negative, the flags are signed chars; reference counts and failed allocations are left
-- out. Where an `assert` fails, or an int overflows, the result is a fault.
mod Cursor
pub mod Pipe
pub mod Represents
pub mod Steps
pub mod Methods
pub mod Refine
pub mod Clear
pub mod Consume
mod Tests
use python_ctools.Bits.{is_power_of_2}
use python_ctools.Base.{
  ℕ, zero, suc, ◌+◌, ◌-◌, ◌*◌, ◌%◌, ◌^◌, bit_and, bit_xor, Bool, true, false, not, ◌||◌, Option,
  none, some, List, [], ◌∷◌, map, ltb, leb, ◌==◌, if◌then◌else◌, get_elem?, set, replicate, Result,
  ok, raise, fault, value_error, type_error, index_error, runtime_error, raised, assertion,
  signed_overflow, out_of_bounds,
}
use python_ctools.Base.Int.{ℤ, pos, negsuc, is_negative, is_pos, abs, neg}

-- `ob_item` holds NULL (`none`) in a free slot; `size` is `Py_SIZE`.
pub record Channel {ℓ} (A : Type ℓ) : Type ℓ where
  pub items : List (Option A)
  pub size : ℕ
  pub sendx : ℕ
  pub recvx : ℕ
  pub sflag : ℤ
  pub rflag : ℤ

-- What the two index functions return: -2, -1, or an index.
pub data Index : Type 0 where
  closed unavailable : Index
  slot : ℕ → Index

-- INT32_MAX, which is INT_MAX as well
abbrev int_max : ℕ
int_max = 2 ^ 31 - 1

module _ {ℓ} {A : Type ℓ} where
  -- `Channel_New`
  pub new : ℕ → Channel A
  new size = record {
    items = replicate size none;
    size = size;
    sendx = 0;
    recvx = 0;
    sflag = if is_power_of_2 size then pos 3 else pos 1;
    rflag = if is_power_of_2 size then pos 3 else pos 1;
  }

  -- `Channel_tp_new`, with the argument if there is one
  pub tp_new : Option ℤ → Result (Channel A)
  unfolding new
  tp_new none = ok (new int_max)
  tp_new (some (pos zero)) = raise value_error
  tp_new (some (pos (suc n))) = ok (new (suc n))
  tp_new (some (negsuc n)) = raise value_error

  -- `Channel_tp_clear`, called by the garbage collector
  pub tp_clear : Channel A → Channel A
  tp_clear self = record {
    items = [];
    size = 0;
    sendx = 0;
    recvx = 0;
    sflag = pos 0;
    rflag = pos 0;
  }

  -- `Channel_clear`: every slot is NULL, the cursors stay.
  pub clear : Channel A → Channel A
  clear self = record self { items = map (λ _. none) self.items }

  -- `sendx + 1` and `recvx + 1` are sums of ints.
  pub incr_sendx : Channel A → Result (Channel A)
  incr_sendx self =
      if is_negative self.sflag || is_pos self.sflag 0
      then fault assertion
      else if leb int_max self.sendx
      then fault signed_overflow
      else if is_pos self.sflag 3
      then ok (record self { sendx = bit_and (self.sendx + 1) (2 * self.size - 1) })
      else let next = self.sendx + 1 in
        let sendx = if leb (2 * self.size) next then next % (2 * self.size) else next in
        ok (record self { sendx = sendx; sflag = if leb self.size sendx then pos 2 else pos 1 })

  pub incr_recvx : Channel A → Result (Channel A)
  incr_recvx self =
      if is_negative self.rflag || is_pos self.rflag 0
      then fault assertion
      else if leb int_max self.recvx
      then fault signed_overflow
      else if is_pos self.rflag 3
      then ok (record self { recvx = bit_and (self.recvx + 1) (2 * self.size - 1) })
      else let next = self.recvx + 1 in
        let recvx = if leb (2 * self.size) next then next % (2 * self.size) else next in
        ok (record self { recvx = recvx; rflag = if leb self.size recvx then pos 2 else pos 1 })

  -- whether `ob_item[0]` is NULL; the list is empty only where the size is 0
  pub first_is_free : List (Option A) → Bool
  first_is_free (some x ∷ _) = false
  first_is_free _ = true

  pub send_idx : Channel A → Index
  unfolding first_is_free
  send_idx self =
      if is_negative self.sflag
      then closed
      else if self.size == 1
      then (if first_is_free self.items then slot 0 else unavailable)
      else if is_pos self.sflag 3
      then if self.sendx == bit_xor self.recvx self.size
        then unavailable
        else slot (bit_and self.sendx (self.size - 1))
      else if not (self.sendx % self.size == self.recvx % self.size)
      then slot (self.sendx % self.size)
      else if not (is_pos self.sflag (abs self.rflag))
      then unavailable
      else slot (self.sendx % self.size)

  pub recv_idx : Channel A → Index
  unfolding first_is_free
  recv_idx self =
      if is_negative self.rflag
      then closed
      else if self.size == 1
      then (if first_is_free self.items then unavailable else slot 0)
      else if is_pos self.rflag 3
      then if self.sendx == self.recvx
        then unavailable
        else slot (bit_and self.recvx (self.size - 1))
      else if not (self.sendx % self.size == self.recvx % self.size)
      then slot (self.recvx % self.size)
      else if is_pos self.rflag (abs self.sflag)
      then unavailable
      else slot (self.recvx % self.size)

  -- the end of `recv`, once slot `i` is chosen
  pub take_slot : Channel A → ℕ → Channel A × Result (Option A × Bool)
  take_slot self i = elim (get_elem? self.items i) [
    | none ↦ (self, fault out_of_bounds)
    | some none ↦ (self, fault assertion)
    | some (some item) ↦ elim (incr_recvx (record self { items = set self.items i none })) [
      | ok self' ↦ (self', ok (some item, true))
      | raise e ↦ (self, raise e)
      | fault f ↦ (self, fault f)
    ]
  ]

  -- The pair (None, False) stands for no item.
  pub recv : Channel A → Channel A × Result (Option A × Bool)
  recv self = elim (recv_idx self) [
    | closed ↦ (self, raise index_error)
    | unavailable ↦ (self, ok (none, false))
    | slot i ↦ take_slot self i
  ]

  -- the end of `send`, once slot `i` is chosen
  pub fill_slot : Channel A → A → ℕ → Channel A × Result Bool
  fill_slot self obj i = elim (get_elem? self.items i) [
    | none ↦ (self, fault out_of_bounds)
    | some (some _) ↦ (self, fault assertion)
    | some none ↦ elim (incr_sendx (record self { items = set self.items i (some obj) })) [
      | ok self' ↦ (self', ok true)
      | raise e ↦ (self, raise e)
      | fault f ↦ (self, fault f)
    ]
  ]

  pub send : Channel A → A → Channel A × Result Bool
  send self obj = elim (send_idx self) [
    | closed ↦ (self, raise index_error)
    | unavailable ↦ (self, ok false)
    | slot i ↦ fill_slot self obj i
  ]

  -- `write` and `read` are the parsed arguments `send` and `recv`, true where they are left out.
  pub close : Channel A → Bool → Bool → Channel A
  close self write read = record self {
    sflag = if write then neg self.sflag else self.sflag;
    rflag = if read then neg self.rflag else self.rflag;
  }

  pub sendable : Channel A → Bool
  sendable self = elim (send_idx self) [ slot _ ↦ true | _ ↦ false ]

  pub recvable : Channel A → Bool
  recvable self = elim (recv_idx self) [ slot _ ↦ true | _ ↦ false ]

-- What a callback ends in: an exception, the object False, or another object.
pub data Answer {ℓ} (R : Type ℓ) : Type ℓ where
  failed refused : Answer R
  accepted : R → Answer R

module _ {ℓ} {A R : Type ℓ} where
  -- the end of `safe_consume`, on the channel that the callback leaves
  pub drop_slot : Channel A → R → ℕ → Channel A × Result (Option R)
  drop_slot self r i = elim (get_elem? self.items i) [
    | none ↦ (self, fault out_of_bounds)
    | some _ ↦ elim (incr_recvx (record self { items = set self.items i none })) [
      | ok self' ↦ (self', ok (some r))
      | raise e ↦ (self, raise e)
      | fault f ↦ (self, fault f)
    ]
  ]

  pub offer_slot :
      Channel A → (A → Channel A → Channel A × Answer R) → ℕ → Channel A × Result (Option R)
  offer_slot self callback i = elim (get_elem? self.items i) [
    | none ↦ (self, fault out_of_bounds)
    | some none ↦ (self, fault assertion)
    | some (some item) ↦
        let (self', answer) = callback item self in
        elim answer [
          | failed ↦ (self', raise raised)
          | refused ↦ (self', ok none)
          | accepted r ↦ drop_slot self' r i
        ]
  ]

  -- The callback may use the channel; it is `none` if the object is not callable. The result
  -- `none` is False.
  pub safe_consume :
      Channel A → Option (A → Channel A → Channel A × Answer R) → Channel A × Result (Option R)
  safe_consume self none = (self, raise type_error)
  safe_consume self (some callback) = elim (recv_idx self) [
    | closed ↦ (self, raise runtime_error)
    | unavailable ↦ (self, ok none)
    | slot i ↦ offer_slot self callback i
  ]
