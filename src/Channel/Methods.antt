-- ===== src/Channel/Methods.antt =====
-- `send`, `recv` and `close` on a ring that holds a queue, against the pipe's operations.
use python_ctools.Base.{
  ℕ, ◌+◌, ◌≡◌, refl, ap, Bool, true, false, Bool-cases, inl, inr, none, some, [], ◌∷◌, ◌++◌, arith,
  length, List-cases, ℕ_discrete, ok, raise, index_error, length-replicate, get_elem?-replicate,
  ◌<◌, ◌%◌, ◌^◌,
}
use python_ctools.Channel.{Channel, new, send, recv, close, sendable, recvable}
use python_ctools.Channel.Pipe.{Pipe, empty, push, pop, turn_doors, can_push, can_pop}
use python_ctools.Channel.Represents.{Represents, send_idx_lem, recv_idx_lem}
use python_ctools.Channel.Steps.{send_room, recv_item, after_send-Represents, after_recv-Represents}
use native.Mathlib.Nat.{mod-lt}

module _ {ℓ} {A : Type ℓ} (c : Channel A) (p : Pipe A) (r : Represents c p) where
  send_full : (a : A) → p.send_open ≡ true → length p.queue ≡ c.size → send c a ≡ (c, ok false)
  unfolding send
  send_full a is_open full = ground (arith, send_idx_lem c p r)

  send_closed : (a : A) → p.send_open ≡ false → send c a ≡ (c, raise index_error)
  unfolding send
  send_closed a shut = ground (arith, send_idx_lem c p r)

  recv_empty : p.recv_open ≡ true → p.queue ≡ [] → recv c ≡ (c, ok (none, false))
  unfolding recv
  recv_empty is_open e = ground (arith, recv_idx_lem c p r, ap length e)

  recv_closed : p.recv_open ≡ false → recv c ≡ (c, raise index_error)
  unfolding recv
  recv_closed shut = ground (arith, recv_idx_lem c p r)

  -- On a ring that holds a pipe's queue, `send` returns what the pipe's `push` returns, and leaves
  -- a ring that holds the queue of the pipe after it.
  pub send_refines : (a : A) → ((send c a).1 ≡ (push p a).1) × Represents (send c a).0 (push p a).0
  send_refines a = elim (Bool-cases p.send_open) [
    | inl is_open ↦ elim (ℕ_discrete (length p.queue) c.size) [
      | yes full ↦
          let promised : push p a ≡ (p, ok false) = unfold push in ground (arith, r.cap) in
          rw (send_full a is_open full, promised) (refl, r)
      | no room ↦
          let promised : push p a ≡ (record p { queue = p.queue ++ a ∷ [] }, ok true) =
            unfold push in ground (arith, r.cap) in
          rw (send_room c p r a is_open room, promised)
            (refl, after_send-Represents c p r a is_open room)
    ]
    | inr shut ↦
        let promised : push p a ≡ (p, raise index_error) = unfold push in ground arith in
        rw (send_closed a shut, promised) (refl, r)
  ]

  -- On a ring that holds a pipe's queue, `recv` returns what the pipe's `pop` returns, and leaves a
  -- ring that holds the queue of the pipe after it.
  pub recv_refines : ((recv c).1 ≡ (pop p).1) × Represents (recv c).0 (pop p).0
  recv_refines = elim (Bool-cases p.recv_open) [
    | inl is_open ↦ elim (List-cases p.queue) [
      | inl e ↦
          let promised : pop p ≡ (p, ok (none, false)) = unfold pop in ground arith in
          rw (recv_empty is_open e, promised) (refl, r)
      | inr (a, q, e) ↦
          let promised : pop p ≡ (record p { queue = q }, ok (some a, true)) =
            unfold pop in ground arith in
          rw (recv_item c p r a q is_open e, promised)
            (refl, after_recv-Represents c p r a q is_open e)
    ]
    | inr shut ↦
        let promised : pop p ≡ (p, raise index_error) = unfold pop in ground arith in
        rw (recv_closed shut, promised) (refl, r)
  ]

  -- On a ring that holds a pipe's queue, `close` leaves one that holds the same queue, with the doors
  -- turned that it names: a closed one is open again.
  pub close_refines :
      (write read : Bool) → Represents (close c write read) (turn_doors p write read)
  unfolding close turn_doors
  close_refines write read = record {
    cap = r.cap;
    positive = r.positive;
    small = r.small;
    storage = r.storage;
    send_range = r.send_range;
    recv_range = r.recv_range;
    fits = r.fits;
    sync = r.sync;
    slots = r.slots;
    send_flag = ground (arith, r.send_flag);
    recv_flag = ground (arith, r.recv_flag);
  }

  pub sendable_refines : sendable c ≡ can_push p
  unfolding sendable can_push
  sendable_refines = ground (arith, send_idx_lem c p r, r.cap, r.fits)

  pub recvable_refines : recvable c ≡ can_pop p
  unfolding recvable can_pop
  recvable_refines = ground (arith, recv_idx_lem c p r)

-- A new channel is an empty pipe with both doors open.
pub new-Represents {ℓ} :
    {A : Type ℓ} (size : ℕ) → 0 < size → size < 2 ^ 30 → Represents (new {A = A} size) (empty size)
unfolding new
new-Represents size h small = record {
  cap = refl;
  positive = h;
  small = small;
  storage = length-replicate size none;
  send_range = omega arith;
  recv_range = omega arith;
  fits = omega arith;
  sync = λ ne. ground arith;
  slots = λ i lt. get_elem?-replicate size ((0 + i) % size) none (mod-lt (0 + i) h);
  send_flag = ground arith;
  recv_flag = ground arith;
}
