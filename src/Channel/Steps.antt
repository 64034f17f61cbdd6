-- ===== src/Channel/Steps.antt =====
-- `send` and `recv` on a ring that holds a queue: the cursor increments, the slots they touch, and
-- the whole operations against the pipe's.
use python_ctools.Bits.{is_power_of_2}
use python_ctools.Base.{
  ℕ, suc, ◌+◌, ◌*◌, ◌%◌, ◌^◌, ◌<◌, ◌≡◌, ◌≢◌, refl, sym, ap, ◌∙◌, true, Bool-cases, inl, inr, none,
  some, List, [], ◌∷◌, ◌++◌, arith, get_elem?, set, length, get_elem?-set, length-set,
  length-append, get_elem?-snoc, get_elem?-past, ℕ_discrete, ok,
}
use native.Mathlib.Nat.{mod-lt, mod-add-mod, add_assoc, add-mod_right, add-zero}
use python_ctools.Base.Int.{pos}
use python_ctools.Channel.{Channel, incr_sendx, incr_recvx, take_slot, fill_slot, send, recv}
use python_ctools.Channel.Cursor.{mod_once, mod_double_mod, add-mod-ne}
use python_ctools.Channel.Pipe.{Pipe}
use python_ctools.Channel.Represents.{
  Represents, half_flag, write_slot, power_arith, send_idx_lem, recv_idx_lem,
}

module _ {ℓ} {A : Type ℓ} (c : Channel A) (small : c.size < 2 ^ 30) where
  -- An open sending cursor moves on by one, its flag with it.
  incr_sendx_lem :
      c.sendx < 2 * c.size
      → c.sflag ≡ pos (half_flag c.size c.sendx)
      → incr_sendx c
        ≡ ok (record c {
          sendx = (c.sendx + 1) % (2 * c.size);
          sflag = pos (half_flag c.size ((c.sendx + 1) % (2 * c.size)));
        })
  unfolding incr_sendx
  incr_sendx_lem range flag = elim (Bool-cases (is_power_of_2 c.size)) [
    | inl h ↦ ground (arith, h, power_arith c.size (c.sendx + 1) c.sendx h)
    | inr h ↦ ground (arith, h, mod_once (c.sendx + 1) (2 * c.size))
  ]

  -- So does an open receiving cursor.
  pub incr_recvx_lem :
      c.recvx < 2 * c.size
      → c.rflag ≡ pos (half_flag c.size c.recvx)
      → incr_recvx c
        ≡ ok (record c {
          recvx = (c.recvx + 1) % (2 * c.size);
          rflag = pos (half_flag c.size ((c.recvx + 1) % (2 * c.size)));
        })
  unfolding incr_recvx
  incr_recvx_lem range flag = elim (Bool-cases (is_power_of_2 c.size)) [
    | inl h ↦ ground (arith, h, power_arith c.size (c.recvx + 1) c.recvx h)
    | inr h ↦ ground (arith, h, mod_once (c.recvx + 1) (2 * c.size))
  ]

module _ {ℓ} {A : Type ℓ} (c : Channel A) (p : Pipe A) (r : Represents c p) where
  -- the channel that a successful send leaves
  abbrev after_send : A → Channel A
  after_send a = record c {
    items = set c.items (write_slot c p) (some a);
    sendx = (c.sendx + 1) % (2 * c.size);
    sflag = pos (half_flag c.size ((c.sendx + 1) % (2 * c.size)));
  }

  -- the channel that a successful receive leaves
  abbrev pub after_recv : Channel A
  after_recv = record c {
    items = set c.items (c.recvx % c.size) none;
    recvx = (c.recvx + 1) % (2 * c.size);
    rflag = pos (half_flag c.size ((c.recvx + 1) % (2 * c.size)));
  }

  sent_slots :
      (a : A) (i : ℕ)
      → length p.queue ≢ c.size
      → i < c.size
      → get_elem? (after_send a).items ((c.recvx + i) % c.size)
        ≡ some (get_elem? (p.queue ++ a ∷ []) i)
  sent_slots a i room h = elim (ℕ_discrete (length p.queue) i) [
    | yes e ↦ ground (
      arith,
      r.storage,
      mod-lt (c.recvx + length p.queue) {m = c.size} r.positive,
      get_elem?-set c.items (write_slot c p) ((c.recvx + i) % c.size) (some a),
      get_elem?-snoc p.queue a i,
      ap (λ t. (c.recvx + t) % c.size) e,
    )
    | no ne ↦ ground (
      arith,
      r.storage,
      mod-lt (c.recvx + length p.queue) {m = c.size} r.positive,
      get_elem?-set c.items (write_slot c p) ((c.recvx + i) % c.size) (some a),
      get_elem?-snoc p.queue a i,
      add-mod-ne c.recvx (length p.queue) i c.size (omega (arith, r.fits)) h ne,
      r.slots i h,
    )
  ]

  pub after_send-Represents :
      (a : A)
      → p.send_open ≡ true
      → length p.queue ≢ c.size
      → Represents (after_send a) (record p { queue = p.queue ++ a ∷ [] })
  after_send-Represents a is_open room = record {
    cap = r.cap;
    positive = r.positive;
    small = r.small;
    storage = length-set c.items (write_slot c p) (some a) ∙ r.storage;
    send_range = mod-lt (c.sendx + 1) (omega (arith, r.positive));
    recv_range = r.recv_range;
    fits = omega (arith, r.fits, length-append p.queue (a ∷ []));
    sync = λ ne. ground (
      arith,
      r.sync ne,
      mod-add-mod (c.recvx + length p.queue) (2 * c.size) 1,
      length-append p.queue (a ∷ []),
      add_assoc c.recvx (length p.queue) 1,
    );
    slots = λ i h. sent_slots a i room h;
    send_flag = rw is_open refl;
    recv_flag = r.recv_flag;
  }

  recv_slots :
      (a : A) (q : List A) (i : ℕ)
      → p.queue ≡ a ∷ q
      → i < c.size
      → get_elem? after_recv.items ((after_recv.recvx + i) % c.size) ≡ some (get_elem? q i)
  recv_slots a q i e h =
      let place : ((c.recvx + 1) % (2 * c.size) + i) % c.size ≡ (c.recvx + suc i) % c.size =
        mod_double_mod (c.recvx + 1) i c.size ∙ ap (λ t. t % c.size) (omega arith) in
      let written =
        get_elem?-set c.items (c.recvx % c.size) ((c.recvx + suc i) % c.size) none
          (rw r.storage (mod-lt c.recvx r.positive)) in
      rw (place, written)
        (elim (ℕ_discrete (suc i) c.size) [
          | yes full ↦ ground (
            arith,
            add-mod_right c.recvx c.size,
            ap (λ t. (c.recvx + t) % c.size) full,
            get_elem?-past q i (omega (arith, r.fits, ap length e)),
          )
          | no ne ↦ ground (
            arith,
            add-mod-ne c.recvx 0 (suc i) c.size r.positive (omega arith) (omega arith),
            add-zero c.recvx,
            r.slots (suc i) (omega arith),
            ap (λ t. get_elem? t (suc i)) e,
          )
        ])

  pub after_recv-Represents :
      (a : A) (q : List A)
      → p.recv_open ≡ true
      → p.queue ≡ a ∷ q
      → Represents after_recv (record p { queue = q })
  after_recv-Represents a q is_open e = record {
    cap = r.cap;
    positive = r.positive;
    small = r.small;
    storage = length-set c.items (c.recvx % c.size) none ∙ r.storage;
    send_range = r.send_range;
    recv_range = mod-lt (c.recvx + 1) (omega (arith, r.positive));
    fits = omega (arith, r.fits, ap length e);
    sync = λ ne.
        ground (arith, r.sync ne, mod-add-mod (c.recvx + 1) (2 * c.size) (length q), ap length e);
    slots = λ i h. recv_slots a q i e h;
    send_flag = r.send_flag;
    recv_flag = rw is_open refl;
  }

  -- the slot that `send` writes is free
  write_slot_free : length p.queue ≢ c.size → get_elem? c.items (write_slot c p) ≡ some none
  write_slot_free room = ground (
    arith,
    r.slots (length p.queue) (omega (arith, r.fits)),
    get_elem?-past p.queue (length p.queue) (omega arith),
  )

  -- the slot that `recv` reads holds the first item
  pub read_slot_first :
      (a : A) (q : List A) → p.queue ≡ a ∷ q → get_elem? c.items (c.recvx % c.size) ≡ some (some a)
  read_slot_first a q e =
      ap (λ t. get_elem? c.items (t % c.size)) (sym (add-zero c.recvx))
      ∙ r.slots 0 r.positive
      ∙ ap (λ t. some (get_elem? t 0)) e

  -- A send with room for the item writes it and moves the cursor.
  pub send_room :
      (a : A) → p.send_open ≡ true → length p.queue ≢ c.size → send c a ≡ (after_send a, ok true)
  unfolding send fill_slot
  send_room a is_open room = ground (
    arith,
    send_idx_lem c p r,
    write_slot_free room,
    incr_sendx_lem (record c { items = set c.items (write_slot c p) (some a) }) r.small r.send_range
        (r.send_flag ∙ rw is_open refl),
  )

  -- A receive with an item frees its slot and moves the cursor.
  pub recv_item :
      (a : A) (q : List A)
      → p.recv_open ≡ true
      → p.queue ≡ a ∷ q
      → recv c ≡ (after_recv, ok (some a, true))
  unfolding recv take_slot
  recv_item a q is_open e = ground (
    arith,
    recv_idx_lem c p r,
    ap length e,
    read_slot_first a q e,
    incr_recvx_lem (record c { items = set c.items (c.recvx % c.size) none }) r.small r.recv_range
        (r.recv_flag ∙ rw is_open refl),
  )
