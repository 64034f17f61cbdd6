-- ===== src/Channel/Consume.antt =====
-- `safe_consume` with a callback that does not use the channel.
use python_ctools.Base.{
  ◌%◌, ◌≡◌, ◌⊎◌, refl, ap, ◌∙◌, true, false, not, Bool-cases, inl, inr, Option, none, some, List,
  [], ◌∷◌, arith, if◌then◌else◌, length, List-cases, Result, ok, raise, runtime_error, raised, set,
}
use python_ctools.Channel.{
  Channel, Answer, failed, refused, accepted, safe_consume, offer_slot, drop_slot,
}
use python_ctools.Channel.Pipe.{Pipe}
use python_ctools.Channel.Represents.{Represents, recv_idx_lem}
use python_ctools.Channel.Steps.{read_slot_first, incr_recvx_lem, after_recv, after_recv-Represents}

Answer-cases {ℓ} :
    {R : Type ℓ} (x : Answer R) → (x ≡ failed) ⊎ ((x ≡ refused) ⊎ ((r : R) × (x ≡ accepted r)))
Answer-cases failed = inl refl
Answer-cases refused = inr (inl refl)
Answer-cases (accepted r) = inr (inr (r, refl))

module _ {ℓ} {A R : Type ℓ} where
  -- The first item leaves the queue only if the callback accepts it.
  unfoldable pub consume : Pipe A → (A → Answer R) → Pipe A × Result (Option R)
  consume p f = if not p.recv_open then (p, raise runtime_error) else elim p.queue [
    | [] ↦ (p, ok none)
    | a ∷ q ↦ elim (f a) [
      | failed ↦ (p, raise raised)
      | refused ↦ (p, ok none)
      | accepted r ↦ (record p { queue = q }, ok (some r))
    ]
  ]

  -- A callback that returns an answer and leaves the channel alone.
  abbrev pub quiet : (A → Answer R) → A → Channel A → Channel A × Answer R
  quiet f a c = (c, f a)

  module _ (c : Channel A) (p : Pipe A) (r : Represents c p) (f : A → Answer R) where
    consume_item :
        (a : A) (q : List A) (x : R)
        → p.recv_open ≡ true
        → p.queue ≡ a ∷ q
        → f a ≡ accepted x
        → safe_consume c (some (quiet f)) ≡ (after_recv c p r, ok (some x))
    unfolding safe_consume offer_slot drop_slot
    consume_item a q x is_open e answer = ground (
      arith,
      recv_idx_lem c p r,
      ap length e,
      read_slot_first c p r a q e,
      incr_recvx_lem (record c { items = set c.items (c.recvx % c.size) none }) r.small r.recv_range
          (r.recv_flag ∙ rw is_open refl),
    )

    consume_failed :
        (a : A) (q : List A)
        → p.recv_open ≡ true
        → p.queue ≡ a ∷ q
        → f a ≡ failed
        → safe_consume c (some (quiet f)) ≡ (c, raise raised)
    unfolding safe_consume offer_slot
    consume_failed a q is_open e answer =
        ground (arith, recv_idx_lem c p r, ap length e, read_slot_first c p r a q e)

    consume_refused :
        (a : A) (q : List A)
        → p.recv_open ≡ true
        → p.queue ≡ a ∷ q
        → f a ≡ refused
        → safe_consume c (some (quiet f)) ≡ (c, ok none)
    unfolding safe_consume offer_slot
    consume_refused a q is_open e answer =
        ground (arith, recv_idx_lem c p r, ap length e, read_slot_first c p r a q e)

    consume_empty :
        p.recv_open ≡ true → p.queue ≡ [] → safe_consume c (some (quiet f)) ≡ (c, ok none)
    unfolding safe_consume
    consume_empty is_open e = ground (arith, recv_idx_lem c p r, ap length e)

    consume_closed :
        p.recv_open ≡ false → safe_consume c (some (quiet f)) ≡ (c, raise runtime_error)
    unfolding safe_consume
    consume_closed shut = ground (arith, recv_idx_lem c p r)

    -- the outcome of `safe_consume` against an outcome on the pipe
    abbrev Agrees : Pipe A × Result (Option R) → Type ℓ
    Agrees out =
        ((safe_consume c (some (quiet f))).1 ≡ out.1)
        × Represents (safe_consume c (some (quiet f))).0 out.0

    consume_first :
        (a : A) (q : List A) → p.recv_open ≡ true → p.queue ≡ a ∷ q → Agrees (consume p f)
    consume_first a q is_open e = elim (Answer-cases (f a)) [
      | inl h ↦
          let expected : consume p f ≡ (p, raise raised) = unfold consume in ground arith in
          rw (consume_failed a q is_open e h, expected) (refl, r)
      | inr (inl h) ↦
          let expected : consume p f ≡ (p, ok none) = unfold consume in ground arith in
          rw (consume_refused a q is_open e h, expected) (refl, r)
      | inr (inr (x, h)) ↦
          let expected : consume p f ≡ (record p { queue = q }, ok (some x)) =
            unfold consume in ground arith in
          rw (consume_item a q x is_open e h, expected)
            (refl, after_recv-Represents c p r a q is_open e)
    ]

    -- On a ring that holds a pipe's queue, and with a callback that leaves the channel alone,
    -- `safe_consume` takes the first item off the queue exactly if the callback accepts it; if the
    -- callback fails or answers False, or there is no item, or the channel is closed for receiving,
    -- the queue stays, and the reply is the pipe's.
    pub consume_refines :
        ((safe_consume c (some (quiet f))).1 ≡ (consume p f).1)
        × Represents (safe_consume c (some (quiet f))).0 (consume p f).0
    consume_refines = elim (Bool-cases p.recv_open) [
      | inl is_open ↦ elim (List-cases p.queue) [
        | inl e ↦
            let expected : consume p f ≡ (p, ok none) = unfold consume in ground arith in
            rw (consume_empty is_open e, expected) (refl, r)
        | inr (a, q, e) ↦ consume_first a q is_open e
      ]
      | inr shut ↦
          let expected : consume p f ≡ (p, raise runtime_error) = unfold consume in ground arith in
          rw (consume_closed shut, expected) (refl, r)
    ]
