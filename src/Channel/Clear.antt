-- ===== src/Channel/Clear.antt =====
-- `clear` frees the slots and leaves the cursors where they are.
use python_ctools.Base.{
  ℕ, zero, suc, ◌+◌, ◌%◌, ◌≡◌, ◌≢◌, refl, ap, ◌∙◌, true, false, Option, none, some, List, [], ◌∷◌,
  map, arith, get_elem?, length, ok, fault, assertion,
}
use python_ctools.Channel.{Channel, clear, send_idx, recv_idx, send, recv, take_slot}
use python_ctools.Channel.Pipe.{Pipe}
use python_ctools.Channel.Represents.{Represents, send_idx_lem, recv_idx_lem}
use python_ctools.Channel.Steps.{read_slot_first}

module _ {ℓ} {A : Type ℓ} where
  abbrev freed : List (Option A) → List (Option A)
  freed = map (λ _. none)

  get_elem?-cleared :
      (items : List (Option A)) (i : ℕ) (x : Option A)
      → get_elem? items i ≡ some x
      → get_elem? (freed items) i ≡ some none
  get_elem?-cleared [] i x h = cc
  get_elem?-cleared (y ∷ items) zero x h = refl
  get_elem?-cleared (y ∷ items) (suc i) x h = get_elem?-cleared items i x h

  length-cleared : (items : List (Option A)) → length (freed items) ≡ length items
  length-cleared [] = refl
  length-cleared (y ∷ items) = ap suc (length-cleared items)

  -- Above a size of one the index functions look at the cursors alone.
  recv_idx-clear : (c : Channel A) → c.size ≢ 1 → recv_idx (clear c) ≡ recv_idx c
  unfolding recv_idx clear
  recv_idx-clear c ne = ground arith

  send_idx-clear : (c : Channel A) → c.size ≢ 1 → send_idx (clear c) ≡ send_idx c
  unfolding send_idx clear
  send_idx-clear c ne = ground arith

  -- After `clear`, a ring of more than one slot that held an item fails the assertion of `recv`
  -- that the slot under the receiving cursor is not NULL, if it is open for receiving.
  pub recv-clear_fails :
      (c : Channel A) (p : Pipe A) (a : A) (q : List A)
      → Represents c p
      → c.size ≢ 1
      → p.recv_open ≡ true
      → p.queue ≡ a ∷ q
      → recv (clear c) ≡ (clear c, fault assertion)
  unfolding recv take_slot
  recv-clear_fails c p a q r ne is_open e =
      let emptied : get_elem? (clear c).items (c.recvx % c.size) ≡ some none =
        unfold clear in
        get_elem?-cleared c.items (c.recvx % c.size) (some a) (read_slot_first c p r a q e) in
      ground (arith, recv_idx-clear c ne, recv_idx_lem c p r, ap length e, emptied)

  -- After `clear`, a full ring of more than one slot still refuses to send, if it is open for it.
  pub send-clear_full :
      (c : Channel A) (p : Pipe A) (a : A)
      → Represents c p
      → c.size ≢ 1
      → p.send_open ≡ true
      → length p.queue ≡ c.size
      → send (clear c) a ≡ (clear c, ok false)
  unfolding send
  send-clear_full c p a r ne is_open full = ground (arith, send_idx-clear c ne, send_idx_lem c p r)

  -- With a size of one `clear` empties the queue: the ring then holds the empty one, whatever it
  -- held before.
  pub clear-Represents_one :
      (c : Channel A) (p : Pipe A)
      → Represents c p
      → c.size ≡ 1
      → Represents (clear c) (record p { queue = [] })
  unfolding clear
  clear-Represents_one c p r one = record {
    cap = r.cap;
    positive = r.positive;
    small = r.small;
    storage = length-cleared c.items ∙ r.storage;
    send_range = r.send_range;
    recv_range = r.recv_range;
    fits = omega arith;
    sync = λ ne. absurd (ne one);
    slots = λ i h.
        get_elem?-cleared c.items ((c.recvx + i) % c.size) (get_elem? p.queue i) (r.slots i h);
    send_flag = r.send_flag;
    recv_flag = r.recv_flag;
  }
