-- ===== src/Channel/Tests.antt =====
-- Runs of the channel on small inputs, and the theorems at such inputs.
use python_ctools.Base.{
  ℕ, ◌+◌, ◌≡◌, refl, true, false, none, some, List, [], ◌∷◌, ok, raise, fault, assertion,
  index_error, value_error, arith,
}
use python_ctools.Base.Int.{negsuc}
use python_ctools.Bits.{is_power_of_2}
use python_ctools.Channel
use python_ctools.Channel.{
  Channel, Answer, failed, refused, accepted, new, tp_new, clear, close, incr_sendx, incr_recvx,
  first_is_free, send_idx, recv_idx, take_slot, recv, fill_slot, send, safe_consume, offer_slot,
  drop_slot, tp_clear,
}
use python_ctools.Channel.Pipe
use python_ctools.Channel.Pipe.{
  Pipe, empty, Call, Reply, sent, received, done, answer, number, push, pop, turn_doors,
}
use python_ctools.Channel.Represents.{Represents}
use python_ctools.Channel.Methods.{send_refines, recv_refines, close_refines, new-Represents}
use python_ctools.Channel.Refine.{run, promised, run_refines, run-tp_new, serve}
use python_ctools.Channel.Clear.{recv-clear_fails, send-clear_full, clear-Represents_one}
use python_ctools.Channel.Consume.{consume, quiet, consume_refines}

program : Unit {0}
unfolding new tp_new clear incr_sendx incr_recvx first_is_free send_idx recv_idx take_slot recv
    fill_slot send close safe_consume offer_slot drop_slot is_power_of_2 run serve promised push pop
    turn_doors Pipe.call consume
program = tt

abbrev three : Channel ℕ
three = new 3

three-Represents : Represents three (empty 3)
three-Represents = new-Represents 3 (omega arith) (omega arith)

abbrev one : Channel ℕ
one = new 1

one-Represents : Represents one (empty 1)
one-Represents = new-Represents 1 (omega arith) (omega arith)

-- a ring that holds 7, and its pipe
abbrev held : Channel ℕ
held = (send three 7).0

abbrev held_pipe : Pipe ℕ
held_pipe = record { cap = 3; queue = 7 ∷ []; send_open = true; recv_open = true }

held-Represents : Represents held held_pipe
unfolding program
held-Represents = (send_refines three (empty 3) three-Represents 7).1

abbrev full_one : Channel ℕ
full_one = (send one 7).0

full_one-Represents : Represents full_one (push (empty 1) 7).0
full_one-Represents = (send_refines one (empty 1) one-Represents 7).1

-- three items in a ring of three, and its pipe
abbrev full : Channel ℕ
full = (send (send held 8).0 9).0

abbrev full_pipe : Pipe ℕ
full_pipe = record { cap = 3; queue = 7 ∷ 8 ∷ 9 ∷ []; send_open = true; recv_open = true }

full-Represents : Represents full full_pipe
unfolding program
full-Represents =
    (send_refines (send held 8).0 (push held_pipe 8).0
      (send_refines held held_pipe held-Represents 8).1 9).1

abbrev calls : List (Call ℕ)
calls =
    Call.send 1
    ∷ Call.send 2
    ∷ Call.recv
    ∷ Call.send 3
    ∷ Call.send 4
    ∷ Call.send 5
    ∷ Call.recv
    ∷ Call.close true false
    ∷ Call.send 6
    ∷ Call.recv
    ∷ Call.recv
    ∷ Call.recv
    ∷ Call.sendable
    ∷ []

abbrev replies : List (Reply ℕ)
replies =
    sent (ok true)
    ∷ sent (ok true)
    ∷ received (ok (some 1, true))
    ∷ sent (ok true)
    ∷ sent (ok true)
    ∷ sent (ok false)
    ∷ received (ok (some 2, true))
    ∷ done
    ∷ sent (raise index_error)
    ∷ received (ok (some 3, true))
    ∷ received (ok (some 4, true))
    ∷ received (ok (none, false))
    ∷ answer false
    ∷ []

run-replies : run three calls ≡ replies
unfolding program Channel.sendable Pipe.can_push
run-replies = refl

tp_new_negative : tp_new {A = ℕ} (some (negsuc 0)) ≡ raise value_error
unfolding program
tp_new_negative = refl

run-tp_new_example : run (new 3) calls ≡ promised (empty 3) calls
unfolding tp_new
run-tp_new_example = run-tp_new 2 calls (omega arith) refl

run_refines_example : run held calls ≡ promised held_pipe calls
run_refines_example = run_refines calls held-Represents

send_refines_example :
    ((send held 8).1 ≡ (push held_pipe 8).1) × Represents (send held 8).0 (push held_pipe 8).0
send_refines_example = send_refines held held_pipe held-Represents 8

recv_refines_example :
    ((recv held).1 ≡ (pop held_pipe).1) × Represents (recv held).0 (pop held_pipe).0
recv_refines_example = recv_refines held held_pipe held-Represents

close_refines_example : Represents (close held true true) (turn_doors held_pipe true true)
close_refines_example = close_refines held held_pipe held-Represents true true

recv-clear_fails_example : recv (clear held) ≡ (clear held, fault assertion)
unfolding program
recv-clear_fails_example =
    recv-clear_fails held held_pipe 7 [] held-Represents (λ e. omega (arith, e)) refl refl

send-clear_full_example : send (clear full) 4 ≡ (clear full, ok false)
unfolding program
send-clear_full_example =
    send-clear_full full full_pipe 4 full-Represents (λ e. omega (arith, e)) refl refl

clear-Represents_one_example :
    Represents (clear full_one) (record (push (empty 1) 7).0 { queue = [] })
unfolding program
clear-Represents_one_example =
    clear-Represents_one full_one (push (empty 1) 7).0 full_one-Represents refl

-- A callback that accepts every number.
abbrev picky : ℕ → Answer ℕ
picky n = accepted (n + 1)

consume_refines_example :
    ((safe_consume held (some (quiet picky))).1 ≡ (consume held_pipe picky).1)
    × Represents (safe_consume held (some (quiet picky))).0 (consume held_pipe picky).0
consume_refines_example = consume_refines held held_pipe held-Represents picky

-- A callback that receives on its own channel: the item after the one it was given is lost.
consume_reentrant :
    let out = safe_consume (send held 8).0 (some (λ n c. ((recv c).0, accepted n))) in
    recv out.0 ≡ (out.0, ok (none, false))
unfolding program
consume_reentrant = refl
