-- ===== src/Channel/Pipe.antt =====
-- What a channel promises: a bounded queue with two doors that `close` turns.
use python_ctools.Base.{
  ℕ, Bool, true, false, not, ◌&&◌, Option, none, some, List, [], ◌∷◌, ◌++◌, ◌==◌, ltb,
  if◌then◌else◌, length, Result, ok, raise, index_error,
}

pub record Pipe {ℓ} (A : Type ℓ) : Type ℓ where
  pub cap : ℕ
  pub queue : List A
  pub send_open : Bool
  pub recv_open : Bool

-- The calls of a client that change or observe a pipe.
pub data Call {ℓ} (A : Type ℓ) : Type ℓ where
  send : A → Call A
  recv : Call A
  close : Bool → Bool → Call A
  sendable recvable size : Call A

pub data Reply {ℓ} (A : Type ℓ) : Type ℓ where
  sent : Result Bool → Reply A
  received : Result (Option A × Bool) → Reply A
  done : Reply A
  answer : Bool → Reply A
  number : ℕ → Reply A

module _ {ℓ} {A : Type ℓ} where
  abbrev pub empty : ℕ → Pipe A
  empty cap = record { cap = cap; queue = []; send_open = true; recv_open = true }

  -- An item is taken if the door is open and there is room.
  unfoldable pub push : Pipe A → A → Pipe A × Result Bool
  push p a =
      if not p.send_open
      then (p, raise index_error)
      else if length p.queue == p.cap
      then (p, ok false)
      else (record p { queue = p.queue ++ a ∷ [] }, ok true)

  unfoldable pub pop : Pipe A → Pipe A × Result (Option A × Bool)
  pop p = if not p.recv_open then (p, raise index_error) else elim p.queue [
    | [] ↦ (p, ok (none, false))
    | a ∷ q ↦ (record p { queue = q }, ok (some a, true))
  ]

  -- Closing a closed door opens it again.
  unfoldable pub turn_doors : Pipe A → Bool → Bool → Pipe A
  turn_doors p write read = record p {
    send_open = if write then not p.send_open else p.send_open;
    recv_open = if read then not p.recv_open else p.recv_open;
  }

  unfoldable pub can_push : Pipe A → Bool
  can_push p = p.send_open && ltb (length p.queue) p.cap

  unfoldable pub can_pop : Pipe A → Bool
  can_pop p = p.recv_open && ltb 0 (length p.queue)

  unfoldable pub call : Pipe A → Call A → Pipe A × Reply A
  unfolding push pop turn_doors can_push can_pop
  call p (send a) = let (p', r) = push p a in (p', sent r)
  call p recv = let (p', r) = pop p in (p', received r)
  call p (close write read) = (turn_doors p write read, done)
  call p sendable = (p, answer (can_push p))
  call p recvable = (p, answer (can_pop p))
  call p size = (p, number p.cap)
