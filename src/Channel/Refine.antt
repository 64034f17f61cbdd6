-- ===== src/Channel/Refine.antt =====
-- Sequences of calls on a channel, against the same calls on a pipe.
use python_ctools.Base.{
  ℕ, suc, ◌≡◌, refl, sym, ap, ap₂, subst, ok-injective, ◌<◌, ◌^◌, some, List, [], ◌∷◌, ok, arith,
}
use python_ctools.Base.Int.{pos}
use python_ctools.Channel
use python_ctools.Channel.{Channel}
use python_ctools.Channel.Pipe
use python_ctools.Channel.Pipe.{Pipe, empty, Call, Reply, sent, received, done, answer, number}
use python_ctools.Channel.Represents.{Represents}
use python_ctools.Channel.Methods.{
  send_refines, recv_refines, close_refines, sendable_refines, recvable_refines, new-Represents,
}

module _ {ℓ} {A : Type ℓ} where
  -- one call of a method
  unfoldable pub serve : Channel A → Call A → Channel A × Reply A
  serve c (Call.send a) = let (c', r) = Channel.send c a in (c', sent r)
  serve c Call.recv = let (c', r) = Channel.recv c in (c', received r)
  serve c (Call.close write read) = (Channel.close c write read, done)
  serve c Call.sendable = (c, answer (Channel.sendable c))
  serve c Call.recvable = (c, answer (Channel.recvable c))
  serve c Call.size = (c, number (Channel.size c))

  -- what a client sees of its calls, in order
  unfoldable pub run : Channel A → List (Call A) → List (Reply A)
  run c [] = []
  run c (m ∷ calls) = let (c', r) = serve c m in r ∷ run c' calls

  -- the same on the pipe
  unfoldable pub promised : Pipe A → List (Call A) → List (Reply A)
  promised p [] = []
  promised p (m ∷ calls) = let (p', r) = Pipe.call p m in r ∷ promised p' calls

  serve_refines :
      {c : Channel A} {p : Pipe A} (m : Call A)
      → Represents c p
      → ((serve c m).1 ≡ (Pipe.call p m).1) × Represents (serve c m).0 (Pipe.call p m).0
  unfolding serve Pipe.call
  serve_refines {c} {p} (Call.send a) r =
      let (same, after) = send_refines c p r a in (ap sent same, after)
  serve_refines {c} {p} Call.recv r =
      let (same, after) = recv_refines c p r in (ap received same, after)
  serve_refines {c} {p} (Call.close write read) r = (refl, close_refines c p r write read)
  serve_refines {c} {p} Call.sendable r = (ap answer (sendable_refines c p r), r)
  serve_refines {c} {p} Call.recvable r = (ap answer (recvable_refines c p r), r)
  serve_refines {c} {p} Call.size r = (ap number (sym r.cap), r)

  -- No sequence of `send`, `recv`, `close`, `sendable`, `recvable` and `size` tells a ring that
  -- holds a pipe's queue from the pipe: the replies are the same, in particular none is a fault.
  pub run_refines :
      (calls : List (Call A)) {c : Channel A} {p : Pipe A}
      → Represents c p
      → run c calls ≡ promised p calls
  unfolding run promised
  run_refines [] r = refl
  run_refines (m ∷ calls) r =
      let (same, after) = serve_refines m r in ap₂ ◌∷◌ same (run_refines calls after)

  -- A channel built with a size of at least one and below 2 ^ 30 behaves, under every sequence of
  -- those calls, as an empty bounded queue of that capacity with both doors open.
  pub run-tp_new :
      (n : ℕ) (calls : List (Call A)) {c : Channel A}
      → suc n < 2 ^ 30
      → Channel.tp_new (some (pos (suc n))) ≡ ok c
      → run c calls ≡ promised (empty (suc n)) calls
  unfolding Channel.tp_new
  run-tp_new n calls small made = run_refines calls (
      subst (λ d. Represents d (empty (suc n))) (ok-injective made)
        (new-Represents (suc n) (omega arith) small))
