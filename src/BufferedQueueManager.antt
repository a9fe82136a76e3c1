-- ===== src/BufferedQueueManager.antt =====
-- include/fractals/network/p2p/BufferedQueueManager.h and
-- src/fractals/network/p2p/BufferedQueueManager.cpp: the bytes of a stream cut into messages, and
-- the data that waits to be written. A deque is a list with its back first. Sizes of buffers stay
-- below 2 ^ 31 in this model, so the casts of a size to `int32_t` are not written. `none` stands for
-- an exception, or for a read before the begin of the data, which has no defined behaviour.
pub mod Deque
pub mod WriteMsgState
pub mod Manager
pub mod Conservation
pub mod Frames
pub mod Framing
pub mod SplitLength
use fractals.Prelude.{
  ℕ, zero, suc, ◌+◌, ◌-◌, ◌*◌, ◌/◌, ◌%◌, ◌^◌, ◌≤◌, ◌<◌, ◌≡◌, min, Bool, Option, none, some, List,
  [], ◌∷◌, ◌++◌, arith, length, ltb, leb, if◌then◌else◌, true, false, take, drop, ◌==◌, ◌&&◌, ◌||◌,
  not,
}
use fractals.Prelude.Eq.{Eq}
use fractals.Prelude.Map.{Map, find, assign, emplace, erase}
use fractals.Prelude.Int.{ℤ, pos, negsuc}
use mathlib.Core.Option.{get_or}
use Deque.{ReadMsgState, parse_deque, ◌>>=◌}
use WriteMsgState as Write

-- `addToReadBuffer` returns, throws, or is still running when the fuel is spent.
pub data Outcome {ℓ} (A : Type ℓ) : Type ℓ where
  done : A → Outcome A
  thrown out_of_fuel : Outcome A

-- `K` stands for `PeerFd`, which is compared by its peer's address.
pub record BufferedQueueManager (K : Type 0) : Type 0 where
  pub read_buffers : Map K (List ReadMsgState)
  pub write_buffers : Map K Write.WriteMsgState

module _ {K : Type 0} ⦃e : Eq K⦄ where
  -- Whether a message is complete, the manager after it, and the rest of the data.
  unfoldable pub parse_message :
      K → List ℕ → BufferedQueueManager K → Option (Bool × BufferedQueueManager K × List ℕ)
  unfolding parse_deque
  parse_message p input q = do
    (complete, deque, rest) ← parse_deque (find p q.read_buffers) input
    some (complete, record q { read_buffers = assign p deque q.read_buffers }, rest)

  -- The loop of `addToReadBuffer`: `completed` is its `hasCompletedMessage`.
  unfoldable pub add_loop :
      ℕ → K → Bool → List ℕ → BufferedQueueManager K → Outcome (Bool × BufferedQueueManager K)
  add_loop fuel p completed [] q = done (completed, q)
  add_loop zero p completed (c ∷ input) q = out_of_fuel
  add_loop (suc fuel) p completed (c ∷ input) q = elim (parse_message p (c ∷ input) q) [
    | none ↦ thrown
    | some (complete, q', rest) ↦ add_loop fuel p (completed || complete) rest q'
  ]

  -- A round takes a byte at least, so the size of the data is enough fuel.
  unfoldable pub add_to_read_buffer :
      K → List ℕ → BufferedQueueManager K → Outcome (Bool × BufferedQueueManager K)
  unfolding add_loop parse_message
  add_to_read_buffer p input q = add_loop (length input) p false input q

  -- `mReadBuffers[p]`: an empty deque is added for a peer that has none.
  unfoldable pub get_read_buffers :
      K → BufferedQueueManager K → List ReadMsgState × BufferedQueueManager K
  get_read_buffers p q =
      let buffers = emplace p [] q.read_buffers in
      (get_or (find p buffers) [], record q { read_buffers = buffers })

  -- Data for a peer that has some waiting is dropped.
  unfoldable pub add_to_write_buffer : K → List ℕ → BufferedQueueManager K → BufferedQueueManager K
  unfolding Write.init Write.is_complete
  add_to_write_buffer p m q = elim (find p q.write_buffers) [
    | none ↦ record q { write_buffers = emplace p (Write.init m) q.write_buffers }
    | some w ↦
        if Write.is_complete w
        then record q { write_buffers = assign p (Write.init m) q.write_buffers }
        else q
  ]

  unfoldable pub remove_from_write_buffer : K → BufferedQueueManager K → BufferedQueueManager K
  remove_from_write_buffer p q = record q { write_buffers = erase p q.write_buffers }

  unfoldable pub get_write_buffer : K → BufferedQueueManager K → Option Write.WriteMsgState
  get_write_buffer p q = find p q.write_buffers
