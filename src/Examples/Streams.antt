-- ===== src/Examples/Streams.antt =====
-- Streams of one peer.
use fractals.Prelude.{
  ℕ, zero, suc, ◌≡◌, refl, Option, none, some, List, [], ◌∷◌, ◌++◌, arith, ◌↔◌, map, ◌≤◌, ◌<◌, ◌-◌,
  ◌^◌, false, true, length, drop,
}
use fractals.Prelude.Eq.{nat_eq}
use fractals.Prelude.Int.{negsuc}
use fractals.Bytes.{int_to_bytes}
use fractals.BufferedQueueManager.{BufferedQueueManager, add_to_read_buffer}
use fractals.BufferedQueueManager.Deque.{ReadMsgState, parse_deque}
use fractals.BufferedQueueManager.Manager.{Adds, add_to_read_buffer-Adds}
use fractals.BufferedQueueManager.Framing.{framed_all, stream, Delivers, add_to_read_buffer-stream}
use fractals.BufferedQueueManager.Frames.{frame}
use fractals.BufferedQueueManager.SplitLength.{split_length_overruns}

-- Peer 1 has had its messages taken out, peer 2 is new.
abbrev manager : BufferedQueueManager ℕ
manager = record { read_buffers = (1, []) ∷ []; write_buffers = [] }

-- A keep-alive and a choke.
abbrev bodies : List (List ℕ)
bodies = [] ∷ (0 ∷ []) ∷ []

add_to_read_buffer-Adds_example :
    Adds 2 (3 ∷ 1 ∷ 2 ∷ []) manager (add_to_read_buffer 2 (3 ∷ 1 ∷ 2 ∷ []) manager)
add_to_read_buffer-Adds_example = add_to_read_buffer-Adds 2 (3 ∷ 1 ∷ 2 ∷ []) manager

add_to_read_buffer-stream_example :
    Delivers 1 (framed_all bodies []) (add_to_read_buffer 1 (stream bodies) manager)
unfolding fractals.Prelude.Map.find
add_to_read_buffer-stream_example =
    add_to_read_buffer-stream 1 bodies manager [] refl tt (omega arith) (λ e. cc e)

-- A keep-alive cut after two bytes, with the begin of a choke behind it.
split_length_overruns_example :
    (m : ReadMsgState) × (parse_deque (some []) (0 ∷ 0 ∷ [])
      ≡ some (false, record { m_length = negsuc 0; buffer = 0 ∷ 0 ∷ [] } ∷ [], []))
    × (parse_deque
          (some (record { m_length = negsuc 0; buffer = 0 ∷ 0 ∷ [] } ∷ []))
          (0 ∷ 0 ∷ 0 ∷ 0 ∷ 0 ∷ 1 ∷ 0 ∷ [])
        ≡ some (true, m ∷ [], 0 ∷ 1 ∷ 0 ∷ []))
    × (length (frame []) < length m.buffer)
split_length_overruns_example =
    split_length_overruns [] (0 ∷ 0 ∷ []) (0 ∷ 0 ∷ []) [] (0 ∷ 0 ∷ 0 ∷ 1 ∷ 0 ∷ []) tt
      (unfold int_to_bytes in refl) (omega arith) (omega arith) (omega arith) (omega arith)
