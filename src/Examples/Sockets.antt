-- ===== src/Examples/Sockets.antt =====
-- Two sides of one connection: peer 1 writes, and its messages are read as those of peer 2.
use fractals.Prelude.{
  ℕ, ◌*◌, ◌^◌, ◌≡◌, refl, ◌&&◌, true, none, some, List, [], ◌∷◌, map, replicate, length-replicate,
  if◌then◌else◌, arith,
}
use fractals.Prelude.Int.{pos}
use fractals.Prelude.Eq.{nat_eq}
use fractals.Prelude.Map.{find, contains, emplace, erase}
use fractals.Prelude.Set.{member, remove}
use fractals.Message
use fractals.Message.{HandShake, hand_shake, interested, request}
use fractals.Encoder.{encode}
use fractals.BufferedQueueManager.{done}
use fractals.BufferedQueueManager.Manager.{stored}
use fractals.BufferedQueueManager.WriteMsgState as Write
use fractals.PeerService.{
  PeerFd, PeerService, EpollServiceRequest, EpollServiceResponse, deactivate,
  connection_close_event, write_event, message, connect, activity_check,
}
use fractals.PeerService.Wire.{write_all, read_all, frames, read_all-write_all}
use fractals.PeerService.Activity.{asked, is_stale}
use fractals.PeerService.Valid.{connects, run, step, run-activity_check}
use fractals.EpollService.{
  EpollService, Effect, active, disable_write, enable_write, write_to_buffer, handle_writable,
  handle_request, handle_requests,
}
use fractals.EpollService.Delivery.{concat, pushed_events, read_popped, read_popped-write_to_buffer}
use fractals.FullDuplexQueue.{FullDuplexQueue}
use fractals.FullDuplexQueue.Transfer.{right_pushes, left_pops}
use fractals.WorkQueue.Ring.{Holds}
use fractals.EpollService.Writing.{handle_request-handle_writable}
use fractals.EpollService.Reconnect.{renewal, write_to_buffer-handle_requests}

abbrev greeting : HandShake
greeting = record {
  pstr = 66 ∷ 84 ∷ [];
  reserved = replicate 8 0;
  info_hash = replicate 20 1;
  peer_id = replicate 20 2;
}

abbrev sent : List Message.Message
sent = interested ∷ request (record { req_index = 3; req_begin = 16384; req_length = 16384 }) ∷ []

abbrev fd₁ : PeerFd ℕ
fd₁ = record { id = 1; fd = pos 7 }

abbrev fd₂ : PeerFd ℕ
fd₂ = record { id = 2; fd = pos 9 }

abbrev writer : PeerService ℕ
writer = record { peer_fds = (1, fd₁) ∷ []; timestamps = []; hand_shaked = [] }

abbrev reader : PeerService ℕ
reader = record { peer_fds = []; timestamps = []; hand_shaked = 2 ∷ [] }

read_all-write_all_example :
    (requests : List (EpollServiceRequest ℕ)) × (write_all 1 5 (hand_shake greeting ∷ sent) writer
      ≡ some requests)
    × (read_all fd₂ 6 (frames requests) ((connect true (pos 9) 2 5 reader).service)
        ≡ some (map (λ m. some (message 2 m)) (hand_shake greeting ∷ sent)))
unfolding find
read_all-write_all_example =
    read_all-write_all greeting sent 1 2 9 fd₁ 5 6 writer reader (omega arith) (omega arith)
      (omega arith) refl

-- A peer that connected eleven seconds before.
abbrev waiting : PeerService ℕ
waiting = record { peer_fds = (2, fd₂) ∷ []; timestamps = (2, 5) ∷ []; hand_shaked = [] }

run-activity_check_example :
    (find 2 (activity_check (11 * 10 ^ 9) waiting).service.timestamps
      ≡ (if is_stale (11 * 10 ^ 9) (some 5) then none else some 5))
    × (asked 2 (activity_check (11 * 10 ^ 9) waiting).requests
        ≡ (is_stale (11 * 10 ^ 9) (some 5) && true))
    × ((activity_check (11 * 10 ^ 9) waiting).service.peer_fds ≡ (2, fd₂) ∷ [])
unfolding find contains
run-activity_check_example =
    run-activity_check (connects true (pos 9) 2 5 ∷ []) waiting (11 * 10 ^ 9) 2 (
      unfold run in
      unfold step in
      unfold connect in unfold emplace in unfold erase in unfold contains in unfold remove in refl)

abbrev service : EpollService ℕ
service = record {
  state = active;
  pending = [];
  buff_man = record {
    read_buffers = (2, []) ∷ [];
    write_buffers = (2, record { view = 1 ∷ 2 ∷ 3 ∷ []; buffer = 1 ∷ 2 ∷ 3 ∷ [] }) ∷ [];
  };
}

abbrev pieces : List (List ℕ)
pieces =
    (0 ∷ 0 ∷ 0 ∷ 1 ∷ 2 ∷ [])
    ∷ (0 ∷ 0 ∷ 0 ∷ 13 ∷ 6 ∷ 0 ∷ 0 ∷ 0 ∷ 3 ∷ 0 ∷ 0 ∷ 64 ∷ 0 ∷ 0 ∷ 0 ∷ 64 ∷ 0 ∷ [])
    ∷ []

-- The queue between the services, with nothing in it.
abbrev between : FullDuplexQueue (EpollServiceRequest ℕ) (EpollServiceResponse ℕ)
between = record {
  left_queue = record { events = replicate 256 deactivate; head = 0; tail = 0 };
  right_queue = record { events = replicate 256 (connection_close_event 0); head = 0; tail = 0 };
}

between-Holds : Holds 256 between.right_queue []
between-Holds = record {
  valid = record {
    slots = length-replicate {A = EpollServiceResponse ℕ} 256 (connection_close_event 0);
    ordered = omega arith;
    fits = omega arith;
    calibrated = omega arith;
  };
  stored = refl;
}

read_popped-write_to_buffer_example :
    (effects : List (Effect ℕ)) × (t : EpollService ℕ) × (write_to_buffer fd₂
        (concat pieces)
        service
      ≡ done (effects, t))
    × (stored 2 t.buff_man ≡ some [])
    × (read_popped 6 (left_pops 256 2 (right_pushes 256 (pushed_events effects) between)) reader
        ≡ some (map (λ m. some (message 2 m)) sent))
unfolding find member encode
read_popped-write_to_buffer_example =
    read_popped-write_to_buffer fd₂ sent pieces 6 service reader between refl (λ e. cc)
      (omega arith) between-Holds (omega arith) refl refl

handle_request-handle_writable_example :
    (t : EpollService ℕ) × (handle_writable fd₂ (some 2) service ≡ done (disable_write fd₂ ∷ [], t))
    × (find 2 t.buff_man.write_buffers
        ≡ some (Write.flush 2 (record { view = 1 ∷ 2 ∷ 3 ∷ []; buffer = 1 ∷ 2 ∷ 3 ∷ [] })))
    × (handle_request (write_event fd₂ (8 ∷ [])) [] t ≡ (enable_write fd₂ ∷ [], t))
unfolding find member
handle_request-handle_writable_example =
    handle_request-handle_writable fd₂ 2 (record { view = 1 ∷ 2 ∷ 3 ∷ []; buffer = 1 ∷ 2 ∷ 3 ∷ [] })
      service (8 ∷ []) [] refl refl (omega arith) (omega arith)

-- Seven bytes are awaited, and five are there.
abbrev underway : EpollService ℕ
underway = record service {
  buff_man = record {
    read_buffers = (2, record { m_length = pos 7; buffer = 0 ∷ 0 ∷ 0 ∷ 3 ∷ 4 ∷ [] } ∷ []) ∷ [];
    write_buffers = [];
  };
}

write_to_buffer-handle_requests_example :
    (t : EpollService ℕ) × (write_to_buffer fd₂
        (19 ∷ [])
        (handle_requests (renewal fd₂ fd₂) underway).1
      ≡ done ([], t))
    × (stored 2 t.buff_man
        ≡ some (record { m_length = pos 7; buffer = 0 ∷ 0 ∷ 0 ∷ 3 ∷ 4 ∷ 19 ∷ [] } ∷ []))
unfolding find
write_to_buffer-handle_requests_example =
    write_to_buffer-handle_requests fd₂ fd₂ 7 (0 ∷ 0 ∷ 0 ∷ 3 ∷ 4 ∷ []) (19 ∷ []) underway refl refl
      (omega arith) (omega arith)
