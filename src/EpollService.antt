-- ===== src/EpollService.antt =====
-- include/fractals/network/p2p/EpollService.h and EpollService.ipp: the thread that owns the sockets.
-- The calls of the system and of the epoll wrapper are inputs and outputs: what `wait`, `read` and
-- `write` give and the text of a control call's error are arguments, and the calls made are returned
-- in order with the events that are pushed. A peer in a table is its id, as `PeerFd` is compared by
-- it. The pipe that wakes the thread is left out. `thrown` stands for an exception, and for the
-- negative number of bytes of a failed `read` or `write`, with which the code leaves its buffers.
pub mod Delivery
pub mod Writing
pub mod Reconnect
use fractals.Prelude.{
  ℕ, zero, suc, ◌==◌, Bool, true, false, not, ◌||◌, Option, none, some, List, [], ◌∷◌, ◌++◌,
  if◌then◌else◌, length, map,
}
use fractals.Prelude.Int.{ℤ}
use fractals.Prelude.Eq.{Eq}
use fractals.Prelude.Map.{assign}
use fractals.Prelude.Set.{member, insert, remove}
use fractals.PeerService.{
  PeerFd, EpollServiceRequest, write_event, subscribe, un_subscribe, deactivate,
  EpollServiceResponse, epoll_error, read_event, write_event_response, connection_accepted,
  ctl_response, connection_close_event, connection_error,
}
use fractals.BufferedQueueManager.{
  BufferedQueueManager, Outcome, done, thrown, out_of_fuel, add_to_read_buffer, get_read_buffers,
  add_to_write_buffer, get_write_buffer, remove_from_write_buffer,
}
use fractals.BufferedQueueManager.Deque.{ReadMsgState, is_complete}
use fractals.BufferedQueueManager.WriteMsgState as Write

pub data State : Type 0 where
  active inactive deactivating : State

abbrev is_active : State → Bool
is_active active = true
is_active inactive = false
is_active deactivating = false

pub record EpollService (K : Type 0) : Type 0 where
  pub state : State
  pub pending : List K
  pub buff_man : BufferedQueueManager K

-- The calls of the epoll wrapper and of the system, and the events pushed to the queue.
pub data Effect (K : Type 0) : Type 0 where
  add enable_write disable_write erase : PeerFd K → Effect K
  close : ℤ → Effect K
  push : EpollServiceResponse K → Effect K

abbrev pub Ran : Type 0 → Type 0
Ran K = List (Effect K) × EpollService K

-- The complete messages of a deque, the oldest first, and what is kept.
unfoldable pub flush_complete : List ReadMsgState → List (List ℕ) × List ReadMsgState
unfolding is_complete
flush_complete [] = ([], [])
flush_complete (m ∷ older) =
    let (messages, kept) = flush_complete older in
    if is_complete m then (messages ++ m.buffer ∷ [], kept) else (messages, m ∷ kept)

-- What `epoll` and the system calls give for a peer that is ready. `none` is a failed call.
pub record Ready : Type 0 where
  pub subscribed : Bool
  pub error : Bool
  pub hang_up : Bool
  pub readable : Bool
  pub writable : Bool
  pub error_code : ℕ
  pub received : Option (List ℕ)
  pub written : Option ℕ
  pub ctl_error : List ℕ

-- "Could not write any data to peer".
abbrev could_not_write : List ℕ
could_not_write =
    67 ∷ 111 ∷ 117 ∷ 108 ∷ 100 ∷ 32 ∷ 110 ∷ 111 ∷ 116 ∷ 32 ∷ 119 ∷ 114 ∷ 105 ∷ 116 ∷ 101 ∷ 32 ∷ 97
    ∷ 110 ∷ 121 ∷ 32 ∷ 100 ∷ 97 ∷ 116 ∷ 97 ∷ 32 ∷ 116 ∷ 111 ∷ 32 ∷ 112 ∷ 101 ∷ 101 ∷ 114 ∷ []

module _ {K : Type 0} ⦃ek : Eq K⦄ where
  unfoldable pub unsubscribe : PeerFd K → List ℕ → EpollService K → Ran K
  unsubscribe p ctl_error s = (
    erase p ∷ close p.fd ∷ push (ctl_response p ctl_error) ∷ [],
    record s { pending = remove p.id s.pending },
  )

  -- The complete messages become events once `addToReadBuffer` tells that there is one.
  unfoldable pub flush_messages : PeerFd K → BufferedQueueManager K → EpollService K → Ran K
  unfolding flush_complete get_read_buffers
  flush_messages p q s =
      let (msgs, q₁) = get_read_buffers p.id q in
      let (messages, kept) = flush_complete msgs in
      (
        map (λ m. push (read_event p m)) messages,
        record s { buff_man = record q₁ { read_buffers = assign p.id kept q₁.read_buffers } },
      )

  unfoldable pub write_to_buffer : PeerFd K → List ℕ → EpollService K → Outcome (Ran K)
  unfolding flush_messages
  write_to_buffer p bytes s = elim (add_to_read_buffer p.id bytes s.buff_man) [
    | done (true, q) ↦ done (flush_messages p q s)
    | done (false, q) ↦ done ([], record s { buff_man = q })
    | thrown ↦ thrown
    | out_of_fuel ↦ out_of_fuel
  ]

  -- One request of the queue.
  unfoldable pub handle_request : EpollServiceRequest K → List ℕ → EpollService K → Ran K
  unfolding unsubscribe
  handle_request (subscribe p) ctl_error s =
      (add p ∷ push (ctl_response p ctl_error) ∷ [], record s { pending = insert p.id s.pending })
  handle_request (un_subscribe p) ctl_error s =
      let (effects, t) = unsubscribe p ctl_error s in
      (effects ++ push (connection_close_event p.id) ∷ [], t)
  handle_request deactivate ctl_error s = ([], record s { state = inactive })
  handle_request (write_event p bytes) ctl_error s =
      (enable_write p ∷ [], record s { buff_man = add_to_write_buffer p.id bytes s.buff_man })

  -- `ConnectionAccepted` for a peer that was pending.
  unfoldable pub accept : PeerFd K → EpollService K → Ran K
  accept p s =
      if member p.id s.pending
      then (push (connection_accepted p) ∷ [], record s { pending = remove p.id s.pending })
      else ([], s)

  -- `writeData` and what follows it: `n` bytes are written.
  unfoldable pub write_data : PeerFd K → ℕ → Write.WriteMsgState → EpollService K → Ran K
  unfolding Write.flush Write.is_complete remove_from_write_buffer
  write_data p n w s =
      let w₁ = Write.flush n w in
      let q : BufferedQueueManager K = record s.buff_man {
        write_buffers = assign p.id w₁ s.buff_man.write_buffers;
      } in
      let failed = if n == 0 then push (write_event_response p could_not_write) ∷ [] else [] in
      if Write.is_complete w₁
      then (
        failed ++ (push (write_event_response p []) ∷ disable_write p ∷ []),
        record s { buff_man = remove_from_write_buffer p.id q },
      )
      else (failed ++ disable_write p ∷ [], record s { buff_man = q })

  -- The case of `EpollOut`.
  unfoldable pub handle_writable : PeerFd K → Option ℕ → EpollService K → Outcome (Ran K)
  unfolding accept write_data
  handle_writable p written s =
      let (effects, s₁) = accept p s in
      elim (get_write_buffer p.id s₁.buff_man) [
        | none ↦ done (effects ++ disable_write p ∷ [], s₁)
        | some w ↦ elim written [
          | none ↦ thrown
          | some n ↦ let (more, s₂) = write_data p n w s₁ in done (effects ++ more, s₂)
        ]
      ]

  abbrev also : List (Effect K) → Outcome (Ran K) → Outcome (Ran K)
  also effects (done (more, s)) = done (effects ++ more, s)
  also effects thrown = thrown
  also effects out_of_fuel = out_of_fuel

  -- `readMany`, and the case of `EpollIn`: whether the event is dealt with, after an end of the
  -- stream.
  unfoldable pub handle_readable :
      PeerFd K → List ℕ → List ℕ → EpollService K → Outcome (Bool × Ran K)
  unfolding write_to_buffer unsubscribe
  handle_readable p received ctl_error s = elim (write_to_buffer p received s) [
    | done (effects, t) ↦
        if length received == 0
        then (let (more, t₁) = unsubscribe p ctl_error t in
            done (true, (effects ++ push (connection_close_event p.id) ∷ more, t₁)))
        else done (false, (effects, t))
    | thrown ↦ thrown
    | out_of_fuel ↦ out_of_fuel
  ]

  -- One event of `wait`.
  unfoldable pub handle_event : PeerFd K → Ready → EpollService K → Outcome (Ran K)
  unfolding unsubscribe handle_writable handle_readable
  handle_event p r s =
      let writes = λ (t : EpollService K).
        if r.writable then handle_writable p r.written t else done ([], t) in
      if not r.subscribed
      then done ([], s)
      else if r.error
      then (let (more, t) = unsubscribe p r.ctl_error s in
          done (push (connection_error p.id r.error_code) ∷ more, t))
      else if r.hang_up
      then (let (more, t) = unsubscribe p r.ctl_error s in
          done (push (connection_close_event p.id) ∷ more, t))
      else if r.readable
      then (elim r.received [
        | none ↦ thrown
        | some received ↦ elim (handle_readable p received r.ctl_error s) [
          | done (true, (effects, t)) ↦ done (effects, t)
          | done (false, (effects, t)) ↦ also effects (writes t)
          | thrown ↦ thrown
          | out_of_fuel ↦ out_of_fuel
        ]
      ])
      else writes s

  unfoldable pub handle_requests : List (EpollServiceRequest K × List ℕ) → EpollService K → Ran K
  unfolding handle_request
  handle_requests [] s = ([], s)
  handle_requests ((request, ctl_error) ∷ rest) s =
      let (effects, t) = handle_request request ctl_error s in
      let (more, u) = handle_requests rest t in (effects ++ more, u)

  unfoldable pub handle_events : List (PeerFd K × Ready) → EpollService K → Outcome (Ran K)
  unfolding handle_event
  handle_events [] s = done ([], s)
  handle_events ((p, r) ∷ rest) s = elim (handle_event p r s) [
    | done (effects, t) ↦ also effects (handle_events rest t)
    | thrown ↦ thrown
    | out_of_fuel ↦ out_of_fuel
  ]

  -- One round of the loop of `run`, at what `wait` gave: an error that is not an interruption, or the
  -- events of the peers.
  unfoldable pub round :
      Option ℕ
      → List (PeerFd K × Ready)
      → List (EpollServiceRequest K × List ℕ)
      → EpollService K
      → Outcome (Ran K)
  unfolding handle_requests handle_events
  round wait_error events requests s =
      let (effects, t) = handle_requests requests s in
      if is_active t.state
      then (elim wait_error [
        | some code ↦ done (effects ++ push (epoll_error code) ∷ [], record t { state = inactive })
        | none ↦ also effects (handle_events events t)
      ])
      else done (effects, t)
