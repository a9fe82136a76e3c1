-- ===== src/EpollService/Reconnect.antt =====
-- The read buffer of a peer that is disconnected and connected again.
use fractals.Prelude.{
  ℕ, ◌+◌, ◌-◌, ◌<◌, min, ◌≡◌, ◌∙◌, refl, ap, sym, some, List, [], ◌∷◌, ◌++◌, length, leb, true,
  false, take_all, drop_all, length-append, arith,
}
use fractals.Prelude.Int.{pos}
use fractals.Prelude.Map.{assign, find, find-assign_self}
use fractals.Prelude.Eq.{Eq}
use fractals.PeerService.{PeerFd, EpollServiceRequest, subscribe, un_subscribe}
use fractals.BufferedQueueManager.{BufferedQueueManager, done, add_to_read_buffer, add_loop}
use fractals.BufferedQueueManager.Deque.{
  ReadMsgState, parse_deque, parse_more, is_initialized, is_complete, get_remaining, append,
}
use fractals.BufferedQueueManager.Manager.{stored, add_round}
use fractals.EpollService.{
  EpollService, handle_request, handle_requests, unsubscribe, write_to_buffer,
}

-- A message of which bytes are missing takes what comes, as far as it goes.
parse_deque-underway :
    (l : ℕ) (buffer bytes : List ℕ)
    → length buffer + length bytes < l
    → parse_deque (some (record { m_length = pos l; buffer = buffer } ∷ [])) bytes
      ≡ some (false, record { m_length = pos l; buffer = buffer ++ bytes } ∷ [], [])
unfolding parse_deque parse_more is_initialized is_complete get_remaining append
parse_deque-underway l buffer bytes h =
    let c : leb l (length buffer) ≡ false = ground arith in
    let d : leb (length buffer) l ≡ true = ground arith in
    let n : min (l - length buffer) (length bytes) ≡ length bytes = omega arith in
    let f : leb l (length (buffer ++ bytes)) ≡ false = ground (arith, length-append buffer bytes) in
    rw
      (
        c,
        d,
        n,
        take_all (length bytes) bytes (omega arith),
        drop_all (length bytes) bytes (omega arith),
        f,
      )
      refl

module _ {K : Type 0} ⦃ek : Eq K⦄ where
  -- The requests that take a peer from the epoll set and add it again.
  abbrev pub renewal : PeerFd K → PeerFd K → List (EpollServiceRequest K × List ℕ)
  renewal p q = (un_subscribe p, []) ∷ (subscribe q, []) ∷ []

  add_to_read_buffer-underway :
      (p : K) (l : ℕ) (buffer bytes : List ℕ) (q : BufferedQueueManager K)
      → stored p q ≡ some (record { m_length = pos l; buffer = buffer } ∷ [])
      → 0 < length bytes
      → length buffer + length bytes < l
      → add_to_read_buffer p bytes q
        ≡ done (
          false,
          record q {
            read_buffers =
                assign p
                  (record { m_length = pos l; buffer = buffer ++ bytes } ∷ [])
                  q.read_buffers;
          },
        )
  unfolding add_to_read_buffer add_loop
  add_to_read_buffer-underway p l buffer [] q e h k = absurd (omega arith)
  add_to_read_buffer-underway p l buffer (c ∷ bytes) q e h k =
      add_round (length bytes) p false false (c ∷ bytes) [] q _ h
        (rw e (parse_deque-underway l buffer (c ∷ bytes) k))

  -- When a peer is unsubscribed while a message of it is underway, and is subscribed again, the
  -- bytes that arrive next, fewer than the old message misses, are added to that message, and no
  -- event is pushed.
  pub write_to_buffer-handle_requests :
      (p q : PeerFd K) (l : ℕ) (buffer bytes : List ℕ) (s : EpollService K)
      → q.id ≡ p.id
      → stored p.id s.buff_man ≡ some (record { m_length = pos l; buffer = buffer } ∷ [])
      → 0 < length bytes
      → length buffer + length bytes < l
      → (t : EpollService K) × (write_to_buffer q bytes (handle_requests (renewal p q) s).1
          ≡ done ([], t))
        × (stored p.id t.buff_man
            ≡ some (record { m_length = pos l; buffer = buffer ++ bytes } ∷ []))
  unfolding handle_requests handle_request unsubscribe write_to_buffer
  write_to_buffer-handle_requests p q l buffer bytes s e held h k =
      let r =
        add_to_read_buffer-underway q.id l buffer bytes s.buff_man
          (ap (λ k. stored k s.buff_man) e ∙ held) h k in
      let deque : List ReadMsgState = record { m_length = pos l; buffer = buffer ++ bytes } ∷ [] in
      let u = (handle_requests (renewal p q) s).1 in
      let t : EpollService K = record u {
        buff_man = record s.buff_man { read_buffers = assign q.id deque s.buff_man.read_buffers };
      } in
      (
        t,
        rw (r, write_to_buffer) refl,
        ap (λ k. find k t.buff_man.read_buffers) (sym e)
            ∙ find-assign_self q.id deque s.buff_man.read_buffers,
      )
