-- ===== src/EpollService/Delivery.antt =====
-- From the bytes that a socket gives to the messages that the manager gets.
use fractals.Prelude.{
  ℕ, ◌+◌, ◌^◌, ◌<◌, ◌≡◌, ◌≢◌, ◌≤◌, refl, ap, sym, ◌∙◌, Bool, true, Option, none, some, Option-cases,
  inl, inr, length, length-map, List, [], ◌∷◌, ◌++◌, map, All, append-nil, append_assoc, arith,
}
use fractals.Prelude.Eq.{Eq}
use fractals.Prelude.Map.{emplace, find-assign_self, emplace_known}
use fractals.Prelude.Set.{member}
use fractals.Message
use fractals.Message.{IsWellFormed, get_len}
use fractals.Encoder.{encode}
use fractals.Encoder.RoundTrip.{IsWire}
use fractals.Encoder.Frames.{encode-Framed}
use fractals.BufferedQueueManager.{
  BufferedQueueManager, Outcome, done, thrown, out_of_fuel, add_to_read_buffer, get_read_buffers,
}
use fractals.BufferedQueueManager.Deque.{ReadMsgState}
use fractals.BufferedQueueManager.Frames.{frame, framed}
use fractals.BufferedQueueManager.Manager.{stored}
use fractals.BufferedQueueManager.Framing.{
  framed_all, stream, IsShort, Delivers, framed-IsIdle, add_to_read_buffer-stream,
}
use fractals.FullDuplexQueue.{FullDuplexQueue}
use fractals.FullDuplexQueue.Transfer.{right_pushes, left_pops, right_pushes-Holds, left_pops-Holds}
use fractals.WorkQueue.Ring.{Holds}
use fractals.PeerService.{
  PeerFd, PeerService, EpollServiceRequest, EpollServiceResponse, PeerEvent, read, read_event,
  message,
}
use fractals.PeerService.Wire.{read_all, read_all-encode}
use fractals.EpollService.{
  EpollService, Effect, push, flush_complete, flush_messages, write_to_buffer,
}

-- The frames that are in a deque behind others come out behind them.
flush_complete-framed_all :
    (bodies : List (List ℕ)) (dq : List ReadMsgState)
    → flush_complete (framed_all bodies dq)
      ≡ ((flush_complete dq).0 ++ map frame bodies, (flush_complete dq).1)
unfolding flush_complete
flush_complete-framed_all [] dq =
    ap (λ xs. (xs, (flush_complete dq).1)) (sym (append-nil (flush_complete dq).0))
flush_complete-framed_all (body ∷ bodies) dq =
    let e : flush_complete (framed body ∷ dq)
        ≡ ((flush_complete dq).0 ++ frame body ∷ [], (flush_complete dq).1) =
      rw (flush_complete, framed-IsIdle body dq) refl in
    flush_complete-framed_all bodies (framed body ∷ dq)
    ∙ ap (λ f. (f.0 ++ map frame bodies, f.1)) e
    ∙ ap (λ xs. (xs, (flush_complete dq).1))
        (append_assoc (flush_complete dq).0 (frame body ∷ []) (map frame bodies))

module _ {K : Type 0} ⦃ek : Eq K⦄ where
  flush_messages_lem :
      (p : PeerFd K) (q : BufferedQueueManager K) (s : EpollService K) (dq : List ReadMsgState)
      → stored p.id q ≡ some dq
      → ((flush_messages p q s).0 ≡ map (λ m. push (read_event p m)) (flush_complete dq).0)
        × (stored p.id (flush_messages p q s).1.buff_man ≡ some (flush_complete dq).1)
  unfolding flush_messages
  flush_messages_lem p q s dq e =
      let g : emplace p.id [] q.read_buffers ≡ q.read_buffers =
        emplace_known p.id [] dq q.read_buffers e in
      rw (flush_messages, get_read_buffers, g, e)
        (refl, find-assign_self p.id (flush_complete dq).1 q.read_buffers)

  -- Frames that arrive together, for a peer whose earlier messages were all passed on.
  write_to_buffer-stream :
      (p : PeerFd K) (bodies : List (List ℕ)) (s : EpollService K)
      → stored p.id s.buff_man ≡ some []
      → All IsShort bodies
      → bodies ≢ []
      → (t : EpollService K) × (write_to_buffer p (stream bodies) s
          ≡ done (map (λ m. push (read_event p m)) (map frame bodies), t))
        × (stored p.id t.buff_man ≡ some [])
  unfolding write_to_buffer flush_complete
  write_to_buffer-stream p bodies s e h ne =
      let d = add_to_read_buffer-stream p.id bodies s.buff_man [] e tt h ne in
      go (add_to_read_buffer p.id (stream bodies) s.buff_man) refl d
    where
      go :
          (o : Outcome (Bool × BufferedQueueManager K))
          → add_to_read_buffer p.id (stream bodies) s.buff_man ≡ o
          → Delivers p.id (framed_all bodies []) o
          → (t : EpollService K) × (write_to_buffer p (stream bodies) s
              ≡ done (map (λ m. push (read_event p m)) (map frame bodies), t))
            × (stored p.id t.buff_man ≡ some [])
      go (done (completed, q)) a (c, k) =
          let f = flush_messages_lem p q s (framed_all bodies []) k in
          let l = flush_complete-framed_all bodies [] in
          let w : write_to_buffer p (stream bodies) s ≡ done (flush_messages p q s) =
            rw (write_to_buffer, a, c) refl in
          (
            (flush_messages p q s).1,
            w
                ∙ ap (λ x. done (x, (flush_messages p q s).1))
                    (f.0 ∙ ap (λ y. map (λ m. push (read_event p m)) y.0) l),
            f.1 ∙ ap (λ y. some y.1) l,
          )
      go thrown a d = absurd d
      go out_of_fuel a d = absurd d

abbrev pub concat : List (List ℕ) → List ℕ
concat [] = []
concat (b ∷ bs) = b ++ concat bs

stream-concat : (bodies : List (List ℕ)) → stream bodies ≡ concat (map frame bodies)
stream-concat [] = refl
stream-concat (body ∷ bodies) = ap (◌++◌ (frame body)) (stream-concat bodies)

-- A message that is neither a handshake nor an error, with a size that an `int32_t` holds.
abbrev pub IsSent : Message.Message → Type 0
IsSent m = IsWellFormed m × IsWire m × (get_len m + 4 < 2 ^ 31)

bodies_of :
    (ms : List Message.Message) (bs : List (List ℕ))
    → map some bs ≡ map encode ms
    → All IsSent ms
    → (bodies : List (List ℕ)) × (bs ≡ map frame bodies) × All IsShort bodies
bodies_of [] [] e h = ([], refl, tt)
bodies_of [] (b ∷ bs) e h = absurd (cc)
bodies_of (m ∷ ms) [] e h = absurd (cc)
bodies_of (m ∷ ms) (b ∷ bs) e h =
    let e1 : some b ≡ encode m = cc in
    let e2 : map some bs ≡ map encode ms = cc in
    let (bodies, f, short) = bodies_of ms bs e2 h.1 in
    let (body, g, l) = encode-Framed m h.0.0 h.0.1 in
    let b1 : b ≡ frame body = let x : some b ≡ some (frame body) = e1 ∙ g in cc in
    (body ∷ bodies, cc, (omega (arith, h.0.2, l), short))

IsSent-IsWire :
    (ms : List Message.Message) → All IsSent ms → All (λ m. IsWellFormed m × IsWire m) ms
IsSent-IsWire [] h = tt
IsSent-IsWire (m ∷ ms) h = ((h.0.0, h.0.1), IsSent-IsWire ms h.1)

-- The events that an effect pushes, onto the queue whose right end the epoll service has.
abbrev pub pushed_events : {K : Type 0} → List (Effect K) → List (EpollServiceResponse K)
pushed_events [] = []
pushed_events (push event ∷ effects) = event ∷ pushed_events effects
pushed_events (Effect.add p ∷ effects) = pushed_events effects
pushed_events (Effect.enable_write p ∷ effects) = pushed_events effects
pushed_events (Effect.disable_write p ∷ effects) = pushed_events effects
pushed_events (Effect.erase p ∷ effects) = pushed_events effects
pushed_events (Effect.close fd ∷ effects) = pushed_events effects

-- `EPOLL_REQUEST_QUEUE_SIZE`.
abbrev pub queue_size : ℕ
queue_size = 256

module _ {K : Type 0} ⦃ek : Eq K⦄ where
  pushed_events-map :
      (p : PeerFd K) (bs : List (List ℕ))
      → pushed_events (map (λ b. push (read_event p b)) bs) ≡ map (read_event p) bs
  pushed_events-map p [] = refl
  pushed_events-map p (b ∷ bs) = ap (◌∷◌ (read_event p b)) (pushed_events-map p bs)

  -- The events that `read` returns for what the peer service pops, of which nothing lies outside the
  -- queue.
  unfoldable pub read_popped :
      ℕ
      → List (Option (EpollServiceResponse K))
      → PeerService K
      → Option (List (Option (PeerEvent K)))
  read_popped time [] s = some []
  read_popped time (none ∷ rest) s = none
  read_popped time (some event ∷ rest) s = elim (read true event time s) [
    | none ↦ none
    | some c ↦ elim (read_popped time rest c.service) [
      | none ↦ none
      | some events ↦ some (c.result ∷ events)
    ]
  ]

  read_popped-read_all :
      (p : PeerFd K) (time : ℕ) (bs : List (List ℕ)) (s : PeerService K)
      → read_popped time (map some (map (read_event p) bs)) s ≡ read_all p time bs s
  unfolding read_all read_popped
  read_popped-read_all p time [] s = refl
  read_popped-read_all p time (b ∷ bs) s = elim (Option-cases (read true (read_event p b) time s)) [
    | inl n ↦ rw (n, read_all, read_popped) refl
    | inr (c, e) ↦
        rw (e, read_all, read_popped) (rw (read_popped-read_all p time bs c.service) refl)
  ]

  -- The queue between the services carries what is pushed, if it has room for that.
  read_popped-pushes :
      (p : PeerFd K) (time : ℕ) (bs : List (List ℕ)) (r : PeerService K)
      (d : FullDuplexQueue (EpollServiceRequest K) (EpollServiceResponse K))
      → Holds queue_size d.right_queue []
      → length bs ≤ queue_size
      → read_popped time
          (left_pops queue_size
            (length bs)
            (right_pushes queue_size (pushed_events (map (λ b. push (read_event p b)) bs)) d))
          r
        ≡ read_all p time bs r
  read_popped-pushes p time bs r d h room =
      let events = map (read_event p) bs in
      let popped : left_pops queue_size (length events) (right_pushes queue_size events d)
          ≡ map some events =
        left_pops-Holds queue_size (omega arith) (omega arith) events
          (right_pushes queue_size events d)
          (right_pushes-Holds queue_size (omega arith) (omega arith) events [] d h
            (omega (arith, room, length-map bs (read_event p)))) in
      ap
        (λ es. read_popped time (left_pops queue_size (length bs) (right_pushes queue_size es d)) r)
        (pushed_events-map p bs)
      ∙ ap (λ n. read_popped time (left_pops queue_size n (right_pushes queue_size events d)) r)
          (sym (length-map bs (read_event p)))
      ∙ ap (λ es. read_popped time es r) popped
      ∙ read_popped-read_all p time bs r

  -- At most 256 well-formed messages, one at least, no handshake and no error among them and each
  -- with a length below 2 ^ 31 - 4, whose encodings arrive in one piece from a peer that has
  -- shaken hands and of which no bytes are held, are pushed by the epoll service onto its queue of
  -- 256 slots, which is empty before; the peer service pops them at the other end and reads them
  -- as those messages, in order, and no bytes are held.
  pub read_popped-write_to_buffer :
      (p : PeerFd K) (ms : List Message.Message) (bs : List (List ℕ)) (time : ℕ)
      (s : EpollService K) (r : PeerService K)
      (d : FullDuplexQueue (EpollServiceRequest K) (EpollServiceResponse K))
      → map some bs ≡ map encode ms
      → ms ≢ []
      → length ms ≤ queue_size
      → Holds queue_size d.right_queue []
      → All IsSent ms
      → stored p.id s.buff_man ≡ some []
      → member p.id r.hand_shaked ≡ true
      → (effects : List (Effect K)) × (t : EpollService K) × (write_to_buffer p (concat bs) s
          ≡ done (effects, t))
        × (stored p.id t.buff_man ≡ some [])
        × (read_popped time
              (left_pops queue_size (length ms) (right_pushes queue_size (pushed_events effects) d))
              r
            ≡ some (map (λ m. some (message p.id m)) ms))
  read_popped-write_to_buffer p ms bs time s r d e ne small empty h idle shaken =
      let count : length bs ≡ length ms =
        sym (length-map bs some) ∙ ap length e ∙ length-map ms encode in
      let (bodies, f, short) = bodies_of ms bs e h in
      let filled : bodies ≢ [] = λ z. ne (
        let n : map encode ms ≡ [] = sym e ∙ ap (map some) (f ∙ ap (map frame) z) in
        nonempty ms n) in
      let (t, w, k) = write_to_buffer-stream p bodies s idle short filled in
      (
        map (λ b. push (read_event p b)) bs,
        t,
        ap (λ x. write_to_buffer p x s) (ap concat f ∙ sym (stream-concat bodies))
            ∙ w
            ∙ ap (λ x. done (map (λ b. push (read_event p b)) x, t)) (sym f),
        k,
        ap
              (λ n.
                read_popped time
                  (left_pops queue_size n (
                    right_pushes queue_size (pushed_events (map (λ b. push (read_event p b)) bs))
                      d))
                  r)
              (sym count)
            ∙ read_popped-pushes p time bs r d empty (omega (arith, count, small))
            ∙ read_all-encode p time ms r (IsSent-IsWire ms h) shaken bs e,
      )
    where
      nonempty : (ms : List Message.Message) → map encode ms ≡ [] → ms ≡ []
      nonempty [] e = refl
      nonempty (m ∷ ms) e = absurd (cc)
