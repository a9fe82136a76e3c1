-- ===== src/PeerService/Valid.antt =====
-- The tables of the peer service over its operations.
use fractals.Prelude.{
  ℕ, ◌+◌, ◌≡◌, subst, ◌∙◌, Bool, ◌&&◌, true, false, Option, none, some, List, [], ◌∷◌,
  if◌then◌else◌, ltb, Bool-cases, Option-cases, inl, inr, arith,
}
use fractals.Prelude.Int.{ℤ, pos, negsuc}
use fractals.Prelude.Eq.{Eq}
use fractals.Prelude.Map.{
  Map, find, contains, assign, erase, IsMap, IsMap-assign, IsMap-emplace, IsMap-erase, find-erase,
  find-erase_self, find-emplace,
}
use fractals.Prelude.Set.{insert, member}
use fractals.Message
use fractals.Message.{
  choke, unchoke, interested, not_interested, keep_alive, have, bitfield, request, piece, cancel,
  port, hand_shake, serialize_error,
}
use fractals.Encoder.{encode}
use fractals.Encoder.Decode.{decode, decode_hand_shake}
use fractals.PeerService.{
  PeerFd, PeerService, EpollServiceResponse, epoll_error, read_event_response, read_event,
  write_event_response, connection_accepted, ctl_response, connection_close_event, connection_error,
  Called, connect, write, read, read_active, check_parse_error, read_message, on_client_disconnect,
  activity_loop, activity_check, timeout,
}
use fractals.PeerService.Activity.{
  IsValid, activity_loop_lem, activity_check-asked, is_stale, asked,
}

-- The calls of the service that change it, with what they are given.
pub data Op (K : Type 0) : Type 0 where
  connects : Bool → ℤ → K → ℕ → Op K
  writes : Bool → K → Message.Message → ℕ → Op K
  reads : Bool → EpollServiceResponse K → ℕ → Op K
  checks : ℕ → Op K

module _ {K : Type 0} ⦃ek : Eq K⦄ where
  abbrev state_of : {R : Type 0} → Option (Called K R) → Option (PeerService K)
  state_of none = none
  state_of (some c) = some c.service

  abbrev pub new : PeerService K
  new = record { peer_fds = []; timestamps = []; hand_shaked = [] }

  -- `none`: the encoder throws, or the decoder reads past a buffer.
  unfoldable pub step : Op K → PeerService K → Option (PeerService K)
  step (connects active fd peer time) s = some ((connect active fd peer time s).service)
  step (writes active peer msg time) s = state_of (write active peer msg time s)
  step (reads active event time) s = state_of (read active event time s)
  step (checks now) s = some ((activity_check now s).service)

  unfoldable pub run : List (Op K) → PeerService K → Option (PeerService K)
  unfolding step
  run [] s = some s
  run (op ∷ ops) s = elim (step op s) [ none ↦ none | some t ↦ run ops t ]

  abbrev AllValid : Option (PeerService K) → Type 0
  AllValid none = Unit
  AllValid (some s) = IsValid s

  assign-IsValid :
      (peer : K) (time : ℕ) (s : PeerService K)
      → IsValid s
      → IsValid (record s { timestamps = assign peer time s.timestamps })
  assign-IsValid peer time s h = record {
    one_time = IsMap-assign peer time s.timestamps h.one_time;
    keyed = h.keyed;
  }

  erase-keyed :
      (peer : K) (m : Map K (PeerFd K))
      → ((k : K) (p : PeerFd K) → find k m ≡ some p → p.id ≡ k)
      → (k : K) (p : PeerFd K) → find k (erase peer m) ≡ some p
      → p.id ≡ k
  erase-keyed peer m h k p e = h k p (ground (arith, find-erase peer k m, e))

  connect-IsValid :
      (active : Bool) (fd : ℤ) (peer : K) (time : ℕ) (s : PeerService K)
      → IsValid s
      → IsValid ((connect active fd peer time s).service)
  unfolding connect contains
  connect-IsValid false fd peer time s h = h
  connect-IsValid true (negsuc n) peer time s h = record {
    one_time = h.one_time;
    keyed = erase-keyed peer s.peer_fds h.keyed;
  }
  connect-IsValid true (pos n) peer time s h = record {
    one_time = IsMap-emplace peer time s.timestamps h.one_time;
    keyed = λ k p e.
        let m = erase peer s.peer_fds in
        let fd : PeerFd K = record { id = peer; fd = pos n } in
        elim (Bool-cases (ek.beq peer k)) [
          | inl t ↦
              let g : find peer m ≡ none = find-erase_self peer s.peer_fds in
              let q : some fd ≡ some p =
                ground (arith, find-emplace peer k fd m, ek.beq_iff peer k, g, e, t) in
              let i : p.id ≡ peer = cc in i ∙ (ek.beq_iff peer k).0 t
          | inr f ↦
              erase-keyed peer s.peer_fds h.keyed k p
                (ground (arith, find-emplace peer k fd m, f, e))
        ];
  }

  on_client_disconnect-IsValid :
      (peer : K) (s : PeerService K) → IsValid s → IsValid (on_client_disconnect peer s)
  unfolding on_client_disconnect
  on_client_disconnect-IsValid peer s h = elim (Option-cases (find peer s.peer_fds)) [
    | inl n ↦ rw (n, on_client_disconnect) h
    | inr (p, e) ↦
        rw (e, on_client_disconnect)
          record {
            one_time = IsMap-erase peer s.timestamps h.one_time;
            keyed = erase-keyed peer s.peer_fds h.keyed;
          }
  ]

  check_parse_error-IsValid :
      (peer : K) (time : ℕ) (m : Message.Message) (s : PeerService K)
      → IsValid s
      → IsValid ((check_parse_error peer time m s).service)
  unfolding check_parse_error
  check_parse_error-IsValid peer time (serialize_error t) s h = h
  check_parse_error-IsValid peer time keep_alive s h = h
  check_parse_error-IsValid peer time choke s h = assign-IsValid peer time s h
  check_parse_error-IsValid peer time unchoke s h = assign-IsValid peer time s h
  check_parse_error-IsValid peer time interested s h = assign-IsValid peer time s h
  check_parse_error-IsValid peer time not_interested s h = assign-IsValid peer time s h
  check_parse_error-IsValid peer time (have t) s h = assign-IsValid peer time s h
  check_parse_error-IsValid peer time (bitfield t) s h = assign-IsValid peer time s h
  check_parse_error-IsValid peer time (request t) s h = assign-IsValid peer time s h
  check_parse_error-IsValid peer time (piece t) s h = assign-IsValid peer time s h
  check_parse_error-IsValid peer time (cancel t) s h = assign-IsValid peer time s h
  check_parse_error-IsValid peer time (port t) s h = assign-IsValid peer time s h
  check_parse_error-IsValid peer time (hand_shake t) s h = assign-IsValid peer time s h

  read_message-IsValid :
      (peer : K) (bytes : List ℕ) (time : ℕ) (s : PeerService K)
      → IsValid s
      → AllValid (state_of (read_message peer bytes time s))
  unfolding read_message
  read_message-IsValid peer bytes time s h = elim (Bool-cases (member peer s.hand_shaked)) [
    | inl t ↦ rw (t, read_message) (check_parse_error-IsValid peer time (decode bytes) s h)
    | inr f ↦ elim (Option-cases (decode_hand_shake bytes)) [
      | inl n ↦ rw (f, n, read_message) tt
      | inr (m, e) ↦
          rw (f, e, read_message)
            (check_parse_error-IsValid peer time m
              (record s { hand_shaked = insert peer s.hand_shaked })
              (record { one_time = h.one_time; keyed = h.keyed }))
    ]
  ]

  read_active-IsValid :
      (event : EpollServiceResponse K) (time : ℕ) (s : PeerService K)
      → IsValid s
      → AllValid (state_of (read_active event time s))
  unfolding read_active
  read_active-IsValid (epoll_error code) time s h = h
  read_active-IsValid (read_event_response p code) time s h = h
  read_active-IsValid (read_event p bytes) time s h = read_message-IsValid p.id bytes time s h
  read_active-IsValid (write_event_response p []) time s h = assign-IsValid p.id time s h
  read_active-IsValid (write_event_response p (c ∷ error)) time s h = h
  read_active-IsValid (connection_accepted p) time s h = assign-IsValid p.id time s h
  read_active-IsValid (ctl_response p []) time s h = h
  read_active-IsValid (ctl_response p (c ∷ error)) time s h = h
  read_active-IsValid (connection_close_event peer) time s h = on_client_disconnect-IsValid peer s h
  read_active-IsValid (connection_error peer code) time s h = on_client_disconnect-IsValid peer s h

  write-IsValid :
      (active : Bool) (peer : K) (m : Message.Message) (time : ℕ) (s : PeerService K)
      → IsValid s
      → AllValid (state_of (write active peer m time s))
  unfolding write
  write-IsValid false peer m time s h = h
  write-IsValid true peer m time s h = elim (Option-cases (find peer s.peer_fds)) [
    | inl n ↦ rw (n, write) h
    | inr (p, e) ↦ elim (Option-cases (encode m)) [
      | inl n ↦ rw (e, n, write) tt
      | inr (bytes, f) ↦ rw (e, f, write) (assign-IsValid peer time s h)
    ]
  ]

  read-IsValid :
      (active : Bool) (event : EpollServiceResponse K) (time : ℕ) (s : PeerService K)
      → IsValid s
      → AllValid (state_of (read active event time s))
  unfolding read
  read-IsValid false event time s h = h
  read-IsValid true event time s h = read_active-IsValid event time s h

  activity_loop-IsMap :
      (now : ℕ) (s : PeerService K) (m : Map K ℕ)
      → IsValid s
      → IsMap m
      → IsMap (activity_loop now s m).1
  unfolding activity_loop
  activity_loop-IsMap now s [] v h = tt
  activity_loop-IsMap now s ((k, t) ∷ m) v h =
      let ih = activity_loop-IsMap now s m v h.1 in
      elim (Bool-cases (ltb (t + timeout) now)) [
        | inl e ↦ rw (e, activity_loop) ih
        | inr e ↦
            rw (e, activity_loop) (ground (arith, (activity_loop_lem now s m k v h.1).0, h.0), ih)
      ]

  pub step-IsValid : (op : Op K) (s : PeerService K) → IsValid s → AllValid (step op s)
  unfolding step activity_check
  step-IsValid (connects active fd peer time) s h = connect-IsValid active fd peer time s h
  step-IsValid (writes active peer m time) s h = write-IsValid active peer m time s h
  step-IsValid (reads active event time) s h = read-IsValid active event time s h
  step-IsValid (checks now) s h = record {
    one_time = activity_loop-IsMap now s s.timestamps h h.one_time;
    keyed = h.keyed;
  }

  -- Every state that the operations reach from an empty service.
  pub run-IsValid : (ops : List (Op K)) (s : PeerService K) → IsValid s → AllValid (run ops s)
  unfolding run
  run-IsValid [] s h = h
  run-IsValid (op ∷ ops) s h = elim (Option-cases (step op s)) [
    | inl n ↦ rw (n, run) tt
    | inr (t, e) ↦ rw (e, run) (run-IsValid ops t (subst AllValid e (step-IsValid op s h)))
  ]

  -- In each state that calls of the service reach from an empty one, an activity check forgets
  -- exactly the timestamps that are more than ten seconds old, asks the epoll service to
  -- disconnect a peer exactly when its timestamp is that old and it has a connection, and leaves
  -- the table of connections.
  pub run-activity_check :
      (ops : List (Op K)) (s : PeerService K) (now : ℕ) (k : K)
      → run ops new ≡ some s
      → (find k (activity_check now s).service.timestamps
          ≡ (if is_stale now (find k s.timestamps) then none else find k s.timestamps))
        × (asked k (activity_check now s).requests
            ≡ (is_stale now (find k s.timestamps) && contains k s.peer_fds))
        × ((activity_check now s).service.peer_fds ≡ s.peer_fds)
  unfolding find
  run-activity_check ops s now k e = activity_check-asked now s k (
      subst AllValid e
        (run-IsValid ops new (record { one_time = tt; keyed = λ k p e. absurd (cc) })))
