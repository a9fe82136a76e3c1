-- ===== src/PeerService.antt =====
-- include/fractals/network/p2p/PeerService.h, PeerFd.h, PeerEvent.h and EpollServiceEvent.h: the
-- table of connections, between the manager and the epoll service. What `epollService.isActive()` and
-- `tcpService.connect` return are arguments, and so is the event that `queue.pop()` returns. The
-- events pushed to the epoll service are returned in order; `epollService.notify()`, which wakes it,
-- has no other effect. A time is a number of nanoseconds.
pub mod Wire
pub mod Activity
pub mod Valid
use fractals.Prelude.{
  ℕ, ◌+◌, ◌*◌, Bool, true, false, Option, none, some, List, [], ◌∷◌, ◌++◌, if◌then◌else◌, ltb,
}
use fractals.Prelude.Int.{ℤ, pos, negsuc}
use fractals.Prelude.Eq.{Eq}
use fractals.Prelude.Map.{Map, find, assign, emplace, erase}
use fractals.Prelude.Set.{member, insert, remove}
use fractals.Message
use fractals.Message.{serialize_error, keep_alive}
use fractals.Encoder.{encode}
use fractals.Encoder.Decode.{decode, decode_hand_shake}

-- `K` stands for `http::PeerId`.
pub record PeerFd (K : Type 0) : Type 0 where
  pub id : K
  pub fd : ℤ

-- `EpollServiceRequest`.
pub data EpollServiceRequest (K : Type 0) : Type 0 where
  write_event : PeerFd K → List ℕ → EpollServiceRequest K
  subscribe un_subscribe : PeerFd K → EpollServiceRequest K
  deactivate : EpollServiceRequest K

-- `EpollServiceResponse`. An error message is its characters, an error code a number.
pub data EpollServiceResponse (K : Type 0) : Type 0 where
  epoll_error : ℕ → EpollServiceResponse K
  read_event_response : PeerFd K → ℕ → EpollServiceResponse K
  read_event write_event_response : PeerFd K → List ℕ → EpollServiceResponse K
  connection_accepted : PeerFd K → EpollServiceResponse K
  ctl_response : PeerFd K → List ℕ → EpollServiceResponse K
  connection_close_event : K → EpollServiceResponse K
  connection_error : K → ℕ → EpollServiceResponse K

pub data PeerEvent (K : Type 0) : Type 0 where
  connection_established : K → PeerEvent K
  message : K → Message.Message → PeerEvent K
  connection_disconnected : K → PeerEvent K
  shut_down : PeerEvent K

pub record PeerService (K : Type 0) : Type 0 where
  pub peer_fds : Map K (PeerFd K)
  pub timestamps : Map K ℕ
  pub hand_shaked : List K

-- The value that a call returns, the events it pushes and the state after it.
pub record Called (K : Type 0) (R : Type 0) : Type 0 where
  pub result : R
  pub requests : List (EpollServiceRequest K)
  pub service : PeerService K

abbrev pub returned : {K R : Type 0} → R → PeerService K → Called K R
returned r s = record { result = r; requests = []; service = s }

abbrev pub can_read : Bool → ℕ → Bool
can_read active num_to_read = if ltb 0 num_to_read then active else false

-- `std::chrono::seconds(10)`.
abbrev pub timeout : ℕ
timeout = 10 * 1000000000

module _ {K : Type 0} ⦃ek : Eq K⦄ where
  unfoldable pub connect : Bool → ℤ → K → ℕ → PeerService K → Called K Bool
  connect false fd peer time s = returned false s
  connect true (negsuc n) peer time s =
      returned false
        (record s { peer_fds = erase peer s.peer_fds; hand_shaked = remove peer s.hand_shaked })
  connect true (pos n) peer time s =
      let peer_fd : PeerFd K = record { id = peer; fd = pos n } in
      record {
        result = true;
        requests = subscribe peer_fd ∷ [];
        service = record {
          peer_fds = emplace peer peer_fd (erase peer s.peer_fds);
          timestamps = emplace peer time s.timestamps;
          hand_shaked = remove peer s.hand_shaked;
        };
      }

  -- `none`: the encoder throws.
  unfoldable pub write : Bool → K → Message.Message → ℕ → PeerService K → Option (Called K Bool)
  write false peer msg time s = some (returned false s)
  write true peer msg time s = elim (find peer s.peer_fds) [
    | none ↦ some (returned false s)
    | some peer_fd ↦ elim (encode msg) [
      | none ↦ none
      | some bytes ↦ some (record {
        result = true;
        requests = write_event peer_fd bytes ∷ [];
        service = record s { timestamps = assign peer time s.timestamps };
      })
    ]
  ]

  -- Epoll tells that a client is disconnected.
  unfoldable pub on_client_disconnect : K → PeerService K → PeerService K
  on_client_disconnect peer s = elim (find peer s.peer_fds) [
    | none ↦ s
    | some peer_fd ↦ record {
      peer_fds = erase peer s.peer_fds;
      timestamps = erase peer s.timestamps;
      hand_shaked = remove peer s.hand_shaked;
    }
  ]

  -- Epoll is told to disconnect a client.
  unfoldable pub disconnect_client : K → PeerService K → List (EpollServiceRequest K)
  disconnect_client peer s = elim (find peer s.peer_fds) [
    | none ↦ []
    | some peer_fd ↦ un_subscribe peer_fd ∷ []
  ]

  -- `checkParseError`.
  unfoldable pub check_parse_error :
      K → ℕ → Message.Message → PeerService K → Called K (Option (PeerEvent K))
  check_parse_error peer time (serialize_error t) s =
      returned (some (connection_disconnected peer)) s
  check_parse_error peer time keep_alive s = returned (some (message peer keep_alive)) s
  check_parse_error peer time m s =
      returned (some (message peer m)) (record s { timestamps = assign peer time s.timestamps })

  -- The case of `ReadEvent`. `none`: the decoder reads past the end of the buffer.
  unfoldable pub read_message :
      K → List ℕ → ℕ → PeerService K → Option (Called K (Option (PeerEvent K)))
  unfolding check_parse_error
  read_message peer bytes time s =
      if member peer s.hand_shaked
      then some (check_parse_error peer time (decode bytes) s)
      else (elim (decode_hand_shake bytes) [
        | none ↦ none
        | some m ↦
            some
              (check_parse_error peer time m (record s { hand_shaked = insert peer s.hand_shaked }))
      ])

  abbrev stamped : K → ℕ → PeerService K → PeerService K
  stamped peer time s = record s { timestamps = assign peer time s.timestamps }

  abbrev closed : K → PeerService K → Called K (Option (PeerEvent K))
  closed peer s = record {
    result = some (connection_disconnected peer);
    requests = disconnect_client peer s;
    service = s;
  }

  -- The visitor of `read`, at the event that was popped.
  unfoldable pub read_active :
      EpollServiceResponse K → ℕ → PeerService K → Option (Called K (Option (PeerEvent K)))
  unfolding read_message on_client_disconnect disconnect_client
  read_active (epoll_error code) time s =
      some (record { result = some shut_down; requests = deactivate ∷ []; service = s })
  read_active (read_event_response p code) time s = some (closed p.id s)
  read_active (read_event p bytes) time s = read_message p.id bytes time s
  read_active (write_event_response p []) time s = some (returned none (stamped p.id time s))
  read_active (write_event_response p (c ∷ error)) time s = some (closed p.id s)
  read_active (connection_accepted p) time s =
      some (returned (some (connection_established p.id)) (stamped p.id time s))
  read_active (ctl_response p []) time s = some (returned none s)
  read_active (ctl_response p (c ∷ error)) time s = some (closed p.id s)
  read_active (connection_close_event peer) time s =
      some (returned (some (connection_disconnected peer)) (on_client_disconnect peer s))
  read_active (connection_error peer code) time s =
      some (returned (some (connection_disconnected peer)) (on_client_disconnect peer s))

  -- With no active epoll service no event is popped.
  unfoldable pub read :
      Bool → EpollServiceResponse K → ℕ → PeerService K → Option (Called K (Option (PeerEvent K)))
  unfolding read_active
  read false event time s = some (returned none s)
  read true event time s = read_active event time s

  -- The loop of `activityCheck`, with what is left of the timestamps.
  unfoldable pub activity_loop :
      ℕ → PeerService K → Map K ℕ → List (EpollServiceRequest K) × Map K ℕ
  unfolding disconnect_client
  activity_loop now s [] = ([], [])
  activity_loop now s ((peer, time) ∷ m) =
      let (requests, rest) = activity_loop now s m in
      if ltb (time + timeout) now
      then (disconnect_client peer s ++ requests, rest)
      else (requests, (peer, time) ∷ rest)

  -- The vector that it returns is never added to.
  unfoldable pub activity_check : ℕ → PeerService K → Called K (List K)
  unfolding activity_loop
  activity_check now s =
      let (requests, timestamps) = activity_loop now s s.timestamps in
      record { result = []; requests = requests; service = record s { timestamps = timestamps } }
