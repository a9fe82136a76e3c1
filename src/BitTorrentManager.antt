-- ===== src/BitTorrentManager.antt =====
-- include/fractals/network/p2p/BitTorrentManager.h, BitTorrentManager.ipp and EventHandlers.h: what
-- the manager does with each event. Its calls of the peer service and its pushes are returned in
-- order; what `peerService.connect` returns during an event is the parameter `connects`, and what the
-- tracker reads of an entry that it has erased is `erased`. Where an event adds connections, `rehashes`
-- says whether the table of connections makes the iterators into it invalid. All three may differ
-- from event to event. A `Protocol` holds a reference into the map of piece managers: here its field `repository` is read out of the map when a
-- message comes, and written back. `none` stands for the use of a map's end, of an iterator that is not valid, of a reference to an
-- erased piece manager, for a failed `assert` and for an exception of `at`. Time stamps are left out.
pub mod Queues
pub mod Values
pub mod Linked
pub mod Run
pub mod Handled
pub mod Removal
pub mod Start
use mathlib.Core.Option.{get_or}
use fractals.Prelude.{
  ℕ, Bool, true, false, Option, none, some, List, [], ◌∷◌, ◌++◌, if◌then◌else◌, map, length, ltb,
  ◌&&◌,
}
use fractals.Prelude.Eq.{Eq, list_eq, list_beq}
use fractals.Prelude.Map.{Map, find, contains, assign, emplace, erase}
use fractals.Message
use fractals.Message.{
  choke, unchoke, interested, not_interested, keep_alive, have, bitfield, request, piece, cancel,
  port, hand_shake, serialize_error,
}
use fractals.PieceStateManager
use fractals.PieceStateManager.{
  PieceStateManager, PieceModel, populate, is_all_complete, set_active,
}
use fractals.Protocol
use fractals.Protocol.{
  Protocol, ProtocolState, opened, closed, error, hash_check_fail, complete, WriteData, on_message,
  send_hand_shake,
}
use fractals.DiskIoService
use fractals.DiskIoService.{TorrentModel, FileModel}
use fractals.PeerService.{
  PeerEvent, connection_established, message, connection_disconnected, shut_down,
}
use fractals.PeerTracker
use fractals.PeerTracker.{
  PeerTracker, Peer, PeerCommand, try_connect, disconnect, do_announce, nothing, activate_torrent,
  deactivate_torrent, on_peer_connect, on_peer_disconnect, on_announce,
}
use fractals.PeerTracker.Torrent.{PeersInfo, get_known_peer_count}
use Queues.{Effect, Event, ResponseToApp, PersistRequest, AnnounceRequest}

pub data State : Type 0 where
  inactive active deactivating : State

pub record TorrentState : Type 0 where
  pub model : TorrentModel
  pub is_complete : Bool

-- `TorrentState{}`.
abbrev pub no_torrent : TorrentState
no_torrent = record { model = record { torrent_hash = []; torrent_dir = [] }; is_complete = false }

-- `K` stands for `http::PeerId`.
pub record BitTorrentManager (K : Type 0) : Type 0 where
  pub state : State
  pub peer_tracker : PeerTracker K (List ℕ)
  pub piece_man : Map (List ℕ) PieceStateManager
  pub torrents : Map (List ℕ) TorrentState
  pub connections : Map K Protocol

-- The effects of a call and the manager after it.
abbrev pub Ran : Type 0 → Type 0 → Type 0
Ran K M = Option (List (Effect K M) × BitTorrentManager K)

-- What a call does after others were made.
abbrev pub also : {K M : Type 0} → List (Effect K M) → Ran K M → Ran K M
also effects none = none
also effects (some (more, b)) = some (effects ++ more, b)

infixl 5 ◌>>=◌
-- One call after another, with the effects of both.
abbrev pub ◌>>=◌ : {K M : Type 0} → Ran K M → (BitTorrentManager K → Ran K M) → Ran K M
none >>= f = none
some (effects, b) >>= f = also effects (f b)

-- A call that only pushes.
abbrev pub does : {K M : Type 0} → List (Effect K M) → BitTorrentManager K → Ran K M
does effects b = some (effects, b)

-- `connections.erase` of each connection of a torrent.
unfoldable pub erase_connections : {K : Type 0} → List ℕ → Map K Protocol → Map K Protocol
erase_connections ih [] = []
erase_connections ih ((k, c) ∷ m) =
    let rest = erase_connections ih m in if list_beq c.info_hash ih then rest else (k, c) ∷ rest

module _ {K : Type 0} (M : Type 0) ⦃ek : Eq K⦄ (app_id : List ℕ) (connects : K → Bool) where
  unfoldable pub handle_command : PeerCommand K (List ℕ) → BitTorrentManager K → Ran K M
  handle_command (try_connect peer torrent) b =
      if connects peer
      then (elim (find torrent b.piece_man) [
        | none ↦ none
        | some pm ↦
            does (Effect.connect peer ∷ []) (record b {
              connections = emplace peer (Protocol.new app_id torrent pm) b.connections;
            })
      ])
      else does (Effect.connect peer ∷ []) b
  handle_command (do_announce torrent) b = elim (find torrent b.torrents) [
    | none ↦ none
    | some t ↦ does (Effect.to_announce (AnnounceRequest.request_announce torrent t.model) ∷ []) b
  ]
  handle_command (disconnect peer torrent) b = does (Effect.disconnect_client peer ∷ []) b
  handle_command nothing b = does [] b

  unfoldable pub handle_commands : List (PeerCommand K (List ℕ)) → BitTorrentManager K → Ran K M
  unfolding handle_command
  handle_commands [] b = does [] b
  handle_commands (c ∷ cmds) b = handle_command c b >>= handle_commands cmds

  -- `handlePeerCommands` of what a call of the tracker returns.
  unfoldable pub commanded :
      Option (List (PeerCommand K (List ℕ)) × PeerTracker K (List ℕ))
      → BitTorrentManager K
      → Ran K M
  unfolding handle_commands
  commanded none b = none
  commanded (some (cmds, t)) b = handle_commands cmds (record b { peer_tracker = t })

  unfoldable pub update_torrent_completed : List ℕ → BitTorrentManager K → Ran K M
  unfolding commanded
  update_torrent_completed ih b =
      let torrent = get_or (find ih b.torrents) no_torrent in
      if torrent.is_complete
      then does [] (record b { torrents = assign ih torrent b.torrents })
      else commanded (some (deactivate_torrent ih b.peer_tracker))
          (record b { torrents = assign ih (record torrent { is_complete = true }) b.torrents })
        >>= does (Effect.to_app (ResponseToApp.completed_torrent ih) ∷ [])

  -- `shutdown()`, which waits for nothing.
  unfoldable pub shutdown : BitTorrentManager K → Ran K M
  shutdown b = does (Effect.shutdown ∷ []) (record b { state = deactivating })

  abbrev forwarded : K → Protocol.Effect → Effect K M
  forwarded peer (Protocol.write m) = Effect.write peer m
  forwarded peer (Protocol.push w) = Effect.to_disk (DiskIoService.write_data w)

  -- What follows from the state that a peer's `Protocol` returns.
  unfoldable pub react : K → List ℕ → ProtocolState → BitTorrentManager K → Ran K M
  unfolding shutdown update_torrent_completed
  react peer ih opened b = does [] b
  react peer ih closed b = does (Effect.disconnect_client peer ∷ []) b
  react peer ih error b = shutdown b
  react peer ih hash_check_fail b = does (Effect.disconnect_client peer ∷ []) b
  react peer ih complete b =
      update_torrent_completed ih b >>= does (Effect.disconnect_client peer ∷ [])

  unfoldable pub process_remove_torrent : List ℕ → BitTorrentManager K → Ran K M
  unfolding erase_connections
  process_remove_torrent ih b = commanded (some (deactivate_torrent ih b.peer_tracker)) b >>= λ b.
      does
        (Effect.to_persist (PersistRequest.remove_torrent ih)
          ∷ Effect.to_announce (AnnounceRequest.delete_trackers ih)
          ∷ Effect.to_app (ResponseToApp.removed_torrent ih)
          ∷ [])
        (record b {
          piece_man = erase ih b.piece_man;
          torrents = erase ih b.torrents;
          connections = erase_connections ih b.connections;
        })

  unfoldable pub process_stop_torrent : List ℕ → BitTorrentManager K → Ran K M
  process_stop_torrent ih b = commanded (some (deactivate_torrent ih b.peer_tracker)) b >>= λ b.
      does
        (Effect.to_app (ResponseToApp.stopped_torrent ih)
          ∷ Effect.to_announce (AnnounceRequest.pause ih)
          ∷ [])
        (record b {
          piece_man =
              assign ih (set_active false (get_or (find ih b.piece_man) PieceStateManager.new))
                b.piece_man;
        })

  unfoldable pub process_start_torrent :
      List ℕ → TorrentModel → List FileModel → BitTorrentManager K → Ran K M
  process_start_torrent ih model files b =
      let torrents = emplace ih (record { model = model; is_complete = false }) b.torrents in
      let torrent = get_or (find ih torrents) no_torrent in
      if torrent.is_complete
      then does (Effect.to_app (ResponseToApp.completed_torrent ih) ∷ [])
          (record b { torrents = torrents })
      else does
          (Effect.to_app (ResponseToApp.resumed_torrent ih)
            ∷ Effect.to_disk (DiskIoService.init_torrent model files)
            ∷ [])
          (record b {
            torrents = torrents;
            peer_tracker = activate_torrent ih b.peer_tracker;
            piece_man =
                assign ih (set_active true (get_or (find ih b.piece_man) PieceStateManager.new))
                  b.piece_man;
          })

  -- The end of the map is read for a torrent that is not known.
  unfoldable pub process_resume_torrent : List ℕ → BitTorrentManager K → Ran K M
  process_resume_torrent ih b = elim (find ih b.torrents) [
    | none ↦ none
    | some torrent ↦
        if torrent.is_complete
        then does (Effect.to_app (ResponseToApp.completed_torrent ih) ∷ []) b
        else does
            (Effect.to_app (ResponseToApp.resumed_torrent ih)
              ∷ Effect.to_persist (PersistRequest.load_pieces ih)
              ∷ [])
            (record b {
              peer_tracker = activate_torrent ih b.peer_tracker;
              piece_man = elim (find ih b.piece_man) [
                | none ↦ b.piece_man
                | some pm ↦ assign ih (set_active true pm) b.piece_man
              ];
            })
  ]

  unfoldable pub process_shutdown : BitTorrentManager K → Ran K M
  process_shutdown b =
      does
        (Effect.to_announce AnnounceRequest.shutdown
          ∷ Effect.to_persist PersistRequest.shutdown
          ∷ Effect.to_disk DiskIoService.shutdown
          ∷ Effect.shutdown
          ∷ Effect.to_app ResponseToApp.shutdown_confirmation
          ∷ [])
        (record b { state = inactive })

  -- `at` throws for a torrent that the tracker does not know.
  unfoldable pub process_request_stats : List (ℕ × List ℕ) → BitTorrentManager K → Ran K M
  process_request_stats [] b = does [] b
  process_request_stats ((id, ih) ∷ requested) b = elim (find ih b.peer_tracker.peers_info_map) [
    | none ↦ none
    | some i ↦
        does
          (Effect.to_app (ResponseToApp.peer_stats id (get_known_peer_count i) i.connected_count)
            ∷ [])
          b
        >>= process_request_stats requested
  ]

  unfoldable pub process_pieces : List ℕ → List PieceModel → BitTorrentManager K → Ran K M
  process_pieces ih result b =
      let psm = populate result (get_or (find ih b.piece_man) PieceStateManager.new) in
      let b' : BitTorrentManager K = record b { piece_man = assign ih psm b.piece_man } in
      let completed = update_torrent_completed ih b' in
      if is_all_complete psm
      then completed
      else does (Effect.to_persist (PersistRequest.load_trackers ih) ∷ []) b'

  unfoldable pub process_trackers : List ℕ → List (List ℕ) → BitTorrentManager K → Ran K M
  process_trackers ih urls b = elim (find ih b.torrents) [
    | none ↦ does [] b
    | some torrent ↦
        does
          (Effect.to_announce (AnnounceRequest.add_trackers ih urls)
            ∷ Effect.to_announce (AnnounceRequest.request_announce ih torrent.model)
            ∷ [])
          b
  ]

abbrev pub is_serialize_error : Message.Message → Bool
is_serialize_error (serialize_error m) = true
is_serialize_error keep_alive = false
is_serialize_error choke = false
is_serialize_error unchoke = false
is_serialize_error interested = false
is_serialize_error not_interested = false
is_serialize_error (have m) = false
is_serialize_error (bitfield m) = false
is_serialize_error (request m) = false
is_serialize_error (piece m) = false
is_serialize_error (cancel m) = false
is_serialize_error (port m) = false
is_serialize_error (hand_shake m) = false

module _ {K : Type 0} (M : Type 0) ⦃ek : Eq K⦄ (app_id : List ℕ) (connects : K → Bool)
    (sha1 : List ℕ → List ℕ) where
  -- `forwardToPeer`, and what `handleMessage` does with its result.
  unfoldable pub forward_to_peer : K → Message.Message → BitTorrentManager K → Ran K M
  unfolding react
  forward_to_peer peer m b = elim (find peer b.connections) [
    | none ↦ react M app_id connects peer [] closed b
    | some c ↦ elim (find c.info_hash b.piece_man) [
      | none ↦ none
      | some pm ↦
          let r = on_message sha1 m (record c { repository = pm }) in
          does (map (forwarded M app_id connects peer) r.effects) (record b {
            connections = assign peer r.protocol b.connections;
            piece_man = assign c.info_hash r.protocol.repository b.piece_man;
          })
          >>= react M app_id connects peer c.info_hash r.state
    ]
  ]

  -- A `SerializeError` is passed over.
  unfoldable pub handle_message : K → Message.Message → BitTorrentManager K → Ran K M
  unfolding forward_to_peer
  handle_message peer m b =
      let forwarded = forward_to_peer peer m b in
      if is_serialize_error m then does [] b else forwarded

module _ {K : Type 0} (M : Type 0) ⦃ek : Eq K⦄ (app_id : List ℕ) (connects : K → Bool)
    (unset : Peer K (List ℕ)) (rehashes : Bool) where
  unfoldable pub process_connection_established : K → BitTorrentManager K → Ran K M
  process_connection_established peer b = elim (find peer b.connections) [
    | none ↦ does [] b
    | some c ↦
        commanded M app_id connects (on_peer_connect unset peer b.peer_tracker) b >>= λ after.
        let sent = does (forwarded M app_id connects peer (send_hand_shake c) ∷ []) after in
        if rehashes && ltb (length b.connections) (length after.connections) then none else sent
  ]

module _ {K : Type 0} (M : Type 0) ⦃ek : Eq K⦄ (app_id : List ℕ) (connects : K → Bool)
    (sha1 : List ℕ → List ℕ) (unset : Peer K (List ℕ)) (erased : Option (List ℕ))
    (rehashes : Bool) where
  unfoldable pub handle_peer_event : PeerEvent K → BitTorrentManager K → Ran K M
  unfolding handle_message process_connection_established
  handle_peer_event shut_down b = shutdown M app_id connects b
  handle_peer_event (connection_disconnected peer) b =
      commanded M app_id connects (on_peer_disconnect erased peer b.peer_tracker)
        (record b { connections = erase peer b.connections })
  handle_peer_event (connection_established peer) b =
      process_connection_established M app_id connects unset rehashes peer b
  handle_peer_event (message peer m) b = handle_message M app_id connects sha1 peer m b

  -- `process` of each event, as the handlers dispatch it.
  unfoldable pub process : Event K M → BitTorrentManager K → Ran K M
  unfolding process_remove_torrent process_stop_torrent process_start_torrent process_resume_torrent
      process_shutdown process_request_stats process_pieces process_trackers handle_peer_event
  process (Event.add_torrent path) b = does (Effect.to_disk (DiskIoService.read path) ∷ []) b
  process (Event.remove_torrent ih) b = process_remove_torrent M app_id connects ih b
  process (Event.stop_torrent ih) b = process_stop_torrent M app_id connects ih b
  process (Event.resume_torrent ih) b = process_resume_torrent M app_id connects ih b
  process (Event.start_torrent ih model files) b =
      process_start_torrent M app_id connects ih model files b
  process Event.shutdown b = process_shutdown M app_id connects b
  process (Event.request_stats requested) b = process_request_stats M app_id connects requested b
  process (Event.added_torrent torrent files) b =
      does (Effect.to_app (ResponseToApp.added_torrent torrent.torrent_hash torrent files) ∷ []) b
  process Event.torrent_exists b = does (Effect.to_app ResponseToApp.add_torrent_error ∷ []) b
  process (Event.pieces ih result) b = process_pieces M app_id connects ih result b
  process (Event.trackers ih urls) b = process_trackers M app_id connects ih urls b
  process Event.announces b = does [] b
  process (Event.read_success tm path) b =
      does (Effect.to_persist (PersistRequest.add_torrent tm path) ∷ []) b
  process Event.read_error b = does (Effect.to_app ResponseToApp.add_torrent_error ∷ []) b
  process Event.write_error b = does [] b
  process (Event.write_success ih piece_index) b =
      does (Effect.to_persist (PersistRequest.piece_complete ih piece_index) ∷ []) b
  process (Event.torrent_initialized ih) b =
      does (Effect.to_persist (PersistRequest.load_pieces ih) ∷ []) b
  process (Event.announce ih peers) b =
      commanded M app_id connects (on_announce ih peers b.peer_tracker) b
  process (Event.peer_event event) b = handle_peer_event event b

-- What is outside the manager during an event.
pub record Outside (K : Type 0) : Type 0 where
  pub connects : K → Bool
  pub erased : Option (List ℕ)
  pub rehashes : Bool

module _ {K : Type 0} (M : Type 0) ⦃ek : Eq K⦄ (app_id : List ℕ) (sha1 : List ℕ → List ℕ)
    (unset : Peer K (List ℕ)) where
  unfoldable pub process_next : Option (Outside K × Event K M) → BitTorrentManager K → Ran K M
  unfolding process
  process_next none b = does [] b
  process_next (some (o, event)) b =
      process M app_id o.connects sha1 unset o.erased o.rehashes event b

  -- `eval`: at most one event of each queue, in the order of the peers, the store, the announces, the
  -- disk and the client.
  unfoldable pub eval :
      (peer store announces disk client : Option (Outside K × Event K M))
      → BitTorrentManager K
      → Ran K M
  unfolding process_next
  eval peer store announces disk client b =
      process_next peer b
      >>= process_next store
      >>= process_next announces
      >>= process_next disk
      >>= process_next client
