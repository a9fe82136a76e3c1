-- ===== src/Examples/Managers.antt =====
-- A manager with one torrent and one peer.
use fractals.Prelude.{ℕ, ◌≡◌, ◌≢◌, refl, true, false, none, some, List, [], ◌∷◌, arith}
use fractals.Prelude.Eq.{nat_eq, list_eq}
use fractals.Prelude.Map.{find, contains, emplace, assign}
use fractals.Prelude.Set.{insert, member}
use fractals.Message.{unchoke}
use fractals.PieceStateManager
use fractals.PieceStateManager.{
  PieceModel, PieceStateManager, is_all_complete, populate, populate_pieces, populate_piece,
  populate_states, set_active,
}
use fractals.Protocol
use fractals.DiskIoService
use fractals.DiskIoService.{TorrentModel}
use fractals.PeerTracker.{
  Peer, not_connected, connecting, on_announce, activate_torrent, has_room, find_not_connected_peer,
  try_peer,
}
use fractals.BitTorrentManager.{
  BitTorrentManager, Outside, active, inactive, handle_message, process,
}
use fractals.BitTorrentManager.Queues.{
  Effect, Event, ResponseToApp, PersistRequest, AnnounceRequest,
}
use fractals.BitTorrentManager.Run.{run, empty, handle_message-run}
use fractals.BitTorrentManager.Start.{startup, started, run-startup}
use fractals.BitTorrentManager.Removal.{ConnectsGone, run-removal}

abbrev unset : Peer ℕ (List ℕ)
unset = record { connection = not_connected; peer = 0; torrent = []; has_connected_before = false }

-- Every peer can be connected to, or none.
abbrev reachable : Outside ℕ
reachable = record { connects = λ peer. true; erased = none; rehashes = false }

abbrev unreachable : Outside ℕ
unreachable = record { connects = λ peer. false; erased = some (7 ∷ []); rehashes = true }

abbrev sha1 : List ℕ → List ℕ
sha1 bytes = bytes

abbrev model : TorrentModel
model = record { torrent_hash = 7 ∷ []; torrent_dir = 1 ∷ [] }

abbrev one_piece : List PieceModel
one_piece = record { piece = 0; size = 4; hash = 9 ∷ []; complete = false } ∷ []

run-startup_example :
    (t : BitTorrentManager ℕ) × (run ℕ [] sha1 unset
        (startup ℕ [] sha1 unset reachable unreachable unreachable reachable
          (7 ∷ [])
          model
          []
          one_piece
          ((5 ∷ []) ∷ []))
        empty
      ≡ some (
        Effect.to_app (ResponseToApp.resumed_torrent (7 ∷ []))
            ∷ Effect.to_disk (DiskIoService.init_torrent model [])
            ∷ Effect.to_persist (PersistRequest.load_pieces (7 ∷ []))
            ∷ Effect.to_persist (PersistRequest.load_trackers (7 ∷ []))
            ∷ Effect.to_announce (AnnounceRequest.add_trackers (7 ∷ []) ((5 ∷ []) ∷ []))
            ∷ Effect.to_announce (AnnounceRequest.request_announce (7 ∷ []) model)
            ∷ [],
        t,
      ))
    × (find (7 ∷ []) t.piece_man ≡ some (populate one_piece (started {K = ℕ} (7 ∷ []) empty)))
    × (find (7 ∷ []) t.torrents ≡ some (record { model = model; is_complete = false }))
unfolding find is_all_complete populate insert member set_active
run-startup_example =
    run-startup ℕ [] sha1 unset reachable unreachable unreachable reachable (7 ∷ []) model []
      one_piece ((5 ∷ []) ∷ []) empty refl refl

-- A torrent whose peer 2 is connected.
abbrev announced : List (Outside ℕ × Event ℕ ℕ)
announced =
    (unreachable, Event.start_torrent (7 ∷ []) model [])
    ∷ (reachable, Event.announce (7 ∷ []) (2 ∷ []))
    ∷ []

abbrev downloading : BitTorrentManager ℕ
downloading = record {
  state = active;
  peer_tracker = record {
    curr_connected_peers = 0;
    peer_map = [];
    peers_info_map =
        (7 ∷ [], record { inactive_peers = []; active_peers = []; connected_count = 0 }) ∷ [];
    active_torrents = (7 ∷ []) ∷ [];
  };
  piece_man = (7 ∷ [], PieceStateManager.new) ∷ [];
  torrents = (7 ∷ [], record { model = model; is_complete = false }) ∷ [];
  connections = [];
}

run-removal_example :
    (effects : List (Effect ℕ ℕ)) × (b' : BitTorrentManager ℕ) × (process ℕ [] unreachable.connects
        sha1 unset unreachable.erased unreachable.rehashes
        (Event.remove_torrent (7 ∷ []))
        downloading
      ≡ some (effects, b'))
    × ConnectsGone ℕ [] reachable.connects (7 ∷ []) 2 b'
    × (run ℕ [] sha1 unset
          ((unreachable, Event.remove_torrent (7 ∷ []))
            ∷ (reachable, Event.announce (7 ∷ []) (2 ∷ []))
            ∷ [])
          downloading
        ≡ none)
unfolding find
run-removal_example =
    run-removal ℕ [] sha1 unset (7 ∷ []) 2
      (record { inactive_peers = []; active_peers = []; connected_count = 0 }) downloading
      unreachable reachable (λ k. refl) refl refl (omega arith) (omega arith)

-- What the events of `announced` lead to.
abbrev connected_peer : BitTorrentManager ℕ
connected_peer = record {
  state = inactive;
  peer_tracker = record {
    curr_connected_peers = 1;
    peer_map =
        (
          2,
          record {
            connection = connecting;
            peer = 2;
            torrent = 7 ∷ [];
            has_connected_before = false;
          },
        )
        ∷ [];
    peers_info_map =
        (7 ∷ [], record { inactive_peers = []; active_peers = 2 ∷ []; connected_count = 0 }) ∷ [];
    active_torrents = (7 ∷ []) ∷ [];
  };
  piece_man = (7 ∷ [], record PieceStateManager.new { active = true }) ∷ [];
  torrents = (7 ∷ [], record { model = model; is_complete = false }) ∷ [];
  connections = (2, Protocol.new [] (7 ∷ []) (record PieceStateManager.new { active = true })) ∷ [];
}

run-announced :
    run ℕ [] sha1 unset announced empty
    ≡ some (
      Effect.to_app (ResponseToApp.resumed_torrent (7 ∷ []))
          ∷ Effect.to_disk (DiskIoService.init_torrent model [])
          ∷ Effect.connect 2
          ∷ [],
      connected_peer,
    )
unfolding run process find emplace contains on_announce activate_torrent has_room
    find_not_connected_peer assign try_peer insert member set_active
run-announced = refl

handle_message-run_example :
    ((c : Protocol.Protocol)
      → find 2 connected_peer.connections ≡ some c
      → contains c.info_hash connected_peer.piece_man ≡ true)
    × (handle_message ℕ [] unreachable.connects sha1 2 unchoke connected_peer ≢ none)
handle_message-run_example =
    handle_message-run ℕ [] sha1 unset announced _ connected_peer unreachable.connects 2 unchoke
      run-announced
