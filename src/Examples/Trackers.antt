-- ===== src/Examples/Trackers.antt =====
-- A tracker with one torrent and two peers.
use fractals.Prelude.{
  ℕ, zero, suc, ◌≡◌, refl, Option, none, some, List, [], ◌∷◌, arith, false, true,
}
use fractals.Prelude.Eq.{nat_eq}
use fractals.PeerTracker.{PeerTracker, not_connected, connected, info, make_command}
use fractals.PeerTracker.Limits.{IsLimited, Serves}
use fractals.PeerTracker.Commands.{make_command-Serves}
use fractals.PeerTracker.Events.{disconnected, Ends, FailsToRead, handle, handle-Ends}

abbrev tracker : PeerTracker ℕ ℕ
tracker = record {
  curr_connected_peers = 1;
  peer_map =
      (1, record { connection = connected; peer = 1; torrent = 7; has_connected_before = true })
      ∷ (
        2,
        record { connection = not_connected; peer = 2; torrent = 7; has_connected_before = false },
      )
      ∷ [];
  peers_info_map =
      (7, record { inactive_peers = []; active_peers = 1 ∷ []; connected_count = 1 }) ∷ [];
  active_torrents = 7 ∷ [];
}

tracker-IsLimited : IsLimited tracker
unfolding info fractals.Prelude.Map.find
tracker-IsLimited = record { connections = omega arith; active = λ torrent. ground arith }

make_command-Serves_example : Serves tracker (make_command tracker)
make_command-Serves_example = make_command-Serves tracker tracker-IsLimited

handle-Ends_example :
    Ends (FailsToRead (disconnected (some 7) 1) tracker) (handle (disconnected (some 7) 1) tracker)
handle-Ends_example =
    handle-Ends (disconnected (some 7) 1) tracker tracker-IsLimited (λ p e. omega arith)
