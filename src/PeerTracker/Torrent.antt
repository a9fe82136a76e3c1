-- ===== src/PeerTracker/Torrent.antt =====
-- `PeersInfo` of PeerTracker.h: the peers of one torrent that were tried.
use fractals.Prelude.{ℕ, ◌+◌, ◌%◌, ◌^◌, List, [], ◌∷◌, length}
use fractals.Prelude.Eq.{Eq}
use fractals.Prelude.Set.{insert, remove}

pub record PeersInfo (K : Type 0) : Type 0 where
  pub inactive_peers : List K
  pub active_peers : List K
  pub connected_count : ℕ

abbrev pub no_info : {K : Type 0} → PeersInfo K
no_info = record { inactive_peers = []; active_peers = []; connected_count = 0 }

unfoldable pub get_known_peer_count : {K : Type 0} → PeersInfo K → ℕ
get_known_peer_count i = (length i.inactive_peers + length i.active_peers) % 2 ^ 16

unfoldable pub get_active_peer_count : {K : Type 0} → PeersInfo K → ℕ
get_active_peer_count i = length i.active_peers % 2 ^ 16

unfoldable pub incr_connected : {K : Type 0} → PeersInfo K → PeersInfo K
incr_connected i = record i { connected_count = (i.connected_count + 1) % 2 ^ 16 }

module _ {K : Type 0} ⦃e : Eq K⦄ where
  unfoldable pub add_active_peer : K → PeersInfo K → PeersInfo K
  add_active_peer k i = record i { active_peers = insert k i.active_peers }

  unfoldable pub make_inactive : K → PeersInfo K → PeersInfo K
  make_inactive k i = record i {
    inactive_peers = insert k i.inactive_peers;
    active_peers = remove k i.active_peers;
  }

  insert_all : List K → List K → List K
  insert_all [] s = s
  insert_all (k ∷ ks) s = insert_all ks (insert k s)

  unfoldable pub make_all_inactive : PeersInfo K → PeersInfo K
  unfolding insert_all
  make_all_inactive i = record i {
    inactive_peers = insert_all i.active_peers i.inactive_peers;
    active_peers = [];
  }
