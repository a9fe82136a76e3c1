-- ===== src/PeerTracker.antt =====
-- include/fractals/network/p2p/PeerTracker.h and src/fractals/network/p2p/PeerTracker.cpp: the known
-- peers, and the commands that keep enough of them connected. A `uint16_t` counter wraps. After
-- `peerMap.erase(peer)`, `onPeerDisconnect` reads the torrent out of the erased entry, which is
-- undefined: what that gives is an argument, any torrent, or `none` where the read itself fails.
pub mod Torrent
pub mod Limits
pub mod Commands
pub mod Events
use mathlib.Core.Option.{get_or}
use fractals.Prelude.{
  ℕ, zero, suc, ◌+◌, ◌-◌, ◌%◌, ◌^◌, Bool, true, false, not, ◌&&◌, Option, none, some, List, [], ◌∷◌,
  ◌++◌, if◌then◌else◌, ltb, length, map,
}
use fractals.Prelude.Eq.{Eq}
use fractals.Prelude.Map.{Map, find, contains, assign, emplace, erase}
use fractals.Prelude.Set.{member, insert, remove}
use Torrent.{
  PeersInfo, no_info, get_active_peer_count, incr_connected, add_active_peer, make_inactive,
  make_all_inactive,
}

pub data PeerConnection : Type 0 where
  not_connected connecting connected : PeerConnection

-- `K` stands for `http::PeerId` and `H` for `common::InfoHash`.
pub record Peer (K : Type 0) (H : Type 0) : Type 0 where
  pub connection : PeerConnection
  pub peer : K
  pub torrent : H
  pub has_connected_before : Bool

pub record PeerTracker (K : Type 0) (H : Type 0) : Type 0 where
  pub curr_connected_peers : ℕ
  pub peer_map : Map K (Peer K H)
  pub peers_info_map : Map H (PeersInfo K)
  pub active_torrents : List H

-- The alternatives of `PeerCommandFlag` with the fields that each is given.
pub data PeerCommand (K : Type 0) (H : Type 0) : Type 0 where
  try_connect disconnect : K → H → PeerCommand K H
  do_announce : H → PeerCommand K H
  nothing : PeerCommand K H

abbrev pub max_connected_peers : ℕ
max_connected_peers = 200

abbrev pub max_peers_per_torrent : ℕ
max_peers_per_torrent = 20

abbrev pub new : {K H : Type 0} → PeerTracker K H
new = record { curr_connected_peers = 0; peer_map = []; peers_info_map = []; active_torrents = [] }

abbrev pub is_fresh : {K H : Type 0} → Peer K H → Bool
is_fresh p = elim p.connection [
  | not_connected ↦ not p.has_connected_before
  | connecting ↦ false
  | connected ↦ false
]

-- `findNotConnectedPeer` does not use its argument: the first peer of any torrent is taken. It is
-- returned with the map after `peer->connected = CONNECTING`, which writes to the entry found.
unfoldable pub find_not_connected_peer :
    {K H : Type 0} → Map K (Peer K H) → Option (Peer K H × Map K (Peer K H))
find_not_connected_peer [] = none
find_not_connected_peer ((k, p) ∷ m) =
    let rest = find_not_connected_peer m in
    if is_fresh p
    then some (p, (k, record p { connection = connecting }) ∷ m)
    else elim rest [ none ↦ none | some (found, m') ↦ some (found, (k, p) ∷ m') ]

module _ {K H : Type 0} ⦃ek : Eq K⦄ ⦃eh : Eq H⦄ where
  -- `peersInfoMap[torrent]`, and a change of it in place.
  unfoldable pub info : H → PeerTracker K H → PeersInfo K
  info torrent t = get_or (find torrent t.peers_info_map) no_info

  unfoldable pub change_info : H → (PeersInfo K → PeersInfo K) → PeerTracker K H → PeerTracker K H
  unfolding info
  change_info torrent f t = record t {
    peers_info_map = assign torrent (f (info torrent t)) t.peers_info_map;
  }

  unfoldable pub activate_torrent : H → PeerTracker K H → PeerTracker K H
  activate_torrent ih t = record t {
    active_torrents = insert ih t.active_torrents;
    peers_info_map = emplace ih no_info t.peers_info_map;
  }

  unfoldable pub deactivate_torrent : H → PeerTracker K H → List (PeerCommand K H) × PeerTracker K H
  unfolding change_info
  deactivate_torrent ih t = (
    map (λ k. disconnect k ih) (info ih t).active_peers,
    change_info ih (λ i. i) (record t { active_torrents = remove ih t.active_torrents }),
  )

  -- The condition of the loop of `makeCommandFor`.
  unfoldable pub has_room : H → PeerTracker K H → Bool
  unfolding info get_active_peer_count
  has_room torrent t =
      ltb (get_active_peer_count (info torrent t)) max_peers_per_torrent
      && ltb t.curr_connected_peers max_connected_peers

  -- A round of the loop that has found a peer; `m` is the map with the peer marked.
  unfoldable pub try_peer : H → Peer K H → Map K (Peer K H) → PeerTracker K H → PeerTracker K H
  unfolding change_info add_active_peer
  try_peer torrent p m t =
      change_info torrent (add_active_peer p.peer)
        (record t { peer_map = m; curr_connected_peers = (t.curr_connected_peers + 1) % 2 ^ 16 })

  -- The loop. `none`: the fuel is spent.
  unfoldable pub connect_loop :
      ℕ → H → PeerTracker K H → Option (List (PeerCommand K H) × PeerTracker K H)
  connect_loop zero torrent t = none
  connect_loop (suc fuel) torrent t =
      if has_room torrent t
      then elim (find_not_connected_peer t.peer_map) [
        | none ↦ some ([], t)
        | some (p, m) ↦ elim (connect_loop fuel torrent (try_peer torrent p m t)) [
          | none ↦ none
          | some (cmds, t') ↦ some (try_connect p.peer torrent ∷ cmds, t')
        ]
      ]
      else some ([], t)

  unfoldable pub request_announce : H → PeerTracker K H → PeerCommand K H
  request_announce torrent t =
      if member torrent t.active_torrents then do_announce torrent else nothing

  -- The end of `makeCommandFor`.
  unfoldable pub or_announce : H → List (PeerCommand K H) → PeerTracker K H → List (PeerCommand K H)
  unfolding request_announce info get_active_peer_count
  or_announce torrent [] t =
      if ltb (get_active_peer_count (info torrent t)) max_peers_per_torrent
      then request_announce torrent t ∷ []
      else []
  or_announce torrent (cmd ∷ cmds) t = cmd ∷ cmds

  -- Each round marks a peer, so one round more than there are peers is enough fuel.
  unfoldable pub make_command_for :
      H → PeerTracker K H → Option (List (PeerCommand K H) × PeerTracker K H)
  unfolding connect_loop or_announce
  make_command_for torrent t = elim (connect_loop (suc (length t.peer_map)) torrent t) [
    | none ↦ none
    | some (cmds, t') ↦ some (or_announce torrent cmds t', t')
  ]

  -- The loop of `makeCommand` over the torrents, in the order of the map.
  unfoldable pub command_loop :
      List H → PeerTracker K H → Option (List (PeerCommand K H) × PeerTracker K H)
  unfolding make_command_for
  command_loop [] t = some ([], t)
  command_loop (torrent ∷ torrents) t = elim (make_command_for torrent t) [
    | none ↦ none
    | some (cmds, t') ↦ elim (command_loop torrents t') [
      | none ↦ none
      | some (later, t'') ↦ some (cmds ++ later, t'')
    ]
  ]

  unfoldable pub make_command : PeerTracker K H → Option (List (PeerCommand K H) × PeerTracker K H)
  unfolding command_loop
  make_command t = command_loop (map (λ entry. entry.0) t.peers_info_map) t

  -- What `onPeerDisconnect` and `onPeerConnect` end in.
  unfoldable pub command_if_active :
      H → PeerTracker K H → Option (List (PeerCommand K H) × PeerTracker K H)
  unfolding make_command
  command_if_active torrent t =
      if member torrent t.active_torrents then make_command t else some ([], t)

  -- The tables after a disconnect of a peer that has the entry `p`.
  unfoldable pub forget_peer : K → Peer K H → PeerTracker K H → PeerTracker K H
  unfolding change_info make_inactive
  forget_peer k p t =
      let t' = change_info p.torrent (make_inactive k) t in
      record t' {
        peer_map = erase k t'.peer_map;
        curr_connected_peers = (t'.curr_connected_peers + 2 ^ 16 - 1) % 2 ^ 16;
      }

  -- What follows the erasure is about `torrent`, as it is read. The message that is logged adds its
  -- peers where it has none.
  unfoldable pub after_erase :
      Option H → PeerTracker K H → Option (List (PeerCommand K H) × PeerTracker K H)
  unfolding change_info command_if_active
  after_erase none t = none
  after_erase (some torrent) t = command_if_active torrent (change_info torrent (λ i. i) t)

  unfoldable pub on_peer_disconnect :
      Option H → K → PeerTracker K H → Option (List (PeerCommand K H) × PeerTracker K H)
  unfolding forget_peer after_erase
  on_peer_disconnect erased k t = elim (find k t.peer_map) [
    | none ↦ some ([], t)
    | some p ↦ after_erase erased (forget_peer k p t)
  ]

  -- `peerMap[peer]` adds the entry `unset` for a peer that has none.
  unfoldable pub on_peer_connect :
      Peer K H → K → PeerTracker K H → Option (List (PeerCommand K H) × PeerTracker K H)
  unfolding change_info incr_connected command_if_active
  on_peer_connect unset k t =
      let p = get_or (find k t.peer_map) unset in
      let p' = record p { connection = connected; has_connected_before = true } in
      command_if_active p.torrent
        (change_info p.torrent incr_connected (record t { peer_map = assign k p' t.peer_map }))

  unfoldable pub add_peers : H → List K → Map K (Peer K H) → Map K (Peer K H)
  add_peers torrent [] m = m
  add_peers torrent (k ∷ peers) m =
      let p : Peer K H = record {
        connection = not_connected;
        peer = k;
        torrent = torrent;
        has_connected_before = false;
      } in
      add_peers torrent peers (if contains k m then m else assign k p m)

  -- `onAnnounce` of an announce for `torrent` that lists `peers`.
  unfoldable pub on_announce :
      H → List K → PeerTracker K H → Option (List (PeerCommand K H) × PeerTracker K H)
  unfolding add_peers change_info make_all_inactive make_command
  on_announce torrent peers t =
      let t' : PeerTracker K H = record t { peer_map = add_peers torrent peers t.peer_map } in
      make_command (
        if contains torrent t'.peers_info_map then t' else change_info torrent make_all_inactive t')
