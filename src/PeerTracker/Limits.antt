-- ===== src/PeerTracker/Limits.antt =====
-- The limits of PeerTracker.cpp: 200 connections, and 20 peers of a torrent.
use fractals.Prelude.{
  ℕ, zero, suc, ◌+◌, ◌≤◌, ◌<◌, ◌≡◌, subst, true, Option, none, some, List, [], ◌∷◌, if◌then◌else◌,
  length, arith, Bool-cases, Option-cases, inl, inr,
}
use fractals.Prelude.Eq.{Eq}
use fractals.Prelude.Map.{Map, find-assign}
use fractals.Prelude.Set.{insert}
use fractals.PeerTracker.{
  PeerTracker, Peer, connecting, PeerCommand, try_connect, disconnect, do_announce, nothing,
  max_connected_peers, max_peers_per_torrent, is_fresh, find_not_connected_peer, info, change_info,
  has_room, try_peer, connect_loop,
}
use fractals.PeerTracker.Torrent.{PeersInfo, get_active_peer_count, add_active_peer}

abbrev pub fresh : {K H : Type 0} → Map K (Peer K H) → ℕ
fresh [] = 0
fresh ((k, p) ∷ m) = (if is_fresh p then 1 else 0) + fresh m

pub fresh-length : {K H : Type 0} (m : Map K (Peer K H)) → fresh m ≤ length m
fresh-length [] = omega arith
fresh-length ((k, p) ∷ m) = ground (arith, fresh-length m)

-- Marking the peer found leaves one fresh peer less.
abbrev IsMarked : {K H : Type 0} → Map K (Peer K H) → Option (Peer K H × Map K (Peer K H)) → Type 0
IsMarked m none = Unit
IsMarked m (some (p, m')) = fresh m ≡ suc (fresh m')

find_not_connected_peer-IsMarked :
    {K H : Type 0} (m : Map K (Peer K H)) → IsMarked m (find_not_connected_peer m)
unfolding find_not_connected_peer
find_not_connected_peer-IsMarked [] = tt
find_not_connected_peer-IsMarked ((k, q) ∷ m) = elim (Bool-cases (is_fresh q)) [
  | inl e ↦
      subst (IsMarked ((k, q) ∷ m)) {x = some (q, (k, record q { connection = connecting }) ∷ m)}
        (rw (find_not_connected_peer, e)) (rw e (omega arith))
  | inr e ↦ elim (Option-cases (find_not_connected_peer m)) [
    | inl f ↦ subst (IsMarked ((k, q) ∷ m)) {x = none} (rw (find_not_connected_peer, e, f)) tt
    | inr ((p, m'), f) ↦
        let found = subst (IsMarked m) f (find_not_connected_peer-IsMarked m) in
        subst (IsMarked ((k, q) ∷ m)) {x = some (p, (k, q) ∷ m')}
          (rw (find_not_connected_peer, e, f)) (rw e (omega arith))
  ]
]

-- The tries among the commands.
abbrev pub tries : {K H : Type 0} → List (PeerCommand K H) → ℕ
tries [] = 0
tries (try_connect k h ∷ cmds) = 1 + tries cmds
tries (disconnect k h ∷ cmds) = tries cmds
tries (do_announce h ∷ cmds) = tries cmds
tries (nothing ∷ cmds) = tries cmds

length-insert : {K : Type 0} ⦃e : Eq K⦄ (k : K) (s : List K) → length (insert k s) ≤ suc (length s)
unfolding insert
length-insert k s = ground arith

module _ {K H : Type 0} ⦃ek : Eq K⦄ ⦃eh : Eq H⦄ where
  pub record IsLimited (t : PeerTracker K H) : Type 0 where
    pub connections : t.curr_connected_peers ≤ max_connected_peers
    pub active : (torrent : H) → length (info torrent t).active_peers ≤ max_peers_per_torrent

  pub info-change_info :
      (torrent other : H) (f : PeersInfo K → PeersInfo K) (t : PeerTracker K H)
      → info other (change_info torrent f t)
        ≡ (if eh.beq torrent other then f (info torrent t) else info other t)
  unfolding info change_info
  info-change_info torrent other f t =
      ground (arith, find-assign torrent other (f (info torrent t)) t.peers_info_map)

  try_peer-IsLimited :
      (torrent : H) (p : Peer K H) (m : Map K (Peer K H)) (t : PeerTracker K H)
      → IsLimited t
      → has_room torrent t ≡ true
      → IsLimited (try_peer torrent p m t)
  unfolding try_peer has_room get_active_peer_count add_active_peer
  try_peer-IsLimited torrent p m t h room = record {
    connections = ground arith;
    active = λ other. rw (info-change_info torrent other (add_active_peer p.peer) t) (
        ground (
          arith,
          h.active torrent,
          h.active other,
          length-insert p.peer (info torrent t).active_peers,
        ));
  }

  -- What a run of the commands leads to: it ends, within the limits; the number of tries is what is
  -- added to the connections and what the fresh peers lose.
  pub record IsServed (t : PeerTracker K H) (cmds : List (PeerCommand K H)) (t' : PeerTracker K H)
      : Type 0 where
    pub limited : IsLimited t'
    pub counted : t'.curr_connected_peers ≡ t.curr_connected_peers + tries cmds
    pub taken : fresh t.peer_map ≡ fresh t'.peer_map + tries cmds

  unfoldable pub Serves :
      PeerTracker K H → Option (List (PeerCommand K H) × PeerTracker K H) → Type 0
  Serves t none = ⊥
  Serves t (some (cmds, t')) = IsServed t cmds t'

  pub nothing_done : (t : PeerTracker K H) → IsLimited t → IsServed t [] t
  nothing_done t h = record { limited = h; counted = omega arith; taken = omega arith }

  -- A peer was found and marked, and the rest of the loop follows.
  one_more :
      (torrent : H) (p : Peer K H) (m : Map K (Peer K H)) (t : PeerTracker K H)
      (o : Option (List (PeerCommand K H) × PeerTracker K H))
      → IsLimited t
      → fresh t.peer_map ≡ suc (fresh m)
      → Serves (try_peer torrent p m t) o
      → Serves t
          (elim o [ none ↦ none | some (cmds, t') ↦ some (try_connect p.peer torrent ∷ cmds, t') ])
  unfolding try_peer Serves
  one_more torrent p m t none h e s = s
  one_more torrent p m t (some (cmds, t')) h e s = record {
    limited = s.limited;
    counted = omega (arith, s.counted, h.connections);
    taken = omega (arith, s.taken);
  }

  pub connect_loop-Serves :
      (fuel : ℕ) (torrent : H) (t : PeerTracker K H)
      → fresh t.peer_map < fuel
      → IsLimited t
      → Serves t (connect_loop fuel torrent t)
  unfolding connect_loop Serves try_peer
  connect_loop-Serves zero torrent t enough h = absurd (omega arith)
  connect_loop-Serves (suc fuel) torrent t enough h = elim (Bool-cases (has_room torrent t)) [
    | inr full ↦
        subst (Serves t) {x = some ([], t)} {y = connect_loop (suc fuel) torrent t}
          (rw (connect_loop, full)) (nothing_done t h)
    | inl room ↦ elim (Option-cases (find_not_connected_peer t.peer_map)) [
      | inl none_left ↦
          subst (Serves t) {x = some ([], t)} {y = connect_loop (suc fuel) torrent t}
            (rw (connect_loop, room, none_left)) (nothing_done t h)
      | inr ((p, m), found) ↦
          let less : fresh t.peer_map ≡ suc (fresh m) =
            subst (IsMarked t.peer_map) found (find_not_connected_peer-IsMarked t.peer_map) in
          subst (Serves t) {y = connect_loop (suc fuel) torrent t} (rw (connect_loop, room, found))
            (one_more torrent p m t (connect_loop fuel torrent (try_peer torrent p m t)) h less (
              connect_loop-Serves fuel torrent (try_peer torrent p m t) (omega arith)
                (try_peer-IsLimited torrent p m t h room)))
    ]
  ]
