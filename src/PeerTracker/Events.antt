-- ===== src/PeerTracker/Events.antt =====
-- The events that reach PeerTracker.cpp, one after another.
use mathlib.Core.Option.{get_or}
use fractals.Prelude.{
  ◌≤◌, ◌<◌, ◌≡◌, ◌↔◌, refl, sym, subst, true, Option, none, some, List, [], ◌∷◌, if◌then◌else◌,
  length, arith, Bool-cases, Option-cases, inl, inr,
}
use fractals.Prelude.Eq.{Eq}
use fractals.Prelude.Map.{find, contains, assign, find-emplace}
use fractals.Prelude.Set.{member, remove}
use fractals.PeerTracker.{
  PeerTracker, Peer, connected, PeerCommand, max_connected_peers, max_peers_per_torrent, info,
  change_info, after_erase, make_command, command_if_active, on_peer_disconnect, on_peer_connect,
  on_announce, forget_peer, activate_torrent, deactivate_torrent, add_peers,
}
use fractals.PeerTracker.Torrent.{
  PeersInfo, no_info, make_inactive, make_all_inactive, incr_connected,
}
use fractals.PeerTracker.Limits.{IsLimited, Serves, info-change_info}
use fractals.PeerTracker.Commands.{make_command-Serves}

-- The calls of the public functions that change the tracker. The entry that `connect` carries is
-- the one that `peerMap[peer]` adds for a peer that has none; `disconnected` carries what the erased
-- entry is read as.
pub data Event (K : Type 0) (H : Type 0) : Type 0 where
  activate deactivate : H → Event K H
  connect : Peer K H → K → Event K H
  disconnected : Option H → K → Event K H
  announce : H → List K → Event K H

length-remove : {K : Type 0} ⦃e : Eq K⦄ (k : K) (s : List K) → length (remove k s) ≤ length s
unfolding remove
length-remove k [] = omega arith
length-remove k (j ∷ s) = ground (arith, length-remove k s)

module _ {K H : Type 0} ⦃ek : Eq K⦄ ⦃eh : Eq H⦄ where
  unfoldable pub handle :
      Event K H → PeerTracker K H → Option (List (PeerCommand K H) × PeerTracker K H)
  handle (activate ih) t = some ([], activate_torrent ih t)
  handle (deactivate ih) t = some (deactivate_torrent ih t)
  handle (connect unset k) t = on_peer_connect unset k t
  handle (disconnected erased k) t = on_peer_disconnect erased k t
  handle (announce torrent peers) t = on_announce torrent peers t

  -- A known peer is disconnected only while some connection is counted.
  abbrev pub IsCounted : Event K H → PeerTracker K H → Type 0
  IsCounted (disconnected erased k) t =
      (p : Peer K H) → find k t.peer_map ≡ some p → 0 < t.curr_connected_peers
  IsCounted _ t = Unit

  abbrev pub Keeps : Option (List (PeerCommand K H) × PeerTracker K H) → Type 0
  Keeps none = ⊥
  Keeps (some (cmds, t')) = IsLimited t'

  Serves-Keeps :
      (t : PeerTracker K H) (o : Option (List (PeerCommand K H) × PeerTracker K H))
      → Serves t o
      → Keeps o
  unfolding Serves
  Serves-Keeps t none s = s
  Serves-Keeps t (some (cmds, t')) s = s.limited

  make_command-Keeps : (t : PeerTracker K H) → IsLimited t → Keeps (make_command t)
  make_command-Keeps t h = Serves-Keeps t (make_command t) (make_command-Serves t h)

  command_if_active-Keeps :
      (torrent : H) (t : PeerTracker K H) → IsLimited t → Keeps (command_if_active torrent t)
  unfolding command_if_active
  command_if_active-Keeps torrent t h = elim (Bool-cases (member torrent t.active_torrents)) [
    | inl e ↦
        subst Keeps {y = command_if_active torrent t} (rw (command_if_active, e))
          (make_command-Keeps t h)
    | inr e ↦
        subst Keeps {x = some ([], t)} {y = command_if_active torrent t} (rw (command_if_active, e))
          h
  ]

  -- A change of one torrent's peers that adds no active one.
  change_info-IsLimited :
      (torrent : H) (f : PeersInfo K → PeersInfo K) (t : PeerTracker K H)
      → ((i : PeersInfo K) → length (f i).active_peers ≤ length i.active_peers)
      → IsLimited t
      → IsLimited (change_info torrent f t)
  unfolding change_info
  change_info-IsLimited torrent f t less h = record {
    connections = h.connections;
    active = λ other.
        rw (info-change_info torrent other f t)
          (ground (arith, h.active torrent, h.active other, less (info torrent t)));
  }

  moved :
      (t t' : PeerTracker K H)
      → t'.peers_info_map ≡ t.peers_info_map
      → t'.curr_connected_peers ≤ max_connected_peers
      → IsLimited t
      → IsLimited t'
  unfolding info
  moved t t' e le h = record {
    connections = le;
    active = λ torrent.
        subst (λ m. length (get_or (find torrent m) no_info).active_peers ≤ max_peers_per_torrent)
          (sym e) (h.active torrent);
  }

  info-activate_torrent :
      (ih other : H) (t : PeerTracker K H) → info other (activate_torrent ih t) ≡ info other t
  unfolding activate_torrent info contains
  info-activate_torrent ih other t =
      ground (arith, find-emplace ih other no_info t.peers_info_map, eh.beq_iff ih other)

  activate_torrent-IsLimited :
      (ih : H) (t : PeerTracker K H) → IsLimited t → IsLimited (activate_torrent ih t)
  unfolding activate_torrent info contains
  activate_torrent-IsLimited ih t h = record {
    connections = h.connections;
    active = λ other.
        subst (λ i. length i.active_peers ≤ max_peers_per_torrent)
          (sym (info-activate_torrent ih other t)) (h.active other);
  }

  forget_peer-IsLimited :
      (k : K) (p : Peer K H) (t : PeerTracker K H)
      → IsLimited t
      → 0 < t.curr_connected_peers
      → IsLimited (forget_peer k p t)
  unfolding forget_peer change_info make_inactive
  forget_peer-IsLimited k p t h some_left =
      moved (change_info p.torrent (make_inactive k) t) (forget_peer k p t) refl
        (omega (arith, h.connections))
        (change_info-IsLimited p.torrent (make_inactive k) t (λ i. length-remove k i.active_peers)
          h)

  after_erase-Keeps :
      (torrent : H) (t : PeerTracker K H) → IsLimited t → Keeps (after_erase (some torrent) t)
  unfolding after_erase
  after_erase-Keeps torrent t h =
      command_if_active-Keeps torrent (change_info torrent (λ i. i) t)
        (change_info-IsLimited torrent (λ i. i) t (λ i. omega arith) h)

  abbrev Limits : Option (List (PeerCommand K H) × PeerTracker K H) → Type 0
  Limits none = Unit
  Limits (some (cmds, t')) = IsLimited t'

  -- A result that is missing just when `P` holds, and else keeps the limits.
  abbrev pub Ends : Type 0 → Option (List (PeerCommand K H) × PeerTracker K H) → Type 0
  Ends P o = ((o ≡ none) ↔ P) × Limits o

  Keeps-Ends :
      (P : Type 0) (o : Option (List (PeerCommand K H) × PeerTracker K H))
      → Keeps o
      → (P → ⊥)
      → Ends P o
  Keeps-Ends P none k n = absurd k
  Keeps-Ends P (some (cmds, t')) k n = ((λ e. absurd (cc), λ z. absurd (n z)), k)

  -- The erased entry of a known peer is read, and that fails.
  abbrev pub FailsToRead : Event K H → PeerTracker K H → Type 0
  FailsToRead (disconnected none k) t = (p : Peer K H) × (find k t.peer_map ≡ some p)
  FailsToRead (disconnected (some torrent) k) t = ⊥
  FailsToRead (activate ih) t = ⊥
  FailsToRead (deactivate ih) t = ⊥
  FailsToRead (connect unset k) t = ⊥
  FailsToRead (announce torrent peers) t = ⊥

  on_peer_disconnect-Ends :
      (erased : Option H) (k : K) (t : PeerTracker K H)
      → IsLimited t
      → ((p : Peer K H) → find k t.peer_map ≡ some p → 0 < t.curr_connected_peers)
      → Ends (FailsToRead (disconnected erased k) t) (on_peer_disconnect erased k t)
  unfolding on_peer_disconnect after_erase
  on_peer_disconnect-Ends none k t h counted = elim (Option-cases (find k t.peer_map)) [
    | inl e ↦ rw (e, on_peer_disconnect) ((λ z. absurd (cc), λ z. absurd (cc)), h)
    | inr (p, e) ↦ rw (e, on_peer_disconnect) ((λ z. (p, refl), λ z. refl), tt)
  ]
  on_peer_disconnect-Ends (some torrent) k t h counted = elim (Option-cases (find k t.peer_map)) [
    | inl e ↦ rw (e, on_peer_disconnect) ((λ z. absurd (cc), λ z. absurd z), h)
    | inr (p, e) ↦
        Keeps-Ends ⊥ (on_peer_disconnect (some torrent) k t)
          (subst Keeps {y = on_peer_disconnect (some torrent) k t} (rw (e, on_peer_disconnect) refl)
            (after_erase-Keeps torrent (forget_peer k p t)
              (forget_peer-IsLimited k p t h (counted p e))))
          (λ z. z)
  ]

  pub on_announce-Keeps :
      (torrent : H) (peers : List K) (t : PeerTracker K H)
      → IsLimited t
      → Keeps (on_announce torrent peers t)
  unfolding on_announce make_all_inactive
  on_announce-Keeps torrent peers t h =
      let t' : PeerTracker K H = record t { peer_map = add_peers torrent peers t.peer_map } in
      let h' : IsLimited t' = moved t t' refl h.connections h in
      make_command-Keeps
        (if contains torrent t'.peers_info_map
          then t'
          else change_info torrent make_all_inactive t')
        (elim (Bool-cases (contains torrent t'.peers_info_map)) [
          | inl e ↦ rw e h'
          | inr e ↦ rw e (change_info-IsLimited torrent make_all_inactive t' (λ i. omega arith) h')
        ])

  -- From a tracker within the limits of 200 connections and of 20 active peers of a torrent, and
  -- if a known peer is disconnected only while some connection is counted, an event fails exactly
  -- when a known peer is disconnected and the read of its erased entry fails; every other event is
  -- handled to its end and keeps the limits, whatever torrent an erased entry is read as.
  pub handle-Ends :
      (event : Event K H) (t : PeerTracker K H)
      → IsLimited t
      → IsCounted event t
      → Ends (FailsToRead event t) (handle event t)
  unfolding handle deactivate_torrent on_peer_connect incr_connected
  handle-Ends (activate ih) t h c =
      Keeps-Ends ⊥ (handle (activate ih) t) (activate_torrent-IsLimited ih t h) (λ z. z)
  handle-Ends (deactivate ih) t h c =
      Keeps-Ends ⊥ (handle (deactivate ih) t)
        (change_info-IsLimited ih (λ i. i)
          (record t { active_torrents = remove ih t.active_torrents }) (λ i. omega arith)
          (moved t _ refl h.connections h))
        (λ z. z)
  handle-Ends (connect unset k) t h c =
      let p = get_or (find k t.peer_map) unset in
      let p' : Peer K H = record p { connection = connected; has_connected_before = true } in
      let t' : PeerTracker K H = record t { peer_map = assign k p' t.peer_map } in
      Keeps-Ends ⊥ (handle (connect unset k) t)
        (command_if_active-Keeps p.torrent (change_info p.torrent incr_connected t') (
          change_info-IsLimited p.torrent incr_connected t' (λ i. omega arith)
            (moved t t' refl h.connections h)))
        (λ z. z)
  handle-Ends (disconnected erased k) t h c = on_peer_disconnect-Ends erased k t h c
  handle-Ends (announce torrent peers) t h c =
      Keeps-Ends ⊥ (handle (announce torrent peers) t) (on_announce-Keeps torrent peers t h)
        (λ z. z)
