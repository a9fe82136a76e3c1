-- ===== src/BitTorrentManager/Removal.antt =====
-- An announce that comes in for a torrent that was removed.
use mathlib.Core.Option.{get_or}
use mathlib.Core.Path.{ap₂}
use fractals.Prelude.{
  ◌≡◌, ◌≢◌, ◌<◌, ◌≤◌, suc, refl, ap, sym, subst, ◌∙◌, Bool, true, false, Option, none, some, List,
  [], ◌∷◌, ℕ, length, map, Bool-cases, Option-cases, inl, inr, arith,
}
use fractals.Prelude.Eq.{Eq, list_eq, list_beq, beq_refl}
use fractals.Prelude.Map.{
  Map, find, contains, is_some, assign, erase, find-assign_self, find-erase_self,
}
use fractals.PeerTracker.{
  PeerTracker, Peer, PeerCommand, try_connect, disconnect, do_announce, nothing, is_fresh,
  find_not_connected_peer, has_room, try_peer, connect_loop, or_announce, make_command_for,
  command_loop, make_command, on_announce, add_peers, change_info, info, deactivate_torrent,
  not_connected, max_peers_per_torrent,
}
use fractals.PeerTracker.Limits.{IsLimited}
use fractals.PeerTracker.Events.{Keeps, on_announce-Keeps}
use fractals.PeerTracker.Torrent.{PeersInfo, no_info, get_active_peer_count}
use fractals.BitTorrentManager.{
  BitTorrentManager, Outside, Ran, ◌>>=◌, also, does, handle_command, handle_commands, commanded,
  process, process_remove_torrent, erase_connections,
}
use fractals.BitTorrentManager.Queues.{
  Effect, Event, PersistRequest, AnnounceRequest, ResponseToApp,
}
use fractals.BitTorrentManager.Handled.{handle_commands-disconnect}
use fractals.BitTorrentManager.Run.{run}

-- The tracker's first command, if it returns, is to connect for the torrent.
abbrev Starts :
    {K : Type 0} → List ℕ → Option (List (PeerCommand K (List ℕ)) × PeerTracker K (List ℕ)) → Type 0
Starts ih none = Unit
Starts ih (some ([], t)) = ⊥
Starts ih (some (try_connect peer torrent ∷ cmds, t)) = torrent ≡ ih
Starts ih (some (disconnect peer torrent ∷ cmds, t)) = ⊥
Starts ih (some (do_announce torrent ∷ cmds, t)) = ⊥
Starts ih (some (nothing ∷ cmds, t)) = ⊥

module _ {K : Type 0} ⦃ek : Eq K⦄ where
  find_not_connected_peer-is_fresh :
      (k : K) (p : Peer K (List ℕ)) (m : Map K (Peer K (List ℕ)))
      → find k m ≡ some p
      → is_fresh p ≡ true
      → find_not_connected_peer m ≢ none
  unfolding find find_not_connected_peer
  find_not_connected_peer-is_fresh k p [] e f n = cc
  find_not_connected_peer-is_fresh k p ((j, q) ∷ m) e f n = elim (Bool-cases (is_fresh q)) [
    | inl t ↦ let z = rw (t, find_not_connected_peer) at n in cc
    | inr u ↦ elim (Bool-cases (ek.beq j k)) [
      | inl same ↦
          let x : some q ≡ some p = rw same at e in
          let y : q ≡ p = cc in let z : is_fresh p ≡ false = ap is_fresh (sym y) ∙ u in cc
      | inr other ↦ elim (Option-cases (find_not_connected_peer m)) [
        | inl none_left ↦ find_not_connected_peer-is_fresh k p m (rw other at e) f none_left
        | inr ((found, m'), g) ↦ let z = rw (u, g, find_not_connected_peer) at n in cc
      ]
    ]
  ]

  connect_loop-Starts :
      (fuel : ℕ) (ih : List ℕ) (t : PeerTracker K (List ℕ))
      → has_room ih t ≡ true
      → find_not_connected_peer t.peer_map ≢ none
      → Starts ih (connect_loop (suc fuel) ih t)
  unfolding connect_loop
  connect_loop-Starts fuel ih t r h = elim (Option-cases (find_not_connected_peer t.peer_map)) [
    | inl n ↦ absurd (h n)
    | inr ((p, m), e) ↦ elim (Option-cases (connect_loop fuel ih (try_peer ih p m t))) [
      | inl n ↦ rw (r, e, n, connect_loop) tt
      | inr ((cmds, t'), f) ↦ rw (r, e, f, connect_loop) refl
    ]
  ]

  make_command_for-Starts :
      (ih : List ℕ) (t : PeerTracker K (List ℕ))
      → has_room ih t ≡ true
      → find_not_connected_peer t.peer_map ≢ none
      → Starts ih (make_command_for ih t)
  unfolding make_command_for or_announce
  make_command_for-Starts ih t r h =
      go (connect_loop (suc (length t.peer_map)) ih t) refl
        (connect_loop-Starts (length t.peer_map) ih t r h)
    where
      go :
          (o : Option (List (PeerCommand K (List ℕ)) × PeerTracker K (List ℕ)))
          → connect_loop (suc (length t.peer_map)) ih t ≡ o
          → Starts ih o
          → Starts ih (make_command_for ih t)
      go none e s = rw (e, make_command_for) tt
      go (some ([], t')) e s = absurd s
      go (some (try_connect peer torrent ∷ cmds, t')) e s = rw (e, make_command_for, or_announce) s
      go (some (disconnect peer torrent ∷ cmds, t')) e s = absurd s
      go (some (do_announce torrent ∷ cmds, t')) e s = absurd s
      go (some (nothing ∷ cmds, t')) e s = absurd s

  make_command-Starts :
      (ih : List ℕ) (i : PeersInfo K) (t : PeerTracker K (List ℕ))
      → t.peers_info_map ≡ (ih, i) ∷ []
      → has_room ih t ≡ true
      → find_not_connected_peer t.peer_map ≢ none
      → Starts ih (make_command t)
  unfolding make_command command_loop
  make_command-Starts ih i t e r h =
      subst (λ l. Starts ih (command_loop l t)) (sym (ap (map (λ entry. entry.0)) e))
        (go (make_command_for ih t) refl (make_command_for-Starts ih t r h))
    where
      go :
          (o : Option (List (PeerCommand K (List ℕ)) × PeerTracker K (List ℕ)))
          → make_command_for ih t ≡ o
          → Starts ih o
          → Starts ih (command_loop (ih ∷ []) t)
      go none f s = rw (f, command_loop) tt
      go (some ([], t')) f s = absurd s
      go (some (try_connect peer torrent ∷ cmds, t')) f s = rw (f, command_loop) s
      go (some (disconnect peer torrent ∷ cmds, t')) f s = absurd s
      go (some (do_announce torrent ∷ cmds, t')) f s = absurd s
      go (some (nothing ∷ cmds, t')) f s = absurd s

module _ {K : Type 0} ⦃ek : Eq K⦄ where
  info-single :
      (ih : List ℕ) (i : PeersInfo K) (t : PeerTracker K (List ℕ))
      → t.peers_info_map ≡ (ih, i) ∷ []
      → info ih t ≡ i
  unfolding info find
  info-single ih i t e = ap (λ m. get_or (find ih m) no_info) e ∙ (rw (beq_refl ih) refl)

  -- A tracker with one torrent, and with room.
  single-IsLimited :
      (ih : List ℕ) (i : PeersInfo K) (t : PeerTracker K (List ℕ))
      → t.peers_info_map ≡ (ih, i) ∷ []
      → length i.active_peers < 20
      → t.curr_connected_peers < 200
      → IsLimited t
  unfolding info find
  single-IsLimited ih i t e a c = record {
    connections = omega (arith, c);
    active = λ other.
        subst (λ m. length (get_or (find other m) no_info).active_peers ≤ max_peers_per_torrent)
          (sym e)
          (elim (Bool-cases (list_beq ih other)) [
            | inl same ↦ rw same (omega (arith, a))
            | inr differs ↦ rw differs (omega arith)
          ]);
  }

  on_announce-Starts :
      (ih : List ℕ) (k : K) (i : PeersInfo K) (t : PeerTracker K (List ℕ))
      → t.peers_info_map ≡ (ih, i) ∷ []
      → find k t.peer_map ≡ none
      → length i.active_peers < 20
      → t.curr_connected_peers < 200
      → Starts ih (on_announce ih (k ∷ []) t)
  unfolding on_announce add_peers
  on_announce-Starts ih k i t e n a c =
      let p : Peer K (List ℕ) = record {
        connection = not_connected;
        peer = k;
        torrent = ih;
        has_connected_before = false;
      } in
      let t₁ : PeerTracker K (List ℕ) = record t { peer_map = assign k p t.peer_map } in
      let found : find ih t₁.peers_info_map ≡ some i =
        ap (find ih) e ∙ (unfold find in rw (beq_refl ih) refl) in
      let known : contains ih t₁.peers_info_map ≡ true = unfold contains in ap is_some found in
      let room : has_room ih t₁ ≡ true =
        let here : info ih t₁ ≡ i = info-single ih i t₁ e in
        unfold has_room in unfold get_active_peer_count in rw here (ground arith) in
      let added : on_announce ih (k ∷ []) t ≡ make_command t₁ =
        let new : contains k t.peer_map ≡ false = unfold contains in ap is_some n in
        rw (on_announce, add_peers, new, known) refl in
      subst (Starts ih) (sym added) (
        make_command-Starts ih i t₁ e room
          (find_not_connected_peer-is_fresh k p t₁.peer_map (find-assign_self k p t.peer_map) refl))

module _ {K : Type 0} ⦃ek : Eq K⦄ where
  -- The tracker after the removal still knows the torrent.
  deactivate_torrent-peers_info_map :
      (ih : List ℕ) (i : PeersInfo K) (t : PeerTracker K (List ℕ))
      → t.peers_info_map ≡ (ih, i) ∷ []
      → (deactivate_torrent ih t).1.peers_info_map ≡ (ih, i) ∷ []
  unfolding deactivate_torrent change_info
  deactivate_torrent-peers_info_map ih i t e =
      let found : find ih t.peers_info_map ≡ some i =
        ap (find ih) e ∙ (unfold find in rw (beq_refl ih) refl) in
      let here : info ih t ≡ i = unfold info in ap (λ o. get_or o no_info) found in
      let assigned : assign ih i ((ih, i) ∷ []) ≡ (ih, i) ∷ [] =
        unfold assign in rw (beq_refl ih) refl in
      (let q : assign ih (info ih t) t.peers_info_map ≡ assign ih i ((ih, i) ∷ []) =
          ap₂ (assign ih) here e in
        q)
      ∙ assigned

  removed : List ℕ → BitTorrentManager K → BitTorrentManager K
  removed ih b = record b {
    peer_tracker = (deactivate_torrent ih b.peer_tracker).1;
    piece_man = erase ih b.piece_man;
    torrents = erase ih b.torrents;
    connections = erase_connections ih b.connections;
  }

module _ {K : Type 0} (M : Type 0) ⦃ek : Eq K⦄ (app_id : List ℕ) (connects : K → Bool) where
  removal_lem :
      (ih : List ℕ) (b : BitTorrentManager K)
      → (effects : List (Effect K M)) × (process_remove_torrent M app_id connects ih b
          ≡ some (effects, removed ih b))
  unfolding process_remove_torrent commanded deactivate_torrent removed
  removal_lem ih b =
      let b₁ : BitTorrentManager K = record b {
        peer_tracker = (deactivate_torrent ih b.peer_tracker).1;
      } in
      let d =
        handle_commands-disconnect M app_id connects ih (info ih b.peer_tracker).active_peers b₁ in
      let after : BitTorrentManager K → Ran K M = λ b.
        does
          (Effect.to_persist (PersistRequest.remove_torrent ih)
            ∷ Effect.to_announce (AnnounceRequest.delete_trackers ih)
            ∷ Effect.to_app (ResponseToApp.removed_torrent ih)
            ∷ [])
          (record b {
            piece_man = erase ih b.piece_man;
            torrents = erase ih b.torrents;
            connections = erase_connections ih b.connections;
          }) in
      (_, ap (λ r. r >>= after) d)

module _ {K : Type 0} (M : Type 0) ⦃ek : Eq K⦄ (app_id : List ℕ) (connects : K → Bool) (ih : List ℕ)
    (k : K) (b : BitTorrentManager K) where
  -- The tracker answers an announce with a command to connect a peer for the torrent, and that uses
  -- the end of the map of piece managers.
  pub record ConnectsGone : Type 0 where
    pub peer : K
    pub cmds : List (PeerCommand K (List ℕ))
    pub tracker : PeerTracker K (List ℕ)
    pub commands :
        on_announce ih (k ∷ []) b.peer_tracker ≡ some (try_connect peer ih ∷ cmds, tracker)
    pub connects_peer : connects peer ≡ true
    pub gone : find ih b.piece_man ≡ none
    pub uses_end :
        handle_command M app_id connects (try_connect peer ih) (record b { peer_tracker = tracker })
        ≡ none

  announce_lem :
      (i : PeersInfo K)
      → ((k : K) → connects k ≡ true)
      → b.peer_tracker.peers_info_map ≡ (ih, i) ∷ []
      → find k b.peer_tracker.peer_map ≡ none
      → length i.active_peers < 20
      → b.peer_tracker.curr_connected_peers < 200
      → find ih b.piece_man ≡ none
      → ConnectsGone
        × (commanded M app_id connects (on_announce ih (k ∷ []) b.peer_tracker) b ≡ none)
  unfolding commanded handle_commands handle_command
  announce_lem i all e n a c h =
      let t = b.peer_tracker in
      go (on_announce ih (k ∷ []) t) refl (on_announce-Starts ih k i t e n a c)
        (on_announce-Keeps ih (k ∷ []) t (single-IsLimited ih i t e a c))
    where
      go :
          (o : Option (List (PeerCommand K (List ℕ)) × PeerTracker K (List ℕ)))
          → on_announce ih (k ∷ []) b.peer_tracker ≡ o
          → Starts ih o
          → Keeps o
          → ConnectsGone × (commanded M app_id connects o b ≡ none)
      go none f s l = absurd l
      go (some ([], t)) f s l = absurd s
      go (some (try_connect peer torrent ∷ cmds, t)) f s l =
          let g : find torrent b.piece_man ≡ none = rw s h in
          (
            record {
              peer = peer;
              cmds = cmds;
              tracker = t;
              commands = f ∙ ap (λ x. some (try_connect peer x ∷ cmds, t)) s;
              connects_peer = all peer;
              gone = h;
              uses_end = rw (all peer, h) refl;
            },
            rw (all peer, g) refl,
          )
      go (some (disconnect peer torrent ∷ cmds, t)) f s l = absurd s
      go (some (do_announce torrent ∷ cmds, t)) f s l = absurd s
      go (some (nothing ∷ cmds, t)) f s l = absurd s

module _ {K : Type 0} (M : Type 0) ⦃ek : Eq K⦄ (app_id : List ℕ) (sha1 : List ℕ → List ℕ)
    (unset : Peer K (List ℕ)) where
  -- When the tracker knows one torrent with fewer than 20 active peers, fewer than 200 connections
  -- are counted and every peer can be connected to after the removal, then the torrent is removed
  -- without failure, and an announce of it with a new peer makes the tracker ask for a connection
  -- for it, at which the manager uses the end of its map of piece managers.
  pub run-removal :
      (ih : List ℕ) (k : K) (i : PeersInfo K) (b : BitTorrentManager K) (o₁ o₂ : Outside K)
      → ((k : K) → o₂.connects k ≡ true)
      → b.peer_tracker.peers_info_map ≡ (ih, i) ∷ []
      → find k b.peer_tracker.peer_map ≡ none
      → length i.active_peers < 20
      → b.peer_tracker.curr_connected_peers < 200
      → (effects : List (Effect K M)) × (b' : BitTorrentManager K) × (process M app_id o₁.connects
            sha1 unset o₁.erased o₁.rehashes
            (Event.remove_torrent ih)
            b
          ≡ some (effects, b'))
        × ConnectsGone M app_id o₂.connects ih k b'
        × (run M app_id sha1 unset
              ((o₁, Event.remove_torrent ih) ∷ (o₂, Event.announce ih (k ∷ [])) ∷ [])
              b
            ≡ none)
  unfolding run process removed deactivate_torrent change_info
  run-removal ih k i b o₁ o₂ all e n a c =
      let (effects, r) = removal_lem M app_id o₁.connects ih b in
      let b₂ = removed ih b in
      let (cause, q) =
        announce_lem M app_id o₂.connects ih k b₂ i all
          (deactivate_torrent-peers_info_map ih i b.peer_tracker e) n a c
          (find-erase_self ih b.piece_man) in
      (
        effects,
        b₂,
        r,
        cause,
        ap (λ x. x >>= run M app_id sha1 unset ((o₂, Event.announce ih (k ∷ [])) ∷ [])) r
            ∙ ap (λ x. also effects (x >>= run M app_id sha1 unset [])) q,
      )
