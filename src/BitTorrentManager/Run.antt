-- ===== src/BitTorrentManager/Run.antt =====
-- Sequences of events of the manager.
use mathlib.Core.Option.{get_or}
use fractals.Prelude.{
  ◌≡◌, ◌≢◌, subst, Bool, true, false, Option, none, some, List, [], ◌∷◌, ℕ, ◌&&◌, ltb, length,
  Bool-cases, Option-cases, inl, inr,
}
use fractals.Prelude.Eq.{Eq, list_eq, list_beq}
use fractals.Prelude.Map.{Map, find, contains, assign, emplace, erase}
use fractals.Message.{Message}
use fractals.PieceStateManager
use fractals.PieceStateManager.{
  PieceStateManager, PieceModel, populate, is_all_complete, set_active,
}
use fractals.Protocol.{Protocol}
use fractals.DiskIoService.{TorrentModel, FileModel}
use fractals.PeerService.{
  PeerEvent, connection_established, message, connection_disconnected, shut_down,
}
use fractals.PeerTracker
use fractals.PeerTracker.{
  PeerTracker, Peer, deactivate_torrent, activate_torrent, on_peer_connect, on_peer_disconnect,
  on_announce,
}
use fractals.PeerTracker.Torrent.{get_known_peer_count}
use fractals.BitTorrentManager.{
  BitTorrentManager, Outside, Ran, ◌>>=◌, does, commanded, erase_connections, handle_message,
  process, inactive, process_remove_torrent, process_stop_torrent, process_start_torrent,
  process_resume_torrent, process_shutdown, process_request_stats, process_pieces, process_trackers,
  process_connection_established, handle_peer_event, shutdown, no_torrent,
}
use fractals.BitTorrentManager.Queues.{Effect, Event, ResponseToApp}
use fractals.BitTorrentManager.Values.{Values, find-Values, erase-Values}
use fractals.BitTorrentManager.Linked.{
  IsLinked, Links, Refers, bind-Links, assign-IsLinked, commanded-Links, contains-erase,
}
use fractals.BitTorrentManager.Handled.{
  update_torrent_completed-Links, handle_message-Links, handle_message-returns,
}

-- The connections of a torrent go with its piece manager.
erase_connections-Refers :
    {K : Type 0} (ih : List ℕ) (pieces : Map (List ℕ) PieceStateManager) (m : Map K Protocol)
    → Values (Refers pieces) m
    → Values (Refers (erase ih pieces)) (erase_connections ih m)
unfolding erase_connections
erase_connections-Refers ih pieces [] h = tt
erase_connections-Refers ih pieces ((k, c) ∷ m) h = elim (Bool-cases (list_beq c.info_hash ih)) [
  | inl t ↦ rw (t, erase_connections) (erase_connections-Refers ih pieces m h.1)
  | inr f ↦
      rw (f, erase_connections)
        (contains-erase c.info_hash ih pieces f h.0, erase_connections-Refers ih pieces m h.1)
]

module _ {K : Type 0} (M : Type 0) ⦃ek : Eq K⦄ (app_id : List ℕ) (connects : K → Bool)
    (sha1 : List ℕ → List ℕ) (unset : Peer K (List ℕ)) where
  process_request_stats-Links :
      (requested : List (ℕ × List ℕ)) (b : BitTorrentManager K)
      → IsLinked b
      → Links (process_request_stats M app_id connects requested b)
  unfolding process_request_stats
  process_request_stats-Links [] b h = h
  process_request_stats-Links ((id, ih) ∷ requested) b h =
      elim (Option-cases (find ih b.peer_tracker.peers_info_map)) [
        | inl n ↦ rw (n, process_request_stats) tt
        | inr (i, e) ↦
            rw (e, process_request_stats)
              (bind-Links
                (does
                  (Effect.to_app
                      (ResponseToApp.peer_stats id (get_known_peer_count i) i.connected_count)
                    ∷ [])
                  b)
                (process_request_stats M app_id connects requested) h
                (λ b h. process_request_stats-Links requested b h))
      ]

  process_start_torrent-Links :
      (ih : List ℕ) (model : TorrentModel) (files : List FileModel) (b : BitTorrentManager K)
      → IsLinked b
      → Links (process_start_torrent M app_id connects ih model files b)
  unfolding process_start_torrent
  process_start_torrent-Links ih model files b h =
      let torrents = emplace ih (record { model = model; is_complete = false }) b.torrents in
      elim (Bool-cases ((get_or (find ih torrents) no_torrent).is_complete)) [
        | inl t ↦ rw (t, process_start_torrent) h
        | inr f ↦
            rw (f, process_start_torrent)
              (assign-IsLinked ih
                (set_active true (get_or (find ih b.piece_man) PieceStateManager.new)) b h)
      ]

  process_resume_torrent-Links :
      (ih : List ℕ) (b : BitTorrentManager K)
      → IsLinked b
      → Links (process_resume_torrent M app_id connects ih b)
  unfolding process_resume_torrent
  process_resume_torrent-Links ih b h = elim (Option-cases (find ih b.torrents)) [
    | inl n ↦ rw (n, process_resume_torrent) tt
    | inr (torrent, e) ↦ elim (Bool-cases torrent.is_complete) [
      | inl t ↦ rw (e, t, process_resume_torrent) h
      | inr f ↦ elim (Option-cases (find ih b.piece_man)) [
        | inl gone ↦ rw (e, f, gone, process_resume_torrent) h
        | inr (pm, g) ↦
            rw (e, f, g, process_resume_torrent) (assign-IsLinked ih (set_active true pm) b h)
      ]
    ]
  ]

  process_pieces-Links :
      (ih : List ℕ) (result : List PieceModel) (b : BitTorrentManager K)
      → IsLinked b
      → Links (process_pieces M app_id connects ih result b)
  unfolding process_pieces
  process_pieces-Links ih result b h =
      let psm = populate result (get_or (find ih b.piece_man) PieceStateManager.new) in
      let b₁ : BitTorrentManager K = record b { piece_man = assign ih psm b.piece_man } in
      let h₁ = assign-IsLinked ih psm b h in
      elim (Bool-cases (is_all_complete psm)) [
        | inl t ↦ rw (t, process_pieces) (update_torrent_completed-Links M app_id connects ih b₁ h₁)
        | inr f ↦ rw (f, process_pieces) h₁
      ]

  process_trackers-Links :
      (ih : List ℕ) (urls : List (List ℕ)) (b : BitTorrentManager K)
      → IsLinked b
      → Links (process_trackers M app_id connects ih urls b)
  unfolding process_trackers
  process_trackers-Links ih urls b h = elim (Option-cases (find ih b.torrents)) [
    | inl n ↦ rw (n, process_trackers) h
    | inr (torrent, e) ↦ rw (e, process_trackers) h
  ]

  process_connection_established-Links :
      (rehashes : Bool) (peer : K) (b : BitTorrentManager K)
      → IsLinked b
      → Links (process_connection_established M app_id connects unset rehashes peer b)
  unfolding process_connection_established
  process_connection_established-Links rehashes peer b h =
      elim (Option-cases (find peer b.connections)) [
        | inl n ↦ rw (n, process_connection_established) h
        | inr (c, e) ↦
            rw (e, process_connection_established)
              (bind-Links
                (commanded M app_id connects (on_peer_connect unset peer b.peer_tracker) b) _
                (commanded-Links M app_id connects (on_peer_connect unset peer b.peer_tracker) b h)
                (λ after h.
                  elim (Bool-cases
                    (rehashes && ltb (length b.connections) (length after.connections))) [
                      | inl t ↦ rw t tt
                      | inr f ↦ rw f h
                    ]))
      ]

module _ {K : Type 0} (M : Type 0) ⦃ek : Eq K⦄ (app_id : List ℕ) (connects : K → Bool)
    (sha1 : List ℕ → List ℕ) (unset : Peer K (List ℕ)) (erased : Option (List ℕ))
    (rehashes : Bool) where
  handle_peer_event-Links :
      (event : PeerEvent K) (b : BitTorrentManager K)
      → IsLinked b
      → Links (handle_peer_event M app_id connects sha1 unset erased rehashes event b)
  unfolding handle_peer_event shutdown
  handle_peer_event-Links shut_down b h = h
  handle_peer_event-Links (connection_disconnected peer) b h =
      commanded-Links M app_id connects (on_peer_disconnect erased peer b.peer_tracker)
        (record b { connections = erase peer b.connections })
        (erase-Values (Refers b.piece_man) peer b.connections h)
  handle_peer_event-Links (connection_established peer) b h =
      process_connection_established-Links M app_id connects sha1 unset rehashes peer b h
  handle_peer_event-Links (message peer m) b h =
      handle_message-Links M app_id connects sha1 peer m b h

  pub process-Links :
      (event : Event K M) (b : BitTorrentManager K)
      → IsLinked b
      → Links (process M app_id connects sha1 unset erased rehashes event b)
  unfolding process process_remove_torrent process_stop_torrent process_shutdown
  process-Links (Event.add_torrent path) b h = h
  process-Links (Event.remove_torrent ih) b h =
      bind-Links (commanded M app_id connects (some (deactivate_torrent ih b.peer_tracker)) b) _
        (commanded-Links M app_id connects (some (deactivate_torrent ih b.peer_tracker)) b h)
        (λ b h. erase_connections-Refers ih b.piece_man b.connections h)
  process-Links (Event.stop_torrent ih) b h =
      bind-Links (commanded M app_id connects (some (deactivate_torrent ih b.peer_tracker)) b) _
        (commanded-Links M app_id connects (some (deactivate_torrent ih b.peer_tracker)) b h)
        (λ b h.
          assign-IsLinked ih (set_active false (get_or (find ih b.piece_man) PieceStateManager.new))
            b h)
  process-Links (Event.resume_torrent ih) b h =
      process_resume_torrent-Links M app_id connects sha1 unset ih b h
  process-Links (Event.start_torrent ih model files) b h =
      process_start_torrent-Links M app_id connects sha1 unset ih model files b h
  process-Links Event.shutdown b h = h
  process-Links (Event.request_stats requested) b h =
      process_request_stats-Links M app_id connects sha1 unset requested b h
  process-Links (Event.added_torrent torrent files) b h = h
  process-Links Event.torrent_exists b h = h
  process-Links (Event.pieces ih result) b h =
      process_pieces-Links M app_id connects sha1 unset ih result b h
  process-Links (Event.trackers ih urls) b h =
      process_trackers-Links M app_id connects sha1 unset ih urls b h
  process-Links Event.announces b h = h
  process-Links (Event.read_success tm path) b h = h
  process-Links Event.read_error b h = h
  process-Links Event.write_error b h = h
  process-Links (Event.write_success ih piece_index) b h = h
  process-Links (Event.torrent_initialized ih) b h = h
  process-Links (Event.announce ih peers) b h =
      commanded-Links M app_id connects (on_announce ih peers b.peer_tracker) b h
  process-Links (Event.peer_event event) b h = handle_peer_event-Links event b h

module _ {K : Type 0} (M : Type 0) ⦃ek : Eq K⦄ (app_id : List ℕ) (sha1 : List ℕ → List ℕ)
    (unset : Peer K (List ℕ)) where
  -- The manager and its effects after events taken in turn.
  unfoldable pub run : List (Outside K × Event K M) → BitTorrentManager K → Ran K M
  unfolding process
  run [] b = does [] b
  run ((o, event) ∷ events) b =
      process M app_id o.connects sha1 unset o.erased o.rehashes event b >>= run events

  run-Links :
      (events : List (Outside K × Event K M)) (b : BitTorrentManager K)
      → IsLinked b
      → Links (run events b)
  unfolding run
  run-Links [] b h = h
  run-Links ((o, event) ∷ events) b h =
      bind-Links (process M app_id o.connects sha1 unset o.erased o.rehashes event b) (run events)
        (process-Links M app_id o.connects sha1 unset o.erased o.rehashes event b h)
        (λ b h. run-Links events b h)

-- A manager that has just been made.
abbrev pub empty : {K : Type 0} → BitTorrentManager K
empty = record {
  state = inactive;
  peer_tracker = PeerTracker.new;
  piece_man = [];
  torrents = [];
  connections = [];
}

module _ {K : Type 0} (M : Type 0) ⦃ek : Eq K⦄ (app_id : List ℕ) (sha1 : List ℕ → List ℕ)
    (unset : Peer K (List ℕ)) where
  -- In each state that the events of the manager reach from a new one, where what connect returns
  -- for a peer, what an erased entry of the tracker is read as and whether an iterator stays valid
  -- may change with each event, the torrent of every connection has a piece manager, and a message
  -- from any peer is handled without the use of one that is gone.
  pub handle_message-run :
      (events : List (Outside K × Event K M)) (effects : List (Effect K M))
      (b : BitTorrentManager K) (connects : K → Bool) (peer : K) (m : Message)
      → run M app_id sha1 unset events empty ≡ some (effects, b)
      → ((c : Protocol)
          → find peer b.connections ≡ some c
          → contains c.info_hash b.piece_man ≡ true)
        × (handle_message M app_id connects sha1 peer m b ≢ none)
  handle_message-run events effects b connects peer m e =
      let h : IsLinked b = subst Links e (run-Links M app_id sha1 unset events empty tt) in
      (
        λ c f. find-Values (Refers b.piece_man) peer c b.connections h f,
        handle_message-returns M app_id connects sha1 peer m b h,
      )
