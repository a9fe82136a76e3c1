-- ===== src/BitTorrentManager/Start.antt =====
-- The events that start a torrent.
use mathlib.Core.Option.{get_or}
use fractals.Prelude.{◌≡◌, refl, ap, Bool, true, false, none, some, List, [], ◌∷◌, ℕ}
use fractals.Prelude.Eq.{Eq, list_eq}
use fractals.Prelude.Map.{
  find, contains, is_some, assign, emplace, find-assign_self, find-emplace_self,
}
use fractals.PieceStateManager
use fractals.PieceStateManager.{
  PieceStateManager, PieceModel, populate, is_all_complete, set_active,
}
use fractals.DiskIoService
use fractals.DiskIoService.{TorrentModel, FileModel}
use fractals.PeerTracker.{Peer, activate_torrent}
use fractals.BitTorrentManager.{
  BitTorrentManager, Outside, TorrentState, process, process_start_torrent, process_pieces,
  process_trackers,
}
use fractals.BitTorrentManager.Queues.{
  Effect, Event, ResponseToApp, PersistRequest, AnnounceRequest,
}
use fractals.BitTorrentManager.Run.{run}

-- The piece manager that `process(StartTorrent)` leaves.
abbrev pub started : {K : Type 0} → List ℕ → BitTorrentManager K → PieceStateManager
started ih b = set_active true (get_or (find ih b.piece_man) PieceStateManager.new)

abbrev after_start :
    {K : Type 0} ⦃ek : Eq K⦄ → List ℕ → BitTorrentManager K → TorrentModel → BitTorrentManager K
after_start ih b model = record b {
  torrents = emplace ih (record { model = model; is_complete = false }) b.torrents;
  peer_tracker = activate_torrent ih b.peer_tracker;
  piece_man = assign ih (started ih b) b.piece_man;
}

module _ {K : Type 0} (M : Type 0) ⦃ek : Eq K⦄ (app_id : List ℕ) (connects : K → Bool) (ih : List ℕ)
    (b : BitTorrentManager K) where
  start_lem :
      (model : TorrentModel) (files : List FileModel)
      → find ih b.torrents ≡ none
      → process_start_torrent M app_id connects ih model files b
        ≡ some (
          Effect.to_app (ResponseToApp.resumed_torrent ih)
              ∷ Effect.to_disk (DiskIoService.init_torrent model files)
              ∷ [],
          after_start ih b model,
        )
  unfolding process_start_torrent contains
  start_lem model files n =
      let st : TorrentState = record { model = model; is_complete = false } in
      let f : find ih (emplace ih st b.torrents) ≡ some st =
        find-emplace_self ih st b.torrents (ap is_some n) in
      rw (f, process_start_torrent) refl

  pieces_lem :
      (result : List PieceModel) (pm : PieceStateManager)
      → find ih b.piece_man ≡ some pm
      → is_all_complete (populate result pm) ≡ false
      → process_pieces M app_id connects ih result b
        ≡ some (
          Effect.to_persist (PersistRequest.load_trackers ih) ∷ [],
          record b { piece_man = assign ih (populate result pm) b.piece_man },
        )
  unfolding process_pieces
  pieces_lem result pm e c = rw (e, c, process_pieces) refl

  trackers_lem :
      (urls : List (List ℕ)) (torrent : TorrentState)
      → find ih b.torrents ≡ some torrent
      → process_trackers M app_id connects ih urls b
        ≡ some (
          Effect.to_announce (AnnounceRequest.add_trackers ih urls)
              ∷ Effect.to_announce (AnnounceRequest.request_announce ih torrent.model)
              ∷ [],
          b,
        )
  unfolding process_trackers
  trackers_lem urls torrent e = rw (e, process_trackers) refl

module _ {K : Type 0} (M : Type 0) ⦃ek : Eq K⦄ (app_id : List ℕ) (sha1 : List ℕ → List ℕ)
    (unset : Peer K (List ℕ)) (o₁ o₂ o₃ o₄ : Outside K) where
  -- The requests of a start, and the answers that follow.
  abbrev pub startup :
      List ℕ
      → TorrentModel
      → List FileModel
      → List PieceModel
      → List (List ℕ)
      → List (Outside K × Event K M)
  startup ih model files result urls =
      (o₁, Event.start_torrent ih model files)
      ∷ (o₂, Event.torrent_initialized ih)
      ∷ (o₃, Event.pieces ih result)
      ∷ (o₄, Event.trackers ih urls)
      ∷ []

  -- When a torrent that is not known is started, the answers that its files are there, that these
  -- are its pieces, not all of them complete, and that these are its trackers lead to the requests
  -- for its files, pieces and trackers and to an announce, in this order; the pieces are then
  -- populated and the torrent is known and not complete.
  pub run-startup :
      (ih : List ℕ) (model : TorrentModel) (files : List FileModel) (result : List PieceModel)
      (urls : List (List ℕ)) (b : BitTorrentManager K)
      → find ih b.torrents ≡ none
      → is_all_complete (populate result (started ih b)) ≡ false
      → (t : BitTorrentManager K) × (run M app_id sha1 unset (startup ih model files result urls) b
          ≡ some (
            Effect.to_app (ResponseToApp.resumed_torrent ih)
                ∷ Effect.to_disk (DiskIoService.init_torrent model files)
                ∷ Effect.to_persist (PersistRequest.load_pieces ih)
                ∷ Effect.to_persist (PersistRequest.load_trackers ih)
                ∷ Effect.to_announce (AnnounceRequest.add_trackers ih urls)
                ∷ Effect.to_announce (AnnounceRequest.request_announce ih model)
                ∷ [],
            t,
          ))
        × (find ih t.piece_man ≡ some (populate result (started ih b)))
        × (find ih t.torrents ≡ some (record { model = model; is_complete = false }))
  unfolding run process contains
  run-startup ih model files result urls b n c =
      let st : TorrentState = record { model = model; is_complete = false } in
      let pm = started ih b in
      let b₁ = after_start ih b model in
      let f : find ih b₁.torrents ≡ some st = find-emplace_self ih st b.torrents (ap is_some n) in
      let b₂ : BitTorrentManager K = record b₁ {
        piece_man = assign ih (populate result pm) b₁.piece_man;
      } in
      let e₁ = start_lem M app_id o₁.connects ih b model files n in
      let e₂ =
        pieces_lem M app_id o₃.connects ih b₁ result pm (find-assign_self ih pm b.piece_man) c in
      let e₃ = trackers_lem M app_id o₄.connects ih b₂ urls st f in
      (b₂, rw (e₁, e₂, e₃) refl, find-assign_self ih (populate result pm) b₁.piece_man, f)
