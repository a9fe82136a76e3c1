-- ===== src/DiskIoService/Requests.antt =====
-- Sequences of requests to the disk service.
use fractals.Prelude.{
  ◌≡◌, refl, ap, Bool, false, Option, some, List, [], ◌∷◌, ℕ, Bool-cases, Option-cases, inl, inr,
}
use fractals.Prelude.Eq.{list_eq}
use fractals.Prelude.Map.{find, contains, find-emplace_kept, find-emplace_self}
use fractals.Protocol.{WriteData}
use fractals.DiskIoService.{
  DiskIoService, TorrentModel, FileModel, Request, read, init_torrent, write_data, delete_torrent,
  shutdown, process_request, process_write_data, process_init_torrent, process_read, write_loop,
  write_success,
}

module _ {ℓ} {M : Type ℓ} (load : List ℕ → Option M)
    (opens creates_directories creates_file : List ℕ → Bool) where
  -- The state after requests taken in turn.
  unfoldable pub run : List Request → DiskIoService → DiskIoService
  unfolding process_request process_read process_init_torrent process_write_data
  run [] s = s
  run (r ∷ requests) s =
      run requests ((process_request load opens creates_directories creates_file r s).service)

  find-process_request :
      (r : Request) (s : DiskIoService) (h : List ℕ) (x : TorrentModel × List FileModel)
      → find h s.torrents ≡ some x
      → find h ((process_request load opens creates_directories creates_file r s).service.torrents)
        ≡ some x
  unfolding process_request process_read process_init_torrent process_write_data
  find-process_request (read path) s h x e = e
  find-process_request (init_torrent model files) s h x e =
      elim (Bool-cases (contains model.torrent_hash s.torrents)) [
        | inl c ↦ rw c e
        | inr c ↦ rw c (find-emplace_kept model.torrent_hash h (model, files) x s.torrents e)
      ]
  find-process_request (write_data w) s h x e = elim (Option-cases (find w.info_hash s.torrents)) [
    | inl c ↦ rw (c, process_request, process_write_data) e
    | inr (y, c) ↦ rw (c, process_request, process_write_data) e
  ]
  find-process_request (delete_torrent info_hash) s h x e = e
  find-process_request shutdown s h x e = e

  find-run :
      (requests : List Request) (s : DiskIoService) (h : List ℕ) (x : TorrentModel × List FileModel)
      → find h s.torrents ≡ some x
      → find h (run requests s).torrents ≡ some x
  unfolding run
  find-run [] s h x e = e
  find-run (r ∷ requests) s h x e =
      find-run requests ((process_request load opens creates_directories creates_file r s).service)
        h x (find-process_request r s h x e)

  find-process_init_torrent :
      (model : TorrentModel) (files : List FileModel) (s : DiskIoService)
      → contains model.torrent_hash s.torrents ≡ false
      → find model.torrent_hash (
          (process_init_torrent creates_directories creates_file {M = M} model files
            s).service.torrents)
        ≡ some (model, files)
  unfolding process_init_torrent
  find-process_init_torrent model files s c =
      rw (c, process_init_torrent)
        (find-emplace_self model.torrent_hash (model, files) s.torrents c)

  process_init_torrent_known :
      (model : TorrentModel) (files : List FileModel) (s : DiskIoService)
      (x : TorrentModel × List FileModel)
      → find model.torrent_hash s.torrents ≡ some x
      → (process_init_torrent creates_directories creates_file {M = M} model files s).responses ≡ []
  unfolding process_init_torrent contains
  process_init_torrent_known model files s x e = rw (e, process_init_torrent, contains) refl

  process_write_data_known :
      (w : WriteData) (s : DiskIoService) (model : TorrentModel) (files : List FileModel)
      → find w.info_hash s.torrents ≡ some (model, files)
      → process_write_data opens {M = M} w s ≡ record {
        service = s;
        writes = write_loop opens model.torrent_dir 0 w.offset w.m_data files;
        responses = write_success w.info_hash w.piece_index ∷ [];
      }
  unfolding process_write_data
  process_write_data_known w s model files e = rw (e, process_write_data) refl

  -- Once `process(InitTorrent)` has taken a torrent that it did not know, then after any further
  -- requests, one to delete the torrent included, a second `InitTorrent` of its info hash gets no
  -- answer, and a `WriteData` for it is answered with a success and is split over the files of the
  -- first request.
  pub process_init_torrent-run :
      (model again : TorrentModel) (files files_again : List FileModel) (requests : List Request)
      (s : DiskIoService) (w : WriteData)
      → contains model.torrent_hash s.torrents ≡ false
      → again.torrent_hash ≡ model.torrent_hash
      → w.info_hash ≡ model.torrent_hash
      → let t = run (init_torrent model files ∷ requests) s in
        ((process_init_torrent creates_directories creates_file {M = M} again files_again
            t).responses
          ≡ [])
        × ((process_write_data opens {M = M} w t).responses
            ≡ write_success w.info_hash w.piece_index ∷ [])
        × ((process_write_data opens {M = M} w t).writes
            ≡ write_loop opens model.torrent_dir 0 w.offset w.m_data files)
  unfolding run process_request
  process_init_torrent-run model again files files_again requests s w c ha hw =
      let t = run (init_torrent model files ∷ requests) s in
      let f : find model.torrent_hash t.torrents ≡ some (model, files) =
        find-run requests _ model.torrent_hash (model, files)
          (find-process_init_torrent model files s c) in
      let k = process_write_data_known w t model files (rw hw f) in
      (
        process_init_torrent_known again files_again t (model, files) (rw ha f),
        ap (λ d. d.responses) k,
        ap (λ d. d.writes) k,
      )
