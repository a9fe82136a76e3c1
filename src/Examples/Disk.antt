-- ===== src/Examples/Disk.antt =====
-- A torrent of two files, of three and of four bytes.
use fractals.Prelude.{ℕ, ◌≡◌, refl, true, Option, none, List, [], ◌∷◌, arith}
use fractals.Prelude.Map.{find, contains}
use fractals.Protocol.{WriteData}
use fractals.DiskIoService.{
  FileModel, TorrentModel, DiskIoService, delete_torrent, init_torrent, write_success,
  process_init_torrent, process_write_data, write_loop,
}
use fractals.DiskIoService.Files.{Store, stream, apply_writes}
use fractals.DiskIoService.Split.{process_write_data-stream}
use fractals.DiskIoService.Requests.{run, process_init_torrent-run}

abbrev model : TorrentModel
model = record { torrent_hash = 7 ∷ []; torrent_dir = 1 ∷ [] }

abbrev files : List FileModel
files =
    record { file_name = 2 ∷ []; dir_name = []; file_length = 3 }
    ∷ record { file_name = 3 ∷ []; dir_name = []; file_length = 4 }
    ∷ []

abbrev known : DiskIoService
known = record { is_active = true; torrents = (7 ∷ [], (model, files)) ∷ [] }

-- One byte of the first file and three of the second.
abbrev across : WriteData
across = record { info_hash = 7 ∷ []; piece_index = 1; m_data = 11 ∷ 12 ∷ 13 ∷ 14 ∷ []; offset = 2 }

abbrev load : List ℕ → Option ℕ
load path = none

abbrev zeros : Store
zeros path i = 0

process_write_data-stream_example :
    stream
      (1 ∷ [])
      files
      (apply_writes ((process_write_data (λ path. true) {M = ℕ} across known).writes) zeros)
      4
    ≡ 13
unfolding find contains
process_write_data-stream_example =
    process_write_data-stream (λ path. true) ℕ across known model files zeros 4 refl
      (refl, (refl, tt)) ((ground arith, tt), (tt, tt)) (omega arith) (omega arith)

process_init_torrent-run_example :
    let t =
      run load
        (λ path. true)
        (λ path. true)
        (λ path. true)
        (init_torrent model files ∷ delete_torrent (7 ∷ []) ∷ [])
        (record { is_active = true; torrents = [] }) in
    ((process_init_torrent (λ path. true) (λ path. true) {M = ℕ} model [] t).responses ≡ [])
    × ((process_write_data (λ path. true) {M = ℕ} across t).responses
        ≡ write_success (7 ∷ []) 1 ∷ [])
    × ((process_write_data (λ path. true) {M = ℕ} across t).writes
        ≡ write_loop (λ path. true) (1 ∷ []) 0 2 (11 ∷ 12 ∷ 13 ∷ 14 ∷ []) files)
unfolding find contains
process_init_torrent-run_example =
    process_init_torrent-run load (λ path. true) (λ path. true) (λ path. true) model model files []
      (delete_torrent (7 ∷ []) ∷ []) (record { is_active = true; torrents = [] }) across refl refl
      refl
