-- ===== src/DiskIoService.antt =====
-- include/fractals/disk/DiskIOService.h: the requests to the disk and its answers. The file system is
-- the section's parameters: which paths can be opened, and which directories and files can be
-- created. A call of `ioLayer.writeFrom` is returned as a `Write`. A torrent file is read by other
-- components, whose result is the parameter `load`. A path is its bytes, and so is an info hash.
pub mod Files
pub mod Split
pub mod Requests
use fractals.Prelude.{
  ℕ, zero, suc, ◌+◌, ◌-◌, ◌%◌, ◌^◌, min, Bool, true, false, ◌&&◌, Option, none, some, List, [], ◌∷◌,
  ◌++◌, if◌then◌else◌, length, take, drop, ltb, leb,
}
use fractals.Prelude.Eq.{Eq, list_eq}
use fractals.Prelude.Map.{Map, find, contains, emplace}
use fractals.Protocol.{WriteData}

-- `persist::FileModel`, less its keys and its checksum.
pub record FileModel : Type 0 where
  pub file_name : List ℕ
  pub dir_name : List ℕ
  pub file_length : ℕ

-- The fields of `persist::TorrentModel` that the service reads.
pub record TorrentModel : Type 0 where
  pub torrent_hash : List ℕ
  pub torrent_dir : List ℕ

-- One call of `writeFrom` on a file that is open.
pub record Write : Type 0 where
  pub path : List ℕ
  pub at : ℕ
  pub bytes : List ℕ

abbrev pub to_file_path : List ℕ → FileModel → List ℕ
to_file_path torrent_dir f = torrent_dir ++ (47 ∷ f.dir_name ++ (47 ∷ f.file_name))

pub record DiskIoService : Type 0 where
  pub is_active : Bool
  pub torrents : Map (List ℕ) (TorrentModel × List FileModel)

-- `disk::DiskResponse`. The service has no call that gives a `read_error` or a `write_error`.
pub data Response {ℓ} (M : Type ℓ) : Type ℓ where
  read_success : M → List ℕ → Response M
  read_error : List ℕ → Response M
  write_success : List ℕ → ℕ → Response M
  write_error : List ℕ → Response M
  torrent_initialized : List ℕ → Response M

-- `disk::DiskRequest`.
pub data Request : Type 0 where
  read : List ℕ → Request
  init_torrent : TorrentModel → List FileModel → Request
  write_data : WriteData → Request
  delete_torrent : List ℕ → Request
  shutdown : Request

pub record Done {ℓ} (M : Type ℓ) : Type ℓ where
  pub service : DiskIoService
  pub writes : List Write
  pub responses : List (Response M)

module _ (opens : List ℕ → Bool) where
  -- `writeToFile`. The offset becomes an `int64_t`; where that is negative, the seek fails, and so does
  -- the write.
  unfoldable pub write_to_file : List ℕ → ℕ → List ℕ → List Write
  write_to_file path offset buffer =
      if opens path && ltb offset (2 ^ 63)
      then record { path = path; at = offset; bytes = buffer } ∷ []
      else []

  -- The loop of `process(WriteData)` over the files. The numbers are `uint64_t`.
  unfoldable pub write_loop : List ℕ → ℕ → ℕ → List ℕ → List FileModel → List Write
  unfolding write_to_file
  write_loop dir index offset view [] = []
  write_loop dir index offset view (f ∷ files) =
      let end = (index + f.file_length) % 2 ^ 64 in
      let n = min (length view) (end - offset) in
      let rest = write_loop dir end ((offset + n) % 2 ^ 64) (drop n view) files in
      let skipped = write_loop dir end offset view files in
      if leb index offset && ltb offset end
      then write_to_file (to_file_path dir f) (offset - index) (take n view) ++ rest
      else skipped

  unfoldable pub process_write_data {ℓ} : {M : Type ℓ} → WriteData → DiskIoService → Done M
  unfolding write_loop
  process_write_data w s = elim (find w.info_hash s.torrents) [
    | none ↦ record { service = s; writes = []; responses = [] }
    | some (model, files) ↦ record {
      service = s;
      writes = write_loop model.torrent_dir 0 w.offset w.m_data files;
      responses = write_success w.info_hash w.piece_index ∷ [];
    }
  ]

module _ (creates_directories creates_file : List ℕ → Bool) where
  -- Whether the loop of `process(InitTorrent)` gets to its end.
  unfoldable pub create_files : List ℕ → List FileModel → Bool
  create_files dir [] = true
  create_files dir (f ∷ files) =
      let rest = create_files dir files in
      if creates_directories (to_file_path dir f)
      then creates_file (to_file_path dir f) && rest
      else rest

  unfoldable pub process_init_torrent {ℓ} :
      {M : Type ℓ} → TorrentModel → List FileModel → DiskIoService → Done M
  unfolding create_files
  process_init_torrent model files s =
      if contains model.torrent_hash s.torrents
      then record { service = s; writes = []; responses = [] }
      else record {
        service = record s { torrents = emplace model.torrent_hash (model, files) s.torrents };
        writes = [];
        responses =
            if create_files model.torrent_dir files
            then torrent_initialized model.torrent_hash ∷ []
            else [];
      }

-- `load` opens, decodes and converts a torrent file; each failure ends `process(Read)` alike.
unfoldable pub process_read {ℓ} :
    {M : Type ℓ} → (List ℕ → Option M) → List ℕ → DiskIoService → Done M
process_read load path s = record {
  service = s;
  writes = [];
  responses = elim (load path) [ none ↦ [] | some m ↦ read_success m path ∷ [] ];
}

module _ {ℓ} {M : Type ℓ} (load : List ℕ → Option M)
    (opens creates_directories creates_file : List ℕ → Bool) where
  -- `processRequest`.
  unfoldable pub process_request : Request → DiskIoService → Done M
  unfolding process_read process_init_torrent process_write_data
  process_request (read path) s = process_read load path s
  process_request (init_torrent model files) s =
      process_init_torrent creates_directories creates_file model files s
  process_request (write_data w) s = process_write_data opens w s
  process_request (delete_torrent info_hash) s = record { service = s; writes = []; responses = [] }
  process_request shutdown s = record {
    service = record s { is_active = false };
    writes = [];
    responses = [];
  }
