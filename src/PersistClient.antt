-- ===== src/PersistClient.antt =====
-- include/fractals/persist/PersistClient.h, Event.h and src/fractals/persist/PersistClient.cpp: the
-- store of torrents. The database is the interface of Database. What `std::filesystem` gives for the
-- last part of a path and for the rest is a parameter. `none` is a call that throws or fails an
-- `assert`.
pub mod Pieces
pub mod Stored
pub mod Adding
pub mod Rows
pub mod Stats
pub mod Changes
pub mod Removal
use fractals.Prelude.{
  ℕ, zero, suc, ◌+◌, ◌-◌, ◌*◌, ◌/◌, ◌%◌, ◌^◌, Bool, true, false, Option, none, some, List, [], ◌∷◌,
  ◌++◌, map, if◌then◌else◌, ◌==◌, ◌&&◌, ltb, length, take, drop,
}
use fractals.Prelude.Eq.{list_eq}
use fractals.Prelude.Map.{Map, find, contains, assign, emplace, erase}
use fractals.MetaInfo.{FileInfo, InfoDict, MetaInfo}
use fractals.Bencode.TorrentMeta.{TorrentMeta, get_size}
use fractals.TrackerResponse.{intercalate}
use fractals.Database.{
  Sql, AnnounceRow, PieceRow, TrackerRow, FileRow, TorrentRow, select, conflicts,
}

pub record TorrentStats : Type 0 where
  pub torr_id : ℕ
  pub info_hash : List ℕ
  pub downloaded : ℕ
  pub uploaded : ℕ

pub record PersistClient (Table : Type 0 → Type 0) : Type 0 where
  pub torrents : Table TorrentRow
  pub files : Table FileRow
  pub pieces : Table PieceRow
  pub trackers : Table TrackerRow
  pub announces : Table AnnounceRow
  pub torrent_ids : Map (List ℕ) ℕ
  pub in_memory_stats : Map (List ℕ) TorrentStats

-- `AddedTorrent` and `TorrentExists`.
pub data Added : Type 0 where
  added_torrent : ℕ → TorrentRow → List FileRow → Added
  torrent_exists : List ℕ → Added

-- `string_view::substr`.
unfoldable pub substr : ℕ → ℕ → List ℕ → Option (List ℕ)
substr pos n view = if ltb (length view) pos then none else some (take n (drop pos view))

-- `InfoDict::numberOfPieces`.
abbrev pub number_of_pieces : InfoDict → ℕ
number_of_pieces i = length i.pieces / 20

-- The row that `addTorrent` makes of a torrent. The count of pieces is that of the bytes of all hashes.
abbrev pub torrent_row : TorrentMeta → List ℕ → List ℕ → TorrentRow
torrent_row tm torrent_file_path write_path = record {
  info_hash = tm.info_hash;
  name = tm.name;
  dir_name = tm.dir;
  meta_info_path = torrent_file_path;
  write_path = write_path;
  size = get_size tm;
  num_pieces = length tm.meta_info.info.pieces;
  piece_length = tm.meta_info.info.piece_length;
  creation_date = tm.meta_info.creation_date;
  comment = tm.meta_info.comment;
  created_by = tm.meta_info.created_by;
  encoding = tm.meta_info.encoding;
  publish = tm.meta_info.info.publish;
}

-- `get_all` of the rows of a torrent, if it is known.
abbrev pub rows_of : {A : Type 0} → (A → ℕ) → Option ℕ → List (ℕ × A) → List (ℕ × A)
rows_of f none rows = []
rows_of f (some id) rows = select (λ r. f r.1 == id) rows

-- `numPieces - 1`, a `uint32_t`.
unfoldable pub loop_rounds : InfoDict → ℕ
loop_rounds i = (number_of_pieces i % 2 ^ 32 + 2 ^ 32 - 1) % 2 ^ 32

-- `lastPieceSize`, a `uint64_t`.
unfoldable pub last_piece_size : TorrentMeta → ℕ
last_piece_size tm =
    let info = tm.meta_info.info in
    let others = (number_of_pieces info + 2 ^ 64 - 1) % 2 ^ 64 in
    (get_size tm + 2 ^ 64 - info.piece_length * others % 2 ^ 64) % 2 ^ 64

module _ {Table : Type 0 → Type 0} (sql : Sql Table) where
  -- The loops of `addTorrent`: over the files,
  unfoldable pub insert_files : List FileRow → Table FileRow → Table FileRow
  insert_files [] t = t
  insert_files (f ∷ fs) t = insert_files fs (sql.insert f t).1

  -- the pieces but the last, with the rounds that are left and the index,
  unfoldable pub insert_pieces :
      ℕ → ℕ → ℕ → ℕ → List ℕ → Table PieceRow → Option (ℕ × Table PieceRow)
  insert_pieces zero index id size hashes t = some (index, t)
  insert_pieces (suc n) index id size hashes t = elim (substr (index * 20) 20 hashes) [
    | none ↦ none
    | some hash ↦
        insert_pieces n (index + 1) id size hashes
          (sql.insert
            (record { torrent_id = id; piece = index; size = size; hash = hash; complete = false })
            t).1
  ]

  -- and the trackers.
  unfoldable pub insert_trackers : ℕ → List (List ℕ) → Table TrackerRow → Table TrackerRow
  insert_trackers id [] t = t
  insert_trackers id (url ∷ urls) t =
      insert_trackers id urls (sql.insert (record { torrent_id = id; url = url }) t).1

  -- All pieces.
  unfoldable pub insert_all_pieces : ℕ → TorrentMeta → Table PieceRow → Option (Table PieceRow)
  insert_all_pieces id tm t =
      let info = tm.meta_info.info in
      elim (insert_pieces (loop_rounds info) 0 id info.piece_length info.pieces t) [
        | none ↦ none
        | some (index, t') ↦ elim (substr (index * 20) 20 info.pieces) [
          | none ↦ none
          | some hash ↦
              some
                (sql.insert
                  (record {
                    torrent_id = id;
                    piece = index;
                    size = last_piece_size tm;
                    hash = hash;
                    complete = false;
                  })
                  t').1
        ]
      ]

  unfoldable pub load_pieces : List ℕ → PersistClient Table → List (ℕ × PieceRow)
  load_pieces ih c =
      rows_of (λ (r : PieceRow). r.torrent_id) (find ih c.torrent_ids) (sql.rows c.pieces)

  unfoldable pub load_trackers : List ℕ → PersistClient Table → List (ℕ × TrackerRow)
  load_trackers ih c =
      rows_of (λ (r : TrackerRow). r.torrent_id) (find ih c.torrent_ids) (sql.rows c.trackers)

  unfoldable pub load_announces : List ℕ → PersistClient Table → List (ℕ × AnnounceRow)
  load_announces ih c =
      rows_of (λ (r : AnnounceRow). r.torrent_id) (find ih c.torrent_ids) (sql.rows c.announces)

-- An `int` as a `uint64_t`.
abbrev pub extended : ℕ → ℕ
extended n = if ltb n (2 ^ 31) then n else n + 2 ^ 64 - 2 ^ 32

-- The `std::accumulate` of `loadTorrentStats`, whose accumulator is an `int`.
unfoldable pub accumulate : ℕ → List (ℕ × PieceRow) → ℕ
accumulate acc [] = acc
accumulate acc ((id, p) ∷ ps) =
    accumulate ((extended acc + (if p.complete then p.size else 0)) % 2 ^ 64 % 2 ^ 32) ps

module _ {Table : Type 0 → Type 0} (sql : Sql Table) where
  unfoldable pub load_torrent_stats :
      List ℕ → PersistClient Table → TorrentStats × PersistClient Table
  load_torrent_stats ih c = elim (find ih c.in_memory_stats) [
    | some stats ↦ (stats, c)
    | none ↦
        let stats : TorrentStats = record {
          torr_id = 0;
          info_hash = ih;
          downloaded = extended (accumulate 0 (load_pieces sql ih c));
          uploaded = 0;
        } in
        (stats, record c { in_memory_stats = emplace ih stats c.in_memory_stats })
  ]

module _ {Table : Type 0 → Type 0} (sql : Sql Table) (filename parent_path : List ℕ → List ℕ) where
  abbrev pub file_row : ℕ → FileInfo → FileRow
  file_row id fi =
      let full_name = intercalate (47 ∷ []) fi.path in
      record {
        torrent_id = id;
        file_name = filename full_name;
        dir_name = parent_path full_name;
        file_length = fi.file_length;
        md5sum = fi.md5sum;
      }

  -- The rows of a torrent, with its pieces already stored.
  abbrev pub with_torrent :
      TorrentMeta → TorrentRow → Table PieceRow → PersistClient Table → PersistClient Table
  with_torrent tm row pieces c =
      let (id, torrents) = sql.insert row c.torrents in
      record c {
        torrents = torrents;
        torrent_ids = emplace tm.info_hash id c.torrent_ids;
        files = insert_files sql (map (file_row id) tm.files) c.files;
        pieces = pieces;
        trackers =
            insert_trackers sql id (tm.meta_info.announce ∷ tm.meta_info.announce_list) c.trackers;
      }

  unfoldable pub add_torrent :
      TorrentMeta → List ℕ → List ℕ → PersistClient Table → Option (Added × PersistClient Table)
  add_torrent tm torrent_file_path write_path c =
      let row = torrent_row tm torrent_file_path write_path in
      let id = (sql.insert row c.torrents).0 in
      let inserted : Option (Added × PersistClient Table) =
        elim (insert_all_pieces sql id tm c.pieces) [
          | none ↦ none
          | some pieces ↦ some (
            added_torrent id row (map (file_row id) tm.files),
            (load_torrent_stats sql tm.info_hash (with_torrent tm row pieces c)).1,
          )
        ] in
      if contains tm.info_hash c.torrent_ids
      then some (torrent_exists tm.info_hash, c)
      else if conflicts row (sql.rows c.torrents)
      then none
      else inserted
