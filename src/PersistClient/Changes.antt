-- ===== src/PersistClient/Changes.antt =====
-- src/fractals/persist/PersistClient.cpp: what the store does with torrents that it has. `none` is a
-- call that throws or fails an `assert`.
use fractals.Prelude.{
  ℕ, ◌+◌, ◌%◌, ◌^◌, true, Option, none, some, List, [], ◌∷◌, if◌then◌else◌, ◌==◌, ◌&&◌,
}
use fractals.Prelude.Eq.{list_eq}
use fractals.Prelude.Map.{Map, find, contains, assign, emplace, erase}
use fractals.Database.{Sql, AnnounceRow, FileRow, TorrentRow, select}
use fractals.PersistClient.{PersistClient, TorrentStats, load_torrent_stats, insert_trackers}

module _ {Table : Type 0 → Type 0} (sql : Sql Table) where
  -- `get_all<TorrentModel>` by the key of a torrent.
  unfoldable pub load_torrent :
      List ℕ → PersistClient Table → Option (ℕ × TorrentRow) × PersistClient Table
  load_torrent ih c = elim (find ih c.torrent_ids) [
    | none ↦ (none, c)
    | some id ↦ elim (select (λ r. r.0 == id) (sql.rows c.torrents)) [
      | [] ↦ (none, c)
      | row ∷ rows ↦ (some row, (load_torrent_stats sql ih c).1)
    ]
  ]

  -- The rows of all torrents, each with its files, and their keys.
  abbrev with_files :
      PersistClient Table → List (ℕ × TorrentRow) → List ((ℕ × TorrentRow) × List (ℕ × FileRow))
  with_files c [] = []
  with_files c ((id, t) ∷ ts) =
      ((id, t), select (λ r. r.1.torrent_id == id) (sql.rows c.files)) ∷ with_files c ts

  abbrev ids_of : List (ℕ × TorrentRow) → Map (List ℕ) ℕ → Map (List ℕ) ℕ
  ids_of [] ids = ids
  ids_of ((id, t) ∷ ts) ids = ids_of ts (emplace t.info_hash id ids)

  unfoldable pub load_torrents :
      PersistClient Table → List ((ℕ × TorrentRow) × List (ℕ × FileRow)) × PersistClient Table
  load_torrents c =
      let rows = sql.rows c.torrents in
      (with_files c rows, record c { torrent_ids = ids_of rows c.torrent_ids })

  unfoldable pub delete_torrent : List ℕ → PersistClient Table → PersistClient Table
  delete_torrent ih c = elim (find ih c.torrent_ids) [
    | none ↦ c
    | some id ↦ record {
      pieces = sql.remove_where (λ r. r.1.torrent_id == id) c.pieces;
      announces = sql.remove_where (λ r. r.1.torrent_id == id) c.announces;
      trackers = sql.remove_where (λ r. r.1.torrent_id == id) c.trackers;
      files = sql.remove_where (λ r. r.1.torrent_id == id) c.files;
      torrents = sql.remove_where (λ r. r.0 == id) c.torrents;
      torrent_ids = erase ih c.torrent_ids;
      in_memory_stats = erase ih c.in_memory_stats;
    }
  ]

  unfoldable pub add_trackers : List ℕ → List (List ℕ) → PersistClient Table → PersistClient Table
  add_trackers ih urls c = elim (find ih c.torrent_ids) [
    | none ↦ c
    | some id ↦ record c { trackers = insert_trackers sql id urls c.trackers }
  ]

  -- `inMemoryStats[ih].downloaded += size`, where missing stats are made.
  abbrev downloaded_more : List ℕ → ℕ → Map (List ℕ) TorrentStats → Map (List ℕ) TorrentStats
  downloaded_more ih size m =
      let stats : TorrentStats = elim (find ih m) [
        | none ↦ record { torr_id = 0; info_hash = []; downloaded = 0; uploaded = 0 }
        | some s ↦ s
      ] in
      assign ih (record stats { downloaded = (stats.downloaded + size) % 2 ^ 64 }) m

  -- The `assert` wants one row.
  unfoldable pub add_piece : List ℕ → ℕ → PersistClient Table → Option (PersistClient Table)
  add_piece ih piece c = elim (find ih c.torrent_ids) [
    | none ↦ some c
    | some id ↦
        elim (select (λ r. r.1.piece == piece && r.1.torrent_id == id) (sql.rows c.pieces)) [
          | [] ↦ none
          | (key, p) ∷ [] ↦ some (record c {
            pieces = sql.update key (record p { complete = true }) c.pieces;
            in_memory_stats = downloaded_more ih p.size c.in_memory_stats;
          })
          | p ∷ q ∷ rows ↦ none
        ]
  ]

  -- Both end in `assert(false)` for a torrent that is known.
  unfoldable pub delete_pieces : List ℕ → PersistClient Table → Option (PersistClient Table)
  delete_pieces ih c = if contains ih c.torrent_ids then none else some c

  unfoldable pub delete_announce : List ℕ → PersistClient Table → Option (PersistClient Table)
  delete_announce ih c = if contains ih c.torrent_ids then none else some c

  -- The row, but for the key of the torrent, is that of the request.
  unfoldable pub add_announce : List ℕ → AnnounceRow → PersistClient Table → PersistClient Table
  add_announce ih row c = elim (find ih c.torrent_ids) [
    | none ↦ c
    | some id ↦ record c { announces = (sql.insert (record row { torrent_id = id }) c.announces).1 }
  ]
