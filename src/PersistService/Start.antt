-- ===== src/PersistService/Start.antt =====
-- The requests with which the peer manager starts a new torrent: it adds the torrent and loads its
-- pieces and its trackers.
use fractals.Prelude.{ℕ, ◌≡◌, refl, some, List, [], ◌∷◌, map}
use fractals.Database.{Sql, PieceRow, TrackerRow}
use fractals.Bencode.TorrentMeta.{TorrentMeta}
use fractals.PersistClient.{PersistClient, Added}
use fractals.PersistClient
use fractals.PersistClient.Pieces.{values}
use fractals.PersistClient.Stored.{AreStored}
use fractals.PersistClient.Adding.{CanAdd, add_torrent-AreStored}
use fractals.PersistService.{
  PersistService, add_torrent, load_pieces, load_trackers, added, pieces, trackers,
  process_bt_event, process_bt_events,
}

module _ {Table : Type 0 → Type 0} (sql : Sql Table) (filename parent_path : List ℕ → List ℕ) where
  -- The responses to the three requests, once the store took the torrent.
  responses :
      (tm : TorrentMeta) (path write_path : List ℕ) (s : PersistService Table) (a : Added)
      (c : PersistClient Table)
      → PersistClient.add_torrent sql filename parent_path tm path write_path s.client ≡ some (a, c)
      → process_bt_events sql filename parent_path
          (add_torrent tm path write_path
            ∷ load_pieces tm.info_hash
            ∷ load_trackers tm.info_hash
            ∷ [])
          s
        ≡ some (
          added a
              ∷ pieces tm.info_hash (PersistClient.load_pieces sql tm.info_hash c)
              ∷ trackers tm.info_hash (PersistClient.load_trackers sql tm.info_hash c)
              ∷ [],
          record s { client = c },
        )
  unfolding process_bt_events process_bt_event
  responses tm path write_path s a c e = rw (e, process_bt_events) refl

  -- Over any database that keeps the rows inserted, when a torrent of m + 1 pieces, fewer than 2 ^
  -- 32, with 20 bytes of hash for each and a size below 2 ^ 64 that is no less than the pieces but
  -- the last need, is added that the store does not know, with a name of its own and no row under
  -- its new key, and its pieces and trackers are then asked for, the three responses come in this
  -- order; the pieces have the indices 0 to m, the hashes of the torrent one after another and its
  -- size in all, none of them is complete, and the trackers are the announce URL and those of the
  -- announce list.
  pub process_bt_events-AreStored :
      (m : ℕ) (tm : TorrentMeta) (path write_path : List ℕ) (s : PersistService Table)
      → CanAdd sql filename parent_path m tm path write_path s.client
      → (a : Added) × (ps : List (ℕ × PieceRow)) × (ts : List (ℕ × TrackerRow))
        × (s' : PersistService Table) × (process_bt_events sql filename parent_path
              (add_torrent tm path write_path
                ∷ load_pieces tm.info_hash
                ∷ load_trackers tm.info_hash
                ∷ [])
              s
            ≡ some (added a ∷ pieces tm.info_hash ps ∷ trackers tm.info_hash ts ∷ [], s'))
        × AreStored m tm (values ps)
        × (map (λ (r : TrackerRow). r.url) (values ts)
            ≡ tm.meta_info.announce ∷ tm.meta_info.announce_list)
  process_bt_events-AreStored m tm path write_path s h =
      let (a, c, e, stored, tracked) =
        add_torrent-AreStored sql filename parent_path m tm path write_path s.client h in
      (
        a,
        PersistClient.load_pieces sql tm.info_hash c,
        PersistClient.load_trackers sql tm.info_hash c,
        record s { client = c },
        responses tm path write_path s a c e,
        stored,
        tracked,
      )
