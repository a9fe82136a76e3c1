-- ===== src/PersistClient/Adding.antt =====
-- `addTorrent`, and what `loadPieces` gives after it.
use fractals.Prelude.{
  ℕ, false, ◌≡◌, refl, ◌∙◌, sym, ap, subst, inl, inr, Option, some, List, [], ◌∷◌, ◌++◌, append-nil,
  append_assoc, map, All, Option-cases,
}
use fractals.Prelude.Eq.{list_eq}
use fractals.Prelude.Map.{find, contains, find-emplace_self}
use fractals.Database.{Sql, PieceRow, TrackerRow, conflicts}
use fractals.Bencode.TorrentMeta.{TorrentMeta}
use fractals.PersistClient.{
  PersistClient, Added, added_torrent, add_torrent, torrent_row, with_torrent, file_row,
  load_pieces, load_trackers, rows_of, insert_trackers, load_torrent_stats,
}
use fractals.PersistClient.Rows.{of_torrent, Lacks, values-select, of_torrent_new}
use fractals.PersistClient.Pieces.{
  values-insert, values, all_rows, HasPieces, insert_all_pieces-all_rows,
}
use fractals.PersistClient.Stored.{AreStored, all_rows-AreStored, all_rows-IsNew, All-IsNew_ids}

-- The rows of the trackers of a torrent.
abbrev tracker_rows : ℕ → List (List ℕ) → List TrackerRow
tracker_rows id [] = []
tracker_rows id (url ∷ urls) = record { torrent_id = id; url = url } ∷ tracker_rows id urls

tracker_rows_ids :
    (id : ℕ) (urls : List (List ℕ))
    → All (λ (r : TrackerRow). r.torrent_id ≡ id) (tracker_rows id urls)
tracker_rows_ids id [] = tt
tracker_rows_ids id (url ∷ urls) = (refl, tracker_rows_ids id urls)

urls-tracker_rows :
    (id : ℕ) (urls : List (List ℕ)) → map (λ (r : TrackerRow). r.url) (tracker_rows id urls) ≡ urls
urls-tracker_rows id [] = refl
urls-tracker_rows id (url ∷ urls) = ap (◌∷◌ url) (urls-tracker_rows id urls)

module _ {Table : Type 0 → Type 0} (sql : Sql Table) where
  -- Reading the counts leaves the pieces.
  load_pieces-load_torrent_stats :
      (ih j : List ℕ) (c : PersistClient Table)
      → load_pieces sql j (load_torrent_stats sql ih c).1 ≡ load_pieces sql j c
  unfolding load_pieces load_torrent_stats
  load_pieces-load_torrent_stats ih j c = elim (Option-cases (find ih c.in_memory_stats)) [
    | inl n ↦ rw (n, load_torrent_stats) refl
    | inr (s, e) ↦ rw (e, load_torrent_stats) refl
  ]

  load_trackers-load_torrent_stats :
      (ih j : List ℕ) (c : PersistClient Table)
      → load_trackers sql j (load_torrent_stats sql ih c).1 ≡ load_trackers sql j c
  unfolding load_trackers load_torrent_stats
  load_trackers-load_torrent_stats ih j c = elim (Option-cases (find ih c.in_memory_stats)) [
    | inl n ↦ rw (n, load_torrent_stats) refl
    | inr (s, e) ↦ rw (e, load_torrent_stats) refl
  ]

  values-rows_of :
      {A : Type 0} (f : A → ℕ) (o : Option ℕ) (id : ℕ) (rows : List (ℕ × A))
      → o ≡ some id
      → values (rows_of f o rows) ≡ of_torrent f id (values rows)
  values-rows_of f o id rows e = ap (λ x. values (rows_of f x rows)) e ∙ values-select f id rows

  insert_trackers-tracker_rows :
      (id : ℕ) (urls : List (List ℕ)) (t : Table TrackerRow)
      → values (sql.rows (insert_trackers sql id urls t))
        ≡ values (sql.rows t) ++ tracker_rows id urls
  unfolding insert_trackers
  insert_trackers-tracker_rows id [] t = sym (append-nil _)
  insert_trackers-tracker_rows id (url ∷ urls) t =
      let row : TrackerRow = record { torrent_id = id; url = url } in
      insert_trackers-tracker_rows id urls (sql.insert row t).1
      ∙ ap (λ l. l ++ tracker_rows id urls) (values-insert sql row t)
      ∙ append_assoc (values (sql.rows t)) (row ∷ []) (tracker_rows id urls)

module _ {Table : Type 0 → Type 0} (sql : Sql Table) (filename parent_path : List ℕ → List ℕ)
    (m : ℕ) (tm : TorrentMeta) (torrent_file_path write_path : List ℕ)
    (c : PersistClient Table) where
  -- A torrent that can be added: the store does not know it, no other has its name, and no row refers to
  -- the key that it will get.
  pub record CanAdd : Type 0 where
    pub has : HasPieces m tm
    pub new : contains tm.info_hash c.torrent_ids ≡ false
    pub free : conflicts (torrent_row tm torrent_file_path write_path) (sql.rows c.torrents) ≡ false
    pub no_pieces :
        Lacks
          (λ (r : PieceRow). r.torrent_id)
          (sql.insert (torrent_row tm torrent_file_path write_path) c.torrents).0
          (sql.rows c.pieces)
    pub no_trackers :
        Lacks
          (λ (r : TrackerRow). r.torrent_id)
          (sql.insert (torrent_row tm torrent_file_path write_path) c.torrents).0
          (sql.rows c.trackers)

  pub add_torrent-AreStored :
      CanAdd
      → (a : Added) × (c' : PersistClient Table) × (add_torrent sql filename parent_path tm
            torrent_file_path write_path c
          ≡ some (a, c'))
        × AreStored m tm (values (load_pieces sql tm.info_hash c'))
        × (map (λ (r : TrackerRow). r.url) (values (load_trackers sql tm.info_hash c'))
            ≡ tm.meta_info.announce ∷ tm.meta_info.announce_list)
  unfolding add_torrent load_pieces load_trackers
  add_torrent-AreStored h =
      let row = torrent_row tm torrent_file_path write_path in
      let id = (sql.insert row c.torrents).0 in
      let (pieces, e, f) = insert_all_pieces-all_rows sql id m tm c.pieces h.has in
      let urls = tm.meta_info.announce ∷ tm.meta_info.announce_list in
      let stored = with_torrent sql filename parent_path tm row pieces c in
      let known = find-emplace_self tm.info_hash id c.torrent_ids h.new in
      let loaded : values
            (load_pieces sql tm.info_hash (load_torrent_stats sql tm.info_hash stored).1)
          ≡ all_rows id m tm =
        ap values (load_pieces-load_torrent_stats sql tm.info_hash tm.info_hash stored)
        ∙ values-rows_of sql (λ (r : PieceRow). r.torrent_id) (find tm.info_hash stored.torrent_ids)
            id (sql.rows pieces) known
        ∙ ap (of_torrent (λ (r : PieceRow). r.torrent_id) id) f
        ∙ of_torrent_new (λ (r : PieceRow). r.torrent_id) id (sql.rows c.pieces) (all_rows id m tm)
            h.no_pieces (All-IsNew_ids id (all_rows id m tm) (all_rows-IsNew id m tm)) in
      let tracked : values
            (load_trackers sql tm.info_hash (load_torrent_stats sql tm.info_hash stored).1)
          ≡ tracker_rows id urls =
        ap values (load_trackers-load_torrent_stats sql tm.info_hash tm.info_hash stored)
        ∙ values-rows_of sql (λ (r : TrackerRow). r.torrent_id)
            (find tm.info_hash stored.torrent_ids) id (sql.rows stored.trackers) known
        ∙ ap (of_torrent (λ (r : TrackerRow). r.torrent_id) id)
            (insert_trackers-tracker_rows sql id urls c.trackers)
        ∙ of_torrent_new (λ (r : TrackerRow). r.torrent_id) id (sql.rows c.trackers)
            (tracker_rows id urls) h.no_trackers (tracker_rows_ids id urls) in
      (
        added_torrent id row (map (file_row sql filename parent_path id) tm.files),
        (load_torrent_stats sql tm.info_hash stored).1,
        rw (h.new, add_torrent) (rw h.free (rw (e, add_torrent) refl)),
        subst (AreStored m tm) (sym loaded) (all_rows-AreStored id m tm h.has),
        ap (map (λ (r : TrackerRow). r.url)) tracked ∙ urls-tracker_rows id urls,
      )
