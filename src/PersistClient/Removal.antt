-- ===== src/PersistClient/Removal.antt =====
-- `deleteTorrent` takes away the rows of the torrent, and of no other.
use fractals.Prelude.{
  ℕ, false, not, ◌≡◌, ◌≢◌, refl, ◌∙◌, ap, inl, inr, Option, none, some, List, [], ◌∷◌, ◌==◌, ==_iff,
  ==_ne, Bool-cases, arith,
}
use fractals.Prelude.Eq.{list_eq, beq_ne}
use fractals.Prelude.Map.{find, erase, find-erase}
use fractals.Database.{Sql, PieceRow, TrackerRow, AnnounceRow, FileRow, TorrentRow, select}
use fractals.PersistClient.Changes.{delete_torrent}
use fractals.PersistClient.{PersistClient, load_pieces, load_trackers, load_announces, rows_of}

module _ {A : Type 0} (f : A → ℕ) (id : ℕ) where
  select-select_gone :
      (xs : List A) → select (λ x. f x == id) (select (λ x. not (f x == id)) xs) ≡ []
  select-select_gone [] = refl
  select-select_gone (x ∷ xs) = elim (Bool-cases (f x == id)) [
    | inl t ↦ rw t (select-select_gone xs)
    | inr n ↦ rw n (rw n (select-select_gone xs))
  ]

  select-select_kept :
      (other : ℕ) (xs : List A)
      → other ≢ id
      → select (λ x. f x == other) (select (λ x. not (f x == id)) xs)
        ≡ select (λ x. f x == other) xs
  select-select_kept other [] h = refl
  select-select_kept other (x ∷ xs) h = elim (Bool-cases (f x == id)) [
    | inl t ↦
        let e : (f x == other) ≡ false =
          ==_ne (f x) other (λ d. h (ground (arith, ==_iff (f x) id, t, d))) in
        rw t (rw e (select-select_kept other xs h))
    | inr n ↦ rw n (ground (arith, select-select_kept other xs h))
  ]

module _ {Table : Type 0 → Type 0} (sql : Sql Table) where
  -- No row of the torrent with this key is left.
  pub record IsForgotten (id : ℕ) (c : PersistClient Table) : Type 0 where
    pub pieces : select (λ (r : ℕ × PieceRow). r.1.torrent_id == id) (sql.rows c.pieces) ≡ []
    pub trackers : select (λ (r : ℕ × TrackerRow). r.1.torrent_id == id) (sql.rows c.trackers) ≡ []
    pub announces :
        select (λ (r : ℕ × AnnounceRow). r.1.torrent_id == id) (sql.rows c.announces) ≡ []
    pub files : select (λ (r : ℕ × FileRow). r.1.torrent_id == id) (sql.rows c.files) ≡ []
    pub torrents : select (λ (r : ℕ × TorrentRow). r.0 == id) (sql.rows c.torrents) ≡ []

  -- What is loaded for a torrent is the same.
  pub record LoadsAlike (ih : List ℕ) (c d : PersistClient Table) : Type 0 where
    pub pieces : load_pieces sql ih c ≡ load_pieces sql ih d
    pub trackers : load_trackers sql ih c ≡ load_trackers sql ih d
    pub announces : load_announces sql ih c ≡ load_announces sql ih d

  gone :
      {A : Type 0} (f : ℕ × A → ℕ) (id : ℕ) (t : Table A)
      → select (λ r. f r == id) (sql.rows (sql.remove_where (λ r. f r == id) t)) ≡ []
  gone f id t =
      ap (select (λ r. f r == id)) (sql.rows-remove_where (λ r. f r == id) t)
      ∙ select-select_gone f id (sql.rows t)

  rows_of_kept :
      {A : Type 0} (f : A → ℕ) (id : ℕ) (o : Option ℕ) (t : Table A)
      → ((j : ℕ) → o ≡ some j → j ≢ id)
      → rows_of f o (sql.rows (sql.remove_where (λ r. f r.1 == id) t)) ≡ rows_of f o (sql.rows t)
  rows_of_kept f id none t h = refl
  rows_of_kept f id (some j) t h =
      ap (select (λ r. f r.1 == j)) (sql.rows-remove_where (λ r. f r.1 == id) t)
      ∙ select-select_kept (λ r. f r.1) id j (sql.rows t) (h j refl)

  rows_of_erased :
      {A : Type 0} (f : A → ℕ) (id : ℕ) (o p : Option ℕ) (t : Table A)
      → o ≡ p
      → ((j : ℕ) → p ≡ some j → j ≢ id)
      → rows_of f o (sql.rows (sql.remove_where (λ r. f r.1 == id) t)) ≡ rows_of f p (sql.rows t)
  rows_of_erased f id o p t e h =
      ap (λ x. rows_of f x (sql.rows (sql.remove_where (λ r. f r.1 == id) t))) e
      ∙ rows_of_kept f id p t h

  delete_torrent-IsForgotten :
      (ih : List ℕ) (id : ℕ) (c : PersistClient Table)
      → find ih c.torrent_ids ≡ some id
      → IsForgotten id (delete_torrent sql ih c)
  unfolding delete_torrent
  delete_torrent-IsForgotten ih id c e =
      rw (e, delete_torrent)
        (record {
          pieces = gone (λ r. r.1.torrent_id) id c.pieces;
          trackers = gone (λ r. r.1.torrent_id) id c.trackers;
          announces = gone (λ r. r.1.torrent_id) id c.announces;
          files = gone (λ r. r.1.torrent_id) id c.files;
          torrents = gone (λ r. r.0) id c.torrents;
        })

  delete_torrent-LoadsAlike :
      (ih other : List ℕ) (id : ℕ) (c : PersistClient Table)
      → find ih c.torrent_ids ≡ some id
      → other ≢ ih
      → ((j : ℕ) → find other c.torrent_ids ≡ some j → j ≢ id)
      → LoadsAlike other (delete_torrent sql ih c) c
  unfolding delete_torrent load_pieces load_trackers load_announces
  delete_torrent-LoadsAlike ih other id c e n d =
      let same : find other (erase ih c.torrent_ids) ≡ find other c.torrent_ids =
        find-erase ih other c.torrent_ids
        ∙ rw (beq_ne ih other (λ x. n (ground (arith, x)))) refl in
      rw (e, delete_torrent)
        (record {
          pieces =
              rows_of_erased (λ (r : PieceRow). r.torrent_id) id
                (find other (erase ih c.torrent_ids)) (find other c.torrent_ids) c.pieces same d;
          trackers =
              rows_of_erased (λ (r : TrackerRow). r.torrent_id) id
                (find other (erase ih c.torrent_ids)) (find other c.torrent_ids) c.trackers same d;
          announces =
              rows_of_erased (λ (r : AnnounceRow). r.torrent_id) id
                (find other (erase ih c.torrent_ids)) (find other c.torrent_ids) c.announces same d;
        })

  -- After a torrent that the store knows is deleted, no row under its key is left in any of the
  -- five tables, and for every other torrent with another key, the pieces, trackers and announces
  -- that are loaded are the same as before.
  pub delete_torrent_others :
      (ih other : List ℕ) (id : ℕ) (c : PersistClient Table)
      → find ih c.torrent_ids ≡ some id
      → other ≢ ih
      → ((j : ℕ) → find other c.torrent_ids ≡ some j → j ≢ id)
      → IsForgotten id (delete_torrent sql ih c) × LoadsAlike other (delete_torrent sql ih c) c
  delete_torrent_others ih other id c e n d =
      (delete_torrent-IsForgotten ih id c e, delete_torrent-LoadsAlike ih other id c e n d)
