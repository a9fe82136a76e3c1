-- ===== src/Database.antt =====
-- include/fractals/persist/Models.h: the tables of the store. sqlite, with the calls of sqlite_orm that
-- the store makes of it, is an interface: a table holds rows under keys, in the order of their
-- insertion, and a new row gets a key that no other row has.
use fractals.Prelude.{
  ℕ, ◌≡◌, ◌≢◌, Bool, false, not, Option, List, [], ◌∷◌, ◌++◌, map, All, if◌then◌else◌, ◌==◌, ◌||◌,
}
use fractals.Prelude.Eq.{list_beq}

-- The rows for which a test holds.
abbrev pub select {ℓ} : {A : Type ℓ} → (A → Bool) → List A → List A
select p [] = []
select p (x ∷ xs) = let rest = select p xs in if p x then x ∷ rest else rest

pub record Sql (Table : Type 0 → Type 0) : Type 1 where
  pub rows : {A : Type 0} → Table A → List (ℕ × A)
  pub insert : {A : Type 0} → A → Table A → ℕ × Table A
  pub update : {A : Type 0} → ℕ → A → Table A → Table A
  pub remove_where : {A : Type 0} → (ℕ × A → Bool) → Table A → Table A
  pub rows-insert :
      {A : Type 0} (a : A) (t : Table A) → rows (insert a t).1 ≡ rows t ++ ((insert a t).0, a) ∷ []
  pub insert_fresh :
      {A : Type 0} (a : A) (t : Table A) → All (λ (r : ℕ × A). r.0 ≢ (insert a t).0) (rows t)
  pub rows-update :
      {A : Type 0} (id : ℕ) (a : A) (t : Table A)
      → rows (update id a t) ≡ map (λ (r : ℕ × A). if r.0 == id then (id, a) else r) (rows t)
  pub rows-remove_where :
      {A : Type 0} (p : ℕ × A → Bool) (t : Table A)
      → rows (remove_where p t) ≡ select (λ r. not (p r)) (rows t)

pub record AnnounceRow : Type 0 where
  pub torrent_id : ℕ
  pub peer_ip : List ℕ
  pub peer_port : ℕ
  pub announce_time : ℕ
  pub interval : ℕ
  pub min_interval : Option ℕ

pub record PieceRow : Type 0 where
  pub torrent_id : ℕ
  pub piece : ℕ
  pub size : ℕ
  pub hash : List ℕ
  pub complete : Bool

pub record TrackerRow : Type 0 where
  pub torrent_id : ℕ
  pub url : List ℕ

pub record FileRow : Type 0 where
  pub torrent_id : ℕ
  pub file_name : List ℕ
  pub dir_name : List ℕ
  pub file_length : ℕ
  pub md5sum : List ℕ

pub record TorrentRow : Type 0 where
  pub info_hash : List ℕ
  pub name : List ℕ
  pub dir_name : List ℕ
  pub meta_info_path : List ℕ
  pub write_path : List ℕ
  pub size : ℕ
  pub num_pieces : ℕ
  pub piece_length : ℕ
  pub creation_date : Option ℕ
  pub comment : Option (List ℕ)
  pub created_by : Option (List ℕ)
  pub encoding : Option (List ℕ)
  pub publish : Option ℕ

-- The columns of the table of torrents that are `unique()`: an insertion that would give one of them
-- twice throws.
abbrev pub conflicts : TorrentRow → List (ℕ × TorrentRow) → Bool
conflicts t [] = false
conflicts t ((id, u) ∷ rows) =
    (list_beq t.info_hash u.info_hash || list_beq t.name u.name) || conflicts t rows
