-- ===== src/Examples/Stores.antt =====
-- The store at work: a database of lists, one torrent of two pieces in it, and the rows of another.
use fractals.Prelude.{
  ℕ, zero, suc, ◌+◌, ◌≡◌, ◌≢◌, ◌≤◌, ◌<◌, ◌^◌, refl, Bool, true, false, not, none, some, List, [],
  ◌∷◌, ◌++◌, map, All, if◌then◌else◌, ◌==◌, arith, ◌↔◌,
}
use fractals.Prelude.Eq.{list_eq}
use fractals.Prelude.Map.{find, contains}
use fractals.MetaInfo.{single}
use fractals.Bencode.TorrentMeta.{TorrentMeta, get_size}
use fractals.Database.{Sql, PieceRow, TrackerRow, select}
use fractals.PersistClient.Changes.{delete_torrent}
use fractals.PersistClient.{PersistClient, Added, load_pieces, load_torrent_stats}
use fractals.PersistClient.Pieces.{values, HasPieces}
use fractals.PersistClient.Stored.{AreStored}
use fractals.PersistClient.Adding.{CanAdd}
use fractals.PersistClient.Stats.{completed, load_torrent_stats-completed}
use fractals.PersistClient.Removal.{IsForgotten, LoadsAlike, delete_torrent_others}
use fractals.PersistService.{PersistService, Request, added, pieces, trackers, process_bt_events}
use fractals.PersistService.Start.{process_bt_events-AreStored}

-- A table as the list of its rows.
abbrev Rows : Type 0 → Type 0
Rows A = List (ℕ × A)

abbrev sum_keys : {A : Type 0} → List (ℕ × A) → ℕ
sum_keys [] = 0
sum_keys ((k, x) ∷ rows) = k + sum_keys rows

above_keys :
    {A : Type 0} (n : ℕ) (rows : List (ℕ × A))
    → sum_keys rows ≤ n
    → All (λ (r : ℕ × A). r.0 ≢ suc n) rows
above_keys n [] h = tt
above_keys n ((k, x) ∷ rows) h = (λ e. omega (arith, h, e), above_keys n rows (omega (arith, h)))

abbrev database : Sql Rows
database = record {
  rows = λ t. t;
  insert = λ a t. (suc (sum_keys t), t ++ (suc (sum_keys t), a) ∷ []);
  update = λ id a t. map (λ r. if r.0 == id then (id, a) else r) t;
  remove_where = λ p t. select (λ r. not (p r)) t;
  rows-insert = λ a t. refl;
  insert_fresh = λ a t. above_keys (sum_keys t) t (omega arith);
  rows-update = λ id a t. refl;
  rows-remove_where = λ p t. refl;
}

abbrev same_path : List ℕ → List ℕ
same_path path = path

abbrev bytes_of : ℕ → ℕ → List ℕ
bytes_of zero b = []
bytes_of (suc n) b = b ∷ bytes_of n b

-- A torrent of six bytes in pieces of four.
abbrev small : TorrentMeta
small = record {
  name = 7 ∷ [];
  dir = [];
  files = record { file_length = 6; md5sum = []; path = (8 ∷ []) ∷ [] } ∷ [];
  meta_info = record {
    announce = 1 ∷ [];
    announce_list = (2 ∷ []) ∷ (3 ∷ []) ∷ [];
    creation_date = none;
    comment = none;
    created_by = none;
    encoding = none;
    info = record {
      piece_length = 4;
      pieces = bytes_of 20 5 ++ bytes_of 20 6;
      publish = none;
      file_mode = single (record { name = 7 ∷ []; file_length = 6; md5sum = [] });
    };
  };
  info_hash = 9 ∷ [];
}

abbrev empty_store : PersistClient Rows
empty_store = record {
  torrents = [];
  files = [];
  pieces = [];
  trackers = [];
  announces = [];
  torrent_ids = [];
  in_memory_stats = [];
}

get_size_small : get_size small ≡ 6
unfolding get_size
get_size_small = refl

small-HasPieces : HasPieces 1 small
small-HasPieces = record {
  hashes = refl;
  count = omega arith;
  size = omega (arith, get_size_small);
  bound = omega (arith, get_size_small);
}

small-CanAdd : CanAdd database same_path same_path 1 small [] [] empty_store
unfolding contains find
small-CanAdd = record {
  has = small-HasPieces;
  new = refl;
  free = refl;
  no_pieces = tt;
  no_trackers = tt;
}

abbrev service : PersistService Rows
service = record { is_active = true; client = empty_store }

process_bt_events-AreStored_example :
    (a : Added) × (ps : List (ℕ × PieceRow)) × (ts : List (ℕ × TrackerRow)) × (s' : PersistService
      Rows)
    × (process_bt_events database same_path same_path
          (Request.add_torrent small [] []
            ∷ Request.load_pieces (9 ∷ [])
            ∷ Request.load_trackers (9 ∷ [])
            ∷ [])
          service
        ≡ some (added a ∷ pieces (9 ∷ []) ps ∷ trackers (9 ∷ []) ts ∷ [], s'))
    × AreStored 1 small (values ps)
    × (map (λ (r : TrackerRow). r.url) (values ts) ≡ (1 ∷ []) ∷ (2 ∷ []) ∷ (3 ∷ []) ∷ [])
process_bt_events-AreStored_example =
    process_bt_events-AreStored database same_path same_path 1 small [] [] service small-CanAdd

-- Two torrents, the first with a complete piece of 300 bytes and one that is missing.
abbrev piece_row : ℕ → ℕ → Bool → PieceRow
piece_row id n complete = record {
  torrent_id = id;
  piece = n;
  size = 300;
  hash = [];
  complete = complete;
}

abbrev two_torrents : PersistClient Rows
two_torrents = record empty_store {
  pieces = (1, piece_row 1 0 true) ∷ (2, piece_row 2 0 true) ∷ (3, piece_row 1 1 false) ∷ [];
  trackers =
      (1, record { torrent_id = 2; url = [] }) ∷ (2, record { torrent_id = 1; url = [] }) ∷ [];
  torrent_ids = (9 ∷ [], 1) ∷ (10 ∷ [], 2) ∷ [];
}

load_pieces_first :
    load_pieces database (9 ∷ []) two_torrents
    ≡ (1, piece_row 1 0 true) ∷ (3, piece_row 1 1 false) ∷ []
unfolding load_pieces find
load_pieces_first = refl

completed_first : completed (load_pieces database (9 ∷ []) two_torrents) ≡ 300
completed_first = rw load_pieces_first refl

find_none : find (9 ∷ []) two_torrents.in_memory_stats ≡ none
unfolding find
find_none = refl

find_first : find (9 ∷ []) two_torrents.torrent_ids ≡ some 1
unfolding find
find_first = refl

find_second : find (10 ∷ []) two_torrents.torrent_ids ≡ some 2
unfolding find
find_second = refl

load_torrent_stats-completed_example :
    ((load_torrent_stats database (9 ∷ []) two_torrents).0.downloaded
      ≡ completed (load_pieces database (9 ∷ []) two_torrents))
    ↔ (completed (load_pieces database (9 ∷ []) two_torrents) < 2 ^ 31)
load_torrent_stats-completed_example =
    load_torrent_stats-completed database (9 ∷ []) two_torrents find_none
      (omega (arith, completed_first))

delete_torrent_others_example :
    IsForgotten database 1 (delete_torrent database (9 ∷ []) two_torrents)
    × LoadsAlike database (10 ∷ []) (delete_torrent database (9 ∷ []) two_torrents) two_torrents
delete_torrent_others_example =
    delete_torrent_others database (9 ∷ []) (10 ∷ []) 1 two_torrents find_first
      (λ e. ground (arith, e)) (λ j e d. ground (arith, e, d, find_second))
