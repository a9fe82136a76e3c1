-- ===== src/PersistService.antt =====
-- include/fractals/persist/PersistService.ipp and Event.h: the thread that has the store. A request off
-- a queue is an argument; the responses pushed to that queue are returned in order. `none` is a call
-- of the store that throws or fails an `assert`.
pub mod Start
use fractals.Prelude.{ℕ, Bool, true, false, Option, none, some, List, [], ◌∷◌, ◌++◌, map}
use fractals.Database.{Sql, AnnounceRow, PieceRow, TrackerRow, FileRow, TorrentRow}
use fractals.Bencode.TorrentMeta.{TorrentMeta}
use fractals.PersistClient.{PersistClient, Added, TorrentStats}
use fractals.PersistClient
use fractals.PersistClient.Changes

-- `PersistRequest`.
pub data Request : Type 0 where
  add_torrent : TorrentMeta → List ℕ → List ℕ → Request
  remove_torrent : List ℕ → Request
  add_trackers : List ℕ → List (List ℕ) → Request
  load_trackers : List ℕ → Request
  piece_complete : List ℕ → ℕ → Request
  remove_pieces load_pieces : List ℕ → Request
  add_announce : List ℕ → AnnounceRow → Request
  remove_announces load_announces : List ℕ → Request
  shutdown : Request

-- `PersistResponse`.
pub data Response : Type 0 where
  added : Added → Response
  trackers : List ℕ → List (ℕ × TrackerRow) → Response
  pieces : List ℕ → List (ℕ × PieceRow) → Response
  announces : List ℕ → List (ℕ × AnnounceRow) → Response

-- `AppPersistRequest` and `AppPersistResponse`.
pub data AppRequest : Type 0 where
  request_stats : List (ℕ × List ℕ) → AppRequest
  load_torrents : AppRequest

pub data AppResponse : Type 0 where
  all_torrents : List ((ℕ × TorrentRow) × List (ℕ × FileRow)) → AppResponse
  torrent_stats : TorrentStats → AppResponse

pub record PersistService (Table : Type 0 → Type 0) : Type 0 where
  pub is_active : Bool
  pub client : PersistClient Table

module _ {Table : Type 0 → Type 0} (sql : Sql Table) (filename parent_path : List ℕ → List ℕ) where
  -- The responses and the state after a request.
  abbrev pub Served : Type 0
  Served = Option (List Response × PersistService Table)

  -- A call of the store that may fail.
  abbrev changed : Option (PersistClient Table) → PersistService Table → Served
  changed none s = none
  changed (some c) s = some ([], record s { client = c })

  abbrev answered : Option (Added × PersistClient Table) → PersistService Table → Served
  answered none s = none
  answered (some (a, c)) s = some (added a ∷ [], record s { client = c })

  -- `processBtEvent`.
  unfoldable pub process_bt_event : Request → PersistService Table → Served
  process_bt_event (add_torrent tm path write_path) s =
      answered (PersistClient.add_torrent sql filename parent_path tm path write_path s.client) s
  process_bt_event (remove_torrent ih) s =
      some ([], record s { client = Changes.delete_torrent sql ih s.client })
  process_bt_event (add_trackers ih urls) s =
      some ([], record s { client = Changes.add_trackers sql ih urls s.client })
  process_bt_event (load_trackers ih) s =
      some (trackers ih (PersistClient.load_trackers sql ih s.client) ∷ [], s)
  process_bt_event (piece_complete ih n) s = changed (Changes.add_piece sql ih n s.client) s
  process_bt_event (remove_pieces ih) s = changed (Changes.delete_pieces sql ih s.client) s
  process_bt_event (load_pieces ih) s =
      some (pieces ih (PersistClient.load_pieces sql ih s.client) ∷ [], s)
  process_bt_event (add_announce ih row) s =
      some ([], record s { client = Changes.add_announce sql ih row s.client })
  process_bt_event (remove_announces ih) s = changed (Changes.delete_announce sql ih s.client) s
  process_bt_event (load_announces ih) s =
      some (announces ih (PersistClient.load_announces sql ih s.client) ∷ [], s)
  process_bt_event shutdown s = some ([], record s { is_active = false })

  abbrev after : List Response → Served → Served
  after rs none = none
  after rs (some (qs, s)) = some (rs ++ qs, s)

  -- The requests that come one after another.
  unfoldable pub process_bt_events : List Request → PersistService Table → Served
  process_bt_events [] s = some ([], s)
  process_bt_events (r ∷ rs) s = elim (process_bt_event r s) [
    | none ↦ none
    | some (qs, s') ↦ after qs (process_bt_events rs s')
  ]

  -- The loop over the torrents whose counts are asked for.
  unfoldable pub stats_loop :
      List (ℕ × List ℕ) → PersistClient Table → List AppResponse × PersistClient Table
  stats_loop [] c = ([], c)
  stats_loop ((torr_id, ih) ∷ rest) c =
      let (stats, c') = PersistClient.load_torrent_stats sql ih c in
      let (responses, c'') = stats_loop rest c' in
      (torrent_stats (record stats { torr_id = torr_id }) ∷ responses, c'')

  -- `processAppEvent`.
  unfoldable pub process_app_event :
      AppRequest → PersistService Table → List AppResponse × PersistService Table
  process_app_event (request_stats requested) s =
      let (responses, c) = stats_loop requested s.client in (responses, record s { client = c })
  process_app_event load_torrents s =
      let (torrents, c) = Changes.load_torrents sql s.client in
      (all_torrents torrents ∷ [], record s { client = c })
