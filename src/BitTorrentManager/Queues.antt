-- ===== src/BitTorrentManager/Queues.antt =====
-- include/fractals/app/Event.h, persist/Event.h, disk/Event.h, network/http/Event.h: what comes to the
-- manager on its queues, and what it pushes.
use fractals.Prelude.{ℕ, List}
use fractals.Message
use fractals.PieceStateManager.{PieceModel}
use fractals.DiskIoService.{TorrentModel, FileModel}
use fractals.DiskIoService
use fractals.PeerService.{PeerEvent}

-- `app::ResponseToApp`, without the texts of errors.
pub data ResponseToApp : Type 0 where
  added_torrent : List ℕ → TorrentModel → List FileModel → ResponseToApp
  add_torrent_error : ResponseToApp
  resumed_torrent completed_torrent removed_torrent stopped_torrent : List ℕ → ResponseToApp
  shutdown_confirmation : ResponseToApp
  peer_stats : ℕ → ℕ → ℕ → ResponseToApp

-- The requests of the manager to the store. `M` stands for `TorrentMeta`. The write path of an added
-- torrent, which the disk service always gives as "./", is left out.
pub data PersistRequest (M : Type 0) : Type 0 where
  add_torrent : M → List ℕ → PersistRequest M
  remove_torrent load_pieces load_trackers : List ℕ → PersistRequest M
  piece_complete : List ℕ → ℕ → PersistRequest M
  shutdown : PersistRequest M

-- The requests of the manager to the announce service.
pub data AnnounceRequest : Type 0 where
  add_trackers : List ℕ → List (List ℕ) → AnnounceRequest
  request_announce : List ℕ → TorrentModel → AnnounceRequest
  delete_trackers pause : List ℕ → AnnounceRequest
  shutdown : AnnounceRequest

-- The calls of the peer service and the pushes to the queues.
pub data Effect (K : Type 0) (M : Type 0) : Type 0 where
  connect disconnect_client : K → Effect K M
  write : K → Message.Message → Effect K M
  shutdown : Effect K M
  to_app : ResponseToApp → Effect K M
  to_persist : PersistRequest M → Effect K M
  to_announce : AnnounceRequest → Effect K M
  to_disk : DiskIoService.Request → Effect K M

-- `app::RequestFromApp`, `persist::PersistResponse` and `AppPersistResponse`, `disk::DiskResponse`,
-- `http::Announce`, and the events of the peers.
pub data Event (K : Type 0) (M : Type 0) : Type 0 where
  add_torrent : List ℕ → Event K M
  remove_torrent stop_torrent resume_torrent : List ℕ → Event K M
  start_torrent : List ℕ → TorrentModel → List FileModel → Event K M
  shutdown : Event K M
  request_stats : List (ℕ × List ℕ) → Event K M
  added_torrent : TorrentModel → List FileModel → Event K M
  torrent_exists : Event K M
  pieces : List ℕ → List PieceModel → Event K M
  trackers : List ℕ → List (List ℕ) → Event K M
  announces : Event K M
  read_success : M → List ℕ → Event K M
  read_error write_error : Event K M
  write_success : List ℕ → ℕ → Event K M
  torrent_initialized : List ℕ → Event K M
  announce : List ℕ → List K → Event K M
  peer_event : PeerEvent K → Event K M
