-- ===== src/Lib.antt =====
-- Fractals is a BitTorrent client. This library models the parts of it that carry its logic.
--
-- The way of the data: a socket gives bytes, which BufferedQueueManager cuts into messages; Encoder
-- turns each into a value of Message; Protocol reacts to it for one peer, over the tables of
-- PieceStateManager that all peers of a torrent share, and hands finished pieces to the disk through
-- a FullDuplexQueue, which is two WorkQueues. EpollService and PeerService stand between the sockets
-- and Protocol. PeerTracker decides which peers to connect to. BitTorrentManager has
-- them all, and turns what comes on its queues into requests to the others.
--
-- WorkQueue (include/fractals/common/WorkQueue.h): the ring buffer behind every queue between two
-- threads. WorkQueue/Ring holds the invariant, WorkQueue/Trace compares runs with a bounded list.
-- FullDuplexQueue (include/fractals/common/FullDuplexQueue.h): the two ends of a pair of queues;
-- Transfer is about what goes from one to the other.
-- Bytes (include/fractals/common/utils.h, src/fractals/common/utils.cpp): intToBytes and bytesToInt,
-- in Bytes/Bitfield bitfieldToBytes and bytesToBitfield, and in Bytes/Hex bytesToHex and hexToBytes.
-- Durations (the same files): ppTime.
-- Message (network/p2p/BitTorrentMsg.h and .cpp): the messages of the peer protocol.
-- Encoder (network/p2p/BitTorrentEncoder.h and .cpp): a message as bytes (encode) and back (decode,
-- decode_hand_shake).
-- BufferedQueueManager (network/p2p/BufferedQueueManager.h and .cpp): the deque of read buffers of
-- each peer (Deque), and the data that waits to be written (WriteMsgState).
-- PieceStateManager (network/p2p/PieceStateManager.h and .cpp): the missing and the completed pieces;
-- Consistency says what its tables have to do with each other.
-- Protocol (network/p2p/Protocol.h and Protocol.ipp): onMessage for each message. A handler gives the
-- protocol's state after it, the ProtocolState returned, and its calls of the peer service and the
-- disk queue in order.
-- PeerService (network/p2p/PeerService.h, PeerFd.h, PeerEvent.h, EpollServiceEvent.h): the table of
-- connections between the manager and the thread of the sockets. Wire is about what one side writes
-- and the other reads, Valid and Activity about its tables over time.
-- EpollService (network/p2p/EpollService.h and .ipp): a round of the thread that owns the sockets.
-- Delivery follows bytes through the buffers to the messages, Writing and Reconnect are about a
-- message in part.
-- DiskIoService (disk/DiskIOService.h): the requests to the disk. Files reads the files of a torrent as
-- one stream, Split is about a piece over several files, Requests about sequences of requests.
-- BitTorrentManager (network/p2p/BitTorrentManager.h and .ipp, EventHandlers.h): what the manager does
-- with each event, over PeerTracker, PieceStateManager and Protocol. Queues lists its events and what
-- it pushes; Linked, Handled and Run are about the piece managers that its connections refer to,
-- Start and Removal about a torrent's begin and end.
-- PeerTracker (network/p2p/PeerTracker.h and .cpp): makeCommand and the events that lead to it.
-- Bencode (src/fractals/torrent/Bencode.cpp): a torrent file out of bencoded data and back, over the
-- structures of MetaInfo (include/fractals/torrent/MetaInfo.h) and the helpers of Maybe
-- (include/fractals/common/maybe.h), which also has the library of bencoded data as an interface, with
-- the hypothesis that its dictionaries find what was inserted. InfoDicts is about the round trip,
-- TorrentMeta (src/fractals/torrent/TorrentMeta.cpp) about
-- what the program keeps of a torrent file.
-- TrackerResponse (network/http/Request.h and .cpp): the URL that asks a tracker, and its answer out of
-- bencoded data; Peers is about the compact form of the peers.
-- AnnounceService (network/http/AnnounceService.h, .ipp and .cpp): the rounds of the service that asks
-- the trackers. States and Loop carry what a round relies on, Rounds is about a whole round, Shared
-- about two torrents with one tracker.
-- Database (include/fractals/persist/Models.h): the rows of the store, with sqlite as an interface of
-- tables, whose hypotheses are that an insertion adds the row under a new key, and that an update and
-- a removal change or take away the rows they name.
-- PersistClient (persist/PersistClient.h and .cpp): the store of torrents, in Changes what it
-- does with those it has. Pieces, Rows, Stored and Adding are
-- about a torrent that is added, Stats about the count of downloaded bytes, Removal about a torrent
-- that is deleted.
-- PersistService (persist/PersistService.h and .ipp, Event.h): the requests of the other threads to the
-- store; Start is about those with which a torrent begins.
-- Prelude passes the library's names on and holds what the parts share: maps and sets of the C++
-- library as lists in the order of their iteration.
-- Examples runs the definitions and applies the theorems to concrete inputs.
--
-- Numbers are natural numbers. A machine integer is its bit pattern, and where the source wraps, the
-- remainder is written out. A char is a number below 256, and where the source lets it become a
-- wider integer, its sign is extended. An exception and a read outside a buffer are results of their
-- own. The hash function is a parameter.
-- Fuel: the loop of addToReadBuffer runs on the size of the data, of which a round takes a byte at
-- least, and the loop of makeCommandFor on the number of known peers and one, of which a round marks
-- one.
-- Not modelled: the system calls on sockets and files, the epoll library, curl, what sqlite does
-- inside, the terminal interface, logging; the mutexes and
-- condition variables of the queues, whose calls are taken as atomic steps.
pub mod Prelude
pub mod Bytes
pub mod Message
pub mod Encoder
pub mod Bencode
pub mod Maybe
pub mod MetaInfo
pub mod BitTorrentManager
pub mod BufferedQueueManager
pub mod WorkQueue
pub mod DiskIoService
pub mod EpollService
pub mod FullDuplexQueue
pub mod PieceStateManager
pub mod Protocol
pub mod PeerService
pub mod PeerTracker
pub mod TrackerResponse
pub mod AnnounceService
pub mod Database
pub mod Durations
pub mod PersistClient
pub mod PersistService
mod Examples
