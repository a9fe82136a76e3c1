-- ===== src/Examples.antt =====
-- The theorems at concrete inputs, and runs of the definitions.
mod Torrents
mod Announces
mod Managers
mod Sockets
mod Disk
mod Queues
mod Peers
mod Trackers
mod Wire
mod Streams
mod Stores
mod Texts
