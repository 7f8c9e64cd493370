-- ===== src/Client.antt =====
-- litestream.go and replica_client.go: snapshot and segment metadata, the reading part of the
-- `ReplicaClient` interface, the searches and time bounds over what a client lists.
-- A time is a number that grows with time; the zero time is 0. An iterator is the list of what it
-- yields and the error that its Close returns, which is also how an iteration that broke off ends.
pub mod Infos
pub mod Search
pub mod Index
pub mod Latest
pub mod Bounds
pub mod Remote
pub mod Iterator
pub use Infos.{SnapshotInfo, WalSegmentInfo, Listing, ReplicaClient, segment_pos, Time, to_slice}
