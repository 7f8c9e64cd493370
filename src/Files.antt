-- ===== src/Files.antt =====
-- file_replica_client.go: the client that keeps a replica in a directory, over a file system of paths.
-- A directory is there as long as there are files in it.
pub mod Named
pub mod Listing
pub mod Names
pub mod System
pub mod Client
pub mod Iterator
