-- ===== src/Sftp.antt =====
-- The client that keeps a replica on a server of SFTP: sftp/replica_client.go, over a server that is
-- a parameter.
pub mod Entries
pub mod Server
pub mod Iterator
pub mod Client
