-- ===== src/Wal.antt =====
-- The SQLite WAL format as litestream.go, wal_writer.go and db.go read and write it.
pub mod Bytes
pub mod Checksum
pub mod Writer
pub mod Reader
