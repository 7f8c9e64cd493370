-- ===== src/Db.antt =====
-- db.go: the shadow WAL that `DB` keeps of a SQLite database. Metrics, logging, locks and the
-- SQLite connection are left out.
pub mod Open
pub mod Disk
pub mod Copy
pub mod Call
pub mod Index
pub mod Verify
pub mod Clean
pub mod Reload
pub mod Sync
pub mod Close
pub mod Listing
use litestream.Prelude.{ℕ, List, [], Option, none}
use litestream.Wal.Bytes.{ByteOrder}
use litestream.Pos.{Pos, zero_pos}

-- The cached position, and the cached fields of the shadow WAL's header and last frame; `nil`
-- slices are empty lists, a `nil` byte order is `none`.
pub record Db : Type 0 where
  pub pos : Pos
  pub page_size : ℕ
  pub hdr : List ℕ
  pub frame : List ℕ
  pub salt0 : ℕ
  pub salt1 : ℕ
  pub chksum : ℕ × ℕ
  pub byte_order : Option ByteOrder
  pub min_checkpoint_page_n : ℕ
  pub max_checkpoint_page_n : ℕ
  pub shadow_retention_n : ℕ
  pub checkpoint_interval : ℕ

-- DB.reset
unfoldable pub reset : Db → Db
reset db = record db {
  pos = zero_pos;
  hdr = [];
  frame = [];
  salt0 = 0;
  salt1 = 0;
  chksum = (0, 0);
  byte_order = none;
}
