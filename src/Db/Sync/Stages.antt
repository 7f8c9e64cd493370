-- ===== src/Db/Sync/Stages.antt =====
-- What a sync meets: the real WAL at each stage, the failures of the operating system and of SQLite,
-- random bytes and the time. `ensureWALExists` of db.go.
use litestream.Prelude.{
  ℕ, Option, none, some, List, Error, leb, length, if◌then◌else◌, Bool, true, false, ◌&&◌,
}
use litestream.Wal.Writer.{wal_header_size}
use litestream.Db.Index.{OsFaults}
use litestream.Db.Call.{Call, return, checking, on_disk}
use litestream.Prelude.{ok}

pub data Stage : Type 0 where
  invalidating ensuring verifying creating copying restarting recreating cleaning : Stage
  before_checkpoint after_touch locked : Stage

-- The statements that the code sends to SQLite: an insert into `_litestream_seq`, the checkpoint,
-- a transaction's start, an insert into `_litestream_lock`, a rollback, and those for the read lock.
pub data Query : Type 0 where
  touch run_checkpoint begin lock rollback release_read_lock acquire_read_lock : Query

pub record World : Type 0 where
  pub wal : Stage → Option (List ℕ)
  pub faults : Stage → OsFaults
  pub refuses : Stage → Query → Option Error
  pub random : Stage → List ℕ
  pub age : ℕ

-- The WAL is what SQLite and the other processes have made of it.
unfoldable pub observe : World → Stage → Call (Unit {0})
observe world stage = on_disk (λ disk. (ok tt, record disk { wal = world.wal stage }))

abbrev pub querying : World → Stage → Query → Call (Unit {0})
querying world stage query = checking (world.refuses stage query)

abbrev pub has_header : Option (List ℕ) → Bool
has_header none = false
has_header (some wal) = leb wal_header_size (length wal)

abbrev pub can_stat : Option Error → Bool
can_stat none = true
can_stat (some e) = false

-- ensureWALExists; an error of os.Stat counts as a WAL without a header.
unfoldable pub ensure_wal_exists : World → Call (Unit {0})
ensure_wal_exists world db disk =
    if can_stat (world.faults Stage.ensuring).stat && has_header disk.wal
    then return tt db disk
    else querying world Stage.ensuring Query.touch db disk
