-- ===== src/Db/Sync.antt =====
-- db.go: `sync` and `Sync`, with `createGeneration`, `ensureWALExists`, `checkpoint` and
-- `execCheckpoint`. SQLite and other processes write the real WAL between the stages of a sync; the
-- SQLite connection that init makes is Db/Open.
pub mod Stages
pub mod Checkpoint
pub mod Open
pub mod Safe
use litestream.Prelude.{
  ℕ, ◌+◌, ◌*◌, Bool, true, false, not, ◌&&◌, ◌||◌, Option, none, some, List, [], ◌∷◌, ◌++◌, Error,
  restart_generation, wrap, Result, ok, err, ltb, leb, if◌then◌else◌, length,
}
use litestream.Text.{Text}
use litestream.Pos.{Pos, is_zero, truncate}
use litestream.Wal.Writer.{wal_header_size, wal_frame_header_size}
use litestream.Db.{Db}
use litestream.Db.Disk.{Lz4, Disk}
use litestream.Db.Copy.{copy_to_shadow_wal}
use litestream.Db.Call.{Call, ◌>>=◌, ◌>>◌, return, reading, on_disk, with_error, resetting}
use litestream.Db.Index.{OsFaults, init_shadow_wal_index}
use litestream.Db.Verify.{SyncInfo, verify, verify_headers_match}
use litestream.Db.Clean.{clean, clear_generation}
use litestream.Db.Reload.{invalidate}
use litestream.Db.Sync.Stages.{World, Stage, Query, observe, querying, ensure_wal_exists}
use litestream.Db.Sync.Stages.Stage.{
  invalidating, ensuring, verifying, creating, copying, restarting, recreating, cleaning,
}
use litestream.Wal.Writer.{calc_wal_size}
use litestream.Db.Sync.Checkpoint.{Mode, passive, restart_mode, create_generation, checkpoint}

abbrev older_than : ℕ → Option ℕ → Bool
older_than interval none = false
older_than interval (some age) = ltb interval age

-- The checkpoint that sync issues, if any, given the time since the database was modified.
unfoldable pub checkpoint_mode : Db → Option ℕ → Option Mode
checkpoint_mode db age =
    if ltb 0 db.max_checkpoint_page_n
      && leb (calc_wal_size db.page_size db.max_checkpoint_page_n) db.pos.offset
    then some restart_mode
    else if leb (calc_wal_size db.page_size db.min_checkpoint_page_n) db.pos.offset
    then some passive
    else if ltb 0 db.checkpoint_interval
        && (older_than db.checkpoint_interval age
            && ltb (calc_wal_size db.page_size 1) db.pos.offset)
    then some passive
    else none

-- errors.Is(err, errRestartGeneration)
unfoldable pub is_restart_generation : Error → Bool
is_restart_generation restart_generation = true
is_restart_generation (wrap text e) = is_restart_generation e
is_restart_generation _ = false

module _ (lz4 : Lz4) (world : World) where
  unfoldable pub ensure_pos : Call (Unit {0})
  ensure_pos db disk =
      if is_zero db.pos
      then with_error (wrap "invalidate") (invalidate lz4 (world.faults invalidating)) db disk
      else some (ok tt, db, disk)

  -- A new index where the header has changed.
  unfoldable pub restart_index : SyncInfo → Call (Unit {0})
  restart_index info =
      if info.restart
      then (λ db disk.
          (do
            observe world restarting
            with_error (wrap "cannot init shadow wal") (
                init_shadow_wal_index lz4 (world.faults restarting)
                  (record db.pos { index = db.pos.index + 1; offset = 0 })))
            db disk)
      else return tt

module _ (lz4 : Lz4) (replicas : List Pos) (world : World) where
  -- Where verify found a reason to start a new generation.
  unfoldable pub start_generation : SyncInfo → Call SyncInfo
  start_generation info = elim info.reason [
    | none ↦ return info
    | some reason ↦ do
      observe world creating
      generation ←
          with_error (wrap "create generation") (create_generation lz4 replicas world creating)
      return (record info { generation = generation; restart = false; reason = none })
  ]

  abbrev pub after_checkpoint :
      Option (Result (Unit {0}) × Db × Disk) → Option (Result (Unit {0}) × Db × Disk)
  after_checkpoint none = none
  after_checkpoint (some (ok _, db, disk)) = some (ok tt, db, disk)
  after_checkpoint (some (err e, db, disk)) =
      if is_restart_generation e
      then (do
        observe world recreating
        _ ← with_error (wrap "create generation") (create_generation lz4 replicas world recreating)
        return tt)
          db disk
      else some (err (wrap "checkpoint" e), db, disk)

  abbrev pub issue : Option Mode → Call (Unit {0})
  issue none db disk = some (ok tt, db, disk)
  issue (some mode) db disk = after_checkpoint (checkpoint lz4 world mode db disk)

  unfoldable pub issue_checkpoint : SyncInfo → Call (Unit {0})
  issue_checkpoint info db disk = issue (checkpoint_mode db info.age) db disk

  -- sync behind the invalidation, up to its deferred reset.
  unfoldable pub sync_from_pos : Call (Unit {0})
  sync_from_pos = do
    observe world ensuring
    with_error (wrap "ensure wal exists") (ensure_wal_exists world)
    observe world verifying
    found ←
        with_error (wrap "cannot verify wal state")
          (reading (verify (world.faults verifying) world.age))
    info ← start_generation found
    observe world copying
    with_error (wrap "cannot copy to shadow wal")
        (copy_to_shadow_wal lz4 (world.faults copying).copy)
    restart_index lz4 world info
    issue_checkpoint info
    with_error (wrap "cannot clean") (λ db. on_disk (clean (world.faults cleaning) replicas db) db)

  -- sync behind init, of a database that is open.
  unfoldable pub sync_opened : Call (Unit {0})
  sync_opened = do ensure_pos lz4 world; resetting sync_from_pos

-- The part of init behind the directories, on the failure to compare the headers.
abbrev or_clear : OsFaults → Result (Unit {0}) → Call (Unit {0})
or_clear faults (ok _) = return tt
or_clear faults (err e) =
    with_error (wrap "clear generation") (on_disk (clear_generation faults.remove_generation))

unfoldable pub init_pos : Lz4 → List Pos → OsFaults → Call (Unit {0})
init_pos lz4 replicas faults = do
  with_error (wrap "invalidate") (invalidate lz4 faults)
  (λ db disk. or_clear faults (verify_headers_match faults db disk) db disk)
  with_error (wrap "clean") (λ db. on_disk (clean faults replicas db) db)

-- What init meets in a sync: that the database is open, that its file is missing, an error before the
-- page size is read, an error right behind that, or a connection with a page size, and then what the
-- operating system refuses.
pub data Init : Type 0 where
  is_open missing : Init
  refused : Error → Init
  refused_behind : ℕ → Error → Init
  connected : ℕ → OsFaults → Init

-- sync
unfoldable pub sync : Lz4 → List Pos → World → Init → Call (Unit {0})
sync lz4 replicas world is_open db disk = sync_opened lz4 replicas world db disk
sync lz4 replicas world missing db disk = some (ok tt, db, disk)
sync lz4 replicas world (refused e) db disk = some (err e, db, disk)
sync lz4 replicas world (refused_behind page_size e) db disk =
    some (err e, record db { page_size = page_size }, disk)
sync lz4 replicas world (connected page_size faults) db disk =
    (do init_pos lz4 replicas faults; sync_opened lz4 replicas world)
      (record db { page_size = page_size }) disk

abbrev pub retry :
    (Db → Disk → Option (Db × Disk)) → Option (Result (Unit {0}) × Db × Disk) → Option (Db × Disk)
retry again none = none
retry again (some (ok _, db, disk)) = some (db, disk)
retry again (some (err e, db, disk)) = again db disk

-- Sync: a try in each of the worlds, which are `retryN`, until one succeeds. It returns no error.
unfoldable pub sync_retrying : Lz4 → List Pos → List (Init × World) → Db → Disk → Option (Db × Disk)
sync_retrying lz4 replicas [] db disk = some (db, disk)
sync_retrying lz4 replicas ((init, world) ∷ worlds) db disk =
    retry (sync_retrying lz4 replicas worlds) (sync lz4 replicas world init db disk)

-- The tries of a Sync of a database that is open: init does nothing.
abbrev pub tries : List World → List (Init × World)
tries [] = []
tries (world ∷ worlds) = (is_open, world) ∷ tries worlds
