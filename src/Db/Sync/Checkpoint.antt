-- ===== src/Db/Sync/Checkpoint.antt =====
-- db.go: `createGeneration`, `checkpoint`, `execCheckpoint` and `Checkpoint`.
pub mod Safe
use litestream.Prelude.{
  ℕ, ◌+◌, Bool, true, false, Option, none, some, List, [], ◌∷◌, ◌++◌, Error, wrap, Result, ok, err,
  if◌then◌else◌,
}
use litestream.Text.{Text, text_eq}
use litestream.Pos.{Pos, generation_name}
use litestream.Db.{Db}
use litestream.Db.Disk.{Lz4, Disk}
use litestream.Db.Copy.{copy_to_shadow_wal}
use litestream.Db.Call.{Call, ◌>>=◌, ◌>>◌, return, reading, checking, on_disk, on_db, with_error}
use litestream.Db.Index.{init_shadow_wal_index, read_wal_header}
use litestream.Db.Verify.{current_generation, verify_last_shadow_frame}
use litestream.Db.Clean.{clean}
use litestream.Db.Sync.Stages.{World, Stage, observe, querying}
use litestream.Db.Sync.Stages.Stage.{before_checkpoint, after_touch, locked}
use litestream.Db.Sync.Stages.Query.{
  touch, run_checkpoint, begin, lock, rollback, release_read_lock, acquire_read_lock,
}

pub data Mode : Type 0 where
  passive full restart_mode truncate_mode : Mode

abbrev pub is_truncate : Mode → Bool
is_truncate truncate_mode = true
is_truncate _ = false

abbrev pub write_generation : Option Error → Text → Disk → Result (Unit {0}) × Disk
write_generation (some e) generation disk = (err (wrap "write generation temp file" e), disk)
write_generation none generation disk =
    (ok tt, record disk { generation_file = some (generation ++ 0x0a ∷ []) })

-- createGeneration, with the random bytes of its stage.
unfoldable pub create_generation : Lz4 → List Pos → World → Stage → Call Text
create_generation lz4 replicas world stage = do
  checking (world.faults stage).directory
  with_error (wrap "initialize shadow wal") (
      init_shadow_wal_index lz4 (world.faults stage)
        (record { generation = generation_name (world.random stage); index = 0; offset = 0 }))
  on_disk (
      write_generation (world.faults stage).write_generation (generation_name (world.random stage)))
  (λ db. on_disk (clean (world.faults stage) replicas db) db)
  return (generation_name (world.random stage))

abbrev pub forget_frame : Mode → Db → Db
forget_frame mode db = if is_truncate mode then record db { frame = [] } else db

-- execCheckpoint
unfoldable pub exec_checkpoint : World → Mode → Call (Unit {0})
exec_checkpoint world mode = do
  with_error (wrap "release read lock") (querying world before_checkpoint release_read_lock)
  querying world before_checkpoint run_checkpoint
  on_db (forget_frame mode)
  with_error (wrap "reacquire read lock") (querying world before_checkpoint acquire_read_lock)

module _ (lz4 : Lz4) (world : World) where
  -- checkpoint under the write lock.
  unfoldable pub checkpoint_locked : Call (Unit {0})
  checkpoint_locked = do
    with_error (wrap "begin") (querying world after_touch begin)
    with_error (wrap "_litestream_lock") (querying world after_touch lock)
    observe world locked
    with_error (wrap "cannot verify last frame copied from shadow wal")
        (reading (verify_last_shadow_frame (world.faults locked)))
    with_error (wrap "cannot copy to end of shadow wal")
        (copy_to_shadow_wal lz4 (world.faults locked).copy)
    with_error (wrap "cannot init shadow wal file") (λ db.
        init_shadow_wal_index lz4 (world.faults locked)
          (record db.pos { index = db.pos.index + 1; offset = 0 }) db)
    with_error (wrap "rollback post-checkpoint tx") (querying world locked rollback)

  abbrev pub compare_headers : List ℕ → List ℕ → Call (Unit {0})
  compare_headers hdr other = if text_eq hdr other then return tt else checkpoint_locked

  -- checkpoint
  unfoldable pub checkpoint : Mode → Call (Unit {0})
  checkpoint mode = do
    observe world before_checkpoint
    hdr ← reading (λ db. read_wal_header (world.faults before_checkpoint))
    with_error (wrap "cannot copy to end of shadow wal before checkpoint")
        (copy_to_shadow_wal lz4 (world.faults before_checkpoint).copy)
    exec_checkpoint world mode
    querying world before_checkpoint touch
    observe world after_touch
    other ← reading (λ db. read_wal_header (world.faults after_touch))
    compare_headers hdr other

  -- Checkpoint
  unfoldable pub checkpoint_current : Mode → Call (Unit {0})
  checkpoint_current mode = do
    _ ←
        with_error (wrap "cannot determine generation")
          (reading (λ db disk. current_generation (world.faults before_checkpoint) disk))
    checkpoint mode
