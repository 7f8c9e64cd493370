-- ===== src/Db/Sync/Checkpoint/Safe.antt =====
-- That `checkpoint` and `createGeneration` do not panic, and the fields they leave.
use litestream.Prelude.{ℕ, ◌≡◌, refl, false, some, List, [], Result, failing, Bool-cases, inl, inr}
use litestream.Text.{text_eq}
use litestream.Pos.{Pos, generation_name}
use litestream.Db.{Db}
use litestream.Db.Disk.{Lz4, Disk}
use litestream.Db.Call.{on_disk}
use litestream.Db.Call.Outcome.{
  Outcome, Outcome-continue, Outcome-wrap_out, Outcome-of_result, Outcome-ok,
}
use litestream.Db.Copy.Safe.{HasPage, HasIndex, copy_to_shadow_wal-Outcome}
use litestream.Db.Index.{read_wal_header}
use litestream.Db.Index.Safe.{PageOnly, init_shadow_wal_index-Outcome}
use litestream.Db.Clean.{clean}
use litestream.Db.Verify.{current_generation, verify_last_shadow_frame}
use litestream.Db.Sync.Stages.{World, Stage, Query, observe, querying}
use litestream.Db.Sync.Stages.Stage.{before_checkpoint, after_touch, locked}
use litestream.Db.Sync.Stages.Query.{
  touch, run_checkpoint, begin, lock, rollback, release_read_lock, acquire_read_lock,
}
use litestream.Db.Sync.Checkpoint.{
  Mode, is_truncate, forget_frame, compare_headers, write_generation, create_generation,
  exec_checkpoint, checkpoint_locked, checkpoint, checkpoint_current,
}

module _ (n : ℕ) where
  abbrev pub Indexed : {A : Type 0} → A → Db → Disk → Type 0
  Indexed a db disk = HasIndex n db disk

  -- A step that changes no field.
  pub on_disk-Indexed :
      {A : Type 0} (f : Disk → Result A × Disk) (db : Db) (disk : Disk)
      → HasIndex n db disk
      → Outcome (HasPage n) Indexed (on_disk f db disk)
  on_disk-Indexed f db disk h = Outcome-of_result db (f disk).1 (f disk).0 h.0 (λ a e. h)

  pub result-Indexed :
      {A : Type 0} (r : Result A) (db : Db) (disk : Disk)
      → HasIndex n db disk
      → Outcome (HasPage n) Indexed (some (r, db, disk))
  result-Indexed r db disk h = Outcome-of_result db disk r h.0 (λ a e. h)

  pub result-PageOnly :
      {A : Type 0} (r : Result A) (db : Db) (disk : Disk)
      → HasPage n db
      → Outcome (HasPage n) (PageOnly n) (some (r, db, disk))
  result-PageOnly r db disk h = Outcome-of_result db disk r h (λ a e. h)

  module _ (lz4 : Lz4) (replicas : List Pos) (world : World) where
    pub create_generation-Outcome :
        (stage : Stage) (db : Db) (disk : Disk)
        → text_eq (generation_name (world.random stage)) [] ≡ false
        → HasPage n db
        → Outcome (HasPage n) Indexed (create_generation lz4 replicas world stage db disk)
    unfolding create_generation
    create_generation-Outcome stage db disk g h =
        let name = generation_name (world.random stage) in
        Outcome-continue _ _ (result-PageOnly (failing (world.faults stage).directory) db disk h)
          (λ _ db1 disk1 h1.
            Outcome-continue _ _
              (Outcome-wrap_out _ _
                (init_shadow_wal_index-Outcome n lz4 (world.faults stage) _ g db1 disk1 refl h1))
              (λ _ db2 disk2 h2.
                Outcome-continue _ _
                  (on_disk-Indexed (write_generation (world.faults stage).write_generation name) db2
                    disk2 h2)
                  (λ _ db3 disk3 h3.
                    Outcome-continue _ _
                      (on_disk-Indexed (clean (world.faults stage) replicas db3) db3 disk3 h3)
                      (λ _ db4 disk4 h4. Outcome-ok name db4 disk4 h4))))

  module _ (lz4 : Lz4) (world : World) where
    pub query-Outcome :
        (stage : Stage) (query : Query) (db : Db) (disk : Disk)
        → HasIndex n db disk
        → Outcome (HasPage n) Indexed (querying world stage query db disk)
    query-Outcome stage query db disk h =
        result-Indexed (failing (world.refuses stage query)) db disk h

    forget_frame-HasIndex :
        (mode : Mode) (db : Db) (disk : Disk)
        → HasIndex n db disk
        → HasIndex n (forget_frame mode db) disk
    forget_frame-HasIndex mode db disk h = elim (Bool-cases (is_truncate mode)) [
      | inl e ↦ rw e h
      | inr e ↦ rw e h
    ]

    exec_checkpoint-Outcome :
        (mode : Mode) (db : Db) (disk : Disk)
        → HasIndex n db disk
        → Outcome (HasPage n) Indexed (exec_checkpoint world mode db disk)
    unfolding exec_checkpoint
    exec_checkpoint-Outcome mode db disk h =
        Outcome-continue _ _
          (Outcome-wrap_out _ _ (query-Outcome before_checkpoint release_read_lock db disk h))
          (λ _ db1 disk1 h1.
            Outcome-continue _ _ (query-Outcome before_checkpoint run_checkpoint db1 disk1 h1)
              (λ _ db2 disk2 h2. Outcome-wrap_out _ _ (
                query-Outcome before_checkpoint acquire_read_lock (forget_frame mode db2) disk2
                  (forget_frame-HasIndex mode db2 disk2 h2))))

    checkpoint_locked-Outcome :
        (db : Db) (disk : Disk)
        → HasIndex n db disk
        → Outcome (HasPage n) Indexed (checkpoint_locked lz4 world db disk)
    unfolding checkpoint_locked observe
    checkpoint_locked-Outcome db disk h =
        Outcome-continue _ _ (Outcome-wrap_out _ _ (query-Outcome after_touch begin db disk h))
          (λ _ db1 disk1 h1.
            Outcome-continue _ _
              (Outcome-wrap_out _ _ (query-Outcome after_touch lock db1 disk1 h1))
              (λ _ db2 disk2 h2.
                let disk3 = record disk2 { wal = world.wal locked } in
                Outcome-continue _ _
                  (Outcome-wrap_out _ _ (
                    result-Indexed (verify_last_shadow_frame (world.faults locked) db2 disk3) db2
                      disk3 h2))
                  (λ _ db3 disk3 h3.
                    Outcome-continue _ _
                      (Outcome-wrap_out _ _
                        (copy_to_shadow_wal-Outcome lz4 (world.faults locked).copy n db3 disk3 h3))
                      (λ _ db4 disk4 h4.
                        Outcome-continue _ _
                          (Outcome-wrap_out _ _ (
                            init_shadow_wal_index-Outcome n lz4 (world.faults locked) _ h4.1 db4
                              disk4 refl h4.0))
                          (λ _ db5 disk5 h5.
                            Outcome-wrap_out _ _ (query-Outcome locked rollback db5 disk5 h5))))))

    compare_headers-Outcome :
        (hdr other : List ℕ) (db : Db) (disk : Disk)
        → HasIndex n db disk
        → Outcome (HasPage n) Indexed (compare_headers lz4 world hdr other db disk)
    compare_headers-Outcome hdr other db disk h = elim (Bool-cases (text_eq hdr other)) [
      | inl e ↦ rw e (Outcome-ok tt db disk h)
      | inr e ↦ rw e (checkpoint_locked-Outcome db disk h)
    ]

    pub checkpoint-Outcome :
        (mode : Mode) (db : Db) (disk : Disk)
        → HasIndex n db disk
        → Outcome (HasPage n) Indexed (checkpoint lz4 world mode db disk)
    unfolding checkpoint observe
    checkpoint-Outcome mode db disk h =
        let disk0 = record disk { wal = world.wal before_checkpoint } in
        Outcome-continue _ _
          (result-Indexed (read_wal_header (world.faults before_checkpoint) disk0) db disk0 h)
          (λ hdr db1 disk1 h1.
            Outcome-continue _ _
              (Outcome-wrap_out _ _ (
                copy_to_shadow_wal-Outcome lz4 (world.faults before_checkpoint).copy n db1 disk1
                  h1))
              (λ _ db2 disk2 h2.
                Outcome-continue _ _ (exec_checkpoint-Outcome mode db2 disk2 h2) (λ _ db3 disk3 h3.
                  Outcome-continue _ _ (query-Outcome before_checkpoint touch db3 disk3 h3)
                    (λ _ db4 disk4 h4.
                      let disk5 = record disk4 { wal = world.wal after_touch } in
                      Outcome-continue _ _
                        (result-Indexed (read_wal_header (world.faults after_touch) disk5) db4 disk5
                          h4)
                        (λ other db6 disk6 h6. compare_headers-Outcome hdr other db6 disk6 h6)))))

    -- Checkpoint needs a position as it is behind a sync that succeeded: it does not look for one.
    pub checkpoint_current-Outcome :
        (mode : Mode) (db : Db) (disk : Disk)
        → HasIndex n db disk
        → Outcome (HasPage n) Indexed (checkpoint_current lz4 world mode db disk)
    unfolding checkpoint_current
    checkpoint_current-Outcome mode db disk h =
        Outcome-continue _ _
          (Outcome-wrap_out _ _
            (result-Indexed (current_generation (world.faults before_checkpoint) disk) db disk h))
          (λ _ db1 disk1 h1. checkpoint-Outcome mode db1 disk1 h1)
