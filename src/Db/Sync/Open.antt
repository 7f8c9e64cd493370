-- ===== src/Db/Sync/Open.antt =====
-- What a sync of an open database leaves of the cached fields, and that it does not panic.
use litestream.Prelude.{
  ℕ, ◌≡◌, refl, ap, ◌∙◌, ◌*◌, arith, true, false, Option, none, some, List, [], ◌∷◌, Result, ok,
  err, Bool-cases, Option-cases, inl, inr, ◌⊎◌, ◌&&◌, failing, length,
}
use litestream.Text.{Text, text_eq}
use litestream.Text.Hex.{length-encode_to_string, encode_to_string}
use litestream.Pos.{Pos, is_zero, generation_name}
use litestream.Db.{Db, reset}
use litestream.Db.Disk.{Lz4, Disk}
use litestream.Db.Call.Outcome.{
  Outcome, Outcome-continue, Outcome-wrap_out, Outcome-of_result, Outcome-ok, Outcome-err,
  Outcome-reset_out,
}
use litestream.Db.Copy.Safe.{HasPage, HasIndex, copy_to_shadow_wal-Outcome}
use litestream.Db.Index.{OsFaults}
use litestream.Db.Index.Safe.{init_shadow_wal_index-Outcome}
use litestream.Db.Clean.{clean}
use litestream.Db.Reload.Safe.{Reloaded, invalidate-Outcome, zero_is_zero}
use litestream.Db.Verify.{SyncInfo, verify, verify_generation, current_generation}
use litestream.Db.Sync.Stages.{World, observe, can_stat, has_header, ensure_wal_exists}
use litestream.Db.Sync.Stages.Stage.{
  invalidating, ensuring, verifying, creating, copying, restarting, recreating, cleaning,
}
use litestream.Db.Sync.Stages.Query.{touch}
use litestream.Db.Sync.Checkpoint.{Mode, checkpoint}
use litestream.Db.Sync.Checkpoint.Safe.{
  Indexed, on_disk-Indexed, create_generation-Outcome, checkpoint-Outcome,
}
use litestream.Db.Sync.{
  checkpoint_mode, is_restart_generation, start_generation, restart_index, after_checkpoint, issue,
  issue_checkpoint, sync_from_pos, ensure_pos, sync_opened,
}

verify-reason :
    (faults : OsFaults) (age : ℕ) (db : Db) (disk : Disk) (info : SyncInfo)
    → disk.generation_file ≡ none
    → verify faults age db disk ≡ ok info
    → info.reason ≡ none
    → ⊥
unfolding verify current_generation verify_generation text_eq
verify-reason faults age db disk info e h k = cc (rw e at h)

-- The position is zero, or in a generation with a byte order that was read from a header.
abbrev pub Valid : ℕ → Db → Disk → Type 0
Valid n db disk = HasPage n db × ((is_zero db.pos ≡ true) ⊎ HasIndex n db disk)

-- `rand.Read` fills the eight bytes of a generation's name.
abbrev pub IsRandom : World → Type 0
IsRandom world = (length (world.random creating) ≡ 8) × (length (world.random recreating) ≡ 8)

long_enough : (s : Text) → length s ≡ 16 → text_eq s [] ≡ false
unfolding text_eq
long_enough [] h = ground arith
long_enough (c ∷ s) h = refl

name-generation_name :
    (bytes : List ℕ) → length bytes ≡ 8 → text_eq (generation_name bytes) [] ≡ false
unfolding generation_name
name-generation_name bytes h =
    long_enough (encode_to_string bytes) (length-encode_to_string bytes ∙ ap (◌*◌ 2) h)

module _ (n : ℕ) (lz4 : Lz4) (replicas : List Pos) (world : World) (random : IsRandom world) where
  abbrev Started : SyncInfo → Db → Disk → Type 0
  Started info db disk = HasPage n db × (info.reason ≡ none → HasIndex n db disk)

  start_generation-Outcome :
      (info : SyncInfo) (db : Db) (disk : Disk)
      → Started info db disk
      → Outcome (HasPage n) (Indexed n) (start_generation lz4 replicas world info db disk)
  unfolding start_generation observe
  start_generation-Outcome info db disk h = elim (Option-cases info.reason) [
    | inl e ↦ rw (start_generation, e) (Outcome-ok info db disk (h.1 e))
    | inr (reason, e) ↦
        rw (start_generation, e)
          (Outcome-continue _ _
            (Outcome-wrap_out _ _ (
              create_generation-Outcome n lz4 replicas world creating db _
                (name-generation_name (world.random creating) random.0) h.0))
            (λ generation db1 disk1 h1. Outcome-ok _ db1 disk1 h1))
  ]

  restart_index-Outcome :
      (info : SyncInfo) (db : Db) (disk : Disk)
      → HasIndex n db disk
      → Outcome (HasPage n) (Indexed n) (restart_index lz4 world info db disk)
  unfolding restart_index observe
  restart_index-Outcome info db disk h = elim (Bool-cases info.restart) [
    | inr e ↦ rw (restart_index, e) (Outcome-ok tt db disk h)
    | inl e ↦
        rw (restart_index, e)
          (Outcome-wrap_out _ _
            (init_shadow_wal_index-Outcome n lz4 (world.faults restarting) _ h.1 db _ refl h.0))
  ]

  after_checkpoint-Outcome :
      (o : Option (Result (Unit {0}) × Db × Disk))
      → Outcome (HasPage n) (Indexed n) o
      → Outcome (HasPage n) (Indexed n) (after_checkpoint lz4 replicas world o)
  unfolding observe
  after_checkpoint-Outcome none h = elim h.holds [ ]
  after_checkpoint-Outcome (some (ok tt, db, disk)) h = Outcome-ok tt db disk h.holds
  after_checkpoint-Outcome (some (err e, db, disk)) h =
      elim (Bool-cases (is_restart_generation e)) [
        | inr q ↦ rw q (Outcome-err _ db disk h.holds)
        | inl q ↦ rw q (
            Outcome-continue _ _
              (Outcome-wrap_out _ _ (
                create_generation-Outcome n lz4 replicas world recreating db _
                  (name-generation_name (world.random recreating) random.1) h.holds))
              (λ generation db1 disk1 h1. Outcome-ok tt db1 disk1 h1))
      ]

  issue-Outcome :
      (mode : Option Mode) (db : Db) (disk : Disk)
      → HasIndex n db disk
      → Outcome (HasPage n) (Indexed n) (issue lz4 replicas world mode db disk)
  issue-Outcome none db disk h = Outcome-ok tt db disk h
  issue-Outcome (some mode) db disk h =
      after_checkpoint-Outcome (checkpoint lz4 world mode db disk)
        (checkpoint-Outcome n lz4 world mode db disk h)

  ensure_wal_exists-Outcome :
      (db : Db) (disk : Disk)
      → Reloaded n db disk
      → HasPage n db
      → Outcome (HasPage n) (λ _. Reloaded n) (ensure_wal_exists world db disk)
  unfolding ensure_wal_exists
  ensure_wal_exists-Outcome db disk h p =
      elim (Bool-cases (can_stat (world.faults ensuring).stat && has_header disk.wal)) [
        | inl e ↦ rw (ensure_wal_exists, e) (Outcome-ok tt db disk h)
        | inr e ↦
            rw (ensure_wal_exists, e)
              (Outcome-of_result db disk (failing (world.refuses ensuring touch)) p (λ a q. h))
      ]

  Reloaded-HasPage : (db : Db) (disk : Disk) → Reloaded n db disk → HasPage n db
  Reloaded-HasPage db disk (inl h) = h.0
  Reloaded-HasPage db disk (inr h) = h.0

  Reloaded-Started :
      (db : Db) (disk : Disk) (info : SyncInfo)
      → Reloaded n db disk
      → verify (world.faults verifying) world.age db disk ≡ ok info
      → Started info db disk
  Reloaded-Started db disk info (inl h) q = (h.0, λ e. h)
  Reloaded-Started db disk info (inr h) q =
      (h.0, λ e. elim (verify-reason (world.faults verifying) world.age db disk info h.1 q e) [ ])

  sync_from_pos-Outcome :
      (db : Db) (disk : Disk)
      → Reloaded n db disk
      → Outcome (HasPage n) (Indexed n) (sync_from_pos lz4 replicas world db disk)
  unfolding sync_from_pos observe issue_checkpoint
  sync_from_pos-Outcome db disk h =
      Outcome-continue _ _
        (Outcome-wrap_out _ _ (
          ensure_wal_exists-Outcome db (record disk { wal = world.wal ensuring }) h
            (Reloaded-HasPage db disk h)))
        (λ _ db1 disk1 h1.
          let disk2 = record disk1 { wal = world.wal verifying } in
          Outcome-continue _ _
            (Outcome-wrap_out _ _ (
              Outcome-of_result {Q = Started} db1 disk2
                (verify (world.faults verifying) world.age db1 disk2)
                (Reloaded-HasPage db1 disk1 h1) (λ info q. Reloaded-Started db1 disk2 info h1 q)))
            (λ found db3 disk3 h3.
              Outcome-continue _ _ (start_generation-Outcome found db3 disk3 h3)
                (λ info db4 disk4 h4.
                  Outcome-continue _ _
                    (Outcome-wrap_out _ _ (
                      copy_to_shadow_wal-Outcome lz4 (world.faults copying).copy n db4
                        (record disk4 { wal = world.wal copying }) h4))
                    (λ _ db5 disk5 h5.
                      Outcome-continue _ _ (restart_index-Outcome info db5 disk5 h5)
                        (λ _ db6 disk6 h6.
                          Outcome-continue _ _
                            (issue-Outcome (checkpoint_mode db6 info.age) db6 disk6 h6)
                            (λ _ db7 disk7 h7. Outcome-wrap_out _ _ (
                              on_disk-Indexed n (clean (world.faults cleaning) replicas db7) db7
                                disk7 h7)))))))

  abbrev pub Settled : Db → Type 0
  Settled db = HasPage n db × (is_zero db.pos ≡ true)

  ensure_pos-Outcome :
      (db : Db) (disk : Disk)
      → Valid n db disk
      → Outcome Settled (λ _. Reloaded n) (ensure_pos lz4 world db disk)
  unfolding ensure_pos
  ensure_pos-Outcome db disk (p, v) = elim (Bool-cases (is_zero db.pos)) [
    | inl e ↦
        rw e (Outcome-wrap_out _ _ (invalidate-Outcome n lz4 (world.faults invalidating) db disk p))
    | inr e ↦ elim v [ inl z ↦ cc | inr h ↦ rw e (Outcome-ok tt db disk (inl h)) ]
  ]

  pub sync_opened-Outcome :
      (db : Db) (disk : Disk)
      → Valid n db disk
      → Outcome Settled (λ _. HasIndex n) (sync_opened lz4 replicas world db disk)
  unfolding sync_opened reset
  sync_opened-Outcome db disk v =
      Outcome-continue _ _ (ensure_pos-Outcome db disk v) (λ _ db1 disk1 h1.
        Outcome-reset_out _ (λ db' k. (k, zero_is_zero)) (sync_from_pos-Outcome db1 disk1 h1))
