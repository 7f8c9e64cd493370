-- ===== src/Db/Sync/Safe.antt =====
-- What every sync leaves of the cached fields, and that none panics.
use litestream.Prelude.{
  ℕ, ◌≡◌, refl, ◌%◌, true, Option, none, some, List, [], ◌∷◌, Result, ok, err, inl, inr, All,
}
use litestream.Pos.{Pos, is_zero}
use litestream.Db.{Db}
use litestream.Db.Disk.{Lz4, Disk}
use litestream.Db.Call.Outcome.{
  Outcome, Outcome-continue, Outcome-wrap_out, Outcome-of_result, Outcome-ok, Outcome-weaken,
}
use litestream.Db.Copy.Safe.{HasPage, HasIndex}
use litestream.Db.Index.{OsFaults}
use litestream.Db.Clean.{clean, clear_generation}
use litestream.Db.Reload.Safe.{Reloaded, invalidate-Outcome}
use litestream.Db.Verify.{verify_headers_match}
use litestream.Db.Sync.Stages.{World}
use litestream.Db.Sync.{
  or_clear, init_pos, Init, is_open, missing, refused, refused_behind, connected, sync, tries,
  retry, sync_retrying,
}
use litestream.Db.Sync.Open.{Valid, IsRandom, sync_opened-Outcome}

module _ (n : ℕ) (lz4 : Lz4) (replicas : List Pos) (world : World) (random : IsRandom world) where
  or_clear-Valid :
      (faults : OsFaults) (r : Result (Unit {0})) (db : Db) (disk : Disk)
      → Valid n db disk
      → Outcome (λ db'. Valid n db' disk) (λ _. Valid n) (or_clear faults r db disk)
  or_clear-Valid faults (ok _) db disk h = Outcome-ok tt db disk h
  or_clear-Valid faults (err e) db disk h =
      Outcome-wrap_out _ _
        (Outcome-of_result db _ (clear_generation faults.remove_generation disk).0 h (λ a q. h))

  Reloaded-Valid : (db : Db) (disk : Disk) → Reloaded n db disk → Valid n db disk
  Reloaded-Valid db disk (inl h) = (h.0, inr h)
  Reloaded-Valid db disk (inr h) = (h.0, inl h.2)

  init_pos-Valid :
      (faults : OsFaults) (db : Db) (disk : Disk)
      → HasPage n db
      → Outcome (λ db'. Valid n db' disk) (λ _. Valid n) (init_pos lz4 replicas faults db disk)
  unfolding init_pos
  init_pos-Valid faults db disk h =
      Outcome-continue _ _
        (Outcome-wrap_out _ _ (
          Outcome-weaken _ (invalidate-Outcome n lz4 faults db disk h) (λ db' k. (k.0, inl k.1))
            (λ _ db' disk' k. Reloaded-Valid db' disk' k)))
        (λ _ db1 disk1 h1.
          Outcome-continue _ _
            (or_clear-Valid faults (verify_headers_match faults db1 disk1) db1 disk1 h1)
            (λ _ db2 disk2 h2.
              Outcome-wrap_out _ _
                (Outcome-of_result db2 _ (clean faults replicas db2 disk2).0 h2 (λ a q. h2))))

-- What a sync leaves, by what init meets.
abbrev pub Synchronized : ℕ → Init → Db → Disk → Option (Result (Unit {0}) × Db × Disk) → Type 0
Synchronized n is_open db disk o =
    Outcome (λ db'. HasPage n db' × (is_zero db'.pos ≡ true)) (λ _. HasIndex n) o
Synchronized n missing db disk o = o ≡ some (ok tt, db, disk)
Synchronized n (refused e) db disk o = o ≡ some (err e, db, disk)
Synchronized n (refused_behind m e) db disk o = o ≡ some (err e, record db { page_size = m }, disk)
Synchronized n (connected m faults) db disk o =
    Outcome (λ db'. Valid m db' disk) (λ _. HasIndex m) o

-- The page size of a database that init opens.
abbrev pub Fits : Init → Type 0
Fits (connected m faults) = m % 8 ≡ 0
Fits _ = Unit

module _ (n : ℕ) (lz4 : Lz4) (replicas : List Pos) (world : World) (random : IsRandom world) where
  -- `sync` never panics, whatever init meets, whatever the WAL is at each stage and whatever fails, on
  -- page sizes that are multiples of 8, a position that is zero or in a generation with a known byte
  -- order, and eight random bytes for a new name. Where the database's file is missing it succeeds and
  -- changes nothing; an error of init before the checks of the shadow WAL is returned and changes
  -- nothing but the page size, if that was read. Otherwise a sync that succeeds leaves a position in a
  -- generation with a known byte order, and one that fails the zero position, or, where init has made
  -- the connection just then, perhaps a position in a generation with a known byte order; the page size
  -- is that of the database.
  pub sync-Outcome :
      (init : Init) (db : Db) (disk : Disk)
      → Fits init
      → Valid n db disk
      → Synchronized n init db disk (sync lz4 replicas world init db disk)
  unfolding sync
  sync-Outcome is_open db disk f v = sync_opened-Outcome n lz4 replicas world random db disk v
  sync-Outcome missing db disk f v = refl
  sync-Outcome (refused e) db disk f v = refl
  sync-Outcome (refused_behind m e) db disk f v = refl
  sync-Outcome (connected m faults) db disk k v =
      Outcome-continue _ _
        (init_pos-Valid m lz4 replicas world random faults (record db { page_size = m }) disk
          (refl, k))
        (λ _ db1 disk1 h1.
          Outcome-weaken _ (sync_opened-Outcome m lz4 replicas world random db1 disk1 h1)
            (λ db' k'. (k'.0, inl k'.1)) (λ _ _ _ k'. k'))

module _ (n : ℕ) (lz4 : Lz4) (replicas : List Pos) where
  abbrev Synced : Option (Db × Disk) → Type 0
  Synced o = (db : Db) × (disk : Disk) × (o ≡ some (db, disk)) × Valid n db disk

  retry-Synced :
      (again : Db → Disk → Option (Db × Disk)) (o : Option (Result (Unit {0}) × Db × Disk))
      → ((db : Db) (disk : Disk) → Valid n db disk → Synced (again db disk))
      → Outcome (λ db'. HasPage n db' × (is_zero db'.pos ≡ true)) (λ _. HasIndex n) o
      → Synced (retry again o)
  retry-Synced again none k h = elim h.holds [ ]
  retry-Synced again (some (ok tt, db, disk)) k h = (db, disk, refl, (h.holds.0, inr h.holds))
  retry-Synced again (some (err e, db, disk)) k h = k db disk (h.holds.0, inl h.holds.1)

  -- `Sync` of a database that is open returns whatever happens in its tries, and leaves fields from
  -- which the next one returns again: the zero position, or one in a generation with a known byte
  -- order.
  pub sync_retrying-Synced :
      (worlds : List World) (db : Db) (disk : Disk)
      → All IsRandom worlds
      → Valid n db disk
      → (db' : Db) × (disk' : Disk) × (sync_retrying lz4 replicas (tries worlds) db disk
          ≡ some (db', disk'))
        × Valid n db' disk'
  unfolding sync_retrying
  sync_retrying-Synced [] db disk r v = (db, disk, refl, v)
  sync_retrying-Synced (world ∷ worlds) db disk r v =
      retry-Synced (sync_retrying lz4 replicas (tries worlds))
        (sync lz4 replicas world is_open db disk)
        (λ db1 disk1 v1. sync_retrying-Synced worlds db1 disk1 r.1 v1)
        (sync-Outcome n lz4 replicas world r.0 is_open db disk tt v)
