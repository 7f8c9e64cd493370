-- ===== src/Tests/Syncing.antt =====
-- The sync of the database of Shadow, and the removal of old files of its shadow WAL.
use litestream.Prelude.{◌≡◌, ◌<◌, ◌+◌, ◌⊎◌, refl, inr, none, [], ◌∷◌, ok}
use litestream.Text.{text_eq}
use litestream.Pos.{Pos}
use litestream.Wal.Bytes.{little_endian}
use litestream.Db.{Db}
use litestream.Db.Disk.{Disk, no_segment_faults, read_segment}
use litestream.Db.Index.{OsFaults}
use litestream.Db.Verify.{current_generation}
use litestream.Db.Clean.{clean_wal}
use litestream.Db.Clean.Keeps.{BelowAll, clean_wal-KeptUnless}
use litestream.Db.Sync.{Init, connected, sync}
use litestream.Db.Sync.Stages.{World}
use litestream.Db.Sync.Open.{Valid}
use litestream.Db.Sync.Safe.{Synchronized, sync-Outcome}
use litestream.Tests.Shadow.{plain_lz4, no_faults, db, disk, generation}

abbrev pub os_faults : OsFaults
os_faults = record {
  read_wal = none;
  read_generation = none;
  write_generation = none;
  remove_generation = none;
  stat = none;
  directory = none;
  segment = no_segment_faults;
  copy = no_faults;
  list_segments = none;
  open_last = none;
  read_last = none;
  list_offsets = none;
  open_segment = none;
  list_generations = none;
  remove_generations = none;
  list_indexes = none;
  remove_indexes = none;
}

abbrev pub world : World
world = record {
  wal = λ stage. disk.wal;
  faults = λ stage. os_faults;
  refuses = λ stage query. none;
  random = λ stage. 1 ∷ 2 ∷ 3 ∷ 4 ∷ 5 ∷ 6 ∷ 7 ∷ 8 ∷ [];
  age = 0;
}

-- No WAL is found at all.
abbrev pub empty_world : World
empty_world = record world { wal = λ stage. none }

pub db-Valid : Valid 8 db disk
unfolding text_eq
db-Valid = ((refl, refl), inr ((refl, refl), refl, (little_endian, refl)))

-- The connection is made in this sync.
abbrev opening : Init
opening = connected 8 os_faults

sync-Outcome_example : Synchronized 8 opening db disk (sync plain_lz4 [] world opening db disk)
sync-Outcome_example = sync-Outcome 8 plain_lz4 [] world (refl, refl) opening db disk refl db-Valid

-- A shadow WAL with two indexes, of which the replica has reached the second.
abbrev old_pos : Pos
old_pos = record { generation = generation; index = 3; offset = 0 }

abbrev new_pos : Pos
new_pos = record { generation = generation; index = 40; offset = 0 }

abbrev old_disk : Disk
old_disk = record disk { segments = (new_pos, 9 ∷ []) ∷ (old_pos, 7 ∷ []) ∷ [] }

abbrev new_db : Db
new_db = record db { pos = new_pos }

clean_wal-KeptUnless_example :
    let disk' = (clean_wal os_faults (new_pos ∷ []) new_db old_disk).1 in
    (read_segment old_pos disk'.segments ≡ read_segment old_pos old_disk.segments)
    ⊎ ((read_segment old_pos disk'.segments ≡ none)
        × (current_generation os_faults old_disk ≡ ok generation)
        × (3 + 32 < 40)
        × BelowAll generation 3 (new_pos ∷ []))
clean_wal-KeptUnless_example = clean_wal-KeptUnless (new_pos ∷ []) new_db old_pos os_faults old_disk
