-- ===== src/Tests/Follower.antt =====
-- A replica that follows the shadow WAL: the first listed segment is already on it.
use litestream.Prelude.{List, ◌≡◌, refl, ok, inl, ℕ, [], ◌∷◌}
use litestream.Client.{WalSegmentInfo}
use litestream.Replica.{Replica, sync_wal}
use litestream.Text.{text_eq}
use litestream.Pos.{compare_pos, pos_eq}
use litestream.Db.Disk.{Disk, read_segment, wal_segment_reader}
use litestream.Replica.{Chunk, add_segment, group_segments}
use litestream.Replica.Succeeds.{no_faults, sync_wal-Chain}
use litestream.Tests.Shadow.{plain_lz4, copied_disk, db, generation}

abbrev listed : ℕ → WalSegmentInfo
listed offset = record {
  generation = generation;
  index = 1;
  offset = offset;
  size = 32;
  created_at = 0;
}

abbrev follower : Replica
follower = record { pos = db.pos; writes = [] }

-- Three bytes in the shadow WAL, from the replica's position on.
abbrev ahead : Disk
ahead = record copied_disk { segments = (db.pos, 1 ∷ 2 ∷ 3 ∷ []) ∷ [] }

abbrev written : List (Chunk × List ℕ)
written = ((listed 32, []), 1 ∷ 2 ∷ 3 ∷ []) ∷ []

sync_wal-Chain_example : sync_wal plain_lz4 no_faults ahead follower (listed 0 ∷ listed 32 ∷ []) ≡ (
  ok tt,
  record { pos = record db.pos { offset = 35 }; writes = (db.pos, 1 ∷ 2 ∷ 3 ∷ []) ∷ [] },
)
unfolding group_segments compare_pos text_eq add_segment wal_segment_reader read_segment pos_eq
sync_wal-Chain_example =
    sync_wal-Chain plain_lz4 ahead follower (listed 0 ∷ listed 32 ∷ []) written
      (record db.pos { offset = 35 }) refl
      (inl refl, (_, (refl, (_, _, refl, refl, (refl, refl))), refl))
