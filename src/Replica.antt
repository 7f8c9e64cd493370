-- ===== src/Replica.antt =====
-- replica.go: `syncWAL` and `writeIndexSegments`, from the segments of the shadow WAL to the
-- replica's client. The iterator is the list of the segments that it yields; metrics are left out.
pub mod Group
pub mod Sync
pub mod Succeeds
pub mod Position
pub mod Snapshot
pub mod Times
pub mod Retention
use litestream.Prelude.{
  ℕ, suc, ◌+◌, ◌≡◌, Bool, true, false, not, Option, none, some, List, [], ◌∷◌, ◌++◌, Error, message,
  wrap, Result, ok, err, ◌>>=◌, ◌>>◌, wrapping, failing, if◌then◌else◌, ◌==◌, length,
}
use litestream.Pos.{Pos, pos_eq, truncate, Comparison, before, same, after, compare_pos}
use litestream.Client.{WalSegmentInfo, segment_pos}
use litestream.Db.Disk.{Lz4, Disk, wal_segment_reader}

-- The position, and the calls of the client's WriteWALSegment that succeeded.
pub record Replica : Type 0 where
  pub pos : Pos
  pub writes : List (Pos × List ℕ)

-- A group of segments with one index is never empty: its first segment and the others.
abbrev pub Chunk : Type 0
Chunk = WalSegmentInfo × List WalSegmentInfo

unfoldable pub add_segment : List Chunk → WalSegmentInfo → List Chunk
add_segment [] info = (info, []) ∷ []
add_segment ((first, rest) ∷ []) info =
    if not (first.index == info.index)
    then (first, rest) ∷ (info, []) ∷ []
    else (first, rest ++ info ∷ []) ∷ []
add_segment (c ∷ d ∷ chunks) info = c ∷ add_segment (d ∷ chunks) info

-- The loop of syncWAL that groups the segments.
unfoldable pub group_segments : Pos → List Chunk → List WalSegmentInfo → Result (List Chunk)
group_segments pos chunks [] = ok chunks
group_segments pos chunks (info ∷ itr) = elim (compare_pos pos (segment_pos info)) [
  | err e ↦ err (wrap "compare pos" e)
  | ok after ↦ group_segments pos chunks itr
  | ok before ↦ group_segments pos (add_segment chunks info) itr
  | ok same ↦ group_segments pos (add_segment chunks info) itr
]

abbrev pub next_index_pos : Pos → Pos
next_index_pos pos = record (truncate pos) { index = pos.index + 1 }

-- The first segment is at the replica's position, or at the beginning of the next index.
unfoldable pub may_follow : Pos → Pos → Bool
may_follow pos initial_pos =
    if pos_eq pos initial_pos then true else pos_eq (next_index_pos pos) initial_pos

-- What the client and the file system refuse: a write to the replica, and closing a shadow segment.
pub record SyncFaults : Type 0 where
  pub write : Pos → List ℕ → Option Error
  pub close : Pos → Option Error

-- The error of a call of writeIndexSegments ends the loop.
abbrev pub and_write :
    Result (Unit {0}) × Replica
    → (Replica → Result (Unit {0}) × Replica)
    → Result (Unit {0}) × Replica
and_write (err e, r) rest = (err (wrap "write index segments" e), r)
and_write (ok _, r) rest = rest r

module _ (lz4 : Lz4) (faults : SyncFaults) (disk : Disk) where
  -- One round of the loop of writeIndexSegments: what is decompressed from the segment.
  unfoldable pub read_chunk_segment : Pos → WalSegmentInfo → Result (List ℕ)
  read_chunk_segment pos info =
      if not (pos_eq pos (segment_pos info)) then err (message "non-contiguous segment") else do
        rc ← wal_segment_reader (segment_pos info) disk
        bytes ← lz4.decompress rc
        failing (faults.close (segment_pos info))
        ok bytes

  -- The loop: the position behind the segments, and all that was written to the pipe.
  unfoldable pub copy_segments : Pos → List ℕ → List WalSegmentInfo → Result (Pos × List ℕ)
  copy_segments pos written [] = ok (pos, written)
  copy_segments pos written (info ∷ segments) = elim (read_chunk_segment pos info) [
    | err e ↦ err (wrap "wal segment" e)
    | ok bytes ↦
        copy_segments (record (segment_pos info) { offset = info.offset + length bytes })
          (written ++ bytes) segments
  ]

  -- The end of writeIndexSegments, on what the loop returned. Where the loop fails, the pipe gives
  -- its error to the client's write, which does not succeed. An error of the client's write may also
  -- end the copying early: the call fails all the same and changes nothing.
  unfoldable pub finish_write : Replica → Pos → Result (Pos × List ℕ) → Result (Unit {0}) × Replica
  finish_write r initial_pos (err e) = (err e, r)
  finish_write r initial_pos (ok (pos, written)) =
      elim (faults.write initial_pos (lz4.compress written)) [
        | some e ↦ (err e, r)
        | none ↦ (
          ok tt,
          record { pos = pos; writes = r.writes ++ (initial_pos, lz4.compress written) ∷ [] },
        )
      ]

  unfoldable pub write_index_segments : Replica → Chunk → Result (Unit {0}) × Replica
  write_index_segments r (first, rest) =
      if not (may_follow r.pos (segment_pos first))
      then (err (message "replica skipped position"), r)
      else finish_write r (segment_pos first) (copy_segments (segment_pos first) [] (first ∷ rest))

  -- The loop of syncWAL that writes the groups.
  unfoldable pub write_chunks : List Chunk → Replica → Result (Unit {0}) × Replica
  write_chunks [] r = (ok tt, r)
  write_chunks (c ∷ chunks) r = and_write (write_index_segments r c) (write_chunks chunks)

  -- Replica.syncWAL
  unfoldable pub sync_wal : Replica → List WalSegmentInfo → Result (Unit {0}) × Replica
  sync_wal r itr = elim (group_segments r.pos [] itr) [
    | err e ↦ (err e, r)
    | ok chunks ↦ write_chunks chunks r
  ]
