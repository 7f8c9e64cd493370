-- ===== src/Files/Client/Written.antt =====
-- What a write of `FileReplicaClient` leaves for a reader.
use litestream.Prelude.{
  ℕ, ◌≡◌, refl, ap, ◌∙◌, inl, inr, List, Result, ok, err, Option-cases, Result-cases, length,
}
use litestream.Text.{Text}
use litestream.Pos.{Pos}
use litestream.Client.{SnapshotInfo, WalSegmentInfo}
use litestream.Files.System.{FilePath, FileInfo, Tree, open_file, open_file-written}
use litestream.Files.Client.{
  FileFaults, write_through, snapshot_written, segment_written, write_snapshot, write_wal_segment,
  read_at, contents,
}
use litestream.Files.Names.{snapshot_path, wal_segment_path}

module _ (path : Text) (faults : FileFaults) (reader : Result (List ℕ)) (tree : Tree) where
  -- Where the write succeeds the reader gave bytes, which are at the path now.
  abbrev Kept : FilePath → Result FileInfo × Tree → Type 0
  Kept p (err e, tree') = Unit
  Kept p (ok info, tree') = (reader ≡ ok info.bytes) × (open_file p tree' ≡ ok info)

  write_through-Kept : (p : FilePath) → Kept p (write_through path faults p reader tree)
  write_through-Kept p = elim (Option-cases faults.create) [
    | inr (e, q) ↦ rw q tt
    | inl q ↦ elim (Result-cases reader) [
      | inl (e, r) ↦ rw (q, r) tt
      | inr (bytes, r) ↦ elim (Option-cases faults.finish) [
        | inr (e, w) ↦ rw (q, r, w) tt
        | inl w ↦ rw (q, r, w) (refl, open_file-written p _ _)
      ]
    ]
  ]

  -- The bytes that a reader gave are what can be read, and their number is the size in the metadata.
  abbrev pub Readable : Result FilePath → ℕ → Tree → Type 0
  Readable p size tree' =
      (bytes : List ℕ) × (reader ≡ ok bytes) × (read_at tree' p ≡ ok bytes) × (size ≡ length bytes)

  abbrev pub SnapshotWritten : Text → ℕ → Result SnapshotInfo × Tree → Type 0
  SnapshotWritten generation index (err e, tree') = Unit
  SnapshotWritten generation index (ok info, tree') =
      (info.generation ≡ generation)
      × (info.index ≡ index)
      × Readable (snapshot_path path generation index) info.size tree'

  snapshot_written-Written :
      (generation : Text) (index : ℕ) (p : FilePath) (o : Result FileInfo × Tree)
      → snapshot_path path generation index ≡ ok p
      → Kept p o
      → SnapshotWritten generation index (snapshot_written path faults generation index o)
  unfolding read_at
  snapshot_written-Written generation index p (err e, tree') q h = tt
  snapshot_written-Written generation index p (ok info, tree') q h =
      (refl, refl, (info.bytes, h.0, ap (read_at tree') q ∙ ap contents h.1, refl))

  -- After a write of a snapshot that succeeds, a reader of the snapshot gets the bytes that were
  -- handed over, and the metadata has its generation, index and size.
  pub write_snapshot-Written :
      (generation : Text) (index : ℕ)
      → SnapshotWritten generation index (write_snapshot path faults generation index reader tree)
  unfolding write_snapshot
  write_snapshot-Written generation index =
      elim (Result-cases (snapshot_path path generation index)) [
        | inl (e, q) ↦ rw (write_snapshot, q) tt
        | inr (p, q) ↦
            rw (write_snapshot, q)
              (snapshot_written-Written generation index p _ q (write_through-Kept p))
      ]

  abbrev pub SegmentWritten : Pos → Result WalSegmentInfo × Tree → Type 0
  SegmentWritten pos (err e, tree') = Unit
  SegmentWritten pos (ok info, tree') =
      (info ≡ record {
        generation = pos.generation;
        index = pos.index;
        offset = pos.offset;
        size = info.size;
        created_at = info.created_at;
      })
      × Readable (wal_segment_path path pos) info.size tree'

  segment_written-Written :
      (pos : Pos) (p : FilePath) (o : Result FileInfo × Tree)
      → wal_segment_path path pos ≡ ok p
      → Kept p o
      → SegmentWritten pos (segment_written path faults pos o)
  unfolding read_at
  segment_written-Written pos p (err e, tree') q h = tt
  segment_written-Written pos p (ok info, tree') q h =
      (refl, (info.bytes, h.0, ap (read_at tree') q ∙ ap contents h.1, refl))

  -- After a write of a WAL segment that succeeds, a reader at its position gets the bytes that were
  -- handed over, and the metadata has its position and size.
  pub write_wal_segment-Written :
      (pos : Pos) → SegmentWritten pos (write_wal_segment path faults pos reader tree)
  unfolding write_wal_segment
  write_wal_segment-Written pos = elim (Result-cases (wal_segment_path path pos)) [
    | inl (e, q) ↦ rw (write_wal_segment, q) tt
    | inr (p, q) ↦
        rw (write_wal_segment, q) (segment_written-Written pos p _ q (write_through-Kept p))
  ]
