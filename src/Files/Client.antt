-- ===== src/Files/Client.antt =====
-- file_replica_client.go: `FileReplicaClient`.
pub mod Careful
pub mod Listed
pub mod Paths
pub mod Written
use litestream.Files.Listing.{
  insert_name, directories_in, generation_names, generations, snapshot_info, snapshot_entry,
  snapshot_infos, snapshots, segment_info, segment_entry, segment_infos, insert_segment,
  sort_segments, exists_below, read_index, insert_value, index_values, then_indexes, read_indexes,
  wal_segments,
}
use litestream.Files.Names.{
  generations_name, snapshots_name, wal_name, snapshot_suffix, segment_suffix, tmp_suffix,
  generations_dir, generation_dir, snapshots_dir, snapshot_path, wal_dir, wal_segment_path,
  trim_suffix, is_hex_name, index_value, parse_snapshot_path,
}
use litestream.Prelude.{
  ℕ, ◌-◌, Bool, true, false, not, ◌&&◌, Option, none, some, List, [], ◌∷◌, ◌++◌, Error, message,
  not_exist, wrap, Result, ok, err, ◌>>=◌, ◌>>◌, wrapping, failing, if◌then◌else◌, ltb, length,
  take, drop, ◌==◌, All,
}
use litestream.Text.{Text, text_eq, text_lt}
use litestream.Text.Hex.{parse_uint, is_hex_char}
use litestream.Pos.{
  Pos, format_index, format_offset, parse_index, parse_offset, is_generation_name, max_int,
}
use litestream.Client.{SnapshotInfo, WalSegmentInfo, Listing, ReplicaClient, Time}
use litestream.Client.Infos.{segment_less}
use litestream.Client.Remote.{RemoteClient}
use litestream.Db.Reload.{insert_sorted}
use litestream.Replica.Snapshot.{sort_snapshots}
use litestream.Files.System.{
  FilePath, FileInfo, Tree, below, remove, remove_all, write_file, open_file,
}

abbrev pub contents : Result FileInfo → Result (List ℕ)
contents (err e) = err e
contents (ok file) = ok file.bytes

-- SnapshotReader and WALSegmentReader
unfoldable pub read_at : Tree → Result FilePath → Result (List ℕ)
read_at tree (err e) = err e
read_at tree (ok p) = contents (open_file p tree)

-- What the file system refuses: a call before the temporary file is there, or one behind its
-- creation; removing something; and the time of a write.
pub record FileFaults : Type 0 where
  pub create : Option Error
  pub finish : Option Error
  pub remove : FilePath → Option Error
  pub now : Time

abbrev pub tmp_path : FilePath → FilePath
tmp_path [] = tmp_suffix ∷ []
tmp_path (name ∷ []) = (name ++ tmp_suffix) ∷ []
tmp_path (dir ∷ name ∷ p) = dir ∷ tmp_path (name ∷ p)

module _ (path : Text) (faults : FileFaults) where
  -- The write through a temporary file; the time and size are those of the temporary file.
  abbrev pub write_through : FilePath → Result (List ℕ) → Tree → Result FileInfo × Tree
  write_through p reader tree = elim faults.create [
    | some e ↦ (err e, tree)
    | none ↦ elim reader [
      | err e ↦ (err e, write_file (tmp_path p) (record { bytes = []; mod_time = faults.now }) tree)
      | ok bytes ↦
          let file : FileInfo = record { bytes = bytes; mod_time = faults.now } in
          elim faults.finish [
            | some e ↦ (err e, write_file (tmp_path p) file tree)
            | none ↦ (ok file, write_file p file (remove (tmp_path p) tree))
          ]
    ]
  ]

  abbrev pub snapshot_written : Text → ℕ → Result FileInfo × Tree → Result SnapshotInfo × Tree
  snapshot_written generation index (err e, tree) = (err e, tree)
  snapshot_written generation index (ok file, tree) = (
    ok (record {
      generation = generation;
      index = index;
      size = length file.bytes;
      created_at = file.mod_time;
    }),
    tree,
  )

  -- WriteSnapshot; the reader gives the bytes, or fails.
  unfoldable pub write_snapshot : Text → ℕ → Result (List ℕ) → Tree → Result SnapshotInfo × Tree
  write_snapshot generation index reader tree = elim (snapshot_path path generation index) [
    | err e ↦ (err e, tree)
    | ok p ↦ snapshot_written generation index (write_through p reader tree)
  ]

  abbrev pub segment_written : Pos → Result FileInfo × Tree → Result WalSegmentInfo × Tree
  segment_written pos (err e, tree) = (err e, tree)
  segment_written pos (ok file, tree) = (
    ok (record {
      generation = pos.generation;
      index = pos.index;
      offset = pos.offset;
      size = length file.bytes;
      created_at = file.mod_time;
    }),
    tree,
  )

  -- WriteWALSegment
  unfoldable pub write_wal_segment : Pos → Result (List ℕ) → Tree → Result WalSegmentInfo × Tree
  write_wal_segment pos reader tree = elim (wal_segment_path path pos) [
    | err e ↦ (err e, tree)
    | ok p ↦ segment_written pos (write_through p reader tree)
  ]

  -- DeleteGeneration
  unfoldable pub delete_generation : Text → Tree → Result (Unit {0}) × Tree
  delete_generation generation tree = elim (generation_dir path generation) [
    | err e ↦ (err (wrap "cannot determine generation path" e), tree)
    | ok dir ↦ elim (faults.remove dir) [
      | some e ↦ (err e, tree)
      | none ↦ (ok tt, remove_all dir tree)
    ]
  ]

  -- os.Remove; that the file is not there is no error.
  abbrev pub remove_at : FilePath → Tree → Result (Unit {0}) × Tree
  remove_at p tree = elim (faults.remove p) [
    | some e ↦ (err e, tree)
    | none ↦ (ok tt, remove p tree)
  ]

  -- DeleteSnapshot
  unfoldable pub delete_snapshot : Text → ℕ → Tree → Result (Unit {0}) × Tree
  delete_snapshot generation index tree = elim (snapshot_path path generation index) [
    | err e ↦ (err (wrap "cannot determine snapshot path" e), tree)
    | ok p ↦ remove_at p tree
  ]

  abbrev pub and_delete :
      Result (Unit {0}) × Tree → (Tree → Result (Unit {0}) × Tree) → Result (Unit {0}) × Tree
  and_delete (err e, tree) next = (err e, tree)
  and_delete (ok _, tree) next = next tree

  -- DeleteWALSegments
  unfoldable pub delete_wal_segments : List Pos → Tree → Result (Unit {0}) × Tree
  delete_wal_segments [] tree = (ok tt, tree)
  delete_wal_segments (pos ∷ a) tree = elim (wal_segment_path path pos) [
    | err e ↦ (err e, tree)
    | ok p ↦ and_delete (remove_at p tree) (delete_wal_segments a)
  ]

  -- The client that keeps its files below `path`.
  abbrev pub file_replica_client : RemoteClient
  file_replica_client = record {
    State = Tree;
    reads = λ tree. record {
      generations = generations path tree;
      snapshots = snapshots path tree;
      wal_segments = wal_segments path tree;
      wal_segment_reader = λ pos. read_at tree (wal_segment_path path pos);
      snapshot_reader = λ generation index. read_at tree (snapshot_path path generation index);
    };
    delete_generation = delete_generation;
    delete_snapshot = delete_snapshot;
    delete_wal_segments = delete_wal_segments;
    write_snapshot = write_snapshot;
  }
