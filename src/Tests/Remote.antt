-- ===== src/Tests/Remote.antt =====
-- A replica in a directory: its client, retention on it, and a restore from the replica of Searches.
use litestream.Prelude.{
  ℕ, ◌≡◌, refl, arith, inl, true, none, some, List, [], ◌∷◌, ◌++◌, message, Result, ok, err,
  if◌then◌else◌, ◌==◌,
}
use litestream.Text.{Text, text_eq, text_lt}
use litestream.Text.Hex.{parse_uint, parse_digits, digit_value}
use litestream.Pos.{Pos, is_generation_name, all_hex}
use litestream.Client.{ReplicaClient, SnapshotInfo, WalSegmentInfo}
use litestream.Client.Infos.{filter_snapshots_after}
use litestream.Client.Remote.{File, segment_file, read_file, Careful, has_slash}
use litestream.Replica.Snapshot.{
  Source, snapshots, collect_snapshots, sort_snapshots, insert_snapshot,
}
use litestream.Replica.Retention.{enforce_retention}
use litestream.Replica.Retention.Keeps.{enforce_retention-Same}
use litestream.Files.System.{Tree, below}
use litestream.Files.Client.{FileFaults, file_replica_client, write_snapshot}
use litestream.Files.Listing.{read_indexes, generations, directories_in, snapshot_infos}
use litestream.Files.Names.{
  generations_name, snapshots_name, wal_name, snapshot_suffix, segment_suffix, generations_dir,
  generation_dir, snapshots_dir, parse_snapshot_path,
}
use litestream.Files.Listing as FileListing
use litestream.Files.Client.Careful.{file_replica_client-Careful}
use litestream.Files.Client.Written.{SnapshotWritten, write_snapshot-Written}
use litestream.Files.Iterator.{new_file_wal_segment_iterator, next}
use litestream.Files.Iterator.Drained.{drain, drain-read_indexes}
use litestream.Restore.{
  RestoreFaults, Output, restore, check_restore, check_output, restore_snapshot, apply_wals,
  next_results, next_downloads,
}
use litestream.Downloader.{
  check_range, init_input_ch, input_loop, finish_input, flush_offsets, download_wal, download_loop,
}
use litestream.Restore.Restored.{Restored, restore-Restored}
use litestream.Tests.Shadow.{plain_lz4}
use litestream.Tests.Searches.{generation, replica, segment}
use litestream.Downloader.Join.{no_faults}

abbrev pub root : Text
root = b'/' ∷ b'r' ∷ []

abbrev digits : ℕ → Text
digits d =
    b'0' ∷ b'0' ∷ b'0' ∷ b'0' ∷ b'0' ∷ b'0' ∷ b'0' ∷ b'0' ∷ b'0' ∷ b'0' ∷ b'0' ∷ b'0' ∷ b'0' ∷ b'0'
    ∷ b'0' ∷ d ∷ []

abbrev pub name : Text
name = digits b'a'

abbrev pub tree : Tree
tree =
    (
      root ∷ generations_name ∷ name ∷ snapshots_name ∷ (digits b'2' ++ snapshot_suffix) ∷ [],
      record { bytes = 1 ∷ 2 ∷ []; mod_time = 90 },
    )
    ∷ (
      root
          ∷ generations_name
          ∷ name
          ∷ wal_name
          ∷ digits b'2'
          ∷ (digits b'0' ++ segment_suffix)
          ∷ [],
      record { bytes = 5 ∷ []; mod_time = 95 },
    )
    ∷ []

abbrev pub file_faults : FileFaults
file_faults = record { create = none; finish = none; remove = λ p. none; now = 100 }

file_replica_client-Careful_example : Careful (file_replica_client root file_faults)
file_replica_client-Careful_example = file_replica_client-Careful root file_faults

write_snapshot-Written_example :
    SnapshotWritten root file_faults
      (ok (7 ∷ 8 ∷ []))
      tree
      name
      3
      (write_snapshot root file_faults name 3 (ok (7 ∷ 8 ∷ [])) tree)
write_snapshot-Written_example =
    write_snapshot-Written root file_faults (ok (7 ∷ 8 ∷ [])) tree name 3

abbrev pos : Pos
pos = record { generation = name; index = 3; offset = 0 }

abbrev pub snapshot_2 : SnapshotInfo
snapshot_2 = record { generation = name; index = 2; size = 2; created_at = 90 }

abbrev pub source : Source
source = record {
  is_open = true;
  checkpoint = none;
  begin = none;
  pos = pos;
  open_file = none;
  file = ok (1 ∷ []);
}

abbrev segment_2 : File
segment_2 = segment_file (record { generation = name; index = 2; offset = 0 })

lists : snapshots ((file_replica_client root file_faults).reads tree) ≡ ok (snapshot_2 ∷ [])
unfolding snapshots collect_snapshots sort_snapshots insert_snapshot generations generations_dir
    generation_dir snapshots_dir directories_in snapshot_infos parse_snapshot_path below
    is_generation_name all_hex text_eq text_lt parse_uint parse_digits digit_value
    FileListing.snapshots
lists = refl

enforce_retention-Same_example :
    let client = file_replica_client root file_faults in
    read_file (client.reads (enforce_retention client plain_lz4 source 110 50 tree).1) segment_2
    ≡ read_file (client.reads tree) segment_2
unfolding filter_snapshots_after has_slash
enforce_retention-Same_example =
    enforce_retention-Same (file_replica_client root file_faults)
      file_replica_client-Careful_example segment_2 refl (omega arith, omega arith) plain_lz4 source
      110 50 tree (snapshot_2 ∷ []) lists (inl (refl, omega arith))

-- Index 3 has two segments, and the index behind it cannot be read.
abbrev read : ℕ → Result (List WalSegmentInfo)
read index =
    if index == 3
    then ok (segment 3 0 55 ∷ segment 3 2 60 ∷ [])
    else err (message "input/output error")

drain-read_indexes_example :
    drain read 2 (next read (new_file_wal_segment_iterator generation (3 ∷ 4 ∷ [])))
    ≡ some (read_indexes read (3 ∷ 4 ∷ []))
unfolding read_indexes
drain-read_indexes_example = drain-read_indexes read generation (3 ∷ 4 ∷ [])

-- A WAL file is applied by writing its first byte behind the database.
abbrev pub apply : List ℕ → List ℕ → Result (List ℕ)
apply db [] = err (message "empty wal")
apply db (b ∷ wal) = ok (db ++ b ∷ [])

abbrev pub restore_faults : RestoreFaults
restore_faults = record { stat = none; remove = none; create = none; finish = none; rename = none }

abbrev pub with_snapshot : ReplicaClient
with_snapshot = record replica { snapshot_reader = λ g i. ok (1 ∷ []) }

abbrev pub no_output : Output
no_output = record { final = none; tmp = none }

restores :
    restore plain_lz4 with_snapshot restore_faults apply no_faults 1 root generation
      (some 3)
      (some 4)
      no_output
    ≡ (ok tt, record { final = some (1 ∷ 3 ∷ 4 ∷ []); tmp = none })
unfolding restore check_restore check_output restore_snapshot apply_wals next_results next_downloads
    check_range init_input_ch input_loop finish_input flush_offsets download_wal download_loop
    text_eq
restores = refl

restore-Restored_example :
    Restored plain_lz4 with_snapshot apply no_faults generation restore_faults 1 3 4 no_output (
      restore plain_lz4 with_snapshot restore_faults apply no_faults 1 root generation
        (some 3)
        (some 4)
        no_output)
restore-Restored_example =
    restore-Restored plain_lz4 with_snapshot apply no_faults generation restore_faults 1 3 4
      no_output root
