-- ===== src/Files/Listing.antt =====
-- file_replica_client.go: `Generations`, `Snapshots` and `WALSegments` of `FileReplicaClient`.
use litestream.Files.Names.{
  segment_suffix, generations_dir, snapshots_dir, wal_dir, trim_suffix, parse_snapshot_path,
}
use litestream.Prelude.{
  ℕ, Bool, true, false, Option, none, some, List, [], ◌∷◌, ◌++◌, not_exist, Result, ok, err, ◌>>=◌,
  wrapping, if◌then◌else◌, length,
}
use litestream.Text.{Text, text_eq, text_lt}
use litestream.Pos.{format_index, parse_index, parse_offset, is_generation_name}
use litestream.Client.{SnapshotInfo, WalSegmentInfo, Listing}
use litestream.Client.Infos.{segment_less}
use litestream.Db.Reload.{insert_sorted}
use litestream.Replica.Snapshot.{sort_snapshots}
use litestream.Files.System.{FilePath, FileInfo, Tree, below}

-- A directory's names in order, each once, of the entries that are directories.
abbrev pub insert_name : Text → List Text → List Text
insert_name name [] = name ∷ []
insert_name name (other ∷ names) =
    let rest = insert_name name names in
    if text_eq name other
    then other ∷ names
    else if text_lt name other
    then name ∷ other ∷ names
    else other ∷ rest

unfoldable pub directories_in : FilePath → Tree → List Text
directories_in dir [] = []
directories_in dir ((p, file) ∷ tree) =
    let rest = directories_in dir tree in
    elim (below dir p) [ some (name ∷ _ ∷ _) ↦ insert_name name rest | _ ↦ rest ]

abbrev pub generation_names : List Text → List Text
generation_names [] = []
generation_names (name ∷ names) =
    let rest = generation_names names in if is_generation_name name then name ∷ rest else rest

-- Generations
unfoldable pub generations : Text → Tree → Result (List Text)
generations path tree = do
  root ← wrapping "cannot determine generations path" (generations_dir path)
  ok (generation_names (directories_in root tree))

abbrev pub snapshot_info : Text → FileInfo → Result ℕ → List SnapshotInfo → List SnapshotInfo
snapshot_info generation file (err e) infos = infos
snapshot_info generation file (ok index) infos =
    record {
      generation = generation;
      index = index;
      size = length file.bytes;
      created_at = file.mod_time;
    }
    ∷ infos

-- A file in the directory itself.
abbrev pub snapshot_entry :
    Text → FileInfo → Option FilePath → List SnapshotInfo → List SnapshotInfo
snapshot_entry generation file (some (name ∷ [])) infos =
    snapshot_info generation file (parse_snapshot_path name) infos
snapshot_entry generation file _ infos = infos

unfoldable pub snapshot_infos : Text → FilePath → Tree → List SnapshotInfo
snapshot_infos generation dir [] = []
snapshot_infos generation dir ((p, file) ∷ tree) =
    snapshot_entry generation file (below dir p) (snapshot_infos generation dir tree)

-- Snapshots
unfoldable pub snapshots : Text → Tree → Text → Result (Listing SnapshotInfo)
snapshots path tree generation = do
  dir ← snapshots_dir path generation
  ok (record { items = sort_snapshots (snapshot_infos generation dir tree); close = none })

abbrev pub segment_info : Text → ℕ → FileInfo → Result ℕ → List WalSegmentInfo → List WalSegmentInfo
segment_info generation index file (err e) infos = infos
segment_info generation index file (ok offset) infos =
    record {
      generation = generation;
      index = index;
      offset = offset;
      size = length file.bytes;
      created_at = file.mod_time;
    }
    ∷ infos

abbrev pub segment_entry :
    Text → ℕ → FileInfo → Option FilePath → List WalSegmentInfo → List WalSegmentInfo
segment_entry generation index file (some (name ∷ [])) infos =
    segment_info generation index file (parse_offset (trim_suffix segment_suffix name)) infos
segment_entry generation index file _ infos = infos

unfoldable pub segment_infos : Text → ℕ → FilePath → Tree → List WalSegmentInfo
segment_infos generation index dir [] = []
segment_infos generation index dir ((p, file) ∷ tree) =
    segment_entry generation index file (below dir p) (segment_infos generation index dir tree)

unfoldable pub insert_segment : WalSegmentInfo → List WalSegmentInfo → List WalSegmentInfo
insert_segment info [] = info ∷ []
insert_segment info (other ∷ a) =
    let rest = insert_segment info a in
    if segment_less info other then info ∷ other ∷ a else other ∷ rest

-- sort.Sort(WALSegmentInfoSlice(itr.infos))
unfoldable pub sort_segments : List WalSegmentInfo → List WalSegmentInfo
sort_segments [] = []
sort_segments (info ∷ a) = insert_segment info (sort_segments a)

abbrev pub exists_below : FilePath → Tree → Bool
exists_below dir [] = false
exists_below dir ((p, file) ∷ tree) =
    let rest = exists_below dir tree in elim (below dir p) [ none ↦ rest | some _ ↦ true ]

-- What the iterator's Next reads from an index's directory.
unfoldable pub read_index : Text → FilePath → Tree → ℕ → Result (List WalSegmentInfo)
read_index generation dir tree index =
    let index_dir = dir ++ format_index index ∷ [] in
    if exists_below index_dir tree
    then ok (sort_segments (segment_infos generation index index_dir tree))
    else err not_exist

abbrev pub insert_value : Result ℕ → List ℕ → List ℕ
insert_value (err e) indexes = indexes
insert_value (ok index) indexes = insert_sorted index indexes

abbrev pub index_values : List Text → List ℕ
index_values [] = []
index_values (name ∷ names) = insert_value (parse_index name) (index_values names)

abbrev pub then_indexes :
    Result (List WalSegmentInfo) → Listing WalSegmentInfo → Listing WalSegmentInfo
then_indexes (err e) rest = record { items = []; close = some e }
then_indexes (ok infos) rest = record { items = infos ++ rest.items; close = rest.close }

-- All that the iterator yields, and the error that ends it.
unfoldable pub read_indexes : (ℕ → Result (List WalSegmentInfo)) → List ℕ → Listing WalSegmentInfo
read_indexes read [] = record { items = []; close = none }
read_indexes read (index ∷ indexes) = then_indexes (read index) (read_indexes read indexes)

-- WALSegments
unfoldable pub wal_segments : Text → Tree → Text → Result (Listing WalSegmentInfo)
wal_segments path tree generation = do
  dir ← wal_dir path generation
  ok (read_indexes (read_index generation dir tree) (index_values (directories_in dir tree)))
