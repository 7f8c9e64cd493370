-- ===== src/Sftp/Entries.antt =====
-- sftp/replica_client.go: what the client makes of the entries of a directory.
use litestream.Prelude.{ℕ, List, [], ◌∷◌, Result, ok, err, if◌then◌else◌, ltb}
use litestream.Text.{Text, text_lt}
use litestream.Pos.{parse_index, parse_offset, is_generation_name}
use litestream.Client.{SnapshotInfo, WalSegmentInfo}
use litestream.Files.Names.{segment_suffix, parse_snapshot_path, trim_suffix}
use litestream.Sftp.Server.{Entry}

-- sort.Strings
abbrev pub insert_text : Text → List Text → List Text
insert_text name [] = name ∷ []
insert_text name (other ∷ names) =
    let rest = insert_text name names in
    if text_lt name other then name ∷ other ∷ names else other ∷ rest

-- sort.Ints
abbrev pub insert_index : ℕ → List ℕ → List ℕ
insert_index index [] = index ∷ []
insert_index index (other ∷ indexes) =
    let rest = insert_index index indexes in
    if ltb index other then index ∷ other ∷ indexes else other ∷ rest

-- The generations of a directory's entries, sorted.
abbrev pub generations_of : List Entry → List Text
generations_of [] = []
generations_of (entry ∷ entries) =
    let rest = generations_of entries in
    if entry.is_dir
    then (if is_generation_name entry.name then insert_text entry.name rest else rest)
    else rest

abbrev pub add_snapshot : Text → Entry → Result ℕ → List SnapshotInfo → List SnapshotInfo
add_snapshot generation entry (err e) infos = infos
add_snapshot generation entry (ok index) infos =
    record {
      generation = generation;
      index = index;
      size = entry.size;
      created_at = entry.mod_time;
    }
    ∷ infos

abbrev pub snapshots_in : Text → List Entry → List SnapshotInfo
snapshots_in generation [] = []
snapshots_in generation (entry ∷ entries) =
    add_snapshot generation entry (parse_snapshot_path entry.name) (snapshots_in generation entries)

abbrev pub add_index : Entry → Result ℕ → List ℕ → List ℕ
add_index entry (err e) indexes = indexes
add_index entry (ok index) indexes = if entry.is_dir then insert_index index indexes else indexes

abbrev pub indexes_in : List Entry → List ℕ
indexes_in [] = []
indexes_in (entry ∷ entries) = add_index entry (parse_index entry.name) (indexes_in entries)

abbrev pub add_segment : Text → ℕ → Entry → Result ℕ → List WalSegmentInfo → List WalSegmentInfo
add_segment generation index entry (err e) infos = infos
add_segment generation index entry (ok offset) infos =
    record {
      generation = generation;
      index = index;
      offset = offset;
      size = entry.size;
      created_at = entry.mod_time;
    }
    ∷ infos

-- The loop over the entries in walSegmentIterator.Next.
abbrev pub segments_in : Text → ℕ → List Entry → List WalSegmentInfo
segments_in generation index [] = []
segments_in generation index (entry ∷ entries) =
    let rest = segments_in generation index entries in
    if entry.is_dir
    then rest
    else add_segment generation index entry (parse_offset (trim_suffix segment_suffix entry.name))
        rest
