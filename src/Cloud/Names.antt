-- ===== src/Cloud/Names.antt =====
-- What the clients of cloud services make of the keys in a listing: `ParseSnapshotPath` and
-- `ParseWALSegmentPath` of internal/internal.go, and the parts of the iterators' loops.
use litestream.Prelude.{
  ℕ, Bool, ◌&&◌, Option, none, some, String, List, [], ◌∷◌, Result, ok, err, message, if◌then◌else◌,
  ◌==◌, ltb, length, take, drop, ◌++◌,
}
use litestream.Text.{Text, text_eq}
use litestream.Text.Hex.{parse_uint}
use litestream.Pos.{Pos, max_int, format_index, format_offset}
use litestream.Client.{SnapshotInfo, WalSegmentInfo, Time}
use litestream.Files.System.{FilePath, below}
use litestream.Files.Names.{
  generations_name, snapshots_name, wal_name, snapshot_suffix, segment_suffix, is_hex_name,
  parse_snapshot_path,
}
use litestream.Cloud.Bucket.{Object}

abbrev pub generation_required : Text → Result (Unit {0})
generation_required generation =
    if text_eq generation [] then err (message "generation required") else ok tt

abbrev pub read_size : Result (List ℕ) → ℕ
read_size (err e) = 0
read_size (ok bytes) = length bytes

-- `path.Join` of these names, for a generation that is a name (`IsName`): it cleans nothing then.
abbrev pub generation_prefix : Text → Text → FilePath
generation_prefix path generation = path ∷ generations_name ∷ generation ∷ []

abbrev pub snapshot_key : Text → Text → ℕ → FilePath
snapshot_key path generation index =
    path
    ∷ generations_name
    ∷ generation
    ∷ snapshots_name
    ∷ (format_index index ++ snapshot_suffix)
    ∷ []

abbrev pub segment_key : Text → Pos → FilePath
segment_key path pos =
    path
    ∷ generations_name
    ∷ pos.generation
    ∷ wal_name
    ∷ format_index pos.index
    ∷ (format_offset pos.offset ++ segment_suffix)
    ∷ []

-- The metadata of what was uploaded.
abbrev pub snapshot_info : Time → Text → ℕ → Result (List ℕ) → SnapshotInfo
snapshot_info now generation index reader = record {
  generation = generation;
  index = index;
  size = read_size reader;
  created_at = now;
}

abbrev pub segment_info : Time → Pos → Result (List ℕ) → WalSegmentInfo
segment_info now pos reader = record {
  generation = pos.generation;
  index = pos.index;
  offset = pos.offset;
  size = read_size reader;
  created_at = now;
}

abbrev pub bounded : String → Option ℕ → Result ℕ
bounded text none = ok 0
bounded text (some v) = if ltb max_int v then err (message text) else ok v

abbrev pub segment_name : Text → Text → Bool
segment_name index offset =
    length index == 16
    && (is_hex_name index
        && (length offset == 24
            && (is_hex_name (take 16 offset) && text_eq (drop 16 offset) segment_suffix)))

abbrev pub first_error : Result ℕ → Result ℕ → Result (ℕ × ℕ)
first_error (err e) offset = err e
first_error (ok i) (err e) = err e
first_error (ok i) (ok j) = ok (i, j)

-- internal.ParseWALSegmentPath, of a path by its components.
unfoldable pub parse_wal_segment_path : FilePath → Result (ℕ × ℕ)
parse_wal_segment_path (index ∷ offset ∷ []) =
    if segment_name index offset
    then first_error (bounded "index too large in wal segment path" (parse_uint index))
        (bounded "offset too large in wal segment path" (parse_uint (take 16 offset)))
    else err (message "invalid wal segment path")
parse_wal_segment_path _ = err (message "invalid wal segment path")

-- path.Base
abbrev pub base : FilePath → Text
base [] = []
base (name ∷ []) = name
base (_ ∷ name ∷ p) = base (name ∷ p)

-- strings.TrimPrefix of a directory with its slash.
abbrev or_whole : FilePath → Option FilePath → FilePath
or_whole key none = key
or_whole key (some rest) = rest

abbrev pub trim_prefix : FilePath → FilePath → FilePath
trim_prefix dir key = or_whole key (below dir key)

abbrev pub add_snapshot : Text → Object → Result ℕ → List SnapshotInfo → List SnapshotInfo
add_snapshot generation o (err e) infos = infos
add_snapshot generation o (ok index) infos =
    record { generation = generation; index = index; size = o.size; created_at = o.created } ∷ infos

-- The snapshots that an iterator yields for the objects of a listing.
unfoldable pub snapshots_of : Text → List Object → List SnapshotInfo
snapshots_of generation [] = []
snapshots_of generation (o ∷ objects) =
    add_snapshot generation o (parse_snapshot_path (base o.key)) (snapshots_of generation objects)

abbrev pub add_segment : Text → Object → Result (ℕ × ℕ) → List WalSegmentInfo → List WalSegmentInfo
add_segment generation o (err e) infos = infos
add_segment generation o (ok (index, offset)) infos =
    record {
      generation = generation;
      index = index;
      offset = offset;
      size = o.size;
      created_at = o.created;
    }
    ∷ infos

unfoldable pub segments_of : Text → FilePath → List Object → List WalSegmentInfo
segments_of generation dir [] = []
segments_of generation dir (o ∷ objects) =
    add_segment generation o (parse_wal_segment_path (trim_prefix dir o.key))
      (segments_of generation dir objects)
