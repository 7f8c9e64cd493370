-- ===== src/Files/Names.antt =====
-- file_replica_client.go and internal/internal.go: the paths of `FileReplicaClient`, and the names in
-- them that are read back.
use litestream.Prelude.{
  ℕ, ◌-◌, Bool, true, ◌&&◌, Option, none, some, [], ◌∷◌, ◌++◌, message, Result, ok, err, ◌>>=◌,
  if◌then◌else◌, ltb, length, take, drop, ◌==◌,
}
use litestream.Text.{Text, text_eq}
use litestream.Text.Hex.{parse_uint, is_hex_char}
use litestream.Pos.{Pos, format_index, format_offset, max_int}
use litestream.Files.System.{FilePath}

-- The words in paths.
abbrev pub generations_name : Text
generations_name = b'g' ∷ b'e' ∷ b'n' ∷ b'e' ∷ b'r' ∷ b'a' ∷ b't' ∷ b'i' ∷ b'o' ∷ b'n' ∷ b's' ∷ []

abbrev pub snapshots_name : Text
snapshots_name = b's' ∷ b'n' ∷ b'a' ∷ b'p' ∷ b's' ∷ b'h' ∷ b'o' ∷ b't' ∷ b's' ∷ []

abbrev pub wal_name : Text
wal_name = b'w' ∷ b'a' ∷ b'l' ∷ []

abbrev pub snapshot_suffix : Text
snapshot_suffix =
    b'.' ∷ b's' ∷ b'n' ∷ b'a' ∷ b'p' ∷ b's' ∷ b'h' ∷ b'o' ∷ b't' ∷ b'.' ∷ b'l' ∷ b'z' ∷ b'4' ∷ []

abbrev pub segment_suffix : Text
segment_suffix = b'.' ∷ b'w' ∷ b'a' ∷ b'l' ∷ b'.' ∷ b'l' ∷ b'z' ∷ b'4' ∷ []

abbrev pub tmp_suffix : Text
tmp_suffix = b'.' ∷ b't' ∷ b'm' ∷ b'p' ∷ []

unfoldable pub generations_dir : Text → Result FilePath
generations_dir path =
    if text_eq path []
    then err (message "file replica path required")
    else ok (path ∷ generations_name ∷ [])

-- `filepath.Join` of these names, for a generation that is a name (`IsName`): it cleans nothing then.
unfoldable pub generation_dir : Text → Text → Result FilePath
generation_dir path generation = do
  dir ← generations_dir path
  if text_eq generation [] then err (message "generation required") else ok (dir ++ generation ∷ [])

unfoldable pub snapshots_dir : Text → Text → Result FilePath
snapshots_dir path generation = do
  dir ← generation_dir path generation
  ok (dir ++ snapshots_name ∷ [])

unfoldable pub snapshot_path : Text → Text → ℕ → Result FilePath
snapshot_path path generation index = do
  dir ← snapshots_dir path generation
  ok (dir ++ (format_index index ++ snapshot_suffix) ∷ [])

unfoldable pub wal_dir : Text → Text → Result FilePath
wal_dir path generation = do dir ← generation_dir path generation; ok (dir ++ wal_name ∷ [])

unfoldable pub wal_segment_path : Text → Pos → Result FilePath
wal_segment_path path pos = do
  dir ← wal_dir path pos.generation
  ok (dir ++ format_index pos.index ∷ (format_offset pos.offset ++ segment_suffix) ∷ [])

-- strings.TrimSuffix, and the removal of the temporary name's suffix.
abbrev pub trim_suffix : Text → Text → Text
trim_suffix suffix s =
    let n = length s - length suffix in if text_eq (drop n s) suffix then take n s else s

abbrev pub is_hex_name : Text → Bool
is_hex_name [] = true
is_hex_name (c ∷ s) = is_hex_char c && is_hex_name s

abbrev pub index_value : Option ℕ → Result ℕ
index_value none = ok 0
index_value (some v) =
    if ltb max_int v then err (message "index too large in snapshot path") else ok v

-- internal.ParseSnapshotPath
unfoldable pub parse_snapshot_path : Text → Result ℕ
parse_snapshot_path s =
    if length s == 29 && (is_hex_name (take 16 s) && text_eq (drop 16 s) snapshot_suffix)
    then index_value (parse_uint (take 16 s))
    else err (message "invalid snapshot path")
