-- ===== src/Sftp/Client.antt =====
-- sftp/replica_client.go: `ReplicaClient`. `started` is the error of Init, and `now` the time of a
-- write. path.Join joins names that need no cleaning; a lost connection shows in Init's error only.

pub mod Keeps
pub mod Sparing
use litestream.Sftp.Entries.{
  insert_text, insert_index, generations_of, add_snapshot, snapshots_in, add_index, indexes_in,
  add_segment, segments_in,
}
use litestream.Prelude.{
  ℕ, Bool, true, false, Option, none, some, List, [], ◌∷◌, ◌++◌, Error, wrap, Result, ok, err,
  ◌>>=◌, ◌>>◌, failing, if◌then◌else◌, ltb,
}
use litestream.Text.{Text, text_lt}
use litestream.Pos.{Pos, format_index, parse_index, parse_offset, is_generation_name}
use litestream.Client.Remote.{File, snapshot_file, segment_file}
use litestream.Client.{SnapshotInfo, WalSegmentInfo, Listing, Time}
use litestream.Replica.Snapshot.{sort_snapshots}
use litestream.Files.System.{FilePath}
use litestream.Files.Names.{
  generations_name, snapshots_name, wal_name, segment_suffix, parse_snapshot_path, trim_suffix,
}
use litestream.Cloud.Bucket.{is_not_exists}
use litestream.Cloud.Names.{generation_required, generation_prefix, snapshot_key, segment_key}
use litestream.Sftp.Server.{Entry, Visit, SftpServer}
use litestream.Sftp.Iterator.{WalSegmentIterator, new_wal_segment_iterator}

module _ (S : SftpServer) (path : Text) (started : Option Error) (now : Time) where
  abbrev pub ready : Text → Result (Unit {0})
  ready generation = do failing started; generation_required generation

  -- A directory that is not there has no entries.
  abbrev pub entries_or_none : Result (List Entry) → Result (List Entry)
  entries_or_none (ok entries) = ok entries
  entries_or_none (err e) = if is_not_exists e then ok [] else err e

  -- Generations
  unfoldable pub generations : S.State → Result (List Text)
  generations s = do
    failing started
    entries ← entries_or_none (S.read_dir (path ∷ generations_name ∷ []) s)
    ok (generations_of entries)

  -- A removal; that there is no such file is no error.
  abbrev pub after_remove :
      (Error → Error)
      → Result (Unit {0}) × S.State
      → (S.State → Result (Unit {0}) × S.State)
      → Result (Unit {0}) × S.State
  after_remove explain (ok _, s) next = next s
  after_remove explain (err e, s) next = if is_not_exists e then next s else (err (explain e), s)

  unfoldable pub remove_directories : List FilePath → S.State → Result (Unit {0}) × S.State
  remove_directories [] s = (ok tt, s)
  remove_directories (dir ∷ dirs) s =
      after_remove (wrap "cannot delete directory") (S.remove_directory dir s)
        (remove_directories dirs)

  -- The walk, with the directories that it has seen, the last one first.
  unfoldable pub remove_visited : List FilePath → List Visit → S.State → Result (Unit {0}) × S.State
  remove_visited dirs [] s = remove_directories dirs s
  remove_visited dirs (visit ∷ visits) s = elim visit.err [
    | some e ↦ (err (wrap "cannot walk path" e), s)
    | none ↦ elim visit.is_dir [
      | true ↦ remove_visited (visit.path ∷ dirs) visits s
      | false ↦
          after_remove (wrap "cannot delete file") (S.remove visit.path s)
            (remove_visited dirs visits)
    ]
  ]

  -- DeleteGeneration
  unfoldable pub delete_generation : Text → S.State → Result (Unit {0}) × S.State
  delete_generation generation s = elim (ready generation) [
    | err e ↦ (err e, s)
    | ok _ ↦ remove_visited [] (S.walk (generation_prefix path generation) s) s
  ]

  -- Snapshots, and what its iterator yields.
  unfoldable pub snapshots : S.State → Text → Result (Listing SnapshotInfo)
  snapshots s generation = do
    ready generation
    entries ←
        entries_or_none (S.read_dir (generation_prefix path generation ++ snapshots_name ∷ []) s)
    ok (record { items = sort_snapshots (snapshots_in generation entries); close = none })

  -- What the calls of a write do in turn; a file that is open is closed again whatever happens.
  abbrev pub closed : Result ℕ × S.State → FilePath → Result ℕ × S.State
  closed (err e, s) p = (err e, (S.close p s).1)
  closed (ok n, s) p = let (r, t) = S.close p s in ((do r; ok n), t)

  abbrev pub copied : Result (Unit {0}) × S.State → FilePath → Result (List ℕ) → Result ℕ × S.State
  copied (err e, s) p reader = (err (wrap "cannot open snapshot file for writing" e), s)
  copied (ok _, s) p reader = closed (S.copy p reader s) p

  abbrev pub created : Result (Unit {0}) × S.State → FilePath → Result (List ℕ) → Result ℕ × S.State
  created (err e, s) p reader = (err (wrap "cannot make parent directory" e), s)
  created (ok _, s) p reader = copied (S.create p s) p reader

  -- The messages for the two kinds of files are not told apart.
  abbrev pub write_at : FilePath → FilePath → Result (List ℕ) → S.State → Result ℕ × S.State
  write_at dir p reader s = created (S.mkdir_all dir s) p reader

  abbrev pub snapshot_written : Text → ℕ → Result ℕ × S.State → Result SnapshotInfo × S.State
  snapshot_written generation index (err e, s) = (err e, s)
  snapshot_written generation index (ok n, s) =
      (ok (record { generation = generation; index = index; size = n; created_at = now }), s)

  -- WriteSnapshot
  unfoldable pub write_snapshot :
      Text → ℕ → Result (List ℕ) → S.State → Result SnapshotInfo × S.State
  write_snapshot generation index reader s = elim (ready generation) [
    | err e ↦ (err e, s)
    | ok _ ↦ snapshot_written generation index (
        write_at (generation_prefix path generation ++ snapshots_name ∷ [])
          (snapshot_key path generation index) reader s)
  ]

  -- SnapshotReader
  unfoldable pub snapshot_reader : S.State → Text → ℕ → Result (List ℕ)
  snapshot_reader s generation index = do
    ready generation
    S.get (snapshot_key path generation index) s

  abbrev pub last_removed :
      (Error → Error) → Result (Unit {0}) × S.State → Result (Unit {0}) × S.State
  last_removed explain o = after_remove explain o (λ s. (ok tt, s))

  -- DeleteSnapshot
  unfoldable pub delete_snapshot : Text → ℕ → S.State → Result (Unit {0}) × S.State
  delete_snapshot generation index s = elim (ready generation) [
    | err e ↦ (err e, s)
    | ok _ ↦
        last_removed (wrap "cannot delete snapshot")
          (S.remove (snapshot_key path generation index) s)
  ]

  -- WALSegments; where the directory is not there the code returns an iterator over no segments.
  unfoldable pub wal_segments : S.State → Text → Result WalSegmentIterator
  wal_segments s generation = do
    ready generation
    entries ← entries_or_none (S.read_dir (generation_prefix path generation ++ wal_name ∷ []) s)
    ok (new_wal_segment_iterator (indexes_in entries))

  -- What Next of its iterator reads for an index.
  unfoldable pub read_index : S.State → Text → ℕ → Result (List WalSegmentInfo)
  read_index s generation index = do
    entries ← S.read_dir (generation_prefix path generation ++ wal_name ∷ format_index index ∷ []) s
    ok (segments_in generation index entries)

  abbrev pub segment_written : Pos → Result ℕ × S.State → Result WalSegmentInfo × S.State
  segment_written pos (err e, s) = (err e, s)
  segment_written pos (ok n, s) = (
    ok (record {
      generation = pos.generation;
      index = pos.index;
      offset = pos.offset;
      size = n;
      created_at = now;
    }),
    s,
  )

  -- WriteWALSegment
  unfoldable pub write_wal_segment :
      Pos → Result (List ℕ) → S.State → Result WalSegmentInfo × S.State
  write_wal_segment pos reader s = elim (ready pos.generation) [
    | err e ↦ (err e, s)
    | ok _ ↦ segment_written pos (
        write_at (generation_prefix path pos.generation ++ wal_name ∷ format_index pos.index ∷ [])
          (segment_key path pos) reader s)
  ]

  -- WALSegmentReader
  unfoldable pub wal_segment_reader : S.State → Pos → Result (List ℕ)
  wal_segment_reader s pos = do ready pos.generation; S.get (segment_key path pos) s

  -- What the two readers give.
  unfoldable pub read_file : S.State → File → Result (List ℕ)
  read_file s (snapshot_file generation index) = snapshot_reader s generation index
  read_file s (segment_file pos) = wal_segment_reader s pos

  unfoldable pub remove_segments : List Pos → S.State → Result (Unit {0}) × S.State
  remove_segments [] s = (ok tt, s)
  remove_segments (pos ∷ a) s = elim (generation_required pos.generation) [
    | err e ↦ (err e, s)
    | ok _ ↦
        after_remove (wrap "cannot delete wal segment") (S.remove (segment_key path pos) s)
          (remove_segments a)
  ]

  -- DeleteWALSegments
  unfoldable pub delete_wal_segments : List Pos → S.State → Result (Unit {0}) × S.State
  delete_wal_segments a s = elim started [ some e ↦ (err e, s) | none ↦ remove_segments a s ]

  -- Cleanup
  unfoldable pub cleanup : S.State → Result (Unit {0}) × S.State
  cleanup s = elim started [
    | some e ↦ (err e, s)
    | none ↦
        after_remove (wrap "cannot delete generations path")
          (S.remove_directory (path ∷ generations_name ∷ []) s)
          (λ t. last_removed (wrap "cannot delete path") (S.remove_directory (path ∷ []) t))
  ]
