-- ===== src/Cloud/Gs.antt =====
-- gs/replica_client.go: the client of Google Cloud Storage. `started` is the error of Init, and
-- `now` the time of a write. path.Join joins names that need no cleaning.
pub mod Careful
use litestream.Prelude.{
  ℕ, Option, none, some, List, [], ◌∷◌, ◌++◌, Error, message, wrap, Result, ok, err, ◌>>=◌, ◌>>◌,
  failing, if◌then◌else◌, length,
}
use litestream.Text.{Text, text_eq}
use litestream.Pos.{Pos, format_index, format_offset, is_generation_name}
use litestream.Client.{SnapshotInfo, WalSegmentInfo, Listing, ReplicaClient, Time}
use litestream.Client.Remote.{RemoteClient}
use litestream.Files.System.{FilePath}
use litestream.Files.Listing.{generation_names}
use litestream.Files.Names.{
  generations_name, snapshots_name, wal_name, snapshot_suffix, segment_suffix,
}
use litestream.Cloud.Bucket.{Object, Bucket, is_not_exists}
use litestream.Cloud.Removal.{delete_listed, delete_segments, deleted}
use litestream.Cloud.Names.{
  generation_required, generation_prefix, snapshot_key, segment_key, snapshot_info, segment_info,
  snapshots_of, segments_of,
}

module _ (B : Bucket) (path : Text) (started : Option Error) (now : Time) where
  -- What each call begins with.
  abbrev pub ready : Text → Result (Unit {0})
  ready generation = do failing started; generation_required generation

  abbrev names_in : Listing Text → Result (List Text)
  names_in itr = elim itr.close [ some e ↦ err e | none ↦ ok (generation_names itr.items) ]

  -- Generations
  unfoldable pub generations : B.State → Result (List Text)
  generations s = do failing started; names_in (B.prefixes (path ∷ generations_name ∷ []) s)

  -- DeleteGeneration
  unfoldable pub delete_generation : Text → B.State → Result (Unit {0}) × B.State
  delete_generation generation s = elim (ready generation) [
    | err e ↦ (err e, s)
    | ok _ ↦
        let itr = B.list (generation_prefix path generation) [] s in
        delete_listed B (wrap "cannot delete object") itr.items itr.close s
  ]

  -- Snapshots, and what its iterator yields until it is closed.
  unfoldable pub snapshots : B.State → Text → Result (Listing SnapshotInfo)
  snapshots s generation = do
    ready generation
    let itr = B.list (generation_prefix path generation) [] s
    ok (record { items = snapshots_of generation itr.items; close = itr.close })

  abbrev pub snapshot_written :
      Text → ℕ → Result (List ℕ) → Result (Unit {0}) × B.State → Result SnapshotInfo × B.State
  snapshot_written generation index reader (err e, s) = (err e, s)
  snapshot_written generation index reader (ok _, s) =
      (ok (snapshot_info now generation index reader), s)

  -- WriteSnapshot
  unfoldable pub write_snapshot :
      Text → ℕ → Result (List ℕ) → B.State → Result SnapshotInfo × B.State
  write_snapshot generation index reader s = elim (ready generation) [
    | err e ↦ (err e, s)
    | ok _ ↦
        snapshot_written generation index reader
          (B.put (snapshot_key path generation index) reader s)
  ]

  abbrev pub read_or : (Error → Error) → Result (List ℕ) → Result (List ℕ)
  read_or explain (ok bytes) = ok bytes
  read_or explain (err e) = if is_not_exists e then err e else err (explain e)

  -- SnapshotReader
  unfoldable pub snapshot_reader : B.State → Text → ℕ → Result (List ℕ)
  snapshot_reader s generation index = do
    ready generation
    read_or (wrap "cannot start new reader") (B.get (snapshot_key path generation index) s)

  -- The key that DeleteSnapshot asks for: the suffix is a component of its own.
  abbrev pub deleted_key : Text → ℕ → FilePath
  deleted_key generation index =
      path
      ∷ generations_name
      ∷ generation
      ∷ snapshots_name
      ∷ format_index index
      ∷ snapshot_suffix
      ∷ []

  -- DeleteSnapshot
  unfoldable pub delete_snapshot : Text → ℕ → B.State → Result (Unit {0}) × B.State
  delete_snapshot generation index s = elim (ready generation) [
    | err e ↦ (err e, s)
    | ok _ ↦
        deleted B (wrap "cannot delete snapshot") (B.delete (deleted_key generation index ∷ []) s)
  ]

  -- WALSegments, and what its iterator yields until it is closed.
  unfoldable pub wal_segments : B.State → Text → Result (Listing WalSegmentInfo)
  wal_segments s generation = do
    ready generation
    let dir = generation_prefix path generation ++ wal_name ∷ []
    let itr = B.list dir [] s
    ok (record { items = segments_of generation dir itr.items; close = itr.close })

  abbrev pub segment_written :
      Pos → Result (List ℕ) → Result (Unit {0}) × B.State → Result WalSegmentInfo × B.State
  segment_written pos reader (err e, s) = (err e, s)
  segment_written pos reader (ok _, s) = (ok (segment_info now pos reader), s)

  -- WriteWALSegment
  unfoldable pub write_wal_segment :
      Pos → Result (List ℕ) → B.State → Result WalSegmentInfo × B.State
  write_wal_segment pos reader s = elim (ready pos.generation) [
    | err e ↦ (err e, s)
    | ok _ ↦ segment_written pos reader (B.put (segment_key path pos) reader s)
  ]

  -- WALSegmentReader
  unfoldable pub wal_segment_reader : B.State → Pos → Result (List ℕ)
  wal_segment_reader s pos = do ready pos.generation; B.get (segment_key path pos) s

  -- DeleteWALSegments
  unfoldable pub delete_wal_segments : List Pos → B.State → Result (Unit {0}) × B.State
  delete_wal_segments a s = elim started [
    | some e ↦ (err e, s)
    | none ↦ delete_segments B (wrap "cannot delete wal segment") path a s
  ]

  abbrev pub gs_client : RemoteClient
  gs_client = record {
    State = B.State;
    reads = λ s. record {
      generations = generations s;
      snapshots = snapshots s;
      wal_segments = wal_segments s;
      wal_segment_reader = wal_segment_reader s;
      snapshot_reader = snapshot_reader s;
    };
    delete_generation = delete_generation;
    delete_snapshot = delete_snapshot;
    delete_wal_segments = delete_wal_segments;
    write_snapshot = write_snapshot;
  }
