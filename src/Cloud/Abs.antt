-- ===== src/Cloud/Abs.antt =====
-- abs/replica_client.go: the client of Azure Blob Storage. `started` is the error of Init, and `now`
-- the time of a write. What it does as the client of Google Cloud Storage does is taken from there.
pub mod Careful
use litestream.Prelude.{
  ℕ, Option, none, some, List, [], ◌∷◌, ◌++◌, Error, wrap, Result, ok, err, ◌>>=◌, ◌>>◌, failing,
}
use litestream.Text.{Text}
use litestream.Pos.{Pos}
use litestream.Client.{SnapshotInfo, WalSegmentInfo, Listing, ReplicaClient, Time}
use litestream.Client.Remote.{RemoteClient}
use litestream.Files.Names.{wal_name}
use litestream.Cloud.Bucket.{Object, Bucket}
use litestream.Cloud.Removal.{delete_listed, delete_segments, deleted}
use litestream.Cloud.Names.{generation_prefix, snapshot_key, segment_key, snapshots_of, segments_of}
use litestream.Cloud.Gs.{
  ready, read_or, generations as prefix_names, write_snapshot as put_snapshot,
  snapshot_reader as get_snapshot, write_wal_segment as put_segment,
}
use litestream.Cloud.S3.{fetched, snapshot_listing, segment_listing}

-- DeleteGeneration passes an error on as it is.
abbrev pub as_it_is : Error → Error
as_it_is e = e

module _ (B : Bucket) (path : Text) (started : Option Error) (now : Time) where
  -- Generations
  abbrev pub generations : B.State → Result (List Text)
  generations = prefix_names B path started now

  -- DeleteGeneration
  unfoldable pub delete_generation : Text → B.State → Result (Unit {0}) × B.State
  delete_generation generation s = elim (ready B path started now generation) [
    | err e ↦ (err e, s)
    | ok _ ↦
        let itr = B.list (generation_prefix path generation) [] s in
        delete_listed B as_it_is itr.items itr.close s
  ]

  -- Snapshots, and what its iterator yields until it is closed; there the generation is asked for.
  unfoldable pub snapshots : B.State → Text → Result (Listing SnapshotInfo)
  snapshots s generation = do
    failing started
    ok (
        fetched B path started now generation (snapshot_listing generation)
          (B.list (generation_prefix path generation) [] s))

  -- WriteSnapshot
  abbrev pub write_snapshot : Text → ℕ → Result (List ℕ) → B.State → Result SnapshotInfo × B.State
  write_snapshot = put_snapshot B path started now

  -- SnapshotReader
  abbrev pub snapshot_reader : B.State → Text → ℕ → Result (List ℕ)
  snapshot_reader = get_snapshot B path started now

  -- DeleteSnapshot
  unfoldable pub delete_snapshot : Text → ℕ → B.State → Result (Unit {0}) × B.State
  delete_snapshot generation index s = elim (ready B path started now generation) [
    | err e ↦ (err e, s)
    | ok _ ↦
        deleted B (wrap "cannot delete snapshot")
          (B.delete (snapshot_key path generation index ∷ []) s)
  ]

  -- WALSegments, and what its iterator yields until it is closed. The prefix of its listing does not
  -- end with a slash, so that names that go on behind `wal` are listed too.
  unfoldable pub wal_segments : B.State → Text → Result (Listing WalSegmentInfo)
  wal_segments s generation = do
    failing started
    let dir = generation_prefix path generation
    ok (
        fetched B path started now generation (segment_listing generation (dir ++ wal_name ∷ []))
          (B.list dir wal_name s))

  -- WriteWALSegment
  abbrev pub write_wal_segment : Pos → Result (List ℕ) → B.State → Result WalSegmentInfo × B.State
  write_wal_segment = put_segment B path started now

  -- WALSegmentReader
  unfoldable pub wal_segment_reader : B.State → Pos → Result (List ℕ)
  wal_segment_reader s pos = do
    ready B path started now pos.generation
    read_or B path started now (wrap "cannot start new reader") (B.get (segment_key path pos) s)

  -- DeleteWALSegments
  unfoldable pub delete_wal_segments : List Pos → B.State → Result (Unit {0}) × B.State
  delete_wal_segments a s = elim started [
    | some e ↦ (err e, s)
    | none ↦ delete_segments B (wrap "cannot delete wal segment") path a s
  ]

  abbrev pub abs_client : RemoteClient
  abs_client = record {
    State = B.State;
    reads = λ s. record {
      generations = generations s;
      snapshots = snapshots s;
      wal_segments = wal_segments s;
      wal_segment_reader = wal_segment_reader s;
      snapshot_reader = snapshot_reader s;
    };
    delete_generation = delete_generation;
    delete_snapshot = delete_snapshot;
    delete_wal_segments = delete_wal_segments;
    write_snapshot = write_snapshot;
  }
