-- ===== src/Cloud/S3.antt =====
-- s3/replica_client.go: the client of S3, which removes objects in batches. `started` is the error
-- of Init, and `now` the time of a write. path.Join joins names that need no cleaning.
pub mod Batches
pub mod Keeps
pub mod Host
pub mod Careful
use litestream.Prelude.{
  ℕ, zero, suc, Bool, true, false, Option, none, some, List, [], ◌∷◌, ◌++◌, Error, message, Result,
  ok, err, ◌>>=◌, ◌>>◌, failing, if◌then◌else◌, length, take, drop, ltb, ◌==◌, map,
}
use litestream.Text.{Text, text_eq}
use litestream.Pos.{Pos}
use litestream.Client.{SnapshotInfo, WalSegmentInfo, Listing, ReplicaClient, Time}
use litestream.Client.Remote.{RemoteClient}
use litestream.Files.System.{FilePath}
use litestream.Files.Listing.{generation_names}
use litestream.Files.Names.{generations_name, snapshots_name, wal_name}
use litestream.Cloud.Bucket.{Object, Bucket}
use litestream.Cloud.Names.{
  generation_required, generation_prefix, snapshot_key, segment_key, snapshot_info, segment_info,
  snapshots_of, segments_of,
}

-- MaxKeys
abbrev pub max_keys : ℕ
max_keys = 1000

unfoldable pub batch_size : ℕ → ℕ
batch_size n = if ltb n max_keys then n else max_keys

-- The loops that remove objects in batches; `key_of` is the key of an element, which may be refused.
module _ (B : Bucket) {A : Type 0} (key_of : A → Result FilePath) where
  abbrev pub keys_of : List A → Result (List FilePath)
  keys_of [] = ok []
  keys_of (x ∷ a) = do key ← key_of x; keys ← keys_of a; ok (key ∷ keys)

  abbrev pub delete_batch : List A → B.State → Result (Unit {0}) × B.State
  delete_batch a s = elim (keys_of a) [ err e ↦ (err e, s) | ok keys ↦ B.delete keys s ]

  abbrev pub after_batch :
      Result (Unit {0}) × B.State
      → (B.State → Option (Result (Unit {0}) × B.State))
      → Option (Result (Unit {0}) × B.State)
  after_batch (err e, s) next = some (err e, s)
  after_batch (ok _, s) next = next s

  -- With fuel; `none` where it runs out.
  unfoldable pub delete_batches : ℕ → List A → B.State → Option (Result (Unit {0}) × B.State)
  delete_batches zero a s = none
  delete_batches (suc fuel) [] s = some (ok tt, s)
  delete_batches (suc fuel) (x ∷ a) s =
      let n = batch_size (length (x ∷ a)) in
      after_batch (delete_batch (take n (x ∷ a)) s) (delete_batches fuel (drop n (x ∷ a)))

abbrev pub object_keys : List Object → List FilePath
object_keys [] = []
object_keys (o ∷ objects) = o.key ∷ object_keys objects

-- What the iterators yield for what was listed.
abbrev pub snapshot_listing : Text → Listing Object → Listing SnapshotInfo
snapshot_listing generation itr = record {
  items = snapshots_of generation itr.items;
  close = itr.close;
}

abbrev pub segment_listing : Text → FilePath → Listing Object → Listing WalSegmentInfo
segment_listing generation dir itr = record {
  items = segments_of generation dir itr.items;
  close = itr.close;
}

module _ (B : Bucket) (path : Text) (started : Option Error) (now : Time) where
  abbrev pub ready : Text → Result (Unit {0})
  ready generation = do failing started; generation_required generation

  abbrev names_in : Listing Text → Result (List Text)
  names_in itr = elim itr.close [ some e ↦ err e | none ↦ ok (generation_names itr.items) ]

  -- Generations
  unfoldable pub generations : B.State → Result (List Text)
  generations s = do failing started; names_in (B.prefixes (path ∷ generations_name ∷ []) s)

  -- What is left of a removal of everything that a listing has.
  abbrev pub delete_all_of : Listing Object → B.State → Option (Result (Unit {0}) × B.State)
  delete_all_of itr s = elim itr.close [
    | some e ↦ some (err e, s)
    | none ↦ let keys = object_keys itr.items in delete_batches B ok (suc (length keys)) keys s
  ]

  -- DeleteGeneration; the prefix of its listing does not end with a slash.
  unfoldable pub delete_generation : Text → B.State → Option (Result (Unit {0}) × B.State)
  delete_generation generation s = elim (ready generation) [
    | err e ↦ some (err e, s)
    | ok _ ↦ delete_all_of (B.list (path ∷ generations_name ∷ []) generation s) s
  ]

  -- DeleteAll
  unfoldable pub delete_all : B.State → Option (Result (Unit {0}) × B.State)
  delete_all s = elim started [
    | some e ↦ some (err e, s)
    | none ↦ delete_all_of (B.list (if text_eq path [] then [] else path ∷ []) [] s) s
  ]

  -- The iterator's goroutine has this error, and Close returns it.
  abbrev pub fetched :
      {C : Type 0} → Text → (Listing Object → Listing C) → Listing Object → Listing C
  fetched generation f itr = elim (generation_required generation) [
    | err e ↦ record { items = []; close = some e }
    | ok _ ↦ f itr
  ]

  -- Snapshots, and what its iterator yields until it is closed.
  unfoldable pub snapshots : B.State → Text → Result (Listing SnapshotInfo)
  snapshots s generation = do
    failing started
    ok (
        fetched generation (snapshot_listing generation)
          (B.list_in (generation_prefix path generation ++ snapshots_name ∷ []) s))

  abbrev pub snapshot_written :
      Text → ℕ → Result (List ℕ) → Result (Unit {0}) × B.State → Result SnapshotInfo × B.State
  snapshot_written generation index reader (err e, s) = (err e, s)
  snapshot_written generation index reader (ok _, s) =
      (ok (snapshot_info now generation index reader), s)

  -- WriteSnapshot
  unfoldable pub write_snapshot :
      Text → ℕ → Result (List ℕ) → B.State → Result SnapshotInfo × B.State
  write_snapshot generation index reader s = elim (ready generation) [
    | err e ↦ (err e, s)
    | ok _ ↦
        snapshot_written generation index reader
          (B.put (snapshot_key path generation index) reader s)
  ]

  -- SnapshotReader
  unfoldable pub snapshot_reader : B.State → Text → ℕ → Result (List ℕ)
  snapshot_reader s generation index = do
    ready generation
    B.get (snapshot_key path generation index) s

  -- DeleteSnapshot
  unfoldable pub delete_snapshot : Text → ℕ → B.State → Result (Unit {0}) × B.State
  delete_snapshot generation index s = elim (ready generation) [
    | err e ↦ (err e, s)
    | ok _ ↦ B.delete (snapshot_key path generation index ∷ []) s
  ]

  -- WALSegments, and what its iterator yields until it is closed.
  unfoldable pub wal_segments : B.State → Text → Result (Listing WalSegmentInfo)
  wal_segments s generation = do
    failing started
    let dir = generation_prefix path generation ++ wal_name ∷ []
    ok (fetched generation (segment_listing generation dir) (B.list dir [] s))

  abbrev pub segment_written :
      Pos → Result (List ℕ) → Result (Unit {0}) × B.State → Result WalSegmentInfo × B.State
  segment_written pos reader (err e, s) = (err e, s)
  segment_written pos reader (ok _, s) = (ok (segment_info now pos reader), s)

  -- WriteWALSegment
  unfoldable pub write_wal_segment :
      Pos → Result (List ℕ) → B.State → Result WalSegmentInfo × B.State
  write_wal_segment pos reader s = elim (ready pos.generation) [
    | err e ↦ (err e, s)
    | ok _ ↦ segment_written pos reader (B.put (segment_key path pos) reader s)
  ]

  -- WALSegmentReader
  unfoldable pub wal_segment_reader : B.State → Pos → Result (List ℕ)
  wal_segment_reader s pos = do ready pos.generation; B.get (segment_key path pos) s

  abbrev pub checked_key : Pos → Result FilePath
  checked_key pos = do generation_required pos.generation; ok (segment_key path pos)

  -- DeleteWALSegments
  unfoldable pub delete_wal_segments : List Pos → B.State → Option (Result (Unit {0}) × B.State)
  delete_wal_segments a s = elim started [
    | some e ↦ some (err e, s)
    | none ↦ delete_batches B checked_key (suc (length a)) a s
  ]

  -- The fuel is enough, and this is what it gives.
  abbrev pub finished : Option (Result (Unit {0}) × B.State) → B.State → Result (Unit {0}) × B.State
  finished none s = (ok tt, s)
  finished (some r) s = r

  abbrev pub s3_client : RemoteClient
  s3_client = record {
    State = B.State;
    reads = λ s. record {
      generations = generations s;
      snapshots = snapshots s;
      wal_segments = wal_segments s;
      wal_segment_reader = wal_segment_reader s;
      snapshot_reader = snapshot_reader s;
    };
    delete_generation = λ generation s. finished (delete_generation generation s) s;
    delete_snapshot = delete_snapshot;
    delete_wal_segments = λ a s. finished (delete_wal_segments a s) s;
    write_snapshot = write_snapshot;
  }
