-- ===== src/Client/Bounds.antt =====
-- replica_client.go: the time bounds of snapshots, WAL segments, generations and replicas, and the
-- latest generation. A time of 0 is the zero time.
pub mod Newest
pub mod Spans
use litestream.Prelude.{
  ℕ, Bool, ◌||◌, String, List, [], ◌∷◌, Error, wrap, no_generation, no_snapshots, no_wal_segments,
  Result, ok, err, ◌>>=◌, ◌>>◌, wrapping, ltb, ◌==◌, if◌then◌else◌, length, Option, none, some,
  failing,
}
use litestream.Text.{Text, text_eq}
use litestream.Client.Infos.{SnapshotInfo, WalSegmentInfo, Listing, ReplicaClient, Time}
use litestream.Client.Search.{closing}

-- The updates of `min` and `max` by a range of times.
unfoldable pub widen : Time × Time → Time × Time → Time × Time
widen bounds range = (
  (if bounds.0 == 0 || ltb range.0 bounds.0 then range.0 else bounds.0),
  (if bounds.1 == 0 || ltb bounds.1 range.1 then range.1 else bounds.1),
)

unfoldable pub bounds_loop : {A : Type 0} → (A → Time) → Time × Time → List A → Time × Time
bounds_loop of bounds [] = bounds
bounds_loop of bounds (info ∷ itr) = bounds_loop of (widen bounds (of info, of info)) itr

-- `err != nil && err != ErrNoWALSegments`: there, the time of the last segment is the zero time.
unfoldable pub or_zero_time : Result (Time × Time) → Result Time
or_zero_time (ok bounds) = ok bounds.1
or_zero_time (err no_wal_segments) = ok 0
or_zero_time (err e) = err e

module _ (client : ReplicaClient) where
  unfoldable pub snapshot_time_bounds : Text → Result (Time × Time)
  snapshot_time_bounds generation = do
    itr ← wrapping "snapshots" (client.snapshots generation)
    closing "snapshot iteration" no_snapshots itr
    ok (bounds_loop (λ info. info.created_at) (0, 0) itr.items)

  unfoldable pub wal_time_bounds : Text → Result (Time × Time)
  wal_time_bounds generation = do
    itr ← wrapping "wal segments" (client.wal_segments generation)
    closing "wal segment iteration" no_wal_segments itr
    ok (bounds_loop (λ info. info.created_at) (0, 0) itr.items)

  unfoldable pub generation_time_bounds : Text → Result (Time × Time)
  generation_time_bounds generation = do
    bounds ← snapshot_time_bounds generation
    max ← or_zero_time (wal_time_bounds generation)
    ok (bounds.0, if ltb bounds.1 max then max else bounds.1)

  -- The loop of FindLatestGeneration.
  unfoldable pub latest_loop : List Text → Time → Text → Result Text
  latest_loop [] max_time generation = ok generation
  latest_loop (g ∷ generations) max_time generation = elim (generation_time_bounds g) [
    | err e ↦ err (wrap "generation time bounds" e)
    | ok bounds ↦
        latest_loop generations (if ltb max_time bounds.1 then bounds.1 else max_time)
          (if ltb max_time bounds.1 then g else generation)
  ]

  -- The rest of FindLatestGeneration, on what the client lists.
  unfoldable pub latest_of : Result (List Text) → Result Text
  latest_of listed = do
    generations ← wrapping "generations" listed
    generation ← latest_loop generations 0 []
    if text_eq generation [] then err no_generation else ok generation

  unfoldable pub find_latest_generation : Result Text
  unfolding latest_of
  find_latest_generation = latest_of client.generations

  -- The loop of ReplicaClientTimeBounds.
  unfoldable pub replica_bounds_loop : List Text → Time × Time → Result (Time × Time)
  replica_bounds_loop [] bounds = ok bounds
  replica_bounds_loop (g ∷ generations) bounds = elim (generation_time_bounds g) [
    | err e ↦ err (wrap "generation time bounds" e)
    | ok range ↦ replica_bounds_loop generations (widen bounds range)
  ]

  unfoldable pub replica_client_time_bounds : Result (Time × Time)
  replica_client_time_bounds = do
    generations ← wrapping "generations" client.generations
    if length generations == 0 then err no_generation else replica_bounds_loop generations (0, 0)
