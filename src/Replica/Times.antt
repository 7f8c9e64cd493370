-- ===== src/Replica/Times.antt =====
-- replica.go: `GenerationCreatedAt`, `SnapshotIndexAt` and `LatestReplica`. A time of 0 is the zero
-- time.
pub mod Newest
use litestream.Prelude.{
  ℕ, suc, ◌≤◌, ◌<◌, ◌≡◌, refl, sym, ap, ◌∙◌, subst, ◌⊎◌, inl, inr, Bool, true, false, not, ◌||◌,
  ◌&&◌, Option, none, some, List, [], ◌∷◌, Error, no_snapshots, Result, ok, err, ◌>>=◌, ◌>>◌,
  failing, ltb, ◌==◌, if◌then◌else◌, All, arith, Bool-cases, Result-cases, Option-cases,
}
use litestream.Text.{Text}
use litestream.Client.Infos.{SnapshotInfo, Listing, ReplicaClient, Time}
use litestream.Client.Bounds.{replica_client_time_bounds}

abbrev earlier : Time → Time → Time
earlier min created = if min == 0 || ltb created min then created else min

abbrev created_loop : Time → List SnapshotInfo → Time
created_loop min [] = min
created_loop min (s ∷ a) = created_loop (earlier min s.created_at) a

-- GenerationCreatedAt; the time is returned beside the error of Close too.
unfoldable pub generation_created_at : ReplicaClient → Text → Result (Time × Option Error)
generation_created_at client generation = do
  itr ← client.snapshots generation
  ok (created_loop 0 itr.items, itr.close)

-- Not `!timestamp.IsZero() && CreatedAt.After(timestamp)`.
abbrev pub in_time : Time → SnapshotInfo → Bool
in_time timestamp s = not (not (timestamp == 0) && ltb timestamp s.created_at)

-- `none` is the index -1.
abbrev pub newer_snapshot : Option ℕ × Time → SnapshotInfo → Option ℕ × Time
newer_snapshot best s =
    if best.1 == 0 || ltb best.1 s.created_at then (some s.index, s.created_at) else best

unfoldable pub index_at_loop : Time → Option ℕ × Time → List SnapshotInfo → Option ℕ × Time
index_at_loop timestamp best [] = best
index_at_loop timestamp best (s ∷ a) =
    index_at_loop timestamp (if in_time timestamp s then newer_snapshot best s else best) a

abbrev pub found_index : Option ℕ → Result ℕ
found_index none = err no_snapshots
found_index (some index) = ok index

-- SnapshotIndexAt
unfoldable pub snapshot_index_at : ReplicaClient → Text → Time → Result ℕ
snapshot_index_at client generation timestamp = do
  itr ← client.snapshots generation
  let best = index_at_loop timestamp (none, 0) itr.items
  failing itr.close
  found_index best.0

abbrev later_one :
    Option (ReplicaClient × Time) → ReplicaClient → Time → Option (ReplicaClient × Time)
later_one none client max = some (client, max)
later_one (some (r, t)) client max = if ltb t max then some (client, max) else some (r, t)

abbrev latest_replica_loop :
    Option (ReplicaClient × Time) → List ReplicaClient → Result (Option (ReplicaClient × Time))
latest_replica_loop best [] = ok best
latest_replica_loop best (client ∷ replicas) = do
  bounds ← replica_client_time_bounds client
  latest_replica_loop (later_one best client bounds.1) replicas

-- LatestReplica, with the time that the loop keeps.
unfoldable pub latest_replica : List ReplicaClient → Result (Option (ReplicaClient × Time))
latest_replica replicas = latest_replica_loop none replicas
