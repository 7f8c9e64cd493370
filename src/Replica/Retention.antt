-- ===== src/Replica/Retention.antt =====
-- replica.go: `EnforceRetention`, `deleteSnapshotsBeforeIndex` and `deleteWALSegmentsBeforeIndex`.
pub mod Keeps
use litestream.Prelude.{
  ℕ, Bool, true, false, Option, none, some, List, [], ◌∷◌, ◌++◌, Error, wrap, Result, ok, err,
  if◌then◌else◌, failing, leb, ◌-◌,
}
use litestream.Text.{Text}
use litestream.Pos.{Pos}
use litestream.Client.{SnapshotInfo, WalSegmentInfo, Listing, Time, segment_pos}
use litestream.Client.Infos.{filter_snapshots_after, find_min_snapshot_by_generation}
use litestream.Client.Remote.{RemoteClient}
use litestream.Db.Disk.{Lz4}
use litestream.Replica.Snapshot.{Source, snapshots, snapshot}

-- The positions of the segments below the index.
unfoldable pub positions_before : ℕ → List WalSegmentInfo → List Pos
positions_before index [] = []
positions_before index (info ∷ itr) =
    let a = positions_before index itr in if leb index info.index then a else segment_pos info ∷ a

module _ (C : RemoteClient) where
  abbrev pub Step : Type 0
  Step = Result (Unit {0}) × C.State

  abbrev pub and_then : Step → (C.State → Step) → Step
  and_then (err e, s) next = (err e, s)
  and_then (ok _, s) next = next s

  abbrev pub wrapping : Step → (Error → Error) → Step
  wrapping (err e, s) f = (err (f e), s)
  wrapping (ok _, s) f = (ok tt, s)

  -- The loop of deleteSnapshotsBeforeIndex.
  unfoldable pub delete_snapshots : ℕ → Option Error → List SnapshotInfo → C.State → Step
  delete_snapshots index close [] s = (failing close, s)
  delete_snapshots index close (info ∷ itr) s =
      if leb index info.index
      then delete_snapshots index close itr s
      else and_then
          (wrapping (C.delete_snapshot info.generation info.index s) (wrap "delete snapshot"))
          (delete_snapshots index close itr)

  abbrev pub delete_listed_snapshots : ℕ → Result (Listing SnapshotInfo) → C.State → Step
  delete_listed_snapshots index (err e) s = (err (wrap "fetch snapshots" e), s)
  delete_listed_snapshots index (ok itr) s = delete_snapshots index itr.close itr.items s

  unfoldable pub delete_snapshots_before_index : Text → ℕ → C.State → Step
  delete_snapshots_before_index generation index s =
      delete_listed_snapshots index ((C.reads s).snapshots generation) s

  abbrev pub delete_positions : List Pos → C.State → Step
  delete_positions [] s = (ok tt, s)
  delete_positions (pos ∷ a) s =
      wrapping (C.delete_wal_segments (pos ∷ a) s) (wrap "delete wal segments")

  abbrev pub delete_listed_segments : ℕ → Result (Listing WalSegmentInfo) → C.State → Step
  delete_listed_segments index (err e) s = (err (wrap "fetch wal segments" e), s)
  delete_listed_segments index (ok itr) s =
      and_then (failing itr.close, s) (delete_positions (positions_before index itr.items))

  unfoldable pub delete_wal_segments_before_index : Text → ℕ → C.State → Step
  delete_wal_segments_before_index generation index s =
      delete_listed_segments index ((C.reads s).wal_segments generation) s

  -- One round of the loop of EnforceRetention, on the generation's earliest retained snapshot.
  unfoldable pub enforce_generation : Text → Option SnapshotInfo → C.State → Step
  enforce_generation generation none s =
      wrapping (C.delete_generation generation s) (wrap "delete generation")
  enforce_generation generation (some earliest) s =
      and_then
        (wrapping (delete_snapshots_before_index generation earliest.index s)
          (wrap "delete snapshots before index"))
        (λ s'.
          wrapping (delete_wal_segments_before_index generation earliest.index s')
            (wrap "delete wal segments before index"))

  unfoldable pub enforce_generations : List SnapshotInfo → List Text → C.State → Step
  enforce_generations retained [] s = (ok tt, s)
  enforce_generations retained (generation ∷ generations) s =
      and_then
        (enforce_generation generation (find_min_snapshot_by_generation retained generation) s)
        (enforce_generations retained generations)

  abbrev pub enforce_listed : List SnapshotInfo → Result (List Text) → C.State → Step
  enforce_listed retained (err e) s = (err (wrap "generations" e), s)
  enforce_listed retained (ok generations) s = enforce_generations retained generations s

  abbrev pub enforce_after : Result SnapshotInfo × C.State → Step
  enforce_after (err e, s) = (err (wrap "snapshot" e), s)
  enforce_after (ok info, s) = enforce_listed (info ∷ []) (C.reads s).generations s

  -- A new snapshot where no snapshot is retained.
  abbrev pub enforce_retained : Lz4 → Source → List SnapshotInfo → C.State → Step
  enforce_retained lz4 db [] s = enforce_after (snapshot C lz4 db s)
  enforce_retained lz4 db (info ∷ retained) s =
      enforce_listed (info ∷ retained) (C.reads s).generations s

  abbrev pub retain_from : Lz4 → Source → Time → Result (List SnapshotInfo) → C.State → Step
  retain_from lz4 db cutoff (err e) s = (err (wrap "snapshots" e), s)
  retain_from lz4 db cutoff (ok a) s = enforce_retained lz4 db (filter_snapshots_after a cutoff) s

  -- Replica.EnforceRetention, at the time `now`.
  unfoldable pub enforce_retention : Lz4 → Source → Time → ℕ → C.State → Step
  enforce_retention lz4 db now retention s =
      retain_from lz4 db (now - retention) (snapshots (C.reads s)) s
