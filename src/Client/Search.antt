-- ===== src/Client/Search.antt =====
-- replica_client.go: the searches for a snapshot or WAL index in what a client lists. Each loop
-- goes over the list that the iterator yields; `n` of the source counts its rounds.
use litestream.Prelude.{
  ℕ, String, Bool, false, Option, none, some, List, [], ◌∷◌, Error, no_snapshots, no_wal_segments,
  message, wrap, Result, ok, err, ◌>>=◌, ◌>>◌, wrapping, failing, ltb, leb, ◌==◌, if◌then◌else◌,
  length,
}
use litestream.Text.{Text}
use litestream.Client.Infos.{SnapshotInfo, Listing, ReplicaClient, Time}

-- itr.Close() after a loop, wrapped by the message, and the error for an empty iteration.
abbrev pub closing : {A : Type 0} → String → Error → Listing A → Result (Unit {0})
closing text empty itr = do
  wrapping text (failing itr.close)
  if length itr.items == 0 then err empty else ok tt

-- The loop of FindSnapshotForIndex; `none` is the index -1.
unfoldable pub snapshot_for_index_loop : ℕ → Option ℕ → List SnapshotInfo → Option ℕ
snapshot_for_index_loop index best [] = best
snapshot_for_index_loop index none (info ∷ itr) =
    snapshot_for_index_loop index (if ltb index info.index then none else some info.index) itr
snapshot_for_index_loop index (some best) (info ∷ itr) =
    snapshot_for_index_loop index
      (if ltb index info.index
        then some best
        else if leb best info.index
        then some info.index
        else some best)
      itr

abbrev pub or_missing : Option ℕ → Result ℕ
or_missing none = err (message "no snapshots available at or before index")
or_missing (some index) = ok index

-- `if info.Index > index { index = info.Index }` over the indexes that the loop does not skip.
unfoldable pub max_loop : {A : Type 0} → (A → Bool) → (A → ℕ) → ℕ → List A → ℕ
max_loop skip of best [] = best
max_loop skip of best (info ∷ itr) =
    max_loop skip of (if skip info then best else if ltb best (of info) then of info else best) itr

-- `err != nil && err != ErrNoWALSegments`: the index is 0 where there are no segments.
abbrev pub or_no_segments : String → Result ℕ → Result ℕ
or_no_segments text (ok index) = ok index
or_no_segments text (err no_wal_segments) = ok 0
or_no_segments text (err e) = err (wrap text e)

-- `err == ErrNoSnapshots` is returned as it is, another error wrapped.
abbrev pub or_no_snapshots : String → Result ℕ → Result ℕ
or_no_snapshots text (ok index) = ok index
or_no_snapshots text (err no_snapshots) = err no_snapshots
or_no_snapshots text (err e) = err (wrap text e)

module _ (client : ReplicaClient) (generation : Text) where
  unfoldable pub find_snapshot_for_index : ℕ → Result ℕ
  unfolding snapshot_for_index_loop
  find_snapshot_for_index index = do
    itr ← wrapping "snapshots" (client.snapshots generation)
    closing "snapshot iteration" no_snapshots itr
    or_missing (snapshot_for_index_loop index none itr.items)

  unfoldable pub find_max_snapshot_index_by_generation : Result ℕ
  find_max_snapshot_index_by_generation = do
    itr ← wrapping "snapshots" (client.snapshots generation)
    closing "snapshot iteration" no_snapshots itr
    ok (max_loop (λ info. false) (λ info. info.index) 0 itr.items)

  unfoldable pub find_max_wal_index_by_generation : Result ℕ
  find_max_wal_index_by_generation = do
    itr ← wrapping "wal segments" (client.wal_segments generation)
    closing "wal segment iteration" no_wal_segments itr
    ok (max_loop (λ info. false) (λ info. info.index) 0 itr.items)

  unfoldable pub find_max_index_by_generation : Result ℕ
  find_max_index_by_generation = do
    snapshot_index ← or_no_snapshots "max snapshot index" find_max_snapshot_index_by_generation
    wal_index ← or_no_segments "max wal index" find_max_wal_index_by_generation
    ok (if ltb wal_index snapshot_index then snapshot_index else wal_index)

  unfoldable pub find_snapshot_index_by_timestamp : Time → Result ℕ
  find_snapshot_index_by_timestamp timestamp = do
    itr ← wrapping "snapshots" (client.snapshots generation)
    closing "snapshot iteration" no_snapshots itr
    ok (max_loop (λ info. ltb timestamp info.created_at) (λ info. info.index) 0 itr.items)

  unfoldable pub find_wal_index_by_timestamp : Time → Result ℕ
  find_wal_index_by_timestamp timestamp = do
    itr ← wrapping "wal segments" (client.wal_segments generation)
    closing "wal segment iteration" no_wal_segments itr
    ok (max_loop (λ info. ltb timestamp info.created_at) (λ info. info.index) 0 itr.items)

  unfoldable pub find_index_by_timestamp : Time → Result ℕ
  find_index_by_timestamp timestamp = do
    snapshot_index ←
        or_no_snapshots "max snapshot index" (find_snapshot_index_by_timestamp timestamp)
    wal_index ← or_no_segments "max wal index" (find_wal_index_by_timestamp timestamp)
    ok (if ltb wal_index snapshot_index then snapshot_index else wal_index)
