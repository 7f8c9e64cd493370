-- ===== src/Replica/Snapshot.antt =====
-- replica.go: `Snapshots`, `Snapshot` and `Sync`, over a client and what the database gives.
pub mod CaughtUp
pub mod Stalls
use litestream.Prelude.{
  ℕ, Bool, true, false, not, Option, none, some, List, [], ◌∷◌, ◌++◌, Error, no_generation, message,
  wrap, Result, ok, err, if◌then◌else◌, failing, ◌==◌,
}
use litestream.Prelude
use litestream.Text.{Text, text_eq}
use litestream.Pos.{Pos, is_zero, zero_pos, compare_pos}
use litestream.Client.{SnapshotInfo, WalSegmentInfo, Listing, ReplicaClient, segment_pos}
use litestream.Client.Infos.{snapshot_less}
use litestream.Client.Remote.{RemoteClient}
use litestream.Db.Disk.{Lz4, Disk}
use litestream.Replica.{Replica, SyncFaults, sync_wal}
use litestream.Replica.Position.{snapshot_n, calc_pos}

-- sort.Sort(SnapshotInfoSlice(a))
unfoldable pub insert_snapshot : SnapshotInfo → List SnapshotInfo → List SnapshotInfo
insert_snapshot info [] = info ∷ []
insert_snapshot info (other ∷ a) =
    let rest = insert_snapshot info a in
    if snapshot_less info other then info ∷ other ∷ a else other ∷ rest

unfoldable pub sort_snapshots : List SnapshotInfo → List SnapshotInfo
sort_snapshots [] = []
sort_snapshots (info ∷ a) = insert_snapshot info (sort_snapshots a)

abbrev pub all_items : Listing SnapshotInfo → Result (List SnapshotInfo)
all_items itr = elim itr.close [ none ↦ ok itr.items | some e ↦ err e ]

-- The loop of Snapshots over the generations.
unfoldable pub collect_snapshots :
    ReplicaClient → List SnapshotInfo → List Text → Result (List SnapshotInfo)
collect_snapshots client a [] = ok a
collect_snapshots client a (generation ∷ generations) = elim (client.snapshots generation) [
  | err e ↦ err e
  | ok itr ↦ elim (all_items itr) [
    | err e ↦ err e
    | ok other ↦ collect_snapshots client (a ++ other) generations
  ]
]

-- Replica.Snapshots
unfoldable pub snapshots : ReplicaClient → Result (List SnapshotInfo)
snapshots client =
    Prelude.◌>>=◌ (Prelude.wrapping "cannot fetch generations" client.generations) (λ generations.
      Prelude.◌>>=◌ (collect_snapshots client [] generations) (λ a. ok (sort_snapshots a)))

-- The database, as Snapshot meets it: what SQLite and the file system refuse, the position then, and
-- what copying the file gives.
pub record Source : Type 0 where
  pub is_open : Bool
  pub checkpoint : Option Error
  pub begin : Option Error
  pub pos : Pos
  pub open_file : Option Error
  pub file : Result (List ℕ)

abbrev compressed : Lz4 → Result (List ℕ) → Result (List ℕ)
compressed lz4 (ok bytes) = ok (lz4.compress bytes)
compressed lz4 (err e) = err e

-- What Snapshot checks before it hands the database to the client.
unfoldable pub snapshot_pos : Source → Result Pos
snapshot_pos db =
    if not db.is_open
    then err (message "no database available")
    else Prelude.◌>>◌ (Prelude.wrapping "pre-snapshot checkpoint" (failing db.checkpoint)) (
        Prelude.◌>>◌ (failing db.begin) (
          if is_zero db.pos
          then err no_generation
          else Prelude.◌>>◌ (failing db.open_file) (ok db.pos)))

-- What the loop of syncWAL leaves of the iterator: an error of ComparePos ends it.
unfoldable pub unread : Pos → List WalSegmentInfo → List WalSegmentInfo
unread pos [] = []
unread pos (info ∷ itr) =
    let rest = unread pos itr in
    elim (compare_pos pos (segment_pos info)) [ err e ↦ itr | ok _ ↦ rest ]

module _ (C : RemoteClient) where
  -- The client's error, or that of the goroutine that copies the database.
  abbrev pub wait : Result (List ℕ) → Result SnapshotInfo × C.State → Result SnapshotInfo × C.State
  wait file (err e, s) = (err e, s)
  wait (err e) (ok info, s) = (err e, s)
  wait (ok _) (ok info, s) = (ok info, s)

  abbrev pub snapshot_at : Lz4 → Source → Result Pos → C.State → Result SnapshotInfo × C.State
  snapshot_at lz4 db (err e) s = (err e, s)
  snapshot_at lz4 db (ok pos) s =
      wait db.file (C.write_snapshot pos.generation pos.index (compressed lz4 db.file) s)

  -- Replica.Snapshot
  unfoldable pub snapshot : Lz4 → Source → C.State → Result SnapshotInfo × C.State
  snapshot lz4 db s = snapshot_at lz4 db (snapshot_pos db) s

  -- An open iterator of WAL segments: its generation and what it has yet to yield.
  abbrev pub Iterator : Type 0
  Iterator = Text × List WalSegmentInfo

  abbrev reusable : Text → Option Iterator → Option Iterator
  reusable generation none = none
  reusable generation (some (other, infos)) =
      if not (text_eq other generation) then none else some (other, infos)

  abbrev pub same_generation : Text → Result SnapshotInfo × C.State → Result (Unit {0}) × C.State
  same_generation generation (err e, s) = (err e, s)
  same_generation generation (ok info, s) = (
    if not (text_eq info.generation generation)
        then err (message "generation changed during snapshot, exiting sync")
        else ok tt,
    s,
  )

  -- A snapshot where the replica has none of the generation.
  abbrev pub ensure_snapshot :
      Lz4 → Source → Text → Result ℕ → C.State → Result (Unit {0}) × C.State
  ensure_snapshot lz4 db generation (err e) s = (err e, s)
  ensure_snapshot lz4 db generation (ok n) s =
      if n == 0 then same_generation generation (snapshot lz4 db s) else (ok tt, s)

  -- The iterator that is read, and whether it is a new one.
  abbrev pub open_iterator :
      Text → Option Iterator → Result (List WalSegmentInfo) → Result (Bool × List WalSegmentInfo)
  open_iterator generation itr listed = elim (reusable generation itr) [
    | some (_, infos) ↦ ok (false, infos)
    | none ↦ elim listed [ err e ↦ err (wrap "wal segments" e) | ok infos ↦ ok (true, infos) ]
  ]

  module _ (lz4 : Lz4) (faults : SyncFaults) (disk : Disk) (db : Source) where
    abbrev pub sync_from : List WalSegmentInfo → Replica → Result Pos → Result (Unit {0}) × Replica
    sync_from infos r (err e) = (err (wrap "cannot determine replica position" e), r)
    sync_from infos r (ok pos) = sync_wal lz4 faults disk (record r { pos = pos }) infos

    abbrev pub sync_open :
        Text
        → Bool × List WalSegmentInfo
        → Replica
        → Result (Unit {0}) × C.State
        → (Result (Unit {0}) × Replica) × C.State
    sync_open generation opened r (err e, s) = ((err e, r), s)
    sync_open generation (false, infos) r (ok _, s) = (sync_wal lz4 faults disk r infos, s)
    sync_open generation (true, infos) r (ok _, s) =
        (sync_from infos r (calc_pos lz4 (C.reads s) generation), s)

    abbrev pub sync_generation :
        Text
        → Result (Bool × List WalSegmentInfo)
        → Replica
        → C.State
        → (Result (Unit {0}) × Replica) × C.State
    sync_generation generation (err e) r s = ((err e, r), s)
    sync_generation generation (ok opened) r s =
        sync_open generation opened r
          (ensure_snapshot lz4 db generation (snapshot_n (C.reads s) generation) s)

    -- The position is cleared on an error.
    abbrev pub clearing :
        (Result (Unit {0}) × Replica) × C.State → (Result (Unit {0}) × Replica) × C.State
    clearing ((err e, r), s) = ((err e, record r { pos = zero_pos }), s)
    clearing ((ok _, r), s) = ((ok tt, r), s)

    -- Replica.Sync, with the database's position at its start, the iterator left by the last call,
    -- and what DB.WALSegments lists.
    unfoldable pub sync :
        Pos
        → Option Iterator
        → Result (List WalSegmentInfo)
        → Replica
        → C.State
        → (Result (Unit {0}) × Replica) × C.State
    sync dpos itr listed r s = clearing (
        if is_zero dpos
        then ((err no_generation, r), s)
        else sync_generation dpos.generation (open_iterator dpos.generation itr listed) r s)

    abbrev pub unread_from : List WalSegmentInfo → Result Pos → List WalSegmentInfo
    unread_from infos (err e) = infos
    unread_from infos (ok pos) = unread pos infos

    abbrev pub unread_open :
        Text
        → Bool × List WalSegmentInfo
        → Replica
        → Result (Unit {0}) × C.State
        → List WalSegmentInfo
    unread_open generation (_, infos) r (err e, s) = infos
    unread_open generation (false, infos) r (ok _, s) = unread r.pos infos
    unread_open generation (true, infos) r (ok _, s) =
        unread_from infos (calc_pos lz4 (C.reads s) generation)

    abbrev pub iterator_left :
        Text → Result (Bool × List WalSegmentInfo) → Replica → C.State → Option Iterator
    iterator_left generation (err e) r s = none
    iterator_left generation (ok opened) r s = some (
      generation,
      unread_open generation opened r
          (ensure_snapshot lz4 db generation (snapshot_n (C.reads s) generation) s),
    )

    -- The iterator that the replica keeps behind Sync. No code but the tests appends to it.
    unfoldable pub iterator_after :
        Pos → Option Iterator → Result (List WalSegmentInfo) → Replica → C.State → Option Iterator
    iterator_after dpos itr listed r s =
        if is_zero dpos
        then itr
        else iterator_left dpos.generation (open_iterator dpos.generation itr listed) r s
