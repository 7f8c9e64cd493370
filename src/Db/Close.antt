-- ===== src/Db/Close.antt =====
-- db.go: `Close`, with the last syncs of the database and of its replicas, and `releaseReadLock`.
pub mod Closed
pub mod Complete
use litestream.Prelude.{
  Bool, true, false, Option, none, some, List, [], ◌∷◌, map, Error, Result, ok, err, if◌then◌else◌,
}
use litestream.Text.{Text}
use litestream.Pos.{Pos}
use litestream.Client.{WalSegmentInfo}
use litestream.Client.Remote.{RemoteClient}
use litestream.Db.{Db}
use litestream.Db.Disk.{Lz4, Disk}
use litestream.Db.Listing.{ListAnswers, listed_segments}
use litestream.Db.Open.{Handles}
use litestream.Db.Sync.{sync_retrying, tries}
use litestream.Db.Sync.Stages.{World}
use litestream.Replica.{Replica, SyncFaults}
use litestream.Replica.Snapshot.{Source, sync}

-- A replica of the database with its client: what its calls meet, what listing the shadow WAL and
-- closing its file descriptor answer.
pub record Member : Type 1 where
  pub client : RemoteClient
  pub state : client.State
  pub replica : Replica
  pub faults : SyncFaults
  pub source : Source
  pub listing : ListAnswers
  pub close : Option Error

-- What the other steps of Close answer, and the worlds of the tries of the last sync.
pub record Steps : Type 0 where
  pub monitor : Option Error
  pub worlds : List World
  pub rollback : Option Error
  pub close_db : Option Error

pub record ClosedDb : Type 1 where
  pub error : Option Error
  pub handles : Handles
  pub db : Db
  pub disk : Disk
  pub members : List Member

-- `if e := ...; e != nil && err == nil { err = e }`
unfoldable pub keep_first : Option Error → Option Error → Option Error
keep_first none e = e
keep_first (some first) e = some first

abbrev pub error_of : Result (Unit {0}) → Option Error
error_of (ok _) = none
error_of (err e) = some e

abbrev pub positions : List Member → List Pos
positions [] = []
positions (m ∷ members) = m.replica.pos ∷ positions members

-- releaseReadLock, with what the rollback answers.
unfoldable pub release_read_lock : Option Error → Handles → Option Error × Handles
release_read_lock rollback h = if h.rtx then (rollback, record h { rtx = false }) else (none, h)

module _ (lz4 : Lz4) where
  -- The last sync of the database, where it is open. It has no error to keep.
  abbrev pub last_sync : Bool → List World → List Member → Db → Disk → Option (Db × Disk)
  last_sync false worlds members db disk = some (db, disk)
  last_sync true worlds members db disk =
      sync_retrying lz4 (positions members) (tries worlds) db disk

  module _ (db : Db) (disk : Disk) where
    abbrev pub source_of : Member → Source
    source_of m = record m.source { is_open = true; pos = db.pos }

    -- Stop has closed the iterator, so that this sync opens a new one.
    abbrev pub synced : (m : Member) → (Result (Unit {0}) × Replica) × m.client.State
    synced m =
        sync m.client lz4 m.faults disk (source_of m) db.pos none
          (listed_segments m.listing db.pos.generation disk.segments) m.replica m.state

    abbrev pub member_left :
        (m : Member) → (Result (Unit {0}) × Replica) × m.client.State → Option Error × Member
    member_left m ((v, r), s) = (error_of v, record m { replica = r; state = s })

    unfoldable pub sync_member : Bool → Member → Option Error × Member
    sync_member false m = (none, m)
    sync_member true m = member_left m (synced m)

    -- The loop over the replicas.
    unfoldable pub close_members : Bool → Option Error → List Member → Option Error × List Member
    close_members is_open e [] = (e, [])
    close_members is_open e (m ∷ members) =
        let (e', m') = sync_member is_open m in
        let (e'', members') =
          close_members is_open (keep_first (keep_first e e') m.close) members in
        (e'', m' ∷ members')

    -- Behind the loop.
    abbrev pub close_handles : Steps → Handles → Option Error × List Member → ClosedDb
    close_handles c h (e, members) =
        let (e', h') = release_read_lock c.rollback h in
        record {
          error = keep_first (keep_first e e') (if h.db then c.close_db else none);
          handles = h';
          db = db;
          disk = disk;
          members = members;
        }

  abbrev pub close_synced : Steps → Handles → List Member → Option (Db × Disk) → Option ClosedDb
  close_synced c h members none = none
  close_synced c h members (some (db, disk)) =
      some (close_handles db disk c h (close_members db disk h.db c.monitor members))

  -- Close; `none` is a panic in the last sync of the database.
  unfoldable pub close : Steps → Handles → List Member → Db → Disk → Option ClosedDb
  close c h members db disk = close_synced c h members (last_sync h.db c.worlds members db disk)
