-- ===== src/Replica/Snapshot/CaughtUp.antt =====
-- What `Replica.Sync` leaves, with the iterator, the snapshot and the position before `syncWAL`.
use litestream.Prelude.{
  ℕ, Bool, true, false, ◌≡◌, refl, sym, Bool-cases, inl, inr, Option, List, [], ◌++◌, map, Result,
  ok, err,
}
use mathlib.Core.List.{append-nil}
use litestream.Text.{Text}
use litestream.Pos.{Pos, is_zero, zero_pos}
use litestream.Client.{WalSegmentInfo}
use litestream.Client.Remote.{RemoteClient}
use litestream.Db.Disk.{Lz4, Disk}
use litestream.Replica.{Replica, Chunk, SyncFaults}
use litestream.Replica.Group.{all_segments, unseen}
use litestream.Replica.Position.{calc_pos}
use litestream.Replica.Snapshot.{
  Source, Iterator, open_iterator, sync_from, sync_open, sync_generation, clearing, sync,
}
use litestream.Replica.Sync.{Synced, Chain, write_of, sync_wal-Synced}

module _ (C : RemoteClient) (lz4 : Lz4) (faults : SyncFaults) (disk : Disk) where
  -- The position that the segments are read from: with a new iterator it is computed of the client's
  -- listings, otherwise it is the one that the replica was left with.
  abbrev pub StartsAt : Bool → Text → C.State → Replica → Pos → Type 0
  StartsAt true generation s r start = calc_pos lz4 (C.reads s) generation ≡ ok start
  StartsAt false generation s r start = r.pos ≡ start

  abbrev pub Sent :
      Pos
      → Option (Iterator C)
      → Result (List WalSegmentInfo)
      → Replica
      → Replica
      → C.State
      → Type 0
  Sent dpos itr listed r r' s' =
      (new : Bool) × (infos : List WalSegmentInfo) × (start : Pos) × (open_iterator C
          dpos.generation itr listed
        ≡ ok (new, infos))
      × StartsAt new dpos.generation s' r start
      × ((done : List (Chunk × List ℕ)) × (r'.writes ≡ r.writes ++ map (write_of lz4 disk) done)
          × Chain lz4 disk start done r'.pos
          × (all_segments (map (λ (d : Chunk × List ℕ). d.0) done) ≡ unseen start infos))

  abbrev pub Adds : Replica → Replica → Type 0
  Adds r r' = (more : List (Pos × List ℕ)) × (r'.writes ≡ r.writes ++ more)

  -- What is left before the position is cleared.
  abbrev Pending :
      Pos
      → Option (Iterator C)
      → Result (List WalSegmentInfo)
      → Replica
      → (Result (Unit {0}) × Replica) × C.State
      → Type 0
  Pending dpos itr listed r ((err e, r'), s') = Adds r r'
  Pending dpos itr listed r ((ok _, r'), s') = (is_zero dpos ≡ false) × Sent dpos itr listed r r' s'

  -- A sync that fails leaves the zero position, and one that succeeds had a database with a position
  -- and has sent all that the iterator yields from the start on.
  abbrev pub CaughtUp :
      Pos
      → Option (Iterator C)
      → Result (List WalSegmentInfo)
      → Replica
      → (Result (Unit {0}) × Replica) × C.State
      → Type 0
  CaughtUp dpos itr listed r ((err e, r'), s') = (r'.pos ≡ zero_pos) × Adds r r'
  CaughtUp dpos itr listed r ((ok _, r'), s') =
      (is_zero dpos ≡ false) × Sent dpos itr listed r r' s'

  module _ (db : Source) (dpos : Pos) (itr : Option (Iterator C))
      (listed : Result (List WalSegmentInfo)) (r : Replica) where
    clearing-CaughtUp :
        (o : (Result (Unit {0}) × Replica) × C.State)
        → Pending dpos itr listed r o
        → CaughtUp dpos itr listed r (clearing C lz4 faults disk db o)
    clearing-CaughtUp ((err e, r'), s') h = (refl, h)
    clearing-CaughtUp ((ok _, r'), s') h = h

    same_writes : Adds r r
    same_writes = ([], sym (append-nil r.writes))

    module _ (some_pos : is_zero dpos ≡ false) where
      sync_wal-Pending :
          (new : Bool) (infos : List WalSegmentInfo) (start : Pos) (s' : C.State)
          (v : Result (Unit {0}) × Replica)
          → open_iterator C dpos.generation itr listed ≡ ok (new, infos)
          → StartsAt new dpos.generation s' r start
          → Synced lz4 faults disk (record r { pos = start }) infos v
          → Pending dpos itr listed r (v, s')
      sync_wal-Pending new infos start s' (err e, r') q at h = (map (write_of lz4 disk) h.0, h.1)
      sync_wal-Pending new infos start s' (ok _, r') q at (done, writes, chain, all) =
          (some_pos, (new, infos, start, q, at, (done, writes, chain, all refl)))

      sync_from-Pending :
          (infos : List WalSegmentInfo) (s' : C.State) (v : Result Pos)
          → open_iterator C dpos.generation itr listed ≡ ok (true, infos)
          → calc_pos lz4 (C.reads s') dpos.generation ≡ v
          → Pending dpos itr listed r (sync_from C lz4 faults disk db infos r v, s')
      sync_from-Pending infos s' (err e) q at = same_writes
      sync_from-Pending infos s' (ok start) q at =
          sync_wal-Pending true infos start s' _ q at
            (sync_wal-Synced lz4 faults disk (record r { pos = start }) infos)

      sync_open-Pending :
          (opened : Bool × List WalSegmentInfo) (v : Result (Unit {0}) × C.State)
          → open_iterator C dpos.generation itr listed ≡ ok opened
          → Pending dpos itr listed r (sync_open C lz4 faults disk db dpos.generation opened r v)
      sync_open-Pending opened (err e, s') q = same_writes
      sync_open-Pending (false, infos) (ok _, s') q =
          sync_wal-Pending false infos r.pos s' _ q refl (sync_wal-Synced lz4 faults disk r infos)
      sync_open-Pending (true, infos) (ok _, s') q = sync_from-Pending infos s' _ q refl

      sync_generation-Pending :
          (s : C.State) (v : Result (Bool × List WalSegmentInfo))
          → open_iterator C dpos.generation itr listed ≡ v
          → Pending dpos itr listed r (sync_generation C lz4 faults disk db dpos.generation v r s)
      sync_generation-Pending s (err e) q = same_writes
      sync_generation-Pending s (ok opened) q = sync_open-Pending opened _ q

    -- `Replica.Sync`, whether it succeeds or not, has only added writes to those of the replica. A
    -- sync that fails leaves the zero position. One that succeeds had a database with a position, and
    -- an iterator, kept or new; of what it yields, all segments that are not before the start were
    -- written in groups without a gap, and the position is where the last group ends. The start is
    -- the end of the replica as its client lists it, for a new iterator, and otherwise where the
    -- last sync ended.
    pub sync-CaughtUp :
        (s : C.State) → CaughtUp dpos itr listed r (sync C lz4 faults disk db dpos itr listed r s)
    unfolding sync
    sync-CaughtUp s = clearing-CaughtUp _ (elim (Bool-cases (is_zero dpos)) [
      | inl e ↦ rw e same_writes
      | inr e ↦ rw e (sync_generation-Pending e s _ refl)
    ])
