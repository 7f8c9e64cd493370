-- ===== src/Tests/Closing.antt =====
-- The database of Shadow is closed, with the replica of Remote.
use litestream.Prelude.{
  List, ◌⊎◌, All, err, not_exist, arith, ◌≡◌, refl, true, none, some, [], ◌∷◌, ok, message,
}
use litestream.Client.{WalSegmentInfo}
use litestream.Text.{text_eq}
use litestream.Pos.{Pos, compare_pos, pos_eq, is_zero}
use litestream.Db.Disk.{wal_segment_reader, read_segment}
use litestream.Replica.Position.{snapshot_n}
use litestream.Replica.{
  Replica, sync_wal, group_segments, add_segment, write_chunks, write_index_segments, may_follow,
  finish_write, copy_segments, read_chunk_segment,
}
use litestream.Replica.Succeeds.{no_faults}
use litestream.Replica.Snapshot.{sync}
use litestream.Replica.Snapshot.Stalls.{kept, sync-Stalls}
use litestream.Client.Remote.{RemoteClient}
use litestream.Replica.Snapshot.CaughtUp.{CaughtUp, sync-CaughtUp}
use litestream.Files.Client.{file_replica_client}
use litestream.Db.Disk.{Disk}
use litestream.Db.Listing.Lists.{readable}
use litestream.Db.Listing.InOrder.{InOrder}
use litestream.Db.Listing.Lists.{IsThere, listed_segments-InOrder}
use litestream.Client.Index.{Any}
use litestream.Db.Listing.{listed_segments}
use litestream.Client.{segment_pos}
use litestream.Db.Open.{Handles}
use litestream.Db.Close.{Member, Steps, ClosedDb, close}
use litestream.Db.Close.Closed.{IsClosed, members_after, close-IsClosed}
use litestream.Db.Close.Complete.{IsComplete, close-IsComplete}
use litestream.Tests.Shadow.{plain_lz4, db, disk, copied_disk}
use litestream.Tests.Syncing.{world, empty_world, db-Valid}
use litestream.Tests.Remote.{root, name, tree, source, file_faults, snapshot_2}

-- The replica has the snapshot and the segment of index 2; the shadow WAL has the next segment.
abbrev dpos : Pos
dpos = record { generation = name; index = 2; offset = 9 }

abbrev segment_1 : WalSegmentInfo
segment_1 = record { generation = name; index = 2; offset = 1; size = 8; created_at = 0 }

abbrev shadow : Disk
shadow = record copied_disk { segments = (record dpos { offset = 1 }, 1 ∷ 2 ∷ []) ∷ [] }

abbrev stale : Replica
stale = record { pos = record dpos { offset = 0 }; writes = [] }

sync-CaughtUp_example :
    CaughtUp
      (file_replica_client root file_faults)
      plain_lz4
      no_faults
      shadow
      dpos
      none
      (ok (segment_1 ∷ []))
      stale
      (sync
        (file_replica_client root file_faults)
        plain_lz4
        no_faults
        shadow
        source
        dpos
        none
        (ok (segment_1 ∷ []))
        stale
        tree)
sync-CaughtUp_example =
    sync-CaughtUp (file_replica_client root file_faults) plain_lz4 no_faults shadow source dpos none
      (ok (segment_1 ∷ [])) stale tree

abbrev member : Member
member = record {
  client = file_replica_client root file_faults;
  state = tree;
  replica = stale;
  faults = no_faults;
  source = source;
  listing = readable (λ pos. 50);
  close = none;
}

abbrev handles : Handles
handles = record { db = true; f = true; rtx = true; page_size = 8 }

-- The first try finds no WAL, and SQLite refuses the rollback.
abbrev steps : Steps
steps = record {
  monitor = none;
  worlds = empty_world ∷ world ∷ [];
  rollback = some (message "database is locked");
  close_db = none;
}

close-IsClosed_example :
    (x : ClosedDb) × (close plain_lz4 steps handles (member ∷ []) db disk ≡ some x)
    × IsClosed plain_lz4 steps handles (member ∷ []) x
close-IsClosed_example =
    close-IsClosed plain_lz4 steps handles (member ∷ []) 8 db disk
      ((refl, refl), ((refl, refl), tt)) db-Valid

-- A client with one snapshot of the generation.
abbrev fixed : RemoteClient
fixed = record {
  State = Unit;
  reads = λ _. record {
    generations = ok [];
    snapshots = λ generation. ok (record { items = snapshot_2 ∷ []; close = none });
    wal_segments = λ generation. ok (record { items = []; close = none });
    wal_segment_reader = λ pos. err not_exist;
    snapshot_reader = λ generation index. err not_exist;
  };
  delete_generation = λ generation s. (ok tt, s);
  delete_snapshot = λ generation index s. (ok tt, s);
  delete_wal_segments = λ a s. (ok tt, s);
  write_snapshot = λ generation index reader s. (err not_exist, s);
}

-- The shadow WAL goes on at offset 3, and the second sync does not see it.
abbrev later : Disk
later = record shadow { segments = (record dpos { offset = 3 }, 7 ∷ 8 ∷ []) ∷ shadow.segments }

abbrev segment_3 : WalSegmentInfo
segment_3 = record segment_1 { offset = 3 }

abbrev trailing : Replica
trailing = record { pos = record dpos { offset = 1 }; writes = [] }

abbrev sent : Replica
sent = record {
  pos = record dpos { offset = 3 };
  writes = (record dpos { offset = 1 }, 1 ∷ 2 ∷ []) ∷ [];
}

sync-Stalls_example :
    sync fixed plain_lz4 no_faults later source dpos
      (kept fixed plain_lz4 no_faults shadow source dpos
        (some (name, segment_1 ∷ []))
        (ok [])
        trailing
        tt)
      (ok (segment_1 ∷ segment_3 ∷ []))
      sent
      tt
    ≡ ((ok tt, sent), tt)
unfolding sync sync_wal group_segments compare_pos text_eq add_segment write_chunks
    write_index_segments may_follow finish_write copy_segments read_chunk_segment wal_segment_reader
    read_segment pos_eq is_zero snapshot_n
sync-Stalls_example =
    sync-Stalls fixed plain_lz4 no_faults no_faults shadow later source source dpos dpos
      (some (name, segment_1 ∷ [])) (ok []) (ok (segment_1 ∷ segment_3 ∷ [])) trailing tt tt 1 refl
      refl refl refl (omega arith)

close-IsComplete_example :
    (x : ClosedDb) × (close plain_lz4 steps handles (member ∷ []) db disk ≡ some x)
    × (x.members ≡ members_after plain_lz4 x.db x.disk true (member ∷ []))
    × IsComplete plain_lz4 steps handles (member ∷ []) (λ pos. 50) 1 32 x
close-IsComplete_example =
    close-IsComplete plain_lz4 steps handles (member ∷ []) (λ pos. 50) 1 32 8 db disk
      ((refl, refl), ((refl, refl), tt)) db-Valid refl (refl, tt)

listed_segments-InOrder_example :
    (infos : List WalSegmentInfo) × (listed_segments (readable (λ pos. 50)) name later.segments
      ≡ ok infos)
    × InOrder infos
    × All (IsThere name later.segments) infos
    × ((read_segment (record dpos { offset = 3 }) later.segments ≡ none)
        ⊎ Any (λ i. segment_pos i ≡ record dpos { offset = 3 }) infos)
listed_segments-InOrder_example = listed_segments-InOrder (λ pos. 50) name later.segments 2 3
