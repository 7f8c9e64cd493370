-- ===== src/Replica/Snapshot/Stalls.antt =====
-- A replica that keeps its iterator: what a second `Replica.Sync` does.
use litestream.Prelude.{
  ℕ, ◌<◌, arith, Bool, true, false, ◌≡◌, refl, ap, Bool-cases, Result-cases, inl, inr, Option, some,
  List, [], ◌∷◌, Result, ok, err, ◌==◌,
}
use litestream.Text.{Text, text_eq_refl}
use litestream.Pos.{Pos, is_zero, compare_pos, before, same, after}
use litestream.Client.{WalSegmentInfo, segment_pos}
use litestream.Client.Remote.{RemoteClient}
use litestream.Db.Disk.{Lz4, Disk}
use litestream.Replica.{
  Replica, Chunk, SyncFaults, sync_wal, group_segments, write_chunks, add_segment,
}
use litestream.Replica.Position.{snapshot_n}
use litestream.Replica.Snapshot.{
  Source, Iterator, open_iterator, sync_from, sync_open, sync_generation, clearing, sync, unread,
  unread_from, unread_open, iterator_left, iterator_after,
}

-- Where the segments can be grouped, the loop has read all of them.
group_segments-unread :
    (pos : Pos) (itr : List WalSegmentInfo) (chunks chunks' : List Chunk)
    → group_segments pos chunks itr ≡ ok chunks'
    → unread pos itr ≡ []
unfolding group_segments unread
group_segments-unread pos [] chunks chunks' h = refl
group_segments-unread pos (info ∷ itr) chunks chunks' h =
    elim (Result-cases (compare_pos pos (segment_pos info))) [
      | inl (e, q) ↦ cc (rw (group_segments, q) at h)
      | inr (after, q) ↦
          rw (unread, q)
            (group_segments-unread pos itr chunks chunks' (rw (group_segments, q) at h))
      | inr (before, q) ↦
          rw (unread, q)
            (group_segments-unread pos itr (add_segment chunks info) chunks'
              (rw (group_segments, q) at h))
      | inr (same, q) ↦
          rw (unread, q)
            (group_segments-unread pos itr (add_segment chunks info) chunks'
              (rw (group_segments, q) at h))
    ]

module _ (lz4 : Lz4) (faults : SyncFaults) (disk : Disk) where
  sync_wal-unread :
      (r : Replica) (infos : List WalSegmentInfo)
      → (sync_wal lz4 faults disk r infos).0 ≡ ok tt
      → unread r.pos infos ≡ []
  unfolding sync_wal
  sync_wal-unread r infos h = elim (Result-cases (group_segments r.pos [] infos)) [
    | inl (e, q) ↦ cc (rw (sync_wal, q) at h)
    | inr (chunks, q) ↦ group_segments-unread r.pos infos [] chunks q
  ]

  sync_wal-nothing : (r : Replica) → sync_wal lz4 faults disk r [] ≡ (ok tt, r)
  unfolding sync_wal group_segments write_chunks
  sync_wal-nothing r = refl

module _ (C : RemoteClient) where
  module _ (lz4 : Lz4) (faults : SyncFaults) (disk : Disk) (db : Source) (dpos : Pos)
      (itr : Option (Iterator C)) (listed : Result (List WalSegmentInfo)) (r : Replica)
      (s : C.State) where
    -- A first sync.
    abbrev pub first : (Result (Unit {0}) × Replica) × C.State
    first = sync C lz4 faults disk db dpos itr listed r s

    abbrev pub kept : Option (Iterator C)
    kept = iterator_after C lz4 faults disk db dpos itr listed r s

    cleared-ok :
        (o : (Result (Unit {0}) × Replica) × C.State)
        → (clearing C lz4 faults disk db o).0.0 ≡ ok tt
        → o.0.0 ≡ ok tt
    cleared-ok ((err e, r'), s') h = h
    cleared-ok ((ok _, r'), s') h = h

    sync_from-unread :
        (infos : List WalSegmentInfo) (v : Result Pos)
        → (sync_from C lz4 faults disk db infos r v).0 ≡ ok tt
        → unread_from C lz4 faults disk db infos v ≡ []
    sync_from-unread infos (err e) h = cc
    sync_from-unread infos (ok pos) h =
        sync_wal-unread lz4 faults disk (record r { pos = pos }) infos h

    sync_open-unread :
        (opened : Bool × List WalSegmentInfo) (v : Result (Unit {0}) × C.State)
        → (sync_open C lz4 faults disk db dpos.generation opened r v).0.0 ≡ ok tt
        → unread_open C lz4 faults disk db dpos.generation opened r v ≡ []
    sync_open-unread opened (err e, s') h = cc
    sync_open-unread (false, infos) (ok _, s') h = sync_wal-unread lz4 faults disk r infos h
    sync_open-unread (true, infos) (ok _, s') h = sync_from-unread infos _ h

    sync_generation-left :
        (v : Result (Bool × List WalSegmentInfo))
        → (sync_generation C lz4 faults disk db dpos.generation v r s).0.0 ≡ ok tt
        → iterator_left C lz4 faults disk db dpos.generation v r s ≡ some (dpos.generation, [])
    sync_generation-left (err e) h = cc
    sync_generation-left (ok opened) h =
        ap (λ infos. some (dpos.generation, infos)) (sync_open-unread opened _ h)

    -- A sync that succeeded leaves an iterator that is read to its end.
    kept-read : first.0.0 ≡ ok tt → kept ≡ some (dpos.generation, [])
    unfolding sync iterator_after
    kept-read h = elim (Bool-cases (is_zero dpos)) [
      | inl e ↦ cc (rw e at (cleared-ok _ h))
      | inr e ↦ rw e (sync_generation-left _ (rw e at (cleared-ok _ h)))
    ]

  keeps_open :
      (generation : Text) (listed : Result (List WalSegmentInfo))
      → open_iterator C generation (some (generation, [])) listed ≡ ok (false, [])
  keeps_open generation listed = rw (open_iterator, text_eq_refl generation) refl

  -- A sync with an iterator that is read to its end.
  sync-nothing :
      (lz4 : Lz4) (faults : SyncFaults) (disk : Disk) (db : Source) (dpos : Pos) (generation : Text)
      (n : ℕ) (listed : Result (List WalSegmentInfo)) (r : Replica) (s : C.State)
      → is_zero dpos ≡ false
      → dpos.generation ≡ generation
      → snapshot_n (C.reads s) generation ≡ ok n
      → 0 < n
      → sync C lz4 faults disk db dpos (some (generation, [])) listed r s ≡ ((ok tt, r), s)
  unfolding sync
  sync-nothing lz4 faults disk db dpos generation n listed r s z g k h =
      let some_n : (n == 0) ≡ false = ground arith in
      rw (z, g, keeps_open generation listed, k, some_n, sync_wal-nothing lz4 faults disk r) refl

  -- After a `Replica.Sync` that succeeded, a later one of the same generation writes nothing and
  -- succeeds, whatever the shadow WAL then holds and lists, if the client lists a snapshot of the
  -- generation and nothing was appended to the iterator that the replica keeps.
  pub sync-Stalls :
      (lz4 : Lz4) (faults faults' : SyncFaults) (disk disk' : Disk) (db db' : Source)
      (dpos dpos' : Pos) (itr : Option (Iterator C)) (listed listed' : Result (List WalSegmentInfo))
      (r : Replica) (s s' : C.State) (n : ℕ)
      → (first lz4 faults disk db dpos itr listed r s).0.0 ≡ ok tt
      → is_zero dpos' ≡ false
      → dpos'.generation ≡ dpos.generation
      → snapshot_n (C.reads s') dpos.generation ≡ ok n
      → 0 < n
      → let r' = (first lz4 faults disk db dpos itr listed r s).0.1 in
        sync C lz4 faults' disk' db' dpos'
          (kept lz4 faults disk db dpos itr listed r s)
          listed'
          r'
          s'
        ≡ ((ok tt, r'), s')
  sync-Stalls lz4 faults faults' disk disk' db db' dpos dpos' itr listed listed' r s s' n h z g k
        m =
      rw (kept-read lz4 faults disk db dpos itr listed r s h)
        (sync-nothing lz4 faults' disk' db' dpos' dpos.generation n listed' _ s' z g k m)
