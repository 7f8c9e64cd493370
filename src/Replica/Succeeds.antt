-- ===== src/Replica/Succeeds.antt =====
-- `syncWAL` where nothing is refused and the shadow WAL has no gap.
use mathlib.Core.List.{append_assoc, append-nil}
use litestream.Prelude.{
  ℕ, ◌+◌, ◌≡◌, refl, sym, ◌∙◌, inl, inr, true, none, List, [], ◌∷◌, ◌++◌, map, ok, length,
  Bool-cases,
}
use litestream.Pos.{Pos, pos_eq}
use litestream.Pos.Order.{pos_eq_iff}
use litestream.Client.{WalSegmentInfo, segment_pos}
use litestream.Db.Disk.{Lz4, Disk}
use litestream.Replica.{
  Replica, Chunk, group_segments, next_index_pos, SyncFaults, read_chunk_segment, copy_segments,
  finish_write, may_follow, write_index_segments, write_chunks, sync_wal,
}
use litestream.Replica.Group.{segments_of}
use litestream.Replica.Sync.{Follows, Holds, Chain, write_of}

abbrev pub no_faults : SyncFaults
no_faults = record { write = λ p b. none; close = λ p. none }

module _ (lz4 : Lz4) (disk : Disk) where
  copies :
      (pos : Pos) (written : List ℕ) (segments : List WalSegmentInfo) (end : Pos) (bytes : List ℕ)
      → Holds lz4 disk pos written segments end bytes
      → copy_segments lz4 no_faults disk pos written segments ≡ ok (end, bytes)
  unfolding copy_segments
  copies pos written [] end bytes (p, q) = λ i. ok (p i, q i)
  copies pos written (info ∷ segments) end bytes (at, (rc, b, read, d, h)) =
      let reads : read_chunk_segment lz4 no_faults disk pos info ≡ ok b =
        unfold read_chunk_segment in rw ((pos_eq_iff pos (segment_pos info)).1 at, read, d) refl in
      rw (copy_segments, reads)
        (copies (record (segment_pos info) { offset = info.offset + length b }) (written ++ b)
          segments end bytes h)

  follows : (pos p : Pos) → Follows pos p → may_follow pos p ≡ true
  unfolding may_follow
  follows pos p (inl e) = rw ((pos_eq_iff pos p).1 e) refl
  follows pos p (inr e) = elim (Bool-cases (pos_eq pos p)) [
    | inl k ↦ rw k refl
    | inr k ↦ rw k ((pos_eq_iff (next_index_pos pos) p).1 e)
  ]

  writes_all :
      (done : List (Chunk × List ℕ)) (r : Replica) (end : Pos)
      → Chain lz4 disk r.pos done end
      → write_chunks lz4 no_faults disk (map (λ (d : Chunk × List ℕ). d.0) done) r
        ≡ (ok tt, record { pos = end; writes = r.writes ++ map (write_of lz4 disk) done })
  unfolding write_chunks
  writes_all [] r end e = λ i. (ok tt, record { pos = e i; writes = sym (append-nil r.writes) i })
  writes_all ((c, bytes) ∷ done) r end (f, (mid, h, chain)) =
      let r' : Replica = record {
        pos = mid;
        writes = r.writes ++ write_of lz4 disk (c, bytes) ∷ [];
      } in
      let wrote : write_index_segments lz4 no_faults disk r c ≡ (ok tt, r') =
        unfold write_index_segments finish_write in
        rw
          (
            follows r.pos (segment_pos c.0) f,
            copies (segment_pos c.0) [] (segments_of c) mid bytes h,
          )
          refl in
      rw wrote (writes_all done r' end chain) ∙ (λ i. (
        ok tt,
        record {
          pos = end;
          writes =
              append_assoc r.writes (write_of lz4 disk (c, bytes) ∷ [])
                (map (write_of lz4 disk) done) i;
        },
      ))

  -- Where nothing is refused and the groups of the listed segments can be read and lead from the
  -- replica's position to another one without a gap, `syncWAL` succeeds, writes each group, and
  -- leaves the replica at that other position.
  pub sync_wal-Chain :
      (r : Replica) (itr : List WalSegmentInfo) (done : List (Chunk × List ℕ)) (end : Pos)
      → group_segments r.pos [] itr ≡ ok (map (λ (d : Chunk × List ℕ). d.0) done)
      → Chain lz4 disk r.pos done end
      → sync_wal lz4 no_faults disk r itr
        ≡ (ok tt, record { pos = end; writes = r.writes ++ map (write_of lz4 disk) done })
  unfolding sync_wal
  sync_wal-Chain r itr done end g chain = rw (g, sync_wal) (writes_all done r end chain)
