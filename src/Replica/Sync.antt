-- ===== src/Replica/Sync.antt =====
-- What `syncWAL` writes to the replica, and the replica's position behind it.
use mathlib.Core.List.{append_assoc, append-nil}
use litestream.Prelude.{
  ℕ, ◌+◌, ◌≡◌, refl, sym, ap, ◌∙◌, ◌⊎◌, inl, inr, Option-cases, Bool-cases, Result-cases, List, [],
  ◌∷◌, ◌++◌, map, Error, Result, ok, err, length,
}
use litestream.Pos.{Pos, pos_eq}
use litestream.Pos.Order.{pos_eq_iff}
use litestream.Client.{WalSegmentInfo, segment_pos}
use litestream.Db.Disk.{Lz4, Disk, wal_segment_reader}
use litestream.Replica.{
  Replica, Chunk, group_segments, next_index_pos, SyncFaults, read_chunk_segment, copy_segments,
  finish_write, may_follow, write_index_segments, write_chunks, sync_wal,
}
use litestream.Replica.Group.{segments_of, all_segments, unseen, group_segments_lem}

-- Behind an equal position, or at the beginning of the next index.
abbrev pub Follows : Pos → Pos → Type 0
Follows pos p = (pos ≡ p) ⊎ (next_index_pos pos ≡ p)

module _ (lz4 : Lz4) (disk : Disk) where
  -- The segments stand one behind the other in the shadow WAL from `pos` to `end`, and hold
  -- `bytes` behind `written`.
  abbrev pub Holds : Pos → List ℕ → List WalSegmentInfo → Pos → List ℕ → Type 0
  Holds pos written [] end bytes = (pos ≡ end) × (written ≡ bytes)
  Holds pos written (info ∷ segments) end bytes =
      (pos ≡ segment_pos info)
      × ((rc : List ℕ) × (b : List ℕ) × (wal_segment_reader (segment_pos info) disk ≡ ok rc)
          × (lz4.decompress rc ≡ ok b)
          × Holds (record (segment_pos info) { offset = info.offset + length b }) (written ++ b)
              segments end bytes)

  -- The chunks that were written, each with its bytes, lead from a position to another.
  abbrev pub Chain : Pos → List (Chunk × List ℕ) → Pos → Type 0
  Chain pos [] end = pos ≡ end
  Chain pos ((c, bytes) ∷ cs) end =
      Follows pos (segment_pos c.0)
      × ((mid : Pos) × Holds (segment_pos c.0) [] (segments_of c) mid bytes × Chain mid cs end)

  abbrev pub write_of : Chunk × List ℕ → Pos × List ℕ
  write_of (c, bytes) = (segment_pos c.0, lz4.compress bytes)

  module _ (faults : SyncFaults) where
    read_chunk_segment-ok :
        (pos : Pos) (info : WalSegmentInfo) (b : List ℕ)
        → read_chunk_segment lz4 faults disk pos info ≡ ok b
        → (pos ≡ segment_pos info)
          × ((rc : List ℕ) × (wal_segment_reader (segment_pos info) disk ≡ ok rc)
              × (lz4.decompress rc ≡ ok b))
    unfolding read_chunk_segment
    read_chunk_segment-ok pos info b h = elim (Bool-cases (pos_eq pos (segment_pos info))) [
      | inr e ↦ cc (rw (read_chunk_segment, e) at h)
      | inl e ↦ (
        (pos_eq_iff pos (segment_pos info)).0 e,
        elim (Result-cases (wal_segment_reader (segment_pos info) disk)) [
          | inl (x, q) ↦ cc (rw (read_chunk_segment, e, q) at h)
          | inr (rc, q) ↦ elim (Result-cases (lz4.decompress rc)) [
            | inl (x, d) ↦ cc (rw (read_chunk_segment, e, q, d) at h)
            | inr (b', d) ↦ elim (Option-cases (faults.close (segment_pos info))) [
              | inr (x, c) ↦ cc (rw (read_chunk_segment, e, q, d, c) at h)
              | inl c ↦
                  let same_bytes : b' ≡ b = cc (rw (read_chunk_segment, e, q, d, c) at h) in
                  (rc, q, d ∙ ap ok same_bytes)
            ]
          ]
        ],
      )
    ]

    copy_segments-Holds :
        (pos : Pos) (written : List ℕ) (segments : List WalSegmentInfo) (end : Pos) (bytes : List ℕ)
        → copy_segments lz4 faults disk pos written segments ≡ ok (end, bytes)
        → Holds pos written segments end bytes
    unfolding copy_segments
    copy_segments-Holds pos written [] end bytes h = (cc, cc)
    copy_segments-Holds pos written (info ∷ segments) end bytes h =
        elim (Result-cases (read_chunk_segment lz4 faults disk pos info)) [
          | inl (e, q) ↦ cc (rw (copy_segments, q) at h)
          | inr (b, q) ↦
              let (at, (rc, r, d)) = read_chunk_segment-ok pos info b q in
              (
                at,
                (
                  rc,
                  b,
                  r,
                  d,
                  copy_segments-Holds
                      (record (segment_pos info) { offset = info.offset + length b }) (written ++ b)
                      segments end bytes (rw (copy_segments, q) at h),
                ),
              )
        ]

    -- What a call leaves: nothing changed and an error, or one chunk written.
    abbrev Wrote : Replica → Chunk → Result (Unit {0}) × Replica → Type 0
    Wrote r c o =
        ((e : Error) × (o ≡ (err e, r)))
        ⊎ ((bytes : List ℕ) × (end : Pos) × (o
              ≡ (ok tt, record { pos = end; writes = r.writes ++ write_of (c, bytes) ∷ [] }))
            × Follows r.pos (segment_pos c.0)
            × Holds (segment_pos c.0) [] (segments_of c) end bytes)

    finish_write-Wrote :
        (r : Replica) (c : Chunk) (v : Result (Pos × List ℕ))
        → copy_segments lz4 faults disk (segment_pos c.0) [] (segments_of c) ≡ v
        → Follows r.pos (segment_pos c.0)
        → Wrote r c (finish_write lz4 faults disk r (segment_pos c.0) v)
    unfolding finish_write
    finish_write-Wrote r c (err e) q f = inl (e, refl)
    finish_write-Wrote r c (ok (end, bytes)) q f =
        elim (Option-cases (faults.write (segment_pos c.0) (lz4.compress bytes))) [
          | inr (e, w) ↦ inl (e, rw (w, finish_write))
          | inl w ↦ inr (
            bytes,
            end,
            rw (w, finish_write),
            f,
            copy_segments-Holds (segment_pos c.0) [] (segments_of c) end bytes q,
          )
        ]

    write_index_segments-Wrote :
        (r : Replica) (c : Chunk) → Wrote r c (write_index_segments lz4 faults disk r c)
    unfolding write_index_segments may_follow
    write_index_segments-Wrote r (first, rest) =
        elim (Bool-cases (pos_eq r.pos (segment_pos first))) [
          | inl e ↦ rw e (
              finish_write-Wrote r (first, rest) _ refl
                (inl ((pos_eq_iff r.pos (segment_pos first)).0 e)))
          | inr e ↦ elim (Bool-cases (pos_eq (next_index_pos r.pos) (segment_pos first))) [
            | inl k ↦
                rw (e, k)
                  (finish_write-Wrote r (first, rest) _ refl
                    (inr ((pos_eq_iff (next_index_pos r.pos) (segment_pos first)).0 k)))
            | inr k ↦ rw (e, k) (inl (_, refl))
          ]
        ]

    -- What some of the chunks, from the first on, leave behind; on success, all of them.
    abbrev Left : Replica → List Chunk → Result (Unit {0}) × Replica → Type 0
    Left r chunks o =
        (done : List (Chunk × List ℕ)) × (o.1.writes ≡ r.writes ++ map write_of done)
        × Chain r.pos done o.1.pos
        × (o.0 ≡ ok tt → map (λ (d : Chunk × List ℕ). d.0) done ≡ chunks)

    write_chunks-Left :
        (chunks : List Chunk) (r : Replica) → Left r chunks (write_chunks lz4 faults disk chunks r)
    unfolding write_chunks
    write_chunks-Left [] r = ([], sym (append-nil r.writes), refl, λ _. refl)
    write_chunks-Left (c ∷ chunks) r = elim (write_index_segments-Wrote r c) [
      | inl (e, q) ↦ rw q ([], sym (append-nil r.writes), refl, λ h. cc)
      | inr (bytes, end, q, f, holds) ↦
          let r' : Replica = record { pos = end; writes = r.writes ++ write_of (c, bytes) ∷ [] } in
          let (done, writes, chain, all) = write_chunks-Left chunks r' in
          rw q (
            (c, bytes) ∷ done,
            writes ∙ append_assoc r.writes (write_of (c, bytes) ∷ []) (map write_of done),
            (f, (end, holds, chain)),
            λ h. ap (λ l. c ∷ l) (all h),
          )
    ]

module _ (lz4 : Lz4) (faults : SyncFaults) (disk : Disk) where
  -- What a call leaves: chunks that lead from the old position to the new one, each with a write to
  -- the replica; and on success, all segments that are not before the old position.
  abbrev pub Synced : Replica → List WalSegmentInfo → Result (Unit {0}) × Replica → Type 0
  Synced r itr o =
      (done : List (Chunk × List ℕ)) × (o.1.writes ≡ r.writes ++ map (write_of lz4 disk) done)
      × Chain lz4 disk r.pos done o.1.pos
      × (o.0 ≡ ok tt → all_segments (map (λ (d : Chunk × List ℕ). d.0) done) ≡ unseen r.pos itr)

  -- `syncWAL`, whether it succeeds or not: it has written groups of segments to the replica, each
  -- group without a gap from its first segment on, and the next group behind the last one or at the
  -- beginning of the next index; the replica's position is where the last group that was written
  -- ends. On success the groups hold all listed segments that are not before the old position.
  pub sync_wal-Synced :
      (r : Replica) (itr : List WalSegmentInfo) → Synced r itr (sync_wal lz4 faults disk r itr)
  unfolding sync_wal
  sync_wal-Synced r itr = elim (Result-cases (group_segments r.pos [] itr)) [
    | inl (e, q) ↦ rw (q, sync_wal) ([], sym (append-nil r.writes), refl, λ h. cc)
    | inr (chunks, q) ↦
        let (done, writes, chain, whole) = write_chunks-Left lz4 disk faults chunks r in
        rw (q, sync_wal)
          (
            done,
            writes,
            chain,
            λ h. ap all_segments (whole h) ∙ group_segments_lem r.pos [] itr chunks q,
          )
  ]
