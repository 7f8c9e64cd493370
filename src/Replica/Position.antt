-- ===== src/Replica/Position.antt =====
-- replica.go: `snapshotN`, `maxSnapshot`, `maxWALSegment` and `calcPos`, over what a client lists.
use litestream.Prelude.{
  ℕ, ◌+◌, ◌≤◌, ◌<◌, ◌≡◌, refl, sym, ◌⊎◌, inl, inr, Bool, ◌&&◌, ◌||◌, Option, none, some, List, [],
  ◌∷◌, Error, message, Result, ok, err, ◌>>=◌, wrapping, ◌==◌, ltb, if◌then◌else◌, length, All,
  Bool-cases, arith,
}
use litestream.Text.{Text}
use litestream.Pos.{Pos}
use litestream.Client.Index.{Any}
use litestream.Client.{SnapshotInfo, WalSegmentInfo, ReplicaClient, segment_pos}
use litestream.Db.Disk.{Lz4}

abbrev close_with : {A : Type 0} → Option Error → A → Result A
close_with none a = ok a
close_with (some e) a = err e

unfoldable pub snapshot_n : ReplicaClient → Text → Result ℕ
snapshot_n client generation = do
  itr ← client.snapshots generation
  close_with itr.close (length itr.items)

unfoldable pub max_snapshot_loop : Option SnapshotInfo → List SnapshotInfo → Option SnapshotInfo
max_snapshot_loop max [] = max
max_snapshot_loop none (info ∷ itr) = max_snapshot_loop (some info) itr
max_snapshot_loop (some max) (info ∷ itr) =
    max_snapshot_loop (if ltb max.index info.index then some info else some max) itr

unfoldable pub max_snapshot : ReplicaClient → Text → Result (Option SnapshotInfo)
max_snapshot client generation = do
  itr ← client.snapshots generation
  close_with itr.close (max_snapshot_loop none itr.items)

abbrev segment_above : WalSegmentInfo → WalSegmentInfo → Bool
segment_above info max =
    ltb max.index info.index || (info.index == max.index && ltb max.offset info.offset)

unfoldable pub max_wal_segment_loop :
    Option WalSegmentInfo → List WalSegmentInfo → Option WalSegmentInfo
max_wal_segment_loop max [] = max
max_wal_segment_loop none (info ∷ itr) = max_wal_segment_loop (some info) itr
max_wal_segment_loop (some max) (info ∷ itr) =
    max_wal_segment_loop (if segment_above info max then some info else some max) itr

unfoldable pub max_wal_segment : ReplicaClient → Text → Result (Option WalSegmentInfo)
max_wal_segment client generation = do
  itr ← client.wal_segments generation
  close_with itr.close (max_wal_segment_loop none itr.items)

abbrev some_snapshot : Option SnapshotInfo → Result SnapshotInfo
some_snapshot none = err (message "no snapshot available")
some_snapshot (some snapshot) = ok snapshot

module _ (lz4 : Lz4) (client : ReplicaClient) where
  -- The end of the last segment, or the beginning of the snapshot's index.
  abbrev end_position : SnapshotInfo → Option WalSegmentInfo → Result Pos
  end_position snapshot none =
      ok (record { generation = snapshot.generation; index = snapshot.index; offset = 0 })
  end_position snapshot (some segment) = do
    rd ← wrapping "wal segment reader" (client.wal_segment_reader (segment_pos segment))
    bytes ← lz4.decompress rd
    ok (record (segment_pos segment) { offset = segment.offset + length bytes })

  -- calcPos
  unfoldable pub calc_pos : Text → Result Pos
  calc_pos generation = do
    found ← wrapping "max snapshot" (max_snapshot client generation)
    snapshot ← some_snapshot found
    segment ← wrapping "max wal segment" (max_wal_segment client generation)
    end_position snapshot segment

abbrev pub NotAbove : WalSegmentInfo → WalSegmentInfo → Type 0
NotAbove m s = (s.index < m.index) ⊎ ((s.index ≡ m.index) × (s.offset ≤ m.offset))

-- No listed segment is behind this one.
abbrev pub IsLast : WalSegmentInfo → List WalSegmentInfo → Type 0
IsLast m = All (NotAbove m)

Listed : Option WalSegmentInfo → List WalSegmentInfo → WalSegmentInfo → Type 0
Listed none a m = Any (λ s. s ≡ m) a
Listed (some max) a m = (m ≡ max) ⊎ Any (λ s. s ≡ m) a

max_wal_segment_loop-some :
    (a : List WalSegmentInfo) (max : WalSegmentInfo)
    → (m : WalSegmentInfo) × (max_wal_segment_loop (some max) a ≡ some m)
      × Listed (some max) a m
      × NotAbove m max
      × IsLast m a
unfolding max_wal_segment_loop Listed
max_wal_segment_loop-some [] max = (max, refl, inl refl, inr (refl, omega arith), tt)
max_wal_segment_loop-some (info ∷ a) max = elim (Bool-cases (segment_above info max)) [
  | inl e ↦
      let (m, q, l, k, last) = max_wal_segment_loop-some a info in
      (m, rw e q, inr (seen l), ground arith, (k, last))
  | inr e ↦
      let (m, q, l, k, last) = max_wal_segment_loop-some a max in
      (m, rw e q, later l, k, (ground arith, last))
]
  where
    seen : {m i : WalSegmentInfo} {R : Type 0} → (m ≡ i) ⊎ R → (i ≡ m) ⊎ R
    seen (inl p) = inl (sym p)
    seen (inr r) = inr r

    later : {P Q R : Type 0} → P ⊎ R → P ⊎ (Q ⊎ R)
    later (inl p) = inl p
    later (inr r) = inr (inr r)

-- What maxWALSegment says of the segments that the client lists.
abbrev pub LastOf : List WalSegmentInfo → Option WalSegmentInfo → Type 0
LastOf a none = a ≡ []
LastOf a (some m) = Any (λ s. s ≡ m) a × IsLast m a

-- `maxWALSegment` finds a listed segment that no listed segment is behind, by index and then by
-- offset, and nothing exactly on an empty listing.
pub max_wal_segment-LastOf :
    (client : ReplicaClient) (generation : Text) (a : List WalSegmentInfo)
    → client.wal_segments generation ≡ ok (record { items = a; close = none })
    → (o : Option WalSegmentInfo) × (max_wal_segment client generation ≡ ok o) × LastOf a o
unfolding max_wal_segment max_wal_segment_loop Listed
max_wal_segment-LastOf client generation [] e = (none, rw e refl, refl)
max_wal_segment-LastOf client generation (info ∷ a) e =
    let (m, q, l, k, last) = max_wal_segment_loop-some a info in
    (some m, rw (e, q) refl, (seen l, (k, last)))
  where
    seen : {m i : WalSegmentInfo} {R : Type 0} → (m ≡ i) ⊎ R → (i ≡ m) ⊎ R
    seen (inl p) = inl (sym p)
    seen (inr r) = inr r
