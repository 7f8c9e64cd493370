-- ===== src/Restore/Command/Early.antt =====
-- A restore to a time before every snapshot and segment.
use litestream.Prelude.{
  ℕ, suc, ◌<◌, ◌≡◌, refl, ap, ◌∙◌, inl, inr, false, List, [], ◌∷◌, Result, ok, err, All, arith,
  length, ◌==◌,
}
use litestream.Text.{Text, text_eq}
use litestream.Client.{SnapshotInfo, WalSegmentInfo, ReplicaClient, Time}
use litestream.Client.Index.{Any, listing}
use litestream.Client.Search.{
  or_no_segments, find_snapshot_for_index, find_snapshot_index_by_timestamp,
  find_wal_index_by_timestamp, find_index_by_timestamp,
}
use litestream.Client.Latest.{
  Found, Found-above, none_counts, find_snapshot_for_index-Found,
  find_snapshot_index_by_timestamp-too_new,
}
use litestream.Restore.Command.{RestoreCommand, chosen, choose, choose_generation, choose_target}

module _ (client : ReplicaClient) (g : Text) (t : Time) (s : SnapshotInfo)
    (a : List SnapshotInfo) where
  wal_index :
      (b : List WalSegmentInfo)
      → client.wal_segments g ≡ ok (listing b)
      → All (λ (w : WalSegmentInfo). t < w.created_at) b
      → or_no_segments "max wal index" (find_wal_index_by_timestamp client g t) ≡ ok 0
  unfolding find_wal_index_by_timestamp
  wal_index [] e h = rw e refl
  wal_index (w ∷ b) e h =
      rw (e, some_items (length b))
        (ap ok (none_counts (λ (i : WalSegmentInfo). i.created_at) (λ i. i.index) t (w ∷ b) h))
    where
      some_items : (n : ℕ) → (suc n == 0) ≡ false
      some_items n = ground arith

  not_above :
      (x : List SnapshotInfo)
      → Any (λ (i : SnapshotInfo). i.index ≡ 0) x
      → All (λ (i : SnapshotInfo). 0 < i.index) x
      → ⊥
  not_above [] h k = h
  not_above (i ∷ x) (inl h) k = omega (arith, h, k.0)
  not_above (i ∷ x) (inr h) k = not_above x h k.1

  first_snapshot :
      (r : Result ℕ)
      → Any (λ (i : SnapshotInfo). i.index ≡ 0) (s ∷ a)
      → Found 0 (s ∷ a) r
      → r ≡ ok 0
  first_snapshot (ok best) h l = ap ok (omega (arith, l.0))
  first_snapshot (err e) h l = elim (not_above (s ∷ a) h (Found-above 0 (s ∷ a) e l)) [ ]

  -- A restore to a time before every snapshot and segment of its generation, the first snapshot's
  -- index being 0, is no error: it chooses the index 0 and that snapshot, which is of a later time.
  pub choose-too_early :
      (c : RestoreCommand) (b : List WalSegmentInfo)
      → c.generation ≡ g
      → text_eq g [] ≡ false
      → 0 < t
      → client.snapshots g ≡ ok (listing (s ∷ a))
      → client.wal_segments g ≡ ok (listing b)
      → All (λ (i : SnapshotInfo). t < i.created_at) (s ∷ a)
      → All (λ (w : WalSegmentInfo). t < w.created_at) b
      → Any (λ (i : SnapshotInfo). i.index ≡ 0) (s ∷ a)
      → choose c t client ≡ ok (chosen g 0 0)
  unfolding choose choose_generation choose_target find_index_by_timestamp
  choose-too_early c b given set later e f new new' zeroth =
      let some_time : (t == 0) ≡ false = ground arith in
      let named : text_eq c.generation [] ≡ false = ap (λ x. text_eq x []) given ∙ set in
      let snapshot : find_snapshot_index_by_timestamp client g t ≡ ok 0 =
        find_snapshot_index_by_timestamp-too_new client g t s a e new in
      let first : find_snapshot_for_index client g 0 ≡ ok 0 =
        first_snapshot (find_snapshot_for_index client g 0) zeroth
          (find_snapshot_for_index-Found client g 0 (s ∷ a) e) in
      rw (named, given, some_time, snapshot, wal_index b f new', first) refl
