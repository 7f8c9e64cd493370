-- ===== src/Cloud/Listed.antt =====
-- What the iterators of the clients of cloud services yield for the objects of a listing.
use litestream.Prelude.{
  ℕ, ◌≤◌, ◌≡◌, refl, inl, inr, Option, none, some, String, List, [], ◌∷◌, Result, ok, err, All,
  arith, Bool-cases, take,
}
use litestream.Text.{Text}
use litestream.Text.Hex.{parse_uint}
use litestream.Pos.{max_int}
use litestream.Client.{SnapshotInfo, WalSegmentInfo}
use litestream.Files.System.{FilePath}
use litestream.Files.Names.{parse_snapshot_path}
use litestream.Files.Client.Listed.{SnapshotListed, SegmentListed, parse_snapshot_path-le}
use litestream.Cloud.Bucket.{Object}
use litestream.Cloud.Names.{
  bounded, first_error, segment_name, parse_wal_segment_path, base, trim_prefix, add_snapshot,
  snapshots_of, add_segment, segments_of,
}

bounded-le : (text : String) (o : Option ℕ) (v : ℕ) → bounded text o ≡ ok v → v ≤ max_int
bounded-le text none v h = ground (arith, h)
bounded-le text (some w) v h = ground (arith, h)

both_bounded :
    (r q : Result ℕ) (i j : ℕ)
    → ((v : ℕ) → r ≡ ok v → v ≤ max_int)
    → ((v : ℕ) → q ≡ ok v → v ≤ max_int)
    → first_error r q ≡ ok (i, j)
    → (i ≤ max_int) × (j ≤ max_int)
both_bounded (err e) q i j le le' h = cc
both_bounded (ok i') (err e) i j le le' h = cc
both_bounded (ok i') (ok j') i j le le' h = (le i (cc), le' j (cc))

parse_wal_segment_path-le :
    (p : FilePath) (i j : ℕ) → parse_wal_segment_path p ≡ ok (i, j) → (i ≤ max_int) × (j ≤ max_int)
unfolding parse_wal_segment_path
parse_wal_segment_path-le [] i j h = cc
parse_wal_segment_path-le (a ∷ []) i j h = cc
parse_wal_segment_path-le (a ∷ b ∷ []) i j h = elim (Bool-cases (segment_name a b)) [
  | inl e ↦
      both_bounded _ _ i j (bounded-le _ (parse_uint a)) (bounded-le _ (parse_uint (take 16 b)))
        (rw e at h)
  | inr e ↦ cc (rw e at h)
]
parse_wal_segment_path-le (a ∷ b ∷ c ∷ p) i j h = cc

module _ (generation : Text) where
  add_snapshot-Listed :
      (o : Object) (r : Result ℕ) (infos : List SnapshotInfo)
      → ((index : ℕ) → r ≡ ok index → index ≤ max_int)
      → All (SnapshotListed generation) infos
      → All (SnapshotListed generation) (add_snapshot generation o r infos)
  add_snapshot-Listed o (err e) infos le h = h
  add_snapshot-Listed o (ok index) infos le h = ((refl, le index refl), h)

  pub snapshots_of-Listed :
      (objects : List Object) → All (SnapshotListed generation) (snapshots_of generation objects)
  unfolding snapshots_of
  snapshots_of-Listed [] = tt
  snapshots_of-Listed (o ∷ objects) =
      add_snapshot-Listed o (parse_snapshot_path (base o.key)) (snapshots_of generation objects)
        (parse_snapshot_path-le (base o.key)) (snapshots_of-Listed objects)

  add_segment-Listed :
      (o : Object) (r : Result (ℕ × ℕ)) (infos : List WalSegmentInfo)
      → ((i j : ℕ) → r ≡ ok (i, j) → (i ≤ max_int) × (j ≤ max_int))
      → All (SegmentListed generation) infos
      → All (SegmentListed generation) (add_segment generation o r infos)
  add_segment-Listed o (err e) infos le h = h
  add_segment-Listed o (ok (i, j)) infos le h = ((refl, le i j refl), h)

  pub segments_of-Listed :
      (dir : FilePath) (objects : List Object)
      → All (SegmentListed generation) (segments_of generation dir objects)
  unfolding segments_of
  segments_of-Listed dir [] = tt
  segments_of-Listed dir (o ∷ objects) =
      add_segment-Listed o (parse_wal_segment_path (trim_prefix dir o.key))
        (segments_of generation dir objects) (parse_wal_segment_path-le (trim_prefix dir o.key))
        (segments_of-Listed dir objects)
