-- ===== src/Cloud/Gs/Careful.antt =====
-- The files that each call of the client of Google Cloud Storage leaves alone.
use litestream.Prelude.{
  ℕ, ◌≤◌, ◌≡◌, refl, ap, inl, inr, Option, List, [], ◌∷◌, ◌++◌, Error, Result, ok, err, ◌>>◌, All,
  Result-cases, Option-cases, arith, wrap, All-map, length,
}
use litestream.Text.{Text}
use litestream.Pos.{Pos, max_int}
use litestream.Client.{SnapshotInfo, Listing, Time, WalSegmentInfo}
use litestream.Client.Remote.{
  File, snapshot_file, segment_file, read_file, file_generation, InRange, Careful,
}
use litestream.Files.System.{FilePath}
use litestream.Files.Names.{wal_name}
use litestream.Files.Client.Paths.{shape, component, shape-injective, below-shape}
use litestream.Files.Client.Listed.{SnapshotListed, SegmentListed}
use litestream.Cloud.Named.{gs_generations-Named}
use litestream.Cloud.Bucket.{Bucket, IsLawful}
use litestream.Cloud.Removal.Kept.{deleted-Keeps, delete_segments-Keeps, delete_below-Keeps}
use litestream.Cloud.Names.{generation_prefix, snapshot_key, segment_key, snapshots_of, segments_of}
use litestream.Cloud.Listed.{snapshots_of-Listed, segments_of-Listed}
use litestream.Cloud.Gs.{
  ready, delete_generation, snapshots, snapshot_written, write_snapshot, read_or, snapshot_reader,
  deleted_key, delete_snapshot, wal_segments, wal_segment_reader, delete_wal_segments, gs_client,
}

module _ (B : Bucket) (L : IsLawful B) (path : Text) (started : Option Error) (now : Time) where
  snapshots-Listed :
      (s : B.State) (generation : Text) (itr : Listing SnapshotInfo)
      → snapshots B path started now s generation ≡ ok itr
      → All (SnapshotListed generation) itr.items
  unfolding snapshots
  snapshots-Listed s generation itr h = elim (Result-cases (ready B path started now generation)) [
    | inl (e, q) ↦ cc (rw q at h)
    | inr (_, q) ↦
        let objects = (B.list (generation_prefix path generation) [] s).items in
        let same : snapshots_of generation objects ≡ itr.items = cc (rw q at h) in
        rw (← same) (snapshots_of-Listed generation objects)
  ]

  wal_segments-Listed :
      (s : B.State) (generation : Text) (itr : Listing WalSegmentInfo)
      → wal_segments B path started now s generation ≡ ok itr
      → All (SegmentListed generation) itr.items
  unfolding wal_segments
  wal_segments-Listed s generation itr h =
      elim (Result-cases (ready B path started now generation)) [
        | inl (e, q) ↦ cc (rw q at h)
        | inr (_, q) ↦
            let dir = generation_prefix path generation ++ wal_name ∷ [] in
            let objects = (B.list dir [] s).items in
            let same : segments_of generation dir objects ≡ itr.items = cc (rw q at h) in
            rw (← same) (segments_of-Listed generation dir objects)
      ]

  reading-Same :
      (file : File) (s s' : B.State)
      → B.get (shape path file) s' ≡ B.get (shape path file) s
      → read_file ((gs_client B path started now).reads s') file
        ≡ read_file ((gs_client B path started now).reads s) file
  unfolding snapshot_reader wal_segment_reader read_file
  reading-Same (snapshot_file g i) s s' h =
      ap
        (λ r.
          ready B path started now g
          >> read_or B path started now (wrap "cannot start new reader") r)
        h
  reading-Same (segment_file p) s s' h = ap (λ r. ready B path started now p.generation >> r) h

  abbrev Keeps : FilePath → B.State → Result (Unit {0}) × B.State → Type 0
  Keeps key s o = B.get key o.1 ≡ B.get key s

  delete_generation-Same :
      (file : File) (generation : Text) (s : B.State)
      → (file_generation file ≡ generation → ⊥)
      → Keeps (shape path file) s (delete_generation B path started now generation s)
  unfolding delete_generation
  delete_generation-Same file generation s d =
      elim (Result-cases (ready B path started now generation)) [
        | inl (e, q) ↦ rw (delete_generation, q) refl
        | inr (_, q) ↦
            let dir = generation_prefix path generation in
            rw (delete_generation, q)
              (delete_below-Keeps B L (wrap "cannot delete object") (shape path file) dir [] s
                (below-shape path generation file d))
      ]

  deleted_key-differs :
      (file : File) (generation : Text) (index : ℕ)
      → shape path file ≡ deleted_key B path started now generation index
      → ⊥
  unfolding component
  deleted_key-differs (snapshot_file g i) generation index e = omega (arith, ap length e)
  deleted_key-differs (segment_file p) generation index e =
      omega (arith, ap (λ k. length (component 3 k)) e)

  -- DeleteSnapshot removes no snapshot and no segment, not the one that it is asked to remove either,
  -- whether it returns an error or not.
  pub delete_snapshot-Same :
      (generation : Text) (index : ℕ) (s : B.State) (file : File)
      → read_file
          ((gs_client B path started now).reads
            (delete_snapshot B path started now generation index s).1)
          file
        ≡ read_file ((gs_client B path started now).reads s) file
  unfolding delete_snapshot
  delete_snapshot-Same generation index s file =
      reading-Same file s (delete_snapshot B path started now generation index s).1 (kept)
    where
      kept : Keeps (shape path file) s (delete_snapshot B path started now generation index s)
      kept = elim (Result-cases (ready B path started now generation)) [
        | inl (e, q) ↦ rw (delete_snapshot, q) refl
        | inr (_, q) ↦
            rw (delete_snapshot, q)
              (deleted-Keeps B L (wrap "cannot delete snapshot") (shape path file) s _ (
                L.get-delete _ (shape path file) s (deleted_key-differs file generation index, tt)))
      ]

  delete_wal_segments-Same :
      (file : File) (a : List Pos) (s : B.State)
      → InRange file
      → All (λ p. InRange (segment_file p) × (file ≡ segment_file p → ⊥)) a
      → Keeps (shape path file) s (delete_wal_segments B path started now a s)
  unfolding delete_wal_segments
  delete_wal_segments-Same file a s h l = elim (Option-cases started) [
    | inr (e, q) ↦ rw (delete_wal_segments, q) refl
    | inl q ↦
        rw (delete_wal_segments, q)
          (delete_segments-Keeps B L (wrap "cannot delete wal segment") (shape path file) path a s (
            All-map (λ p. InRange (segment_file p) × (file ≡ segment_file p → ⊥))
              (λ p. shape path file ≡ segment_key path p → ⊥)
              (λ p k e. k.1 (shape-injective path file (segment_file p) h k.0 e)) a l))
  ]

  written-Keeps :
      (key : FilePath) (generation : Text) (index : ℕ) (reader : Result (List ℕ))
      (o : Result (Unit {0}) × B.State) (s : B.State)
      → B.get key o.1 ≡ B.get key s
      → B.get key (snapshot_written B path started now generation index reader o).1 ≡ B.get key s
  written-Keeps key generation index reader (err e, s') s h = h
  written-Keeps key generation index reader (ok _, s') s h = h

  pub write_snapshot-Same :
      (file : File) (generation : Text) (index : ℕ) (reader : Result (List ℕ)) (s : B.State)
      → index ≤ max_int
      → InRange file
      → (file ≡ snapshot_file generation index → ⊥)
      → B.get (shape path file) (write_snapshot B path started now generation index reader s).1
        ≡ B.get (shape path file) s
  unfolding write_snapshot
  write_snapshot-Same file generation index reader s k h d =
      elim (Result-cases (ready B path started now generation)) [
        | inl (e, q) ↦ rw (write_snapshot, q) refl
        | inr (_, q) ↦
            rw (write_snapshot, q)
              (written-Keeps (shape path file) generation index reader
                (B.put (snapshot_key path generation index) reader s) s
                (L.get-put (snapshot_key path generation index) (shape path file) reader s
                  (λ e. d (shape-injective path file (snapshot_file generation index) h k e))))
      ]

-- The client of Google Cloud Storage, over a service that keeps to its documentation, is a client
-- whose calls leave all other files alone, for
-- generations that are names in a path.
pub gs_client-Careful :
    (B : Bucket)
    → IsLawful B
    → (path : Text) (started : Option Error) (now : Time) → Careful (gs_client B path started now)
gs_client-Careful B L path started now = record {
  listed_generations = λ s a h. gs_generations-Named B path started now s a h;
  listed_snapshots = λ s generation itr h. snapshots-Listed B L path started now s generation itr h;
  listed_segments =
      λ s generation itr h. wal_segments-Listed B L path started now s generation itr h;
  other_generation = λ s generation file n m d.
      reading-Same B L path started now file s _
        (delete_generation-Same B L path started now file generation s d);
  other_snapshot = λ s generation index file n m k h d.
      delete_snapshot-Same B L path started now generation index s file;
  other_segments = λ s a file n m h l.
      reading-Same B L path started now file s _
        (delete_wal_segments-Same B L path started now file a s h l);
  written = λ s generation index reader file n m k h d.
      reading-Same B L path started now file s _
        (write_snapshot-Same B L path started now file generation index reader s k h d);
}
