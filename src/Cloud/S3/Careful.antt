-- ===== src/Cloud/S3/Careful.antt =====
-- The files that each call of the client of S3 leaves alone.
use litestream.Prelude.{
  ℕ, ◌≤◌, ◌≡◌, refl, sym, ap, ◌∙◌, subst, inl, inr, true, Option, some, List, [], ◌∷◌, Error,
  Result, ok, err, ◌>>◌, failing, All, All-map, Result-cases, Option-cases,
}
use litestream.Text.{Text, text_eq_iff}
use litestream.Pos.{Pos, max_int}
use litestream.Client.{SnapshotInfo, WalSegmentInfo, Listing, Time}
use litestream.Client.Remote.{
  File, snapshot_file, segment_file, read_file, file_generation, InRange, CarefulBut,
}
use litestream.Files.System.{FilePath, below}
use litestream.Files.Names.{generations_name}
use litestream.Files.Client.Paths.{shape, shape-injective}
use litestream.Files.Client.Listed.{SnapshotListed, SegmentListed}
use litestream.Cloud.Named.{s3_generations-Named}
use litestream.Cloud.Bucket.{Object, Bucket, IsLawful, in_listing, begins_with}
use litestream.Cloud.Names.{generation_required, snapshot_key, segment_key}
use litestream.Cloud.Listed.{snapshots_of-Listed, segments_of-Listed}
use litestream.Cloud.S3.{
  snapshot_listing, segment_listing, object_keys, ready, delete_all_of, delete_generation,
  snapshots, fetched, snapshot_written, write_snapshot, snapshot_reader, delete_snapshot,
  wal_segments, wal_segment_reader, checked_key, delete_wal_segments, finished, s3_client,
}
use litestream.Cloud.S3.Keeps.{Keeps, Avoids, delete_batches-Keeps}

module _ (B : Bucket) (L : IsLawful B) (path : Text) (started : Option Error) (now : Time) where
  fetched-All :
      {C : Type 0} (P : C → Type 0) (generation : Text) (f : Listing Object → Listing C)
      (itr : Listing Object)
      → All P (f itr).items
      → All P (fetched B path started now generation f itr).items
  fetched-All P generation f itr h = elim (Result-cases (generation_required generation)) [
    | inl (e, q) ↦ rw (fetched, q) tt
    | inr (_, q) ↦ rw (fetched, q) h
  ]

  pub fetched_snapshots-Listed :
      (objects : Listing Object) (generation : Text) (itr : Listing SnapshotInfo)
      → (do
        failing started
        ok (fetched B path started now generation (snapshot_listing generation) objects))
        ≡ ok itr
      → All (SnapshotListed generation) itr.items
  fetched_snapshots-Listed objects generation itr h = elim (Option-cases started) [
    | inr (e, q) ↦ cc (rw q at h)
    | inl q ↦
        let f : Listing Object → Listing SnapshotInfo = snapshot_listing generation in
        let same : fetched B path started now generation f objects ≡ itr = cc (rw q at h) in
        subst (λ (l : Listing SnapshotInfo). All (SnapshotListed generation) l.items) same
          (fetched-All (SnapshotListed generation) generation f objects
            (snapshots_of-Listed generation objects.items))
  ]

  pub fetched_segments-Listed :
      (objects : Listing Object) (dir : FilePath) (generation : Text) (itr : Listing WalSegmentInfo)
      → (do
        failing started
        ok (fetched B path started now generation (segment_listing generation dir) objects))
        ≡ ok itr
      → All (SegmentListed generation) itr.items
  fetched_segments-Listed objects dir generation itr h = elim (Option-cases started) [
    | inr (e, q) ↦ cc (rw q at h)
    | inl q ↦
        let f : Listing Object → Listing WalSegmentInfo = segment_listing generation dir in
        let same : fetched B path started now generation f objects ≡ itr = cc (rw q at h) in
        subst (λ (l : Listing WalSegmentInfo). All (SegmentListed generation) l.items) same
          (fetched-All (SegmentListed generation) generation f objects
            (segments_of-Listed generation dir objects.items))
  ]

  snapshots-Listed :
      (s : B.State) (generation : Text) (itr : Listing SnapshotInfo)
      → snapshots B path started now s generation ≡ ok itr
      → All (SnapshotListed generation) itr.items
  unfolding snapshots
  snapshots-Listed s generation itr h = fetched_snapshots-Listed _ generation itr h

  wal_segments-Listed :
      (s : B.State) (generation : Text) (itr : Listing WalSegmentInfo)
      → wal_segments B path started now s generation ≡ ok itr
      → All (SegmentListed generation) itr.items
  unfolding wal_segments
  wal_segments-Listed s generation itr h = fetched_segments-Listed _ _ generation itr h

  reading-Same :
      (file : File) (s s' : B.State)
      → B.get (shape path file) s' ≡ B.get (shape path file) s
      → read_file ((s3_client B path started now).reads s') file
        ≡ read_file ((s3_client B path started now).reads s) file
  unfolding snapshot_reader wal_segment_reader read_file
  reading-Same (snapshot_file g i) s s' h = ap (λ r. ready B path started now g >> r) h
  reading-Same (segment_file p) s s' h = ap (λ r. ready B path started now p.generation >> r) h

  abbrev Hits : Text → Text → Type 0
  Hits generation other = begins_with generation other ≡ true

  in_generations :
      (file : File) (name : Text)
      → in_listing (path ∷ generations_name ∷ []) name (shape path file)
        ≡ begins_with name (file_generation file)
  unfolding below
  in_generations (snapshot_file g i) name =
      rw ((text_eq_iff path path).1 refl, (text_eq_iff generations_name generations_name).1 refl)
        refl
  in_generations (segment_file p) name =
      rw ((text_eq_iff path path).1 refl, (text_eq_iff generations_name generations_name).1 refl)
        refl

  object_keys-Avoids :
      (key : FilePath) (objects : List Object)
      → All (λ o. key ≡ o.key → ⊥) objects
      → All
          (λ x. (k : FilePath) → ◌≡◌ {A = Result FilePath} (ok x) (ok k) → key ≡ k → ⊥)
          (object_keys objects)
  object_keys-Avoids key [] h = tt
  object_keys-Avoids key (o ∷ objects) h =
      (λ k e q. h.0 (q ∙ sym (ok-eq e)), object_keys-Avoids key objects h.1)
    where
      ok-eq : {x k : FilePath} → ◌≡◌ {A = Result FilePath} (ok x) (ok k) → x ≡ k
      ok-eq e = cc

  abbrev Finishes : FilePath → B.State → Option (Result (Unit {0}) × B.State) → Type 0
  Finishes key s r = (o : Result (Unit {0}) × B.State) × (r ≡ some o) × Keeps B L key s o

  finished-Keeps :
      (key : FilePath) (s : B.State) (r : Option (Result (Unit {0}) × B.State))
      → Finishes key s r
      → Keeps B L key s (finished B path started now r s)
  finished-Keeps key s r (o, q, h) = rw (q, finished) h

  delete_all_of-Finishes :
      (key : FilePath) (itr : Listing Object) (s : B.State)
      → All (λ o. key ≡ o.key → ⊥) itr.items
      → Finishes key s (delete_all_of B path started now itr s)
  delete_all_of-Finishes key itr s h = elim (Option-cases itr.close) [
    | inr (e, q) ↦ ((err e, s), rw (delete_all_of, q) refl, refl)
    | inl q ↦
        let keys = object_keys itr.items in
        let (o, runs, kept) =
          delete_batches-Keeps B L key ok keys s (object_keys-Avoids key itr.items h) in
        (o, rw (delete_all_of, q) runs, kept)
  ]

  delete_generation-Finishes :
      (file : File) (generation : Text) (s : B.State)
      → (Hits generation (file_generation file) → ⊥)
      → Finishes (shape path file) s (delete_generation B path started now generation s)
  unfolding delete_generation
  delete_generation-Finishes file generation s d =
      elim (Result-cases (ready B path started now generation)) [
        | inl (e, q) ↦ ((err e, s), rw (delete_generation, q) refl, refl)
        | inr (_, q) ↦
            let dir = path ∷ generations_name ∷ [] in
            let itr = B.list dir generation s in
            rw (delete_generation, q)
              (delete_all_of-Finishes (shape path file) itr s (
                All-map (λ o. in_listing dir generation o.key ≡ true)
                  (λ o. shape path file ≡ o.key → ⊥)
                  (λ o listed e. d (
                    sym (in_generations file generation)
                    ∙ (ap (in_listing dir generation) e ∙ listed)))
                  itr.items (L.listed dir generation s)))
      ]

  delete_snapshot-Keeps :
      (file : File) (generation : Text) (index : ℕ) (s : B.State)
      → index ≤ max_int
      → InRange file
      → (file ≡ snapshot_file generation index → ⊥)
      → Keeps B L (shape path file) s (delete_snapshot B path started now generation index s)
  unfolding delete_snapshot
  delete_snapshot-Keeps file generation index s k h d =
      elim (Result-cases (ready B path started now generation)) [
        | inl (e, q) ↦ rw (delete_snapshot, q) refl
        | inr (_, q) ↦
            rw (delete_snapshot, q)
              (L.get-delete (snapshot_key path generation index ∷ []) (shape path file) s
                (λ e. d (shape-injective path file (snapshot_file generation index) h k e), tt))
      ]

  delete_wal_segments-Finishes :
      (file : File) (a : List Pos) (s : B.State)
      → InRange file
      → All (λ p. InRange (segment_file p) × (file ≡ segment_file p → ⊥)) a
      → Finishes (shape path file) s (delete_wal_segments B path started now a s)
  unfolding delete_wal_segments
  delete_wal_segments-Finishes file a s h l = elim (Option-cases started) [
    | inr (e, q) ↦ ((err e, s), rw (delete_wal_segments, q) refl, refl)
    | inl q ↦
        rw (delete_wal_segments, q)
          (delete_batches-Keeps B L (shape path file) (checked_key B path started now) a s (
            All-map (λ p. InRange (segment_file p) × (file ≡ segment_file p → ⊥))
              (Avoids B L (shape path file) (checked_key B path started now))
              (λ p k key asked e. k.1 (
                shape-injective path file (segment_file p) h k.0 (e ∙ sym (asked_key p key asked))))
              a l))
  ]
    where
      asked_key :
          (p : Pos) (key : FilePath)
          → checked_key B path started now p ≡ ok key
          → segment_key path p ≡ key
      asked_key p key asked = elim (Result-cases (generation_required p.generation)) [
        | inl (e, q) ↦ cc (rw q at asked)
        | inr (_, q) ↦ cc (rw q at asked)
      ]

  written-Keeps :
      (key : FilePath) (generation : Text) (index : ℕ) (reader : Result (List ℕ))
      (o : Result (Unit {0}) × B.State) (s : B.State)
      → B.get key o.1 ≡ B.get key s
      → B.get key (snapshot_written B path started now generation index reader o).1 ≡ B.get key s
  written-Keeps key generation index reader (err e, s') s h = h
  written-Keeps key generation index reader (ok _, s') s h = h

  write_snapshot-Same :
      (file : File) (generation : Text) (index : ℕ) (reader : Result (List ℕ)) (s : B.State)
      → index ≤ max_int
      → InRange file
      → (file ≡ snapshot_file generation index → ⊥)
      → B.get (shape path file) (write_snapshot B path started now generation index reader s).1
        ≡ B.get (shape path file) s
  unfolding write_snapshot
  write_snapshot-Same file generation index reader s k h d =
      elim (Result-cases (ready B path started now generation)) [
        | inl (e, q) ↦ rw (write_snapshot, q) refl
        | inr (_, q) ↦
            rw (write_snapshot, q)
              (written-Keeps (shape path file) generation index reader
                (B.put (snapshot_key path generation index) reader s) s
                (L.get-put (snapshot_key path generation index) (shape path file) reader s
                  (λ e. d (shape-injective path file (snapshot_file generation index) h k e))))
      ]

-- The client of S3, over a service that keeps to its documentation, is a client whose calls leave
-- all other files alone, but for the removal of a generation: that may concern every generation
-- whose name begins with the given one. This is for generations that are names in a path.
pub s3_client-CarefulBut :
    (B : Bucket)
    → IsLawful B
    → (path : Text) (started : Option Error) (now : Time)
    → CarefulBut
        (λ generation other. begins_with generation other ≡ true)
        (s3_client B path started now)
s3_client-CarefulBut B L path started now = record {
  listed_generations = λ s a h. s3_generations-Named B path started now s a h;
  listed_snapshots = λ s generation itr h. snapshots-Listed B L path started now s generation itr h;
  listed_segments =
      λ s generation itr h. wal_segments-Listed B L path started now s generation itr h;
  other_generation = λ s generation file n m d. reading-Same B L path started now file s _ (
      finished-Keeps B L path started now (shape path file) s _
        (delete_generation-Finishes B L path started now file generation s d));
  other_snapshot = λ s generation index file n m k h d.
      reading-Same B L path started now file s _
        (delete_snapshot-Keeps B L path started now file generation index s k h d);
  other_segments = λ s a file n m h l. reading-Same B L path started now file s _ (
      finished-Keeps B L path started now (shape path file) s _
        (delete_wal_segments-Finishes B L path started now file a s h l));
  written = λ s generation index reader file n m k h d.
      reading-Same B L path started now file s _
        (write_snapshot-Same B L path started now file generation index reader s k h d);
}
