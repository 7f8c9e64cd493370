-- ===== src/Files/Client/Listed.antt =====
-- What the listings of `FileReplicaClient` hold.
use litestream.Prelude.{
  subst, ℕ, ◌≤◌, ◌≡◌, refl, inl, inr, Option, none, some, List, [], ◌∷◌, ◌++◌, Result, ok, err, All,
  All-append, Bool-cases, Result-cases, arith, length, take, ◌==◌, ◌&&◌, drop,
}
use litestream.Text.{Text, text_eq}
use litestream.Text.Hex.{parse_uint}
use litestream.Pos.{format_index, parse_index, parse_offset, max_int}
use litestream.Pos.Names.{parse_index-le, parse_offset-le}
use litestream.Client.{SnapshotInfo, WalSegmentInfo, Listing, segment_pos}
use litestream.Client.Infos.{snapshot_less, segment_less}
use litestream.Client.Remote.{segment_file, InRange}
use litestream.Db.Listing.Sorted.{insert_sorted-All}
use litestream.Replica.Snapshot.{insert_snapshot, sort_snapshots}
use litestream.Files.System.{FilePath, FileInfo, Tree, below}
use litestream.Files.Listing.{
  insert_segment, sort_segments, snapshot_info, snapshot_entry, segment_entry, snapshot_infos,
  segment_info, segment_infos, snapshots, wal_segments, read_index, read_indexes, then_indexes,
  insert_value, index_values, directories_in, exists_below,
}
use litestream.Files.Names.{
  snapshot_suffix, segment_suffix, snapshots_dir, wal_dir, index_value, is_hex_name,
  parse_snapshot_path, trim_suffix,
}

insert_snapshot-All :
    (P : SnapshotInfo → Type 0) (i : SnapshotInfo) (a : List SnapshotInfo)
    → P i
    → All P a
    → All P (insert_snapshot i a)
unfolding insert_snapshot
insert_snapshot-All P i [] p h = (p, tt)
insert_snapshot-All P i (j ∷ a) p h = elim (Bool-cases (snapshot_less i j)) [
  | inl e ↦ rw e (p, h)
  | inr e ↦ rw e (h.0, insert_snapshot-All P i a p h.1)
]

sort_snapshots-All :
    (P : SnapshotInfo → Type 0) (a : List SnapshotInfo) → All P a → All P (sort_snapshots a)
unfolding sort_snapshots
sort_snapshots-All P [] h = tt
sort_snapshots-All P (i ∷ a) h =
    insert_snapshot-All P i (sort_snapshots a) h.0 (sort_snapshots-All P a h.1)

insert_segment-All :
    (P : WalSegmentInfo → Type 0) (i : WalSegmentInfo) (a : List WalSegmentInfo)
    → P i
    → All P a
    → All P (insert_segment i a)
unfolding insert_segment
insert_segment-All P i [] p h = (p, tt)
insert_segment-All P i (j ∷ a) p h = elim (Bool-cases (segment_less i j)) [
  | inl e ↦ rw e (p, h)
  | inr e ↦ rw e (h.0, insert_segment-All P i a p h.1)
]

sort_segments-All :
    (P : WalSegmentInfo → Type 0) (a : List WalSegmentInfo) → All P a → All P (sort_segments a)
unfolding sort_segments
sort_segments-All P [] h = tt
sort_segments-All P (i ∷ a) h =
    insert_segment-All P i (sort_segments a) h.0 (sort_segments-All P a h.1)

index_value-le : (o : Option ℕ) (index : ℕ) → index_value o ≡ ok index → index ≤ max_int
index_value-le none index h = ground (arith, h)
index_value-le (some v) index h = ground (arith, h)

pub parse_snapshot_path-le :
    (s : Text) (index : ℕ) → parse_snapshot_path s ≡ ok index → index ≤ max_int
unfolding parse_snapshot_path
parse_snapshot_path-le s index h =
    elim (Bool-cases
      (length s == 29 && (is_hex_name (take 16 s) && text_eq (drop 16 s) snapshot_suffix))) [
        | inl e ↦ index_value-le (parse_uint (take 16 s)) index (rw e at h)
        | inr e ↦ cc (rw e at h)
      ]

module _ (generation : Text) where
  abbrev pub SnapshotListed : SnapshotInfo → Type 0
  SnapshotListed i = (i.generation ≡ generation) × (i.index ≤ max_int)

  abbrev pub SegmentListed : WalSegmentInfo → Type 0
  SegmentListed i = (i.generation ≡ generation) × InRange (segment_file (segment_pos i))

  snapshot_info-Listed :
      (info : FileInfo) (r : Result ℕ) (infos : List SnapshotInfo)
      → ((index : ℕ) → r ≡ ok index → index ≤ max_int)
      → All SnapshotListed infos
      → All SnapshotListed (snapshot_info generation info r infos)
  snapshot_info-Listed info (err e) infos le h = h
  snapshot_info-Listed info (ok index) infos le h = ((refl, le index refl), h)

  snapshot_entry-Listed :
      (info : FileInfo) (o : Option FilePath) (infos : List SnapshotInfo)
      → All SnapshotListed infos
      → All SnapshotListed (snapshot_entry generation info o infos)
  snapshot_entry-Listed info none infos h = h
  snapshot_entry-Listed info (some []) infos h = h
  snapshot_entry-Listed info (some (name ∷ [])) infos h =
      snapshot_info-Listed info (parse_snapshot_path name) infos (parse_snapshot_path-le name) h
  snapshot_entry-Listed info (some (name ∷ _ ∷ _)) infos h = h

  snapshot_infos-Listed :
      (dir : FilePath) (tree : Tree) → All SnapshotListed (snapshot_infos generation dir tree)
  unfolding snapshot_infos
  snapshot_infos-Listed dir [] = tt
  snapshot_infos-Listed dir ((p, info) ∷ tree) =
      snapshot_entry-Listed info (below dir p) _ (snapshot_infos-Listed dir tree)

  module _ (index : ℕ) (le : index ≤ max_int) where
    segment_info-Listed :
        (info : FileInfo) (r : Result ℕ) (infos : List WalSegmentInfo)
        → ((offset : ℕ) → r ≡ ok offset → offset ≤ max_int)
        → All SegmentListed infos
        → All SegmentListed (segment_info generation index info r infos)
    segment_info-Listed info (err e) infos low h = h
    segment_info-Listed info (ok offset) infos low h = ((refl, (le, low offset refl)), h)

    segment_entry-Listed :
        (info : FileInfo) (o : Option FilePath) (infos : List WalSegmentInfo)
        → All SegmentListed infos
        → All SegmentListed (segment_entry generation index info o infos)
    segment_entry-Listed info none infos h = h
    segment_entry-Listed info (some []) infos h = h
    segment_entry-Listed info (some (name ∷ [])) infos h =
        segment_info-Listed info (parse_offset (trim_suffix segment_suffix name)) infos
          (parse_offset-le (trim_suffix segment_suffix name)) h
    segment_entry-Listed info (some (name ∷ _ ∷ _)) infos h = h

    segment_infos-Listed :
        (dir : FilePath) (tree : Tree) → All SegmentListed (segment_infos generation index dir tree)
    unfolding segment_infos
    segment_infos-Listed dir [] = tt
    segment_infos-Listed dir ((p, info) ∷ tree) =
        segment_entry-Listed info (below dir p) _ (segment_infos-Listed dir tree)

    read_index-Listed :
        (dir : FilePath) (tree : Tree) (infos : List WalSegmentInfo)
        → read_index generation dir tree index ≡ ok infos
        → All SegmentListed infos
    unfolding read_index
    read_index-Listed dir tree infos h =
        elim (Bool-cases (exists_below (dir ++ format_index index ∷ []) tree)) [
          | inr e ↦ cc (rw e at h)
          | inl e ↦
              let q : sort_segments
                    (segment_infos generation index (dir ++ format_index index ∷ []) tree)
                  ≡ infos =
                cc (rw e at h) in
              subst (All SegmentListed) q (
                sort_segments-All SegmentListed _
                  (segment_infos-Listed (dir ++ format_index index ∷ []) tree))
        ]

  then_indexes-Listed :
      (r : Result (List WalSegmentInfo)) (rest : Listing WalSegmentInfo)
      → ((infos : List WalSegmentInfo) → r ≡ ok infos → All SegmentListed infos)
      → All SegmentListed rest.items
      → All SegmentListed (then_indexes r rest).items
  then_indexes-Listed (err e) rest h k = tt
  then_indexes-Listed (ok infos) rest h k =
      All-append SegmentListed infos rest.items (h infos refl) k

  read_indexes-Listed :
      (dir : FilePath) (tree : Tree) (indexes : List ℕ)
      → All (λ i. i ≤ max_int) indexes
      → All SegmentListed (read_indexes (read_index generation dir tree) indexes).items
  unfolding read_indexes
  read_indexes-Listed dir tree [] h = tt
  read_indexes-Listed dir tree (index ∷ indexes) h =
      then_indexes-Listed (read_index generation dir tree index) _
        (read_index-Listed index h.0 dir tree) (read_indexes-Listed dir tree indexes h.1)

insert_value-le :
    (r : Result ℕ) (indexes : List ℕ)
    → ((index : ℕ) → r ≡ ok index → index ≤ max_int)
    → All (λ i. i ≤ max_int) indexes
    → All (λ i. i ≤ max_int) (insert_value r indexes)
insert_value-le (err e) indexes h k = k
insert_value-le (ok index) indexes h k =
    insert_sorted-All (λ i. i ≤ max_int) index indexes (h index refl) k

index_values-le : (names : List Text) → All (λ i. i ≤ max_int) (index_values names)
index_values-le [] = tt
index_values-le (name ∷ names) =
    insert_value-le (parse_index name) (index_values names) (parse_index-le name)
      (index_values-le names)

module _ (path : Text) (tree : Tree) (generation : Text) where
  pub snapshots-Listed :
      (itr : Listing SnapshotInfo)
      → snapshots path tree generation ≡ ok itr
      → All (SnapshotListed generation) itr.items
  unfolding snapshots
  snapshots-Listed itr h = elim (Result-cases (snapshots_dir path generation)) [
    | inl (e, q) ↦ cc (rw q at h)
    | inr (dir, q) ↦
        let same : sort_snapshots (snapshot_infos generation dir tree) ≡ itr.items =
          cc (rw q at h) in
        subst (All (SnapshotListed generation)) same (
          sort_snapshots-All (SnapshotListed generation) _
            (snapshot_infos-Listed generation dir tree))
  ]

  pub wal_segments-Listed :
      (itr : Listing WalSegmentInfo)
      → wal_segments path tree generation ≡ ok itr
      → All (SegmentListed generation) itr.items
  unfolding wal_segments
  wal_segments-Listed itr h = elim (Result-cases (wal_dir path generation)) [
    | inl (e, q) ↦ cc (rw q at h)
    | inr (dir, q) ↦
        let same : read_indexes (read_index generation dir tree)
              (index_values (directories_in dir tree))
            ≡ itr =
          cc (rw q at h) in
        subst (λ (l : Listing WalSegmentInfo). All (SegmentListed generation) l.items) same
          (read_indexes-Listed generation dir tree _ (index_values-le (directories_in dir tree)))
  ]
