-- ===== src/Files/Client/Careful.antt =====
-- The files that each call of `FileReplicaClient` leaves alone, and what its listings hold.
use litestream.Prelude.{
  message, ℕ, ◌≤◌, ◌≡◌, refl, ap, ◌∙◌, ◌⊎◌, inl, inr, List, [], ◌∷◌, ◌++◌, Error, Result, ok, err,
  All, Bool-cases, Result-cases, Option-cases, arith, length, length-append,
}
use litestream.Text.{Text, text_eq}
use litestream.Pos.{Pos, format_index, format_offset, max_int}
use litestream.Pos.Names.{length-format_index, length-format_offset}
use litestream.Client.Remote.{
  File, snapshot_file, segment_file, read_file, file_generation, InRange, Careful,
}
use litestream.Files.System.{
  FilePath, FileInfo, Tree, remove, remove_all, write_file, open_file, open_file-remove,
  open_file-write_file, open_file-remove_all,
}
use litestream.Files.Named.{generations-Named}
use litestream.Files.Client.Listed.{snapshots-Listed, wal_segments-Listed}
use litestream.Files.Client.Paths.{shape, component, shape-injective, below-shape}
use litestream.Files.Client.{
  read_at, contents, FileFaults, tmp_path, write_through, snapshot_written, write_snapshot,
  delete_generation, remove_at, delete_snapshot, and_delete, delete_wal_segments,
  file_replica_client,
}
use litestream.Files.Names.{
  generations_name, snapshot_suffix, segment_suffix, tmp_suffix, generations_dir, generation_dir,
  snapshots_dir, snapshot_path, wal_dir, wal_segment_path,
}

abbrev pub file_path : Text → File → Result FilePath
file_path path (snapshot_file generation index) = snapshot_path path generation index
file_path path (segment_file pos) = wal_segment_path path pos

generation_dir-cases :
    (path generation : Text)
    → ((e : Error) × (generation_dir path generation ≡ err e))
      ⊎ (generation_dir path generation ≡ ok (path ∷ generations_name ∷ generation ∷ []))
unfolding generation_dir generations_dir
generation_dir-cases path generation = elim (Bool-cases (text_eq path [])) [
  | inl e ↦ inl (message "file replica path required", rw e refl)
  | inr e ↦ elim (Bool-cases (text_eq generation [])) [
    | inl g ↦ inl (message "generation required", rw (e, g) refl)
    | inr g ↦ inr (rw (e, g) refl)
  ]
]

pub file_path-cases :
    (path : Text) (file : File)
    → ((e : Error) × (file_path path file ≡ err e)) ⊎ (file_path path file ≡ ok (shape path file))
unfolding snapshot_path snapshots_dir wal_segment_path wal_dir
file_path-cases path (snapshot_file generation index) =
    elim (generation_dir-cases path generation) [
      | inl (e, q) ↦ inl (e, rw q refl)
      | inr q ↦ inr (rw q refl)
    ]
file_path-cases path (segment_file pos) = elim (generation_dir-cases path pos.generation) [
  | inl (e, q) ↦ inl (e, rw q refl)
  | inr q ↦ inr (rw q refl)
]

-- No file of the replica has the temporary name of another one.
tmp_differs : (path : Text) (f g : File) → shape path f ≡ tmp_path (shape path g) → ⊥
unfolding component
tmp_differs path (snapshot_file a i) (snapshot_file b j) e = omega (
  arith,
  ap (λ p. length (component 4 p)) e,
  length-append (format_index i) snapshot_suffix,
  length-append (format_index j ++ snapshot_suffix) tmp_suffix,
  length-append (format_index j) snapshot_suffix,
  length-format_index i,
  length-format_index j,
)
tmp_differs path (snapshot_file a i) (segment_file q) e = omega (arith, ap length e)
tmp_differs path (segment_file p) (snapshot_file b j) e = omega (arith, ap length e)
tmp_differs path (segment_file p) (segment_file q) e = omega (
  arith,
  ap (λ p. length (component 5 p)) e,
  length-append (format_offset p.offset) segment_suffix,
  length-append (format_offset q.offset ++ segment_suffix) tmp_suffix,
  length-append (format_offset q.offset) segment_suffix,
  length-format_offset p.offset,
  length-format_offset q.offset,
)

module _ (path : Text) (faults : FileFaults) (file : File) where
  abbrev reading : Tree → Result (List ℕ)
  reading tree = read_at tree (file_path path file)

  -- A change of the files that keeps what is at the file's path.
  reading-Same :
      (tree tree' : Tree)
      → open_file (shape path file) tree' ≡ open_file (shape path file) tree
      → reading tree' ≡ reading tree
  unfolding read_at
  reading-Same tree tree' h = elim (file_path-cases path file) [
    | inl (e, q) ↦ rw q refl
    | inr q ↦ rw q (ap contents h)
  ]

  and_delete-Same :
      (tree : Tree) (o : Result (Unit {0}) × Tree) (next : Tree → Result (Unit {0}) × Tree)
      → reading o.1 ≡ reading tree
      → ((tree' : Tree) → reading (next tree').1 ≡ reading tree')
      → reading (and_delete path faults o next).1 ≡ reading tree
  and_delete-Same tree (err e, tree') next h k = h
  and_delete-Same tree (ok _, tree') next h k = k tree' ∙ h

  written-tree :
      (generation : Text) (index : ℕ) (o : Result FileInfo × Tree)
      → reading (snapshot_written path faults generation index o).1 ≡ reading o.1
  written-tree generation index (err e, tree) = refl
  written-tree generation index (ok info, tree) = refl

  remove_at-Same :
      (other : File) (tree : Tree)
      → InRange file
      → InRange other
      → (file ≡ other → ⊥)
      → reading (remove_at path faults (shape path other) tree).1 ≡ reading tree
  remove_at-Same other tree h k d = elim (Option-cases (faults.remove (shape path other))) [
    | inr (e, q) ↦ rw (remove_at, q) refl
    | inl q ↦
        rw (remove_at, q)
          (reading-Same tree (remove (shape path other) tree) (
            open_file-remove (shape path other) (shape path file) tree
              (λ e. d (shape-injective path file other h k e))))
  ]

  write_through-Same :
      (other : File) (reader : Result (List ℕ)) (tree : Tree)
      → InRange file
      → InRange other
      → (file ≡ other → ⊥)
      → reading (write_through path faults (shape path other) reader tree).1 ≡ reading tree
  write_through-Same other reader tree h k d =
      let tmp : (info : FileInfo)
          → reading (write_file (tmp_path (shape path other)) info tree) ≡ reading tree =
        λ info. reading-Same tree (write_file (tmp_path (shape path other)) info tree) (
          open_file-write_file (tmp_path (shape path other)) (shape path file) info tree
            (tmp_differs path file other)) in
      elim (Option-cases faults.create) [
        | inr (e, q) ↦ rw q refl
        | inl q ↦ elim (Result-cases reader) [
          | inl (e, r) ↦ rw (q, r) (tmp _)
          | inr (bytes, r) ↦ elim (Option-cases faults.finish) [
            | inr (e, w) ↦ rw (q, r, w) (tmp _)
            | inl w ↦
                rw (q, r, w)
                  (reading-Same tree _ (
                    open_file-write_file (shape path other) (shape path file) _ _
                      (λ e. d (shape-injective path file other h k e))
                    ∙ open_file-remove (tmp_path (shape path other)) (shape path file) tree
                        (tmp_differs path file other)))
          ]
        ]
      ]

  delete_generation-Same :
      (generation : Text) (tree : Tree)
      → (file_generation file ≡ generation → ⊥)
      → reading (delete_generation path faults generation tree).1 ≡ reading tree
  unfolding delete_generation
  delete_generation-Same generation tree d = elim (generation_dir-cases path generation) [
    | inl (e, q) ↦ rw (delete_generation, q) refl
    | inr q ↦
        let dir : FilePath = path ∷ generations_name ∷ generation ∷ [] in
        elim (Option-cases (faults.remove dir)) [
          | inr (e, r) ↦ rw (delete_generation, q, r) refl
          | inl r ↦
              rw (delete_generation, q, r)
                (reading-Same tree (remove_all dir tree) (
                  open_file-remove_all dir (shape path file) tree
                    (below-shape path generation file d)))
        ]
  ]

  delete_snapshot-Same :
      (generation : Text) (index : ℕ) (tree : Tree)
      → index ≤ max_int
      → InRange file
      → (file ≡ snapshot_file generation index → ⊥)
      → reading (delete_snapshot path faults generation index tree).1 ≡ reading tree
  unfolding delete_snapshot
  delete_snapshot-Same generation index tree k h d =
      elim (file_path-cases path (snapshot_file generation index)) [
        | inl (e, q) ↦ rw (delete_snapshot, q) refl
        | inr q ↦
            rw (delete_snapshot, q) (remove_at-Same (snapshot_file generation index) tree h k d)
      ]

  write_snapshot-Same :
      (generation : Text) (index : ℕ) (reader : Result (List ℕ)) (tree : Tree)
      → index ≤ max_int
      → InRange file
      → (file ≡ snapshot_file generation index → ⊥)
      → reading (write_snapshot path faults generation index reader tree).1 ≡ reading tree
  unfolding write_snapshot
  write_snapshot-Same generation index reader tree k h d =
      elim (file_path-cases path (snapshot_file generation index)) [
        | inl (e, q) ↦ rw (write_snapshot, q) refl
        | inr q ↦
            rw (write_snapshot, q)
              (written-tree generation index _
                ∙ write_through-Same (snapshot_file generation index) reader tree h k d)
      ]

  delete_wal_segments-Same :
      (a : List Pos) (tree : Tree)
      → InRange file
      → All (λ p. InRange (segment_file p) × (file ≡ segment_file p → ⊥)) a
      → reading (delete_wal_segments path faults a tree).1 ≡ reading tree
  unfolding delete_wal_segments
  delete_wal_segments-Same [] tree h l = refl
  delete_wal_segments-Same (pos ∷ a) tree h l = elim (file_path-cases path (segment_file pos)) [
    | inl (e, q) ↦ rw (delete_wal_segments, q) refl
    | inr q ↦
        rw (delete_wal_segments, q)
          (and_delete-Same tree (remove_at path faults (shape path (segment_file pos)) tree)
            (delete_wal_segments path faults a)
            (remove_at-Same (segment_file pos) tree h l.0.0 l.0.1)
            (λ tree'. delete_wal_segments-Same a tree' h l.1))
  ]

files :
    (path : Text) (faults : FileFaults) (tree tree' : Tree) (file : File)
    → read_at tree' (file_path path file) ≡ read_at tree (file_path path file)
    → read_file ((file_replica_client path faults).reads tree') file
      ≡ read_file ((file_replica_client path faults).reads tree) file
unfolding read_file
files path faults tree tree' (snapshot_file g i) h = h
files path faults tree tree' (segment_file p) h = h

-- The client of a directory is a client whose calls leave all other files alone, for
-- generations that are names in a path.
pub file_replica_client-Careful :
    (path : Text) (faults : FileFaults) → Careful (file_replica_client path faults)
file_replica_client-Careful path faults = record {
  listed_generations = λ tree a h. generations-Named path tree a h;
  listed_snapshots = λ tree generation itr h. snapshots-Listed path tree generation itr h;
  listed_segments = λ tree generation itr h. wal_segments-Listed path tree generation itr h;
  other_generation = λ tree generation file n m d.
      files path faults tree _ file (delete_generation-Same path faults file generation tree d);
  other_snapshot = λ tree generation index file n m k h d.
      files path faults tree _ file
        (delete_snapshot-Same path faults file generation index tree k h d);
  other_segments = λ tree a file n m h l.
      files path faults tree _ file (delete_wal_segments-Same path faults file a tree h l);
  written = λ tree generation index reader file n m k h d.
      files path faults tree _ file
        (write_snapshot-Same path faults file generation index reader tree k h d);
}
