-- ===== src/Sftp/Client/Keeps.antt =====
-- The files that the calls of the client of SFTP leave alone.
use litestream.Prelude.{
  ℕ, ◌≤◌, ◌≡◌, refl, sym, ap, ◌∙◌, inl, inr, Option, none, List, [], ◌∷◌, Error, Result, ok, err,
  All, All-map, Bool-cases, Result-cases, Option-cases, wrap,
}
use litestream.Text.{Text}
use litestream.Pos.{Pos, max_int}
use litestream.Client.{Time}
use litestream.Client.Remote.{File, snapshot_file, segment_file, file_generation, InRange}
use litestream.Files.System.{FilePath, below}
use litestream.Files.Client.Paths.{shape, shape-injective, below-shape}
use litestream.Cloud.Bucket.{is_not_exists}
use litestream.Cloud.Names.{generation_required, generation_prefix, snapshot_key, segment_key}
use litestream.Sftp.Server.{Visit, SftpServer, IsLawful}
use litestream.Sftp.Client.{
  ready, after_remove, remove_directories, remove_visited, delete_generation, closed, copied,
  created, write_at, snapshot_written, write_snapshot, delete_snapshot, segment_written,
  write_wal_segment, remove_segments, delete_wal_segments,
}

module _ (S : SftpServer) (L : IsLawful S) (path : Text) (started : Option Error) (now : Time) where
  module _ (key : FilePath) where
    abbrev Keeps : {A : Type 0} → S.State → Result A × S.State → Type 0
    Keeps s o = S.get key o.1 ≡ S.get key s

    after_remove-Keeps :
        (explain : Error → Error) (s : S.State) (o : Result (Unit {0}) × S.State)
        (next : S.State → Result (Unit {0}) × S.State)
        → Keeps s o
        → ((t : S.State) → Keeps t (next t))
        → Keeps s (after_remove S path started now explain o next)
    after_remove-Keeps explain s (ok _, t) next h k = k t ∙ h
    after_remove-Keeps explain s (err e, t) next h k = elim (Bool-cases (is_not_exists e)) [
      | inl q ↦ rw q (k t ∙ h)
      | inr q ↦ rw q h
    ]

    remove_directories-Keeps :
        (dirs : List FilePath) (s : S.State)
        → Keeps s (remove_directories S path started now dirs s)
    unfolding remove_directories
    remove_directories-Keeps [] s = refl
    remove_directories-Keeps (dir ∷ dirs) s =
        after_remove-Keeps (wrap "cannot delete directory") s (S.remove_directory dir s)
          (remove_directories S path started now dirs) (L.get-remove_directory dir key s)
          (remove_directories-Keeps dirs)

    remove_visited-Keeps :
        (dirs : List FilePath) (visits : List Visit) (s : S.State)
        → All (λ v. key ≡ v.path → ⊥) visits
        → Keeps s (remove_visited S path started now dirs visits s)
    unfolding remove_visited
    remove_visited-Keeps dirs [] s d = remove_directories-Keeps dirs s
    remove_visited-Keeps dirs (v ∷ visits) s d = elim (Option-cases v.err) [
      | inr (e, q) ↦ rw (remove_visited, q) refl
      | inl q ↦ elim (Bool-cases v.is_dir) [
        | inl k ↦ rw (remove_visited, q, k) (remove_visited-Keeps (v.path ∷ dirs) visits s d.1)
        | inr k ↦
            rw (remove_visited, q, k)
              (after_remove-Keeps (wrap "cannot delete file") s (S.remove v.path s)
                (remove_visited S path started now dirs visits) (L.get-remove v.path key s d.0)
                (λ t. remove_visited-Keeps dirs visits t d.1))
      ]
    ]

    remove_segments-Keeps :
        (a : List Pos) (s : S.State)
        → All (λ p. key ≡ segment_key path p → ⊥) a
        → Keeps s (remove_segments S path started now a s)
    unfolding remove_segments
    remove_segments-Keeps [] s d = refl
    remove_segments-Keeps (pos ∷ a) s d = elim (Result-cases (generation_required pos.generation)) [
      | inl (e, q) ↦ rw (remove_segments, q) refl
      | inr (_, q) ↦
          rw (remove_segments, q)
            (after_remove-Keeps (wrap "cannot delete wal segment") s
              (S.remove (segment_key path pos) s) (remove_segments S path started now a)
              (L.get-remove (segment_key path pos) key s d.0) (λ t. remove_segments-Keeps a t d.1))
    ]

    module _ (p : FilePath) (other : key ≡ p → ⊥) where
      closed-Keeps :
          (s : S.State) (o : Result ℕ × S.State)
          → Keeps s o
          → Keeps s (closed S path started now o p)
      closed-Keeps s (err e, t) h = L.get-close p key t other ∙ h
      closed-Keeps s (ok n, t) h = L.get-close p key t other ∙ h

      copied-Keeps :
          (reader : Result (List ℕ)) (s : S.State) (o : Result (Unit {0}) × S.State)
          → Keeps s o
          → Keeps s (copied S path started now o p reader)
      copied-Keeps reader s (err e, t) h = h
      copied-Keeps reader s (ok _, t) h =
          closed-Keeps t (S.copy p reader t) (L.get-copy p key reader t other) ∙ h

      created-Keeps :
          (reader : Result (List ℕ)) (s : S.State) (o : Result (Unit {0}) × S.State)
          → Keeps s o
          → Keeps s (created S path started now o p reader)
      created-Keeps reader s (err e, t) h = h
      created-Keeps reader s (ok _, t) h =
          copied-Keeps reader t (S.create p t) (L.get-create p key t other) ∙ h

      write_at-Keeps :
          (dir : FilePath) (reader : Result (List ℕ)) (s : S.State)
          → Keeps s (write_at S path started now dir p reader s)
      write_at-Keeps dir reader s =
          created-Keeps reader s (S.mkdir_all dir s) (L.get-mkdir_all dir key s)

    snapshot_written-Keeps :
        (generation : Text) (index : ℕ) (s : S.State) (o : Result ℕ × S.State)
        → Keeps s o
        → Keeps s (snapshot_written S path started now generation index o)
    snapshot_written-Keeps generation index s (err e, t) h = h
    snapshot_written-Keeps generation index s (ok n, t) h = h

    segment_written-Keeps :
        (pos : Pos) (s : S.State) (o : Result ℕ × S.State)
        → Keeps s o
        → Keeps s (segment_written S path started now pos o)
    segment_written-Keeps pos s (err e, t) h = h
    segment_written-Keeps pos s (ok n, t) h = h

  -- A call, seen at a file, where there is no error before it.
  module _ (file : File) where
    abbrev Same : {A : Type 0} → S.State → Result A × S.State → Type 0
    Same s o = Keeps (shape path file) s o

    pub delete_generation-Same :
        (generation : Text) (s : S.State)
        → (file_generation file ≡ generation → ⊥)
        → Same s (delete_generation S path started now generation s)
    unfolding delete_generation
    delete_generation-Same generation s d =
        elim (Result-cases (ready S path started now generation)) [
          | inl (e, q) ↦ rw (delete_generation, q) refl
          | inr (_, q) ↦
              let dir = generation_prefix path generation in
              rw (delete_generation, q)
                (remove_visited-Keeps (shape path file) [] (S.walk dir s) s (
                  All-map (λ v. below dir v.path ≡ none → ⊥) (λ v. shape path file ≡ v.path → ⊥)
                    (λ v inside e.
                      inside (ap (below dir) (sym e) ∙ below-shape path generation file d))
                    (S.walk dir s) (L.walked dir s)))
        ]

    pub delete_snapshot-Same :
        (generation : Text) (index : ℕ) (s : S.State)
        → index ≤ max_int
        → InRange file
        → (file ≡ snapshot_file generation index → ⊥)
        → Same s (delete_snapshot S path started now generation index s)
    unfolding delete_snapshot
    delete_snapshot-Same generation index s k h d =
        elim (Result-cases (ready S path started now generation)) [
          | inl (e, q) ↦ rw (delete_snapshot, q) refl
          | inr (_, q) ↦
              rw (delete_snapshot, q)
                (after_remove-Keeps (shape path file) (wrap "cannot delete snapshot") s
                  (S.remove (snapshot_key path generation index) s) (λ t. (ok tt, t))
                  (L.get-remove (snapshot_key path generation index) (shape path file) s
                    (λ e. d (shape-injective path file (snapshot_file generation index) h k e)))
                  (λ t. refl))
        ]

    pub delete_wal_segments-Same :
        (a : List Pos) (s : S.State)
        → InRange file
        → All (λ p. InRange (segment_file p) × (file ≡ segment_file p → ⊥)) a
        → Same s (delete_wal_segments S path started now a s)
    unfolding delete_wal_segments
    delete_wal_segments-Same a s h l = elim (Option-cases started) [
      | inr (e, q) ↦ rw (delete_wal_segments, q) refl
      | inl q ↦
          rw (delete_wal_segments, q)
            (remove_segments-Keeps (shape path file) a s (
              All-map (λ p. InRange (segment_file p) × (file ≡ segment_file p → ⊥))
                (λ p. shape path file ≡ segment_key path p → ⊥)
                (λ p k e. k.1 (shape-injective path file (segment_file p) h k.0 e)) a l))
    ]

    pub write_snapshot-Same :
        (generation : Text) (index : ℕ) (reader : Result (List ℕ)) (s : S.State)
        → index ≤ max_int
        → InRange file
        → (file ≡ snapshot_file generation index → ⊥)
        → Same s (write_snapshot S path started now generation index reader s)
    unfolding write_snapshot
    write_snapshot-Same generation index reader s k h d =
        elim (Result-cases (ready S path started now generation)) [
          | inl (e, q) ↦ rw (write_snapshot, q) refl
          | inr (_, q) ↦
              rw (write_snapshot, q)
                (snapshot_written-Keeps (shape path file) generation index s _ (
                  write_at-Keeps (shape path file) (snapshot_key path generation index)
                    (λ e. d (shape-injective path file (snapshot_file generation index) h k e)) _
                    reader s))
        ]

    pub write_wal_segment-Same :
        (pos : Pos) (reader : Result (List ℕ)) (s : S.State)
        → InRange (segment_file pos)
        → InRange file
        → (file ≡ segment_file pos → ⊥)
        → Same s (write_wal_segment S path started now pos reader s)
    unfolding write_wal_segment
    write_wal_segment-Same pos reader s k h d =
        elim (Result-cases (ready S path started now pos.generation)) [
          | inl (e, q) ↦ rw (write_wal_segment, q) refl
          | inr (_, q) ↦
              rw (write_wal_segment, q)
                (segment_written-Keeps (shape path file) pos s _ (
                  write_at-Keeps (shape path file) (segment_key path pos)
                    (λ e. d (shape-injective path file (segment_file pos) h k e)) _ reader s))
        ]
