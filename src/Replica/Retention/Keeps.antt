-- ===== src/Replica/Retention/Keeps.antt =====
-- What `EnforceRetention` keeps on the replica.
use litestream.Prelude.{
  ◌-◌, ℕ, ◌≤◌, ◌≡◌, refl, sym, ap, ◌∙◌, inl, inr, false, Option, none, some, List, [], ◌∷◌, Error,
  Result, ok, err, All, Bool-cases, Result-cases, leb, arith,
}
use litestream.Text.{Text, text_eq_iff}
use litestream.Pos.{Pos, max_int}
use litestream.Client.{SnapshotInfo, WalSegmentInfo, Time, segment_pos}
use litestream.Client.Infos.{filter_snapshots_after, IsMinOf, find_min_snapshot-IsMinOf}
use litestream.Client.Index.{Any}
use litestream.Client.Remote.{
  RemoteClient, File, snapshot_file, segment_file, read_file, file_generation, file_index, Careful,
  InRange, IsName, is_name,
}
use litestream.Db.Disk.{Lz4}
use litestream.Replica.Snapshot.{Source, snapshots}
use litestream.Replica.Retention.{
  positions_before, Step, and_then, wrapping, delete_snapshots, delete_snapshots_before_index,
  delete_positions, delete_wal_segments_before_index, enforce_generation, enforce_generations,
  enforce_listed, enforce_retained, enforce_retention,
}

any_all : {A : Type 0} {P Q : A → Type 0} (a : List A) → Any P a → All Q a → (x : A) × P x × Q x
any_all [] h k = elim h [ ]
any_all (x ∷ a) (inl p) k = (x, p, k.0)
any_all (x ∷ a) (inr h) k = any_all a h k.1

-- A snapshot of the file's generation, not above the file's index.
abbrev pub Covers : File → SnapshotInfo → Type 0
Covers file i = (i.generation ≡ file_generation file) × (i.index ≤ file_index file)

module _ (C : RemoteClient) (careful : Careful C) (file : File)
    (named : IsName (file_generation file)) (range : InRange file) where
  -- The step leaves the file as it can be read.
  record Same (s : C.State) (o : Step C) : Type 0 where
    same : read_file (C.reads o.1) file ≡ read_file (C.reads s) file

  stay : (r : Result (Unit {0})) (s : C.State) → Same s (r, s)
  stay r s = record { same = refl }

  and_then-Same :
      (s : C.State) (o : Step C) (next : C.State → Step C)
      → Same s o
      → ((s' : C.State) → Same s' (next s'))
      → Same s (and_then C o next)
  and_then-Same s (err e, s') next h k = record { same = h.same }
  and_then-Same s (ok _, s') next h k = record { same = (k s').same ∙ h.same }

  wrapping-Same :
      (s : C.State) (o : Step C) (f : Error → Error) → Same s o → Same s (wrapping C o f)
  wrapping-Same s (err e, s') f h = record { same = h.same }
  wrapping-Same s (ok _, s') f h = record { same = h.same }

  -- The file is not among those of the generation below the index.
  abbrev Safe : Text → ℕ → Type 0
  Safe generation index = file_generation file ≡ generation → index ≤ file_index file

  snapshot_differs :
      (generation : Text) (index : ℕ) (info : SnapshotInfo)
      → Safe generation index
      → info.generation ≡ generation
      → leb index info.index ≡ false
      → file ≡ snapshot_file info.generation info.index
      → ⊥
  snapshot_differs generation index info safe g below e =
      let low = safe (ap file_generation e ∙ g) in
      let same : file_index file ≡ info.index = ap file_index e in ground arith

  delete_snapshots-Same :
      (generation : Text) (index : ℕ) (close : Option Error) (itr : List SnapshotInfo) (s : C.State)
      → IsName generation
      → Safe generation index
      → All (λ i. (i.generation ≡ generation) × (i.index ≤ max_int)) itr
      → Same s (delete_snapshots C index close itr s)
  unfolding delete_snapshots
  delete_snapshots-Same generation index close [] s n safe l = stay _ s
  delete_snapshots-Same generation index close (info ∷ itr) s n safe l =
      elim (Bool-cases (leb index info.index)) [
        | inl e ↦ rw e (delete_snapshots-Same generation index close itr s n safe l.1)
        | inr e ↦ rw e (
            and_then-Same s _ _
              (wrapping-Same s _ _ (record {
                same =
                    careful.other_snapshot s info.generation info.index file (ap is_name l.0.0 ∙ n)
                      named l.0.1 range (snapshot_differs generation index info safe l.0.0 e);
              }))
              (λ s'. delete_snapshots-Same generation index close itr s' n safe l.1))
      ]

  delete_snapshots_before_index-Same :
      (generation : Text) (index : ℕ) (s : C.State)
      → IsName generation
      → Safe generation index
      → Same s (delete_snapshots_before_index C generation index s)
  unfolding delete_snapshots_before_index
  delete_snapshots_before_index-Same generation index s n safe =
      elim (Result-cases ((C.reads s).snapshots generation)) [
        | inl (e, q) ↦ rw q (stay _ s)
        | inr (itr, q) ↦ rw q (
            delete_snapshots-Same generation index itr.close itr.items s n safe
              (careful.listed_snapshots s generation itr q))
      ]

  positions_before-Safe :
      (generation : Text) (index : ℕ) (itr : List WalSegmentInfo)
      → Safe generation index
      → All (λ i. (i.generation ≡ generation) × InRange (segment_file (segment_pos i))) itr
      → All
          (λ p. InRange (segment_file p) × (file ≡ segment_file p → ⊥))
          (positions_before index itr)
  unfolding positions_before
  positions_before-Safe generation index [] safe l = tt
  positions_before-Safe generation index (info ∷ itr) safe l =
      elim (Bool-cases (leb index info.index)) [
        | inl e ↦ rw e (positions_before-Safe generation index itr safe l.1)
        | inr e ↦ rw e (
          (
            l.0.1,
            λ same.
                let low = safe (ap file_generation same ∙ l.0.0) in
                let at : file_index file ≡ info.index = ap file_index same in ground arith,
          ),
          positions_before-Safe generation index itr safe l.1,
        )
      ]

  positions_before-Named :
      (generation : Text) (index : ℕ) (itr : List WalSegmentInfo)
      → IsName generation
      → All (λ i. (i.generation ≡ generation) × InRange (segment_file (segment_pos i))) itr
      → All (λ (p : Pos). IsName p.generation) (positions_before index itr)
  unfolding positions_before
  positions_before-Named generation index [] n l = tt
  positions_before-Named generation index (info ∷ itr) n l =
      elim (Bool-cases (leb index info.index)) [
        | inl e ↦ rw e (positions_before-Named generation index itr n l.1)
        | inr e ↦ rw e (ap is_name l.0.0 ∙ n, positions_before-Named generation index itr n l.1)
      ]

  delete_positions-Same :
      (a : List Pos) (s : C.State)
      → All (λ (p : Pos). IsName p.generation) a
      → All (λ p. InRange (segment_file p) × (file ≡ segment_file p → ⊥)) a
      → Same s (delete_positions C a s)
  delete_positions-Same [] s n h = stay _ s
  delete_positions-Same (pos ∷ a) s n h =
      wrapping-Same s _ _
        (record { same = careful.other_segments s (pos ∷ a) file named n range h })

  delete_wal_segments_before_index-Same :
      (generation : Text) (index : ℕ) (s : C.State)
      → IsName generation
      → Safe generation index
      → Same s (delete_wal_segments_before_index C generation index s)
  unfolding delete_wal_segments_before_index
  delete_wal_segments_before_index-Same generation index s n safe =
      elim (Result-cases ((C.reads s).wal_segments generation)) [
        | inl (e, q) ↦ rw q (stay _ s)
        | inr (itr, q) ↦ rw q (
            and_then-Same s _ _ (stay _ s) (λ s'.
              delete_positions-Same (positions_before index itr.items) s'
                (positions_before-Named generation index itr.items n
                  (careful.listed_segments s generation itr q))
                (positions_before-Safe generation index itr.items safe
                  (careful.listed_segments s generation itr q))))
      ]

  -- What a generation's earliest retained snapshot says of the file.
  abbrev Retains : Text → Option SnapshotInfo → Type 0
  Retains generation none = file_generation file ≡ generation → ⊥
  Retains generation (some earliest) = Safe generation earliest.index

  enforce_generation-Same :
      (generation : Text) (o : Option SnapshotInfo) (s : C.State)
      → IsName generation
      → Retains generation o
      → Same s (enforce_generation C generation o s)
  unfolding enforce_generation
  enforce_generation-Same generation none s n h =
      wrapping-Same s _ _ (record { same = careful.other_generation s generation file n named h })
  enforce_generation-Same generation (some earliest) s n h =
      and_then-Same s _ _
        (wrapping-Same s _ _ (delete_snapshots_before_index-Same generation earliest.index s n h))
        (λ s'.
          wrapping-Same s' _ _
            (delete_wal_segments_before_index-Same generation earliest.index s' n h))

  IsMinOf-Retains :
      (generation : Text) (retained : List SnapshotInfo) (o : Option SnapshotInfo)
      → Any (Covers file) retained
      → IsMinOf generation retained o
      → Retains generation o
  IsMinOf-Retains generation retained none h k =
      let (i, (g, l), other) = any_all retained h k in
      λ same. cc (other, (text_eq_iff i.generation generation).1 (g ∙ same))
  IsMinOf-Retains generation retained (some m) h k =
      let (i, (g, l), low) = any_all retained h k.1 in
      λ same. omega (arith, low ((text_eq_iff i.generation generation).1 (g ∙ same)), l)

  enforce_generations-Same :
      (retained : List SnapshotInfo) (generations : List Text) (s : C.State)
      → All IsName generations
      → Any (Covers file) retained
      → Same s (enforce_generations C retained generations s)
  unfolding enforce_generations
  enforce_generations-Same retained [] s n h = stay _ s
  enforce_generations-Same retained (generation ∷ generations) s n h =
      and_then-Same s _ _
        (enforce_generation-Same generation _ s n.0
          (IsMinOf-Retains generation retained _ h (find_min_snapshot-IsMinOf generation retained)))
        (λ s'. enforce_generations-Same retained generations s' n.1 h)

  enforce_listed-Same :
      (retained : List SnapshotInfo) (r : Result (List Text)) (s : C.State)
      → r ≡ (C.reads s).generations
      → Any (Covers file) retained
      → Same s (enforce_listed C retained r s)
  enforce_listed-Same retained (err e) s q h = stay _ s
  enforce_listed-Same retained (ok generations) s q h =
      enforce_generations-Same retained generations s
        (careful.listed_generations s generations (sym q)) h

  enforce_retained-Same :
      (lz4 : Lz4) (db : Source) (retained : List SnapshotInfo) (s : C.State)
      → Any (Covers file) retained
      → Same s (enforce_retained C lz4 db retained s)
  enforce_retained-Same lz4 db [] s h = elim h [ ]
  enforce_retained-Same lz4 db (info ∷ retained) s h =
      enforce_listed-Same (info ∷ retained) _ s refl h

-- `EnforceRetention`, whether it succeeds or not, leaves every snapshot and every segment as it is
-- whose generation is a name in a path and has a snapshot within the retention period at its index or below: what a restore
-- from a retained snapshot needs. The client leaves the files alone that it is not asked to remove.
pub enforce_retention-Same :
    (C : RemoteClient)
    → Careful C
    → (file : File) → IsName (file_generation file)
    → InRange file
    → (lz4 : Lz4) (db : Source) (now : Time) (retention : ℕ) (s : C.State) (a : List SnapshotInfo)
    → snapshots (C.reads s) ≡ ok a
    → Any (Covers file) (filter_snapshots_after a (now - retention))
    → read_file (C.reads (enforce_retention C lz4 db now retention s).1) file
      ≡ read_file (C.reads s) file
unfolding enforce_retention
enforce_retention-Same C careful file named range lz4 db now retention s a q h =
    rw q
      (enforce_retained-Same C careful file named range lz4 db
        (filter_snapshots_after a (now - retention)) s h).same
