-- ===== src/Client/Infos.antt =====
-- litestream.go: `SnapshotInfo`, `WALSegmentInfo` and their slices; replica_client.go: the
-- interface `ReplicaClient`, as far as it reads.
use litestream.Prelude.{
  ℕ, ◌≤◌, ◌≡◌, refl, inl, inr, Bool, true, false, not, Option, none, some, List, [], ◌∷◌, Error,
  Result, ltb, ◌==◌, if◌then◌else◌, All, arith, Bool-cases,
}
use litestream.Text.{Text, text_eq, text_lt}
use litestream.Pos.{Pos}

abbrev pub Time : Type 0
Time = ℕ

pub record SnapshotInfo : Type 0 where
  pub generation : Text
  pub index : ℕ
  pub size : ℕ
  pub created_at : Time

pub record WalSegmentInfo : Type 0 where
  pub generation : Text
  pub index : ℕ
  pub offset : ℕ
  pub size : ℕ
  pub created_at : Time

-- WALSegmentInfo.Pos
abbrev pub segment_pos : WalSegmentInfo → Pos
segment_pos info = record { generation = info.generation; index = info.index; offset = info.offset }

-- SnapshotInfoSlice.Less and WALSegmentInfoSlice.Less
unfoldable pub snapshot_less : SnapshotInfo → SnapshotInfo → Bool
snapshot_less a b =
    if not (text_eq a.generation b.generation)
    then text_lt a.generation b.generation
    else ltb a.index b.index

unfoldable pub segment_less : WalSegmentInfo → WalSegmentInfo → Bool
segment_less a b =
    if not (text_eq a.generation b.generation)
    then text_lt a.generation b.generation
    else if not (a.index == b.index)
    then ltb a.index b.index
    else ltb a.offset b.offset

-- FilterSnapshotsAfter
unfoldable pub filter_snapshots_after : List SnapshotInfo → Time → List SnapshotInfo
filter_snapshots_after [] t = []
filter_snapshots_after (snapshot ∷ a) t =
    let rest = filter_snapshots_after a t in
    if not (ltb snapshot.created_at t) then snapshot ∷ rest else rest

-- The loop of FindMinSnapshotByGeneration.
unfoldable pub min_snapshot_loop :
    Text → Option SnapshotInfo → List SnapshotInfo → Option SnapshotInfo
min_snapshot_loop generation min [] = min
min_snapshot_loop generation none (snapshot ∷ a) =
    min_snapshot_loop generation
      (if not (text_eq snapshot.generation generation) then none else some snapshot) a
min_snapshot_loop generation (some min) (snapshot ∷ a) =
    min_snapshot_loop generation
      (if not (text_eq snapshot.generation generation)
        then some min
        else if ltb snapshot.index min.index
        then some snapshot
        else some min)
      a

unfoldable pub find_min_snapshot_by_generation : List SnapshotInfo → Text → Option SnapshotInfo
unfolding min_snapshot_loop
find_min_snapshot_by_generation a generation = min_snapshot_loop generation none a

pub record Listing (A : Type 0) : Type 0 where
  pub items : List A
  pub close : Option Error

-- SliceSnapshotIterator and SliceWALSegmentIterator; the slice is returned beside an error too.
abbrev pub to_slice : {A : Type 0} → Listing A → List A × Option Error
to_slice itr = (itr.items, itr.close)

pub record ReplicaClient : Type 0 where
  pub generations : Result (List Text)
  pub snapshots : Text → Result (Listing SnapshotInfo)
  pub wal_segments : Text → Result (Listing WalSegmentInfo)
  pub wal_segment_reader : Pos → Result (List ℕ)
  pub snapshot_reader : Text → ℕ → Result (List ℕ)

-- A snapshot of the generation, and none of the generation in the slice has a lower index.
abbrev pub IsMinOf : Text → List SnapshotInfo → Option SnapshotInfo → Type 0
IsMinOf generation a none = All (λ s. text_eq s.generation generation ≡ false) a
IsMinOf generation a (some m) =
    (text_eq m.generation generation ≡ true)
    × All (λ s. text_eq s.generation generation ≡ true → m.index ≤ s.index) a

Least : Text → SnapshotInfo → List SnapshotInfo → SnapshotInfo → Type 0
Least generation min a m =
    (text_eq m.generation generation ≡ true)
    × (m.index ≤ min.index)
    × All (λ s. text_eq s.generation generation ≡ true → m.index ≤ s.index) a

min_snapshot_loop-some :
    (generation : Text) (min : SnapshotInfo) (a : List SnapshotInfo)
    → text_eq min.generation generation ≡ true
    → (m : SnapshotInfo) × (min_snapshot_loop generation (some min) a ≡ some m)
      × Least generation min a m
unfolding min_snapshot_loop Least
min_snapshot_loop-some generation min [] h = (min, refl, (h, omega arith, tt))
min_snapshot_loop-some generation min (s ∷ a) h =
    elim (Bool-cases (text_eq s.generation generation)) [
      | inr other ↦
          let (m, e, l) = min_snapshot_loop-some generation min a h in
          (m, rw other e, (l.0, l.1, ((λ z. cc), l.2)))
      | inl same ↦ elim (Bool-cases (ltb s.index min.index)) [
        | inl less ↦
            let (m, e, l) = min_snapshot_loop-some generation s a same in
            (m, rw (same, less) e, (l.0, ground arith, ((λ z. l.1), l.2)))
        | inr more ↦
            let (m, e, l) = min_snapshot_loop-some generation min a h in
            (m, rw (same, more) e, (l.0, l.1, ((λ z. ground arith), l.2)))
      ]
    ]

IsMinOf-skip :
    (generation : Text) (s : SnapshotInfo) (a : List SnapshotInfo) (r : Option SnapshotInfo)
    → text_eq s.generation generation ≡ false
    → IsMinOf generation a r
    → IsMinOf generation (s ∷ a) r
IsMinOf-skip generation s a none other h = (other, h)
IsMinOf-skip generation s a (some m) other h = (h.0, ((λ z. cc), h.1))

-- `FindMinSnapshotByGeneration` returns a snapshot of the generation with the lowest index of all
-- of the generation in the slice, and nothing exactly where the slice has none of it.
pub find_min_snapshot-IsMinOf :
    (generation : Text) (a : List SnapshotInfo)
    → IsMinOf generation a (find_min_snapshot_by_generation a generation)
unfolding find_min_snapshot_by_generation Least
find_min_snapshot-IsMinOf generation [] = tt
find_min_snapshot-IsMinOf generation (s ∷ a) = elim (Bool-cases (text_eq s.generation generation)) [
  | inr other ↦
      rw other (IsMinOf-skip generation s a _ other (find_min_snapshot-IsMinOf generation a))
  | inl same ↦
      let (m, e, l) = min_snapshot_loop-some generation s a same in
      rw (same, e) (l.0, ((λ z. l.1), l.2))
]
