-- ===== src/Client/Index.antt =====
-- replica_client.go: the searches for the highest index.
use litestream.Prelude.{
  ℕ, ◌≤◌, ◌≡◌, refl, sym, subst, ◌⊎◌, inl, inr, Bool, false, none, List, [], ◌∷◌, ok, ltb,
  if◌then◌else◌, All, Bool-cases, arith,
}
use litestream.Text.{Text}
use litestream.Client.Infos.{SnapshotInfo, WalSegmentInfo, Listing, ReplicaClient}
use litestream.Client.Search.{
  or_no_segments, max_loop, find_max_snapshot_index_by_generation, find_max_wal_index_by_generation,
  find_max_index_by_generation,
}

-- One of the items has the property.
abbrev pub Any : {A : Type 0} → (A → Type 0) → List A → Type 0
Any P [] = ⊥
Any P (x ∷ xs) = P x ⊎ Any P xs

-- `best` is the index of an item that is not skipped, or the start; no such item has a higher one.
abbrev pub IsMaxFrom : {A : Type 0} → (A → Bool) → (A → ℕ) → ℕ → List A → ℕ → Type 0
IsMaxFrom skip of start a best =
    ((best ≡ start) ⊎ Any (λ x. (skip x ≡ false) × (of x ≡ best)) a)
    × (start ≤ best)
    × All (λ x. skip x ≡ false → of x ≤ best) a

max_loop-IsMaxFrom :
    {A : Type 0} (skip : A → Bool) (of : A → ℕ) (start : ℕ) (a : List A)
    → IsMaxFrom skip of start a (max_loop skip of start a)
unfolding max_loop
max_loop-IsMaxFrom skip of start [] = (inl refl, omega arith, tt)
max_loop-IsMaxFrom skip of start (x ∷ a) =
    let go =
      λ (next : ℕ) (e : (if skip x then start else if ltb start (of x) then of x else start) ≡ next)
          (m : IsMaxFrom skip of start (x ∷ a) (max_loop skip of next a)).
        subst (λ n. IsMaxFrom skip of start (x ∷ a) (max_loop skip of n a)) (sym e) m in
    elim (Bool-cases (skip x)) [
      | inl e ↦
          let ih = max_loop-IsMaxFrom skip of start a in
          go start (rw e) (widen ih.0, ih.1, ((λ z. cc), ih.2))
      | inr e ↦ elim (Bool-cases (ltb start (of x))) [
        | inl l ↦
            let ih = max_loop-IsMaxFrom skip of (of x) a in
            go (of x) (rw (e, l)) (inr (found e ih.0), ground arith, ((λ z. ih.1), ih.2))
        | inr g ↦
            let ih = max_loop-IsMaxFrom skip of start a in
            go start (rw (e, g)) (widen ih.0, ih.1, ((λ z. ground arith), ih.2))
      ]
    ]
  where
    widen : {P Q R : Type 0} → P ⊎ R → P ⊎ (Q ⊎ R)
    widen (inl p) = inl p
    widen (inr r) = inr (inr r)

    found :
        {t : Bool} {b c : ℕ} {R : Type 0} → t ≡ false → (b ≡ c) ⊎ R → ((t ≡ false) × (c ≡ b)) ⊎ R
    found e (inl p) = inl (e, sym p)
    found e (inr r) = inr r

All-mono :
    {A : Type 0} (of : A → ℕ) (a : List A) {m n : ℕ}
    → m ≤ n
    → All (λ x. of x ≤ m) a
    → All (λ x. of x ≤ n) a
All-mono of [] h k = tt
All-mono of (x ∷ a) h k = (omega arith, All-mono of a h k.1)

module _ {A : Type 0} (skip : A → Bool) (of : A → ℕ) where
  Any-index :
      (a : List A) (best : ℕ)
      → Any (λ x. (skip x ≡ false) × (of x ≡ best)) a
      → Any (λ x. of x ≡ best) a
  Any-index (x ∷ a) best (inl p) = inl p.1
  Any-index (x ∷ a) best (inr r) = inr (Any-index a best r)
  Any-index [] best h = elim h [ ]

-- The highest index of a list that is not empty.
abbrev pub IsMax : {A : Type 0} → (A → ℕ) → List A → ℕ → Type 0
IsMax of a best = Any (λ x. of x ≡ best) a × All (λ x. of x ≤ best) a

All-unskipped :
    {A : Type 0} (of : A → ℕ) (a : List A) (best : ℕ)
    → All (λ x. ◌≡◌ {A = Bool} false false → of x ≤ best) a
    → All (λ x. of x ≤ best) a
All-unskipped of [] best h = tt
All-unskipped of (x ∷ a) best h = (h.0 refl, All-unskipped of a best h.1)

max_loop-IsMax :
    {A : Type 0} (of : A → ℕ) (x : A) (a : List A)
    → IsMax of (x ∷ a) (max_loop (λ x. false) of 0 (x ∷ a))
max_loop-IsMax of x a =
    let m = max_loop-IsMaxFrom (λ x. false) of 0 (x ∷ a) in
    let all = All-unskipped of (x ∷ a) _ m.2 in (one m.0 all, all)
  where
    one :
        {b : ℕ}
        → (b ≡ 0) ⊎ Any (λ y. (◌≡◌ {A = Bool} false false) × (of y ≡ b)) (x ∷ a)
        → All (λ y. of y ≤ b) (x ∷ a)
        → Any (λ y. of y ≡ b) (x ∷ a)
    one (inl z) all = inl (omega (arith, all.0))
    one {b} (inr k) all = Any-index (λ y. false) of (x ∷ a) b k

-- A whole listing.
abbrev pub listing : {A : Type 0} → List A → Listing A
listing a = record { items = a; close = none }

module _ (client : ReplicaClient) (generation : Text) (s : SnapshotInfo)
    (a : List SnapshotInfo) where
  snapshot_max : ℕ
  snapshot_max = max_loop (λ (info : SnapshotInfo). false) (λ info. info.index) 0 (s ∷ a)

  snapshots_found :
      client.snapshots generation ≡ ok (listing (s ∷ a))
      → find_max_snapshot_index_by_generation client generation ≡ ok snapshot_max
  unfolding find_max_snapshot_index_by_generation snapshot_max
  snapshots_found e = rw e (ground arith)

  -- Where there are no WAL segments, the index of the WAL counts as 0.
  segments_found :
      (b : List WalSegmentInfo)
      → client.wal_segments generation ≡ ok (listing b)
      → or_no_segments "max wal index" (find_max_wal_index_by_generation client generation)
        ≡ ok (max_loop (λ (info : WalSegmentInfo). false) (λ info. info.index) 0 b)
  unfolding find_max_wal_index_by_generation max_loop
  segments_found [] e = rw e
  segments_found (w ∷ b) e = rw e (ground arith)

  -- Where the generation's snapshots and WAL segments can be listed and there is a snapshot,
  -- `FindMaxIndexByGeneration` returns the highest index of all of them.
  pub find_max_index-IsMax :
      (b : List WalSegmentInfo)
      → client.snapshots generation ≡ ok (listing (s ∷ a))
      → client.wal_segments generation ≡ ok (listing b)
      → (best : ℕ) × (find_max_index_by_generation client generation ≡ ok best)
        × (Any (λ (i : SnapshotInfo). i.index ≡ best) (s ∷ a)
            ⊎ Any (λ (w : WalSegmentInfo). w.index ≡ best) b)
        × All (λ (i : SnapshotInfo). i.index ≤ best) (s ∷ a)
        × All (λ (w : WalSegmentInfo). w.index ≤ best) b
  unfolding find_max_index_by_generation snapshot_max
  find_max_index-IsMax b e f =
      let wal_max = max_loop (λ (info : WalSegmentInfo). false) (λ info. info.index) 0 b in
      let snaps = max_loop-IsMax (λ (i : SnapshotInfo). i.index) s a in
      let wals = max_loop-IsMaxFrom (λ (info : WalSegmentInfo). false) (λ info. info.index) 0 b in
      let all = All-unskipped (λ (w : WalSegmentInfo). w.index) b wal_max wals.2 in
      elim (Bool-cases (ltb wal_max snapshot_max)) [
        | inl l ↦ (
          snapshot_max,
          rw (snapshots_found e, segments_found b f, l),
          inl snaps.0,
          snaps.1,
          All-mono (λ (w : WalSegmentInfo). w.index) b (ground arith) all,
        )
        | inr g ↦ (
          wal_max,
          rw (snapshots_found e, segments_found b f, g),
          one wals.0 (ground arith) snaps.0,
          All-mono (λ (i : SnapshotInfo). i.index) (s ∷ a) (ground arith) snaps.1,
          all,
        )
      ]
    where
      one :
          {m : ℕ}
          → (m ≡ 0) ⊎ Any (λ (w : WalSegmentInfo). (◌≡◌ {A = Bool} false false) × (w.index ≡ m)) b
          → snapshot_max ≤ m
          → Any (λ (i : SnapshotInfo). i.index ≡ snapshot_max) (s ∷ a)
          → Any (λ (i : SnapshotInfo). i.index ≡ m) (s ∷ a)
            ⊎ Any (λ (w : WalSegmentInfo). w.index ≡ m) b
      one {m} (inl z) h k =
          inl (subst (λ n. Any (λ (i : SnapshotInfo). i.index ≡ n) (s ∷ a)) (omega arith) k)
      one {m} (inr k) h _ = inr (Any-index (λ (w : WalSegmentInfo). false) (λ w. w.index) b m k)
