-- ===== src/Db/Listing/Lists.antt =====
-- What `WALSegments` lists where the directories can be read.
use litestream.Prelude.{
  ℕ, ◌<◌, ◌≡◌, refl, sym, subst, ap, ◌⊎◌, inl, inr, Bool-cases, true, none, some, Option, List, [],
  ◌∷◌, ◌++◌, map, ok, length, All, All-append, All-map, arith, ◌==◌, ◌&&◌,
}
use litestream.Text.{Text, text_eq}
use litestream.Pos.{Pos, pos_eq}
use litestream.Client.{WalSegmentInfo, Time, segment_pos}
use litestream.Client.Index.{Any}
use litestream.Db.Disk.{Segments, read_segment}
use litestream.Db.Reload.{indexes_of, offsets_of}
use litestream.Files.Listing.{read_indexes}
use litestream.Db.Listing.{
  ListAnswers, size_of, pos_at, info_at, read_shadow_index, wal_segments, listed_segments,
}
use litestream.Db.Listing.InOrder.{Precedes, InOrder, InOrder-append, Any-left, Any-right}
use litestream.Db.Listing.Sorted.{
  Ascending, insert_sorted-All, indexes_of-Ascending, offsets_of-Ascending, indexes_of-Any,
  offsets_of-Any,
}

-- The segment that `info` speaks of is there, with its size.
abbrev pub IsThere : Text → Segments → WalSegmentInfo → Type 0
IsThere generation segments info =
    (info.generation ≡ generation)
    × ((bytes : List ℕ) × (read_segment (segment_pos info) segments ≡ some bytes)
        × (info.size ≡ length bytes))

module _ (generation : Text) (index : ℕ) where
  abbrev Stored : Segments → ℕ → Type 0
  Stored segments offset =
      (bytes : List ℕ) × (read_segment (pos_at generation index offset) segments ≡ some bytes)

  -- A further segment hides none.
  Stored-cons :
      (q : Pos) (b : List ℕ) (segments : Segments) (offset : ℕ)
      → Stored segments offset
      → Stored ((q, b) ∷ segments) offset
  unfolding read_segment
  Stored-cons q b segments offset (bytes, h) =
      elim (Bool-cases (pos_eq q (pos_at generation index offset))) [
        | inl e ↦ (b, rw (read_segment, e) refl)
        | inr e ↦ (bytes, rw (read_segment, e) h)
      ]

  Stored-here :
      (q : Pos) (b : List ℕ) (segments : Segments)
      → (text_eq q.generation generation && q.index == index) ≡ true
      → Stored ((q, b) ∷ segments) q.offset
  unfolding read_segment pos_eq
  Stored-here q b segments h =
      let e : pos_eq q (pos_at generation index q.offset) ≡ true = ground arith in (b, rw e refl)

  offsets_of-Stored :
      (segments : Segments) → All (Stored segments) (offsets_of generation index segments)
  unfolding offsets_of
  offsets_of-Stored [] = tt
  offsets_of-Stored ((q, b) ∷ segments) =
      let rest =
        All-map (Stored segments) (Stored ((q, b) ∷ segments)) (Stored-cons q b segments)
          (offsets_of generation index segments) (offsets_of-Stored segments) in
      elim (Bool-cases (text_eq q.generation generation && q.index == index)) [
        | inl e ↦
            rw (offsets_of, e)
              (insert_sorted-All (Stored ((q, b) ∷ segments)) q.offset _
                (Stored-here q b segments e) rest)
        | inr e ↦ rw (offsets_of, e) rest
      ]

-- Directories that can be read.
abbrev pub readable : (Pos → Time) → ListAnswers
readable times = record { read_generation = none; read_index = λ index. none; times = times }

module _ (times : Pos → Time) (generation : Text) (segments : Segments) where
  abbrev info : ℕ → ℕ → WalSegmentInfo
  info = info_at (readable times) generation segments

  abbrev row : ℕ → List WalSegmentInfo
  row index = map (info index) (offsets_of generation index segments)

  abbrev rows : List ℕ → List WalSegmentInfo
  rows [] = []
  rows (index ∷ indexes) = row index ++ rows indexes

  read_indexes-rows :
      (indexes : List ℕ)
      → read_indexes (read_shadow_index (readable times) generation segments) indexes
        ≡ record { items = rows indexes; close = none }
  unfolding read_indexes read_shadow_index
  read_indexes-rows [] = refl
  read_indexes-rows (index ∷ indexes) = rw (read_indexes-rows indexes) refl

  map-Precedes :
      (i : WalSegmentInfo) (index : ℕ) (offsets : List ℕ)
      → All (λ m. Precedes i (info index m)) offsets
      → All (Precedes i) (map (info index) offsets)
  map-Precedes i index [] h = tt
  map-Precedes i index (n ∷ offsets) h = (h.0, map-Precedes i index offsets h.1)

  map-InOrder :
      (index : ℕ) (offsets : List ℕ) → Ascending offsets → InOrder (map (info index) offsets)
  map-InOrder index [] h = tt
  map-InOrder index (n ∷ offsets) h = (
    map-Precedes (info index n) index offsets (
        All-map (λ m. n < m) (λ m. Precedes (info index n) (info index m)) (λ m l. inr (refl, l))
          offsets h.0),
    map-InOrder index offsets h.1,
  )

  all-later :
      (i : WalSegmentInfo) (index : ℕ) (offsets : List ℕ)
      → i.index < index
      → All (λ m. Precedes i (info index m)) offsets
  all-later i index [] l = tt
  all-later i index (n ∷ offsets) l = (inl l, all-later i index offsets l)

  rows-Precedes :
      (i : WalSegmentInfo) (indexes : List ℕ)
      → All (λ m. i.index < m) indexes
      → All (Precedes i) (rows indexes)
  rows-Precedes i [] h = tt
  rows-Precedes i (index ∷ indexes) h =
      let offsets = offsets_of generation index segments in
      All-append (Precedes i) (row index) (rows indexes)
        (map-Precedes i index offsets (all-later i index offsets h.0)) (rows-Precedes i indexes h.1)

  row-before :
      (index : ℕ) (offsets indexes : List ℕ)
      → All (λ m. index < m) indexes
      → All (λ i. All (Precedes i) (rows indexes)) (map (info index) offsets)
  row-before index [] indexes h = tt
  row-before index (n ∷ offsets) indexes h =
      (rows-Precedes (info index n) indexes h, row-before index offsets indexes h)

  rows-InOrder : (indexes : List ℕ) → Ascending indexes → InOrder (rows indexes)
  rows-InOrder [] h = tt
  rows-InOrder (index ∷ indexes) h =
      let offsets = offsets_of generation index segments in
      InOrder-append (row index) (rows indexes)
        (map-InOrder index offsets (offsets_of-Ascending generation index segments))
        (rows-InOrder indexes h.1) (row-before index offsets indexes h.0)

  map-IsThere :
      (index : ℕ) (offsets : List ℕ)
      → All (Stored generation index segments) offsets
      → All (IsThere generation segments) (map (info index) offsets)
  map-IsThere index [] h = tt
  map-IsThere index (n ∷ offsets) h =
      let (bytes, q) = h.0 in ((refl, (bytes, q, ap size_of q)), map-IsThere index offsets h.1)

  rows-IsThere : (indexes : List ℕ) → All (IsThere generation segments) (rows indexes)
  rows-IsThere [] = tt
  rows-IsThere (index ∷ indexes) =
      All-append (IsThere generation segments) (row index) (rows indexes)
        (map-IsThere index _ (offsets_of-Stored generation index segments)) (rows-IsThere indexes)

  module _ (index offset : ℕ) where
    abbrev IsAt : WalSegmentInfo → Type 0
    IsAt i = segment_pos i ≡ pos_at generation index offset

    map-Any :
        (offsets : List ℕ) → Any (λ o. o ≡ offset) offsets → Any IsAt (map (info index) offsets)
    map-Any [] h = elim h [ ]
    map-Any (n ∷ offsets) (inl e) = inl (ap (pos_at generation index) e)
    map-Any (n ∷ offsets) (inr h) = inr (map-Any offsets h)

    rows-Any :
        (indexes : List ℕ)
        → Any (λ o. o ≡ offset) (offsets_of generation index segments)
        → Any (λ i. i ≡ index) indexes
        → Any IsAt (rows indexes)
    rows-Any [] k h = elim h [ ]
    rows-Any (i ∷ indexes) k (inl e) =
        Any-left IsAt (row i) (rows indexes) (subst (λ i. Any IsAt (row i)) (sym e) (map-Any _ k))
    rows-Any (i ∷ indexes) k (inr h) = Any-right IsAt (row i) (rows indexes) (rows-Any indexes k h)

    abbrev all_rows : List WalSegmentInfo
    all_rows = rows (indexes_of generation segments)

    found :
        (o : Option (List ℕ))
        → read_segment (pos_at generation index offset) segments ≡ o
        → (o ≡ none) ⊎ Any IsAt all_rows
    found none e = inl refl
    found (some bytes) e = inr (
        rows-Any (indexes_of generation segments)
          (offsets_of-Any (pos_at generation index offset) bytes segments e)
          (indexes_of-Any (pos_at generation index offset) bytes segments e))

    pub listed_segments-InOrder :
        (infos : List WalSegmentInfo) × (listed_segments (readable times) generation segments
          ≡ ok infos)
        × InOrder infos
        × All (IsThere generation segments) infos
        × ((read_segment (pos_at generation index offset) segments ≡ none)
            ⊎ Any (λ i. segment_pos i ≡ pos_at generation index offset) infos)
    unfolding listed_segments wal_segments
    listed_segments-InOrder = (
      all_rows,
      rw (read_indexes-rows (indexes_of generation segments)) refl,
      rows-InOrder _ (indexes_of-Ascending generation segments),
      rows-IsThere (indexes_of generation segments),
      found _ refl,
    )
