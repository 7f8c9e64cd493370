-- ===== src/Db/Clean/Keeps.antt =====
-- What `cleanWAL` keeps of the shadow WAL.
use litestream.Prelude.{
  ℕ, ◌+◌, ◌≤◌, ◌<◌, ◌≡◌, refl, sym, ap, ◌⊎◌, inl, inr, Bool, true, false, ◌||◌, Option, none, some,
  List, [], ◌∷◌, ok, All, Bool-cases, Option-cases, Result-cases, if◌then◌else◌, arith, ltb, leb,
  subst,
}
use litestream.Text.{Text, text_eq, text_eq_iff}
use litestream.Pos.{Pos, pos_eq}
use litestream.Pos.Order.{pos_eq_iff}
use litestream.Db.{Db}
use litestream.Db.Disk.{Disk, Segments, read_segment}
use litestream.Db.Index.{OsFaults, RemovalFault}
use litestream.Db.Verify.{current_generation}
use litestream.Db.Clean.{
  keep_where, removing, removes_any, spared, min_replica_index, retains_index, not_replicated,
  keeps_segment, has_generation, clean_indexes, clean_wal,
}

read_segment-keep_where :
    (keep : Pos → Bool) (q : Pos) (segments : Segments)
    → read_segment q (keep_where keep segments) ≡ (if keep q then read_segment q segments else none)
unfolding read_segment keep_where
read_segment-keep_where keep q [] = ground arith
read_segment-keep_where keep q ((p, b) ∷ segments) = elim (Bool-cases (pos_eq p q)) [
  | inl e ↦
      let same = (pos_eq_iff p q).0 e in
      elim (Bool-cases (keep p)) [
        | inl k ↦ rw (k, e) (ground (arith, ap keep same))
        | inr k ↦ rw (k, e) (ground (arith, ap keep same, read_segment-keep_where keep q segments))
      ]
  | inr e ↦ elim (Bool-cases (keep p)) [
    | inl k ↦ rw (k, e) (read_segment-keep_where keep q segments)
    | inr k ↦ rw (k, e) (read_segment-keep_where keep q segments)
  ]
]

-- The index is below that of each position in the generation.
abbrev pub BelowAll : Text → ℕ → List Pos → Type 0
BelowAll generation index = All (λ p. p.generation ≡ generation → index < p.index)

AtMost : ℕ → Option ℕ → Type 0
AtMost m none = Unit
AtMost m (some k) = m ≤ k

module _ (generation : Text) where
  min_replica_index-le :
      (replicas : List Pos) (min : Option ℕ) (m : ℕ)
      → min_replica_index generation min replicas ≡ some m
      → AtMost m min × All (λ p. p.generation ≡ generation → m ≤ p.index) replicas
  unfolding min_replica_index AtMost
  min_replica_index-le [] none m h = (tt, tt)
  min_replica_index-le [] (some k) m h = (ground arith, tt)
  min_replica_index-le (p ∷ replicas) none m h =
      elim (Bool-cases (text_eq p.generation generation)) [
        | inl e ↦
            let (low, rest) = min_replica_index-le replicas (some p.index) m (rw e at h) in
            (tt, ((λ _. low), rest))
        | inr e ↦
            let (_, rest) = min_replica_index-le replicas none m (rw e at h) in
            (tt, ((λ same. cc (e, (text_eq_iff p.generation generation).1 same)), rest))
      ]
  min_replica_index-le (p ∷ replicas) (some k) m h =
      elim (Bool-cases (text_eq p.generation generation)) [
        | inl e ↦ elim (Bool-cases (ltb p.index k)) [
          | inl l ↦
              let (low, rest) = min_replica_index-le replicas (some p.index) m (rw (e, l) at h) in
              (ground arith, ((λ _. low), rest))
          | inr l ↦
              let (low, rest) = min_replica_index-le replicas (some k) m (rw (e, l) at h) in
              (low, ((λ _. ground arith), rest))
        ]
        | inr e ↦
            let (low, rest) = min_replica_index-le replicas (some k) m (rw e at h) in
            (low, ((λ same. cc (e, (text_eq_iff p.generation generation).1 same)), rest))
      ]

All-below :
    (generation : Text) (m index : ℕ) (replicas : List Pos)
    → index < m
    → All (λ p. p.generation ≡ generation → m ≤ p.index) replicas
    → BelowAll generation index replicas
All-below generation m index [] l h = tt
All-below generation m index (p ∷ replicas) l h =
    ((λ same. omega (arith, h.0 same)), All-below generation m index replicas l h.1)

-- An index that the loop does not go past.
retains_index-BelowAll :
    (db : Db) (replicas : List Pos) (generation : Text) (index : ℕ)
    → retains_index db replicas (min_replica_index generation none replicas) index ≡ false
    → (index + db.shadow_retention_n < db.pos.index) × BelowAll generation index replicas
unfolding retains_index
retains_index-BelowAll db [] generation index h = (ground arith, tt)
retains_index-BelowAll db (p ∷ replicas) generation index h =
    elim (Option-cases (min_replica_index generation none (p ∷ replicas))) [
      | inl e ↦ cc (rw e at h)
      | inr (m, e) ↦
          let (_, low) = min_replica_index-le generation (p ∷ replicas) none m e in
          let k : (leb m index || leb db.pos.index (index + db.shadow_retention_n)) ≡ false =
            rw e at h in
          (ground arith, All-below generation m index (p ∷ replicas) (ground arith) low)
    ]

-- A removal takes nothing away that it keeps.
keep_where-Kept :
    (q : Pos) (keep : Pos → Bool) (segments : Segments)
    → (read_segment q (keep_where keep segments) ≡ read_segment q segments)
      ⊎ ((read_segment q (keep_where keep segments) ≡ none) × (keep q ≡ false))
keep_where-Kept q keep segments =
    let kept = read_segment-keep_where keep q segments in
    elim (Bool-cases (keep q)) [ inl e ↦ inl (rw e at kept) | inr e ↦ inr (rw e at kept, e) ]

removing-Kept :
    (q : Pos) (fault : Option RemovalFault) (keep : Pos → Bool) (disk : Disk)
    → (read_segment q (removing fault keep disk).1.segments ≡ read_segment q disk.segments)
      ⊎ ((read_segment q (removing fault keep disk).1.segments ≡ none) × (keep q ≡ false))
unfolding removing
removing-Kept q none keep disk = keep_where-Kept q keep disk.segments
removing-Kept q (some x) keep disk = elim (Bool-cases (removes_any keep disk.segments)) [
  | inr e ↦ rw e (inl refl)
  | inl e ↦ elim (keep_where-Kept q (spared keep x) disk.segments) [
    | inl same ↦ rw e (inl same)
    | inr (gone, h) ↦ rw e (inr (gone, or_left _ _ h))
  ]
]
  where
    or_left : (a b : Bool) → a || b ≡ false → a ≡ false
    or_left true b h = cc
    or_left false b h = refl

module _ (replicas : List Pos) (db : Db) (q : Pos) where
  -- The segment at `q` is as before, or was removed as one that nobody needs.
  abbrev pub KeptUnless : Text → Disk → Disk → Type 0
  KeptUnless generation disk disk' =
      (read_segment q disk'.segments ≡ read_segment q disk.segments)
      ⊎ ((read_segment q disk'.segments ≡ none)
          × (q.generation ≡ generation)
          × (q.index + db.shadow_retention_n < db.pos.index)
          × BelowAll generation q.index replicas)

  removed-KeptUnless :
      (generation : Text) (disk disk' : Disk)
      → (read_segment q disk'.segments ≡ read_segment q disk.segments)
        ⊎ ((read_segment q disk'.segments ≡ none)
            × (keeps_segment db replicas generation q ≡ false))
      → KeptUnless generation disk disk'
  removed-KeptUnless generation disk disk' (inl same) = inl same
  removed-KeptUnless generation disk disk' (inr (gone, h)) =
      elim (Bool-cases (text_eq q.generation generation)) [
        | inr e ↦ cc (rw e at h)
        | inl e ↦
            let (old, low) = retains_index-BelowAll db replicas generation q.index (rw e at h) in
            inr (gone, (text_eq_iff q.generation generation).0 e, old, low)
      ]

  clean_indexes-KeptUnless :
      (faults : OsFaults) (generation : Text) (disk : Disk)
      → KeptUnless generation disk (clean_indexes faults replicas db generation disk).1
  unfolding clean_indexes
  clean_indexes-KeptUnless faults generation disk =
      elim (Bool-cases (
        text_eq generation []
        || not_replicated replicas (min_replica_index generation none replicas))) [
          | inl e ↦ rw e (inl refl)
          | inr e ↦ elim (Bool-cases (has_generation generation disk.segments)) [
            | inr f ↦ rw (e, f) (inl refl)
            | inl f ↦ elim (Option-cases faults.list_indexes) [
              | inr (x, l) ↦ rw (clean_indexes, e, f, l) (inl refl)
              | inl l ↦
                  let out =
                    removing faults.remove_indexes (keeps_segment db replicas generation) disk in
                  rw (clean_indexes, e, f, l)
                    (removed-KeptUnless generation disk out.1 (
                      removing-Kept q faults.remove_indexes (keeps_segment db replicas generation)
                        disk))
            ]
          ]
        ]

  -- `cleanWAL` removes a segment of the shadow WAL only if it is of the current generation, its index
  -- is below the cached position's by more than the retention, and below that of every replica whose
  -- position is in the generation. Every other segment stays readable as it was.
  pub clean_wal-KeptUnless :
      (faults : OsFaults) (disk : Disk)
      → let disk' = (clean_wal faults replicas db disk).1 in
        (read_segment q disk'.segments ≡ read_segment q disk.segments)
        ⊎ ((read_segment q disk'.segments ≡ none)
            × (current_generation faults disk ≡ ok q.generation)
            × (q.index + db.shadow_retention_n < db.pos.index)
            × BelowAll q.generation q.index replicas)
  unfolding clean_wal
  clean_wal-KeptUnless faults disk = elim (Result-cases (current_generation faults disk)) [
    | inl (e, h) ↦ rw h (inl refl)
    | inr (generation, h) ↦ elim (clean_indexes-KeptUnless faults generation disk) [
      | inl k ↦ rw h (inl k)
      | inr (gone, same, old, low) ↦ rw h (
          inr
            (gone, ap ok (sym same), old, subst (λ g. BelowAll g q.index replicas) (sym same) low))
    ]
  ]
