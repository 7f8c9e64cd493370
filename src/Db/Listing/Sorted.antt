-- ===== src/Db/Listing/Sorted.antt =====
-- The indexes and the offsets of the shadow WAL, as `WALSegments` and its iterator list them.
use litestream.Prelude.{
  ℕ, ◌<◌, ◌≡◌, refl, subst, ap, ◌∙◌, inl, inr, Bool-cases, true, some, List, [], ◌∷◌, All, All-map,
  arith, ltb, ◌==◌, ◌&&◌,
}
use litestream.Text.{Text, text_eq, text_eq_refl}
use litestream.Pos.{Pos, pos_eq}
use litestream.Pos.Order.{pos_eq_iff}
use litestream.Client.Index.{Any}
use litestream.Db.Disk.{Segments, read_segment}
use litestream.Db.Reload.{insert_sorted, indexes_of, offsets_of}

-- Strictly.
abbrev pub Ascending : List ℕ → Type 0
Ascending [] = Unit
Ascending (n ∷ a) = All (λ m. n < m) a × Ascending a

pub insert_sorted-All :
    (P : ℕ → Type 0) (n : ℕ) (a : List ℕ) → P n → All P a → All P (insert_sorted n a)
unfolding insert_sorted
insert_sorted-All P n [] p h = (p, tt)
insert_sorted-All P n (m ∷ a) p h = elim (Bool-cases (n == m)) [
  | inl e ↦ rw e h
  | inr e ↦ elim (Bool-cases (ltb n m)) [
    | inl l ↦ rw (e, l) (p, h)
    | inr l ↦ rw (e, l) (h.0, insert_sorted-All P n a p h.1)
  ]
]

below_all : (n m : ℕ) (a : List ℕ) → n < m → All (λ k. m < k) a → All (λ k. n < k) a
below_all n m a l h = All-map (λ k. m < k) (λ k. n < k) (λ k q. omega (arith, l)) a h

insert_sorted-Ascending : (n : ℕ) (a : List ℕ) → Ascending a → Ascending (insert_sorted n a)
unfolding insert_sorted
insert_sorted-Ascending n [] h = (tt, tt)
insert_sorted-Ascending n (m ∷ a) h = elim (Bool-cases (n == m)) [
  | inl e ↦ rw e h
  | inr e ↦ elim (Bool-cases (ltb n m)) [
    | inl l ↦ let n<m : n < m = ground arith in rw (e, l) ((n<m, below_all n m a n<m h.0), h)
    | inr l ↦
        rw (e, l)
          (insert_sorted-All (λ k. m < k) n a (ground arith) h.0, insert_sorted-Ascending n a h.1)
  ]
]

pub indexes_of-Ascending :
    (generation : Text) (segments : Segments) → Ascending (indexes_of generation segments)
unfolding indexes_of
indexes_of-Ascending generation [] = tt
indexes_of-Ascending generation ((p, b) ∷ segments) =
    elim (Bool-cases (text_eq p.generation generation)) [
      | inl e ↦
          rw (indexes_of, e)
            (insert_sorted-Ascending p.index _ (indexes_of-Ascending generation segments))
      | inr e ↦ rw (indexes_of, e) (indexes_of-Ascending generation segments)
    ]

pub offsets_of-Ascending :
    (generation : Text) (index : ℕ) (segments : Segments)
    → Ascending (offsets_of generation index segments)
unfolding offsets_of
offsets_of-Ascending generation index [] = tt
offsets_of-Ascending generation index ((p, b) ∷ segments) =
    elim (Bool-cases (text_eq p.generation generation && p.index == index)) [
      | inl e ↦
          rw (offsets_of, e)
            (insert_sorted-Ascending p.offset _ (offsets_of-Ascending generation index segments))
      | inr e ↦ rw (offsets_of, e) (offsets_of-Ascending generation index segments)
    ]

insert_sorted-here : (n : ℕ) (a : List ℕ) → Any (λ m. m ≡ n) (insert_sorted n a)
unfolding insert_sorted
insert_sorted-here n [] = inl refl
insert_sorted-here n (m ∷ a) = elim (Bool-cases (n == m)) [
  | inl e ↦ rw e (inl (ground arith))
  | inr e ↦ elim (Bool-cases (ltb n m)) [
    | inl l ↦ rw (e, l) (inl refl)
    | inr l ↦ rw (e, l) (inr (insert_sorted-here n a))
  ]
]

insert_sorted-there : (P : ℕ → Type 0) (n : ℕ) (a : List ℕ) → Any P a → Any P (insert_sorted n a)
unfolding insert_sorted
insert_sorted-there P n [] h = elim h [ ]
insert_sorted-there P n (m ∷ a) h = elim (Bool-cases (n == m)) [
  | inl e ↦ rw e h
  | inr e ↦ elim (Bool-cases (ltb n m)) [
    | inl l ↦ rw (e, l) (inr h)
    | inr l ↦ rw (e, l) (elim h [ inl p ↦ inl p | inr q ↦ inr (insert_sorted-there P n a q) ])
  ]
]

inserted : (n k : ℕ) (a : List ℕ) → n ≡ k → Any (λ m. m ≡ k) (insert_sorted n a)
inserted n k a e = subst (λ k. Any (λ m. m ≡ k) (insert_sorted n a)) e (insert_sorted-here n a)

module _ (p : Pos) (bytes : List ℕ) where
  pub indexes_of-Any :
      (segments : Segments)
      → read_segment p segments ≡ some bytes
      → Any (λ i. i ≡ p.index) (indexes_of p.generation segments)
  unfolding read_segment indexes_of
  indexes_of-Any [] h = cc
  indexes_of-Any ((q, b) ∷ segments) h = elim (Bool-cases (pos_eq q p)) [
    | inl e ↦
        let same = (pos_eq_iff q p).0 e in
        rw
          (
            indexes_of,
            ap (λ (x : Pos). text_eq x.generation p.generation) same ∙ text_eq_refl p.generation,
          )
          (inserted q.index p.index _ (ap (λ (x : Pos). x.index) same))
    | inr e ↦
        let rest = indexes_of-Any segments (rw (read_segment, e) at h) in
        elim (Bool-cases (text_eq q.generation p.generation)) [
          | inl k ↦ rw (indexes_of, k) (insert_sorted-there (λ i. i ≡ p.index) q.index _ rest)
          | inr k ↦ rw (indexes_of, k) rest
        ]
  ]

  pub offsets_of-Any :
      (segments : Segments)
      → read_segment p segments ≡ some bytes
      → Any (λ i. i ≡ p.offset) (offsets_of p.generation p.index segments)
  unfolding read_segment offsets_of
  offsets_of-Any [] h = cc
  offsets_of-Any ((q, b) ∷ segments) h = elim (Bool-cases (pos_eq q p)) [
    | inl e ↦
        let same = (pos_eq_iff q p).0 e in
        let here : text_eq q.generation p.generation && q.index == p.index ≡ true =
          ap (λ (x : Pos). text_eq x.generation p.generation && x.index == p.index) same
          ∙ rw (text_eq_refl p.generation) (ground arith) in
        rw (offsets_of, here) (inserted q.offset p.offset _ (ap (λ (x : Pos). x.offset) same))
    | inr e ↦
        let rest = offsets_of-Any segments (rw (read_segment, e) at h) in
        elim (Bool-cases (text_eq q.generation p.generation && q.index == p.index)) [
          | inl k ↦ rw (offsets_of, k) (insert_sorted-there (λ i. i ≡ p.offset) q.offset _ rest)
          | inr k ↦ rw (offsets_of, k) rest
        ]
  ]
