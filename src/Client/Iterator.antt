-- ===== src/Client/Iterator.antt =====
-- litestream.go: `SnapshotInfoSliceIterator` and `WALSegmentInfoSliceIterator`, which differ in the
-- type of the elements only, the loops that make slices of iterators, and
-- `BufferedWALSegmentIterator`.
use litestream.Prelude.{
  ℕ, suc, zero, ◌≡◌, refl, sym, ap, Bool, true, false, Option, none, some, List, [], ◌∷◌, Error,
  length, if◌then◌else◌, Bool-cases, inl, inr,
}

-- What an iterator can be asked. Next may panic; an element is there where Next has returned true.
pub record SnapshotIterator (A : Type 0) : Type 1 where
  pub State : Type 0
  pub next : State → Option (Bool × State)
  pub element : State → A
  pub close : State → Option Error

pub record SliceIterator (A : Type 0) : Type 0 where
  pub init : Bool
  pub a : List A

module _ {A : Type 0} (zero_info : A) where
  -- NewSnapshotInfoSliceIterator and NewWALSegmentInfoSliceIterator
  abbrev pub new_slice_iterator : List A → SliceIterator A
  new_slice_iterator a = record { init = false; a = a }

  abbrev is_there : List A → Bool
  is_there [] = false
  is_there (x ∷ a) = true

  -- `itr.a[1:]` of no elements panics.
  abbrev moved : List A → Option (Bool × SliceIterator A)
  moved [] = none
  moved (x ∷ a) = some (is_there a, record { init = true; a = a })

  -- SnapshotInfoSliceIterator.Next
  unfoldable pub slice_next : SliceIterator A → Option (Bool × SliceIterator A)
  slice_next itr =
      if itr.init then moved itr.a else some (is_there itr.a, record itr { init = true })

  -- SnapshotInfoSliceIterator.Snapshot
  abbrev pub slice_element : List A → A
  slice_element [] = zero_info
  slice_element (x ∷ a) = x

  abbrev pub slice_iterator : SnapshotIterator A
  slice_iterator = record {
    State = SliceIterator A;
    next = slice_next;
    element = λ itr. slice_element itr.a;
    close = λ itr. none;
  }

module _ {A : Type 0} (I : SnapshotIterator A) where
  abbrev pub push_rest : A → Option (List A × Option Error) → Option (List A × Option Error)
  push_rest x none = none
  push_rest x (some (a, e)) = some (x ∷ a, e)

  -- SliceSnapshotIterator and SliceWALSegmentIterator, with fuel; `none` is a panic, or no fuel.
  unfoldable pub collect : ℕ → I.State → Option (List A × Option Error)
  collect zero s = none
  collect (suc fuel) s = elim (I.next s) [
    | none ↦ none
    | some (true, s') ↦ push_rest (I.element s') (collect fuel s')
    | some (false, s') ↦ some ([], I.close s')
  ]

  pub record Buffered : Type 0 where
    pub itr : I.State
    pub buffered : Bool

  -- NewBufferedWALSegmentIterator
  abbrev pub new_buffered : I.State → Buffered
  new_buffered s = record { itr = s; buffered = false }

  abbrev with_itr : Buffered → Option (Bool × I.State) → Option (Bool × Buffered)
  with_itr b none = none
  with_itr b (some (more, s)) = some (more, record b { itr = s })

  -- BufferedWALSegmentIterator.Next
  unfoldable pub buffered_next : Buffered → Option (Bool × Buffered)
  buffered_next b =
      if b.buffered then some (true, record b { buffered = false }) else with_itr b (I.next b.itr)

  abbrev peeked : Option (Bool × Buffered) → Option (Option A × Buffered)
  peeked none = none
  peeked (some (false, b)) = some (none, b)
  peeked (some (true, b)) = some (some (I.element b.itr), record b { buffered = true })

  -- BufferedWALSegmentIterator.Peek
  unfoldable pub peek : Buffered → Option (Option A × Buffered)
  peek b = peeked (buffered_next b)

  with_itr-unbuffered :
      (b c : Buffered) (o : Option (Bool × I.State))
      → b.buffered ≡ false
      → with_itr b o ≡ some (true, c)
      → c.buffered ≡ false
  with_itr-unbuffered b c none h q = cc
  with_itr-unbuffered b c (some (more, s)) h q = cc

  next-unbuffered : (b c : Buffered) → buffered_next b ≡ some (true, c) → c.buffered ≡ false
  unfolding buffered_next
  next-unbuffered b c q = elim (Bool-cases b.buffered) [
    | inl e ↦ cc (simp e at q)
    | inr e ↦ with_itr-unbuffered b c (I.next b.itr) e (simp e at q)
  ]

  by_next :
      (b b' : Buffered) (x : A) (o : Option (Bool × Buffered))
      → buffered_next b ≡ o
      → peeked o ≡ some (some x, b')
      → (c : Buffered) × (buffered_next b ≡ some (true, c))
        × (I.element c.itr ≡ x)
        × (buffered_next b' ≡ some (true, c))
        × (peek b' ≡ some (some x, b'))
  unfolding buffered_next peek
  by_next b b' x none q h = cc
  by_next b b' x (some (false, c)) q h = cc
  by_next b b' x (some (true, c)) q h =
      let off : c.buffered ≡ false = next-unbuffered b c q in
      let here : b' ≡ record c { buffered = true } = cc in
      let same : I.element c.itr ≡ x = cc in
      (
        c,
        q,
        same,
        rw here (λ i. some (true, record c { buffered = sym off i })),
        rw (here, same) refl,
      )

  -- Next moves to what Peek has shown, just as it would have without Peek; and Peek can be repeated.
  pub peek-next :
      (b b' : Buffered) (x : A)
      → peek b ≡ some (some x, b')
      → (c : Buffered) × (buffered_next b ≡ some (true, c))
        × (I.element c.itr ≡ x)
        × (buffered_next b' ≡ some (true, c))
        × (peek b' ≡ some (some x, b'))
  unfolding peek
  peek-next b b' x h = by_next b b' x (buffered_next b) refl h

module _ {A : Type 0} (zero_info : A) where
  collect_from :
      (x : A) (a : List A)
      → collect (slice_iterator zero_info) (suc (length a)) (record { init = true; a = x ∷ a })
        ≡ some (a, none)
  unfolding collect slice_next
  collect_from x [] = refl
  collect_from x (y ∷ a) = ap (push_rest (slice_iterator zero_info) y) (collect_from y a)

  -- A slice comes back from its iterator, and no call of Next panics on the way.
  pub collect-new_slice_iterator :
      (a : List A)
      → collect (slice_iterator zero_info) (suc (length a)) (new_slice_iterator zero_info a)
        ≡ some (a, none)
  unfolding collect slice_next
  collect-new_slice_iterator [] = refl
  collect-new_slice_iterator (x ∷ a) =
      ap (push_rest (slice_iterator zero_info) x) (collect_from x a)
