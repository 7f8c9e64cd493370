-- ===== src/Sftp/Iterator/Stuck.antt =====
-- When Next of the iterator of SFTP returns.
use litestream.Prelude.{
  ℕ, zero, suc, ◌≡◌, ◌<◌, refl, ◌∙◌, ap, Bool, true, Option, none, some, List, [], ◌∷◌, Result, ok,
  err, length, arith, ◌↔◌,
}
use litestream.Client.{WalSegmentInfo}
use litestream.Sftp.Iterator.{
  WalSegmentIterator, new_wal_segment_iterator, take_read, next_loop, next,
}

module _ (read : ℕ → Result (List WalSegmentInfo)) where
  next_loop-stuck :
      (index : ℕ) (indexes : List ℕ)
      → read index ≡ ok []
      → (fuel : ℕ) → next_loop read fuel (new_wal_segment_iterator (index ∷ indexes)) ≡ none
  unfolding next_loop
  next_loop-stuck index indexes h zero = refl
  next_loop-stuck index indexes h (suc fuel) =
      ap (λ r. take_read read (new_wal_segment_iterator (index ∷ indexes)) r (next_loop read fuel))
        h
      ∙ next_loop-stuck index indexes h fuel

  read_none :
      (itr : WalSegmentIterator) (r : Result (List WalSegmentInfo))
      (again : WalSegmentIterator → Option (Bool × WalSegmentIterator))
      → take_read read itr r again ≡ none
      → r ≡ ok []
  read_none itr (err e) again h = cc
  read_none itr (ok []) again h = refl
  read_none itr (ok (info ∷ infos)) again h = cc

  -- Next on a new iterator never returns exactly if the directory of the first index has no segment;
  -- the indexes behind it do not matter.
  pub next-stuck :
      (index : ℕ) (indexes : List ℕ)
      → ((fuel : ℕ) → next read none fuel (new_wal_segment_iterator (index ∷ indexes)) ≡ none)
        ↔ (read index ≡ ok [])
  unfolding next next_loop
  next-stuck index indexes = (
    λ h.
        read_none (new_wal_segment_iterator (index ∷ indexes)) (read index) (next_loop read 0)
          (h 1),
    next_loop-stuck index indexes,
  )

  abbrev Returns : Option (Bool × WalSegmentIterator) → Type 0
  Returns o = (r : Bool × WalSegmentIterator) × (o ≡ some r)

  take_read-Returns :
      (itr : WalSegmentIterator) (r : Result (List WalSegmentInfo))
      (again : WalSegmentIterator → Option (Bool × WalSegmentIterator))
      → Returns (again itr)
      → Returns (take_read read itr r again)
  take_read-Returns itr (err e) again h = (_, refl)
  take_read-Returns itr (ok []) again h = h
  take_read-Returns itr (ok (info ∷ infos)) again h = (_, refl)

  abbrev loaded_at : List ℕ → List WalSegmentInfo → WalSegmentIterator
  loaded_at indexes infos = record {
    indexes = indexes;
    loaded = true;
    infos = infos;
    failure = none;
  }

  next_loop-Returns :
      (fuel : ℕ) (indexes : List ℕ) (infos : List WalSegmentInfo)
      → length indexes < fuel
      → Returns (next_loop read fuel (loaded_at indexes infos))
  unfolding next_loop
  next_loop-Returns zero indexes infos h = elim h [ ]
  next_loop-Returns (suc fuel) indexes (a ∷ b ∷ infos) h = (_, refl)
  next_loop-Returns (suc fuel) [] [] h = (_, refl)
  next_loop-Returns (suc fuel) [] (a ∷ []) h = (_, refl)
  next_loop-Returns (suc fuel) (i ∷ []) [] h = (_, refl)
  next_loop-Returns (suc fuel) (i ∷ []) (a ∷ []) h = (_, refl)
  next_loop-Returns (suc fuel) (i ∷ j ∷ indexes) [] h =
      take_read-Returns (loaded_at (j ∷ indexes) []) (read j) (next_loop read fuel)
        (next_loop-Returns fuel (j ∷ indexes) [] (omega (arith, h)))
  next_loop-Returns (suc fuel) (i ∷ j ∷ indexes) (a ∷ []) h =
      take_read-Returns (loaded_at (j ∷ indexes) []) (read j) (next_loop read fuel)
        (next_loop-Returns fuel (j ∷ indexes) [] (omega (arith, h)))

  -- Once it has read a segment, Next returns: it goes at most once through the indexes that are left.
  pub next-Returns :
      (indexes : List ℕ) (infos : List WalSegmentInfo)
      → Returns (next read none (suc (length indexes)) (loaded_at indexes infos))
  unfolding next
  next-Returns indexes infos = next_loop-Returns (suc (length indexes)) indexes infos (omega arith)
