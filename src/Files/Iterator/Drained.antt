-- ===== src/Files/Iterator/Drained.antt =====
-- What a loop over `FileWALSegmentIterator` sees.
use litestream.Prelude.{
  ℕ, zero, suc, ◌<◌, ◌≡◌, refl, ap, inl, inr, Bool, true, false, Option, none, some, List, [], ◌∷◌,
  Result, ok, Result-cases, length, arith,
}
use mathlib.Core.Option
use litestream.Text.{Text}
use litestream.Client.{WalSegmentInfo, Listing}
use litestream.Files.Listing.{read_indexes, then_indexes}
use litestream.Files.Iterator.{
  FileWalSegmentIterator, new_file_wal_segment_iterator, close, load, move, next, wal_segment,
}

module _ (read : ℕ → Result (List WalSegmentInfo)) where
  abbrev pub seen : WalSegmentInfo → Listing WalSegmentInfo → Listing WalSegmentInfo
  seen info rest = record rest { items = info ∷ rest.items }

  -- `for itr.Next() { … itr.WALSegment() … }` and then `itr.Close()`; `none` is fuel that ran out.
  unfoldable pub drain : ℕ → Bool × FileWalSegmentIterator → Option (Listing WalSegmentInfo)
  drain fuel (false, itr) = some (record { items = []; close = close itr })
  drain zero (true, itr) = none
  drain (suc fuel) (true, itr) = Option.map (seen (wal_segment itr)) (drain fuel (next read itr))

  module _ (generation : Text) where
    abbrev at : List WalSegmentInfo → List ℕ → FileWalSegmentIterator
    at infos indexes = record {
      generation = generation;
      indexes = indexes;
      buffered = false;
      infos = infos;
      err = none;
    }

    abbrev rest_of : List WalSegmentInfo → List ℕ → Listing WalSegmentInfo
    rest_of infos indexes = then_indexes (ok infos) (read_indexes read indexes)

    -- With this much fuel: the loop on segments that Next has just found, and on cached ones.
    Found : ℕ → Type 0
    Found fuel =
        (info : WalSegmentInfo) (infos : List WalSegmentInfo) (indexes : List ℕ)
        → length (rest_of infos indexes).items < fuel
        → drain fuel (true, at (info ∷ infos) indexes) ≡ some (seen info (rest_of infos indexes))

    Moved : ℕ → Type 0
    Moved fuel =
        (info : WalSegmentInfo) (infos : List WalSegmentInfo) (indexes : List ℕ)
        → length (rest_of infos indexes).items < suc fuel
        → drain fuel (move read (at (info ∷ infos) indexes) (info ∷ infos))
          ≡ some (rest_of infos indexes)

    drain-load :
        (fuel : ℕ) (old : List WalSegmentInfo) (before indexes : List ℕ)
        → Found fuel
        → length (read_indexes read indexes).items < suc fuel
        → drain fuel (load read (at old before) indexes) ≡ some (read_indexes read indexes)
    unfolding drain load read_indexes Found
    drain-load fuel old before [] found h = refl
    drain-load fuel old before (index ∷ indexes) found h = elim (Result-cases (read index)) [
      | inl (e, q) ↦ rw (load, q) refl
      | inr ([], q) ↦ rw (load, q) (drain-load fuel old before indexes found (rw q at h))
      | inr (info ∷ infos, q) ↦
          let k : length (then_indexes (ok (info ∷ infos)) (read_indexes read indexes)).items
              < suc fuel =
            rw q at h in
          rw (load, q) (found info infos indexes (omega (arith, k)))
    ]

    drain-move : (fuel : ℕ) → Found fuel → Moved fuel
    unfolding move Moved Found
    drain-move fuel found info [] indexes h = drain-load fuel (info ∷ []) indexes indexes found h
    drain-move fuel found info (b ∷ infos) indexes h = found b infos indexes (omega (arith, h))

    drain-Found : (fuel : ℕ) → Found fuel
    unfolding drain next Found Moved
    drain-Found zero info infos indexes h = elim h [ ]
    drain-Found (suc fuel) info infos indexes h =
        ap (Option.map (seen info)) (drain-move fuel (drain-Found fuel) info infos indexes h)

  -- A loop over a new iterator ends, and sees the segments of each index in turn, sorted within the
  -- index, up to the first index that cannot be read; Close returns that error.
  pub drain-read_indexes :
      (generation : Text) (indexes : List ℕ)
      → drain
          (length (read_indexes read indexes).items)
          (next read (new_file_wal_segment_iterator generation indexes))
        ≡ some (read_indexes read indexes)
  unfolding next move
  drain-read_indexes generation indexes =
      drain-load generation _ [] indexes indexes (drain-Found generation _) (omega arith)
