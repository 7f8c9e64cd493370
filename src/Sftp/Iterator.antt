-- ===== src/Sftp/Iterator.antt =====
-- sftp/replica_client.go: `walSegmentIterator`. What Next reads from the directory of an index is a
-- parameter: the segments in the directory's order, or the error.
pub mod Stuck
use litestream.Prelude.{
  ℕ, zero, suc, Bool, true, false, Option, none, some, List, [], ◌∷◌, Error, Result, ok, err,
  if◌then◌else◌,
}
use litestream.Client.{WalSegmentInfo}

-- `loaded` is `itr.infos != nil`.
pub record WalSegmentIterator : Type 0 where
  pub indexes : List ℕ
  pub loaded : Bool
  pub infos : List WalSegmentInfo
  pub failure : Option Error

-- newWALSegmentIterator
abbrev pub new_wal_segment_iterator : List ℕ → WalSegmentIterator
new_wal_segment_iterator indexes = record {
  indexes = indexes;
  loaded = false;
  infos = [];
  failure = none;
}

-- Close
abbrev pub close : WalSegmentIterator → Option Error
close itr = itr.failure

-- The cached segments behind the current one.
abbrev pub behind : List WalSegmentInfo → List WalSegmentInfo
behind [] = []
behind (_ ∷ infos) = infos

abbrev pub without_first : List ℕ → List ℕ
without_first [] = []
without_first (_ ∷ indexes) = indexes

-- Clearing the cache, and the next index but for the first time.
abbrev pub move_index : WalSegmentIterator → WalSegmentIterator
move_index itr = record itr {
  infos = [];
  indexes = if itr.loaded then without_first itr.indexes else itr.indexes;
}

module _ (read : ℕ → Result (List WalSegmentInfo)) where
  abbrev pub take_read :
      WalSegmentIterator
      → Result (List WalSegmentInfo)
      → (WalSegmentIterator → Option (Bool × WalSegmentIterator))
      → Option (Bool × WalSegmentIterator)
  take_read itr (err e) again = some (false, record itr { failure = some e })
  take_read itr (ok []) again = again itr
  take_read itr (ok (info ∷ infos)) again =
      some (true, record itr { infos = info ∷ infos; loaded = true })

  abbrev pub load :
      WalSegmentIterator
      → List ℕ
      → (WalSegmentIterator → Option (Bool × WalSegmentIterator))
      → Option (Bool × WalSegmentIterator)
  load itr [] again = some (false, itr)
  load itr (index ∷ _) again = take_read itr (read index) again

  abbrev pub next_round :
      WalSegmentIterator
      → List WalSegmentInfo
      → (WalSegmentIterator → Option (Bool × WalSegmentIterator))
      → Option (Bool × WalSegmentIterator)
  next_round itr (info ∷ infos) again = some (true, record itr { infos = info ∷ infos })
  next_round itr [] again = let moved = move_index itr in load moved moved.indexes again

  -- The loop of Next; `none` is fuel that ran out.
  unfoldable pub next_loop : ℕ → WalSegmentIterator → Option (Bool × WalSegmentIterator)
  next_loop zero itr = none
  next_loop (suc fuel) itr = next_round itr (behind itr.infos) (next_loop fuel)

  -- Next; `started` is the error of Init.
  unfoldable pub next : Option Error → ℕ → WalSegmentIterator → Option (Bool × WalSegmentIterator)
  next started fuel itr = elim started [
    | some e ↦ some (false, record itr { failure = some e })
    | none ↦ elim itr.failure [ some e ↦ some (false, itr) | none ↦ next_loop fuel itr ]
  ]
