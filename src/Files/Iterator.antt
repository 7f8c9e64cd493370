-- ===== src/Files/Iterator.antt =====
-- file_replica_client.go: `FileWALSegmentIterator`. What Next reads from the directory of an index is
-- a parameter: the sorted segments, or the error. Notifications are left out.
pub mod Drained
use litestream.Prelude.{
  ℕ, zero, suc, ◌+◌, Bool, true, false, not, Option, none, some, List, [], ◌∷◌, ◌++◌, Error,
  message, Result, ok, err, if◌then◌else◌, ltb, ◌==◌,
}
use litestream.Text.{Text, text_eq}
use litestream.Client.{WalSegmentInfo, Listing}

pub record FileWalSegmentIterator : Type 0 where
  pub generation : Text
  pub indexes : List ℕ
  pub buffered : Bool
  pub infos : List WalSegmentInfo
  pub err : Option Error

-- NewFileWALSegmentIterator
abbrev pub new_file_wal_segment_iterator : Text → List ℕ → FileWalSegmentIterator
new_file_wal_segment_iterator generation indexes = record {
  generation = generation;
  indexes = indexes;
  buffered = false;
  infos = [];
  err = none;
}

-- Close, which is Err.
abbrev pub close : FileWalSegmentIterator → Option Error
close itr = itr.err

module _ (read : ℕ → Result (List WalSegmentInfo)) where
  -- The loop of Next behind the cached segments.
  unfoldable pub load : FileWalSegmentIterator → List ℕ → Bool × FileWalSegmentIterator
  load itr [] = (false, record itr { infos = []; indexes = [] })
  load itr (index ∷ indexes) = elim (read index) [
    | Result.err e ↦ (false, record itr { infos = []; indexes = indexes; err = some e })
    | ok [] ↦ load itr indexes
    | ok (info ∷ infos) ↦ (true, record itr { infos = info ∷ infos; indexes = indexes })
  ]

  -- Next on the cached segments.
  unfoldable pub move : FileWalSegmentIterator → List WalSegmentInfo → Bool × FileWalSegmentIterator
  move itr (_ ∷ info ∷ infos) = (true, record itr { infos = info ∷ infos })
  move itr _ = load itr itr.indexes

  unfoldable pub next : FileWalSegmentIterator → Bool × FileWalSegmentIterator
  next itr = elim itr.err [
    | some e ↦ (false, itr)
    | none ↦ if itr.buffered then (true, record itr { buffered = false }) else move itr itr.infos
  ]

abbrev no_segment : WalSegmentInfo
no_segment = record { generation = []; index = 0; offset = 0; size = 0; created_at = 0 }

abbrev pub head_or : WalSegmentInfo → List WalSegmentInfo → WalSegmentInfo
head_or info [] = info
head_or info (first ∷ _) = first

-- WALSegment
abbrev pub wal_segment : FileWalSegmentIterator → WalSegmentInfo
wal_segment itr = head_or no_segment itr.infos

-- SetErr keeps the first error.
unfoldable pub set_err : Error → FileWalSegmentIterator → FileWalSegmentIterator
set_err e itr = elim itr.err [ some first ↦ itr | none ↦ record itr { err = some e } ]

abbrev last_or : {A : Type 0} → A → List A → A
last_or a [] = a
last_or a (b ∷ rest) = last_or b rest

abbrev push_index : ℕ → FileWalSegmentIterator → FileWalSegmentIterator
push_index index itr = record itr { indexes = itr.indexes ++ index ∷ [] }

abbrev push_info : WalSegmentInfo → FileWalSegmentIterator → FileWalSegmentIterator
push_info info itr = record itr { infos = itr.infos ++ info ∷ [] }

-- Append where indexes are still to be read, the last of them `max`.
unfoldable pub append_index :
    ℕ → WalSegmentInfo → FileWalSegmentIterator → Result (Unit {0}) × FileWalSegmentIterator
append_index max info itr =
    if ltb info.index max
    then (Result.err (message "appended index below max index"), itr)
    else if ltb (max + 1) info.index
    then (Result.err (message "appended index skips index"), itr)
    else if info.index == max + 1
    then (ok tt, push_index info.index itr)
    else (ok tt, itr)

-- Append where none are, and `last` is the last cached segment.
unfoldable pub append_info :
    WalSegmentInfo
    → WalSegmentInfo
    → FileWalSegmentIterator
    → Result (Unit {0}) × FileWalSegmentIterator
append_info last info itr =
    if ltb info.index last.index
    then (Result.err (message "appended index below current index"), itr)
    else if ltb (last.index + 1) info.index
    then (Result.err (message "appended index skips next index"), itr)
    else if info.index == last.index + 1
    then (ok tt, push_index info.index itr)
    else if ltb info.offset last.offset
    then (Result.err (message "appended offset before last offset"), itr)
    else if info.offset == last.offset
    then (Result.err (message "duplicate offset appended"), itr)
    else (ok tt, push_info info itr)

abbrev append_to :
    List ℕ
    → List WalSegmentInfo
    → WalSegmentInfo
    → FileWalSegmentIterator
    → Result (Unit {0}) × FileWalSegmentIterator
append_to (index ∷ indexes) infos info itr = append_index (last_or index indexes) info itr
append_to [] (first ∷ infos) info itr = append_info (last_or first infos) info itr
append_to [] [] info itr = (ok tt, push_info info (record itr { buffered = true }))

-- Append
unfoldable pub append :
    WalSegmentInfo → FileWalSegmentIterator → Result (Unit {0}) × FileWalSegmentIterator
append info itr = elim itr.err [
  | some e ↦ (Result.err e, itr)
  | none ↦
      if not (text_eq itr.generation info.generation)
      then (Result.err (message "generation mismatch"), itr)
      else append_to itr.indexes itr.infos info itr
]
