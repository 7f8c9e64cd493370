-- ===== src/Db/Listing.antt =====
-- db.go: `WALSegments`, and what its iterator reads of the shadow WAL.
pub mod InOrder
pub mod Sorted
pub mod Lists
use litestream.Prelude.{
  ℕ, Bool, Option, none, some, List, [], ◌∷◌, map, Error, not_exist, Result, ok, err, ◌>>=◌, length,
}
use litestream.Text.{Text}
use litestream.Pos.{Pos}
use litestream.Client.{WalSegmentInfo, Time}
use litestream.Db.Disk.{Segments, read_segment}
use litestream.Db.Reload.{indexes_of, offsets_of}
use litestream.Files.Listing.{read_indexes}
use litestream.Files.Iterator.{FileWalSegmentIterator, new_file_wal_segment_iterator}

-- What reading the directories of a generation and of an index answers, and the times of the files.
pub record ListAnswers : Type 0 where
  pub read_generation : Option Error
  pub read_index : ℕ → Option Error
  pub times : Pos → Time

abbrev pub size_of : Option (List ℕ) → ℕ
size_of none = 0
size_of (some bytes) = length bytes

abbrev pub pos_at : Text → ℕ → ℕ → Pos
pos_at generation index offset = record { generation = generation; index = index; offset = offset }

module _ (answers : ListAnswers) (generation : Text) (segments : Segments) where
  abbrev pub info_at : ℕ → ℕ → WalSegmentInfo
  info_at index offset = record {
    generation = generation;
    index = index;
    offset = offset;
    size = size_of (read_segment (pos_at generation index offset) segments);
    created_at = answers.times (pos_at generation index offset);
  }

  -- What Next reads of an index.
  unfoldable pub read_shadow_index : ℕ → Result (List WalSegmentInfo)
  read_shadow_index index = elim (answers.read_index index) [
    | some e ↦ err e
    | none ↦ ok (map (info_at index) (offsets_of generation index segments))
  ]

  abbrev pub open_directory : Option Error → Result FileWalSegmentIterator
  open_directory none =
      ok (new_file_wal_segment_iterator generation (indexes_of generation segments))
  open_directory (some not_exist) = ok (new_file_wal_segment_iterator generation [])
  open_directory (some e) = err e

  -- WALSegments
  unfoldable pub wal_segments : Result FileWalSegmentIterator
  wal_segments = open_directory answers.read_generation

  -- What a loop over its iterator sees; an error of Next ends it and is not looked at.
  unfoldable pub listed_segments : Result (List WalSegmentInfo)
  listed_segments = do itr ← wal_segments; ok (read_indexes read_shadow_index itr.indexes).items
