-- ===== src/Db/Reload.antt =====
-- db.go: `invalidate`, which fills the cached fields from the shadow WAL's files, and `WALReader`.
pub mod Safe
use litestream.Prelude.{
  ℕ, ◌+◌, Bool, Option, none, some, List, [], ◌∷◌, ◌++◌, Error, wrap, Result, ok, err, ◌==◌, ltb,
  leb, ◌&&◌, if◌then◌else◌, length, take, map, message, not_exist,
}
use litestream.Prelude
use litestream.Text.{Text, text_eq}
use litestream.Pos.{Pos, is_zero, zero_pos}
use litestream.Wal.Reader.{WalFields, read_wal_fields}
use litestream.Db.{Db, reset}
use litestream.Db.Disk.{Lz4, Disk, Segments, wal_segment_reader, read_segment}
use litestream.Db.Index.{OsFaults}
use litestream.Db.Verify.{current_generation}
use litestream.Db.Clean.{clear_generation}
use litestream.Db.Call.{Call, ◌>>=◌, ◌>>◌, reading, on_disk, on_db, with_error, resetting}

-- sort.Ints and sort.Slice, on a list without duplicates: the names in a directory.
unfoldable pub insert_sorted : ℕ → List ℕ → List ℕ
insert_sorted n [] = n ∷ []
insert_sorted n (m ∷ sorted) =
    let rest = insert_sorted n sorted in
    if n == m then m ∷ sorted else if ltb n m then n ∷ m ∷ sorted else m ∷ rest

-- The directories of a generation's indexes, sorted.
unfoldable pub indexes_of : Text → Segments → List ℕ
indexes_of generation [] = []
indexes_of generation ((p, _) ∷ segments) =
    let rest = indexes_of generation segments in
    if text_eq p.generation generation then insert_sorted p.index rest else rest

-- walSegmentOffsetsByIndex, where the directory is there.
unfoldable pub offsets_of : Text → ℕ → Segments → List ℕ
offsets_of generation index [] = []
offsets_of generation index ((p, _) ∷ segments) =
    let rest = offsets_of generation index segments in
    if text_eq p.generation generation && p.index == index
    then insert_sorted p.offset rest
    else rest

unfoldable pub wal_segment_offsets_by_index : Text → ℕ → Segments → Result (List ℕ)
wal_segment_offsets_by_index generation index segments =
    elim (offsets_of generation index segments) [
      | [] ↦ err not_exist
      | (offset ∷ offsets) ↦ ok (offset ∷ offsets)
    ]

-- walSegments: what its iterator yields.
abbrev pub segments_of : Text → Segments → List ℕ → List Pos
segments_of generation segments [] = []
segments_of generation segments (index ∷ indexes) =
    map (λ offset. record { generation = generation; index = index; offset = offset })
      (offsets_of generation index segments)
    ++ segments_of generation segments indexes

abbrev pub last_of : Pos → List Pos → Pos
last_of pos [] = pos
last_of pos (next ∷ rest) = last_of next rest

unfoldable pub last_segment : Text → Segments → Pos
last_segment generation segments =
    last_of zero_pos (segments_of generation segments (indexes_of generation segments))

module _ (lz4 : Lz4) where
  -- The contents of an index from the given offsets on; a damaged segment is an error of the whole.
  unfoldable pub read_offsets : Text → ℕ → Segments → List ℕ → Result (List ℕ)
  read_offsets generation index segments [] = ok []
  read_offsets generation index segments (offset ∷ offsets) =
      let rest = read_offsets generation index segments offsets in
      Prelude.◌>>=◌
        (elim (read_segment (record { generation = generation; index = index; offset = offset })
          segments) [ none ↦ err not_exist | some file ↦ lz4.decompress file ])
        (λ bytes. Prelude.◌>>=◌ rest (λ more. ok (bytes ++ more)))

  -- WALReader
  unfoldable pub wal_reader : OsFaults → Text → ℕ → Segments → Result (List ℕ)
  wal_reader faults generation index segments =
      Prelude.◌>>=◌
        (Prelude.wrapping "wal segment offsets" (
          Prelude.◌>>◌ (Prelude.failing faults.list_offsets)
            (wal_segment_offsets_by_index generation index segments)))
        (λ offsets.
          Prelude.◌>>◌ (Prelude.failing faults.open_segment)
            (read_offsets generation index segments offsets))

  abbrev pub end_of : Pos → Result (List ℕ) → Result Pos
  end_of pos (err e) = err e
  end_of pos (ok bytes) = ok (record pos { offset = pos.offset + length bytes })

  abbrev pub unpacked : OsFaults → Result (List ℕ) → Result (List ℕ)
  unpacked faults (err e) = err (wrap "cannot read last wal segment" e)
  unpacked faults (ok file) = Prelude.◌>>◌ (Prelude.failing faults.read_last) (lz4.decompress file)

  abbrev pub opened : OsFaults → Result (List ℕ) → Result (List ℕ)
  opened faults r = Prelude.◌>>◌ (Prelude.failing faults.open_last) r

  abbrev pub position_after : OsFaults → Disk → Pos → Result Pos
  position_after faults disk pos =
      if is_zero pos
      then ok zero_pos
      else end_of pos (unpacked faults (opened faults (wal_segment_reader pos disk)))

  abbrev pub listed_position : OsFaults → Disk → Text → Option Error → Result Pos
  listed_position faults disk generation (some e) = err e
  listed_position faults disk generation none =
      position_after faults disk (last_segment generation disk.segments)

  abbrev pub position_in : OsFaults → Disk → Result Text → Result Pos
  position_in faults disk (err e) = err e
  position_in faults disk (ok generation) =
      if text_eq generation []
      then ok zero_pos
      else listed_position faults disk generation faults.list_segments

  -- invalidatePos, on the fields that `reset` left.
  unfoldable pub read_pos : OsFaults → Disk → Result Pos
  read_pos faults disk = position_in faults disk (current_generation faults disk)

  -- The fields that invalidateChecksum assigns.
  abbrev pub with_fields : WalFields → Db → Db
  with_fields fields db = record db {
    salt0 = fields.salt0;
    salt1 = fields.salt1;
    chksum = fields.chksum;
    byte_order = some fields.byte_order;
    hdr = fields.hdr;
    frame = fields.frame;
  }

  abbrev pub assign_fields : Option (Result WalFields) → Call (Unit {0})
  assign_fields none db disk = none
  assign_fields (some (err e)) db disk = some (err (wrap "calc checksum" e), db, disk)
  assign_fields (some (ok fields)) db disk = some (ok tt, with_fields fields db, disk)

  -- invalidateChecksum; `none` is a panic, at the assertion on a zero position.
  unfoldable pub invalidate_checksum : OsFaults → Call (Unit {0})
  invalidate_checksum faults db disk =
      if is_zero db.pos
      then none
      else elim (wal_reader faults db.pos.generation db.pos.index disk.segments) [
        | err e ↦ some (err (wrap "cannot read last wal" e), db, disk)
        | ok bytes ↦ assign_fields (read_wal_fields db.page_size (take db.pos.offset bytes)) db disk
      ]

  -- What follows in invalidate once the position is known.
  unfoldable pub invalidate_from : OsFaults → Pos → Call (Unit {0})
  invalidate_from faults pos =
      if is_zero pos
      then with_error (wrap "clear generation")
          (on_disk (clear_generation faults.remove_generation))
      else with_error (wrap "cannot determine last salt/checksum") (invalidate_checksum faults)

  unfoldable pub invalidate_fields : OsFaults → Call (Unit {0})
  invalidate_fields faults = do
    on_db reset
    pos ← with_error (wrap "cannot determine pos") (reading (λ db disk. read_pos faults disk))
    on_db (λ db. record db { pos = pos })
    invalidate_from faults pos

  -- invalidate
  unfoldable pub invalidate : OsFaults → Call (Unit {0})
  invalidate faults = resetting (invalidate_fields faults)
