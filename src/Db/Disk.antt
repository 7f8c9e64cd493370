-- ===== src/Db/Disk.antt =====
-- The files that db.go uses: the real WAL, the shadow WAL's segment files by position, the
-- position file and the file that names the current generation. LZ4 is a library: a section parameter with the law that the code relies on.
use litestream.Prelude.{
  ℕ, ◌≡◌, false, Option, none, some, List, [], ◌∷◌, ◌++◌, Error, not_exist, message, wrap, Result,
  ok, err, if◌then◌else◌, arith,
}
use litestream.Text.{Text, text_eq}
use litestream.Pos.{Pos, pos_eq, to_string}
use litestream.Pos.Order.{pos_eq_iff}

-- `lz4.NewWriter` and `lz4.NewReader` on whole contents; reading may find damaged data.
pub record Lz4 : Type 0 where
  pub compress : List ℕ → List ℕ
  pub decompress : List ℕ → Result (List ℕ)
  pub decompress-compress : (b : List ℕ) → decompress (compress b) ≡ ok b

-- The newest segment file first.
abbrev pub Segments : Type 0
Segments = List (Pos × List ℕ)

pub record Disk : Type 0 where
  pub wal : Option (List ℕ)
  pub segments : Segments
  pub position_file : Text
  pub generation_file : Option Text

unfoldable pub read_segment : Pos → Segments → Option (List ℕ)
read_segment p [] = none
read_segment p ((q, b) ∷ segments) = if pos_eq q p then some b else read_segment p segments

unfoldable pub remove_segment : Pos → Segments → Segments
remove_segment p [] = []
remove_segment p ((q, b) ∷ segments) =
    let rest = remove_segment p segments in if pos_eq q p then rest else (q, b) ∷ rest

-- What fails: a call up to the rename of the temporary file, or the write of the position file.
pub record SegmentFaults : Type 0 where
  pub file : Option Error
  pub position : Option Error

abbrev pub no_segment_faults : SegmentFaults
no_segment_faults = record { file = none; position = none }

-- DB.writeWALSegment, with DB.writePositionFile behind it. A rename replaces an older file.
unfoldable pub write_wal_segment : SegmentFaults → Pos → List ℕ → Disk → Result (Unit {0}) × Disk
unfolding remove_segment
write_wal_segment faults pos bytes disk =
    if text_eq pos.generation []
    then (err (message "generation required"), disk)
    else elim faults.file [
      | some e ↦ (err e, disk)
      | none ↦
          let renamed = record disk {
            segments = (pos, bytes) ∷ remove_segment pos disk.segments;
          } in
          elim faults.position [
            | some e ↦ (err (wrap "write position file" e), renamed)
            | none ↦ (ok tt, record renamed { position_file = to_string pos ++ 0x0a ∷ [] })
          ]
    ]

-- DB.WALSegmentReader
unfoldable pub wal_segment_reader : Pos → Disk → Result (List ℕ)
wal_segment_reader pos disk =
    if text_eq pos.generation []
    then err (message "generation required")
    else elim (read_segment pos disk.segments) [ none ↦ err not_exist | some b ↦ ok b ]

read_segment-remove_segment :
    (p q : Pos) (segments : Segments)
    → read_segment q (remove_segment p segments)
      ≡ (if pos_eq p q then none else read_segment q segments)
unfolding read_segment remove_segment
read_segment-remove_segment p q [] = ground arith
read_segment-remove_segment p q ((r, b) ∷ segments) = ground (
  arith,
  read_segment-remove_segment p q segments,
  pos_eq_iff r p,
  pos_eq_iff r q,
  pos_eq_iff p q,
)

-- For positions with a generation and no refusal by the file system: after `writeWALSegment` a
-- reader at its position gets what was written, and a reader at another position what it got before.
pub wal_segment_reader-write_wal_segment :
    (p q : Pos) (bytes : List ℕ) (disk : Disk)
    → text_eq p.generation [] ≡ false
    → text_eq q.generation [] ≡ false
    → let disk' = (write_wal_segment no_segment_faults p bytes disk).1 in
      wal_segment_reader q disk' ≡ (if pos_eq p q then ok bytes else wal_segment_reader q disk)
unfolding wal_segment_reader write_wal_segment read_segment
wal_segment_reader-write_wal_segment p q bytes disk h k =
    rw (h, k) (ground (arith, read_segment-remove_segment p q disk.segments))
