-- ===== src/Db/Copy.antt =====
-- db.go: `copyToShadowWAL`, the copy of committed frames from the real WAL into a shadow segment.
pub mod Frames
pub mod Scanned
pub mod CanCheck
pub mod Segment
pub mod Safe
use litestream.Prelude.{
  ℕ, zero, suc, ◌+◌, ◌-◌, ◌≡◌, Bool, true, false, ◌&&◌, not, Option, none, some, List, [], ◌∷◌,
  ◌++◌, Error, eof, unexpected_eof, not_exist, wrap, Result, ok, err, ◌==◌, leb, if◌then◌else◌,
  take, drop, length, replicate, failing, ◌>>=◌, ◌>>◌, wrapping,
}
use litestream.Text.{text_eq}
use litestream.Pos.{Pos, pos_eq, is_zero}
use litestream.Wal.Bytes.{ByteOrder, big_endian, uint32}
use litestream.Wal.Checksum.{checksum}
use litestream.Wal.Writer.{wal_frame_header_size}
use litestream.Db.{Db}
use litestream.Db.Disk.{Lz4, Disk, SegmentFaults, write_wal_segment}

-- What the file system refuses: opening the WAL, creating the temporary file or seeking, a read
-- behind the last complete frame, a write to the temporary file when it has some size, the
-- segment's file, and closing or removing the temporary file at the end.
pub record CopyFaults : Type 0 where
  pub open_wal : Option Error
  pub read : Option Error
  pub write : ℕ → Option Error
  pub segment : SegmentFaults
  pub finish : Option Error

-- The variables of the loop: the position, the running checksum, the temporary file, and the high
-- water mark.
pub record Scan : Type 0 where
  pub pos : Pos
  pub chksum : ℕ × ℕ
  pub temp : List ℕ
  pub hwm_pos : Pos
  pub hwm_chksum : ℕ × ℕ
  pub hwm_frame : List ℕ

abbrev pub frame_size : Db → ℕ
frame_size db = db.page_size + wal_frame_header_size

abbrev pub start_scan : Db → Scan
start_scan db = record {
  pos = db.pos;
  chksum = db.chksum;
  temp = [];
  hwm_pos = db.pos;
  hwm_chksum = db.chksum;
  hwm_frame = replicate (frame_size db) 0;
}

-- io.ReadFull from a file that may refuse to be read on.
unfoldable pub read_full_file : Option Error → ℕ → List ℕ → Result (List ℕ × List ℕ)
read_full_file fault n bytes =
    if leb n (length bytes) then ok (take n bytes, drop n bytes) else elim fault [
      | some e ↦ err e
      | none ↦ if length bytes == 0 then err eof else err unexpected_eof
    ]

unfoldable pub end_scan : Scan → Error → Result Scan
end_scan s eof = ok s
end_scan s unexpected_eof = ok s
end_scan s e = err (wrap "read wal" e)

-- The checksum over the frame's first eight bytes and its data; `none` is a panic, which a
-- missing byte order causes too.
unfoldable pub chain_checksum : Option ByteOrder → ℕ × ℕ → List ℕ → Option (ℕ × ℕ)
chain_checksum none s frame = none
chain_checksum (some bo) s frame = elim (checksum bo s (take 8 frame)) [
  | none ↦ none
  | some t ↦ checksum bo t (drop 24 frame)
]

abbrev pub stored_salts : List ℕ → ℕ × ℕ
stored_salts frame = (uint32 big_endian (drop 8 frame), uint32 big_endian (drop 12 frame))

abbrev pub stored_chksum : List ℕ → ℕ × ℕ
stored_chksum frame = (uint32 big_endian (drop 16 frame), uint32 big_endian (drop 20 frame))

-- The database size after a commit; zero in a frame that does not end a transaction.
abbrev pub new_db_size : List ℕ → ℕ
new_db_size frame = uint32 big_endian (drop 4 frame)

abbrev pub words_eq : ℕ × ℕ → ℕ × ℕ → Bool
words_eq a b = a.0 == b.0 && a.1 == b.1

unfoldable pub add_frame : Scan → List ℕ → ℕ × ℕ → Scan
add_frame s frame c =
    let pos = record s.pos { offset = s.pos.offset + length frame } in
    let s' = record s { pos = pos; chksum = c; temp = s.temp ++ frame } in
    if not (new_db_size frame == 0)
    then record s' { hwm_pos = pos; hwm_chksum = c; hwm_frame = frame }
    else s'

-- The loop, on the bytes of the WAL from the position on. `none` is a panic, or fuel that ran out.
unfoldable pub scan_frames : ℕ → Db → CopyFaults → List ℕ → Scan → Option (Result Scan)
scan_frames zero db faults bytes s = none
scan_frames (suc fuel) db faults bytes s = elim (read_full_file faults.read (frame_size db) bytes) [
  | err e ↦ some (end_scan s e)
  | ok (frame, rest) ↦ elim (words_eq (stored_salts frame) (db.salt0, db.salt1)) [
    | false ↦ some (ok s)
    | true ↦ elim (chain_checksum db.byte_order s.chksum frame) [
      | none ↦ none
      | some c ↦ elim (words_eq c (stored_chksum frame)) [
        | false ↦ some (ok s)
        | true ↦ elim (faults.write (length s.temp)) [
          | some e ↦ some (err (wrap "write temp shadow wal segment" e))
          | none ↦ scan_frames fuel db faults rest (add_frame s frame c)
        ]
      ]
    ]
  ]
]

-- The position & checksum are updated on success, before the temporary file is closed and removed.
unfoldable pub keep_segment :
    CopyFaults → Db → Scan → Result (Unit {0}) × Disk → Result (Unit {0}) × Db × Disk
keep_segment faults db s (err e, disk) = (err (wrap "write wal segment" e), db, disk)
keep_segment faults db s (ok _, disk) = (
  failing faults.finish,
  record db { pos = s.hwm_pos; chksum = s.hwm_chksum; frame = s.hwm_frame },
  disk,
)

module _ (lz4 : Lz4) where
  -- After the loop: the first bytes of the temporary file, up to the high water mark, become a
  -- segment at the old position.
  unfoldable pub flush_scan : CopyFaults → Db → Disk → Scan → Result (Unit {0}) × Db × Disk
  flush_scan faults db disk s =
      if pos_eq db.pos s.hwm_pos
      then (ok tt, db, disk)
      else (let wal_byte_n = s.hwm_pos.offset - db.pos.offset in
          let bytes = lz4.compress (take wal_byte_n s.temp) in
          keep_segment faults db s (write_wal_segment faults.segment db.pos bytes disk))

  unfoldable pub after_scan :
      CopyFaults → Db → Disk → Option (Result Scan) → Option (Result (Unit {0}) × Db × Disk)
  after_scan faults db disk none = none
  after_scan faults db disk (some (err e)) = some (err e, db, disk)
  after_scan faults db disk (some (ok s)) = some (flush_scan faults db disk s)

  -- The rest of the function, on what opening the WAL finds. The name of the temporary file is in the
  -- directory of the generation, which panics without a name.
  unfoldable pub copy_wal :
      CopyFaults → Db → Disk → Option (List ℕ) → Option (Result (Unit {0}) × Db × Disk)
  copy_wal faults db disk none = some (err not_exist, db, disk)
  copy_wal faults db disk (some wal) = elim faults.open_wal [
    | some e ↦ some (err e, db, disk)
    | none ↦ elim (text_eq db.pos.generation []) [
      | true ↦ none
      | false ↦
          let bytes = drop db.pos.offset wal in
          after_scan faults db disk
            (scan_frames (suc (length bytes)) db faults bytes (start_scan db))
    ]
  ]

  -- copyToShadowWAL; `none` is a panic, at the assertions on the position too.
  unfoldable pub copy_to_shadow_wal :
      CopyFaults → Db → Disk → Option (Result (Unit {0}) × Db × Disk)
  copy_to_shadow_wal faults db disk =
      if is_zero db.pos then none else copy_wal faults db disk disk.wal
