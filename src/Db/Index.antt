-- ===== src/Db/Index.antt =====
-- db.go: `initShadowWALIndex`, and reading the header of the real WAL (litestream.go).
pub mod Safe
use litestream.Prelude.{
  ℕ, ◌+◌, Bool, not, Option, none, some, List, Error, not_exist, message, wrap, Result, ok, err,
  ◌==◌, if◌then◌else◌, length, take, drop,
}
use litestream.Pos.{Pos}
use litestream.Wal.Bytes.{ByteOrder, big_endian, uint32}
use litestream.Wal.Checksum.{checksum}
use litestream.Wal.Writer.{wal_header_size}
use litestream.Wal.Reader.{header_byte_order, read_full}
use litestream.Db.{Db}
use litestream.Db.Disk.{Lz4, Disk, SegmentFaults, write_wal_segment}
use litestream.Db.Copy.{CopyFaults, copy_to_shadow_wal, words_eq}
use litestream.Db.Call.{Call, ◌>>=◌, ◌>>◌, reading, on_disk, on_db, with_error}

-- os.RemoveAll, on one of the directories that a loop removes: its error, and the segments that were
-- gone by then.
pub record RemovalFault : Type 0 where
  pub error : Error
  pub removed : Pos → Bool

-- What the operating system refuses a call: to read the WAL (other than for want of data), to read,
-- write or remove the file with the generation's name, to look at the database file or the WAL, to
-- make a directory; writing a segment; and what it refuses copyToShadowWAL. For the shadow WAL: to read one of
-- the directories that the last segment is looked for in, to open that segment or read it, to read the
-- directory of its index or open a segment there; and to read the directory of all generations or
-- that of a generation's indexes, and to remove one of the directories in them.
pub record OsFaults : Type 0 where
  pub read_wal : Option Error
  pub read_generation : Option Error
  pub write_generation : Option Error
  pub remove_generation : Option Error
  pub stat : Option Error
  pub directory : Option Error
  pub segment : SegmentFaults
  pub copy : CopyFaults
  pub list_segments : Option Error
  pub open_last : Option Error
  pub read_last : Option Error
  pub list_offsets : Option Error
  pub open_segment : Option Error
  pub list_generations : Option Error
  pub remove_generations : Option RemovalFault
  pub list_indexes : Option Error
  pub remove_indexes : Option RemovalFault

abbrev pub first_of : {A B : Type 0} → Result (A × B) → Result A
first_of (err e) = err e
first_of (ok (a, b)) = ok a

abbrev pub header_of : Option Error → Option (List ℕ) → Result (List ℕ)
header_of fault none = err not_exist
header_of (some e) (some wal) = err e
header_of none (some wal) = first_of (read_full wal_header_size wal)

-- readWALHeader on the path of the real WAL.
unfoldable pub read_wal_header : OsFaults → Disk → Result (List ℕ)
read_wal_header faults disk = header_of faults.read_wal disk.wal

abbrev pub header_chksum_of : List ℕ → ℕ × ℕ
header_chksum_of hdr = (uint32 big_endian (drop 24 hdr), uint32 big_endian (drop 28 hdr))

abbrev pub chksum_verdict :
    Option (ℕ × ℕ) → ℕ × ℕ → Db → Disk → Option (Result (Unit {0}) × Db × Disk)
chksum_verdict none stored db disk = none
chksum_verdict (some v) stored db disk =
    some (if words_eq v stored then ok tt else err (message "invalid header checksum"), db, disk)

-- The checksum of the header's first 24 bytes; a panic of Checksum is one of the method.
unfoldable pub check_header : ByteOrder → List ℕ → Call (Unit {0})
check_header bo hdr = chksum_verdict (checksum bo (0, 0) (take 24 hdr)) (header_chksum_of hdr)

-- The cached fields behind the header segment.
abbrev pub start_index : Pos → List ℕ → ByteOrder → Db → Db
start_index pos hdr bo db = record db {
  pos = record pos { offset = pos.offset + length hdr };
  hdr = hdr;
  salt0 = uint32 big_endian (drop 16 hdr);
  salt1 = uint32 big_endian (drop 20 hdr);
  chksum = header_chksum_of hdr;
  byte_order = some bo;
}

module _ (lz4 : Lz4) (faults : OsFaults) where
  -- From the header of the WAL on.
  unfoldable pub start_from_header : Pos → List ℕ → ByteOrder → Call (Unit {0})
  start_from_header pos hdr bo = do
    check_header bo hdr
    with_error (wrap "write shadow wal header")
        (on_disk (write_wal_segment faults.segment pos (lz4.compress hdr)))
    on_db (start_index pos hdr bo)
    with_error (wrap "cannot copy to new shadow wal") (copy_to_shadow_wal lz4 faults.copy)

  -- initShadowWALIndex; `none` is the panic at an offset that is not zero too.
  unfoldable pub init_shadow_wal_index : Pos → Call (Unit {0})
  init_shadow_wal_index pos = if not (pos.offset == 0) then (λ db disk. none) else do
    hdr ← with_error (wrap "read header") (reading (λ db disk. read_wal_header faults disk))
    bo ← reading (λ db disk. header_byte_order hdr)
    start_from_header pos hdr bo
