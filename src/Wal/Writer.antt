-- ===== src/Wal/Writer.antt =====
-- wal_writer.go: `WALWriter`. The file is the list of the bytes written since Open truncated it.
-- Path and mode, which only Open uses, are left out.
pub mod Layout
pub mod Run
use mathlib.Core.Option
use litestream.Prelude.{
  ℕ, ◌+◌, ◌*◌, ◌%◌, ◌^◌, Bool, Option, none, some, List, [], ◌∷◌, ◌++◌, ◌==◌, not, if◌then◌else◌,
  take, drop, length, replicate, Error, message, Result, ok, err,
}
use litestream.Wal.Bytes.{ByteOrder, little_endian, overwrite_at, put_uint32}
use litestream.Wal.Checksum.{checksum}

abbrev pub wal_header_size : ℕ
wal_header_size = 32

abbrev pub wal_frame_header_size : ℕ
wal_frame_header_size = 24

-- calcWALSize
unfoldable pub calc_wal_size : ℕ → ℕ → ℕ
calc_wal_size page_size n = wal_header_size + (wal_frame_header_size + page_size) * n

pub record WalWriter : Type 0 where
  pub page_size : ℕ
  pub file : List ℕ
  pub buf : List ℕ
  pub chksum : ℕ × ℕ
  pub salt0 : ℕ
  pub salt1 : ℕ

-- What one `Write` of the file system does: all bytes, or some of them and an error.
pub data Write : Type 0 where
  written : Write
  failed : ℕ → Error → Write

-- A call may also panic, at the assertion of Checksum.
pub data Outcome : Type 0 where
  returns : WalWriter → Result (Unit {0}) → Outcome
  panics : Outcome

-- NewWALWriter, then Open.
unfoldable pub new_wal_writer : ℕ → ℕ → ℕ → WalWriter
new_wal_writer page_size salt0 salt1 = record {
  page_size = page_size;
  file = [];
  buf = replicate (wal_frame_header_size + page_size) 0;
  chksum = (0, 0);
  salt0 = salt0;
  salt1 = salt1;
}

unfoldable pub write_file : Write → List ℕ → WalWriter → Outcome
write_file written bytes w = returns (record w { file = w.file ++ bytes }) (ok tt)
write_file (failed n e) bytes w = returns (record w { file = w.file ++ take n bytes }) (err e)

-- Magic (little-endian), file format version, and zeros for what is set afterwards.
abbrev pub header_template : List ℕ
header_template = 0x37 ∷ 0x7f ∷ 0x06 ∷ 0x82 ∷ 0x00 ∷ 0x2d ∷ 0xe2 ∷ 0x18 ∷ replicate 24 0

-- The header before its checksum is stored.
unfoldable pub header_fields : WalWriter → List ℕ
header_fields w =
    put_uint32 20 w.salt1
      (put_uint32 16 w.salt0 (put_uint32 8 (w.page_size % 2 ^ 32) header_template))

unfoldable pub finish_header : Write → WalWriter → List ℕ → Option (ℕ × ℕ) → Outcome
finish_header result w hdr none = panics
finish_header result w hdr (some s) =
    write_file result (put_uint32 28 s.1 (put_uint32 24 s.0 hdr)) (record w { chksum = s })

-- WriteHeader
unfoldable pub write_header : Write → WalWriter → Outcome
write_header result w =
    let hdr = header_fields w in
    finish_header result w hdr (checksum little_endian w.chksum (take 24 hdr))

-- The frame before its checksum is stored.
unfoldable pub frame_fields : WalWriter → ℕ → ℕ → List ℕ → List ℕ
frame_fields w pgno commit page =
    overwrite_at wal_frame_header_size page
      (put_uint32 12 w.salt1 (put_uint32 8 w.salt0 (put_uint32 4 commit (put_uint32 0 pgno w.buf))))

-- Over the frame's first eight bytes, and then over its page.
unfoldable pub frame_checksum : ℕ × ℕ → List ℕ → Option (ℕ × ℕ)
frame_checksum s buf =
    Option.bind (checksum little_endian s (take 8 buf))
      (λ t. checksum little_endian t (drop 24 buf))

unfoldable pub finish_frame : Write → WalWriter → List ℕ → Option (ℕ × ℕ) → Outcome
finish_frame result w buf none = panics
finish_frame result w buf (some s) =
    let frame = put_uint32 20 s.1 (put_uint32 16 s.0 buf) in
    write_file result frame (record w { buf = frame; chksum = s })

-- WriteFrame
unfoldable pub write_frame : Write → ℕ → ℕ → List ℕ → WalWriter → Outcome
write_frame result pgno commit page w =
    if not (length page == w.page_size)
    then returns w (err (message "data size must match page size"))
    else (let buf = frame_fields w pgno commit page in
        finish_frame result w buf (frame_checksum w.chksum buf))
