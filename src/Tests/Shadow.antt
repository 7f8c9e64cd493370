-- ===== src/Tests/Shadow.antt =====
-- The shadow WAL of a database with pages of eight bytes: one transaction is complete, and the
-- frame behind it belongs to an open one.
use litestream.Prelude.{ℕ, ◌≡◌, refl, none, some, List, [], ◌∷◌, ◌++◌, message, Result, ok, concat}
use litestream.Text.{Text, text_eq}
use litestream.Pos.{is_zero, pos_eq, to_string}
use litestream.Wal.Bytes.{little_endian, uint32, uint32_bytes}
use litestream.Wal.Checksum.{checksum, checksum_units}
use litestream.Wal.Writer.{WalWriter, new_wal_writer}
use litestream.Wal.Writer.Layout.{header_bytes, header_chksum, next_frame, next_chksum}
use litestream.Wal.Writer.Run.{after_header, frames_of}
use litestream.Db.{Db}
use litestream.Db.Disk.{Lz4, Disk, no_segment_faults, remove_segment, write_wal_segment}
use litestream.Db.Copy.{
  CopyFaults, copy_to_shadow_wal, copy_wal, after_scan, scan_frames, read_full_file, chain_checksum,
  add_frame, end_scan, flush_scan, keep_segment,
}
use litestream.Db.Copy.Segment.{Copied, copy_to_shadow_wal-Copied, copy_to_shadow_wal-total}
use litestream.Tests.Format.{writer, pages, page0}

abbrev pub plain_lz4 : Lz4
plain_lz4 = record { compress = λ b. b; decompress = λ b. ok b; decompress-compress = λ b. refl }

abbrev pub generation : Text
generation = b'a' ∷ b'1' ∷ []

abbrev start : WalWriter
start = after_header writer

abbrev pub first_frame : List ℕ
first_frame = next_frame start 1 2 page0

abbrev pub db : Db
db = record {
  pos = record { generation = generation; index = 1; offset = 32 };
  page_size = 8;
  hdr = header_bytes writer;
  frame = [];
  salt0 = 100;
  salt1 = 200;
  chksum = header_chksum writer;
  byte_order = some little_endian;
  min_checkpoint_page_n = 1000;
  max_checkpoint_page_n = 10000;
  shadow_retention_n = 32;
  checkpoint_interval = 60;
}

abbrev pub disk : Disk
disk = record {
  wal = some (header_bytes writer ++ concat (frames_of pages start));
  segments = [];
  position_file = [];
  generation_file = some generation;
}

abbrev pub no_faults : CopyFaults
no_faults = record {
  open_wal = none;
  read = none;
  write = λ n. none;
  segment = no_segment_faults;
  finish = none;
}

abbrev pub copied_db : Db
copied_db = record db {
  pos = record db.pos { offset = 64 };
  chksum = next_chksum start 1 2 page0;
  frame = first_frame;
}

abbrev pub copied_disk : Disk
copied_disk = record disk {
  segments = (db.pos, first_frame) ∷ [];
  position_file = to_string db.pos ++ 0x0a ∷ [];
}

copies : copy_to_shadow_wal plain_lz4 no_faults db disk ≡ some (ok tt, copied_db, copied_disk)
unfolding copy_to_shadow_wal is_zero pos_eq text_eq copy_wal after_scan scan_frames read_full_file
    uint32_bytes frames_of uint32 new_wal_writer chain_checksum checksum checksum_units add_frame
    end_scan flush_scan keep_segment write_wal_segment remove_segment
copies = refl

copy_to_shadow_wal-Copied_example : Copied plain_lz4 no_faults db disk copied_db copied_disk
copy_to_shadow_wal-Copied_example = copy_to_shadow_wal-Copied plain_lz4 no_faults db disk copies

copy_to_shadow_wal-total_example :
    (r : Result (Unit {0}) × Db × Disk) × (copy_to_shadow_wal plain_lz4
        (record no_faults { read = some (message "input/output error") })
        db
        disk
      ≡ some r)
unfolding is_zero pos_eq text_eq
copy_to_shadow_wal-total_example =
    copy_to_shadow_wal-total plain_lz4
      (record no_faults { read = some (message "input/output error") }) db disk refl
      (record { aligned = refl; order = little_endian; known = refl })
