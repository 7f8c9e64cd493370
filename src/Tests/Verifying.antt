-- ===== src/Tests/Verifying.antt =====
-- `verify` before and after a copy of the WAL of Shadow, under a generation's name of full length.
use litestream.Prelude.{◌≡◌, refl, false, none, some, [], ◌∷◌, ◌++◌, ok, replicate}
use litestream.Text.{Text, text_eq}
use litestream.Pos.{is_zero, pos_eq, to_string}
use litestream.Wal.Bytes.{uint32, uint32_bytes}
use litestream.Wal.Checksum.{checksum, checksum_units}
use litestream.Wal.Reader.{read_full}
use litestream.Wal.Writer.{new_wal_writer}
use litestream.Wal.Writer.Run.{frames_of}
use litestream.Db.{Db}
use litestream.Db.Disk.{Disk, remove_segment, write_wal_segment}
use litestream.Db.Index.{read_wal_header}
use litestream.Db.Copy.{
  copy_to_shadow_wal, copy_wal, after_scan, scan_frames, read_full_file, chain_checksum, add_frame,
  end_scan, flush_scan, keep_segment,
}
use litestream.Db.Verify.{
  SyncInfo, trim_space, current_generation, verify, verify_generation, verify_wal, verify_frame,
}
use litestream.Db.Verify.Kept.{copy-verify}
use litestream.Tests.Shadow.{plain_lz4, no_faults, db, disk, copied_db, copied_disk, first_frame}
use litestream.Tests.Syncing.{os_faults}

abbrev full_generation : Text
full_generation = replicate 16 b'a'

abbrev full_db : Db
full_db = record db { pos = record db.pos { generation = full_generation } }

abbrev full_disk : Disk
full_disk = record disk { generation_file = some (full_generation ++ 0x0a ∷ []) }

abbrev full_copied_db : Db
full_copied_db = record copied_db { pos = record copied_db.pos { generation = full_generation } }

abbrev full_copied_disk : Disk
full_copied_disk = record copied_disk {
  generation_file = full_disk.generation_file;
  segments = (full_db.pos, first_frame) ∷ [];
  position_file = to_string full_db.pos ++ 0x0a ∷ [];
}

abbrev info : SyncInfo
info = record { generation = full_generation; age = some 5; restart = false; reason = none }

verifies : verify os_faults 5 full_db full_disk ≡ ok info
unfolding verify current_generation trim_space verify_generation verify_wal verify_frame
    read_wal_header read_full text_eq uint32 uint32_bytes checksum_units new_wal_writer frames_of
verifies = refl

copies :
    copy_to_shadow_wal plain_lz4 no_faults full_db full_disk
    ≡ some (ok tt, full_copied_db, full_copied_disk)
unfolding copy_to_shadow_wal is_zero pos_eq text_eq copy_wal after_scan scan_frames read_full_file
    uint32_bytes frames_of uint32 new_wal_writer chain_checksum checksum checksum_units add_frame
    end_scan flush_scan keep_segment write_wal_segment remove_segment
copies = refl

copy-verify_example : verify os_faults 5 full_copied_db full_copied_disk ≡ ok info
copy-verify_example =
    copy-verify os_faults plain_lz4 no_faults 5 full_db full_copied_db full_disk full_copied_disk
      info verifies refl copies
