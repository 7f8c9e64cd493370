-- ===== src/Db/Index/Safe.antt =====
-- That `initShadowWALIndex` does not panic, and the fields it leaves.
use litestream.Prelude.{
  ℕ, ◌≡◌, refl, true, false, Option, none, some, List, [], Error, Result, ok, arith, length, take,
  length-take_of_le, ◌==◌,
}
use litestream.Text.{text_eq}
use litestream.Pos.{Pos}
use litestream.Wal.Bytes.{ByteOrder}
use litestream.Wal.Checksum.{checksum_aligned}
use litestream.Wal.Reader.{read_full, header_byte_order}
use litestream.Db.{Db}
use litestream.Db.Disk.{Lz4, Disk, write_wal_segment}
use litestream.Db.Call.{on_disk}
use litestream.Db.Call.Outcome.{Outcome, Outcome-continue, Outcome-wrap_out, Outcome-of_result}
use litestream.Db.Copy.Safe.{HasPage, HasIndex, copy_to_shadow_wal-Outcome}
use litestream.Db.Index.{
  OsFaults, header_of, first_of, read_wal_header, check_header, start_index, start_from_header,
  init_shadow_wal_index,
}

first_of-length :
    (n : ℕ) (bytes hdr : List ℕ) → first_of (read_full n bytes) ≡ ok hdr → length hdr ≡ n
unfolding read_full
first_of-length n bytes hdr h = ground (arith, length-take_of_le n bytes)

header_of-length :
    (fault : Option Error) (wal : Option (List ℕ)) (hdr : List ℕ)
    → header_of fault wal ≡ ok hdr
    → length hdr ≡ 32
header_of-length fault none hdr h = cc h
header_of-length (some e) (some wal) hdr h = cc h
header_of-length none (some wal) hdr h = first_of-length 32 wal hdr h

pub read_wal_header-length :
    (faults : OsFaults) (disk : Disk) (hdr : List ℕ)
    → read_wal_header faults disk ≡ ok hdr
    → length hdr ≡ 32
unfolding read_wal_header
read_wal_header-length faults disk hdr h = header_of-length faults.read_wal disk.wal hdr h

module _ (n : ℕ) where
  abbrev pub PageOnly : {A : Type 0} → A → Db → Disk → Type 0
  PageOnly a db disk = HasPage n db

  check_header-Outcome :
      (bo : ByteOrder) (hdr : List ℕ) (db : Db) (disk : Disk)
      → length hdr ≡ 32
      → HasPage n db
      → Outcome (HasPage n) PageOnly (check_header bo hdr db disk)
  unfolding check_header
  check_header-Outcome bo hdr db disk k h =
      rw
        (checksum_aligned bo (0, 0) (take 24 hdr)
          (omega (arith, length-take_of_le 24 hdr (omega arith))))
        (Outcome-of_result db disk _ h (λ a e. h))

  on_disk-Outcome :
      {A : Type 0} (f : Disk → Result A × Disk) (db : Db) (disk : Disk)
      → HasPage n db
      → Outcome (HasPage n) PageOnly (on_disk f db disk)
  on_disk-Outcome f db disk h = Outcome-of_result db (f disk).1 (f disk).0 h (λ a e. h)

  module _ (lz4 : Lz4) (faults : OsFaults) (pos : Pos) (g : text_eq pos.generation [] ≡ false) where
    start_from_header-Outcome :
        (hdr : List ℕ) (bo : ByteOrder) (db : Db) (disk : Disk)
        → length hdr ≡ 32
        → HasPage n db
        → Outcome (HasPage n) (λ _. HasIndex n) (start_from_header lz4 faults pos hdr bo db disk)
    unfolding start_from_header
    start_from_header-Outcome hdr bo db disk k h =
        Outcome-continue _ _ (check_header-Outcome bo hdr db disk k h) (λ _ db1 disk1 h1.
          Outcome-continue _ _
            (Outcome-wrap_out _ _ (
              on_disk-Outcome (write_wal_segment faults.segment pos (lz4.compress hdr)) db1 disk1
                h1))
            (λ _ db2 disk2 h2. Outcome-wrap_out _ _ (
              copy_to_shadow_wal-Outcome lz4 faults.copy n (start_index pos hdr bo db2) disk2
                (h2, g, (bo, refl)))))

    pub init_shadow_wal_index-Outcome :
        (db : Db) (disk : Disk)
        → (pos.offset == 0) ≡ true
        → HasPage n db
        → Outcome (HasPage n) (λ _. HasIndex n) (init_shadow_wal_index lz4 faults pos db disk)
    unfolding init_shadow_wal_index
    init_shadow_wal_index-Outcome db disk z h = rw z (
        Outcome-continue _ _
          (Outcome-wrap_out _ _ (
            Outcome-of_result {Q = λ hdr db1 disk1. HasPage n db1 × (length hdr ≡ 32)} db disk
              (read_wal_header faults disk) h
              (λ hdr e. (h, read_wal_header-length faults disk hdr e))))
          (λ hdr db1 disk1 h1.
            Outcome-continue _ _
              (Outcome-of_result {Q = PageOnly} db1 disk1 (header_byte_order hdr) h1.0
                (λ bo e. h1.0))
              (λ bo db2 disk2 h2. start_from_header-Outcome hdr bo db2 disk2 h1.1 h2)))
