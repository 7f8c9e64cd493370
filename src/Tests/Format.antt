-- ===== src/Tests/Format.antt =====
-- A WAL of two pages of eight bytes, the second of which commits nothing.
use litestream.Prelude.{ℕ, ◌≡◌, refl, some, List, [], ◌∷◌, ok, arith}
use litestream.Wal.Bytes.{little_endian}
use litestream.Wal.Writer.{WalWriter, returns, new_wal_writer}
use litestream.Wal.Writer.Layout.{IsReady, header_bytes}
use litestream.Wal.Writer.Run.{Page, write_wal, after_header}
use litestream.Wal.Reader.{read_wal_fields}
use litestream.Wal.Reader.RoundTrip.{HasWords, last_frame, read_wal_fields-write_wal}

abbrev pub writer : WalWriter
writer = new_wal_writer 8 100 200

abbrev pub page0 : List ℕ
page0 = 1 ∷ 2 ∷ 3 ∷ 4 ∷ 5 ∷ 6 ∷ 7 ∷ 8 ∷ []

abbrev page1 : List ℕ
page1 = 8 ∷ 7 ∷ 6 ∷ 5 ∷ 4 ∷ 3 ∷ 2 ∷ 1 ∷ []

abbrev pub pages : List Page
pages =
    record { pgno = 1; commit = 2; content = page0 }
    ∷ record { pgno = 2; commit = 0; content = page1 }
    ∷ []

writer-IsReady : IsReady writer
unfolding new_wal_writer
writer-IsReady = record { aligned = refl; sized = refl }

writer-HasWords : HasWords writer
unfolding new_wal_writer
writer-HasWords = record {
  salt0 = omega arith;
  salt1 = omega arith;
  chksum = (omega arith, omega arith);
}

read_wal_fields-write_wal_example :
    (v : WalWriter) × (write_wal pages writer ≡ returns v (ok tt))
    × (read_wal_fields writer.page_size v.file
        ≡ some (
            ok (record {
              salt0 = writer.salt0;
              salt1 = writer.salt1;
              chksum = v.chksum;
              byte_order = little_endian;
              hdr = header_bytes writer;
              frame = last_frame pages (after_header writer) [];
            })))
unfolding new_wal_writer
read_wal_fields-write_wal_example =
    read_wal_fields-write_wal pages writer refl writer-HasWords writer-IsReady (refl, (refl, tt))
