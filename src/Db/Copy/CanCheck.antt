-- ===== src/Db/Copy/CanCheck.antt =====
-- That the loop of `copyToShadowWAL` returns, with checksums that do not panic.
use litestream.Prelude.{
  [], false, ℕ, zero, suc, ◌+◌, ◌%◌, ◌<◌, ◌≡◌, ap, inl, inr, some, List, wrap, Result, ok, err,
  length, length-append, length-take_of_le, length-drop, take, drop, Bool-cases, Option-cases,
  Result-cases, arith,
}
use litestream.Wal.Bytes.{ByteOrder}
use litestream.Wal.Checksum.{checksum_units, checksum_aligned}
use litestream.Text.{text_eq}
use litestream.Pos.{Pos, is_zero, pos_eq}
use litestream.Db.{Db}
use litestream.Db.Copy.{
  Scan, CopyFaults, frame_size, read_full_file, end_scan, chain_checksum, stored_salts,
  stored_chksum, words_eq, add_frame, scan_frames,
}
use litestream.Db.Copy.Scanned.{read_full_file-ok}

pub is_zero-generation : (p : Pos) → text_eq p.generation [] ≡ false → is_zero p ≡ false
unfolding is_zero pos_eq
is_zero-generation p h = ground arith

-- A page of 8-byte units, and a byte order read from a header.
pub record CanCheck (db : Db) : Type 0 where
  pub aligned : db.page_size % 8 ≡ 0
  pub order : ByteOrder
  pub known : db.byte_order ≡ some order

chain_checksum-total :
    (bo : ByteOrder) (s : ℕ × ℕ) (n : ℕ) (frame : List ℕ)
    → n % 8 ≡ 0
    → length frame ≡ n + 24
    → (c : ℕ × ℕ) × (chain_checksum (some bo) s frame ≡ some c)
unfolding chain_checksum
chain_checksum-total bo s n frame h k =
    let first =
      checksum_aligned bo s (take 8 frame)
        (omega (arith, length-take_of_le 8 frame (omega arith))) in
    let second =
      checksum_aligned bo (checksum_units bo s (take 8 frame)) (drop 24 frame)
        (omega (arith, length-drop 24 frame)) in
    (
      checksum_units bo (checksum_units bo s (take 8 frame)) (drop 24 frame),
      rw (first, chain_checksum) second,
    )

module _ (db : Db) (faults : CopyFaults) (can : CanCheck db) where
  pub scan_frames-total :
      (fuel : ℕ) (bytes : List ℕ) (s : Scan)
      → length bytes < fuel
      → (r : Result Scan) × (scan_frames fuel db faults bytes s ≡ some r)
  unfolding scan_frames
  scan_frames-total zero bytes s h = elim h [ ]
  scan_frames-total (suc fuel) bytes s h =
      elim (Result-cases (read_full_file faults.read (frame_size db) bytes)) [
        | inl (x, q) ↦ (end_scan s x, rw (q, scan_frames))
        | inr ((frame, rest), q) ↦
            elim (Bool-cases (words_eq (stored_salts frame) (db.salt0, db.salt1))) [
              | inr bad ↦ (ok s, rw (q, scan_frames, bad))
              | inl good ↦
                  let (size, split) =
                    read_full_file-ok faults.read (frame_size db) bytes frame rest q in
                  let (c, sum) =
                    chain_checksum-total can.order s.chksum db.page_size frame can.aligned size in
                  let sum' : chain_checksum db.byte_order s.chksum frame ≡ some c =
                    rw can.known sum in
                  elim (Bool-cases (words_eq c (stored_chksum frame))) [
                    | inr bad ↦ (ok s, rw (q, scan_frames, good, sum', bad))
                    | inl fits ↦ elim (Option-cases (faults.write (length s.temp))) [
                      | inr (x, fault) ↦ (
                        err (wrap "write temp shadow wal segment" x),
                        rw (q, scan_frames, good, sum', fits, fault),
                      )
                      | inl fine ↦
                          rw (q, scan_frames, good, sum', fits, fine)
                            (scan_frames-total fuel rest (add_frame s frame c)
                              (omega (arith, ap length split, length-append frame rest)))
                    ]
                  ]
            ]
      ]
