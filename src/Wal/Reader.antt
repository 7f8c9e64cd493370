-- ===== src/Wal/Reader.antt =====
-- db.go: `headerByteOrder` and `ReadWALFields`, with `io.ReadFull` on the bytes left to read.
pub mod RoundTrip
use litestream.Prelude.{
  ℕ, zero, suc, ◌+◌, ◌≤◌, ◌<◌, ◌≡◌, Bool, Option, none, some, List, [], ◌∷◌, ◌++◌, ◌==◌, leb, ltb,
  if◌then◌else◌, take, drop, length, Error, eof, unexpected_eof, message, wrap, Result, ok, err,
  ◌>>=◌, wrapping, Result-cases, inl, inr, length-drop, arith, refl, replicate, length-append,
  take-append, drop-append, ap, subst, sym, ==_refl,
}
use litestream.Wal.Bytes.{ByteOrder, little_endian, big_endian, uint32}
use litestream.Wal.Writer.{wal_header_size, wal_frame_header_size}

unfoldable pub header_byte_order : List ℕ → Result ByteOrder
header_byte_order hdr =
    let magic = uint32 big_endian hdr in
    if magic == 0x377f0682
    then ok little_endian
    else if magic == 0x377f0683
    then ok big_endian
    else err (message "invalid wal header magic")

-- io.ReadFull into a buffer of `n` bytes: the bytes read, and those that are left.
unfoldable pub read_full : ℕ → List ℕ → Result (List ℕ × List ℕ)
read_full n bytes =
    if leb n (length bytes)
    then ok (take n bytes, drop n bytes)
    else if length bytes == 0
    then err eof
    else err unexpected_eof

-- What ReadWALFields returns; a frame that was not read is `nil`, the empty list.
pub record WalFields : Type 0 where
  pub salt0 : ℕ
  pub salt1 : ℕ
  pub chksum : ℕ × ℕ
  pub byte_order : ByteOrder
  pub hdr : List ℕ
  pub frame : List ℕ

add_frame : WalFields → List ℕ → WalFields
add_frame fields frame = record fields {
  chksum = (uint32 big_endian (drop 16 frame), uint32 big_endian (drop 20 frame));
  frame = frame;
}

-- The end of the data ends the loop; a part of a frame is an error.
end_frames : WalFields → Error → Result WalFields
end_frames fields eof = ok fields
end_frames fields e = err (wrap "short wal frame" e)

-- The loop over the frames of `size` bytes. `none` means that the fuel ran out.
pub read_frames : ℕ → ℕ → List ℕ → WalFields → Option (Result WalFields)
read_frames zero size bytes fields = none
read_frames (suc fuel) size bytes fields = elim (read_full size bytes) [
  | ok (frame, rest) ↦ read_frames fuel size rest (add_frame fields frame)
  | err e ↦ some (end_frames fields e)
]

-- ReadWALFields on the bytes of a reader; one round of fuel for each byte, and one for the end.
pub read_wal_fields : ℕ → List ℕ → Option (Result WalFields)
read_wal_fields page_size bytes = elim (read_full wal_header_size bytes) [
  | err e ↦ some (err (wrap "short wal header" e))
  | ok (hdr, rest) ↦ elim (header_byte_order hdr) [
    | err e ↦ some (err e)
    | ok bo ↦ read_frames (suc (length rest)) (page_size + wal_frame_header_size) rest (record {
      salt0 = uint32 big_endian (drop 16 hdr);
      salt1 = uint32 big_endian (drop 20 hdr);
      chksum = (uint32 big_endian (drop 24 hdr), uint32 big_endian (drop 28 hdr));
      byte_order = bo;
      hdr = hdr;
      frame = [];
    })
  ]
]

pub read_full-append : (xs ys : List ℕ) → read_full (length xs) (xs ++ ys) ≡ ok (xs, ys)
unfolding read_full
read_full-append xs ys = ground (arith, length-append xs ys, take-append xs ys, drop-append xs ys)

read_full_rest :
    (n : ℕ) (bytes : List ℕ) {r : List ℕ × List ℕ}
    → read_full n bytes ≡ ok r
    → length r.1 + n ≡ length bytes
unfolding read_full
read_full_rest n bytes {r} h = ground (arith, length-drop n bytes)

read_frames-total :
    (fuel size : ℕ) (bytes : List ℕ) (fields : WalFields)
    → 0 < size
    → length bytes < fuel
    → (r : Result WalFields) × (read_frames fuel size bytes fields ≡ some r)
unfolding read_frames
read_frames-total zero size bytes fields p h = elim h [ ]
read_frames-total (suc fuel) size bytes fields p h = elim (Result-cases (read_full size bytes)) [
  | inl (e, q) ↦ (end_frames fields e, rw (q, read_frames))
  | inr ((frame, rest), q) ↦
      rw (q, read_frames)
        (read_frames-total fuel size rest (add_frame fields frame) p
          (omega (arith, read_full_rest size bytes q)))
]

-- `ReadWALFields` returns on any data and page size: the fuel is enough.
pub read_wal_fields-total :
    (page_size : ℕ) (bytes : List ℕ)
    → (r : Result WalFields) × (read_wal_fields page_size bytes ≡ some r)
unfolding read_wal_fields
read_wal_fields-total page_size bytes = elim (Result-cases (read_full wal_header_size bytes)) [
  | inl (e, q) ↦ (err (wrap "short wal header" e), rw (q, read_wal_fields))
  | inr ((hdr, rest), q) ↦ elim (Result-cases (header_byte_order hdr)) [
    | inl (e, b) ↦ (err e, rw (q, read_wal_fields, b))
    | inr (bo, b) ↦
        rw (q, read_wal_fields, b)
          (read_frames-total (suc (length rest)) (page_size + wal_frame_header_size) rest _
            (omega arith) (omega arith))
  ]
]
