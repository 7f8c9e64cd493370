-- ===== src/Wal/Writer/Layout.antt =====
-- What the writer's buffer holds when it is written: the fields of a frame in their order, the
-- checksum over all that precedes them in SQLite's order.
use mathlib.Core.Option
use litestream.Prelude.{
  ℕ, ◌+◌, ◌%◌, ◌^◌, ◌≡◌, refl, ap, ◌∙◌, some, List, [], ◌∷◌, ◌++◌, arith, ==_iff, length, take,
  drop, replicate,
}
use litestream.Wal.Bytes.{
  ByteOrder, little_endian, uint32_bytes, overwrite, overwrite_at, put_uint32,
}
use litestream.Wal.Checksum.{checksum_units, checksum_aligned}
use litestream.Wal.Writer.{
  WalWriter, Write, write_file, write_frame, write_header, finish_frame, frame_fields,
  frame_checksum, finish_header, header_fields,
}

-- A frame: its header of 24 bytes and its page.
abbrev pub frame_bytes : ℕ → ℕ → ℕ → ℕ → ℕ × ℕ → List ℕ → List ℕ
frame_bytes pgno commit salt0 salt1 s page =
    uint32_bytes pgno
    ++ (uint32_bytes commit
        ++ (uint32_bytes salt0
            ++ (uint32_bytes salt1 ++ (uint32_bytes s.0 ++ (uint32_bytes s.1 ++ page)))))

overwrite_all : (page d : List ℕ) → length page ≡ length d → overwrite page d ≡ page
unfolding overwrite
overwrite_all [] [] h = refl
overwrite_all [] (x ∷ d) h = absurd (omega arith)
overwrite_all (p ∷ page) [] h = absurd (omega arith)
overwrite_all (p ∷ page) (x ∷ d) h = ap (◌++◌ (p ∷ [])) (overwrite_all page d (omega arith))

-- The buffer before the checksum is stored: eight old bytes stand in its place.
abbrev filled : ℕ → ℕ → ℕ → ℕ → List ℕ → List ℕ → List ℕ
filled pgno commit salt0 salt1 page buf =
    overwrite_at 24 page
      (put_uint32 12 salt1 (put_uint32 8 salt0 (put_uint32 4 commit (put_uint32 0 pgno buf))))

module _ (pgno commit salt0 salt1 : ℕ) (page : List ℕ) where
  filled_lem :
      (buf : List ℕ)
      → length buf ≡ 24 + length page
      → (old : List ℕ) × (length old ≡ 8)
        × (filled pgno commit salt0 salt1 page buf
            ≡ uint32_bytes pgno
              ++ (uint32_bytes commit
                  ++ (uint32_bytes salt0 ++ (uint32_bytes salt1 ++ (old ++ page)))))
  unfolding put_uint32 overwrite_at uint32_bytes
  filled_lem
        (a ∷ b ∷ c ∷ d ∷ e ∷ f ∷ g ∷ h ∷ i ∷ j ∷ k ∷ l ∷ m ∷ n ∷ o ∷ p ∷ x0 ∷ x1 ∷ x2 ∷ x3 ∷ x4 ∷ x5
          ∷ x6 ∷ x7 ∷ rest)
        q =
      (
        x0 ∷ x1 ∷ x2 ∷ x3 ∷ x4 ∷ x5 ∷ x6 ∷ x7 ∷ [],
        refl,
        ap
            (λ r.
              uint32_bytes pgno
              ++ (uint32_bytes commit
                  ++ (uint32_bytes salt0
                      ++ (uint32_bytes salt1
                          ++ ((x0 ∷ x1 ∷ x2 ∷ x3 ∷ x4 ∷ x5 ∷ x6 ∷ x7 ∷ []) ++ r)))))
            (overwrite_all page rest (omega arith)),
      )
  filled_lem _ q = absurd (omega arith)

  store_lem :
      (c0 c1 : ℕ) (old : List ℕ)
      → length old ≡ 8
      → put_uint32 20 c1 (
          put_uint32 16 c0 (
            uint32_bytes pgno
            ++ (uint32_bytes commit
                ++ (uint32_bytes salt0 ++ (uint32_bytes salt1 ++ (old ++ page))))))
        ≡ frame_bytes pgno commit salt0 salt1 (c0, c1) page
  unfolding put_uint32 overwrite_at uint32_bytes
  store_lem c0 c1 (x0 ∷ x1 ∷ x2 ∷ x3 ∷ x4 ∷ x5 ∷ x6 ∷ x7 ∷ []) q = refl
  store_lem c0 c1 _ q = absurd (omega arith)

-- SQLite's checksum of a frame: over the first eight bytes of its header and over its page.
abbrev pub frame_checksum_units : ByteOrder → ℕ × ℕ → ℕ → ℕ → List ℕ → ℕ × ℕ
frame_checksum_units bo s pgno commit page =
    checksum_units bo (checksum_units bo s (uint32_bytes pgno ++ uint32_bytes commit)) page

abbrev unstored : ℕ → ℕ → ℕ → ℕ → List ℕ → List ℕ → List ℕ
unstored pgno commit salt0 salt1 old page =
    uint32_bytes pgno
    ++ (uint32_bytes commit ++ (uint32_bytes salt0 ++ (uint32_bytes salt1 ++ (old ++ page))))

-- A writer whose buffer has the size that NewWALWriter gives it.
pub record IsReady (w : WalWriter) : Type 0 where
  pub aligned : w.page_size % 8 ≡ 0
  pub sized : length w.buf ≡ 24 + w.page_size

take_8 :
    (p c : ℕ) (r : List ℕ)
    → take 8 (uint32_bytes p ++ (uint32_bytes c ++ r)) ≡ uint32_bytes p ++ uint32_bytes c
unfolding uint32_bytes
take_8 p c r = refl

drop_24 :
    (pgno commit salt0 salt1 : ℕ) (old page : List ℕ)
    → length old ≡ 8
    → drop 24 (
        uint32_bytes pgno
        ++ (uint32_bytes commit ++ (uint32_bytes salt0 ++ (uint32_bytes salt1 ++ (old ++ page)))))
      ≡ page
unfolding uint32_bytes
drop_24 pgno commit salt0 salt1 (x0 ∷ x1 ∷ x2 ∷ x3 ∷ x4 ∷ x5 ∷ x6 ∷ x7 ∷ []) page q = refl
drop_24 pgno commit salt0 salt1 _ page q = absurd (omega arith)

aligned_8 : (p c : ℕ) → length (uint32_bytes p ++ uint32_bytes c) % 8 ≡ 0
unfolding uint32_bytes
aligned_8 p c = refl

frame_checksum_lem :
    (pgno commit salt0 salt1 : ℕ) (s : ℕ × ℕ) (old page : List ℕ)
    → length old ≡ 8
    → length page % 8 ≡ 0
    → frame_checksum s (unstored pgno commit salt0 salt1 old page)
      ≡ some (frame_checksum_units little_endian s pgno commit page)
unfolding frame_checksum Option.bind
frame_checksum_lem pgno commit salt0 salt1 s old page eight aligned =
    rw
      (
        take_8 pgno commit (uint32_bytes salt0 ++ (uint32_bytes salt1 ++ (old ++ page))),
        checksum_aligned little_endian s (uint32_bytes pgno ++ uint32_bytes commit)
            (aligned_8 pgno commit),
        drop_24 pgno commit salt0 salt1 old page eight,
      )
      (checksum_aligned little_endian _ page aligned)

module _ (w : WalWriter) (pgno commit : ℕ) (page : List ℕ) where
  abbrev pub next_chksum : ℕ × ℕ
  next_chksum = frame_checksum_units little_endian w.chksum pgno commit page

  abbrev pub next_frame : List ℕ
  next_frame = frame_bytes pgno commit w.salt0 w.salt1 next_chksum page

  write_frame-finish :
      (result : Write) (old : List ℕ)
      → length page ≡ w.page_size
      → filled pgno commit w.salt0 w.salt1 page w.buf
        ≡ unstored pgno commit w.salt0 w.salt1 old page
      → let buf = unstored pgno commit w.salt0 w.salt1 old page in
        write_frame result pgno commit page w
        ≡ finish_frame result w buf (frame_checksum w.chksum buf)
  unfolding write_frame frame_fields
  write_frame-finish result old fits e = rw ((==_iff (length page) w.page_size).1 fits, e)

  finish_frame-write :
      (result : Write) (old : List ℕ)
      → length old ≡ 8
      → finish_frame result w (unstored pgno commit w.salt0 w.salt1 old page) (some next_chksum)
        ≡ write_file result next_frame (record w { buf = next_frame; chksum = next_chksum })
  unfolding finish_frame
  finish_frame-write result old eight =
      rw (store_lem pgno commit w.salt0 w.salt1 page next_chksum.0 next_chksum.1 old eight)

  -- With an aligned page size, a buffer of the frame's size and data of the page size, `WriteFrame`
  -- does one write, of a frame with its fields in their places and SQLite's checksum that
  -- continues the writer's, and keeps that checksum, whatever becomes of the write.
  pub write_frame_lem :
      (result : Write)
      → IsReady w
      → length page ≡ w.page_size
      → write_frame result pgno commit page w
        ≡ write_file result next_frame (record w { buf = next_frame; chksum = next_chksum })
  write_frame_lem result ready fits =
      let (old, eight, e) =
        filled_lem pgno commit w.salt0 w.salt1 page w.buf (omega (arith, ready.sized)) in
      let buf : List ℕ = unstored pgno commit w.salt0 w.salt1 old page in
      let sum : frame_checksum w.chksum buf ≡ some next_chksum =
        frame_checksum_lem pgno commit w.salt0 w.salt1 w.chksum old page eight
          (omega (arith, ready.aligned)) in
      write_frame-finish result old fits e
      ∙ ap (finish_frame result w buf) sum
      ∙ finish_frame-write result old eight

-- The header of a new file.
abbrev pub header_words : ℕ → ℕ → ℕ → List ℕ
header_words page_size salt0 salt1 =
    (0x37 ∷ 0x7f ∷ 0x06 ∷ 0x82 ∷ 0x00 ∷ 0x2d ∷ 0xe2 ∷ 0x18 ∷ [])
    ++ (uint32_bytes (page_size % 2 ^ 32)
        ++ ((0 ∷ 0 ∷ 0 ∷ 0 ∷ []) ++ (uint32_bytes salt0 ++ uint32_bytes salt1)))

module _ (w : WalWriter) where
  abbrev pub header_chksum : ℕ × ℕ
  header_chksum = checksum_units little_endian w.chksum (header_words w.page_size w.salt0 w.salt1)

  abbrev pub header_bytes : List ℕ
  header_bytes =
      header_words w.page_size w.salt0 w.salt1
      ++ (uint32_bytes header_chksum.0 ++ uint32_bytes header_chksum.1)

  header_fields_lem : header_fields w ≡ header_words w.page_size w.salt0 w.salt1 ++ replicate 8 0
  unfolding header_fields put_uint32 overwrite_at uint32_bytes
  header_fields_lem = refl

  take_24 :
      (rest : List ℕ)
      → take 24 (header_words w.page_size w.salt0 w.salt1 ++ rest)
        ≡ header_words w.page_size w.salt0 w.salt1
  unfolding uint32_bytes
  take_24 rest = refl

  aligned_24 : length (header_words w.page_size w.salt0 w.salt1) % 8 ≡ 0
  unfolding uint32_bytes
  aligned_24 = refl

  store_header :
      (s : ℕ × ℕ)
      → put_uint32 28 s.1
          (put_uint32 24 s.0 (header_words w.page_size w.salt0 w.salt1 ++ replicate 8 0))
        ≡ header_words w.page_size w.salt0 w.salt1 ++ (uint32_bytes s.0 ++ uint32_bytes s.1)
  unfolding put_uint32 overwrite_at uint32_bytes
  store_header s = refl

  -- WriteHeader writes the header with its checksum, which starts the running checksum.
  pub write_header_lem :
      (result : Write)
      → write_header result w ≡ write_file result header_bytes (record w { chksum = header_chksum })
  unfolding write_header finish_header
  write_header_lem result = rw (
    header_fields_lem,
    take_24 (replicate 8 0),
    checksum_aligned little_endian w.chksum (header_words w.page_size w.salt0 w.salt1) aligned_24,
    store_header header_chksum,
  )
