-- ===== src/Wal/Reader/RoundTrip.antt =====
-- ReadWALFields on a file of WALWriter.
use litestream.Prelude.{
  ℕ, zero, suc, ◌+◌, ◌^◌, ◌<◌, ◌≡◌, refl, ap, ◌∙◌, List, [], ◌∷◌, ◌++◌, arith, length,
  length-append, All, ok, err, eof, concat, some, drop,
}
use litestream.Wal.Bytes.{little_endian, big_endian, uint32, uint32_bytes, uint32-uint32_bytes}
use litestream.Wal.Checksum.{checksum_units-IsWords, IsWords}
use litestream.Wal.Writer.{WalWriter, wal_header_size, returns}
use litestream.Wal.Writer.Layout.{
  IsReady, frame_bytes, next_frame, next_chksum, header_bytes, header_chksum,
}
use litestream.Wal.Writer.Run.{
  Page, Fits, frames_of, after_frame, after_frames, after_header, length-frame_bytes, write_wal,
  write_wal_lem,
}
use litestream.Wal.Reader.{
  WalFields, add_frame, end_frames, read_frames, read_full, read_full-append, read_wal_fields,
  header_byte_order,
}

-- The salts fit a word, and so does the running checksum.
pub record HasWords (w : WalWriter) : Type 0 where
  pub salt0 : w.salt0 < 2 ^ 32
  pub salt1 : w.salt1 < 2 ^ 32
  pub chksum : IsWords w.chksum

module _ (pgno commit salt0 salt1 : ℕ) (s : ℕ × ℕ) (page : List ℕ) where
  abbrev stored_frame : List ℕ
  stored_frame = frame_bytes pgno commit salt0 salt1 s page

  -- The fields of a frame read back.
  pub salt0-frame : salt0 < 2 ^ 32 → uint32 big_endian (drop 8 stored_frame) ≡ salt0
  unfolding uint32_bytes
  salt0-frame h = uint32-uint32_bytes salt0 _ h

  pub salt1-frame : salt1 < 2 ^ 32 → uint32 big_endian (drop 12 stored_frame) ≡ salt1
  unfolding uint32_bytes
  salt1-frame h = uint32-uint32_bytes salt1 _ h

  pub chksum0-frame : s.0 < 2 ^ 32 → uint32 big_endian (drop 16 stored_frame) ≡ s.0
  unfolding uint32_bytes
  chksum0-frame h = uint32-uint32_bytes s.0 _ h

  pub chksum1-frame : s.1 < 2 ^ 32 → uint32 big_endian (drop 20 stored_frame) ≡ s.1
  unfolding uint32_bytes
  chksum1-frame h = uint32-uint32_bytes s.1 _ h

  pub commit-frame : commit < 2 ^ 32 → uint32 big_endian (drop 4 stored_frame) ≡ commit
  unfolding uint32_bytes
  commit-frame h = uint32-uint32_bytes commit _ h

pub after_frame-HasWords : (w : WalWriter) (p : Page) → HasWords w → HasWords (after_frame w p)
after_frame-HasWords w p h = record {
  salt0 = h.salt0;
  salt1 = h.salt1;
  chksum =
      checksum_units-IsWords little_endian _ p.content
        (checksum_units-IsWords little_endian w.chksum _ h.chksum);
}

read_full-end : (size : ℕ) → 0 < size → read_full size [] ≡ err eof
unfolding read_full
read_full-end size h = ground arith

read_frames-step :
    (fuel : ℕ) (frame rest : List ℕ) (fields : WalFields)
    → read_frames (suc fuel) (length frame) (frame ++ rest) fields
      ≡ read_frames fuel (length frame) rest (add_frame fields frame)
unfolding read_frames
read_frames-step fuel frame rest fields = rw (read_frames, read_full-append frame rest)

-- What the loop has read after the frames of the pages.
abbrev fields_after : List Page → WalWriter → WalFields → WalFields
fields_after [] w fields = fields
fields_after (p ∷ ps) w fields = fields_after ps (after_frame w p) (record fields {
  chksum = next_chksum w p.pgno p.commit p.content;
  frame = next_frame w p.pgno p.commit p.content;
})

add_frame_lem :
    (w : WalWriter) (p : Page) (fields : WalFields)
    → HasWords w
    → add_frame fields (next_frame w p.pgno p.commit p.content) ≡ record fields {
      chksum = next_chksum w p.pgno p.commit p.content;
      frame = next_frame w p.pgno p.commit p.content;
    }
unfolding add_frame
add_frame_lem w p fields h =
    let page = p.content in
    let s : ℕ × ℕ = next_chksum w p.pgno p.commit p.content in
    let words : IsWords s = (after_frame-HasWords w p h).chksum in
    rw (
      chksum0-frame p.pgno p.commit w.salt0 w.salt1 s page words.0,
      chksum1-frame p.pgno p.commit w.salt0 w.salt1 s page words.1,
    )

read_frames_lem :
    (ps : List Page) (w : WalWriter) (fields : WalFields) (fuel : ℕ)
    → HasWords w
    → All (Fits w.page_size) ps
    → length ps < fuel
    → read_frames fuel (w.page_size + 24) (concat (frames_of ps w)) fields
      ≡ some (ok (fields_after ps w fields))
unfolding frames_of read_frames end_frames
read_frames_lem ps w fields zero h f k = absurd (omega arith)
read_frames_lem [] w fields (suc fuel) h f k =
    rw (read_frames, read_full-end (w.page_size + 24) (omega arith), end_frames)
read_frames_lem (p ∷ ps) w fields (suc fuel) h f k =
    let frame : List ℕ = next_frame w p.pgno p.commit p.content in
    let size : length frame ≡ w.page_size + 24 = omega (
      arith,
      length-frame_bytes p.pgno p.commit w.salt0 w.salt1 (next_chksum w p.pgno p.commit p.content)
          p.content,
      f.0,
    ) in
    let step = read_frames-step fuel frame (concat (frames_of ps (after_frame w p))) fields in
    rw size at step
    ∙ (ap (read_frames fuel (w.page_size + 24) (concat (frames_of ps (after_frame w p))))
          (add_frame_lem w p fields h)
        ∙ read_frames_lem ps (after_frame w p) _ fuel (after_frame-HasWords w p h) f.1
            (omega arith))

module _ (w : WalWriter) where
  header_split :
      (rest : List ℕ)
      → read_full wal_header_size (header_bytes w ++ rest) ≡ ok (header_bytes w, rest)
  header_split rest = unfold uint32_bytes in read_full-append (header_bytes w) rest

  header_magic : header_byte_order (header_bytes w) ≡ ok little_endian
  unfolding header_byte_order uint32
  header_magic = refl

  header_salt0 : HasWords w → uint32 big_endian (drop 16 (header_bytes w)) ≡ w.salt0
  unfolding uint32_bytes
  header_salt0 h = uint32-uint32_bytes w.salt0 _ h.salt0

  header_salt1 : HasWords w → uint32 big_endian (drop 20 (header_bytes w)) ≡ w.salt1
  unfolding uint32_bytes
  header_salt1 h = uint32-uint32_bytes w.salt1 _ h.salt1

  header_chksum-IsWords : HasWords w → IsWords (header_chksum w)
  header_chksum-IsWords h = checksum_units-IsWords little_endian w.chksum _ h.chksum

  header_chksum0 : HasWords w → uint32 big_endian (drop 24 (header_bytes w)) ≡ (header_chksum w).0
  unfolding uint32_bytes
  header_chksum0 h =
      uint32-uint32_bytes (header_chksum w).0 (uint32_bytes (header_chksum w).1)
        (header_chksum-IsWords h).0

  header_chksum1 : HasWords w → uint32 big_endian (drop 28 (header_bytes w)) ≡ (header_chksum w).1
  unfolding uint32_bytes
  header_chksum1 h = uint32-uint32_bytes (header_chksum w).1 [] (header_chksum-IsWords h).1

after_header-HasWords : (w : WalWriter) → HasWords w → HasWords (after_header w)
after_header-HasWords w h = record {
  salt0 = h.salt0;
  salt1 = h.salt1;
  chksum = header_chksum-IsWords w h;
}

-- The last frame that the writer writes, or `nil`.
abbrev pub last_frame : List Page → WalWriter → List ℕ → List ℕ
last_frame [] w frame = frame
last_frame (p ∷ ps) w frame =
    last_frame ps (after_frame w p) (next_frame w p.pgno p.commit p.content)

fields_after_lem :
    (ps : List Page) (w : WalWriter) (fields : WalFields)
    → fields.chksum ≡ w.chksum
    → fields_after ps w fields
      ≡ record fields { chksum = (after_frames ps w).chksum; frame = last_frame ps w fields.frame }
unfolding after_frames
fields_after_lem [] w fields e = λ i. record fields { chksum = e i }
fields_after_lem (p ∷ ps) w fields e = fields_after_lem ps (after_frame w p) _ refl

pages_fit : (ps : List Page) (w : WalWriter) → length ps < suc (length (concat (frames_of ps w)))
unfolding frames_of
pages_fit [] w = omega arith
pages_fit (p ∷ ps) w = omega (
  arith,
  length-append (next_frame w p.pgno p.commit p.content) (concat (frames_of ps (after_frame w p))),
  length-frame_bytes p.pgno p.commit w.salt0 w.salt1 (next_chksum w p.pgno p.commit p.content)
      p.content,
  pages_fit ps (after_frame w p),
)

read_wal_fields-file :
    (ps : List Page) (w : WalWriter)
    → HasWords w
    → All (Fits w.page_size) ps
    → let v = after_header w in
      read_wal_fields w.page_size (header_bytes w ++ concat (frames_of ps v))
      ≡ some (
          ok (record {
            salt0 = w.salt0;
            salt1 = w.salt1;
            chksum = (after_frames ps v).chksum;
            byte_order = little_endian;
            hdr = header_bytes w;
            frame = last_frame ps v [];
          }))
unfolding read_wal_fields
read_wal_fields-file ps w h f =
    let v : WalWriter = after_header w in
    let frames : List ℕ = concat (frames_of ps v) in
    rw
      (
        header_split w frames,
        read_wal_fields,
        header_magic w,
        header_salt0 w h,
        header_salt1 w h,
        header_chksum0 w h,
        header_chksum1 w h,
        read_frames_lem ps v _ (suc (length frames)) (after_header-HasWords w h) f (pages_fit ps v),
      )
      (ap (λ fields. some (ok fields)) (fields_after_lem ps v _ refl))

-- For a writer with an empty file, words for salts and checksum, its buffer and aligned page size:
-- WriteHeader and then WriteFrame on pages of the page size succeed, and ReadWALFields reads back
-- from the file the salts, the header, the last frame, and the writer's running checksum.
pub read_wal_fields-write_wal :
    (ps : List Page) (w : WalWriter)
    → w.file ≡ []
    → HasWords w
    → IsReady w
    → All (Fits w.page_size) ps
    → (v : WalWriter) × (write_wal ps w ≡ returns v (ok tt))
      × (read_wal_fields w.page_size v.file
          ≡ some (
              ok (record {
                salt0 = w.salt0;
                salt1 = w.salt1;
                chksum = v.chksum;
                byte_order = little_endian;
                hdr = header_bytes w;
                frame = last_frame ps (after_header w) [];
              })))
read_wal_fields-write_wal ps w empty h r f =
    let (runs, file) = write_wal_lem ps w r f in
    let frames : List ℕ = concat (frames_of ps (after_header w)) in
    let whole = file ∙ ap (λ before. before ++ header_bytes w ++ frames) empty in
    (after_frames ps (after_header w), runs, rw whole (read_wal_fields-file ps w h f))
