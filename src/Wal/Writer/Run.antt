-- ===== src/Wal/Writer/Run.antt =====
-- A whole WAL file: WriteHeader, then a WriteFrame for each page.
use mathlib.Core.List.{append_assoc, append-nil}
use litestream.Prelude.{
  ℕ, ◌+◌, ◌≡◌, refl, sym, ◌∙◌, List, [], ◌∷◌, ◌++◌, arith, length, All, ok, err, concat,
}
use litestream.Wal.Bytes.{uint32_bytes}
use litestream.Wal.Writer.{
  WalWriter, written, Outcome, returns, panics, write_file, write_frame, write_header,
}
use litestream.Wal.Writer.Layout.{
  IsReady, frame_bytes, next_frame, next_chksum, write_frame_lem, write_header_lem, header_bytes,
  header_chksum,
}

-- The arguments of one call of WriteFrame.
pub record Page : Type 0 where
  pub pgno : ℕ
  pub commit : ℕ
  pub content : List ℕ

-- `if err := …; err != nil { return err }`, one call after another.
abbrev pub and_then : Outcome → (WalWriter → Outcome) → Outcome
and_then (returns w (ok _)) next = next w
and_then (returns w (err e)) next = returns w (err e)
and_then panics next = panics

unfoldable pub write_frames : List Page → WalWriter → Outcome
write_frames [] w = returns w (ok tt)
write_frames (p ∷ ps) w =
    and_then (write_frame written p.pgno p.commit p.content w) (write_frames ps)

unfoldable pub write_wal : List Page → WalWriter → Outcome
write_wal ps w = and_then (write_header written w) (write_frames ps)

-- The frames that the pages give, and the writer after them.
abbrev pub after_frame : WalWriter → Page → WalWriter
after_frame w p = record w {
  file = w.file ++ next_frame w p.pgno p.commit p.content;
  buf = next_frame w p.pgno p.commit p.content;
  chksum = next_chksum w p.pgno p.commit p.content;
}

unfoldable pub frames_of : List Page → WalWriter → List (List ℕ)
frames_of [] w = []
frames_of (p ∷ ps) w = next_frame w p.pgno p.commit p.content ∷ frames_of ps (after_frame w p)

unfoldable pub after_frames : List Page → WalWriter → WalWriter
after_frames [] w = w
after_frames (p ∷ ps) w = after_frames ps (after_frame w p)

abbrev pub Fits : ℕ → Page → Type 0
Fits page_size p = length p.content ≡ page_size

pub length-frame_bytes :
    (pgno commit salt0 salt1 : ℕ) (s : ℕ × ℕ) (page : List ℕ)
    → length (frame_bytes pgno commit salt0 salt1 s page) ≡ 24 + length page
unfolding uint32_bytes
length-frame_bytes pgno commit salt0 salt1 s page = omega arith

after_frame-IsReady :
    (w : WalWriter) (p : Page) → IsReady w → Fits w.page_size p → IsReady (after_frame w p)
after_frame-IsReady w p r f = record {
  aligned = r.aligned;
  sized = omega (
    arith,
    length-frame_bytes p.pgno p.commit w.salt0 w.salt1 (next_chksum w p.pgno p.commit p.content)
        p.content,
  );
}

write_frames_lem :
    (ps : List Page) (w : WalWriter)
    → IsReady w
    → All (Fits w.page_size) ps
    → write_frames ps w ≡ returns (after_frames ps w) (ok tt)
unfolding write_frames after_frames write_file
write_frames_lem [] w r f = refl
write_frames_lem (p ∷ ps) w r f =
    rw (write_frame_lem w p.pgno p.commit p.content written r f.0)
      (write_frames_lem ps (after_frame w p) (after_frame-IsReady w p r f.0) f.1)

file-after_frames :
    (ps : List Page) (w : WalWriter) → (after_frames ps w).file ≡ w.file ++ concat (frames_of ps w)
unfolding after_frames frames_of
file-after_frames [] w = sym (append-nil w.file)
file-after_frames (p ∷ ps) w = file-after_frames ps (after_frame w p) ∙ append_assoc w.file _ _

-- The writer after WriteHeader.
abbrev pub after_header : WalWriter → WalWriter
after_header w = record w { file = w.file ++ header_bytes w; chksum = header_chksum w }

-- No call fails or panics, and the file holds the header and then the frames.
pub write_wal_lem :
    (ps : List Page) (w : WalWriter)
    → IsReady w
    → All (Fits w.page_size) ps
    → let v = after_header w in
      (write_wal ps w ≡ returns (after_frames ps v) (ok tt))
      × ((after_frames ps v).file ≡ w.file ++ header_bytes w ++ concat (frames_of ps v))
unfolding write_wal
write_wal_lem ps w r f = (
  rw (write_header_lem w written) (
      unfold write_file in
      write_frames_lem ps (after_header w) (record { aligned = r.aligned; sized = r.sized }) f),
  file-after_frames ps (after_header w),
)
