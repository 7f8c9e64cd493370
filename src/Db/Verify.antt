-- ===== src/Db/Verify.antt =====
-- db.go: `CurrentGeneration`, `verify`, `verifyHeadersMatch` and `verifyLastShadowFrame`, which
-- compare the cached fields with the files.
pub mod Accepts
pub mod Kept
use litestream.Prelude.{
  ℕ, ◌-◌, Bool, false, not, ◌&&◌, ◌||◌, String, Option, none, some, List, [], ◌∷◌, Error, eof,
  not_exist, restart_generation, message, wrap, Result, ok, err, ◌>>=◌, ◌>>◌, wrapping, failing,
  ◌==◌, ltb, leb, if◌then◌else◌, length, take, drop,
}
use mathlib.Core.List.{reverse}
use litestream.Text.{Text, text_eq}
use litestream.Pos.{is_zero, generation_name_len}
use litestream.Wal.Writer.{wal_header_size}
use litestream.Wal.Reader.{read_full}
use litestream.Db.{Db}
use litestream.Db.Disk.{Disk}
use litestream.Db.Copy.{frame_size}
use litestream.Db.Index.{OsFaults, read_wal_header}

abbrev pub max_index : ℕ
max_index = 0x7fffffff

abbrev is_space : ℕ → Bool
is_space c = (leb 9 c && leb c 13) || c == b' '

-- strings.TrimSpace, of the white space of ASCII.
trim_left : Text → Text
trim_left [] = []
trim_left (c ∷ s) = let rest = trim_left s in if is_space c then rest else c ∷ s

unfoldable pub trim_space : Text → Text
unfolding trim_left
trim_space s = reverse (trim_left (reverse (trim_left s)))

abbrev pub generation_of : Option Error → Option Text → Result Text
generation_of fault none = ok []
generation_of (some e) (some buf) = err e
generation_of none (some buf) =
    if not (length (trim_space buf) == generation_name_len) then ok [] else ok (trim_space buf)

-- CurrentGeneration; the empty text where there is none.
unfoldable pub current_generation : OsFaults → Disk → Result Text
current_generation faults disk = generation_of faults.read_generation disk.generation_file

-- syncInfo; the reason's text, if it is not blank. `age` is the time since the database file was
-- modified, where verify came to look at it.
pub record SyncInfo : Type 0 where
  pub generation : Text
  pub age : Option ℕ
  pub restart : Bool
  pub reason : Option String

abbrev pub stat_wal : Option (List ℕ) → Result (List ℕ)
stat_wal none = err not_exist
stat_wal (some wal) = ok wal

-- readWALFileAt on the real WAL. A negative offset, which is one below `back` here, is refused.
unfoldable pub read_wal_before : OsFaults → ℕ → ℕ → List ℕ → Result (List ℕ)
read_wal_before faults offset back wal =
    if ltb offset back then err (message "negative offset") else elim faults.read_wal [
      | some e ↦ err e
      | none ↦
          if leb offset (length wal) then ok (take back (drop (offset - back) wal)) else err eof
    ]

abbrev pub compare_frame : Db → List ℕ → SyncInfo → Result SyncInfo
compare_frame db frame info =
    if text_eq frame db.frame
    then ok info
    else ok (record info { reason = some "wal overwritten by another process" })

-- The last part of verify, on the header and the WAL.
unfoldable pub verify_frame : OsFaults → Db → List ℕ → SyncInfo → Result SyncInfo
verify_frame faults db wal info = if not (ltb wal_header_size db.pos.offset) then ok info else do
  frame ←
      wrapping "cannot read last synced wal page"
        (read_wal_before faults db.pos.offset (frame_size db) wal)
  compare_frame db frame info

unfoldable pub verify_wal : OsFaults → Db → Disk → List ℕ → SyncInfo → Result SyncInfo
verify_wal faults db disk wal info =
    if leb max_index db.pos.index
    then ok (record info { reason = some "max index exceeded" })
    else if ltb (length wal) db.pos.offset
    then ok (record info { reason = some "wal truncated by another process" })
    else do
      hdr ← wrapping "cannot read wal header" (read_wal_header faults disk)
      verify_frame faults db wal (record info { restart = not (text_eq hdr db.hdr) })

-- From the current generation on.
unfoldable pub verify_generation : OsFaults → ℕ → Db → Disk → Text → Result SyncInfo
verify_generation faults age db disk generation =
    let info : SyncInfo = record {
      generation = generation;
      age = none;
      restart = false;
      reason = none;
    } in
    if text_eq generation [] then ok (record info { reason = some "no generation exists" }) else do
      failing faults.stat
      wal ← stat_wal disk.wal
      verify_wal faults db disk wal (record info { age = some age })

unfoldable pub verify : OsFaults → ℕ → Db → Disk → Result SyncInfo
verify faults age db disk = do
  generation ← wrapping "cannot find current generation" (current_generation faults disk)
  verify_generation faults age db disk generation

-- verifyHeadersMatch
unfoldable pub verify_headers_match : OsFaults → Db → Disk → Result (Unit {0})
verify_headers_match faults db disk = if is_zero db.pos then ok tt else do
  hdr ← wrapping "primary wal header" (read_wal_header faults disk)
  if text_eq hdr db.hdr then ok tt else err (message "wal header mismatch")

abbrev same_frame : List ℕ → Result (List ℕ × List ℕ) → Result (Unit {0})
same_frame frame (err e) = err (wrap "read last frame" e)
same_frame frame (ok (buf, _)) = if text_eq frame buf then ok tt else err restart_generation

abbrev last_frame_in : OsFaults → Db → Option (List ℕ) → Result (Unit {0})
last_frame_in faults db none = err not_exist
last_frame_in faults db (some wal) =
    if ltb db.pos.offset (length db.frame)
    then err (message "seek to last frame")
    else elim faults.read_wal [
      | some e ↦ err e
      | none ↦
          same_frame db.frame
            (read_full (length db.frame) (drop (db.pos.offset - length db.frame) wal))
    ]

-- verifyLastShadowFrame
unfoldable pub verify_last_shadow_frame : OsFaults → Db → Disk → Result (Unit {0})
verify_last_shadow_frame faults db disk =
    if length db.frame == 0 then ok tt else last_frame_in faults db disk.wal
