-- ===== src/Db/Open.antt =====
-- db.go: `Open`, `UpdatedAt` and the connection of `init`. What SQLite and the operating system answer
-- is a parameter; the end of `init` is in Db/Sync.

pub mod Settled
use litestream.Prelude.{
  ℕ, Bool, true, false, ◌||◌, Option, none, some, List, [], ◌∷◌, Error, message, not_exist, wrap,
  Result, ok, err, ◌>>=◌, ◌>>◌, failing, wrapping, if◌then◌else◌, ltb, ◌==◌,
}
use litestream.Text.{Text, text_eq}
use litestream.Text.Ascii.{codes}
use litestream.Client.{Time}

-- The fields of DB that are handles, whether they are set, and the page size.
pub record Handles : Type 0 where
  pub db : Bool
  pub f : Bool
  pub rtx : Bool
  pub page_size : ℕ

abbrev pub no_handles : Handles
no_handles = record { db = false; f = false; rtx = false; page_size = 0 }

-- What the steps of init answer, in their order; a page size below zero is a zero here, and `rest` is
-- what follows the meta directory.
pub record Answers : Type 0 where
  pub stat : Option Error
  pub stat_dir : Option Error
  pub connect : Option Error
  pub journal_mode : Result Text
  pub autocheckpoint : Option Error
  pub create_seq : Option Error
  pub create_lock : Option Error
  pub open_file : Option Error
  pub stat_file : Option Error
  pub read_lock : Option Error
  pub page_size : Result ℕ
  pub mkdir : Option Error
  pub rest : Option Error

abbrev check_mode : Text → Result (Unit {0})
check_mode mode = if text_eq mode (codes "wal") then ok tt else err (message "enable wal failed")

-- From the journal mode to the file descriptor.
abbrev pub set_up : Answers → Result (Unit {0})
set_up w = do
  mode ← w.journal_mode
  check_mode mode
  wrapping "disable autocheckpoint" (failing w.autocheckpoint)
  wrapping "create _litestream_seq table" (failing w.create_seq)
  wrapping "create _litestream_lock table" (failing w.create_lock)
  wrapping "open db file descriptor" (failing w.open_file)

abbrev pub with_page_size : Answers → Handles → Result ℕ → Result (Unit {0}) × Handles
with_page_size w h (err e) = (err (wrap "read page size" e), h)
with_page_size w h (ok n) = (
  (do
    if n == 0 then err (message "invalid db page size") else ok tt
    failing w.mkdir
    failing w.rest),
  record h { page_size = n },
)

-- Behind the point where a failure is cleaned up.
abbrev pub finish : Answers → Handles → Result (Unit {0}) × Handles
finish w h = elim w.stat_file [
  | some e ↦ (err (wrap "init file stat" e), h)
  | none ↦ elim w.read_lock [
    | some e ↦ (err (wrap "acquire read lock" e), h)
    | none ↦ with_page_size w (record h { rtx = true }) w.page_size
  ]
]

abbrev pub clean_up : Result (Unit {0}) × Handles → Result (Unit {0}) × Handles
clean_up (ok _, h) = (ok tt, h)
clean_up (err e, h) = (err e, record h { db = false; f = false; rtx = false })

abbrev pub after_set_up : Answers → Handles → Result (Unit {0}) → Result (Unit {0}) × Handles
after_set_up w h (err e) = (err e, h)
after_set_up w h (ok _) = clean_up (finish w (record h { f = true }))

abbrev pub if_exists : Error → Result (Unit {0})
if_exists not_exist = ok tt
if_exists e = err e

-- init
unfoldable pub init : Answers → Handles → Result (Unit {0}) × Handles
init w h = elim h.db [
  | true ↦ (ok tt, h)
  | false ↦ elim w.stat [
    | some e ↦ (if_exists e, h)
    | none ↦ elim (do failing w.stat_dir; failing w.connect) [
      | err e ↦ (err e, h)
      | ok _ ↦ after_set_up w (record h { db = true }) (set_up w)
    ]
  ]
]

abbrev has_name : Text → List Text → Bool
has_name name [] = false
has_name name (other ∷ names) = text_eq name other || has_name name names

-- The loop over the names of the replicas, with those that it has seen.
unfoldable pub check_names : List Text → List Text → Result (Unit {0})
check_names seen [] = ok tt
check_names seen (name ∷ names) =
    let rest = check_names (name ∷ seen) names in
    if has_name name seen then err (message "duplicate replica name") else rest

-- Open
unfoldable pub open_db : ℕ → List Text → Option Error → Result (Unit {0})
open_db min_checkpoint_page_n names tmp_files = do
  if min_checkpoint_page_n == 0
      then err (message "minimum checkpoint page count required")
      else ok tt
  check_names [] names
  wrapping "cannot remove tmp files" (failing tmp_files)

abbrev pub with_wal : Time → Result Time → Result Time
with_wal t (err not_exist) = ok t
with_wal t (err e) = err e
with_wal t (ok s) = if ltb t s then ok s else ok t

-- UpdatedAt, of the times of the database and its WAL.
unfoldable pub updated_at : Result Time → Result Time → Result Time
updated_at db wal = do t ← db; with_wal t wal
