-- ===== src/Tests/Opening.antt =====
-- Connections to a database: one that is set up, and one whose journal mode is refused.
use litestream.Prelude.{◌≡◌, refl, true, none, [], ◌∷◌, message, ok, err}
use litestream.Text.{text_eq}
use litestream.Text.Ascii.{codes}
use litestream.Db.Open.{Answers, no_handles, init, open_db, check_names, updated_at}
use litestream.Db.Open.Settled.{Settled, init-Settled}

abbrev answers : Answers
answers = record {
  stat = none;
  stat_dir = none;
  connect = none;
  journal_mode = ok (codes "wal");
  autocheckpoint = none;
  create_seq = none;
  create_lock = none;
  open_file = none;
  stat_file = none;
  read_lock = none;
  page_size = ok 4096;
  mkdir = none;
  rest = none;
}

opened :
    init answers no_handles ≡ (ok tt, record { db = true; f = true; rtx = true; page_size = 4096 })
unfolding init text_eq
opened = refl

-- Replicas with the same name, and a WAL that is newer than its database.
refused_name :
    open_db 1000 (codes "s3" ∷ codes "file" ∷ codes "s3" ∷ []) none
    ≡ err (message "duplicate replica name")
unfolding open_db check_names text_eq
refused_name = refl

newer_wal : updated_at (ok 5) (ok 8) ≡ ok 8
unfolding updated_at
newer_wal = refl

init-Settled_example :
    Settled
      (record answers { journal_mode = err (message "database is locked") })
      (init (record answers { journal_mode = err (message "database is locked") }) no_handles)
init-Settled_example =
    init-Settled (record answers { journal_mode = err (message "database is locked") })
