-- ===== src/Server.antt =====
-- server.go: the databases that a server manages, and the events that it passes on to them.
pub mod Events
pub mod Watched
use litestream.Prelude.{
  ℕ, ◌+◌, ◌≡◌, Bool, true, false, Option, none, some, List, [], ◌∷◌, ◌++◌, Error, canceled, message,
  wrap, Result, ok, err, if◌then◌else◌, ◌==◌,
}
use mathlib.Core.List.{reverse}
use litestream.Text.{Text, text_eq}
use litestream.Files.Names.{trim_suffix}

-- A watcher of the file system (fsnotify): it tells of changes in the directories that were added.
pub record Watcher : Type 1 where
  pub State : Type 0
  pub watches : Text → State → Bool
  pub add : Text → State → Result (Unit {0}) × State
  pub remove : Text → State → Result (Unit {0}) × State

-- What is documented of it.
pub record IsWatcher (W : Watcher) : Type 0 where
  pub watches-add :
      (dir : Text) (w : W.State) → (W.add dir w).0 ≡ ok tt → W.watches dir (W.add dir w).1 ≡ true
  pub add_keeps :
      (dir other : Text) (w : W.State)
      → W.watches other w ≡ true
      → W.watches other (W.add dir w).1 ≡ true
  pub watches-remove :
      (dir : Text) (w : W.State)
      → (W.remove dir w).0 ≡ ok tt
      → W.watches dir (W.remove dir w).1 ≡ false
  pub remove_keeps :
      (dir other : Text) (w : W.State)
      → (other ≡ dir → ⊥)
      → W.watches other (W.remove dir w).1 ≡ W.watches other w

-- A database, with what waits in its notification channel, which has room for one.
pub record Database : Type 0 where
  pub number : ℕ
  pub notified : Bool

abbrev pub Dbs : Type 0
Dbs = List (Text × Database)

unfoldable pub find_db : Text → Dbs → Option Database
find_db path [] = none
find_db path ((p, db) ∷ dbs) = if text_eq p path then some db else find_db path dbs

unfoldable pub delete_db : Text → Dbs → Dbs
delete_db path [] = []
delete_db path ((p, db) ∷ dbs) =
    let rest = delete_db path dbs in if text_eq p path then rest else (p, db) ∷ rest

abbrev pub put_db : Text → Database → Dbs → Dbs
put_db path db dbs = (path, db) ∷ delete_db path dbs

-- filepath.Dir of a clean path.
abbrev after_slash : Text → Text
after_slash [] = b'.' ∷ []
after_slash (c ∷ s) = let rest = after_slash s in if c == b'/' then s else rest

abbrev or_root : Text → Text
or_root [] = b'/' ∷ []
or_root (c ∷ s) = c ∷ s

unfoldable pub dir_of : Text → Text
dir_of path = or_root (reverse (after_slash (reverse path)))

abbrev pub wal_suffix : Text
wal_suffix = b'-' ∷ b'w' ∷ b'a' ∷ b'l' ∷ []

-- The database that a file belongs to.
unfoldable pub db_path : Text → Text
db_path name = trim_suffix wal_suffix name

-- What the loop's select comes upon: the end of the context, or a file's event.
pub data Input : Type 0 where
  stop : Input
  event : Bool → Text → Input

module _ (W : Watcher) where
  pub record Server : Type 0 where
    pub dbs : Dbs
    pub watcher : W.State

  -- NewServer and Open; the watcher may be refused.
  unfoldable pub open_server : Result W.State → Result Server
  open_server (err e) = err e
  open_server (ok w) = ok (record { dbs = []; watcher = w })

  -- The send to the notification channel, which does nothing where one waits already.
  abbrev pub notify : Text → Database → Server → Server
  notify path db s = record s { dbs = put_db path (record db { notified = true }) s.dbs }

  abbrev pub after_add :
      Text → Database → Server → Result (Unit {0}) × W.State → Result (Unit {0}) × Server
  after_add path db s (err e, w) = (err (wrap "watch db file" e), record s { watcher = w })
  after_add path db s (ok _, w) = (ok tt, notify path db (record s { watcher = w }))

  -- Watch; `make` is the factory function, and `opening` the error of Open.
  unfoldable pub watch :
      Text
      → (Text → Result Database)
      → (Database → Option Error)
      → Server
      → Result (Unit {0}) × Server
  watch path make opening s = elim (make path) [
    | err e ↦ (err (wrap "new database" e), s)
    | ok db ↦ elim (opening db) [
      | some e ↦ (err (wrap "open database" e), s)
      | none ↦
          after_add path db (record s { dbs = put_db path db s.dbs })
            (W.add (dir_of path) s.watcher)
    ]
  ]

  abbrev pub close_db : Option Error → Result (Unit {0})
  close_db (some e) = err (wrap "close db" e)
  close_db none = ok tt

  abbrev pub after_remove :
      Option Error → Server → Result (Unit {0}) × W.State → Result (Unit {0}) × Server
  after_remove closing s (err e, w) = (err (wrap "unwatch file" e), record s { watcher = w })
  after_remove closing s (ok _, w) = (close_db closing, record s { watcher = w })

  -- Unwatch; `closing` is the error of Close.
  unfoldable pub unwatch : Text → (Database → Option Error) → Server → Result (Unit {0}) × Server
  unwatch path closing s = elim (find_db path s.dbs) [
    | none ↦ (ok tt, s)
    | some db ↦
        after_remove (closing db) (record s { dbs = delete_db path s.dbs })
          (W.remove (dir_of path) s.watcher)
  ]

  -- isWatched
  unfoldable pub is_watched : Text → Server → Bool
  is_watched name s = elim (find_db (db_path name) s.dbs) [ none ↦ false | some _ ↦ true ]

  -- dispatchFileEvent; `done` says that its select takes the context's end.
  unfoldable pub dispatch_file_event : Bool → Text → Server → Result (Unit {0}) × Server
  dispatch_file_event done name s = elim (find_db (db_path name) s.dbs) [
    | none ↦ (ok tt, s)
    | some db ↦ if done then (err canceled, s) else (ok tt, notify (db_path name) db s)
  ]

  abbrev pub and_monitor :
      Result (Unit {0}) × Server
      → (Server → Result (Unit {0}) × Server)
      → Result (Unit {0}) × Server
  and_monitor (err e, s) next = (err e, s)
  and_monitor (ok _, s) next = next s

  -- monitor, as far as the inputs go.
  unfoldable pub monitor : List Input → Server → Result (Unit {0}) × Server
  monitor [] s = (ok tt, s)
  monitor (stop ∷ inputs) s = (err canceled, s)
  monitor (event done name ∷ inputs) s =
      let rest = monitor inputs in
      if is_watched name s then and_monitor (dispatch_file_event done name s) rest else rest s

  abbrev pub close_errors : (Database → Option Error) → Option Error → Dbs → Option Error
  close_errors closing first [] = first
  close_errors closing first ((path, db) ∷ dbs) =
      close_errors closing
        (elim first [
          | some e ↦ some e
          | none ↦ elim (closing db) [ none ↦ none | some e ↦ some (wrap "close db" e) ]
        ])
        dbs

  abbrev pub first_failure : Option Error → Option Error → Option Error
  first_failure (some e) other = some e
  first_failure none none = none
  first_failure none (some e) = some (wrap "close watcher" e)

  -- Close; the errors of the monitor and of closing the watcher come in.
  unfoldable pub close :
      Option Error → Option Error → (Database → Option Error) → Server → Option Error × Server
  close monitoring watching closing s =
      (close_errors closing (first_failure monitoring watching) s.dbs, record s { dbs = [] })
