-- ===== src/Tests/Serving.antt =====
-- A server with two databases in one directory.
use litestream.Prelude.{
  ◌≡◌, refl, sym, inl, inr, Bool, true, false, none, [], ◌∷◌, ok, if◌then◌else◌, Bool-cases,
}
use litestream.Text.{Text, text_eq, text_eq_iff, text_eq_refl}
use litestream.Server.{
  Watcher, IsWatcher, Database, Server, find_db, dir_of, db_path, watch, unwatch, monitor,
}
use litestream.Server.Events.{events, concerns, told, monitor-told}
use litestream.Server.Watched.{AllWatched, IsNotified, watch-AllWatched, unwatch_lem}

-- A watcher is the test whether a directory was added.
abbrev watcher : Watcher
watcher = record {
  State = Text → Bool;
  watches = λ dir w. w dir;
  add = λ dir w. (ok tt, λ other. if text_eq dir other then true else w other);
  remove = λ dir w. (ok tt, λ other. if text_eq dir other then false else w other);
}

keeps_true : (b c : Bool) → c ≡ true → (if b then true else c) ≡ true
keeps_true true c h = refl
keeps_true false c h = h

keeps_other :
    (dir other : Text) (b : Bool) → (other ≡ dir → ⊥) → (if text_eq dir other then false else b) ≡ b
keeps_other dir other b d = elim (Bool-cases (text_eq dir other)) [
  | inl e ↦ elim (d (same e)) [ ]
  | inr e ↦ rw e refl
]
  where
    same : text_eq dir other ≡ true → other ≡ dir
    same e = sym ((text_eq_iff dir other).0 e)

watcher-IsWatcher : IsWatcher watcher
watcher-IsWatcher = record {
  watches-add = λ dir w h. rw (text_eq_refl dir) refl;
  add_keeps = λ dir other w h. keeps_true (text_eq dir other) (w other) h;
  watches-remove = λ dir w h. rw (text_eq_refl dir) refl;
  remove_keeps = λ dir other w d. keeps_other dir other (w other) d;
}

abbrev path_a : Text
path_a = b'/' ∷ b'd' ∷ b'/' ∷ b'a' ∷ []

abbrev path_b : Text
path_b = b'/' ∷ b'd' ∷ b'/' ∷ b'b' ∷ []

abbrev wal_of_a : Text
wal_of_a = b'/' ∷ b'd' ∷ b'/' ∷ b'a' ∷ b'-' ∷ b'w' ∷ b'a' ∷ b'l' ∷ []

abbrev quiet : Database
quiet = record { number = 1; notified = false }

abbrev server : Server watcher
server = record { dbs = (path_a, quiet) ∷ (path_b, quiet) ∷ []; watcher = λ dir. true }

belongs : db_path wal_of_a ≡ path_a
unfolding db_path text_eq
belongs = refl

in_one_directory : dir_of path_a ≡ dir_of path_b
unfolding dir_of
in_one_directory = refl

monitor-told_example :
    ((monitor watcher (events (wal_of_a ∷ [])) server).0 ≡ ok tt)
    × (find_db path_a (monitor watcher (events (wal_of_a ∷ [])) server).1.dbs
        ≡ told (concerns path_a (wal_of_a ∷ [])) (find_db path_a server.dbs))
monitor-told_example = monitor-told watcher (wal_of_a ∷ []) server path_a

watch-AllWatched_example :
    AllWatched watcher watcher-IsWatcher
      (watch watcher path_a (λ p. ok quiet) (λ db. none) server).1
    × IsNotified watcher watcher-IsWatcher path_a
        (watch watcher path_a (λ p. ok quiet) (λ db. none) server).1
unfolding watch
watch-AllWatched_example =
    watch-AllWatched watcher watcher-IsWatcher path_a (λ p. ok quiet) (λ db. none) server
      (refl, (refl, tt)) refl

unwatch_lem_example :
    (find_db path_b (unwatch watcher path_a (λ db. none) server).1.dbs
      ≡ (if text_eq path_a path_b then none else find_db path_b server.dbs))
    × (watcher.watches (dir_of path_b) (unwatch watcher path_a (λ db. none) server).1.watcher
        ≡ (if text_eq (dir_of path_b) (dir_of path_a) then false else true))
unfolding unwatch find_db text_eq
unwatch_lem_example =
    unwatch_lem watcher watcher-IsWatcher path_a (λ db. none) server path_b refl refl
