-- ===== src/Server/Watched.antt =====
-- Which directories a server watches.
use litestream.Prelude.{
  ◌≡◌, refl, sym, ap, ◌∙◌, subst, inl, inr, true, false, Option, none, some, [], ◌∷◌, Error, Result,
  ok, err, if◌then◌else◌, All, All-map, Bool-cases, Option-cases, Result-cases,
}
use litestream.Text.{Text, text_eq, text_eq_iff}
use litestream.Server.{
  Watcher, IsWatcher, Database, Dbs, find_db, delete_db, put_db, dir_of, Server, after_add, watch,
  after_remove, unwatch,
}
use litestream.Server.Events.{find_db-delete_db, find_db-put_db}

delete_db-All :
    (P : Text × Database → Type 0) (path : Text) (dbs : Dbs)
    → All P dbs
    → All P (delete_db path dbs)
unfolding delete_db
delete_db-All P path [] h = tt
delete_db-All P path ((p, db) ∷ dbs) h = elim (Bool-cases (text_eq p path)) [
  | inl e ↦ rw e (delete_db-All P path dbs h.1)
  | inr e ↦ rw e (h.0, delete_db-All P path dbs h.1)
]

module _ (W : Watcher) (L : IsWatcher W) where
  -- The directory of every database is watched.
  abbrev pub AllWatched : Server W → Type 0
  AllWatched s = All (λ entry. W.watches (dir_of entry.0) s.watcher ≡ true) s.dbs

  abbrev pub IsNotified : Text → Server W → Type 0
  IsNotified path s = (db : Database) × (find_db path s.dbs ≡ some db) × (db.notified ≡ true)

  add-All :
      (dir : Text) (w : W.State) (dbs : Dbs)
      → All (λ entry. W.watches (dir_of entry.0) w ≡ true) dbs
      → All (λ entry. W.watches (dir_of entry.0) (W.add dir w).1 ≡ true) dbs
  add-All dir w dbs h =
      All-map (λ entry. W.watches (dir_of entry.0) w ≡ true)
        (λ entry. W.watches (dir_of entry.0) (W.add dir w).1 ≡ true)
        (λ entry k. L.add_keeps dir (dir_of entry.0) w k) dbs h

  module _ (path : Text) (make : Text → Result Database) (opening : Database → Option Error)
      (s : Server W) (all : AllWatched s) where
    added :
        (db : Database)
        → (o : Result (Unit {0}) × W.State) → W.add (dir_of path) s.watcher ≡ o
        → (after_add W path db (record s { dbs = put_db path db s.dbs }) o).0 ≡ ok tt
        → AllWatched (after_add W path db (record s { dbs = put_db path db s.dbs }) o).1
          × IsNotified path (after_add W path db (record s { dbs = put_db path db s.dbs }) o).1
    added db (err e, w) q h = cc
    added db (ok _, w) q h =
        let now : W.watches (dir_of path) w ≡ true =
          subst (λ o. W.watches (dir_of path) o.1 ≡ true) q
            (L.watches-add (dir_of path) s.watcher (ap (λ o. o.0) q)) in
        let others : All (λ entry. W.watches (dir_of entry.0) w ≡ true) s.dbs =
          subst (λ o. All (λ entry. W.watches (dir_of entry.0) o.1 ≡ true) s.dbs) q
            (add-All (dir_of path) s.watcher s.dbs all) in
        (
          (
            now,
            delete_db-All (λ entry. W.watches (dir_of entry.0) w ≡ true) path (put_db path db s.dbs)
                (
                  now,
                  delete_db-All (λ entry. W.watches (dir_of entry.0) w ≡ true) path s.dbs others,
                ),
          ),
          (
            record db { notified = true },
            find_db-put_db path path (record db { notified = true }) (put_db path db s.dbs)
                ∙ rw ((text_eq_iff path path).1 refl) refl,
            refl,
          ),
        )

    -- Where every directory is watched and Watch succeeds, every directory is watched again, and the
    -- database of the path has a notification waiting.
    pub watch-AllWatched :
        (watch W path make opening s).0 ≡ ok tt
        → AllWatched (watch W path make opening s).1
          × IsNotified path (watch W path make opening s).1
    unfolding watch
    watch-AllWatched h = elim (Result-cases (make path)) [
      | inl (e, q) ↦ cc (rw (watch, q) at h)
      | inr (db, q) ↦ elim (Option-cases (opening db)) [
        | inr (e, r) ↦ cc (rw (watch, q, r) at h)
        | inl r ↦
            rw (watch, q, r) (added db (W.add (dir_of path) s.watcher) refl (rw (watch, q, r) at h))
      ]
    ]

  module _ (path : Text) (closing : Database → Option Error) (s : Server W) (q : Text) where
    removed :
        (dbs : Dbs) (failure : Option Error) (o : Result (Unit {0}) × W.State)
        → W.remove (dir_of path) s.watcher ≡ o
        → (after_remove W failure (record s { dbs = dbs }) o).0 ≡ ok tt
        → ((after_remove W failure (record s { dbs = dbs }) o).1.dbs ≡ dbs)
          × (W.watches (dir_of q) (after_remove W failure (record s { dbs = dbs }) o).1.watcher ≡ (
              if text_eq (dir_of q) (dir_of path) then false else W.watches (dir_of q) s.watcher))
    removed dbs failure (err e, w) r h = cc
    removed dbs failure (ok _, w) r h = (
      refl,
      elim (Bool-cases (text_eq (dir_of q) (dir_of path))) [
        | inl e ↦
            let same : dir_of q ≡ dir_of path = (text_eq_iff (dir_of q) (dir_of path)).0 e in
            rw e (
              subst (λ d. W.watches d w ≡ false) (sym same)
                (subst (λ o. W.watches (dir_of path) o.1 ≡ false) r
                  (L.watches-remove (dir_of path) s.watcher (ap (λ o. o.0) r))))
        | inr e ↦
            let other : dir_of q ≡ dir_of path → ⊥ =
              λ same. cc ((text_eq_iff (dir_of q) (dir_of path)).1 same, e) in
            rw e (
              subst (λ o. W.watches (dir_of q) o.1 ≡ W.watches (dir_of q) s.watcher) r
                (L.remove_keeps (dir_of path) (dir_of q) s.watcher other))
      ],
    )

    -- When Unwatch of a database of the server succeeds, the server manages what it did but for that
    -- database; its directory is not watched any more, whether or not the server still manages
    -- another database in it, and every other directory is watched or not as before.
    pub unwatch_lem :
        {db : Database}
        → find_db path s.dbs ≡ some db
        → (unwatch W path closing s).0 ≡ ok tt
        → (find_db q (unwatch W path closing s).1.dbs
            ≡ (if text_eq path q then none else find_db q s.dbs))
          × (W.watches (dir_of q) (unwatch W path closing s).1.watcher ≡ (
              if text_eq (dir_of q) (dir_of path) then false else W.watches (dir_of q) s.watcher))
    unfolding unwatch
    unwatch_lem {db} there h =
        let o = W.remove (dir_of path) s.watcher in
        let (kept, watched) =
          removed (delete_db path s.dbs) (closing db) o refl (rw (unwatch, there) at h) in
        rw (unwatch, there) (ap (find_db q) kept ∙ find_db-delete_db path q s.dbs, watched)
