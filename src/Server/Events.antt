-- ===== src/Server/Events.antt =====
-- What the events of the file system do to the databases of a server.
use litestream.Prelude.{
  ◌≡◌, refl, sym, ap, ◌∙◌, inl, inr, Bool, true, false, ◌||◌, ◌&&◌, not, ◌++◌, ◌-◌, length, take,
  drop, length-append, take-append, drop-append, take-append-drop, arith, Option, none, some, List,
  [], ◌∷◌, ok, if◌then◌else◌, Bool-cases, Option-cases,
}
use litestream.Text.{Text, text_eq, text_eq_iff}
use litestream.Server.{
  Watcher, Database, Dbs, find_db, delete_db, put_db, db_path, wal_suffix, Server, notify,
  is_watched, dispatch_file_event, Input, event, monitor,
}

pub find_db-delete_db :
    (p q : Text) (dbs : Dbs)
    → find_db q (delete_db p dbs) ≡ (if text_eq p q then none else find_db q dbs)
unfolding find_db delete_db
find_db-delete_db p q [] = elim (Bool-cases (text_eq p q)) [ inl e ↦ rw e refl | inr e ↦ rw e refl ]
find_db-delete_db p q ((r, db) ∷ dbs) = elim (Bool-cases (text_eq r p)) [
  | inl e ↦
      let same : r ≡ p = (text_eq_iff r p).0 e in rw e (find_db-delete_db p q dbs ∙ shadow same)
  | inr e ↦ elim (Bool-cases (text_eq r q)) [
    | inl f ↦ let same : r ≡ q = (text_eq_iff r q).0 f in rw (e, f) (sym (other same e))
    | inr f ↦ rw (e, f) (find_db-delete_db p q dbs)
  ]
]
  where
    shadow :
        r ≡ p
        → (if text_eq p q then none else find_db q dbs)
          ≡ (if text_eq p q then none else if text_eq r q then some db else find_db q dbs)
    shadow same = elim (Bool-cases (text_eq p q)) [ inl e ↦ rw e refl | inr e ↦ rw (same, e) refl ]

    clash : r ≡ q → text_eq p q ≡ true → text_eq r p ≡ true
    clash same f = (text_eq_iff r p).1 (same ∙ sym ((text_eq_iff p q).0 f))

    other : r ≡ q → text_eq r p ≡ false → (if text_eq p q then none else some db) ≡ some db
    other same e = elim (Bool-cases (text_eq p q)) [
      | inl f ↦ cc (clash same f, e)
      | inr f ↦ rw f refl
    ]

pub find_db-put_db :
    (p q : Text) (db : Database) (dbs : Dbs)
    → find_db q (put_db p db dbs) ≡ (if text_eq p q then some db else find_db q dbs)
unfolding find_db
find_db-put_db p q db dbs = elim (Bool-cases (text_eq p q)) [
  | inl e ↦ rw e refl
  | inr e ↦ rw e (find_db-delete_db p q dbs ∙ rw e refl)
]

-- The text is the name of a WAL.
abbrev pub is_wal : Text → Bool
is_wal name = text_eq (drop (length name - length wal_suffix) name) wal_suffix

-- The file is the WAL of the database, or the database itself unless its name is that of a WAL.
abbrev pub belongs : Text → Text → Bool
belongs path name = text_eq name (path ++ wal_suffix) || (text_eq name path && not (is_wal path))

-- One of the files belongs to the database.
abbrev pub concerns : Text → List Text → Bool
concerns path [] = false
concerns path (name ∷ names) = belongs path name || concerns path names

length_before : (path : Text) → length (path ++ wal_suffix) - length wal_suffix ≡ length path
length_before path = omega (arith, length-append path wal_suffix)

is_wal-append : (path : Text) → is_wal (path ++ wal_suffix) ≡ true
is_wal-append path =
    let rest : drop (length (path ++ wal_suffix) - length wal_suffix) (path ++ wal_suffix)
        ≡ wal_suffix =
      ap (λ n. drop n (path ++ wal_suffix)) (length_before path) ∙ drop-append path wal_suffix in
    (text_eq_iff _ wal_suffix).1 rest

take-wal_suffix :
    (path : Text)
    → take (length (path ++ wal_suffix) - length wal_suffix) (path ++ wal_suffix) ≡ path
take-wal_suffix path =
    ap (λ n. take n (path ++ wal_suffix)) (length_before path) ∙ take-append path wal_suffix

-- The name of a WAL, and what is before its ending.
trimmed :
    (path name : Text)
    → is_wal name ≡ true
    → text_eq (take (length name - length wal_suffix) name) path ≡ belongs path name
trimmed path name e =
    let n = length name - length wal_suffix in
    let whole : take n name ++ wal_suffix ≡ name =
      ap (λ s. take n name ++ s) (sym ((text_eq_iff (drop n name) wal_suffix).0 e))
      ∙ take-append-drop n name in
    elim (Bool-cases (text_eq (take n name) path)) [
      | inl f ↦
          let same : name ≡ path ++ wal_suffix =
            sym whole ∙ ap (λ s. s ++ wal_suffix) ((text_eq_iff (take n name) path).0 f) in
          rw (f, (text_eq_iff name (path ++ wal_suffix)).1 same) refl
      | inr f ↦ elim (Bool-cases (text_eq name (path ++ wal_suffix))) [
        | inl g ↦
            let same : name ≡ path ++ wal_suffix = (text_eq_iff name (path ++ wal_suffix)).0 g in
            let base : take n name ≡ path =
              ap (λ s. take (length s - length wal_suffix) s) same ∙ take-wal_suffix path in
            cc ((text_eq_iff (take n name) path).1 base, f)
        | inr g ↦ elim (Bool-cases (text_eq name path)) [
          | inl k ↦
              let wal : is_wal path ≡ true = sym (ap is_wal ((text_eq_iff name path).0 k)) ∙ e in
              f ∙ sym (rw (g, k, wal) refl)
          | inr k ↦ f ∙ sym (rw (g, k) refl)
        ]
      ]
    ]

kept : (path name : Text) → is_wal name ≡ false → text_eq name path ≡ belongs path name
kept path name e = elim (Bool-cases (text_eq name (path ++ wal_suffix))) [
  | inl g ↦
      let wal = ap is_wal ((text_eq_iff name (path ++ wal_suffix)).0 g) ∙ is_wal-append path in
      cc (wal, e)
  | inr g ↦ elim (Bool-cases (text_eq name path)) [
    | inl k ↦
        let wal : is_wal path ≡ false = sym (ap is_wal ((text_eq_iff name path).0 k)) ∙ e in
        rw (g, k, wal) refl
    | inr k ↦ rw (g, k) refl
  ]
]

text_eq-db_path : (path name : Text) → text_eq (db_path name) path ≡ belongs path name
unfolding db_path
text_eq-db_path path name = elim (Bool-cases (is_wal name)) [
  | inl e ↦ rw e (trimmed path name e)
  | inr e ↦ rw e (kept path name e)
]

abbrev pub told : Bool → Option Database → Option Database
told b none = none
told b (some db) = some (record db { notified = db.notified || b })

or_false : (a : Bool) → a || false ≡ a
or_false true = refl
or_false false = refl

or_true : (a : Bool) → a || true ≡ true
or_true true = refl
or_true false = refl

or_assoc : (a b c : Bool) → (a || b) || c ≡ a || (b || c)
or_assoc true b c = refl
or_assoc false b c = refl

told-false : (o : Option Database) → told false o ≡ o
told-false none = refl
told-false (some db) = λ i. some (record db { notified = or_false db.notified i })

told-told : (a b : Bool) (o : Option Database) → told b (told a o) ≡ told (a || b) o
told-told a b none = refl
told-told a b (some db) = λ i. some (record db { notified = or_assoc db.notified a b i })

abbrev pub events : List Text → List Input
events [] = []
events (name ∷ names) = event false name ∷ events names

module _ (W : Watcher) where
  -- What an event leaves.
  after_event : Text → Server W → Server W
  after_event name s = elim (find_db (db_path name) s.dbs) [
    | none ↦ s
    | some db ↦ notify W (db_path name) db s
  ]

  find_db-after_event :
      (name path : Text) (s : Server W)
      → find_db path (after_event name s).dbs
        ≡ told (text_eq (db_path name) path) (find_db path s.dbs)
  unfolding after_event
  find_db-after_event name path s = elim (Option-cases (find_db (db_path name) s.dbs)) [
    | inl f ↦ elim (Bool-cases (text_eq (db_path name) path)) [
      | inl e ↦
          let same : db_path name ≡ path = (text_eq_iff (db_path name) path).0 e in
          let none_there : find_db path s.dbs ≡ none = ap (λ p. find_db p s.dbs) (sym same) ∙ f in
          rw (after_event, f, none_there) refl
      | inr e ↦ rw (after_event, f, e) (sym (told-false (find_db path s.dbs)))
    ]
    | inr (db, f) ↦
        rw (after_event, f)
          (find_db-put_db (db_path name) path _ s.dbs
            ∙ elim (Bool-cases (text_eq (db_path name) path)) [
              | inl e ↦
                  let same : db_path name ≡ path = (text_eq_iff (db_path name) path).0 e in
                  let there : find_db path s.dbs ≡ some db =
                    ap (λ p. find_db p s.dbs) (sym same) ∙ f in
                  rw (e, there) (sym (λ i. some (record db { notified = or_true db.notified i })))
              | inr e ↦ rw e (sym (told-false (find_db path s.dbs)))
            ])
  ]

  monitor-event :
      (name : Text) (inputs : List Input) (s : Server W)
      → monitor W (event false name ∷ inputs) s ≡ monitor W inputs (after_event name s)
  unfolding monitor after_event is_watched dispatch_file_event
  monitor-event name inputs s = elim (Option-cases (find_db (db_path name) s.dbs)) [
    | inl f ↦ rw (monitor, is_watched, after_event, f) refl
    | inr (db, f) ↦ rw (monitor, is_watched, dispatch_file_event, after_event, f) refl
  ]

  -- The monitor passes the events on: after events that the context does not interrupt, a database
  -- has a notification waiting exactly if it had one, or one of the files is its WAL, or is the
  -- database itself and its name does not end in `-wal`; and the server manages what it did.
  pub monitor-told :
      (names : List Text) (s : Server W) (path : Text)
      → ((monitor W (events names) s).0 ≡ ok tt)
        × (find_db path (monitor W (events names) s).1.dbs
            ≡ told (concerns path names) (find_db path s.dbs))
  unfolding monitor
  monitor-told [] s path = (refl, sym (told-false (find_db path s.dbs)))
  monitor-told (name ∷ names) s path =
      let step = monitor-event name (events names) s in
      let rest = monitor-told names (after_event name s) path in
      (
        ap (λ r. r.0) step ∙ rest.0,
        ap (λ r. find_db path r.1.dbs) step
            ∙ (rest.1
                ∙ (ap (told (concerns path names)) (find_db-after_event name path s)
                    ∙ (told-told (text_eq (db_path name) path) (concerns path names)
                          (find_db path s.dbs)
                        ∙ ap (λ b. told (b || concerns path names) (find_db path s.dbs))
                            (text_eq-db_path path name)))),
      )
