-- ===== src/Db/Open/Settled.antt =====
-- What `init` leaves of the connection to the database.
use litestream.Prelude.{
  ℕ, ◌≡◌, ◌<◌, refl, inl, inr, ◌⊎◌, true, false, some, Error, not_exist, no_generation,
  no_snapshots, no_wal_segments, restart_generation, eof, unexpected_eof, canceled, wal_not_found,
  message, wrap, Result, ok, err, ◌>>◌, failing, Option-cases, Result-cases, Bool-cases, ◌==◌,
  arith,
}
use litestream.Db.Open.{
  Handles, no_handles, Answers, set_up, with_page_size, finish, clean_up, if_exists, init,
}

abbrev pub left : Handles
left = record { db = true; f = false; rtx = false; page_size = 0 }

-- The steps up to the connection.
abbrev pub connecting : Answers → Result (Unit {0})
connecting w = do failing w.stat; failing w.stat_dir; failing w.connect

-- After init: there is no database yet, all is open and the page size is known, an error has been
-- cleaned up, or `left`: the error came after the connection and before the clean-up is set up.
pub data Settled (w : Answers) : Result (Unit {0}) × Handles → Type 0 where
  absent : w.stat ≡ some not_exist → Settled w (ok tt, no_handles)
  ready :
      (n : ℕ)
      → 0 < n
      → connecting w ≡ ok tt
      → set_up w ≡ ok tt
      → Settled w (ok tt, record { db = true; f = true; rtx = true; page_size = n })
  refused :
      (e : Error) (n : ℕ)
      → ((e' : Error) × (connecting w ≡ err e')) ⊎ (set_up w ≡ ok tt)
      → Settled w (err e, record { db = false; f = false; rtx = false; page_size = n })
  left_open :
      (e : Error)
      → connecting w ≡ ok tt
      → set_up w ≡ err e
      → ((w' : Answers) → init w' left ≡ (ok tt, left))
      → Settled w (err e, left)

module _ (w : Answers) where
  page_size-Settled :
      (r : Result ℕ)
      → connecting w ≡ ok tt
      → set_up w ≡ ok tt
      → Settled w (
          clean_up (with_page_size w (record { db = true; f = true; rtx = true; page_size = 0 }) r))
  page_size-Settled (err e) c s = refused _ 0 (inr s)
  page_size-Settled (ok n) c s = elim (Bool-cases (n == 0)) [
    | inl q ↦ simp (with_page_size, q) (refused _ n (inr s))
    | inr q ↦ elim (Result-cases (failing w.mkdir >> failing w.rest)) [
      | inl (e, k) ↦ simp (with_page_size, q, k) (refused _ n (inr s))
      | inr (_, k) ↦ simp (with_page_size, q, k) (ready n (ground (arith, q)) c s)
    ]
  ]

  finish-Settled :
      connecting w ≡ ok tt
      → set_up w ≡ ok tt
      → Settled w (clean_up (finish w (record { db = true; f = true; rtx = false; page_size = 0 })))
  finish-Settled c s = elim (Option-cases w.stat_file) [
    | inr (e, q) ↦ simp (finish, q) (refused _ 0 (inr s))
    | inl q ↦ elim (Option-cases w.read_lock) [
      | inr (e, k) ↦ simp (finish, q, k) (refused _ 0 (inr s))
      | inl k ↦ simp (finish, q, k) (page_size-Settled w.page_size c s)
    ]
  ]

  init_again : (w' : Answers) → init w' left ≡ (ok tt, left)
  unfolding init
  init_again w' = refl

  no_stat : {e : Error} → w.stat ≡ some e → (e' : Error) × (connecting w ≡ err e')
  no_stat {e} q = (e, rw q refl)

  missing-Settled : (e : Error) → w.stat ≡ some e → Settled w (if_exists e, no_handles)
  missing-Settled no_generation q = refused _ 0 (inl (no_stat q))
  missing-Settled no_snapshots q = refused _ 0 (inl (no_stat q))
  missing-Settled no_wal_segments q = refused _ 0 (inl (no_stat q))
  missing-Settled restart_generation q = refused _ 0 (inl (no_stat q))
  missing-Settled eof q = refused _ 0 (inl (no_stat q))
  missing-Settled unexpected_eof q = refused _ 0 (inl (no_stat q))
  missing-Settled canceled q = refused _ 0 (inl (no_stat q))
  missing-Settled not_exist q = absent q
  missing-Settled (wal_not_found n) q = refused _ 0 (inl (no_stat q))
  missing-Settled (message text) q = refused _ 0 (inl (no_stat q))
  missing-Settled (wrap text e) q = refused _ 0 (inl (no_stat q))

  pub init-Settled : Settled w (init w no_handles)
  unfolding init
  init-Settled = elim (Option-cases w.stat) [
    | inr (e, q) ↦ simp (init, q) (missing-Settled e q)
    | inl q ↦ elim (Result-cases (failing w.stat_dir >> failing w.connect)) [
      | inl (e, k) ↦ simp (init, q, k) (refused e 0 (inl (e, rw q k)))
      | inr (tt, k) ↦ elim (Result-cases (set_up w)) [
        | inl (e, j) ↦ simp (init, q, k, j) (left_open e (rw q k) j init_again)
        | inr (tt, j) ↦ simp (init, q, k, j) (finish-Settled (rw q k) j)
      ]
    ]
  ]
