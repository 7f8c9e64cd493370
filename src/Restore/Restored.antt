-- ===== src/Restore/Restored.antt =====
-- What `Restore` writes to the output path.
use litestream.Prelude.{
  ℕ, ◌≡◌, refl, ap, inl, inr, ◌⊎◌, true, false, Option, none, some, List, [], ◌∷◌, Error, Result,
  ok, err, Bool-cases, Option-cases, Result-cases, ◌==◌,
}
use litestream.Text.{Text, text_eq}
use litestream.Client.{ReplicaClient}
use litestream.Db.Disk.{Lz4}
use litestream.Downloader.{
  WalDownloadInput, DownloadFaults, check_range, init_input_ch, download_wal,
}
use litestream.Restore.{
  Output, RestoreFaults, is_not_found, next_downloads, after_init, next_results,
  restore_parallelism, apply_wals, restore_snapshot, check_restore, check_output, renamed, rename,
  restore_from, restore,
}

module _ (lz4 : Lz4) (client : ReplicaClient) (apply : List ℕ → List ℕ → Result (List ℕ))
    (downloads : DownloadFaults) (generation : Text) where
  -- The inputs' WALs lead from one state of the database to another.
  abbrev pub Replayed : List WalDownloadInput → List ℕ → List ℕ → Type 0
  Replayed [] db end = db ≡ end
  Replayed (input ∷ inputs) db end =
      (wal : List ℕ) × (db' : List ℕ) × (download_wal lz4 client downloads generation input
        ≡ ok wal)
      × (apply db wal ≡ ok db')
      × Replayed inputs db' end

  next_downloads-Replayed :
      (inputs : List WalDownloadInput) (db end : List ℕ)
      → apply_wals apply false db (next_downloads lz4 client downloads generation inputs)
        ≡ (ok tt, end)
      → Replayed inputs db end
  unfolding apply_wals next_downloads
  next_downloads-Replayed [] db end h = ap (λ r. r.1) h
  next_downloads-Replayed (input ∷ inputs) db end h =
      elim (Result-cases (download_wal lz4 client downloads generation input)) [
        | inl (e, q) ↦ cc (ap (λ r. r.0) (rw (next_downloads, q) at h))
        | inr (wal, q) ↦ elim (Result-cases (apply db wal)) [
          | inl (e, r) ↦ cc (ap (λ r. r.0) (rw (next_downloads, q, apply_wals, r) at h))
          | inr (db', r) ↦ (
            wal,
            db',
            q,
            r,
            next_downloads-Replayed inputs db' end (rw (next_downloads, q, apply_wals, r) at h),
          )
        ]
      ]

  abbrev Inputs : List WalDownloadInput × Result (Unit {0}) → List ℕ → List ℕ → Type 0
  Inputs o db end =
      (inputs : List WalDownloadInput) × (o ≡ (inputs, ok tt)) × Replayed inputs db end

  after_init-Inputs :
      (o : List WalDownloadInput × Result (Unit {0})) (db end : List ℕ)
      → apply_wals apply false db (after_init lz4 client downloads generation o) ≡ (ok tt, end)
      → Inputs o db end
  unfolding apply_wals
  after_init-Inputs (inputs, err e) db end h = cc (ap (λ r. r.0) h)
  after_init-Inputs (inputs, ok tt) db end h =
      (inputs, refl, next_downloads-Replayed inputs db end h)

  next_results-Inputs :
      (snapshot target n : ℕ) (db end : List ℕ)
      → apply_wals apply false db (next_results lz4 client downloads generation snapshot target n)
        ≡ (ok tt, end)
      → Inputs (init_input_ch client generation snapshot target) db end
  unfolding next_results apply_wals
  next_results-Inputs snapshot target n db end h =
      elim (Result-cases (check_range (some snapshot) (some target) n)) [
        | inl (e, q) ↦ cc (ap (λ r. r.0) (rw (next_results, q) at h))
        | inr (r, q) ↦ after_init-Inputs _ db end (rw (next_results, q) at h)
      ]

  -- What Next returned, up to its end or to a WAL that is not found, leads from one state of the
  -- database to another.
  abbrev pub UpTo : List (Result (ℕ × List ℕ)) → List ℕ → List ℕ → Type 0
  UpTo [] db end = db ≡ end
  UpTo (err e ∷ results) db end = (is_not_found e ≡ true) × (db ≡ end)
  UpTo (ok (index, wal) ∷ results) db end =
      (db' : List ℕ) × (apply db wal ≡ ok db') × UpTo results db' end

  apply_wals-UpTo :
      (results : List (Result (ℕ × List ℕ))) (db end : List ℕ)
      → apply_wals apply true db results ≡ (ok tt, end)
      → UpTo results db end
  unfolding apply_wals
  apply_wals-UpTo [] db end h = ap (λ r. r.1) h
  apply_wals-UpTo (err e ∷ results) db end h = elim (Bool-cases (is_not_found e)) [
    | inl q ↦ (q, ap (λ r. r.1) (rw q at h))
    | inr q ↦ cc (ap (λ r. r.0) (rw q at h))
  ]
  apply_wals-UpTo (ok (index, wal) ∷ results) db end h = elim (Result-cases (apply db wal)) [
    | inl (e, r) ↦ cc (ap (λ r. r.0) (rw (apply_wals, r) at h))
    | inr (db', r) ↦ (db', r, apply_wals-UpTo results db' end (rw (apply_wals, r) at h))
  ]

  module _ (faults : RestoreFaults) (parallelism snapshot target : ℕ) (out : Output) where
    abbrev results : List (Result (ℕ × List ℕ))
    results =
        next_results lz4 client downloads generation snapshot target
          (restore_parallelism parallelism)

    -- The output path is as before where the call fails. Where it succeeds it was free, and holds the
    -- snapshot with every WAL from the snapshot's index on applied; or the index is the target, and
    -- what there is of its WAL is applied.
    abbrev pub Restored : Result (Unit {0}) × Output → Type 0
    Restored (err e, out') = out'.final ≡ out.final
    Restored (ok _, out') =
        (out.final ≡ none)
        × ((base : List ℕ) × (db : List ℕ) × (restore_snapshot lz4 client faults generation snapshot
              ≡ ok base)
            × (out' ≡ record { final = some db; tmp = none })
            × (Inputs (init_input_ch client generation snapshot target) base db
                ⊎ (((snapshot == target) ≡ true) × UpTo results base db)))

    renamed-Restored :
        (fault : Option Error) (base db : List ℕ)
        → restore_snapshot lz4 client faults generation snapshot ≡ ok base
        → out.final ≡ none
        → apply_wals apply (snapshot == target) base results ≡ (ok tt, db)
        → Restored (renamed fault out db)
    renamed-Restored (some e) base db s free h = refl
    renamed-Restored none base db s free h = (
      free,
      (
        base,
        db,
        s,
        refl,
        elim (Bool-cases (snapshot == target)) [
          | inl same ↦ inr (same, apply_wals-UpTo results base db (rw same at h))
          | inr ne ↦ inl (next_results-Inputs snapshot target _ base db (rw ne at h))
        ],
      ),
    )

    rename-Restored :
        (base : List ℕ) (w : Result (Unit {0}) × List ℕ)
        → restore_snapshot lz4 client faults generation snapshot ≡ ok base
        → out.final ≡ none
        → apply_wals apply (snapshot == target) base results ≡ w
        → Restored (rename faults out w)
    rename-Restored base (err e, db) s free h = refl
    rename-Restored base (ok _, db) s free h = renamed-Restored faults.rename base db s free h

    restore_from-Restored :
        (r : Result (List ℕ))
        → restore_snapshot lz4 client faults generation snapshot ≡ r
        → out.final ≡ none
        → Restored (
            restore_from lz4 client faults apply downloads parallelism generation
              (snapshot, target)
              out
              r)
    restore_from-Restored (err e) s free = refl
    restore_from-Restored (ok base) s free = rename-Restored base _ s free refl

    check_output-none : check_output faults out ≡ ok tt → out.final ≡ none
    unfolding check_output
    check_output-none h = elim (Option-cases faults.stat) [
      | inr (e, q) ↦ cc (rw (check_output, q) at h)
      | inl q ↦ elim (Option-cases out.final) [
        | inl free ↦ free
        | inr (db, f) ↦ cc (rw (check_output, q, f) at h)
      ]
    ]

    -- `Restore`, with both indexes given: where it fails it leaves the output path as it was. Where it
    -- succeeds there was nothing at the output path, and it holds the database that the snapshot and
    -- the downloaded WALs, one for each input from the snapshot's index on and in order, give when they
    -- are applied one after the other. If the snapshot's index is the target, a WAL that is not found
    -- ends this.
    pub restore-Restored :
        (filename : Text)
        → Restored (
            restore lz4 client faults apply downloads parallelism filename generation
              (some snapshot)
              (some target)
              out)
    unfolding restore check_restore
    restore-Restored filename = elim (Bool-cases (text_eq filename [])) [
      | inl e ↦ rw (restore, check_restore, e) refl
      | inr e ↦ elim (Bool-cases (text_eq generation [])) [
        | inl g ↦ rw (restore, check_restore, e, g) refl
        | inr g ↦ elim (Result-cases (check_output faults out)) [
          | inl (x, q) ↦ rw (restore, check_restore, e, g, q) refl
          | inr (tt, q) ↦
              rw (restore, check_restore, e, g, q)
                (restore_from-Restored _ refl (check_output-none q))
        ]
      ]
    ]
