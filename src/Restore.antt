-- ===== src/Restore.antt =====
-- replica_client.go: `Restore` and `RestoreSnapshot`. What `WALDownloader.Next` returns, call by call,
-- is a list; behind its end it returns io.EOF. Applying a WAL file is SQLite's: a parameter.
pub mod Restored
pub mod Command
use litestream.Prelude.{
  ℕ, Bool, true, false, ◌&&◌, ltb, Option, none, some, List, [], ◌∷◌, ◌++◌, Error, eof, not_exist,
  wal_not_found, message, wrap, Result, ok, err, ◌>>=◌, ◌>>◌, wrapping, failing, if◌then◌else◌,
  ◌==◌, map,
}
use litestream.Text.{Text, text_eq}
use litestream.Client.{ReplicaClient}
use litestream.Db.Disk.{Lz4}
use litestream.Downloader.{
  WalDownloadInput, DownloadFaults, check_range, init_input_ch, download_wal,
}

-- The database at the output path and the one at the temporary path, if they are there.
pub record Output : Type 0 where
  pub final : Option (List ℕ)
  pub tmp : Option (List ℕ)

-- What the file system refuses: looking for the output, removing the files of an older database,
-- creating the temporary file, syncing or closing it, and the rename.
pub record RestoreFaults : Type 0 where
  pub stat : Option Error
  pub remove : Option Error
  pub create : Option Error
  pub finish : Option Error
  pub rename : Option Error

-- The workers hand over the indexes in order up to the first failure.
unfoldable pub next_downloads :
    Lz4 → ReplicaClient → DownloadFaults → Text → List WalDownloadInput → List (Result (ℕ × List ℕ))
next_downloads lz4 client faults generation [] = []
next_downloads lz4 client faults generation (input ∷ inputs) =
    let rest = next_downloads lz4 client faults generation inputs in
    elim (download_wal lz4 client faults generation input) [
      | err e ↦ err e ∷ []
      | ok file ↦ ok (input.index, file) ∷ rest
    ]

abbrev pub after_init :
    Lz4
    → ReplicaClient
    → DownloadFaults
    → Text
    → List WalDownloadInput × Result (Unit {0})
    → List (Result (ℕ × List ℕ))
after_init lz4 client faults generation (inputs, err e) = err e ∷ []
after_init lz4 client faults generation (inputs, ok _) =
    next_downloads lz4 client faults generation inputs

-- All that Next returns before io.EOF or up to an error.
unfoldable pub next_results :
    Lz4 → ReplicaClient → DownloadFaults → Text → ℕ → ℕ → ℕ → List (Result (ℕ × List ℕ))
next_results lz4 client faults generation min_index max_index parallelism =
    elim (check_range (some min_index) (some max_index) parallelism) [
      | err e ↦ err e ∷ []
      | ok _ ↦
          after_init lz4 client faults generation
            (init_input_ch client generation min_index max_index)
    ]

abbrev pub restore_parallelism : ℕ → ℕ
restore_parallelism n = if ltb n 1 then 8 else n

abbrev is_not_found : Error → Bool
is_not_found (wal_not_found index) = true
is_not_found _ = false

module _ (apply : List ℕ → List ℕ → Result (List ℕ)) where
  -- The loop of Restore, on the database in the temporary file; `single` says that the snapshot's
  -- index is the target. Its result is the error and what the temporary file holds.
  unfoldable pub apply_wals :
      Bool → List ℕ → List (Result (ℕ × List ℕ)) → Result (Unit {0}) × List ℕ
  apply_wals single db [] = (ok tt, db)
  apply_wals single db (err e ∷ results) =
      if single && is_not_found e then (ok tt, db) else (err (wrap "cannot download WAL" e), db)
  apply_wals single db (ok (index, wal) ∷ results) = elim (apply db wal) [
    | err e ↦ (err (wrap "cannot apply wal" e), db)
    | ok db' ↦ apply_wals single db' results
  ]

-- The checks of Restore; an index that is not given is `none`.
unfoldable pub check_restore : Text → Text → Option ℕ → Option ℕ → Result (ℕ × ℕ)
check_restore filename generation snapshot_index target_index =
    if text_eq filename []
    then err (message "restore path required")
    else if text_eq generation []
    then err (message "generation required")
    else elim snapshot_index [
      | none ↦ err (message "snapshot index required")
      | some snapshot ↦ elim target_index [
        | none ↦ err (message "target index required")
        | some target ↦ ok (snapshot, target)
      ]
    ]

unfoldable pub check_output : RestoreFaults → Output → Result (Unit {0})
check_output faults out = elim faults.stat [
  | some e ↦ err e
  | none ↦ elim out.final [
    | some db ↦ err (message "cannot restore, output path already exists")
    | none ↦ failing faults.remove
  ]
]

abbrev pub renamed : Option Error → Output → List ℕ → Result (Unit {0}) × Output
renamed (some e) out db = (err e, record out { tmp = some db })
renamed none out db = (ok tt, record { final = some db; tmp = none })

abbrev pub rename : RestoreFaults → Output → Result (Unit {0}) × List ℕ → Result (Unit {0}) × Output
rename faults out (err e, db) = (err e, record out { tmp = some db })
rename faults out (ok _, db) = renamed faults.rename out db

module _ (lz4 : Lz4) (client : ReplicaClient) (faults : RestoreFaults) where
  -- RestoreSnapshot, into the temporary file: what it holds, where the call succeeds. What a failed
  -- call leaves in it is left out.
  unfoldable pub restore_snapshot : Text → ℕ → Result (List ℕ)
  restore_snapshot generation index = do
    failing faults.create
    rd ← client.snapshot_reader generation index
    bytes ← lz4.decompress rd
    failing faults.finish
    ok bytes

  module _ (apply : List ℕ → List ℕ → Result (List ℕ)) (downloads : DownloadFaults)
      (parallelism : ℕ) where
    abbrev pub restore_from : Text → ℕ × ℕ → Output → Result (List ℕ) → Result (Unit {0}) × Output
    restore_from generation (snapshot, target) out (err e) =
        (err (wrap "cannot restore snapshot" e), out)
    restore_from generation (snapshot, target) out (ok db) = rename faults out (
        apply_wals apply (snapshot == target) db (
          next_results lz4 client downloads generation snapshot target
            (restore_parallelism parallelism)))

    -- Restore
    unfoldable pub restore : Text → Text → Option ℕ → Option ℕ → Output → Result (Unit {0}) × Output
    restore filename generation snapshot_index target_index out =
        elim (check_restore filename generation snapshot_index target_index) [
          | err e ↦ (err e, out)
          | ok (snapshot, target) ↦ elim (check_output faults out) [
            | err e ↦ (err e, out)
            | ok _ ↦
                restore_from generation (snapshot, target) out
                  (restore_snapshot generation snapshot)
          ]
        ]
