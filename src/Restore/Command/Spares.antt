-- ===== src/Restore/Command/Spares.antt =====
-- A restore to a path that exists.
use litestream.Prelude.{
  ℕ, ◌≡◌, refl, ◌⊎◌, inl, inr, Bool, true, false, message, if◌then◌else◌, Option, none, some, List,
  Error, Result, ok, err, Bool-cases, ap, ◌∙◌,
}
use litestream.Text.{Text}
use litestream.Client.{ReplicaClient, Time}
use litestream.Config.Url.{Library}
use litestream.Config.Clients.{HostParts}
use litestream.Config.{Config, Replica}
use litestream.Db.Disk.{Lz4}
use litestream.Downloader.{DownloadFaults}
use litestream.Restore.{Output, RestoreFaults}
use litestream.Restore.Command.{RestoreCommand, with_output, stat_output, goes_on, run_checked, run}

module _ (lib : Library) (parse_host : Text → HostParts) (connect : Replica → ReplicaClient)
    (lz4 : Lz4) (faults : RestoreFaults) (apply : List ℕ → List ℕ → Result (List ℕ))
    (downloads : DownloadFaults) (mkdir : Option Error) (load : Bool → Text → Result Config)
    (default_path : Text) (parse_time : Text → Result Time) where
  abbrev Refused : RestoreCommand → Output → Result (Unit {0}) × Output → Type 0
  Refused c out r =
      ((e : Error) × (r ≡ (err e, out))) ⊎ ((c.if_db_not_exists ≡ true) × (r ≡ (ok tt, out)))

  existing :
      (c : RestoreCommand) (arg : Text) (out : Output) (db : List ℕ)
      → out.final ≡ some db
      → goes_on (with_output c arg) (stat_output none out.final)
        ≡ (if c.if_db_not_exists then ok false else err (message "output file already exists"))
  unfolding goes_on
  existing c arg out db h = ap (λ f. goes_on (with_output c arg) (stat_output none f)) h

  checked_flags-Refused :
      (c : RestoreCommand) (out : Output) (db : List ℕ) (r : Result (Text × Time))
      → out.final ≡ some db
      → Refused c out (
          run_checked lib parse_host connect lz4 faults apply downloads none mkdir load default_path
            parse_time c out r)
  checked_flags-Refused c out db (err e) h = inl (e, refl)
  checked_flags-Refused c out db (ok (arg, t)) h = elim (Bool-cases c.if_db_not_exists) [
    | inl q ↦
        let stops : goes_on (with_output c arg) (stat_output none out.final) ≡ ok false =
          existing c arg out db h ∙ simp q in
        inr (q, simp stops)
    | inr q ↦
        let refuses : goes_on (with_output c arg) (stat_output none out.final)
            ≡ err (message "output file already exists") =
          existing c arg out db h ∙ simp q in
        inl (message "output file already exists", simp refuses)
  ]

  -- Where the output path exists, the command changes nothing: it ends with an error, or, with
  -- -if-db-not-exists, well.
  pub run-Spares :
      (c : RestoreCommand) (args : List Text) (out : Output) (db : List ℕ)
      → out.final ≡ some db
      → ((e : Error) × (run lib parse_host connect lz4 faults apply downloads none mkdir load
              default_path parse_time c args out
            ≡ (err e, out)))
        ⊎ ((c.if_db_not_exists ≡ true)
            × (run lib parse_host connect lz4 faults apply downloads none mkdir load default_path
                  parse_time c args out
                ≡ (ok tt, out)))
  unfolding run
  run-Spares c args out db h = checked_flags-Refused c out db _ h
