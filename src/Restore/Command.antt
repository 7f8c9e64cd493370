-- ===== src/Restore/Command.antt =====
-- cmd/litestream/restore.go: `RestoreCommand`, from the arguments to the call of `Restore`. What it
-- prints is left out.

pub mod Latest
pub mod Spares
pub mod Early
use litestream.Prelude.{
  ℕ, Bool, true, false, not, ◌&&◌, Option, none, some, List, [], ◌∷◌, Error, message, wrap,
  not_exist, no_generation, Result, ok, err, ◌>>=◌, ◌>>◌, wrapping, failing, if◌then◌else◌, ◌==◌,
  map,
}
use litestream.Text.{Text, text_eq}
use litestream.Client.{ReplicaClient, Time}
use litestream.Client.Search.{
  find_snapshot_for_index, find_max_index_by_generation, find_index_by_timestamp,
}
use litestream.Client.Bounds.{find_latest_generation}
use litestream.Replica.Times.{latest_replica}
use litestream.Config.Url.{Library, is_url, expand}
use litestream.Config.Clients.{HostParts, ReplicaConfig, is_set}
use litestream.Config.{
  Config, DbConfig, DbSettings, Replica, replica_name, second, db_config, read_config_file,
  new_replica_from_config, new_db_from_config, url_config,
}
use litestream.Db.Disk.{Lz4}
use litestream.Downloader.{DownloadFaults}
use litestream.Restore.{Output, RestoreFaults, restore}

-- The flags, as package flag parses them; `none` is the index -1, and no other index is negative.
pub record RestoreCommand : Type 0 where
  pub config_path : Text
  pub no_expand_env : Bool
  pub output_path : Text
  pub replica_name : Text
  pub generation : Text
  pub target_index : Option ℕ
  pub timestamp : Text
  pub parallelism : ℕ
  pub if_db_not_exists : Bool
  pub if_replica_exists : Bool

-- What is left of the arguments behind the flags.
unfoldable pub path_or_url : List Text → Result Text
path_or_url [] = err (message "database path or replica URL required")
path_or_url (arg ∷ args) =
    if text_eq arg []
    then err (message "database path or replica URL required")
    else elim args [ [] ↦ ok arg | _ ∷ _ ↦ err (message "too many arguments") ]

-- The time of the flag; without the flag it is the zero time.
abbrev pub timestamp_of : (Text → Result Time) → Text → Result Time
timestamp_of parse_time s =
    if is_set s then wrapping "invalid -timestamp, expected ISO 8601" (parse_time s) else ok 0

abbrev pub is_given : Option ℕ → Bool
is_given none = false
is_given (some index) = true

unfoldable pub check_flags : RestoreCommand → Time → Result (Unit {0})
check_flags c t =
    if is_given c.target_index && not (t == 0)
    then err (message "cannot specify both -index flag and -timestamp flag")
    else if is_given c.target_index && text_eq c.generation []
    then err (message "must specify -generation flag when using -index flag")
    else if not (t == 0) && text_eq c.generation []
    then err (message "must specify -generation flag when using -timestamp flag")
    else ok tt

abbrev pub with_output : RestoreCommand → Text → RestoreCommand
with_output c arg = record c {
  output_path = if not (is_url arg) && text_eq c.output_path [] then arg else c.output_path;
}

-- os.Stat of the output path.
abbrev pub stat_output : Option Error → Option (List ℕ) → Result (Unit {0})
stat_output (some e) file = err e
stat_output none none = err not_exist
stat_output none (some db) = ok tt

-- Whether the command goes on.
unfoldable pub goes_on : RestoreCommand → Result (Unit {0}) → Result Bool
goes_on c (err not_exist) = ok true
goes_on c (err e) = err e
goes_on c (ok _) =
    if c.if_db_not_exists then ok false else err (message "output file already exists")

-- What to restore, or that there are no backups and that is no error.
pub data Choice : Type 0 where
  no_backups : Choice
  chosen : Text → ℕ → ℕ → Choice

abbrev pub latest_or_skip : RestoreCommand → Result Text → Result (Option Text)
latest_or_skip c (ok g) = ok (some g)
latest_or_skip c (err no_generation) =
    if c.if_replica_exists then ok none else err (message "no matching backups found")
latest_or_skip c (err e) = err (wrap "cannot determine latest generation" e)

unfoldable pub choose_generation : RestoreCommand → ReplicaClient → Result (Option Text)
choose_generation c client =
    if text_eq c.generation []
    then latest_or_skip c (find_latest_generation client)
    else ok (some c.generation)

abbrev pub given_or_max : ReplicaClient → Text → Option ℕ → Result ℕ
given_or_max client g none =
    wrapping "cannot determine latest index in generation" (find_max_index_by_generation client g)
given_or_max client g (some index) = ok index

unfoldable pub choose_target : RestoreCommand → Time → ReplicaClient → Text → Result ℕ
choose_target c t client g =
    if not (t == 0)
    then wrapping "cannot find index for timestamp in generation"
        (find_index_by_timestamp client g t)
    else given_or_max client g c.target_index

abbrev pub choose_indexes : RestoreCommand → Time → ReplicaClient → Option Text → Result Choice
choose_indexes c t client none = ok no_backups
choose_indexes c t client (some g) = do
  target ← choose_target c t client g
  snapshot ← wrapping "cannot find snapshot index" (find_snapshot_for_index client g target)
  ok (chosen g snapshot target)

unfoldable pub choose : RestoreCommand → Time → ReplicaClient → Result Choice
choose c t client = do g ← choose_generation c client; choose_indexes c t client g

-- `connect` is the client of a replica, as far as it reads.
module _ (lib : Library) (parse_host : Text → HostParts) (connect : Replica → ReplicaClient) where
  -- loadReplicaFromURL
  unfoldable pub load_replica_from_url : RestoreCommand → Config → Text → Result ReplicaClient
  load_replica_from_url c config url =
      if is_set c.replica_name
      then err (message "cannot specify both the replica URL and the -replica flag")
      else if text_eq c.output_path []
      then err (message "output path required when using a replica URL")
      else (do
        r ←
            new_replica_from_config lib parse_host
              (record (url_config lib parse_host url config.access_key_id
                config.secret_access_key) { sync_interval = some second })
        ok (connect r))

  -- DB.Replica, and the error where it is nil.
  abbrev pub find_replica : Text → List Replica → Result ReplicaClient
  find_replica name [] = err (message "replica not found")
  find_replica name (r ∷ replicas) =
      let rest = find_replica name replicas in
      if text_eq (replica_name r) name then ok (connect r) else rest

  -- LatestReplica of replicas that there are returns one of them.
  abbrev pub one_of : Option (ReplicaClient × Time) → Result ReplicaClient
  one_of none = err (message "no replicas")
  one_of (some (client, _)) = ok client

  abbrev pub pick_replica : RestoreCommand → List Replica → Result ReplicaClient
  pick_replica c [] = err (message "database has no replicas")
  pick_replica c (r ∷ replicas) =
      if is_set c.replica_name then find_replica c.replica_name (r ∷ replicas) else elim replicas [
        | [] ↦ ok (connect r)
        | other ∷ others ↦
            if is_set c.generation
            then err
                (message "must specify -replica flag when restoring from a specific generation")
            else (do
              latest ←
                  wrapping "cannot determine latest replica"
                    (latest_replica (map connect (r ∷ other ∷ others)))
              one_of latest)
      ]

  abbrev pub from_db_config : RestoreCommand → Option DbConfig → Result ReplicaClient
  from_db_config c none = err (message "database not found in config")
  from_db_config c (some dbc) = do
    db ← new_db_from_config lib parse_host dbc
    pick_replica c db.replicas

  -- loadReplicaFromConfig
  unfoldable pub load_replica_from_config : RestoreCommand → Config → Text → Result ReplicaClient
  load_replica_from_config c config path = do
    absolute ← expand lib path
    from_db_config c (db_config config absolute)

  -- loadReplica
  unfoldable pub load_replica : RestoreCommand → Config → Text → Result ReplicaClient
  load_replica c config arg =
      if is_url arg
      then load_replica_from_url c config arg
      else load_replica_from_config c config arg

  -- Restore, with what its parts are given: the decompression, what the file system refuses it and
  -- the downloads, how SQLite applies a WAL, the stat before it and the parent directory.
  module _ (lz4 : Lz4) (faults : RestoreFaults) (apply : List ℕ → List ℕ → Result (List ℕ))
      (downloads : DownloadFaults) (stat mkdir : Option Error) where
    abbrev pub restore_choice :
        RestoreCommand → ReplicaClient → Output → Result Choice → Result (Unit {0}) × Output
    restore_choice c client out (err e) = (err e, out)
    restore_choice c client out (ok no_backups) = (ok tt, out)
    restore_choice c client out (ok (chosen g snapshot target)) = elim mkdir [
      | some e ↦ (err (wrap "cannot create parent directory" e), out)
      | none ↦
          restore lz4 client faults apply downloads c.parallelism c.output_path g (some snapshot)
            (some target) out
    ]

    -- What Run does once it has a replica.
    unfoldable pub run_on :
        RestoreCommand → Time → ReplicaClient → Output → Result (Unit {0}) × Output
    run_on c t client out = restore_choice c client out (choose c t client)

    -- `load` reads a configuration, with the variables of the environment expanded or not.
    module _ (load : Bool → Text → Result Config) (default_path : Text)
        (parse_time : Text → Result Time) where
      abbrev pub run_loaded :
          RestoreCommand → Time → Output → Result ReplicaClient → Result (Unit {0}) × Output
      run_loaded c t out (err e) = (err e, out)
      run_loaded c t out (ok client) = run_on c t client out

      abbrev pub load_for : RestoreCommand → Text → Result ReplicaClient
      load_for c arg = do
        config ← read_config_file lib (load (not c.no_expand_env)) default_path c.config_path
        load_replica c config arg

      abbrev pub run_going :
          RestoreCommand → Text → Time → Output → Result Bool → Result (Unit {0}) × Output
      run_going c arg t out (err e) = (err e, out)
      run_going c arg t out (ok false) = (ok tt, out)
      run_going c arg t out (ok true) = run_loaded c t out (load_for c arg)

      abbrev pub checked_flags : RestoreCommand → List Text → Result (Text × Time)
      checked_flags c args = do
        arg ← path_or_url args
        t ← timestamp_of parse_time c.timestamp
        check_flags c t
        ok (arg, t)

      abbrev pub run_checked :
          RestoreCommand → Output → Result (Text × Time) → Result (Unit {0}) × Output
      run_checked c out (err e) = (err e, out)
      run_checked c out (ok (arg, t)) =
          let named = with_output c arg in
          run_going named arg t out (goes_on named (stat_output stat out.final))

      -- Run, on the flags and the other arguments.
      unfoldable pub run : RestoreCommand → List Text → Output → Result (Unit {0}) × Output
      run c args out = run_checked c out (checked_flags c args)
