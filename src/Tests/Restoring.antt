-- ===== src/Tests/Restoring.antt =====
-- The restore command on the replica of Searches: of everything, to a path that exists, and to a time
-- before the first snapshot.
use litestream.Prelude.{
  ℕ, ◌≡◌, ◌⊎◌, refl, inl, Bool, true, false, none, some, [], ◌∷◌, Error, Result, ok, err, All,
  arith,
}
use litestream.Text.{Text, text_eq}
use litestream.Client.{ReplicaClient, Time}
use litestream.Client.Index.{Any, listing}
use litestream.Client.Bounds.{
  widen, bounds_loop, or_zero_time, snapshot_time_bounds, wal_time_bounds, generation_time_bounds,
  latest_loop, latest_of, find_latest_generation,
}
use litestream.Client.Bounds.Newest.{Updated, NotAfter}
use litestream.Config.{Config, default_config, Replica}
use litestream.Restore.{Output}
use litestream.Restore.Restored.{Restored}
use litestream.Restore.Command.{RestoreCommand, chosen, choose, run_on, run}
use litestream.Restore.Command.Latest.{Newest, run_on-Newest}
use litestream.Restore.Command.Spares.{run-Spares}
use litestream.Restore.Command.Early.{choose-too_early}
use litestream.Downloader.Join.{no_faults}
use litestream.Tests.Shadow.{plain_lz4}
use litestream.Tests.Searches.{generation, snapshot, all_snapshots, all_segments}
use litestream.Tests.Remote.{root, with_snapshot, apply, restore_faults, no_output}
use litestream.Tests.Configs.{lib, parse_host}

abbrev command : RestoreCommand
command = record {
  config_path = [];
  no_expand_env = false;
  output_path = root;
  replica_name = [];
  generation = [];
  target_index = none;
  timestamp = [];
  parallelism = 1;
  if_db_not_exists = true;
  if_replica_exists = false;
}

abbrev connect : Replica → ReplicaClient
connect r = with_snapshot

run_on-Newest_example :
    ((latest : Time) × Any (λ x. x ≡ generation) (generation ∷ [])
      × Updated with_snapshot latest generation
      × All (NotAfter with_snapshot latest) (generation ∷ []))
    × (base : ℕ) × (target : ℕ) × Newest all_snapshots all_segments base target
    × Restored plain_lz4 with_snapshot apply no_faults generation restore_faults 1 base target
        no_output
        (run_on lib parse_host connect plain_lz4 restore_faults apply no_faults none none command 0
          with_snapshot no_output)
unfolding find_latest_generation latest_of latest_loop generation_time_bounds wal_time_bounds
    snapshot_time_bounds or_zero_time bounds_loop widen text_eq
run_on-Newest_example =
    run_on-Newest lib parse_host connect plain_lz4 restore_faults apply no_faults none command
      with_snapshot (generation ∷ []) generation (snapshot 3 50) (snapshot 5 90 ∷ []) all_segments
      no_output refl refl refl refl refl refl

abbrev taken : Output
taken = record { final = some (7 ∷ []); tmp = none }

abbrev load : Bool → Text → Result Config
load expands path = ok default_config

abbrev parse_time : Text → Result Time
parse_time s = ok 10

run-Spares_example :
    ((e : Error) × (run lib parse_host connect plain_lz4 restore_faults apply no_faults none none
          load root parse_time command
          (root ∷ [])
          taken
        ≡ (err e, taken)))
    ⊎ ((command.if_db_not_exists ≡ true)
        × (run lib parse_host connect plain_lz4 restore_faults apply no_faults none none load root
              parse_time command
              (root ∷ [])
              taken
            ≡ (ok tt, taken)))
run-Spares_example =
    run-Spares lib parse_host connect plain_lz4 restore_faults apply no_faults none load root
      parse_time command (root ∷ []) taken (7 ∷ []) refl

-- A replica whose snapshots begin with index 0.
abbrev from_zero : ReplicaClient
from_zero = record with_snapshot {
  snapshots = λ g. ok (listing (snapshot 0 50 ∷ snapshot 5 90 ∷ []));
}

choose-too_early_example :
    choose (record command { generation = generation }) 10 from_zero ≡ ok (chosen generation 0 0)
unfolding text_eq
choose-too_early_example =
    choose-too_early from_zero generation 10 (snapshot 0 50) (snapshot 5 90 ∷ [])
      (record command { generation = generation }) all_segments refl refl (omega arith) refl refl
      (omega arith, (omega arith, tt)) (omega arith, (omega arith, (omega arith, tt))) (inl refl)
