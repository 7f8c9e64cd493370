-- ===== src/Config.antt =====
-- cmd/litestream/main.go: the configuration file, and the databases and replicas that are built
-- from it.
pub mod Url
pub mod Clients
pub mod Settled
pub mod Configured
pub mod PathStyle
use litestream.Prelude.{
  ℕ, ◌*◌, Bool, true, false, Option, none, some, List, [], ◌∷◌, ◌++◌, Error, not_exist, message,
  Result, ok, err, ◌>>=◌, ◌>>◌, if◌then◌else◌,
}
use litestream.Text.{Text, text_eq}
use litestream.Config.Url.{Library, file_type, is_url, parse_replica_url, expand}
use litestream.Config.Clients.{
  ReplicaConfig, HostParts, Client, file_client, s3_client, gs_client, abs_client, sftp_client,
  or_else, is_set, refuse_if, new_file_client, new_s3_client, new_gs_client, new_abs_client,
  new_sftp_client,
}

abbrev pub s3_type : Text
s3_type = b's' ∷ b'3' ∷ []

abbrev pub gs_type : Text
gs_type = b'g' ∷ b's' ∷ []

abbrev pub abs_type : Text
abs_type = b'a' ∷ b'b' ∷ b's' ∷ []

abbrev pub sftp_type : Text
sftp_type = b's' ∷ b'f' ∷ b't' ∷ b'p' ∷ []

-- Nanoseconds.
abbrev pub second : ℕ
second = 1000 * 1000 * 1000

abbrev pub or_default : ℕ → Option ℕ → ℕ
or_default v none = v
or_default v (some w) = w

-- What the configuration sets of a Replica.
pub record Replica : Type 0 where
  pub name : Text
  pub client : Client
  pub sync_interval : ℕ
  pub snapshot_interval : ℕ
  pub retention : ℕ
  pub retention_check_interval : ℕ
  pub validation_interval : ℕ

-- Client.Type
abbrev pub client_type : Client → Text
client_type (file_client path) = file_type
client_type (s3_client settings) = s3_type
client_type (gs_client bucket path) = gs_type
client_type (abs_client settings) = abs_type
client_type (sftp_client settings) = sftp_type

-- Replica.Name
abbrev pub replica_name : Replica → Text
replica_name r = or_else r.name (client_type r.client)

module _ (lib : Library) (parse_host : Text → HostParts) where
  -- ReplicaType
  unfoldable pub replica_type : ReplicaConfig → Text
  replica_type c = or_else (parse_replica_url lib c.url).0.0 (or_else c.type_name file_type)

  -- The switch of NewReplicaFromConfig.
  unfoldable pub new_client : ReplicaConfig → Text → Result Client
  new_client c t =
      if text_eq t file_type
      then new_file_client lib parse_host c
      else if text_eq t s3_type
      then new_s3_client lib parse_host c
      else if text_eq t gs_type
      then new_gs_client lib parse_host c
      else if text_eq t abs_type
      then new_abs_client lib parse_host c
      else if text_eq t sftp_type
      then new_sftp_client lib parse_host c
      else err (message "unknown replica type in config")

  -- NewReplica, with the settings that are there.
  abbrev pub replica_with : ReplicaConfig → Client → Replica
  replica_with c client = record {
    name = c.name;
    client = client;
    sync_interval = or_default second c.sync_interval;
    snapshot_interval = or_default 0 c.snapshot_interval;
    retention = or_default (24 * 3600 * second) c.retention;
    retention_check_interval = or_default (3600 * second) c.retention_check_interval;
    validation_interval = or_default 0 c.validation_interval;
  }

  -- NewReplicaFromConfig
  unfoldable pub new_replica_from_config : ReplicaConfig → Result Replica
  new_replica_from_config c = do
    refuse_if (is_url c.path)
        (message "replica path cannot be a url, please use the 'url' field instead")
    client ← new_client c (replica_type c)
    ok (replica_with c client)

pub record DbConfig : Type 0 where
  pub path : Text
  pub monitor_delay_interval : Option ℕ
  pub checkpoint_interval : Option ℕ
  pub min_checkpoint_page_n : Option ℕ
  pub max_checkpoint_page_n : Option ℕ
  pub shadow_retention_n : Option ℕ
  pub replicas : List ReplicaConfig

-- What the configuration sets of a DB.
pub record DbSettings : Type 0 where
  pub path : Text
  pub monitor_delay_interval : ℕ
  pub checkpoint_interval : ℕ
  pub min_checkpoint_page_n : ℕ
  pub max_checkpoint_page_n : ℕ
  pub shadow_retention_n : ℕ
  pub replicas : List Replica

pub record Config : Type 0 where
  pub addr : Text
  pub dbs : List DbConfig
  pub exec : Text
  pub access_key_id : Text
  pub secret_access_key : Text

abbrev pub default_config : Config
default_config = record {
  addr = [];
  dbs = [];
  exec = [];
  access_key_id = [];
  secret_access_key = [];
}

abbrev pub with_keys : Text → Text → List ReplicaConfig → List ReplicaConfig
with_keys key secret [] = []
with_keys key secret (rc ∷ replicas) =
    record rc {
      access_key_id = or_else rc.access_key_id key;
      secret_access_key = or_else rc.secret_access_key secret;
    }
    ∷ with_keys key secret replicas

abbrev pub dbs_with_keys : Text → Text → List DbConfig → List DbConfig
dbs_with_keys key secret [] = []
dbs_with_keys key secret (dbc ∷ dbs) =
    record dbc { replicas = with_keys key secret dbc.replicas } ∷ dbs_with_keys key secret dbs

-- propagateGlobalSettings
unfoldable pub propagate_global_settings : Config → Config
propagate_global_settings c = record c {
  dbs = dbs_with_keys c.access_key_id c.secret_access_key c.dbs;
}

abbrev find_config : Text → List DbConfig → Option DbConfig
find_config path [] = none
find_config path (dbc ∷ dbs) =
    let rest = find_config path dbs in if text_eq dbc.path path then some dbc else rest

-- DBConfig
unfoldable pub db_config : Config → Text → Option DbConfig
db_config c path = find_config path c.dbs

abbrev is_not_exist : Error → Bool
is_not_exist not_exist = true
is_not_exist _ = false

abbrev local_name : Text
local_name =
    b'.' ∷ b'/' ∷ b'l' ∷ b'i' ∷ b't' ∷ b'e' ∷ b's' ∷ b't' ∷ b'r' ∷ b'e' ∷ b'a' ∷ b'm' ∷ b'.' ∷ b'y'
    ∷ b'm' ∷ b'l' ∷ []

-- `load` reads a file, expands the environment's variables in it and unmarshals it over the default
-- configuration; `default_path` is DefaultConfigPath.
module _ (lib : Library) (load : Text → Result Config) (default_path : Text) where
  abbrev expand_paths : List DbConfig → Result (List DbConfig)
  expand_paths [] = ok []
  expand_paths (dbc ∷ dbs) = do
    path ← expand lib dbc.path
    rest ← expand_paths dbs
    ok (record dbc { path = path } ∷ rest)

  -- readConfigFile
  unfoldable pub read_one : Text → Result Config
  read_one filename = do
    absolute ← expand lib filename
    config ← load absolute
    dbs ← expand_paths config.dbs
    ok (propagate_global_settings (record config { dbs = dbs }))

  abbrev pub or_next : Text → Text → Result Config → Result Config → Result Config
  or_next filename name (ok config) next = ok config
  or_next filename name (err e) next =
      if is_not_exist e
      then (if text_eq name filename then err (message "config file not found") else next)
      else err e

  abbrev pub try_names : Text → List Text → Result Config
  try_names filename [] = ok default_config
  try_names filename (name ∷ names) =
      or_next filename name (read_one name) (try_names filename names)

  -- ReadConfigFile
  unfoldable pub read_config_file : Text → Result Config
  read_config_file filename =
      try_names filename
        ((if is_set filename then filename ∷ [] else []) ++ local_name ∷ default_path ∷ [])

module _ (lib : Library) (parse_host : Text → HostParts) where
  abbrev pub new_replicas : List ReplicaConfig → Result (List Replica)
  new_replicas [] = ok []
  new_replicas (rc ∷ replicas) = do
    r ← new_replica_from_config lib parse_host rc
    rest ← new_replicas replicas
    ok (r ∷ rest)

  -- NewDBFromConfigWithPath
  unfoldable pub new_db_from_config_with_path : DbConfig → Text → Result DbSettings
  new_db_from_config_with_path dbc path = do
    replicas ← new_replicas dbc.replicas
    ok (record {
      path = path;
      monitor_delay_interval = or_default (10 * 1000 * 1000) dbc.monitor_delay_interval;
      checkpoint_interval = or_default (60 * second) dbc.checkpoint_interval;
      min_checkpoint_page_n = or_default 1000 dbc.min_checkpoint_page_n;
      max_checkpoint_page_n = or_default 10000 dbc.max_checkpoint_page_n;
      shadow_retention_n = or_default 32 dbc.shadow_retention_n;
      replicas = replicas;
    })

  -- NewDBFromConfig
  unfoldable pub new_db_from_config : DbConfig → Result DbSettings
  new_db_from_config dbc = do path ← expand lib dbc.path; new_db_from_config_with_path dbc path

  abbrev named : Text → List Replica → Result (List Replica)
  named name [] = err (message "replica not found for database")
  named name (r ∷ replicas) =
      let rest = named name replicas in if text_eq (replica_name r) name then ok (r ∷ []) else rest

  abbrev from_config : Option DbConfig → Text → Result (List Replica × Option DbSettings)
  from_config none name = err (message "database not found in config")
  from_config (some dbc) name = do
    db ← new_db_from_config dbc
    replicas ← (if is_set name then named name db.replicas else ok db.replicas)
    ok (replicas, some db)

  -- A configuration that has only a URL and the keys.
  abbrev pub url_config : Text → Text → Text → ReplicaConfig
  url_config url key secret = record {
    type_name = [];
    name = [];
    path = [];
    url = url;
    retention = none;
    retention_check_interval = none;
    sync_interval = none;
    snapshot_interval = none;
    validation_interval = none;
    access_key_id = key;
    secret_access_key = secret;
    region = [];
    bucket = [];
    endpoint = [];
    force_path_style = none;
    skip_verify = false;
    account_name = [];
    account_key = [];
    host = [];
    user = [];
    password = [];
    key_path = [];
  }

  -- loadReplicas
  unfoldable pub load_replicas : Config → Text → Text → Result (List Replica × Option DbSettings)
  load_replicas config path_or_url name =
      if is_url path_or_url
      then (do
        r ←
            new_replica_from_config lib parse_host
              (url_config path_or_url config.access_key_id config.secret_access_key)
        ok (r ∷ [], none))
      else (do path ← expand lib path_or_url; from_config (db_config config path) name)
