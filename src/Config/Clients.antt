-- ===== src/Config/Clients.antt =====
-- cmd/litestream/main.go: the configuration of a replica, and the clients that are built from it.
use litestream.Prelude.{
  ℕ, Bool, not, ◌&&◌, Option, none, some, [], Error, message, Result, ok, err, ◌>>=◌, ◌>>◌,
  if◌then◌else◌,
}
use litestream.Text.{Text, text_eq}
use litestream.Config.Url.{Url, Library, trim_slash, parse_replica_url, expand}

-- Durations are numbers. A blank text is a setting that is not there.
pub record ReplicaConfig : Type 0 where
  pub type_name : Text
  pub name : Text
  pub path : Text
  pub url : Text
  pub retention : Option ℕ
  pub retention_check_interval : Option ℕ
  pub sync_interval : Option ℕ
  pub snapshot_interval : Option ℕ
  pub validation_interval : Option ℕ
  pub access_key_id : Text
  pub secret_access_key : Text
  pub region : Text
  pub bucket : Text
  pub endpoint : Text
  pub force_path_style : Option Bool
  pub skip_verify : Bool
  pub account_name : Text
  pub account_key : Text
  pub host : Text
  pub user : Text
  pub password : Text
  pub key_path : Text

-- The fields of s3.ReplicaClient that the configuration sets.
pub record S3Settings : Type 0 where
  pub access_key_id : Text
  pub secret_access_key : Text
  pub bucket : Text
  pub path : Text
  pub region : Text
  pub endpoint : Text
  pub force_path_style : Bool
  pub skip_verify : Bool

pub record AbsSettings : Type 0 where
  pub account_name : Text
  pub account_key : Text
  pub bucket : Text
  pub path : Text
  pub endpoint : Text

pub record SftpSettings : Type 0 where
  pub host : Text
  pub user : Text
  pub password : Text
  pub path : Text
  pub key_path : Text

pub data Client : Type 0 where
  file_client : Text → Client
  s3_client : S3Settings → Client
  gs_client : Text → Text → Client
  abs_client : AbsSettings → Client
  sftp_client : SftpSettings → Client

-- What s3.ParseHost makes of a host: bucket, region, endpoint, and the path style.
pub record HostParts : Type 0 where
  pub bucket : Text
  pub region : Text
  pub endpoint : Text
  pub force_path_style : Bool

-- if a == "" { a = b }
abbrev pub or_else : Text → Text → Text
or_else a b = if text_eq a [] then b else a

abbrev pub is_set : Text → Bool
is_set a = not (text_eq a [])

abbrev pub refuse_if : Bool → Error → Result (Unit {0})
refuse_if b e = if b then err e else ok tt

abbrev pub checked : {A : Type 0} → A × Option Error → Result A
checked (a, none) = ok a
checked (a, some e) = err e

abbrev pub user_name : Option (Text × Option Text) → Text
user_name none = []
user_name (some (name, password)) = name

abbrev pub user_password : Option (Text × Option Text) → Text
user_password none = []
user_password (some (name, none)) = []
user_password (some (name, some password)) = password

module _ (lib : Library) (parse_host : Text → HostParts) (c : ReplicaConfig) where
  -- newFileReplicaClientFromConfig
  unfoldable pub new_file_client : Result Client
  new_file_client = do
    refuse_if (is_set c.url && is_set c.path) (message "cannot specify url & path for file replica")
    path ←
        (if is_set c.url
          then (checked (parse_replica_url lib c.url) >>= λ parts. ok parts.2)
          else ok c.path)
    refuse_if (text_eq path []) (message "file replica path required")
    absolute ← expand lib path
    ok (file_client absolute)

  abbrev pub s3_configured : S3Settings
  s3_configured = record {
    access_key_id = c.access_key_id;
    secret_access_key = c.secret_access_key;
    bucket = c.bucket;
    path = c.path;
    region = c.region;
    endpoint = c.endpoint;
    force_path_style = elim c.force_path_style [ some v ↦ v | none ↦ is_set c.endpoint ];
    skip_verify = c.skip_verify;
  }

  -- The settings of the URL, where there are none already.
  abbrev pub s3_from_url : Text × Text × Text → S3Settings
  s3_from_url (_, host, path) =
      let u = parse_host host in
      record s3_configured {
        path = or_else c.path path;
        bucket = or_else c.bucket u.bucket;
        region = or_else c.region u.region;
        endpoint = or_else c.endpoint u.endpoint;
        force_path_style =
            if not s3_configured.force_path_style
            then u.force_path_style
            else s3_configured.force_path_style;
      }

  -- newS3ReplicaClientFromConfig
  unfoldable pub new_s3_client : Result Client
  new_s3_client = do
    refuse_if (is_set c.url && is_set c.path) (message "cannot specify url & path for s3 replica")
    refuse_if (is_set c.url && is_set c.bucket)
        (message "cannot specify url & bucket for s3 replica")
    settings ←
        (if is_set c.url
          then (checked (parse_replica_url lib c.url) >>= λ parts. ok (s3_from_url parts))
          else ok s3_configured)
    refuse_if (text_eq settings.bucket []) (message "bucket required for s3 replica")
    ok (s3_client settings)

  abbrev pub gs_from_url : Text × Text × Text → Text × Text
  gs_from_url (_, host, path) = (or_else c.bucket host, or_else c.path path)

  -- newGSReplicaClientFromConfig
  unfoldable pub new_gs_client : Result Client
  new_gs_client = do
    refuse_if (is_set c.url && is_set c.path) (message "cannot specify url & path for gs replica")
    refuse_if (is_set c.url && is_set c.bucket)
        (message "cannot specify url & bucket for gs replica")
    settings ←
        (if is_set c.url
          then (checked (parse_replica_url lib c.url) >>= λ parts. ok (gs_from_url parts))
          else ok (c.bucket, c.path))
    refuse_if (text_eq settings.0 []) (message "bucket required for gs replica")
    ok (gs_client settings.0 settings.1)

  abbrev pub abs_configured : AbsSettings
  abs_configured = record {
    account_name = c.account_name;
    account_key = c.account_key;
    bucket = c.bucket;
    path = c.path;
    endpoint = c.endpoint;
  }

  abbrev pub abs_from_url : Url → AbsSettings
  abs_from_url u = record abs_configured {
    account_name = or_else c.account_name (user_name u.user);
    bucket = or_else c.bucket u.host;
    path = or_else c.path (trim_slash (lib.clean u.path));
  }

  -- newABSReplicaClientFromConfig
  unfoldable pub new_abs_client : Result Client
  new_abs_client = do
    refuse_if (is_set c.url && is_set c.path) (message "cannot specify url & path for abs replica")
    refuse_if (is_set c.url && is_set c.bucket)
        (message "cannot specify url & bucket for abs replica")
    settings ←
        (if is_set c.url then (lib.parse c.url >>= λ u. ok (abs_from_url u)) else ok abs_configured)
    refuse_if (text_eq settings.bucket []) (message "bucket required for abs replica")
    ok (abs_client settings)

  abbrev pub sftp_configured : SftpSettings
  sftp_configured = record {
    host = c.host;
    user = c.user;
    password = c.password;
    path = c.path;
    key_path = c.key_path;
  }

  abbrev pub sftp_from_url : Url → SftpSettings
  sftp_from_url u = record sftp_configured {
    host = or_else c.host u.host;
    user = or_else c.user (user_name u.user);
    password = or_else c.password (user_password u.user);
    path = or_else c.path u.path;
  }

  -- newSFTPReplicaClientFromConfig
  unfoldable pub new_sftp_client : Result Client
  new_sftp_client = do
    refuse_if (is_set c.url && is_set c.path) (message "cannot specify url & path for sftp replica")
    refuse_if (is_set c.url && is_set c.host) (message "cannot specify url & host for sftp replica")
    settings ←
        (if is_set c.url
          then (lib.parse c.url >>= λ u. ok (sftp_from_url u))
          else ok sftp_configured)
    refuse_if (text_eq settings.host []) (message "host required for sftp replica")
    refuse_if (text_eq settings.user []) (message "user required for sftp replica")
    ok (sftp_client settings)
