-- ===== src/Tests/Configs.antt =====
-- A replica of S3 that is configured by a URL.
use litestream.Prelude.{
  ◌≡◌, refl, ◌⊎◌, ◌↔◌, ◌&&◌, true, false, none, some, [], ◌∷◌, ◌++◌, ok, err, message,
}
use litestream.Text.{Text, text_eq}
use litestream.Text.Ascii.{codes}
use litestream.Cloud.S3.Host.{HostEnv, match_host, parse_host as parse_host_of}
use litestream.Config.Url.{Url, Library, is_url, parse_replica_url}
use litestream.Config.Clients.{
  ReplicaConfig, S3Settings, HostParts, s3_client, is_set, s3_from_url, new_s3_client,
}
use litestream.Config.{
  Replica, client_type, replica_type, new_client, new_replica_from_config, url_config, replica_with,
  s3_type,
}
use litestream.Config.Configured.{Chosen, new_replica_from_config-Configured}
use litestream.Config.PathStyle.{Asks, new_s3_client-path_style}

abbrev host : Text
host = b'b' ∷ b'.' ∷ b'h' ∷ []

abbrev url : Url
url = record { scheme = s3_type; user = none; host = host; path = []; unschemed = [] }

-- Every text is the same URL here.
abbrev pub lib : Library
lib = record {
  parse = λ s. ok url;
  clean = λ s. s;
  abs = λ s. ok s;
  join = λ a b. a;
  home = err (message "no user");
}

abbrev pub parse_host : Text → HostParts
parse_host h = record { bucket = b'b' ∷ []; region = []; endpoint = h; force_path_style = true }

-- The configuration asks for another style than the URL's host.
abbrev config : ReplicaConfig
config = record (url_config lib parse_host (b's' ∷ b'3' ∷ b':' ∷ b'/' ∷ b'/' ∷ host) [] []) {
  force_path_style = some false;
}

abbrev settings : S3Settings
settings = s3_from_url lib parse_host config (s3_type, host, [])

abbrev replica : Replica
replica = replica_with lib parse_host config (s3_client settings)

new_replica_from_config-Configured_example :
    (is_url config.path ≡ false)
    × (is_set config.url && is_set config.path ≡ false)
    × (client_type replica.client ≡ replica_type lib parse_host config)
    × Chosen lib parse_host config replica.client
unfolding new_replica_from_config replica_type new_client new_s3_client parse_replica_url is_url
    text_eq
new_replica_from_config-Configured_example =
    new_replica_from_config-Configured lib parse_host config replica refl

new_s3_client-path_style_example : (settings.force_path_style ≡ true) ↔ (
    Asks lib parse_host config config.force_path_style config.endpoint
    ⊎ ((parse_host host).force_path_style ≡ true))
unfolding parse_replica_url new_s3_client text_eq
new_s3_client-path_style_example =
    new_s3_client-path_style lib parse_host config s3_type host [] settings refl refl refl

-- No variables of the environment, and no port.
abbrev env : HostEnv
env = record {
  split = λ s. err (message "missing port in address");
  join_host_port = λ host port. host ++ b':' ∷ port;
  scheme = [];
  endpoint = [];
  region = [];
  force_path_style = [];
  parse_bool = λ s. ok true;
}

backblaze :
    parse_host_of env (codes "my.b.s3.us-west.backblazeb2.com")
    ≡ some (record {
      bucket = codes "my.b";
      region = codes "us-west";
      endpoint = codes "https://s3.us-west.backblazeb2.com";
      force_path_style = true;
    })
unfolding parse_host_of match_host text_eq
backblaze = refl

digital_ocean :
    parse_host_of env (codes "b.nyc3.digitaloceanspaces.com")
    ≡ some (record {
      bucket = codes "b";
      region = codes "nyc3";
      endpoint = codes "https://nyc3.digitaloceanspaces.com";
      force_path_style = true;
    })
unfolding parse_host_of match_host text_eq
digital_ocean = refl

aws :
    parse_host_of env (codes "bucket")
    ≡ some
        (record { bucket = codes "bucket"; region = []; endpoint = []; force_path_style = false })
unfolding parse_host_of match_host text_eq
aws = refl

local :
    parse_host_of env (codes "b.localhost")
    ≡ some (record {
      bucket = codes "b";
      region = codes "us-east-1";
      endpoint = codes "http://localhost";
      force_path_style = true;
    })
unfolding parse_host_of match_host text_eq
local = refl
