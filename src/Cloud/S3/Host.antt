-- ===== src/Cloud/S3/Host.antt =====
-- s3/replica_client.go: `ParseHost`.
use litestream.Prelude.{
  ℕ, ◌-◌, Bool, true, false, ◌&&◌, Option, none, some, [], ◌∷◌, ◌++◌, Result, ok, err,
  if◌then◌else◌, ◌==◌, length, take, drop,
}
use litestream.Text.{Text, text_eq}
use litestream.Text.Ascii.{codes}
use litestream.Config.Clients.{HostParts, is_set, or_else}

-- net.SplitHostPort, net.JoinHostPort, os.Getenv of the LITESTREAM variables, and strconv.ParseBool.
pub record HostEnv : Type 0 where
  pub split : Text → Result (Text × Text)
  pub join_host_port : Text → Text → Text
  pub scheme : Text
  pub endpoint : Text
  pub region : Text
  pub force_path_style : Text
  pub parse_bool : Text → Result Bool

-- What is before a suffix.
abbrev pub before_suffix : Text → Text → Option Text
before_suffix suffix s =
    let n = length s - length suffix in if text_eq (drop n s) suffix then some (take n s) else none

-- `(?:(.+)\.)?` in front of the rest: blank, or a bucket with a dot behind it.
abbrev bucket_of : Text → Option Text
bucket_of [] = some []
bucket_of s = elim (before_suffix (codes ".") s) [
  | none ↦ none
  | some [] ↦ none
  | some (c ∷ bucket) ↦ some (c ∷ bucket)
]

abbrev bucket_before : Text → Text → Option Text
bucket_before suffix s = elim (before_suffix suffix s) [ none ↦ none | some rest ↦ bucket_of rest ]

-- What is up to the last dot, the dot included, and what is behind it.
abbrev at_dot : ℕ → Text × Text → Text × Text
at_dot c ([], label) = if c == b'.' then (c ∷ [], label) else ([], c ∷ label)
at_dot c (d ∷ front, label) = (c ∷ d ∷ front, label)

unfoldable pub last_label : Text → Text × Text
last_label [] = ([], [])
last_label (c ∷ s) = at_dot c (last_label s)

-- A region behind the last dot, `([^.]+)`, with the bucket that `front` reads before it.
abbrev region_with : (Text → Option Text) → Text × Text → Option (Text × Text)
region_with front (before, []) = none
region_with front (before, c ∷ region) = elim (front before) [
  | none ↦ none
  | some bucket ↦ some (bucket, c ∷ region)
]

abbrev region_before : Text → (Text → Option Text) → Text → Option (Text × Text)
region_before suffix front s = elim (before_suffix suffix s) [
  | none ↦ none
  | some rest ↦ region_with front (last_label rest)
]

-- The bucket, the region, the endpoint, the scheme and the path style of a host without its port.
pub record HostMatch : Type 0 where
  pub bucket : Text
  pub region : Text
  pub endpoint : Text
  pub scheme : Text
  pub path_style : Bool

abbrev service : Text → Text → Text → HostMatch
service bucket region endpoint = record {
  bucket = bucket;
  region = region;
  endpoint = endpoint;
  scheme = codes "https";
  path_style = true;
}

abbrev or_found : Option HostMatch → HostMatch → HostMatch
or_found none other = other
or_found (some f) other = f

abbrev localhost_host : Text → Option HostMatch
localhost_host host = elim (bucket_before (codes "localhost") host) [
  | none ↦ none
  | some bucket ↦
      some
        (record (service bucket (codes "us-east-1") (codes "localhost")) { scheme = codes "http" })
]

abbrev backblaze_host : Text → Option HostMatch
backblaze_host host =
    elim (region_before (codes ".backblazeb2.com") (bucket_before (codes "s3.")) host) [
      | none ↦ none
      | some (bucket, region) ↦
          some (service bucket region (codes "s3." ++ (region ++ codes ".backblazeb2.com")))
    ]

abbrev filebase_host : Text → Option HostMatch
filebase_host host = elim (bucket_before (codes "s3.filebase.com") host) [
  | none ↦ none
  | some bucket ↦ some (service bucket [] (codes "s3.filebase.com"))
]

-- digitalOceanRegex and linodeRegex.
abbrev regional : Text → Text → Option HostMatch
regional domain host = elim (region_before domain bucket_of host) [
  | none ↦ none
  | some (bucket, region) ↦ some (service bucket region (region ++ domain))
]

unfoldable pub match_host : Text → HostMatch
unfolding last_label
match_host host = or_found (localhost_host host) (
    or_found (backblaze_host host) (
      or_found (filebase_host host) (
        or_found (regional (codes ".digitaloceanspaces.com") host) (
          or_found (regional (codes ".linodeobjects.com") host)
            (record (service host [] []) { path_style = false })))))

module _ (env : HostEnv) where
  abbrev host_port : Text → Text × Text
  host_port s = elim (env.split s) [ err e ↦ (s, []) | ok (host, port) ↦ (host, port) ]

  abbrev with_port : Text → HostMatch → HostMatch
  with_port port f =
      if is_set f.endpoint && is_set port
      then record f { endpoint = env.join_host_port f.endpoint port }
      else f

  -- A scheme of the environment other than these panics.
  abbrev env_scheme : HostMatch → Option HostMatch
  env_scheme f =
      if is_set env.scheme
      then (if text_eq env.scheme (codes "https")
          then some (record f { scheme = env.scheme })
          else if text_eq env.scheme (codes "http")
          then some (record f { scheme = env.scheme })
          else none)
      else some f

  abbrev env_places : HostMatch → HostMatch
  env_places f = record f {
    endpoint = or_else env.endpoint f.endpoint;
    region = or_else env.region f.region;
  }

  abbrev env_style : HostMatch → Option HostMatch
  env_style f =
      if is_set env.force_path_style
      then (elim (env.parse_bool env.force_path_style) [
        | err e ↦ none
        | ok b ↦ some (record f { path_style = b })
      ])
      else some f

  abbrev host_parts : HostMatch → HostParts
  host_parts f = record {
    bucket = f.bucket;
    region = f.region;
    endpoint = if is_set f.endpoint then f.scheme ++ (codes "://" ++ f.endpoint) else f.endpoint;
    force_path_style = f.path_style;
  }

  abbrev and_style : Option HostMatch → Option HostParts
  and_style none = none
  and_style (some f) = elim (env_style (env_places f)) [
    | none ↦ none
    | some g ↦ some (host_parts g)
  ]

  -- ParseHost; `none` is a panic.
  unfoldable pub parse_host : Text → Option HostParts
  parse_host s =
      let (host, port) = host_port s in and_style (env_scheme (with_port port (match_host host)))
