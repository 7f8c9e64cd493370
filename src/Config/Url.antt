-- ===== src/Config/Url.antt =====
-- cmd/litestream/main.go: `ParseReplicaURL`, `isURL` and `expand`, over the parts of Go's library
-- that read URLs and paths.
use litestream.Prelude.{
  ℕ, Bool, true, false, ◌&&◌, Option, none, some, [], ◌∷◌, Error, message, Result, ok, err,
  if◌then◌else◌, ◌==◌,
}
use litestream.Text.{Text, text_eq}
use litestream.Pos.{is_word_char}

-- url.URL. `unschemed` is what String prints once the scheme is blank; a user may have a password.
pub record Url : Type 0 where
  pub scheme : Text
  pub user : Option (Text × Option Text)
  pub host : Text
  pub path : Text
  pub unschemed : Text

-- url.Parse, path.Clean, filepath.Abs, filepath.Join, and the home directory of user.Current.
pub record Library : Type 0 where
  pub parse : Text → Result Url
  pub clean : Text → Text
  pub abs : Text → Result Text
  pub join : Text → Text → Text
  pub home : Result Text

abbrev pub file_type : Text
file_type = b'f' ∷ b'i' ∷ b'l' ∷ b'e' ∷ []

-- strings.TrimPrefix(s, "/")
abbrev pub trim_slash : Text → Text
trim_slash [] = []
trim_slash (c ∷ s) = if c == b'/' then s else c ∷ s

-- `\w+:\/\/`, behind `before` characters that matched.
abbrev then_slashes : Text → Bool
then_slashes (a ∷ b ∷ s) = a == b'/' && b == b'/'
then_slashes _ = false

abbrev word_then_slashes : Bool → Text → Bool
word_then_slashes some_before [] = false
word_then_slashes some_before (c ∷ s) =
    let rest = word_then_slashes true s in
    if is_word_char c then rest else some_before && (c == b':' && then_slashes s)

-- isURL
unfoldable pub is_url : Text → Bool
is_url s = word_then_slashes false s

abbrev pub slash : ℕ
slash = b'/'

-- A home directory's prefix: "~/" with what follows.
abbrev home_prefix : Text → Option Text
home_prefix (a ∷ b ∷ s) = if a == b'~' && b == slash then some s else none
home_prefix _ = none

module _ (lib : Library) where
  -- The scheme, the host and the path, whether there is an error or not.
  abbrev pub url_parts : Url → (Text × Text × Text) × Option Error
  url_parts u =
      if text_eq u.scheme file_type
      then ((u.scheme, [], lib.clean u.unschemed), none)
      else if text_eq u.scheme []
      then ((u.scheme, u.host, u.path), some (message "replica url scheme required"))
      else ((u.scheme, u.host, trim_slash (lib.clean u.path)), none)

  abbrev parts_of : Result Url → (Text × Text × Text) × Option Error
  parts_of (err e) = (([], [], []), some e)
  parts_of (ok u) = url_parts u

  -- ParseReplicaURL
  unfoldable pub parse_replica_url : Text → (Text × Text × Text) × Option Error
  parse_replica_url s = parts_of (lib.parse s)

  abbrev in_home : Option Text → Result Text → Result Text
  in_home rest (err e) = err e
  in_home rest (ok home) =
      if text_eq home []
      then err (message "cannot expand path, no home directory available")
      else elim rest [ none ↦ ok home | some r ↦ ok (lib.join home r) ]

  abbrev tilde : Text
  tilde = b'~' ∷ []

  -- expand
  unfoldable pub expand : Text → Result Text
  expand s =
      if text_eq s tilde
      then in_home none lib.home
      else elim (home_prefix s) [ none ↦ lib.abs s | some rest ↦ in_home (some rest) lib.home ]
