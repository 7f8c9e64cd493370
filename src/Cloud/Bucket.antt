-- ===== src/Cloud/Bucket.antt =====
-- What the code asks of a service for objects, with what its documentation says of the calls. An
-- object's key is a path by its components.
pub mod Memory
use litestream.Prelude.{
  ℕ, ◌≡◌, Bool, true, false, ◌&&◌, Option, none, some, List, [], ◌∷◌, Result, ok, err, Error,
  not_exist, All, if◌then◌else◌, ◌==◌, length, take,
}
use litestream.Text.{Text, text_eq}
use litestream.Client.{Listing, Time}
use litestream.Files.System.{FilePath, below}

pub record Object : Type 0 where
  pub key : FilePath
  pub size : ℕ
  pub created : Time

-- `list dir name` gives the objects in and below `dir` whose key goes on with a component that
-- begins with `name`, `list_in dir` only those in it, and `prefixes dir` the names of the directories
-- in it. All are read page by page and may end in an error. `put` is an upload from a reader, which gives the bytes or fails;
-- what a failed upload leaves at its key is up to the service.
pub record Bucket : Type 1 where
  pub State : Type 0
  pub prefixes : FilePath → State → Listing Text
  pub list : FilePath → Text → State → Listing Object
  pub list_in : FilePath → State → Listing Object
  pub get : FilePath → State → Result (List ℕ)
  pub put : FilePath → Result (List ℕ) → State → Result (Unit {0}) × State
  pub delete : List FilePath → State → Result (Unit {0}) × State

abbrev pub begins_with : Text → Text → Bool
begins_with name s = text_eq (take (length name) s) name

abbrev pub continues : Text → Option FilePath → Bool
continues name (some (component ∷ _)) = begins_with name component
continues name _ = false

-- The key is one of `list dir name`.
abbrev pub in_listing : FilePath → Text → FilePath → Bool
in_listing dir name key = continues name (below dir key)

abbrev pub Spared : FilePath → List FilePath → Type 0
Spared key keys = All (λ k. key ≡ k → ⊥) keys

-- A listing holds keys that were asked for, and an upload or a removal, whether it succeeds or not,
-- concerns its own keys; an upload that succeeds can be read.
pub record IsLawful (B : Bucket) : Type 0 where
  pub listed :
      (dir : FilePath) (name : Text) (s : B.State)
      → All (λ o. in_listing dir name o.key ≡ true) (B.list dir name s).items
  pub get-put :
      (key other : FilePath) (reader : Result (List ℕ)) (s : B.State)
      → (other ≡ key → ⊥)
      → B.get other (B.put key reader s).1 ≡ B.get other s
  pub get-delete :
      (keys : List FilePath) (other : FilePath) (s : B.State)
      → Spared other keys
      → B.get other (B.delete keys s).1 ≡ B.get other s
  pub uploaded :
      (key : FilePath) (reader : Result (List ℕ)) (s : B.State)
      → (B.put key reader s).0 ≡ ok tt
      → B.get key (B.put key reader s).1 ≡ reader

abbrev pub is_not_exists : Error → Bool
is_not_exists not_exist = true
is_not_exists _ = false
