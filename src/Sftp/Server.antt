-- ===== src/Sftp/Server.antt =====
-- What the code asks of a server of SFTP through its library, with what is documented of the calls.
pub mod Memory
use litestream.Prelude.{
  ℕ, ◌≡◌, Bool, true, false, Option, none, List, Result, ok, err, Error, not_exist, All,
}
use litestream.Text.{Text}
use litestream.Client.{Time}
use litestream.Files.System.{FilePath, below}

pub record Entry : Type 0 where
  pub name : Text
  pub is_dir : Bool
  pub size : ℕ
  pub mod_time : Time

-- A step of a walk through a directory.
pub record Visit : Type 0 where
  pub path : FilePath
  pub is_dir : Bool
  pub err : Option Error

-- `create` opens a file to be written and empties it, `copy` is io.Copy from a reader, which gives
-- the bytes or fails, `close` closes the file; `get` opens one and reads it.
pub record SftpServer : Type 1 where
  pub State : Type 0
  pub read_dir : FilePath → State → Result (List Entry)
  pub walk : FilePath → State → List Visit
  pub mkdir_all : FilePath → State → Result (Unit {0}) × State
  pub create : FilePath → State → Result (Unit {0}) × State
  pub copy : FilePath → Result (List ℕ) → State → Result ℕ × State
  pub close : FilePath → State → Result (Unit {0}) × State
  pub get : FilePath → State → Result (List ℕ)
  pub remove : FilePath → State → Result (Unit {0}) × State
  pub remove_directory : FilePath → State → Result (Unit {0}) × State

-- A walk stays below its directory, and a call, whether it succeeds or not, concerns its own file;
-- only empty directories are removed.
pub record IsLawful (S : SftpServer) : Type 0 where
  pub walked :
      (dir : FilePath) (s : S.State) → All (λ v. below dir v.path ≡ none → ⊥) (S.walk dir s)
  pub get-mkdir_all :
      (dir key : FilePath) (s : S.State) → S.get key (S.mkdir_all dir s).1 ≡ S.get key s
  pub get-create :
      (p key : FilePath) (s : S.State) → (key ≡ p → ⊥) → S.get key (S.create p s).1 ≡ S.get key s
  pub get-copy :
      (p key : FilePath) (reader : Result (List ℕ)) (s : S.State)
      → (key ≡ p → ⊥)
      → S.get key (S.copy p reader s).1 ≡ S.get key s
  pub get-close :
      (p key : FilePath) (s : S.State) → (key ≡ p → ⊥) → S.get key (S.close p s).1 ≡ S.get key s
  pub get-remove :
      (p key : FilePath) (s : S.State) → (key ≡ p → ⊥) → S.get key (S.remove p s).1 ≡ S.get key s
  pub get-remove_directory :
      (dir key : FilePath) (s : S.State) → S.get key (S.remove_directory dir s).1 ≡ S.get key s
