-- ===== src/Sftp/Server/Memory.antt =====
-- A server in memory, which keeps to what is documented of the calls.
use litestream.Prelude.{
  ℕ, ◌≡◌, refl, ap, true, false, Option, none, some, List, [], ◌∷◌, Result, ok, err, All, length,
}
use litestream.Text.{Text}
use litestream.Files.System.{
  FilePath, FileInfo, Tree, below, remove, write_file, open_file, open_file-remove,
  open_file-write_file,
}
use litestream.Files.Client.{contents}
use litestream.Files.Listing.{directories_in}
use litestream.Sftp.Server.{Entry, Visit, SftpServer, IsLawful}

abbrev directory_entries : List Text → List Entry
directory_entries [] = []
directory_entries (name ∷ names) =
    record { name = name; is_dir = true; size = 0; mod_time = 0 } ∷ directory_entries names

abbrev add_file : FileInfo → Option FilePath → List Entry → List Entry
add_file file (some (name ∷ [])) entries =
    record { name = name; is_dir = false; size = length file.bytes; mod_time = file.mod_time }
    ∷ entries
add_file file _ entries = entries

abbrev pub entries_in : FilePath → Tree → List Entry → List Entry
entries_in dir [] entries = entries
entries_in dir ((p, file) ∷ tree) entries =
    add_file file (below dir p) (entries_in dir tree entries)

abbrev visit : FilePath → Option FilePath → List Visit → List Visit
visit p none visits = visits
visit p (some _) visits = record { path = p; is_dir = false; err = none } ∷ visits

unfoldable pub visits_in : FilePath → Tree → List Visit
visits_in dir [] = []
visits_in dir ((p, file) ∷ tree) = visit p (below dir p) (visits_in dir tree)

abbrev write : FilePath → Result (List ℕ) → Tree → Result ℕ × Tree
write p (err e) tree = (err e, tree)
write p (ok bytes) tree =
    (ok (length bytes), write_file p (record { bytes = bytes; mod_time = 7 }) tree)

abbrev pub memory : SftpServer
memory = record {
  State = Tree;
  read_dir = λ dir tree. ok (entries_in dir tree (directory_entries (directories_in dir tree)));
  walk = visits_in;
  mkdir_all = λ dir tree. (ok tt, tree);
  create = λ p tree. (ok tt, write_file p (record { bytes = []; mod_time = 7 }) tree);
  copy = write;
  close = λ p tree. (ok tt, tree);
  get = λ p tree. contents (open_file p tree);
  remove = λ p tree. (ok tt, remove p tree);
  remove_directory = λ dir tree. (ok tt, tree);
}

visit-All :
    (dir p : FilePath) (o : Option FilePath) (visits : List Visit)
    → below dir p ≡ o
    → All (λ v. below dir v.path ≡ none → ⊥) visits
    → All (λ v. below dir v.path ≡ none → ⊥) (visit p o visits)
visit-All dir p none visits q h = h
visit-All dir p (some rest) visits q h = ((λ e. cc), h)

visits_in-All :
    (dir : FilePath) (tree : Tree) → All (λ v. below dir v.path ≡ none → ⊥) (visits_in dir tree)
unfolding visits_in
visits_in-All dir [] = tt
visits_in-All dir ((p, file) ∷ tree) =
    visit-All dir p (below dir p) (visits_in dir tree) refl (visits_in-All dir tree)

open_file-write :
    (p key : FilePath) (reader : Result (List ℕ)) (tree : Tree)
    → (key ≡ p → ⊥)
    → contents (open_file key (write p reader tree).1) ≡ contents (open_file key tree)
open_file-write p key (err e) tree d = refl
open_file-write p key (ok bytes) tree d = ap contents (open_file-write_file p key _ tree d)

pub memory-IsLawful : IsLawful memory
memory-IsLawful = record {
  walked = visits_in-All;
  get-mkdir_all = λ dir key tree. refl;
  get-create = λ p key tree d. ap contents (open_file-write_file p key _ tree d);
  get-copy = open_file-write;
  get-close = λ p key tree d. refl;
  get-remove = λ p key tree d. ap contents (open_file-remove p key tree d);
  get-remove_directory = λ dir key tree. refl;
}
