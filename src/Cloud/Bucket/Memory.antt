-- ===== src/Cloud/Bucket/Memory.antt =====
-- A bucket in memory, which keeps to what is documented of the services.
use litestream.Prelude.{
  ℕ, ◌≡◌, refl, ap, ◌∙◌, inl, inr, true, List, [], ◌∷◌, Result, ok, err, All, Bool-cases, none,
  if◌then◌else◌, length, Bool,
}
use litestream.Files.System.{
  FilePath, FileInfo, Tree, remove, write_file, open_file, open_file-remove, open_file-write_file,
  open_file-written,
}
use litestream.Files.Client.{contents}
use litestream.Files.Listing.{directories_in}
use litestream.Cloud.Bucket.{Object, Bucket, IsLawful, Spared, in_listing}

abbrev object_of : FilePath → FileInfo → Object
object_of key file = record { key = key; size = length file.bytes; created = file.mod_time }

abbrev pub objects_where : (FilePath → Bool) → Tree → List Object
objects_where test [] = []
objects_where test ((key, file) ∷ tree) =
    let rest = objects_where test tree in if test key then object_of key file ∷ rest else rest

abbrev is_in : FilePath → FilePath → Bool
is_in [] (name ∷ []) = true
is_in (_ ∷ dir) (_ ∷ key) = is_in dir key
is_in _ _ = Bool.false

abbrev pub upload : FilePath → Result (List ℕ) → Tree → Result (Unit {0}) × Tree
upload key (err e) tree = (err e, tree)
upload key (ok bytes) tree = (ok tt, write_file key (record { bytes = bytes; mod_time = 7 }) tree)

abbrev pub remove_keys : List FilePath → Tree → Tree
remove_keys [] tree = tree
remove_keys (key ∷ keys) tree = remove_keys keys (remove key tree)

abbrev pub memory : Bucket
memory = record {
  State = Tree;
  prefixes = λ dir tree. record { items = directories_in dir tree; close = none };
  list = λ dir name tree. record { items = objects_where (in_listing dir name) tree; close = none };
  list_in = λ dir tree. record {
    items = objects_where (λ key. if in_listing dir [] key then is_in dir key else Bool.false) tree;
    close = none;
  };
  get = λ key tree. contents (open_file key tree);
  put = upload;
  delete = λ keys tree. (ok tt, remove_keys keys tree);
}

objects_where-All :
    (test : FilePath → Bool) (tree : Tree) → All (λ o. test o.key ≡ true) (objects_where test tree)
objects_where-All test [] = tt
objects_where-All test ((key, file) ∷ tree) = elim (Bool-cases (test key)) [
  | inl e ↦ rw e (e, objects_where-All test tree)
  | inr e ↦ rw e (objects_where-All test tree)
]

open_file-upload :
    (key other : FilePath) (reader : Result (List ℕ)) (tree : Tree)
    → (other ≡ key → ⊥)
    → contents (open_file other (upload key reader tree).1) ≡ contents (open_file other tree)
open_file-upload key other (err e) tree d = refl
open_file-upload key other (ok bytes) tree d = ap contents (open_file-write_file key other _ tree d)

open_file-remove_keys :
    (keys : List FilePath) (other : FilePath) (tree : Tree)
    → Spared other keys
    → contents (open_file other (remove_keys keys tree)) ≡ contents (open_file other tree)
open_file-remove_keys [] other tree d = refl
open_file-remove_keys (key ∷ keys) other tree d =
    open_file-remove_keys keys other (remove key tree) d.1
    ∙ ap contents (open_file-remove key other tree d.0)

open_file-uploaded :
    (key : FilePath) (reader : Result (List ℕ)) (tree : Tree)
    → (upload key reader tree).0 ≡ ok tt
    → contents (open_file key (upload key reader tree).1) ≡ reader
open_file-uploaded key (err e) tree h = cc
open_file-uploaded key (ok bytes) tree h = ap contents (open_file-written key _ tree)

pub memory-IsLawful : IsLawful memory
memory-IsLawful = record {
  listed = λ dir name tree. objects_where-All (in_listing dir name) tree;
  get-put = open_file-upload;
  get-delete = open_file-remove_keys;
  uploaded = open_file-uploaded;
}
