-- ===== src/Files/System.antt =====
-- The file system below the replica client: files by path, and the calls of package os.
use litestream.Prelude.{
  ℕ, ◌≡◌, refl, Bool, true, false, ◌&&◌, Option, none, some, List, [], ◌∷◌, if◌then◌else◌, arith,
  Result, ok, err, not_exist, Bool-cases, inl, inr, ap, ◌∙◌, sym, ◌∙◌,
}
use litestream.Text.{Text, text_eq, text_eq_iff}
use litestream.Client.{Time}

-- The components of a path, from the root on.
abbrev pub FilePath : Type 0
FilePath = List Text

unfoldable pub path_eq : FilePath → FilePath → Bool
path_eq [] [] = true
path_eq (a ∷ p) (b ∷ q) = text_eq a b && path_eq p q
path_eq _ _ = false

pub path_eq_refl : (p : FilePath) → path_eq p p ≡ true
unfolding path_eq
path_eq_refl [] = refl
path_eq_refl (a ∷ p) = ground (arith, (text_eq_iff a a).1 refl, path_eq_refl p)

pub eq_of_path_eq : (p q : FilePath) → path_eq p q ≡ true → p ≡ q
unfolding path_eq
eq_of_path_eq [] [] h = refl
eq_of_path_eq [] (b ∷ q) h = cc
eq_of_path_eq (a ∷ p) [] h = cc
eq_of_path_eq (a ∷ p) (b ∷ q) h = ground (arith, text_eq_iff a b, eq_of_path_eq p q)

pub record FileInfo : Type 0 where
  pub bytes : List ℕ
  pub mod_time : Time

abbrev pub Tree : Type 0
Tree = List (FilePath × FileInfo)

unfoldable pub find_file : FilePath → Tree → Option FileInfo
find_file p [] = none
find_file p ((q, file) ∷ tree) = if path_eq q p then some file else find_file p tree

-- The files that a removal leaves.
unfoldable pub keep_files : (FilePath → Bool) → Tree → Tree
keep_files keep [] = []
keep_files keep ((q, file) ∷ tree) =
    let rest = keep_files keep tree in if keep q then (q, file) ∷ rest else rest

abbrev pub is_other : FilePath → FilePath → Bool
is_other p q = if path_eq q p then false else true

-- os.Remove of a file.
unfoldable pub remove : FilePath → Tree → Tree
remove p tree = keep_files (is_other p) tree

-- What is left of a path below a directory.
unfoldable pub below : FilePath → FilePath → Option FilePath
below [] p = some p
below (d ∷ dir) [] = none
below (d ∷ dir) (a ∷ p) = let rest = below dir p in if text_eq d a then rest else none

abbrev is_missing : Option FilePath → Bool
is_missing none = true
is_missing (some p) = false

abbrev pub is_outside : FilePath → FilePath → Bool
is_outside dir p = is_missing (below dir p)

-- os.RemoveAll
unfoldable pub remove_all : FilePath → Tree → Tree
remove_all dir tree = keep_files (is_outside dir) tree

-- A file that is written whole, in place of an older one.
unfoldable pub write_file : FilePath → FileInfo → Tree → Tree
write_file p file tree = (p, file) ∷ remove p tree

abbrev opened : Option FileInfo → Result FileInfo
opened none = err not_exist
opened (some file) = ok file

-- os.Open of a file.
unfoldable pub open_file : FilePath → Tree → Result FileInfo
open_file p tree = opened (find_file p tree)

find_file-keep_files :
    (keep : FilePath → Bool) (p : FilePath) (tree : Tree)
    → keep p ≡ true
    → find_file p (keep_files keep tree) ≡ find_file p tree
unfolding find_file keep_files
find_file-keep_files keep p [] h = refl
find_file-keep_files keep p ((q, file) ∷ tree) h = elim (Bool-cases (path_eq q p)) [
  | inl e ↦ rw (ap keep (eq_of_path_eq q p e), h, e) refl
  | inr e ↦ elim (Bool-cases (keep q)) [
    | inl k ↦ rw (k, e) (find_file-keep_files keep p tree h)
    | inr k ↦ rw (k, e) (find_file-keep_files keep p tree h)
  ]
]

pub differ : (p q : FilePath) → (p ≡ q → ⊥) → path_eq p q ≡ false
differ p q h = elim (Bool-cases (path_eq p q)) [
  | inl e ↦ elim (h (eq_of_path_eq p q e)) [ ]
  | inr e ↦ e
]

is_other-differ : (p q : FilePath) → (q ≡ p → ⊥) → is_other p q ≡ true
is_other-differ p q h = ap (λ b. if b then false else true) (differ q p h)

find_file-remove :
    (p q : FilePath) (tree : Tree) → (q ≡ p → ⊥) → find_file q (remove p tree) ≡ find_file q tree
unfolding remove
find_file-remove p q tree h = find_file-keep_files (is_other p) q tree (is_other-differ p q h)

pub open_file-remove :
    (p q : FilePath) (tree : Tree) → (q ≡ p → ⊥) → open_file q (remove p tree) ≡ open_file q tree
unfolding open_file
open_file-remove p q tree h = ap opened (find_file-remove p q tree h)

pub open_file-write_file :
    (p q : FilePath) (file : FileInfo) (tree : Tree)
    → (q ≡ p → ⊥)
    → open_file q (write_file p file tree) ≡ open_file q tree
unfolding open_file write_file find_file
open_file-write_file p q file tree h = ap opened (
    ap (λ b. if b then some file else find_file q (remove p tree)) (differ p q (λ e. h (sym e)))
    ∙ find_file-remove p q tree h)

pub open_file-remove_all :
    (dir q : FilePath) (tree : Tree)
    → below dir q ≡ none
    → open_file q (remove_all dir tree) ≡ open_file q tree
unfolding open_file remove_all
open_file-remove_all dir q tree h =
    ap opened (find_file-keep_files (is_outside dir) q tree (ap is_missing h))

-- The file that was written is read back.
pub open_file-written :
    (p : FilePath) (file : FileInfo) (tree : Tree) → open_file p (write_file p file tree) ≡ ok file
unfolding open_file write_file find_file
open_file-written p file tree =
    ap (λ b. opened (if b then some file else find_file p (remove p tree))) (path_eq_refl p)
