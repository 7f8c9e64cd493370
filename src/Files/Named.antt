-- ===== src/Files/Named.antt =====
-- The generations that a client lists are names in a path.
use litestream.Prelude.{
  ◌≡◌, refl, ap, inl, inr, Bool, true, false, not, List, [], ◌∷◌, All, Bool-cases, Result-cases,
  subst, ok, arith, if◌then◌else◌,
}
use litestream.Text.{Text}
use litestream.Pos.{is_generation_name, all_hex}
use litestream.Client.Remote.{has_slash, IsName}
use litestream.Files.Listing.{generation_names, generations, directories_in}
use litestream.Files.System.{Tree}
use litestream.Files.Names.{generations_dir}

all_hex-has_slash : (s : Text) → all_hex s ≡ true → has_slash s ≡ false
unfolding all_hex has_slash
all_hex-has_slash [] h = refl
all_hex-has_slash (ch ∷ s) h = ground (arith, all_hex-has_slash s)

given : (b c : Bool) → (if not b then false else c) ≡ true → c ≡ true
given true c h = h
given false c h = cc

is_generation_name-IsName : (s : Text) → is_generation_name s ≡ true → IsName s
unfolding is_generation_name
is_generation_name-IsName [] h = ground arith
is_generation_name-IsName (a ∷ []) h = ground arith
is_generation_name-IsName (a ∷ b ∷ []) h = ground arith
is_generation_name-IsName (a ∷ b ∷ c ∷ s) h =
    ap not (all_hex-has_slash (a ∷ b ∷ c ∷ s) (given _ _ h))

pub generation_names-Named : (names : List Text) → All IsName (generation_names names)
generation_names-Named [] = tt
generation_names-Named (name ∷ names) = elim (Bool-cases (is_generation_name name)) [
  | inl e ↦ rw e (is_generation_name-IsName name e, generation_names-Named names)
  | inr e ↦ rw e (generation_names-Named names)
]

pub generations-Named :
    (path : Text) (tree : Tree) (a : List Text) → generations path tree ≡ ok a → All IsName a
unfolding generations
generations-Named path tree a h = elim (Result-cases (generations_dir path)) [
  | inl (e, q) ↦ cc (rw q at h)
  | inr (root, q) ↦
      let same : generation_names (directories_in root tree) ≡ a = cc (rw q at h) in
      subst (All IsName) same (generation_names-Named (directories_in root tree))
]
