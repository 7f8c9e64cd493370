-- ===== src/Files/Client/Paths.antt =====
-- The paths of a replica's files, below a directory or in a bucket: `SnapshotPath` and
-- `WALSegmentPath` of file_replica_client.go, and the same keys of the object stores.
use litestream.Prelude.{
  zero, suc, ℕ, ◌≡◌, sym, ap, ◌∙◌, inl, inr, none, [], ◌∷◌, ◌++◌, Bool-cases, arith, length, take,
  take-append,
}
use litestream.Text.{Text, text_eq, text_eq_iff}
use litestream.Pos.{format_index, format_offset}
use litestream.Pos.Names.{
  length-format_index, length-format_offset, format_index-lt, format_offset-injective,
}
use litestream.Client.Remote.{File, snapshot_file, segment_file, file_generation, InRange}
use litestream.Files.System.{FilePath, below}
use litestream.Files.Names.{
  generations_name, snapshots_name, wal_name, snapshot_suffix, segment_suffix,
}

-- The path, where the client's path and the generation are given.
abbrev pub shape : Text → File → FilePath
shape path (snapshot_file generation index) =
    path
    ∷ generations_name
    ∷ generation
    ∷ snapshots_name
    ∷ (format_index index ++ snapshot_suffix)
    ∷ []
shape path (segment_file pos) =
    path
    ∷ generations_name
    ∷ pos.generation
    ∷ wal_name
    ∷ format_index pos.index
    ∷ (format_offset pos.offset ++ segment_suffix)
    ∷ []

unfoldable pub component : ℕ → FilePath → Text
component n [] = []
component zero (a ∷ p) = a
component (suc n) (a ∷ p) = component n p

-- A name of sixteen digits before a suffix.
pub same_digits :
    (a b suffix : Text) → length a ≡ 16 → length b ≡ 16 → a ++ suffix ≡ b ++ suffix → a ≡ b
same_digits a b suffix h k e =
    sym (take-append a suffix)
    ∙ (ap (λ n. take n (a ++ suffix)) h
        ∙ (ap (take 16) e ∙ (ap (λ n. take n (b ++ suffix)) (sym k) ∙ take-append b suffix)))

pub shape-injective :
    (path : Text) (f g : File) → InRange f → InRange g → shape path f ≡ shape path g → f ≡ g
unfolding component
shape-injective path (snapshot_file a i) (snapshot_file b j) h k e =
    let same : i ≡ j = (format_index-lt i j h k).1 (
      same_digits _ _ snapshot_suffix (length-format_index i) (length-format_index j)
        (ap (component 4) e)) in
    let generation : a ≡ b = ap (component 2) e in cc
shape-injective path (snapshot_file a i) (segment_file q) h k e =
    let absurd : ⊥ = omega (arith, ap length e) in elim absurd [ ]
shape-injective path (segment_file p) (snapshot_file b j) h k e =
    let absurd : ⊥ = omega (arith, ap length e) in elim absurd [ ]
shape-injective path (segment_file p) (segment_file q) h k e =
    let generation : p.generation ≡ q.generation = ap (component 2) e in
    let index : p.index ≡ q.index =
      (format_index-lt p.index q.index h.0 k.0).1 (ap (component 4) e) in
    let offset : p.offset ≡ q.offset = format_offset-injective p.offset q.offset h.1 k.1 (
      same_digits _ _ segment_suffix (length-format_offset p.offset) (length-format_offset q.offset)
        (ap (component 5) e)) in
    cc

below_other :
    (a b g g' : Text) (rest : FilePath)
    → (g' ≡ g → ⊥)
    → below (a ∷ b ∷ g ∷ []) (a ∷ b ∷ g' ∷ rest) ≡ none
unfolding below
below_other a b g g' rest d = elim (Bool-cases (text_eq g g')) [
  | inl e ↦ elim (d (sym ((text_eq_iff g g').0 e))) [ ]
  | inr e ↦ ground (arith, text_eq_iff a a, text_eq_iff b b, e)
]

pub below-shape :
    (path generation : Text) (file : File)
    → (file_generation file ≡ generation → ⊥)
    → below (path ∷ generations_name ∷ generation ∷ []) (shape path file) ≡ none
below-shape path generation (snapshot_file g i) d =
    below_other path generations_name generation g _ d
below-shape path generation (segment_file p) d =
    below_other path generations_name generation p.generation _ d
