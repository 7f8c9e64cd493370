-- ===== src/Db/Clean.antt =====
-- db.go: `cleanGenerations`, `cleanWAL` and `clearGeneration`, which remove files of the shadow WAL.
-- A directory is there as long as there are segments in it.
pub mod Keeps
use litestream.Prelude.{
  ℕ, ◌+◌, Bool, true, false, not, ◌&&◌, ◌||◌, Option, none, some, List, [], ◌∷◌, Error, not_exist,
  wrap, Result, ok, err, ◌>>=◌, ◌>>◌, wrapping, failing, ◌==◌, ltb, leb, if◌then◌else◌, length,
}
use litestream.Text.{Text, text_eq}
use litestream.Pos.{Pos}
use litestream.Db.{Db}
use litestream.Db.Disk.{Disk, Segments}
use litestream.Db.Index.{OsFaults, RemovalFault}
use litestream.Db.Verify.{current_generation}

-- The segments that a removal leaves.
unfoldable pub keep_where : (Pos → Bool) → Segments → Segments
keep_where keep [] = []
keep_where keep ((p, b) ∷ segments) =
    let rest = keep_where keep segments in if keep p then (p, b) ∷ rest else rest

-- The lowest index of the replicas in the generation; `none` is -1.
unfoldable pub min_replica_index : Text → Option ℕ → List Pos → Option ℕ
min_replica_index generation min [] = min
min_replica_index generation none (pos ∷ replicas) =
    min_replica_index generation
      (if not (text_eq pos.generation generation) then none else some pos.index) replicas
min_replica_index generation (some min) (pos ∷ replicas) =
    min_replica_index generation
      (if not (text_eq pos.generation generation)
        then some min
        else if ltb pos.index min
        then some pos.index
        else some min)
      replicas

-- The conditions under which the loop of cleanWAL goes past an index.
unfoldable pub retains_index : Db → List Pos → Option ℕ → ℕ → Bool
retains_index db [] min index = leb db.pos.index (index + db.shadow_retention_n)
retains_index db (_ ∷ _) none index = true
retains_index db (_ ∷ _) (some min) index =
    leb min index || leb db.pos.index (index + db.shadow_retention_n)

-- `len(db.Replicas) > 0 && minReplicaIndex <= 0`
unfoldable pub not_replicated : List Pos → Option ℕ → Bool
not_replicated [] min = false
not_replicated (_ ∷ _) none = true
not_replicated (_ ∷ _) (some min) = min == 0

abbrev pub in_generation : Text → Pos → Bool
in_generation generation p = text_eq p.generation generation

abbrev pub has_generation : Text → Segments → Bool
has_generation generation [] = false
has_generation generation ((p, _) ∷ segments) =
    text_eq p.generation generation || has_generation generation segments

-- What the loop removes: the directories of the generation's indexes that it does not go past.
abbrev pub keeps_segment : Db → List Pos → Text → Pos → Bool
keeps_segment db replicas generation p =
    not (text_eq p.generation generation)
    || retains_index db replicas (min_replica_index generation none replicas) p.index

abbrev pub removes_any : (Pos → Bool) → Segments → Bool
removes_any keep [] = false
removes_any keep ((p, _) ∷ segments) = not (keep p) || removes_any keep segments

abbrev pub spared : (Pos → Bool) → RemovalFault → Pos → Bool
spared keep x p = keep p || not (x.removed p)

-- A loop of os.RemoveAll, up to the first error: there is none where nothing is to be removed.
unfoldable pub removing : Option RemovalFault → (Pos → Bool) → Disk → Result (Unit {0}) × Disk
removing none keep disk = (ok tt, record disk { segments = keep_where keep disk.segments })
removing (some x) keep disk =
    if removes_any keep disk.segments
    then (err x.error, record disk { segments = keep_where (spared keep x) disk.segments })
    else (ok tt, disk)

unfoldable pub clean_indexes : OsFaults → List Pos → Db → Text → Disk → Result (Unit {0}) × Disk
clean_indexes faults replicas db generation disk =
    if text_eq generation [] || not_replicated replicas (min_replica_index generation none replicas)
    then (ok tt, disk)
    else if not (has_generation generation disk.segments)
    then (err not_exist, disk)
    else elim faults.list_indexes [
      | some e ↦ (err e, disk)
      | none ↦ removing faults.remove_indexes (keeps_segment db replicas generation) disk
    ]

abbrev pub clean_wal_of : OsFaults → List Pos → Db → Result Text → Disk → Result (Unit {0}) × Disk
clean_wal_of faults replicas db (err e) disk = (err (wrap "current generation" e), disk)
clean_wal_of faults replicas db (ok generation) disk =
    clean_indexes faults replicas db generation disk

-- cleanWAL, on the replicas' positions.
unfoldable pub clean_wal : OsFaults → List Pos → Db → Disk → Result (Unit {0}) × Disk
clean_wal faults replicas db disk =
    clean_wal_of faults replicas db (current_generation faults disk) disk

-- That the directory is missing is no error.
abbrev pub unless_missing : Error → Result (Unit {0})
unless_missing not_exist = ok tt
unless_missing e = err e

abbrev pub clean_others : OsFaults → Result Text → Disk → Result (Unit {0}) × Disk
clean_others faults (err e) disk = (err e, disk)
clean_others faults (ok generation) disk = elim faults.list_generations [
  | some e ↦ (unless_missing e, disk)
  | none ↦ removing faults.remove_generations (in_generation generation) disk
]

-- cleanGenerations
unfoldable pub clean_generations : OsFaults → Disk → Result (Unit {0}) × Disk
clean_generations faults disk = clean_others faults (current_generation faults disk) disk

abbrev pub then_clean :
    (Disk → Result (Unit {0}) × Disk) → Result (Unit {0}) × Disk → Result (Unit {0}) × Disk
then_clean f (err e, disk) = (err e, disk)
then_clean f (ok _, disk) = f disk

unfoldable pub clean : OsFaults → List Pos → Db → Disk → Result (Unit {0}) × Disk
clean faults replicas db disk =
    then_clean (clean_wal faults replicas db) (clean_generations faults disk)

-- clearGeneration; that the file is not there is no error.
unfoldable pub clear_generation : Option Error → Disk → Result (Unit {0}) × Disk
clear_generation fault disk = elim disk.generation_file [
  | none ↦ (ok tt, disk)
  | some name ↦ elim fault [
    | some e ↦ (err e, disk)
    | none ↦ (ok tt, record disk { generation_file = none })
  ]
]
