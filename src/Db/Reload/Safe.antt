-- ===== src/Db/Reload/Safe.antt =====
-- That `invalidate` does not panic, and the fields it leaves.
use litestream.Prelude.{
  ℕ, ◌≡◌, refl, ap, ◌∙◌, true, false, Option, none, some, List, [], ◌∷◌, map, Error, Result, ok,
  err, Bool-cases, Option-cases, Result-cases, inl, inr, ◌⊎◌, All, All-append, take, subst,
}
use litestream.Text.{Text, text_eq}
use litestream.Pos.{Pos, is_zero, zero_pos, pos_eq}
use litestream.Wal.Reader.{WalFields, read_wal_fields-total}
use litestream.Db.{Db, reset}
use litestream.Db.Disk.{Lz4, Disk, Segments}
use litestream.Db.Call.Outcome.{
  Outcome, Outcome-continue, Outcome-wrap_out, Outcome-of_result, Outcome-ok, Outcome-err,
  Outcome-weaken, Outcome-reset_out,
}
use litestream.Db.Copy.Safe.{HasPage, HasIndex}
use litestream.Db.Index.{OsFaults}
use litestream.Db.Verify.{current_generation}
use litestream.Db.Clean.{clear_generation}
use litestream.Db.Reload.{
  last_of, segments_of, offsets_of, indexes_of, last_segment, end_of, position_after, position_in,
  read_pos, with_fields, assign_fields, wal_reader, invalidate_checksum, invalidate_from,
  invalidate_fields, invalidate,
}

module _ (generation : Text) where
  abbrev InGeneration : Pos → Type 0
  InGeneration p = p.generation ≡ generation

  last_of-InGeneration :
      (p : Pos) (ps : List Pos)
      → All InGeneration ps
      → (last_of p ps ≡ p) ⊎ InGeneration (last_of p ps)
  last_of-InGeneration p [] h = inl refl
  last_of-InGeneration p (q ∷ ps) h = elim (last_of-InGeneration q ps h.1) [
    | inl e ↦ inr (ap (λ r. r.generation) e ∙ h.0)
    | inr k ↦ inr k
  ]

  map-InGeneration :
      (index : ℕ) (offsets : List ℕ)
      → All InGeneration (
          map
            (λ offset. record { generation = generation; index = index; offset = offset })
            offsets)
  map-InGeneration index [] = tt
  map-InGeneration index (_ ∷ offsets) = (refl, map-InGeneration index offsets)

  segments_of-InGeneration :
      (segments : Segments) (indexes : List ℕ)
      → All InGeneration (segments_of generation segments indexes)
  segments_of-InGeneration segments [] = tt
  segments_of-InGeneration segments (index ∷ indexes) =
      All-append InGeneration _ _ (map-InGeneration index (offsets_of generation index segments))
        (segments_of-InGeneration segments indexes)

  last_segment-InGeneration :
      (segments : Segments)
      → (last_segment generation segments ≡ zero_pos)
        ⊎ InGeneration (last_segment generation segments)
  unfolding last_segment
  last_segment-InGeneration segments =
      last_of-InGeneration zero_pos _
        (segments_of-InGeneration segments (indexes_of generation segments))

-- A position is either zero or in a generation.
abbrev pub Located : Pos → Type 0
Located pos = (is_zero pos ≡ true) ⊎ (text_eq pos.generation [] ≡ false)

abbrev pub LocatedResult : Result Pos → Type 0
LocatedResult (err e) = Unit
LocatedResult (ok pos) = Located pos

pub zero_is_zero : is_zero zero_pos ≡ true
unfolding is_zero pos_eq text_eq
zero_is_zero = refl

module _ (lz4 : Lz4) (faults : OsFaults) (disk : Disk) where
  end_of-Located :
      (p : Pos) (r : Result (List ℕ))
      → text_eq p.generation [] ≡ false
      → LocatedResult (end_of lz4 p r)
  end_of-Located p (err e) g = tt
  end_of-Located p (ok bytes) g = inr g

  position_after-Located : (p : Pos) → Located p → LocatedResult (position_after lz4 faults disk p)
  position_after-Located p z = elim (Bool-cases (is_zero p)) [
    | inl e ↦ rw e (inl zero_is_zero)
    | inr e ↦ elim z [ inl z ↦ cc | inr g ↦ rw e (end_of-Located p _ g) ]
  ]

  position_in-Located : (r : Result Text) → LocatedResult (position_in lz4 faults disk r)
  position_in-Located (err e) = tt
  position_in-Located (ok generation) = elim (Bool-cases (text_eq generation [])) [
    | inl e ↦ rw e (inl zero_is_zero)
    | inr e ↦ elim (Option-cases faults.list_segments) [
      | inr (x, l) ↦ rw (e, l) tt
      | inl l ↦
          rw (e, l)
            (position_after-Located (last_segment generation disk.segments)
              (elim (last_segment-InGeneration generation disk.segments) [
                | inl z ↦ inl (ap is_zero z ∙ zero_is_zero)
                | inr g ↦ inr (ap (λ h. text_eq h []) g ∙ e)
              ]))
    ]
  ]

  pub read_pos-Located : (pos : Pos) → read_pos lz4 faults disk ≡ ok pos → Located pos
  unfolding read_pos
  read_pos-Located pos h =
      subst LocatedResult h (position_in-Located (current_generation faults disk))

-- The fields after `invalidate`: at the zero position no generation is named in the file.
abbrev pub Reloaded : ℕ → Db → Disk → Type 0
Reloaded n db disk =
    HasIndex n db disk ⊎ (HasPage n db × (disk.generation_file ≡ none) × (is_zero db.pos ≡ true))

clear_generation-Outcome :
    (n : ℕ) (fault : Option Error) (db : Db) (disk : Disk)
    → HasPage n db
    → is_zero db.pos ≡ true
    → Outcome
        (HasPage n)
        (λ _. Reloaded n)
        (some ((clear_generation fault disk).0, db, (clear_generation fault disk).1))
unfolding clear_generation
clear_generation-Outcome n fault db disk h z = elim (Option-cases disk.generation_file) [
  | inl e ↦ rw (clear_generation, e) (Outcome-ok tt db disk (inr (h, e, z)))
  | inr (name, e) ↦ elim (Option-cases fault) [
    | inl f ↦ rw (clear_generation, e, f) (Outcome-ok tt db _ (inr (h, refl, z)))
    | inr (x, f) ↦ rw (clear_generation, e, f) (Outcome-err x db disk h)
  ]
]

module _ (n : ℕ) (lz4 : Lz4) where
  assign_fields-Outcome :
      (r : Result WalFields) (db : Db) (disk : Disk)
      → text_eq db.pos.generation [] ≡ false
      → HasPage n db
      → Outcome (HasPage n) (λ _. HasIndex n) (assign_fields lz4 (some r) db disk)
  assign_fields-Outcome (err e) db disk g h = Outcome-err _ db disk h
  assign_fields-Outcome (ok fields) db disk g h =
      Outcome-ok tt (with_fields lz4 fields db) disk (h, g, (fields.byte_order, refl))

  invalidate_checksum-Outcome :
      (faults : OsFaults) (db : Db) (disk : Disk)
      → is_zero db.pos ≡ false
      → text_eq db.pos.generation [] ≡ false
      → HasPage n db
      → Outcome (HasPage n) (λ _. HasIndex n) (invalidate_checksum lz4 faults db disk)
  unfolding invalidate_checksum
  invalidate_checksum-Outcome faults db disk z g h =
      elim (Result-cases (wal_reader lz4 faults db.pos.generation db.pos.index disk.segments)) [
        | inl (e, q) ↦ rw (z, q) (Outcome-err _ db disk h)
        | inr (bytes, q) ↦
            let (r, k) = read_wal_fields-total db.page_size (take db.pos.offset bytes) in
            rw (z, q, k) (assign_fields-Outcome r db disk g h)
      ]

  module _ (faults : OsFaults) where
    invalidate_from-Outcome :
        (db : Db) (disk : Disk)
        → Located db.pos
        → HasPage n db
        → Outcome (HasPage n) (λ _. Reloaded n) (invalidate_from lz4 faults db.pos db disk)
    unfolding invalidate_from
    invalidate_from-Outcome db disk l h = elim (Bool-cases (is_zero db.pos)) [
      | inl e ↦
          rw e
            (Outcome-wrap_out _ _ (clear_generation-Outcome n faults.remove_generation db disk h e))
      | inr e ↦ elim l [
        | inl z ↦ cc
        | inr g ↦ rw e (
            Outcome-wrap_out _ _ (
              Outcome-weaken _ (invalidate_checksum-Outcome faults db disk e g h) (λ _ k. k)
                (λ _ _ _ k. inl k)))
      ]
    ]

    invalidate_fields-Outcome :
        (db : Db) (disk : Disk)
        → HasPage n db
        → Outcome (HasPage n) (λ _. Reloaded n) (invalidate_fields lz4 faults db disk)
    unfolding invalidate_fields reset
    invalidate_fields-Outcome db disk h =
        Outcome-continue _ _
          (Outcome-wrap_out _ _ (
            Outcome-of_result {Q = λ pos db1 disk1. HasPage n db1 × Located pos} (reset db) disk
              (read_pos lz4 faults disk) h (λ pos e. (h, read_pos-Located lz4 faults disk pos e))))
          (λ pos db1 disk1 h1. invalidate_from-Outcome (record db1 { pos = pos }) disk1 h1.1 h1.0)

    pub invalidate-Outcome :
        (db : Db) (disk : Disk)
        → HasPage n db
        → Outcome
            (λ db'. HasPage n db' × (is_zero db'.pos ≡ true))
            (λ _. Reloaded n)
            (invalidate lz4 faults db disk)
    unfolding invalidate reset
    invalidate-Outcome db disk h =
        Outcome-reset_out _ (λ db' k. (k, zero_is_zero)) (invalidate_fields-Outcome db disk h)
