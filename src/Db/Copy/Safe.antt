-- ===== src/Db/Copy/Safe.antt =====
-- What `copyToShadowWAL` keeps of the cached fields, and that it does not panic.
use litestream.Prelude.{
  [], subst, ℕ, ◌%◌, ◌≡◌, refl, ap, ◌∙◌, false, Option, none, some, List, Result, ok, err,
  Bool-cases, Option-cases, inl, inr,
}
use litestream.Text.{text_eq}
use litestream.Pos.{pos_eq, is_zero}
use litestream.Wal.Bytes.{ByteOrder}
use litestream.Db.{Db}
use litestream.Db.Disk.{Lz4, Disk}
use litestream.Db.Call.Outcome.{Outcome, Outcome-ok, Outcome-err}
use litestream.Db.Copy.{
  Scan, CopyFaults, flush_scan, after_scan, copy_wal, keep_segment, copy_to_shadow_wal,
}
use litestream.Db.Copy.Segment.{copy_to_shadow_wal-Copied, copy_to_shadow_wal-total}

abbrev pub HasPage : ℕ → Db → Type 0
HasPage n db = (db.page_size ≡ n) × (n % 8 ≡ 0)

-- A position in a generation, and a byte order read from a header.
abbrev pub HasIndex : ℕ → Db → Disk → Type 0
HasIndex n db disk =
    HasPage n db
    × (text_eq db.pos.generation [] ≡ false)
    × ((order : ByteOrder) × (db.byte_order ≡ some order))

abbrev KeepsPage : Db → Option (Result (Unit {0}) × Db × Disk) → Type 0
KeepsPage db none = Unit
KeepsPage db (some (r, db', disk')) = db'.page_size ≡ db.page_size

module _ (lz4 : Lz4) (faults : CopyFaults) (db : Db) (disk : Disk) where
  keep_segment-KeepsPage :
      (s : Scan) (w : Result (Unit {0}) × Disk) → KeepsPage db (some (keep_segment faults db s w))
  unfolding keep_segment
  keep_segment-KeepsPage s (err e, disk) = refl
  keep_segment-KeepsPage s (ok _, disk) = refl

  flush_scan-KeepsPage : (s : Scan) → KeepsPage db (some (flush_scan lz4 faults db disk s))
  unfolding flush_scan
  flush_scan-KeepsPage s = elim (Bool-cases (pos_eq db.pos s.hwm_pos)) [
    | inl e ↦ rw e refl
    | inr e ↦ rw e (keep_segment-KeepsPage s _)
  ]

  after_scan-KeepsPage : (o : Option (Result Scan)) → KeepsPage db (after_scan lz4 faults db disk o)
  unfolding after_scan
  after_scan-KeepsPage none = tt
  after_scan-KeepsPage (some (err e)) = refl
  after_scan-KeepsPage (some (ok s)) = flush_scan-KeepsPage s

  copy_wal-KeepsPage : (o : Option (List ℕ)) → KeepsPage db (copy_wal lz4 faults db disk o)
  unfolding copy_wal
  copy_wal-KeepsPage none = refl
  copy_wal-KeepsPage (some wal) = elim (Option-cases faults.open_wal) [
    | inr (x, refused) ↦ rw (copy_wal, refused) refl
    | inl opened ↦ elim (Bool-cases (text_eq db.pos.generation [])) [
      | inl e ↦ rw (copy_wal, opened, e) tt
      | inr e ↦ rw (copy_wal, opened, e) (after_scan-KeepsPage _)
    ]
  ]

  pub copy_to_shadow_wal-KeepsPage : KeepsPage db (copy_to_shadow_wal lz4 faults db disk)
  unfolding copy_to_shadow_wal
  copy_to_shadow_wal-KeepsPage = elim (Bool-cases (is_zero db.pos)) [
    | inl e ↦ rw e tt
    | inr e ↦ rw e (copy_wal-KeepsPage disk.wal)
  ]

module _ (lz4 : Lz4) (faults : CopyFaults) (n : ℕ) (db : Db) (disk : Disk) where
  copied-Outcome :
      (r : Result (Unit {0}) × Db × Disk)
      → copy_to_shadow_wal lz4 faults db disk ≡ some r
      → KeepsPage db (some r)
      → HasIndex n db disk
      → Outcome (HasPage n) (λ _. HasIndex n) (some r)
  copied-Outcome (err e, db', disk') q k ((p, m), g, (bo, e')) = Outcome-err e db' disk' (k ∙ p, m)
  copied-Outcome (ok tt, db', disk') q k ((p, m), g, (bo, e)) =
      let c = copy_to_shadow_wal-Copied lz4 faults db disk q in
      Outcome-ok tt db' disk' (
        (k ∙ p, m),
        ap (λ p. text_eq p.generation []) c.pos ∙ g,
        (bo, ap (λ d. d.byte_order) c.kept ∙ e),
      )

  pub copy_to_shadow_wal-Outcome :
      HasIndex n db disk
      → Outcome (HasPage n) (λ _. HasIndex n) (copy_to_shadow_wal lz4 faults db disk)
  copy_to_shadow_wal-Outcome ((p, m), g, (bo, e)) =
      let (r, q) =
        copy_to_shadow_wal-total lz4 faults db disk g
          (record { aligned = ap (λ m. m % 8) p ∙ m; order = bo; known = e }) in
      rw q (
        copied-Outcome r q
          (subst (KeepsPage db) q (copy_to_shadow_wal-KeepsPage lz4 faults db disk))
          ((p, m), g, (bo, e)))
