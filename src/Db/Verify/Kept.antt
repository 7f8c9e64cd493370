-- ===== src/Db/Verify/Kept.antt =====
-- db.go: `verify` before and after `copyToShadowWAL`.
use litestream.Prelude.{
  ℕ, ◌+◌, ◌≤◌, ◌≡◌, refl, sym, ap, ◌∙◌, subst, ◌⊎◌, inl, inr, none, some, List, [], ◌∷◌, ◌++◌, ok,
  Bool-cases, Option-cases, arith, length, length-append, length-drop, length-take_of_le,
  take-append-drop, take, drop, concat,
}
use mathlib.Core.List.{append_assoc, append-nil}
use litestream.Text.{text_eq}
use litestream.Pos.{Pos}
use litestream.Db.{Db}
use litestream.Db.Disk.{Lz4, Disk, SegmentFaults, write_wal_segment}
use litestream.Db.Index.{OsFaults}
use litestream.Db.Copy.{CopyFaults, frame_size, stored_chksum, copy_to_shadow_wal}
use litestream.Db.Copy.Frames.{Run, Commits, concat-append}
use litestream.Db.Copy.Segment.{Copied, copy_to_shadow_wal-Copied}
use litestream.Db.Verify.{SyncInfo, verify_wal, verify}
use litestream.Db.Verify.Accepts.{verify_wal-accepts, verify-through}

write_wal_segment-keeps :
    (faults : SegmentFaults) (pos : Pos) (bytes : List ℕ) (disk : Disk)
    → ((write_wal_segment faults pos bytes disk).1.wal ≡ disk.wal)
      × ((write_wal_segment faults pos bytes disk).1.generation_file ≡ disk.generation_file)
unfolding write_wal_segment
write_wal_segment-keeps faults pos bytes disk = elim (Bool-cases (text_eq pos.generation [])) [
  | inl e ↦ rw e (refl, refl)
  | inr e ↦ elim (Option-cases faults.file) [
    | inr (x, f) ↦ rw (write_wal_segment, e, f) (refl, refl)
    | inl f ↦ elim (Option-cases faults.position) [
      | inr (x, p) ↦ rw (write_wal_segment, e, f, p) (refl, refl)
      | inl p ↦ rw (write_wal_segment, e, f, p) (refl, refl)
    ]
  ]
]

-- The last frame of a run has a frame's size.
Run-last :
    (db : Db) (c c' : ℕ × ℕ) (init : List (List ℕ)) (last : List ℕ)
    → Run db c (init ++ last ∷ []) c'
    → length last ≡ frame_size db
Run-last db c c' [] last r = r.0.size
Run-last db c c' (f ∷ init) last r = Run-last db (stored_chksum f) c' init last r.1

Copied-split :
    (lz4 : Lz4) (cf : CopyFaults) (db db' : Db) (disk disk' : Disk)
    → (c : Copied lz4 cf db disk db' disk') → Commits c.done db'.frame
    → (before : List ℕ) × (more : List ℕ) × (c.wal ≡ before ++ (db'.frame ++ more))
      × (length db'.frame ≡ frame_size db)
      × (db'.pos.offset ≡ length before + length db'.frame)
Copied-split lz4 cf db db' disk disk' c (init, split, commits) =
    (take db.pos.offset c.wal ++ concat init, concat c.pend ++ c.rest, all, size, end)
  where
    size : length db'.frame ≡ frame_size db
    size =
        Run-last db db.chksum db'.chksum init db'.frame
          (subst (λ d. Run db db.chksum d db'.chksum) split c.run)

    done_bytes : concat c.done ≡ concat init ++ db'.frame
    done_bytes =
        ap concat split
        ∙ concat-append init (db'.frame ∷ [])
        ∙ ap (◌++◌ (concat init)) (append-nil db'.frame)

    tail : drop db.pos.offset c.wal ≡ concat init ++ (db'.frame ++ (concat c.pend ++ c.rest))
    tail = c.all_bytes ∙ simp (concat-append c.done c.pend, done_bytes, append_assoc)

    all :
        c.wal
        ≡ (take db.pos.offset c.wal ++ concat init) ++ (db'.frame ++ (concat c.pend ++ c.rest))
    all =
        sym (take-append-drop db.pos.offset c.wal)
        ∙ ap (◌++◌ (take db.pos.offset c.wal)) tail
        ∙ sym (
            append_assoc (take db.pos.offset c.wal) (concat init)
              (db'.frame ++ (concat c.pend ++ c.rest)))

    inside : db.pos.offset ≤ length c.wal
    inside = omega (
      arith,
      size,
      ap length tail,
      length-drop db.pos.offset c.wal,
      length-append (concat init) (db'.frame ++ (concat c.pend ++ c.rest)),
      length-append db'.frame (concat c.pend ++ c.rest),
    )

    end : db'.pos.offset ≡ length (take db.pos.offset c.wal ++ concat init) + length db'.frame
    end = omega (
      arith,
      ap (λ p. p.offset) c.pos,
      ap length done_bytes,
      length-append (concat init) db'.frame,
      length-append (take db.pos.offset c.wal) (concat init),
      length-take_of_le db.pos.offset c.wal inside,
    )

-- A position that `verify` found no fault with stays one through `copyToShadowWAL`: where the
-- copy succeeds, `verify` at the position, checksum and last frame that it leaves answers as it
-- did before the copy, if nothing else happens between.
pub copy-verify :
    (faults : OsFaults) (lz4 : Lz4) (cf : CopyFaults) (age : ℕ) (db db' : Db) (disk disk' : Disk)
    (info : SyncInfo)
    → verify faults age db disk ≡ ok info
    → info.reason ≡ none
    → copy_to_shadow_wal lz4 cf db disk ≡ some (ok tt, db', disk')
    → verify faults age db' disk' ≡ ok info
copy-verify faults lz4 cf age db db' disk disk' info checked blank copied = by_result c.result
  where
    c : Copied lz4 cf db disk db' disk'
    c = copy_to_shadow_wal-Copied lz4 cf db disk copied

    by_result :
        ((c.done ≡ []) × (db' ≡ db) × (disk' ≡ disk))
          ⊎ (Commits c.done db'.frame
              × (write_wal_segment cf.segment db.pos (lz4.compress (concat c.done)) disk
                  ≡ (ok tt, disk')))
        → verify faults age db' disk' ≡ ok info
    by_result (inl (_, same_db, same_disk)) = rw (same_db, same_disk) checked
    by_result (inr (commits, written)) =
        let (before, more, split, size, at) = Copied-split lz4 cf db db' disk disk' c commits in
        let kept : (disk'.wal ≡ disk.wal) × (disk'.generation_file ≡ disk.generation_file) =
          subst (λ r. (r.1.wal ≡ disk.wal) × (r.1.generation_file ≡ disk.generation_file)) written
            (write_wal_segment-keeps cf.segment db.pos (lz4.compress (concat c.done)) disk) in
        let step : (wal : List ℕ)
            → disk.wal ≡ some wal
            → (i : SyncInfo) → verify_wal faults db disk wal i ≡ ok info
            → verify_wal faults db' disk' wal i ≡ ok info =
          λ wal read i h.
            verify_wal-accepts faults db db' disk disk' wal before more i info
              (ap (λ p. p.index) c.pos) (ap (λ d. d.hdr) c.kept) kept.0 (cc (c.read, read, split))
              (size ∙ sym (ap frame_size c.kept)) at h blank in
        verify-through faults age db db' disk disk' info kept.0 kept.1 step blank checked
