-- ===== src/Db/Copy/Segment.antt =====
-- What `copyToShadowWAL` leaves behind: the segment that it writes, and the cached position.
use litestream.Prelude.{
  ℕ, suc, ◌+◌, ◌-◌, ◌≡◌, refl, sym, ap, ◌∙◌, ◌⊎◌, inl, inr, true, false, Option, none, some, List,
  [], ◌∷◌, ◌++◌, not_exist, Result, ok, err, length, length-append, take, drop, take-append, concat,
  All, Bool-cases, Option-cases, arith, subst, subst₂,
}
use litestream.Pos.{pos_eq, is_zero}
use litestream.Pos.Order.{pos_eq_iff}
use litestream.Db.{Db}
use litestream.Db.Disk.{Lz4, Disk, write_wal_segment}
use litestream.Db.Copy.{
  Scan, CopyFaults, start_scan, new_db_size, scan_frames, flush_scan, after_scan, copy_wal,
  keep_segment, copy_to_shadow_wal,
}
use litestream.Db.Copy.Frames.{Run, Commits, start-Covers, concat-append}
use litestream.Db.Copy.Scanned.{Ended, Scanned, scan_frames-Scanned}
use litestream.Text.{text_eq}
use litestream.Db.Copy.CanCheck.{is_zero-generation, CanCheck, scan_frames-total}

-- The copy of one call: the frames `done` of the WAL behind the position, a run that continues the
-- shadow WAL's checksum and ends with a commit.
pub record Copied (lz4 : Lz4) (faults : CopyFaults) (db : Db) (disk : Disk) (db' : Db)
    (disk' : Disk) : Type 0 where
  pub wal : List ℕ
  pub read : disk.wal ≡ some wal
  pub done : List (List ℕ)
  pub pend : List (List ℕ)
  pub rest : List ℕ
  pub end_chksum : ℕ × ℕ
  -- The WAL from the position on: what is copied, frames of an open transaction, and the rest,
  -- which does not begin with a frame.
  pub all_bytes : drop db.pos.offset wal ≡ concat (done ++ pend) ++ rest
  pub run : Run db db.chksum done db'.chksum
  pub pending : Run db db'.chksum pend end_chksum
  pub uncommitted : All (λ f. new_db_size f ≡ 0) pend
  pub ended : Ended db end_chksum rest
  pub kept : db' ≡ record db { pos = db'.pos; chksum = db'.chksum; frame = db'.frame }
  pub pos : db'.pos ≡ record db.pos { offset = db.pos.offset + length (concat done) }
  pub result :
      ((done ≡ []) × (db' ≡ db) × (disk' ≡ disk))
      ⊎ (Commits done db'.frame
          × (write_wal_segment faults.segment db.pos (lz4.compress (concat done)) disk
              ≡ (ok tt, disk')))

-- A run that is not empty moves the position.
Run-moves :
    (db : Db) (c c' : ℕ × ℕ) (done : List (List ℕ))
    → Run db c done c'
    → length (concat done) ≡ 0
    → done ≡ []
Run-moves db c c' [] r h = refl
Run-moves db c c' (f ∷ fs) r h = absurd (omega (arith, r.0.size, length-append f (concat fs)))

Commits-ne : (done : List (List ℕ)) (last : List ℕ) → Commits done last → done ≡ [] → ⊥
Commits-ne done last (init, e, _) h = cons_ne init last (sym h ∙ e)
  where
    cons_ne : (init : List (List ℕ)) (last : List ℕ) → [] ≡ init ++ last ∷ [] → ⊥
    cons_ne [] last e = cc
    cons_ne (f ∷ init) last e = cc

module _ (lz4 : Lz4) (faults : CopyFaults) (db : Db) (disk : Disk) (wal : List ℕ)
    (read : disk.wal ≡ some wal) (t : Scan) (m : Scanned db (drop db.pos.offset wal) t) where
  -- The high water mark did not move.
  flush_still : pos_eq db.pos t.hwm_pos ≡ true → m.done ≡ []
  flush_still h =
      let same = (pos_eq_iff db.pos t.hwm_pos).0 h in
      Run-moves db db.chksum t.hwm_chksum m.done m.covers.run
        (omega (arith, ap (λ p. p.offset) same, ap (λ p. p.offset) m.covers.hwm_pos))

  first_bytes : take (t.hwm_pos.offset - db.pos.offset) t.temp ≡ concat m.done
  first_bytes =
      let n : t.hwm_pos.offset - db.pos.offset ≡ length (concat m.done) =
        omega (arith, ap (λ p. p.offset) m.covers.hwm_pos) in
      rw (n, m.covers.temp, concat-append m.done m.pend)
        (take-append (concat m.done) (concat m.pend))

  still-Copied : m.done ≡ [] → Copied lz4 faults db disk db disk
  still-Copied none_done =
      let run0 : db.chksum ≡ t.hwm_chksum =
        subst (λ d. Run db db.chksum d t.hwm_chksum) none_done m.covers.run in
      let at : db.pos.offset ≡ db.pos.offset + 0 = omega arith in
      record {
        wal = wal;
        read = read;
        done = [];
        pend = m.pend;
        rest = m.rest;
        end_chksum = t.chksum;
        all_bytes =
            subst (λ d. drop db.pos.offset wal ≡ concat (d ++ m.pend) ++ m.rest) none_done
              m.all_bytes;
        run = refl;
        pending = subst (λ c. Run db c m.pend t.chksum) (sym run0) m.covers.pending;
        uncommitted = m.covers.uncommitted;
        ended = m.ended;
        kept = refl;
        pos = λ i. record db.pos { offset = at i };
        result = inl (refl, refl, refl);
      }

  commits : pos_eq db.pos t.hwm_pos ≡ false → Commits m.done t.hwm_frame
  commits moved = elim m.covers.commits [
    | inr c ↦ c
    | inl e ↦
        let at : db.pos.offset ≡ db.pos.offset + length (concat m.done) =
          omega (arith, ap (λ d. length (concat d)) e) in
        let same : db.pos ≡ t.hwm_pos =
          (λ i. record db.pos { offset = at i }) ∙ sym m.covers.hwm_pos in
        cc (moved, (pos_eq_iff db.pos t.hwm_pos).1 same)
  ]

  moved-Copied :
      {disk' : Disk}
      → pos_eq db.pos t.hwm_pos ≡ false
      → write_wal_segment faults.segment db.pos (lz4.compress (concat m.done)) disk ≡ (ok tt, disk')
      → Copied lz4 faults db disk
          (record db { pos = t.hwm_pos; chksum = t.hwm_chksum; frame = t.hwm_frame })
          disk'
  moved-Copied moved w = record {
    wal = wal;
    read = read;
    done = m.done;
    pend = m.pend;
    rest = m.rest;
    end_chksum = t.chksum;
    all_bytes = m.all_bytes;
    run = m.covers.run;
    pending = m.covers.pending;
    uncommitted = m.covers.uncommitted;
    ended = m.ended;
    kept = refl;
    pos = m.covers.hwm_pos;
    result = inr (commits moved, w);
  }

  keep-Copied :
      {db' : Db} {disk' : Disk}
      → pos_eq db.pos t.hwm_pos ≡ false
      → (w : Result (Unit {0}) × Disk)
      → write_wal_segment faults.segment db.pos (lz4.compress (concat m.done)) disk ≡ w
      → keep_segment faults db t w ≡ (ok tt, db', disk')
      → Copied lz4 faults db disk db' disk'
  unfolding keep_segment
  keep-Copied e (err x, d) q h = cc
  keep-Copied e (ok _, d) q h =
      subst₂ (Copied lz4 faults db disk) (ap (λ r. r.1) h) (ap (λ r. r.2) h) (moved-Copied e q)

  flush-Copied :
      {db' : Db} {disk' : Disk}
      → flush_scan lz4 faults db disk t ≡ (ok tt, db', disk')
      → Copied lz4 faults db disk db' disk'
  unfolding flush_scan
  flush-Copied {db'} {disk'} h = elim (Bool-cases (pos_eq db.pos t.hwm_pos)) [
    | inl e ↦
        let g = rw e at h in
        subst₂ (Copied lz4 faults db disk) (ap (λ r. r.1) g) (ap (λ r. r.2) g)
          (still-Copied (flush_still e))
    | inr e ↦
        keep-Copied e (write_wal_segment faults.segment db.pos _ disk) refl
          (rw (e, first_bytes) at h)
  ]

module _ (lz4 : Lz4) (faults : CopyFaults) (db : Db) (disk : Disk) {db' : Db} {disk' : Disk} where
  after_scan-Copied :
      (wal : List ℕ)
      → disk.wal ≡ some wal
      → (r : Option (Result Scan))
      → scan_frames
          (suc (length (drop db.pos.offset wal)))
          db
          faults
          (drop db.pos.offset wal)
          (start_scan db)
        ≡ r
      → after_scan lz4 faults db disk r ≡ some (ok tt, db', disk')
      → Copied lz4 faults db disk db' disk'
  unfolding after_scan
  after_scan-Copied wal read none q h = cc
  after_scan-Copied wal read (some (err e)) q h = cc
  after_scan-Copied wal read (some (ok s)) q h =
      let bytes = drop db.pos.offset wal in
      flush-Copied lz4 faults db disk wal read s
        (scan_frames-Scanned db faults bytes (suc (length bytes)) bytes [] [] (start_scan db)
          (start-Covers db) refl q)
        (cc)

  copy_wal-Copied :
      (o : Option (List ℕ))
      → disk.wal ≡ o
      → copy_wal lz4 faults db disk o ≡ some (ok tt, db', disk')
      → Copied lz4 faults db disk db' disk'
  unfolding copy_wal
  copy_wal-Copied none read h = cc
  copy_wal-Copied (some wal) read h = elim (Option-cases faults.open_wal) [
    | inr (x, refused) ↦ cc (rw (copy_wal, refused) at h)
    | inl opened ↦ elim (Bool-cases (text_eq db.pos.generation [])) [
      | inl e ↦ cc (rw (copy_wal, opened, e) at h)
      | inr e ↦ after_scan-Copied wal read _ refl (rw (copy_wal, opened, e) at h)
    ]
  ]

  -- `copyToShadowWAL`, when it returns without an error: from the position on, the WAL is split
  -- into frames that continue the shadow WAL up to the last commit, frames of an open transaction,
  -- and a rest that begins with no further frame. Either there was no such commit and nothing
  -- changed, or exactly the committed frames were written as a segment at the old position, and
  -- position, checksum and last frame stand behind them.
  pub copy_to_shadow_wal-Copied :
      copy_to_shadow_wal lz4 faults db disk ≡ some (ok tt, db', disk')
      → Copied lz4 faults db disk db' disk'
  unfolding copy_to_shadow_wal
  copy_to_shadow_wal-Copied h = elim (Bool-cases (is_zero db.pos)) [
    | inl e ↦ cc (rw e at h)
    | inr e ↦ copy_wal-Copied disk.wal refl (rw e at h)
  ]

module _ (lz4 : Lz4) (faults : CopyFaults) (db : Db) (disk : Disk) where
  abbrev Returned : Option (Result (Unit {0}) × Db × Disk) → Type 0
  Returned o = (r : Result (Unit {0}) × Db × Disk) × (o ≡ some r)

  after_scan-Returned : (r : Result Scan) → Returned (after_scan lz4 faults db disk (some r))
  unfolding after_scan
  after_scan-Returned (ok s) = (flush_scan lz4 faults db disk s, refl)
  after_scan-Returned (err e) = ((err e, db, disk), refl)

  copy_wal-Returned :
      text_eq db.pos.generation [] ≡ false
      → CanCheck db
      → (o : Option (List ℕ)) → Returned (copy_wal lz4 faults db disk o)
  unfolding copy_wal
  copy_wal-Returned g can none = ((err not_exist, db, disk), refl)
  copy_wal-Returned g can (some wal) = elim (Option-cases faults.open_wal) [
    | inr (x, refused) ↦ ((err x, db, disk), rw (copy_wal, refused))
    | inl opened ↦
        let bytes = drop db.pos.offset wal in
        let (r, q) =
          scan_frames-total db faults can (suc (length bytes)) bytes (start_scan db)
            (omega arith) in
        rw (copy_wal, opened, g, q) (after_scan-Returned r)
  ]

  -- `copyToShadowWAL` always returns, whatever the file system refuses, when the position is in a
  -- generation, the page size is a multiple of 8 and the byte order is known: the fuel is enough, and
  -- no assertion and no checksum panics.
  pub copy_to_shadow_wal-total :
      text_eq db.pos.generation [] ≡ false
      → CanCheck db
      → (r : Result (Unit {0}) × Db × Disk) × (copy_to_shadow_wal lz4 faults db disk ≡ some r)
  unfolding copy_to_shadow_wal
  copy_to_shadow_wal-total g can =
      rw (is_zero-generation db.pos g) (copy_wal-Returned g can disk.wal)
