-- ===== src/Db/Verify/Accepts.antt =====
-- db.go: `verify`, at a position behind which the last frame stands in the WAL.
use litestream.Prelude.{
  ℕ, ◌+◌, ◌-◌, ◌≡◌, refl, sym, ap, ◌∙◌, inl, inr, true, false, not, Option, none, some, List, [],
  ◌++◌, ok, Bool-cases, Option-cases, Result-cases, arith, length, length-append, take, drop,
  take-append, drop-append, ltb, leb,
}
use litestream.Text.{Text, text_eq, text_eq_refl}
use litestream.Wal.Writer.{wal_header_size}
use litestream.Db.{Db}
use litestream.Db.Disk.{Disk}
use litestream.Db.Index.{OsFaults, header_of, read_wal_header}
use litestream.Db.Copy.{frame_size}
use litestream.Db.Verify.{
  max_index, SyncInfo, current_generation, generation_of, read_wal_before, verify_frame, verify_wal,
  verify_generation, verify,
}

module _ (faults : OsFaults) where
  read_wal-none :
      (wal : Option (List ℕ)) (hdr : List ℕ)
      → header_of faults.read_wal wal ≡ ok hdr
      → faults.read_wal ≡ none
  read_wal-none none hdr h = cc h
  read_wal-none (some wal) hdr h = elim (Option-cases faults.read_wal) [
    | inl e ↦ e
    | inr (x, e) ↦ cc (rw e at h)
  ]

  read_before :
      (before frame more : List ℕ) (offset back : ℕ)
      → faults.read_wal ≡ none
      → length frame ≡ back
      → offset ≡ length before + length frame
      → read_wal_before faults offset back (before ++ (frame ++ more)) ≡ ok frame
  unfolding read_wal_before
  read_before before frame more offset back none_read size at =
      let after : ltb offset back ≡ false = ground arith in
      let start : offset - back ≡ length before = omega arith in
      let long : length (before ++ (frame ++ more)) ≡ length before + (length frame + length more) =
        length-append before (frame ++ more)
        ∙ ap (◌+◌ (length before)) (length-append frame more) in
      let inside : leb offset (length (before ++ (frame ++ more))) ≡ true =
        rw long (ground arith) in
      let taken : take back (drop (offset - back) (before ++ (frame ++ more))) ≡ frame =
        rw (start, drop-append before (frame ++ more), ← size) (take-append frame more) in
      rw (after, none_read, inside, taken) refl

  -- The frame in front of the position is the last one that was copied.
  verify_frame-accepts :
      (db : Db) (wal before more : List ℕ) (info : SyncInfo)
      → faults.read_wal ≡ none
      → wal ≡ before ++ (db.frame ++ more)
      → length db.frame ≡ frame_size db
      → db.pos.offset ≡ length before + length db.frame
      → verify_frame faults db wal info ≡ ok info
  unfolding verify_frame
  verify_frame-accepts db wal before more info none_read split size offset =
      let found : read_wal_before faults db.pos.offset (frame_size db) wal ≡ ok db.frame =
        rw split
          (read_before before db.frame more db.pos.offset (frame_size db) none_read size offset) in
      elim (Bool-cases (ltb wal_header_size db.pos.offset)) [
        | inl e ↦ rw (e, found, text_eq_refl db.frame) refl
        | inr e ↦ rw e refl
      ]

  -- Where `verify` finds no reason, it answers with what it was given.
  verify_frame-same :
      (db : Db) (wal : List ℕ) (i info : SyncInfo)
      → verify_frame faults db wal i ≡ ok info
      → info.reason ≡ none
      → i ≡ info
  unfolding verify_frame
  verify_frame-same db wal i info h blank = elim (Bool-cases (ltb wal_header_size db.pos.offset)) [
    | inr e ↦ cc (rw e at h)
    | inl e ↦ elim (Result-cases (read_wal_before faults db.pos.offset (frame_size db) wal)) [
      | inl (x, q) ↦ cc (rw (e, q) at h)
      | inr (frame, q) ↦ elim (Bool-cases (text_eq frame db.frame)) [
        | inl c ↦ cc (rw (e, q, c) at h)
        | inr c ↦ cc (rw (e, q, c) at h)
      ]
    ]
  ]

  pub verify_wal-accepts :
      (db db' : Db) (disk disk' : Disk) (wal before more : List ℕ) (i info : SyncInfo)
      → db'.pos.index ≡ db.pos.index
      → db'.hdr ≡ db.hdr
      → disk'.wal ≡ disk.wal
      → wal ≡ before ++ (db'.frame ++ more)
      → length db'.frame ≡ frame_size db'
      → db'.pos.offset ≡ length before + length db'.frame
      → verify_wal faults db disk wal i ≡ ok info
      → info.reason ≡ none
      → verify_wal faults db' disk' wal i ≡ ok info
  unfolding verify_wal read_wal_header verify_frame
  verify_wal-accepts db db' disk disk' wal before more i info same_index same_hdr same_wal split
        size offset h blank =
      let inside : ltb (length wal) db'.pos.offset ≡ false = rw (split, long) (ground arith) in
      elim (Bool-cases (leb max_index db.pos.index)) [
        | inl e ↦ cc (rw e at h)
        | inr e ↦ elim (Bool-cases (ltb (length wal) db.pos.offset)) [
          | inl t ↦ cc (rw (e, t) at h)
          | inr t ↦ elim (Result-cases (read_wal_header faults disk)) [
            | inl (x, q) ↦ cc (rw (e, t, q) at h)
            | inr (hdr, q) ↦
                let checked : SyncInfo = record i { restart = not (text_eq hdr db.hdr) } in
                let same : checked ≡ info =
                  verify_frame-same db wal checked info (rw (e, t, q) at h) blank in
                rw (same_index, e, inside, same_wal, q, same_hdr)
                  (verify_frame-accepts db' wal before more checked (read_wal-none disk.wal hdr q)
                      split size offset
                    ∙ ap ok same)
          ]
        ]
      ]
    where
      long :
          length (before ++ (db'.frame ++ more)) ≡ length before + (length db'.frame + length more)
      long =
          length-append before (db'.frame ++ more)
          ∙ ap (◌+◌ (length before)) (length-append db'.frame more)

  looked_at : Text → ℕ → SyncInfo
  looked_at generation age = record {
    generation = generation;
    age = some age;
    restart = false;
    reason = none;
  }

  verify-verify_wal :
      (age : ℕ) (db : Db) (disk : Disk) (generation : Text) (wal : List ℕ)
      → generation_of faults.read_generation disk.generation_file ≡ ok generation
      → text_eq generation [] ≡ false
      → faults.stat ≡ none
      → disk.wal ≡ some wal
      → verify faults age db disk ≡ verify_wal faults db disk wal (looked_at generation age)
  unfolding verify verify_generation current_generation looked_at
  verify-verify_wal age db disk generation wal g e st w = simp (g, e, st, w)

  -- `verify` looks at the database through `verify_wal` alone.
  pub verify-through :
      (age : ℕ) (db db' : Db) (disk disk' : Disk) (info : SyncInfo)
      → disk'.wal ≡ disk.wal
      → disk'.generation_file ≡ disk.generation_file
      → ((wal : List ℕ)
          → disk.wal ≡ some wal
          → (i : SyncInfo) → verify_wal faults db disk wal i ≡ ok info
          → verify_wal faults db' disk' wal i ≡ ok info)
      → info.reason ≡ none
      → verify faults age db disk ≡ ok info
      → verify faults age db' disk' ≡ ok info
  unfolding verify verify_generation current_generation
  verify-through age db db' disk disk' info same_wal same_generation step blank h =
      elim (Result-cases (generation_of faults.read_generation disk.generation_file)) [
        | inl (x, g) ↦ cc (rw g at h)
        | inr (generation, g) ↦ elim (Bool-cases (text_eq generation [])) [
          | inl e ↦ cc (rw (g, e) at h)
          | inr e ↦ elim (Option-cases faults.stat) [
            | inr (x, st) ↦ cc (rw (g, e, st) at h)
            | inl st ↦ elim (Option-cases disk.wal) [
              | inl w ↦ cc (rw (g, e, st, w) at h)
              | inr (wal, w) ↦
                  verify-verify_wal age db' disk' generation wal
                    (ap (generation_of faults.read_generation) same_generation ∙ g) e st
                    (same_wal ∙ w)
                  ∙ step wal w (looked_at generation age)
                      (sym (verify-verify_wal age db disk generation wal g e st w) ∙ h)
            ]
          ]
        ]
      ]
