-- ===== src/Db/Copy/Scanned.antt =====
-- The loop of `copyToShadowWAL`, and where it ends.
use mathlib.Core.List.{append_assoc}
use litestream.Prelude.{
  ℕ, zero, suc, ◌≡◌, sym, ap, ◌∙◌, inl, inr, true, false, Option, some, List, ◌++◌, Error, ok,
  length, length-append, length-take_of_le, take-append-drop, take-append, drop-append, subst,
  concat, Bool-cases, Option-cases, Result-cases, arith,
}
use litestream.Db.{Db}
use litestream.Db.Copy.{
  Scan, CopyFaults, frame_size, read_full_file, end_scan, chain_checksum, stored_salts,
  stored_chksum, words_eq, add_frame, scan_frames,
}
use litestream.Db.Copy.Frames.{IsFrame, Covers, add_frame-Added}

pub read_full_file-ok :
    (fault : Option Error) (n : ℕ) (bytes frame rest : List ℕ)
    → read_full_file fault n bytes ≡ ok (frame, rest)
    → (length frame ≡ n) × (bytes ≡ frame ++ rest)
unfolding read_full_file
read_full_file-ok fault n bytes frame rest h =
    ground (arith, length-take_of_le n bytes, take-append-drop n bytes)

read_full_file-append :
    (fault : Option Error) (n : ℕ) (bytes frame after : List ℕ)
    → bytes ≡ frame ++ after
    → length frame ≡ n
    → read_full_file fault n bytes ≡ ok (frame, after)
unfolding read_full_file
read_full_file-append fault n bytes frame after e h =
    rw (e, ← h)
      (ground (arith, length-append frame after, take-append frame after, drop-append frame after))

end_scan-ok : (s t : Scan) (e : Error) → end_scan s e ≡ ok t → s ≡ t
unfolding end_scan
end_scan-ok s t e h = ground arith

words_eq→eq : (a b : ℕ × ℕ) → words_eq a b ≡ true → a ≡ b
words_eq→eq a b h = ground arith

words_eq_refl : (a b : ℕ × ℕ) → a ≡ b → words_eq a b ≡ true
words_eq_refl a b h = ground arith

-- Where the loop ends: no frame of the WAL follows in what is left.
abbrev pub Ended : Db → ℕ × ℕ → List ℕ → Type 0
Ended db c rest = (frame after : List ℕ) → rest ≡ frame ++ after → IsFrame db c frame → ⊥

-- What the loop did, when it returns without an error.
pub record Scanned (db : Db) (bytes : List ℕ) (t : Scan) : Type 0 where
  pub done : List (List ℕ)
  pub pend : List (List ℕ)
  pub rest : List ℕ
  pub covers : Covers db done pend t
  pub all_bytes : bytes ≡ concat (done ++ pend) ++ rest
  pub ended : Ended db t.chksum rest

module _ (db : Db) (faults : CopyFaults) (all : List ℕ) where
  -- The frame that was read is no frame of the WAL.
  read_end :
      (c : ℕ × ℕ) (bytes frame rest : List ℕ)
      → read_full_file faults.read (frame_size db) bytes ≡ ok (frame, rest)
      → (IsFrame db c frame → ⊥)
      → Ended db c bytes
  read_end c bytes frame rest q bad frame' after e next =
      let q' = read_full_file-append faults.read (frame_size db) bytes frame' after e next.size in
      let same : frame' ≡ frame = cc in bad (subst (IsFrame db c) same next)

  sum_differs :
      {a : ℕ × ℕ} (c : ℕ × ℕ) (frame : List ℕ)
      → chain_checksum db.byte_order a frame ≡ some c
      → words_eq c (stored_chksum frame) ≡ false
      → IsFrame db a frame
      → ⊥
  sum_differs c frame sum bad next =
      let same : some c ≡ some (stored_chksum frame) = sym sum ∙ next.chain in
      cc (bad, words_eq_refl c (stored_chksum frame) (cc))

  finish :
      (bytes : List ℕ) (done pend : List (List ℕ)) (s t : Scan)
      → Covers db done pend s
      → all ≡ concat (done ++ pend) ++ bytes
      → Ended db s.chksum bytes
      → s ≡ t
      → Scanned db all t
  finish bytes done pend s t v e n same =
      subst (Scanned db all) same
        (record { done = done; pend = pend; rest = bytes; covers = v; all_bytes = e; ended = n })

  pub scan_frames-Scanned :
      (fuel : ℕ) (bytes : List ℕ) (done pend : List (List ℕ)) (s : Scan) {t : Scan}
      → Covers db done pend s
      → all ≡ concat (done ++ pend) ++ bytes
      → scan_frames fuel db faults bytes s ≡ some (ok t)
      → Scanned db all t
  unfolding scan_frames
  scan_frames-Scanned zero bytes done pend s v e h = cc
  scan_frames-Scanned (suc fuel) bytes done pend s {t} v e h =
      elim (Result-cases (read_full_file faults.read (frame_size db) bytes)) [
        | inl (x, q) ↦
            finish bytes done pend s t v e
              (λ frame after split next. cc (
                q,
                read_full_file-append faults.read (frame_size db) bytes frame after split next.size,
              ))
              (end_scan-ok s t x (cc (rw (q, scan_frames) at h)))
        | inr ((frame, rest), q) ↦
            elim (Bool-cases (words_eq (stored_salts frame) (db.salt0, db.salt1))) [
              | inr bad ↦
                  finish bytes done pend s t v e
                    (read_end s.chksum bytes frame rest q (λ next.
                      cc (bad, words_eq_refl (stored_salts frame) (db.salt0, db.salt1) next.salts)))
                    (cc (rw (q, scan_frames, bad) at h))
              | inl good ↦ elim (Option-cases (chain_checksum db.byte_order s.chksum frame)) [
                | inl panic ↦ cc (rw (q, scan_frames, good, panic) at h)
                | inr (c, sum) ↦ elim (Bool-cases (words_eq c (stored_chksum frame))) [
                  | inr bad ↦
                      finish bytes done pend s t v e
                        (read_end s.chksum bytes frame rest q
                          (λ next. sum_differs c frame sum bad next))
                        (cc (rw (q, scan_frames, good, sum, bad) at h))
                  | inl fits ↦ elim (Option-cases (faults.write (length s.temp))) [
                    | inr (x, fault) ↦ cc (rw (q, scan_frames, good, sum, fits, fault) at h)
                    | inl fine ↦
                        let (size, split) =
                          read_full_file-ok faults.read (frame_size db) bytes frame rest q in
                        let same = words_eq→eq c (stored_chksum frame) fits in
                        let next : IsFrame db s.chksum frame = record {
                          size = size;
                          salts = words_eq→eq (stored_salts frame) (db.salt0, db.salt1) good;
                          chain = cc;
                        } in
                        let more = add_frame-Added db done pend s frame v next in
                        scan_frames-Scanned fuel rest more.done' more.pend'
                          (add_frame s frame (stored_chksum frame)) {t = t} more.covers
                          (e
                            ∙ (ap (◌++◌ (concat (done ++ pend))) split
                                ∙ (sym (append_assoc (concat (done ++ pend)) frame rest)
                                    ∙ ap (λ b. b ++ rest) (sym more.bytes))))
                          (rw same at (rw (q, scan_frames, good, sum, fits, fine) at h))
                  ]
                ]
              ]
            ]
      ]
