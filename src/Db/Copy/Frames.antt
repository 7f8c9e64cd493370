-- ===== src/Db/Copy/Frames.antt =====
-- The loop of `copyToShadowWAL` against a description of a WAL: a run of frames with the salts of
-- the header, each with the checksum over the frames before it.
use mathlib.Core.List.{append_assoc, append-nil}
use litestream.Prelude.{
  ℕ, ◌+◌, ◌≡◌, refl, sym, ap, ◌∙◌, ◌≢◌, ◌⊎◌, inl, inr, false, some, List, [], ◌∷◌, ◌++◌, ◌==◌,
  ==_iff, length, length-append, concat, All, All-append, Bool-cases, arith,
}
use litestream.Pos.{Pos}
use litestream.Db.{Db}
use litestream.Db.Copy.{
  Scan, frame_size, start_scan, chain_checksum, stored_salts, stored_chksum, new_db_size, add_frame,
}

-- `frame` may follow frames whose checksum is `c`.
pub record IsFrame (db : Db) (c : ℕ × ℕ) (frame : List ℕ) : Type 0 where
  pub size : length frame ≡ frame_size db
  pub salts : stored_salts frame ≡ (db.salt0, db.salt1)
  pub chain : chain_checksum db.byte_order c frame ≡ some (stored_chksum frame)

-- A run of frames from the checksum `c` on, and the checksum that it ends with.
abbrev pub Run : Db → ℕ × ℕ → List (List ℕ) → ℕ × ℕ → Type 0
Run db c [] c' = c ≡ c'
Run db c (f ∷ fs) c' = IsFrame db c f × Run db (stored_chksum f) fs c'

-- Ends with a frame that commits, which is `last`.
abbrev pub Commits : List (List ℕ) → List ℕ → Type 0
Commits fs last = (init : List (List ℕ)) × (fs ≡ init ++ last ∷ []) × (new_db_size last ≢ 0)

Run-append :
    (db : Db) (c c' c'' : ℕ × ℕ) (fs gs : List (List ℕ))
    → Run db c fs c'
    → Run db c' gs c''
    → Run db c (fs ++ gs) c''
Run-append db c c' c'' [] gs r q = rw r q
Run-append db c c' c'' (f ∷ fs) gs r q = (r.0, Run-append db (stored_chksum f) c' c'' fs gs r.1 q)

pub concat-append : (fs gs : List (List ℕ)) → concat (fs ++ gs) ≡ concat fs ++ concat gs
concat-append [] gs = refl
concat-append (f ∷ fs) gs = rw (concat-append fs gs, append_assoc f (concat fs) (concat gs))

-- The loop has read the frames `done` and `pend` since the position `p0` and the checksum `c0`; the
-- high water mark stands behind `done`, and no frame of `pend` commits.
pub record Covers (db : Db) (done pend : List (List ℕ)) (s : Scan) : Type 0 where
  pub temp : s.temp ≡ concat (done ++ pend)
  pub pos : s.pos ≡ record db.pos { offset = db.pos.offset + length (concat (done ++ pend)) }
  pub hwm_pos : s.hwm_pos ≡ record db.pos { offset = db.pos.offset + length (concat done) }
  pub run : Run db db.chksum done s.hwm_chksum
  pub pending : Run db s.hwm_chksum pend s.chksum
  pub commits : (done ≡ []) ⊎ Commits done s.hwm_frame
  pub uncommitted : All (λ f. new_db_size f ≡ 0) pend

pub start-Covers : (db : Db) → Covers db [] [] (start_scan db)
start-Covers db = record {
  temp = refl;
  pos = λ i. record db.pos { offset = at i };
  hwm_pos = λ i. record db.pos { offset = at i };
  run = refl;
  pending = refl;
  commits = inl refl;
  uncommitted = tt;
}
  where
    at : db.pos.offset ≡ db.pos.offset + 0
    at = omega arith

concat-snoc : (fs : List (List ℕ)) (f : List ℕ) → concat (fs ++ f ∷ []) ≡ concat fs ++ f
concat-snoc fs f = concat-append fs (f ∷ []) ∙ ap (◌++◌ (concat fs)) (append-nil f)

module _ (db : Db) (done pend : List (List ℕ)) (s : Scan) (frame : List ℕ)
    (v : Covers db done pend s) (next : IsFrame db s.chksum frame) where
  longer : List (List ℕ)
  longer = pend ++ frame ∷ []

  temp_longer : s.temp ++ frame ≡ concat (done ++ (pend ++ frame ∷ []))
  temp_longer =
      ap (λ t. t ++ frame) v.temp
      ∙ sym (concat-snoc (done ++ pend) frame)
      ∙ ap concat (append_assoc done pend (frame ∷ []))

  offset_longer :
      s.pos.offset + length frame ≡ db.pos.offset + length (concat (done ++ (pend ++ frame ∷ [])))
  offset_longer = omega (
    arith,
    ap (λ p. p.offset) v.pos,
    ap length temp_longer,
    ap length v.temp,
    length-append s.temp frame,
  )

  pos_longer :
      ◌≡◌ {A = Pos}
        (record s.pos { offset = s.pos.offset + length frame })
        (record db.pos { offset = db.pos.offset + length (concat (done ++ (pend ++ frame ∷ []))) })
  pos_longer = λ i. record (v.pos i) { offset = offset_longer i }

  frames_continue : Run db s.hwm_chksum (pend ++ frame ∷ []) (stored_chksum frame)
  frames_continue =
      Run-append db s.hwm_chksum s.chksum (stored_chksum frame) pend (frame ∷ []) v.pending
        (next, refl)

  add_pending :
      new_db_size frame ≡ 0
      → Covers db done (pend ++ frame ∷ []) (add_frame s frame (stored_chksum frame))
  unfolding add_frame
  add_pending h = rw ((==_iff (new_db_size frame) 0).1 h) (record {
    temp = temp_longer;
    pos = pos_longer;
    hwm_pos = v.hwm_pos;
    run = v.run;
    pending = frames_continue;
    commits = v.commits;
    uncommitted = All-append (λ f. new_db_size f ≡ 0) pend (frame ∷ []) v.uncommitted (h, tt);
  })

  add_commit :
      (new_db_size frame == 0) ≡ false
      → Covers db (done ++ (pend ++ frame ∷ [])) [] (add_frame s frame (stored_chksum frame))
  unfolding add_frame
  add_commit h = rw h (record {
    temp = temp_longer ∙ ap concat (sym (append-nil (done ++ (pend ++ frame ∷ []))));
    pos = rw (append-nil (done ++ (pend ++ frame ∷ []))) pos_longer;
    hwm_pos = pos_longer;
    run =
        Run-append db db.chksum s.hwm_chksum (stored_chksum frame) done (pend ++ frame ∷ []) v.run
          frames_continue;
    pending = refl;
    commits = inr (
      done ++ pend,
      sym (append_assoc done pend (frame ∷ [])),
      λ z. cc (h, (==_iff (new_db_size frame) 0).1 z),
    );
    uncommitted = tt;
  })

-- What one round adds to the frames.
pub record Added (db : Db) (done pend : List (List ℕ)) (frame : List ℕ) (t : Scan) : Type 0 where
  pub done' : List (List ℕ)
  pub pend' : List (List ℕ)
  pub covers : Covers db done' pend' t
  pub bytes : concat (done' ++ pend') ≡ concat (done ++ pend) ++ frame

pub add_frame-Added :
    (db : Db) (done pend : List (List ℕ)) (s : Scan) (frame : List ℕ)
    → Covers db done pend s
    → IsFrame db s.chksum frame
    → Added db done pend frame (add_frame s frame (stored_chksum frame))
add_frame-Added db done pend s frame v next = elim (Bool-cases (new_db_size frame == 0)) [
  | inl e ↦ record {
    done' = done;
    pend' = pend ++ frame ∷ [];
    covers = add_pending db done pend s frame v next ((==_iff (new_db_size frame) 0).0 e);
    bytes =
        ap concat (sym (append_assoc done pend (frame ∷ []))) ∙ concat-snoc (done ++ pend) frame;
  }
  | inr e ↦ record {
    done' = done ++ (pend ++ frame ∷ []);
    pend' = [];
    covers = add_commit db done pend s frame v next e;
    bytes =
        ap concat (append-nil (done ++ (pend ++ frame ∷ [])))
        ∙ ap concat (sym (append_assoc done pend (frame ∷ [])))
        ∙ concat-snoc (done ++ pend) frame;
  }
]
