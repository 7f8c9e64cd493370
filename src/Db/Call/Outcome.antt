-- ===== src/Db/Call/Outcome.antt =====
-- Conditions on what a call returns, with a rule for each way to put calls together.
use litestream.Prelude.{◌≡◌, refl, Option, none, some, Error, Result, ok, err}
use litestream.Db.{Db, reset}
use litestream.Db.Disk.{Disk}
use litestream.Db.Call.{Call, continue, wrap_out, reset_out}

abbrev Holds :
    {A : Type 0} → (Db → Type 0) → (A → Db → Disk → Type 0) → Option (Result A × Db × Disk) → Type 0
Holds E Q none = ⊥
Holds E Q (some (err e, db, disk)) = E db
Holds E Q (some (ok a, db, disk)) = Q a db disk

-- The call does not panic; the fields it leaves are in `E` where it fails, and its value, the fields
-- and the files are in `Q` where it succeeds.
pub record Outcome {A : Type 0} (E : Db → Type 0) (Q : A → Db → Disk → Type 0)
    (o : Option (Result A × Db × Disk)) : Type 0 where
  pub holds : Holds E Q o

module _ {A : Type 0} {E : Db → Type 0} {Q : A → Db → Disk → Type 0} where
  pub Outcome-continue :
      {B : Type 0} {R : B → Db → Disk → Type 0} (f : A → Call B) (o : Option (Result A × Db × Disk))
      → Outcome E Q o
      → ((a : A) (db : Db) (disk : Disk) → Q a db disk → Outcome E R (f a db disk))
      → Outcome E R (continue f o)
  Outcome-continue f none h k = elim h.holds [ ]
  Outcome-continue f (some (err e, db, disk)) h k = record { holds = h.holds }
  Outcome-continue f (some (ok a, db, disk)) h k = k a db disk h.holds

  pub Outcome-wrap_out :
      (f : Error → Error) (o : Option (Result A × Db × Disk))
      → Outcome E Q o
      → Outcome E Q (wrap_out f o)
  Outcome-wrap_out f none h = h
  Outcome-wrap_out f (some (err e, db, disk)) h = record { holds = h.holds }
  Outcome-wrap_out f (some (ok a, db, disk)) h = h

  pub Outcome-reset_out :
      {F : Db → Type 0} (o : Option (Result A × Db × Disk))
      → ((db : Db) → E db → F (reset db))
      → Outcome E Q o
      → Outcome F Q (reset_out o)
  Outcome-reset_out none k h = elim h.holds [ ]
  Outcome-reset_out (some (err e, db, disk)) k h = record { holds = k db h.holds }
  Outcome-reset_out (some (ok a, db, disk)) k h = record { holds = h.holds }

  pub Outcome-weaken :
      {F : Db → Type 0} {R : A → Db → Disk → Type 0} (o : Option (Result A × Db × Disk))
      → Outcome E Q o
      → ((db : Db) → E db → F db)
      → ((a : A) (db : Db) (disk : Disk) → Q a db disk → R a db disk)
      → Outcome F R o
  Outcome-weaken none h k l = elim h.holds [ ]
  Outcome-weaken (some (err e, db, disk)) h k l = record { holds = k db h.holds }
  Outcome-weaken (some (ok a, db, disk)) h k l = record { holds = l a db disk h.holds }

  pub Outcome-of_result :
      (db : Db) (disk : Disk) (r : Result A)
      → E db
      → ((a : A) → r ≡ ok a → Q a db disk)
      → Outcome E Q (some (r, db, disk))
  Outcome-of_result db disk (err e) h k = record { holds = h }
  Outcome-of_result db disk (ok a) h k = record { holds = k a refl }

  pub Outcome-ok :
      (a : A) (db : Db) (disk : Disk) → Q a db disk → Outcome E Q (some (ok a, db, disk))
  Outcome-ok a db disk h = record { holds = h }

  pub Outcome-err :
      (e : Error) (db : Db) (disk : Disk) → E db → Outcome E Q (some (err e, db, disk))
  Outcome-err e db disk h = record { holds = h }
