-- ===== src/Db/Call.antt =====
-- Calls of `DB`'s methods: a method returns a result, the cached fields and the files, or panics.
pub mod Outcome
use litestream.Prelude.{Option, none, some, Error, Result, ok, err, failing}
use litestream.Db.{Db, reset}
use litestream.Db.Disk.{Disk}

abbrev pub Call : Type 0 → Type 0
Call A = Db → Disk → Option (Result A × Db × Disk)

-- What follows a call: an error ends the method, and so does a panic.
abbrev pub continue :
    {A B : Type 0} → (A → Call B) → Option (Result A × Db × Disk) → Option (Result B × Db × Disk)
continue f none = none
continue f (some (err e, db, disk)) = some (err e, db, disk)
continue f (some (ok a, db, disk)) = f a db disk

infixl 5 ◌>>=◌ ◌>>◌
abbrev pub ◌>>=◌ : {A B : Type 0} → Call A → (A → Call B) → Call B
◌>>=◌ m f db disk = continue f (m db disk)

abbrev pub ◌>>◌ : {B : Type 0} → Call (Unit {0}) → Call B → Call B
m >> k = m >>= λ _. k

abbrev pub return : {A : Type 0} → A → Call A
return a db disk = some (ok a, db, disk)

-- A step that only reads, and one that only changes the files.
abbrev pub reading : {A : Type 0} → (Db → Disk → Result A) → Call A
reading f db disk = some (f db disk, db, disk)

abbrev pub on_disk : {A : Type 0} → (Disk → Result A × Disk) → Call A
on_disk f db disk = let out = f disk in some (out.0, db, out.1)

abbrev pub on_db : (Db → Db) → Call (Unit {0})
on_db f db disk = some (ok tt, f db, disk)

abbrev pub checking : Option Error → Call (Unit {0})
checking o = reading (λ db disk. failing o)

abbrev pub wrap_out :
    {A : Type 0} → (Error → Error) → Option (Result A × Db × Disk) → Option (Result A × Db × Disk)
wrap_out f none = none
wrap_out f (some (err e, db, disk)) = some (err (f e), db, disk)
wrap_out f (some (ok a, db, disk)) = some (ok a, db, disk)

-- The error of a call, changed on the way out.
abbrev pub with_error : {A : Type 0} → (Error → Error) → Call A → Call A
with_error f m db disk = wrap_out f (m db disk)

abbrev pub reset_out : {A : Type 0} → Option (Result A × Db × Disk) → Option (Result A × Db × Disk)
reset_out none = none
reset_out (some (err e, db, disk)) = some (err e, reset db, disk)
reset_out (some (ok a, db, disk)) = some (ok a, db, disk)

-- `defer func() { if err != nil { db.reset() } }()`
abbrev pub resetting : {A : Type 0} → Call A → Call A
resetting m db disk = reset_out (m db disk)
