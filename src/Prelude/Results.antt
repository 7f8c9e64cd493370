-- ===== src/Prelude/Results.antt =====
-- Go's `(value, error)` results. An error is one of the marker values that the code compares with
-- `==`, a message of `fmt.Errorf`, or a message that wraps another error (`%w`); the values that a
-- message formats are left out.
use Prim.Native.Nat.{ℕ}
use Prim.Native.String.{String}
use mathlib.Core.Path.{◌≡◌, refl}
use mathlib.Core.Logic.{◌⊎◌, inl, inr}
use mathlib.Core.Option.{Option, none, some}

pub data Error : Type 0 where
  no_generation no_snapshots no_wal_segments restart_generation : Error
  eof unexpected_eof canceled not_exist : Error
  wal_not_found : ℕ → Error
  message : String → Error
  wrap : String → Error → Error

-- Either the error is not nil and the value is not looked at, or there is a value.
pub data Result {ℓ} (A : Type ℓ) : Type ℓ where
  err : Error → Result A
  ok : A → Result A

-- `if err != nil { return …, err }`, with the value of the call behind it, or without one.
module _ {ℓ κ} {A : Type ℓ} {B : Type κ} where
  infixl 5 ◌>>=◌
  abbrev pub ◌>>=◌ : Result A → (A → Result B) → Result B
  err failure >>= next = err failure
  ok value >>= next = next value

module _ {ℓ} {A : Type ℓ} where
  infixl 5 ◌>>◌
  abbrev pub ◌>>◌ : Result (Unit {0}) → Result A → Result A
  err failure >> next = err failure
  ok _ >> next = next

  -- `return fmt.Errorf("message: %w", err)` where the call failed.
  abbrev pub wrapping : String → Result A → Result A
  wrapping text (ok value) = ok value
  wrapping text (err failure) = err (wrap text failure)

  pub Result-cases : (r : Result A) → ((e : Error) × (r ≡ err e)) ⊎ ((a : A) × (r ≡ ok a))
  Result-cases (ok value) = inr (value, refl)
  Result-cases (err failure) = inl (failure, refl)

-- The error of a call that returns only an error.
abbrev pub failing : Option Error → Result (Unit {0})
failing none = ok tt
failing (some failure) = err failure
