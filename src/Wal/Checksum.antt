-- ===== src/Wal/Checksum.antt =====
-- litestream.go: `Checksum`, SQLite's running checksum over 8-byte units, in 32-bit words.
use mathlib.Core.Option
use litestream.Prelude.{
  ℕ, ◌+◌, ◌%◌, ◌^◌, ◌<◌, ◌≡◌, refl, ◌↔◌, ◌≢◌, ==_iff, Option, none, some, List, [], ◌∷◌, ◌++◌,
  arith, length, length-append, ◌==◌, if◌then◌else◌,
}
use litestream.Wal.Bytes.{ByteOrder, uint32}

-- The body of the loop, on the two words of a unit.
abbrev pub add_unit : ByteOrder → ℕ × ℕ → List ℕ → List ℕ → ℕ × ℕ
add_unit bo s lo hi =
    let s0 = (s.0 + (uint32 bo lo + s.1)) % 2 ^ 32 in (s0, (s.1 + (uint32 bo hi + s0)) % 2 ^ 32)

-- The loop over the units of an aligned slice.
unfoldable pub checksum_units : ByteOrder → ℕ × ℕ → List ℕ → ℕ × ℕ
checksum_units bo s (a ∷ b ∷ c ∷ d ∷ e ∷ f ∷ g ∷ h ∷ rest) =
    checksum_units bo (add_unit bo s (a ∷ b ∷ c ∷ d ∷ []) (e ∷ f ∷ g ∷ h ∷ [])) rest
checksum_units bo s _ = s

-- `none` is the panic of the assertion on a misaligned slice.
unfoldable pub checksum : ByteOrder → ℕ × ℕ → List ℕ → Option (ℕ × ℕ)
checksum bo s b = if length b % 8 == 0 then some (checksum_units bo s b) else none

abbrev pub IsWords : ℕ × ℕ → Type 0
IsWords s = (s.0 < 2 ^ 32) × (s.1 < 2 ^ 32)

add_unit-IsWords : (bo : ByteOrder) (s : ℕ × ℕ) (lo hi : List ℕ) → IsWords (add_unit bo s lo hi)
add_unit-IsWords bo s lo hi = (omega arith, omega arith)

-- Both words stay below 2^32.
pub checksum_units-IsWords :
    (bo : ByteOrder) (s : ℕ × ℕ) (b : List ℕ) → IsWords s → IsWords (checksum_units bo s b)
unfolding checksum_units
checksum_units-IsWords bo s (a ∷ b ∷ c ∷ d ∷ e ∷ f ∷ g ∷ h ∷ rest) k =
    let lo : List ℕ = a ∷ b ∷ c ∷ d ∷ [] in
    let hi : List ℕ = e ∷ f ∷ g ∷ h ∷ [] in
    checksum_units-IsWords bo (add_unit bo s lo hi) rest (add_unit-IsWords bo s lo hi)
checksum_units-IsWords bo s _ k = k

pub checksum_units-append :
    (bo : ByteOrder) (s : ℕ × ℕ) (x y : List ℕ)
    → length x % 8 ≡ 0
    → checksum_units bo s (x ++ y) ≡ checksum_units bo (checksum_units bo s x) y
unfolding checksum_units
checksum_units-append bo s [] y k = refl
checksum_units-append bo s (a ∷ b ∷ c ∷ d ∷ e ∷ f ∷ g ∷ h ∷ rest) y k =
    checksum_units-append bo (add_unit bo s (a ∷ b ∷ c ∷ d ∷ []) (e ∷ f ∷ g ∷ h ∷ [])) rest y
      (omega arith)
checksum_units-append bo s _ y k = absurd (omega arith)

-- A running checksum: over a slice of 8-byte units and then over a second slice it is the checksum
-- over both together; and `Checksum` panics exactly on a slice whose length is no multiple of 8.
pub checksum-append :
    (bo : ByteOrder) (s : ℕ × ℕ) (x y : List ℕ)
    → length x % 8 ≡ 0
    → (Option.bind (checksum bo s x) (λ t. checksum bo t y) ≡ checksum bo s (x ++ y))
      × ((checksum bo s y ≡ none) ↔ (length y % 8 ≢ 0))
unfolding checksum Option.bind
checksum-append bo s x y k = (
  rw (length-append x y) (ground (arith, checksum_units-append bo s x y k)),
  ((λ e z. ground arith), λ h. ground arith),
)

pub checksum_aligned :
    (bo : ByteOrder) (s : ℕ × ℕ) (b : List ℕ)
    → length b % 8 ≡ 0
    → checksum bo s b ≡ some (checksum_units bo s b)
unfolding checksum
checksum_aligned bo s b h = rw ((==_iff (length b % 8) 0).1 h)
