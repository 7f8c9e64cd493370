-- ===== src/Wal/Bytes.antt =====
-- `binary.BigEndian` and `binary.LittleEndian` on byte slices, and the copying that wal_writer.go
-- does into a buffer. A byte is a number below 256.
use litestream.Prelude.{
  ℕ, zero, suc, ◌+◌, ◌*◌, ◌/◌, ◌%◌, ◌^◌, ◌<◌, ◌≡◌, refl, ap, List, [], ◌∷◌, ◌++◌, arith, length,
}

pub data ByteOrder : Type 0 where
  little_endian big_endian : ByteOrder

-- bo.Uint32(b). Go panics on fewer than four bytes; every caller in the model has them.
unfoldable pub uint32 : ByteOrder → List ℕ → ℕ
uint32 little_endian (a ∷ b ∷ c ∷ d ∷ rest) = a + 2 ^ 8 * b + 2 ^ 16 * c + 2 ^ 24 * d
uint32 big_endian (a ∷ b ∷ c ∷ d ∷ rest) = 2 ^ 24 * a + 2 ^ 16 * b + 2 ^ 8 * c + d
uint32 _ _ = 0

-- The four bytes that binary.BigEndian.PutUint32 stores.
unfoldable pub uint32_bytes : ℕ → List ℕ
uint32_bytes v = v / 2 ^ 24 % 256 ∷ v / 2 ^ 16 % 256 ∷ v / 2 ^ 8 % 256 ∷ v % 256 ∷ []

-- copy(b, bytes)
unfoldable pub overwrite : List ℕ → List ℕ → List ℕ
overwrite [] b = b
overwrite (v ∷ bytes) [] = []
overwrite (v ∷ bytes) (x ∷ b) = v ∷ overwrite bytes b

-- copy(b[at:], bytes)
unfoldable pub overwrite_at : ℕ → List ℕ → List ℕ → List ℕ
unfolding overwrite
overwrite_at zero bytes b = overwrite bytes b
overwrite_at (suc at) bytes [] = []
overwrite_at (suc at) bytes (x ∷ b) = x ∷ overwrite_at at bytes b

-- binary.BigEndian.PutUint32(b[at:], v)
unfoldable pub put_uint32 : ℕ → ℕ → List ℕ → List ℕ
put_uint32 at v b = overwrite_at at (uint32_bytes v) b

pub length-uint32_bytes : (v : ℕ) → length (uint32_bytes v) ≡ 4
unfolding uint32_bytes
length-uint32_bytes v = refl

-- A stored word reads back.
pub uint32-uint32_bytes :
    (v : ℕ) (rest : List ℕ) → v < 2 ^ 32 → uint32 big_endian (uint32_bytes v ++ rest) ≡ v
unfolding uint32 uint32_bytes
uint32-uint32_bytes v rest h = omega arith

overwrite-append :
    (bytes a c : List ℕ) → length bytes ≡ length a → overwrite bytes (a ++ c) ≡ bytes ++ c
unfolding overwrite
overwrite-append [] [] c h = refl
overwrite-append [] (x ∷ a) c h = absurd (omega arith)
overwrite-append (v ∷ bytes) [] c h = absurd (omega arith)
overwrite-append (v ∷ bytes) (x ∷ a) c h =
    ap (◌++◌ (v ∷ [])) (overwrite-append bytes a c (omega arith))

-- Writing over the middle part of a buffer.
pub overwrite_at-append :
    (bytes a b c : List ℕ)
    → length bytes ≡ length b
    → overwrite_at (length a) bytes (a ++ (b ++ c)) ≡ a ++ (bytes ++ c)
unfolding overwrite_at
overwrite_at-append bytes [] b c h = overwrite-append bytes b c h
overwrite_at-append bytes (x ∷ a) b c h = ap (◌++◌ (x ∷ [])) (overwrite_at-append bytes a b c h)

length-overwrite : (bytes b : List ℕ) → length (overwrite bytes b) ≡ length b
unfolding overwrite
length-overwrite [] b = refl
length-overwrite (v ∷ bytes) [] = refl
length-overwrite (v ∷ bytes) (x ∷ b) = ap suc (length-overwrite bytes b)

pub length-overwrite_at : (at : ℕ) (bytes b : List ℕ) → length (overwrite_at at bytes b) ≡ length b
unfolding overwrite_at
length-overwrite_at zero bytes b = length-overwrite bytes b
length-overwrite_at (suc at) bytes [] = refl
length-overwrite_at (suc at) bytes (x ∷ b) = ap suc (length-overwrite_at at bytes b)
