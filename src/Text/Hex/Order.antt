-- ===== src/Text/Hex/Order.antt =====
-- The byte-wise order of names and the order of the numbers that they stand for.
use litestream.Prelude.{
  ℕ, zero, suc, ◌/◌, ◌%◌, ◌^◌, ◌<◌, ◌≡◌, sym, ◌∙◌, ◌&&◌, ◌||◌, List, [], ◌∷◌, ◌++◌, arith, ltb,
  ◌==◌, length,
}
use litestream.Text.{text_eq, text_lt}
use litestream.Text.Hex.{hex_digit, hex_digits, length-hex_digits, div_lt_pow}

-- Of names of one length the last digit decides between equal beginnings.
text_lt-append :
    (s t : List ℕ) (a b : ℕ)
    → length s ≡ length t
    → text_lt (s ++ a ∷ []) (t ++ b ∷ []) ≡ (text_lt s t || (text_eq s t && ltb a b))
unfolding text_lt text_eq
text_lt-append [] [] a b h = ground arith
text_lt-append [] (y ∷ t) a b h = absurd (omega arith)
text_lt-append (x ∷ s) [] a b h = absurd (omega arith)
text_lt-append (x ∷ s) (y ∷ t) a b h = ground (arith, text_lt-append s t a b)

text_eq-append :
    (s t : List ℕ) (a b : ℕ)
    → length s ≡ length t
    → text_eq (s ++ a ∷ []) (t ++ b ∷ []) ≡ (text_eq s t && a == b)
unfolding text_eq
text_eq-append [] [] a b h = ground arith
text_eq-append [] (y ∷ t) a b h = absurd (omega arith)
text_eq-append (x ∷ s) [] a b h = absurd (omega arith)
text_eq-append (x ∷ s) (y ∷ t) a b h = ground (arith, text_eq-append s t a b)

hex_digit-lt : (c d : ℕ) → c < 16 → d < 16 → ltb (hex_digit c) (hex_digit d) ≡ ltb c d
unfolding hex_digit
hex_digit-lt c d h k = ground arith

hex_digit-eq : (c d : ℕ) → c < 16 → d < 16 → (hex_digit c == hex_digit d) ≡ (c == d)
unfolding hex_digit
hex_digit-eq c d h k = ground arith

module _ (width v w : ℕ) where
  same_length : length (hex_digits width (v / 16)) ≡ length (hex_digits width (w / 16))
  same_length = length-hex_digits width (v / 16) ∙ sym (length-hex_digits width (w / 16))

hex_digits-eq :
    (width v w : ℕ)
    → v < 16 ^ width
    → w < 16 ^ width
    → text_eq (hex_digits width v) (hex_digits width w) ≡ (v == w)
unfolding hex_digits
hex_digits-eq zero v w h k = unfold text_eq in ground arith
hex_digits-eq (suc width) v w h k =
    let ih = hex_digits-eq width (v / 16) (w / 16) (div_lt_pow width v h) (div_lt_pow width w k) in
    rw
      (
        text_eq-append _ _ (hex_digit (v % 16)) (hex_digit (w % 16)) (same_length width v w),
        ih,
        hex_digit-eq (v % 16) (w % 16) (omega arith) (omega arith),
      )
      (ground arith)

-- Names of indexes and offsets sort as the numbers do.
pub text_lt-hex_digits :
    (width v w : ℕ)
    → v < 16 ^ width
    → w < 16 ^ width
    → text_lt (hex_digits width v) (hex_digits width w) ≡ ltb v w
unfolding hex_digits
text_lt-hex_digits zero v w h k = unfold text_lt in ground arith
text_lt-hex_digits (suc width) v w h k =
    let ih =
      text_lt-hex_digits width (v / 16) (w / 16) (div_lt_pow width v h) (div_lt_pow width w k) in
    rw
      (
        text_lt-append _ _ (hex_digit (v % 16)) (hex_digit (w % 16)) (same_length width v w),
        ih,
        hex_digits-eq width (v / 16) (w / 16) (div_lt_pow width v h) (div_lt_pow width w k),
        hex_digit-lt (v % 16) (w % 16) (omega arith) (omega arith),
      )
      (ground arith)
