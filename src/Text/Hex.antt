-- ===== src/Text/Hex.antt =====
-- `fmt.Sprintf("%016x", v)`, `strconv.ParseUint(s, 16, 64)` and `hex.EncodeToString` of Go's
-- library, as far as litestream.go uses them.
pub mod Order
use native.Mathlib.Nat.{pow-suc}
use litestream.Prelude.{
  ℕ, zero, suc, ◌+◌, ◌-◌, ◌*◌, ◌/◌, ◌%◌, ◌^◌, ◌≤◌, ◌<◌, ◌≡◌, refl, sym, ap, ◌∙◌, Bool, true, false,
  ◌&&◌, ◌||◌, Option, none, some, List, [], ◌∷◌, ◌++◌, arith, ltb, leb, if◌then◌else◌, length,
  length-append, All, All-append,
}

-- One digit, in lower case.
pub hex_digit : ℕ → ℕ
hex_digit d = if ltb d 10 then b'0' + d else b'a' + (d - 10)

-- The last `width` hexadecimal digits of `v`, the highest first. A value of 64 bits has at most 16
-- digits, so that `%016x` prints `hex_digits 16 v`.
pub hex_digits : ℕ → ℕ → List ℕ
hex_digits zero v = []
hex_digits (suc width) v = hex_digits width (v / 16) ++ hex_digit (v % 16) ∷ []

-- The value of a digit as `ParseUint` reads it, upper case too.
unfoldable pub digit_value : ℕ → Option ℕ
digit_value c =
    if leb b'0' c && leb c b'9'
    then some (c - b'0')
    else if leb b'a' c && leb c b'f'
    then some (c - b'a' + 10)
    else if leb b'A' c && leb c b'F'
    then some (c - b'A' + 10)
    else none

abbrev pub push_digit : ℕ → Option ℕ → Option ℕ
push_digit n none = none
push_digit n (some d) = if ltb (n * 16 + d) (2 ^ 64) then some (n * 16 + d) else none

-- The digits after the value `n`; `none` stands for a syntax or range error.
unfoldable pub parse_digits : Option ℕ → List ℕ → Option ℕ
unfolding digit_value
parse_digits none s = none
parse_digits (some n) [] = some n
parse_digits (some n) (c ∷ s) = parse_digits (push_digit n (digit_value c)) s

unfoldable pub parse_uint : List ℕ → Option ℕ
unfolding parse_digits
parse_uint [] = none
parse_uint (c ∷ s) = parse_digits (some 0) (c ∷ s)

-- hex.EncodeToString
pub encode_to_string : List ℕ → List ℕ
unfolding hex_digits hex_digit
encode_to_string [] = []
encode_to_string (b ∷ bs) = hex_digits 2 b ++ encode_to_string bs

abbrev pub is_hex_char : ℕ → Bool
is_hex_char ch = (leb b'0' ch && leb ch b'9') || (leb b'a' ch && leb ch b'f')

pub digit_value-hex_digit : (d : ℕ) → d < 16 → digit_value (hex_digit d) ≡ some d
unfolding digit_value hex_digit
digit_value-hex_digit d h = ground arith

pub hex_digit-is_hex_char : (d : ℕ) → d < 16 → is_hex_char (hex_digit d) ≡ true
unfolding hex_digit
hex_digit-is_hex_char d h = ground arith

parse_digits-singleton : (n c : ℕ) → parse_digits (some n) (c ∷ []) ≡ push_digit n (digit_value c)
unfolding parse_digits
parse_digits-singleton n c = ground arith

parse_digits-append :
    (o : Option ℕ) (s t : List ℕ) → parse_digits o (s ++ t) ≡ parse_digits (parse_digits o s) t
unfolding parse_digits
parse_digits-append none s t = refl
parse_digits-append (some n) [] t = refl
parse_digits-append (some n) (c ∷ s) t = parse_digits-append (push_digit n (digit_value c)) s t

pub div_lt_pow : (width v : ℕ) → v < 16 ^ suc width → v / 16 < 16 ^ width
div_lt_pow width v h = omega (arith, pow-suc 16 width)

push_digit-div_mod : (v : ℕ) → v < 2 ^ 64 → push_digit (v / 16) (some (v % 16)) ≡ some v
push_digit-div_mod v h = ground arith

parse_digits-hex_digits :
    (width v : ℕ)
    → v < 16 ^ width
    → v < 2 ^ 64
    → parse_digits (some 0) (hex_digits width v) ≡ some v
unfolding hex_digits
parse_digits-hex_digits zero v h k = unfold parse_digits in ap some (omega arith)
parse_digits-hex_digits (suc width) v h k =
    let ih = parse_digits-hex_digits width (v / 16) (div_lt_pow width v h) (omega arith) in
    rw
      (
        parse_digits-append (some 0) (hex_digits width (v / 16)) (hex_digit (v % 16) ∷ []),
        ih,
        parse_digits-singleton (v / 16) (hex_digit (v % 16)),
        digit_value-hex_digit (v % 16) (omega arith),
      )
      (push_digit-div_mod v k)

pub length-hex_digits : (width v : ℕ) → length (hex_digits width v) ≡ width
unfolding hex_digits
length-hex_digits zero v = refl
length-hex_digits (suc width) v = omega (
  arith,
  length-append (hex_digits width (v / 16)) (hex_digit (v % 16) ∷ []),
  length-hex_digits width (v / 16),
)

parse_uint_ne : (s : List ℕ) → 0 < length s → parse_uint s ≡ parse_digits (some 0) s
unfolding parse_uint
parse_uint_ne [] h = elim h [ ]
parse_uint_ne (c ∷ s) h = refl

-- A printed value reads back.
pub parse_uint-hex_digits : (v : ℕ) → v < 2 ^ 64 → parse_uint (hex_digits 16 v) ≡ some v
parse_uint-hex_digits v h =
    parse_uint_ne (hex_digits 16 v) (omega (arith, length-hex_digits 16 v))
    ∙ parse_digits-hex_digits 16 v h h

pub hex_digits-injective :
    (v w : ℕ) → v < 2 ^ 64 → w < 2 ^ 64 → hex_digits 16 v ≡ hex_digits 16 w → v ≡ w
hex_digits-injective v w h k e =
    cc (parse_uint-hex_digits v h, parse_uint-hex_digits w k, ap parse_uint e)

pub hex_digits-All : (width v : ℕ) → All (λ c. is_hex_char c ≡ true) (hex_digits width v)
unfolding hex_digits
hex_digits-All zero v = tt
hex_digits-All (suc width) v =
    All-append (λ c. is_hex_char c ≡ true) (hex_digits width (v / 16)) _
      (hex_digits-All width (v / 16)) (hex_digit-is_hex_char (v % 16) (omega arith), tt)

-- Every byte gives two digits.
pub length-encode_to_string : (bs : List ℕ) → length (encode_to_string bs) ≡ 2 * length bs
unfolding encode_to_string
length-encode_to_string [] = refl
length-encode_to_string (b ∷ bs) = omega (
  arith,
  length-append (hex_digits 2 b) (encode_to_string bs),
  length-hex_digits 2 b,
  length-encode_to_string bs,
)

pub encode_to_string-All : (bs : List ℕ) → All (λ c. is_hex_char c ≡ true) (encode_to_string bs)
unfolding encode_to_string
encode_to_string-All [] = tt
encode_to_string-All (b ∷ bs) =
    All-append (λ c. is_hex_char c ≡ true) (hex_digits 2 b) _ (hex_digits-All 2 b)
      (encode_to_string-All bs)
