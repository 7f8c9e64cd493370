-- ===== src/Pos/Names.antt =====
-- Round trips of the names of indexes, offsets and positions, and of generation names.
use litestream.Prelude.{
  ℕ, ◌≤◌, ◌<◌, ◌≡◌, refl, inl, inr, true, false, some, List, [], ◌∷◌, ◌++◌, ltb, arith, ok, length,
  All, Bool-cases, ap,
}
use litestream.Text.{Text, text_eq, text_eq_iff, text_lt}
use litestream.Text.Hex.Order.{text_lt-hex_digits}
use litestream.Text.Hex.{
  hex_digits-injective, hex_digits, is_hex_char, parse_uint-hex_digits, hex_digits-All,
  length-hex_digits, encode_to_string, length-encode_to_string, encode_to_string-All,
}
use litestream.Pos.{
  Pos, max_int, is_word_char, span_word, take_word, take_last_word, find_submatch, parse_index,
  format_index, parse_offset, format_offset, parse_pos, to_string, is_zero, pos_eq,
  is_generation_name, generation_name, all_hex,
}

-- An index of a Go `int` reads back from its name.
pub parse_index-format_index :
    (index : ℕ) → index ≤ max_int → parse_index (format_index index) ≡ ok index
unfolding parse_index format_index
parse_index-format_index index h = rw (parse_uint-hex_digits index (omega arith)) (ground arith)

pub parse_offset-format_offset :
    (offset : ℕ) → offset ≤ max_int → parse_offset (format_offset offset) ≡ ok offset
unfolding parse_offset format_offset
parse_offset-format_offset offset h = rw (parse_uint-hex_digits offset (omega arith)) (ground arith)

-- Names of indexes, and so the directories and files that carry them, sort as the indexes do, and
-- different indexes have different names.
pub format_index-lt :
    (a b : ℕ)
    → a ≤ max_int
    → b ≤ max_int
    → (text_lt (format_index a) (format_index b) ≡ ltb a b)
      × (format_index a ≡ format_index b → a ≡ b)
unfolding format_index
format_index-lt a b h k = (
  text_lt-hex_digits 16 a b (omega arith) (omega arith),
  hex_digits-injective a b (omega arith) (omega arith),
)

-- A word is not empty and has word characters only.
abbrev pub IsWord : Text → Type 0
IsWord s = (0 < length s) × All (λ c. is_word_char c ≡ true) s

word_of_hex : (c : ℕ) → is_hex_char c ≡ true → is_word_char c ≡ true
word_of_hex c h = ground arith

All-word_of_hex :
    (s : Text) → All (λ c. is_hex_char c ≡ true) s → All (λ c. is_word_char c ≡ true) s
All-word_of_hex [] h = tt
All-word_of_hex (c ∷ s) h = (word_of_hex c h.0, All-word_of_hex s h.1)

hex_digits-IsWord : (v : ℕ) → IsWord (hex_digits 16 v)
hex_digits-IsWord v =
    (omega (arith, length-hex_digits 16 v), All-word_of_hex (hex_digits 16 v) (hex_digits-All 16 v))

span_word-append :
    (s : Text) (d : ℕ) (rest : Text)
    → All (λ c. is_word_char c ≡ true) s
    → is_word_char d ≡ false
    → span_word (s ++ d ∷ rest) ≡ (s, d ∷ rest)
unfolding span_word
span_word-append [] d rest h k = rw k
span_word-append (c ∷ s) d rest h k = rw (h.0, span_word-append s d rest h.1 k)

span_word_self : (s : Text) → All (λ c. is_word_char c ≡ true) s → span_word s ≡ (s, [])
unfolding span_word
span_word_self [] h = refl
span_word_self (c ∷ s) h = rw (h.0, span_word_self s h.1)

take_word_lem : (d : ℕ) (s rest : Text) → 0 < length s → take_word d (s, d ∷ rest) ≡ some (s, rest)
unfolding take_word
take_word_lem d [] rest h = elim h [ ]
take_word_lem d (c ∷ s) rest h = ground arith

take_last_word_lem : (s : Text) → 0 < length s → take_last_word (s, []) ≡ some s
unfolding take_last_word
take_last_word_lem [] h = elim h [ ]
take_last_word_lem (c ∷ s) h = refl

find_submatch_lem :
    (g i o : Text)
    → IsWord g
    → IsWord i
    → IsWord o
    → find_submatch (g ++ (b'/' ∷ (i ++ (b':' ∷ o)))) ≡ some (g, i, o)
unfolding find_submatch
find_submatch_lem g i o hg hi ho = rw (
  find_submatch,
  span_word-append g b'/' (i ++ (b':' ∷ o)) hg.1 refl,
  take_word_lem b'/' g (i ++ (b':' ∷ o)) hg.0,
  span_word-append i b':' o hi.1 refl,
  take_word_lem b':' i o hi.0,
  span_word_self o ho.1,
  take_last_word_lem o ho.0,
)

format_index-IsWord : (v : ℕ) → IsWord (format_index v)
unfolding format_index
format_index-IsWord v = hex_digits-IsWord v

format_offset-IsWord : (v : ℕ) → IsWord (format_offset v)
unfolding format_offset
format_offset-IsWord v = hex_digits-IsWord v

is_zero-word : (p : Pos) → IsWord p.generation → is_zero p ≡ false
unfolding is_zero pos_eq
is_zero-word p h = elim (Bool-cases (text_eq p.generation [])) [
  | inl e ↦ absurd (omega (arith, ap length ((text_eq_iff p.generation []).0 e)))
  | inr e ↦ rw e
]

-- A position reads back from its string, if its generation is a word (not empty, of letters, digits
-- and underscores) and index and offset fit 63 bits.
pub parse_pos-to_string :
    (p : Pos)
    → IsWord p.generation
    → p.index ≤ max_int
    → p.offset ≤ max_int
    → parse_pos (to_string p) ≡ ok p
unfolding parse_pos to_string
parse_pos-to_string p h k l = rw (
  is_zero-word p h,
  parse_pos,
  find_submatch_lem p.generation (format_index p.index) (format_offset p.offset) h
      (format_index-IsWord p.index) (format_offset-IsWord p.offset),
  parse_index-format_index p.index k,
  parse_offset-format_offset p.offset l,
)

all_hex_of_All : (s : Text) → All (λ c. is_hex_char c ≡ true) s → all_hex s ≡ true
unfolding all_hex
all_hex_of_All [] h = refl
all_hex_of_All (c ∷ s) h = rw h.0 (all_hex_of_All s h.1)

-- The hexadecimal name that `createGeneration` makes of eight bytes is a generation name.
pub generation_name-IsGenerationName :
    (bytes : List ℕ) → length bytes ≡ 8 → is_generation_name (generation_name bytes) ≡ true
unfolding is_generation_name generation_name
generation_name-IsGenerationName bytes h = ground (
  arith,
  length-encode_to_string bytes,
  all_hex_of_All (encode_to_string bytes) (encode_to_string-All bytes),
)

-- The names have sixteen digits.
pub length-format_index : (index : ℕ) → length (format_index index) ≡ 16
unfolding format_index
length-format_index index = length-hex_digits 16 index

pub length-format_offset : (offset : ℕ) → length (format_offset offset) ≡ 16
unfolding format_offset
length-format_offset offset = length-hex_digits 16 offset

pub format_offset-injective :
    (a b : ℕ) → a ≤ max_int → b ≤ max_int → format_offset a ≡ format_offset b → a ≡ b
unfolding format_offset
format_offset-injective a b h k = hex_digits-injective a b (omega arith) (omega arith)

pub parse_index-le : (s : Text) (index : ℕ) → parse_index s ≡ ok index → index ≤ max_int
unfolding parse_index
parse_index-le s index h = ground (arith, h)

pub parse_offset-le : (s : Text) (offset : ℕ) → parse_offset s ≡ ok offset → offset ≤ max_int
unfolding parse_offset
parse_offset-le s offset h = ground (arith, h)
