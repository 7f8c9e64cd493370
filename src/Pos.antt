-- ===== src/Pos.antt =====
-- litestream.go: `Pos`, the index and offset names, generation names.
-- Indexes and offsets are natural numbers: the program gets them from `ParseIndex` and
-- `ParseOffset`, or by counting WAL files and the bytes of a file, so that none is negative and
-- none reaches 2^63.
pub mod Order
pub mod Names
use mathlib.Core.Option
use litestream.Prelude.{
  ℕ, ◌+◌, ◌-◌, ◌^◌, Bool, true, false, ◌&&◌, ◌||◌, not, Option, none, some, List, [], ◌∷◌, ◌++◌,
  ltb, leb, ◌==◌, if◌then◌else◌, Error, message, Result, ok, err, ◌>>=◌, ◌>>◌, length, ◌≡◌, refl,
  arith, ◌↔◌, ◌⊎◌, inl, inr, String,
}
use litestream.Text.{Text, text_eq, text_eq_iff}
use litestream.Text.Hex.{hex_digits, parse_uint, is_hex_char, encode_to_string}

pub record Pos : Type 0 where
  pub generation : Text
  pub index : ℕ
  pub offset : ℕ

abbrev pub zero_pos : Pos
zero_pos = record { generation = []; index = 0; offset = 0 }

abbrev pub generation_name_len : ℕ
generation_name_len = 16

-- math.MaxInt64, and internal.MaxInt where an int has 64 bits.
abbrev pub max_int : ℕ
max_int = 2 ^ 63 - 1

-- a == b of two positions.
unfoldable pub pos_eq : Pos → Pos → Bool
pos_eq a b = text_eq a.generation b.generation && (a.index == b.index && a.offset == b.offset)

unfoldable pub is_zero : Pos → Bool
unfolding pos_eq
is_zero p = pos_eq p zero_pos

unfoldable pub truncate : Pos → Pos
truncate p = record p { offset = 0 }

pub data Comparison : Type 0 where
  before same after : Comparison

-- ComparePos: -1, 0 and 1 are `before`, `same` and `after`.
unfoldable pub compare_pos : Pos → Pos → Result Comparison
compare_pos a b =
    if not (text_eq a.generation b.generation)
    then err (message "generation mismatch")
    else if ltb a.index b.index
    then ok before
    else if ltb b.index a.index
    then ok after
    else if ltb a.offset b.offset
    then ok before
    else if ltb b.offset a.offset
    then ok after
    else ok same

pub format_index : ℕ → Text
format_index index = hex_digits 16 index

pub format_offset : ℕ → Text
format_offset offset = hex_digits 16 offset

-- The checks of ParseIndex and ParseOffset on what ParseUint returned.
abbrev in_range : String → String → Option ℕ → Result ℕ
in_range bad large none = err (message bad)
in_range bad large (some v) = if ltb max_int v then err (message large) else ok v

pub parse_index : Text → Result ℕ
parse_index s = in_range "cannot parse index" "index too large" (parse_uint s)

pub parse_offset : Text → Result ℕ
parse_offset s = in_range "cannot parse offset" "offset too large" (parse_uint s)

-- `\w` of posRegex.
abbrev pub is_word_char : ℕ → Bool
is_word_char c =
    (leb b'0' c && leb c b'9')
    || (leb b'a' c && leb c b'z')
    || (leb b'A' c && leb c b'Z')
    || c == b'_'

-- The longest beginning of word characters, and what follows it.
span_word : Text → Text × Text
span_word [] = ([], [])
span_word (c ∷ s) =
    let rest = span_word s in if is_word_char c then (c ∷ rest.0, rest.1) else ([], c ∷ s)

-- `(\w+)` and the separator behind it, which is no word character.
take_word : ℕ → Text × Text → Option (Text × Text)
take_word separator ([], rest) = none
take_word separator (c ∷ word, []) = none
take_word separator (c ∷ word, d ∷ rest) = if d == separator then some (c ∷ word, rest) else none

-- `(\w+)$`: nothing is left behind the word.
take_last_word : Text × Text → Option Text
take_last_word (c ∷ word, []) = some (c ∷ word)
take_last_word _ = none

-- posRegex.FindStringSubmatch: `^(\w+)/(\w+):(\w+)$`
find_submatch : Text → Option (Text × Text × Text)
find_submatch s = elim (take_word b'/' (span_word s)) [
  | none ↦ none
  | some (generation, s1) ↦ elim (take_word b':' (span_word s1)) [
    | none ↦ none
    | some (index, s2) ↦
        Option.map (λ offset. (generation, index, offset)) (take_last_word (span_word s2))
  ]
]

pub parse_pos : Text → Result Pos
parse_pos s = elim (find_submatch s) [
  | none ↦ err (message "invalid pos")
  | some (generation, index_name, offset_name) ↦ do
    index ← parse_index index_name
    offset ← parse_offset offset_name
    ok (record { generation = generation; index = index; offset = offset })
]

-- Pos.String
pub to_string : Pos → Text
to_string p =
    if is_zero p
    then []
    else p.generation ++ (b'/' ∷ (format_index p.index ++ (b':' ∷ format_offset p.offset)))

unfoldable pub all_hex : Text → Bool
all_hex [] = true
all_hex (ch ∷ s) = if is_hex_char ch then all_hex s else false

unfoldable pub is_generation_name : Text → Bool
unfolding all_hex
is_generation_name s = if not (length s == generation_name_len) then false else all_hex s

-- createGeneration names a generation by the hexadecimal digits of random bytes.
unfoldable pub generation_name : List ℕ → Text
generation_name random_bytes = encode_to_string random_bytes
