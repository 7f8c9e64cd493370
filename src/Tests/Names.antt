-- ===== src/Tests/Names.antt =====
-- Names of indexes, positions and generations.
use litestream.Prelude.{◌≡◌, refl, arith, [], ◌∷◌, ok}
use litestream.Pos.{Pos, parse_pos, to_string}
use litestream.Pos.Names.{parse_pos-to_string}

abbrev a_pos : Pos
a_pos = record { generation = b'a' ∷ b'1' ∷ []; index = 7; offset = 4152 }

abbrev later_pos : Pos
later_pos = record { generation = b'a' ∷ b'1' ∷ []; index = 8; offset = 0 }

parse_pos-to_string_example : parse_pos (to_string a_pos) ≡ ok a_pos
parse_pos-to_string_example =
    parse_pos-to_string a_pos (omega arith, (refl, (refl, tt))) (omega arith) (omega arith)
