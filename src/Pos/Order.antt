-- ===== src/Pos/Order.antt =====
-- litestream.go: `ComparePos` and the order of index and offset.
use litestream.Prelude.{
  ◌<◌, ◌≡◌, refl, ◌↔◌, ◌⊎◌, inl, inr, true, arith, Result, ok, err, message, Bool-cases,
}
use litestream.Text.{text_eq, text_eq_iff}
use litestream.Pos.{Pos, pos_eq, compare_pos, Comparison, before, same, after}

-- Lexicographic order on index and offset.
abbrev pub Before : Pos → Pos → Type 0
Before a b = (a.index < b.index) ⊎ ((a.index ≡ b.index) × (a.offset < b.offset))

pub pos_eq_iff : (a b : Pos) → (pos_eq a b ≡ true) ↔ (a ≡ b)
unfolding pos_eq
pos_eq_iff a b = (to, from)
  where
    to : pos_eq a b ≡ true → a ≡ b
    to h = ground (arith, text_eq_iff a.generation b.generation)

    from : a ≡ b → pos_eq a b ≡ true
    from e = ground (arith, text_eq_iff a.generation b.generation)

-- What each result of ComparePos says of the two positions.
abbrev pub Reads : Pos → Pos → Result Comparison → Type 0
Reads a b (ok before) = (a.generation ≡ b.generation) × Before a b
Reads a b (ok after) = (a.generation ≡ b.generation) × Before b a
Reads a b (ok same) = a ≡ b
Reads a b (err e) = (a.generation ≡ b.generation → ⊥) × (e ≡ message "generation mismatch")

-- `ComparePos` returns -1 or 1 as the positions of one generation stand in the order of index and
-- offset, 0 for equal positions, and its error for positions of different generations.
pub compare_pos-Reads : (a b : Pos) → Reads a b (compare_pos a b)
unfolding compare_pos
compare_pos-Reads a b = elim (Bool-cases (text_eq a.generation b.generation)) [
  | inl e ↦ rw e (ground (arith, text_eq_iff a.generation b.generation))
  | inr e ↦ rw e ((λ d. cc ((text_eq_iff a.generation b.generation).1 d)), refl)
]

-- Comparing the other way round gives the opposite result.
pub compare_pos_swap : (a b : Pos) → (compare_pos a b ≡ ok before) ↔ (compare_pos b a ≡ ok after)
unfolding compare_pos
compare_pos_swap a b =
    ground (arith, text_eq_iff a.generation b.generation, text_eq_iff b.generation a.generation)
