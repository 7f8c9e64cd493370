-- ===== src/Replica/Group.antt =====
-- How `syncWAL` groups the listed segments.
use mathlib.Core.List.{append_assoc, append-nil}
use litestream.Prelude.{
  ◌≡◌, refl, sym, ap, ◌∙◌, ◌⊎◌, inl, inr, ◌==◌, Bool-cases, List, [], ◌∷◌, ◌++◌, map, concat, Error,
  Result, ok, err,
}
use litestream.Pos.{Pos, Comparison, before, same, after, compare_pos}
use litestream.Client.{WalSegmentInfo, segment_pos}
use litestream.Replica.{Chunk, add_segment, group_segments}

-- The segments of a chunk, and those of chunks.
abbrev pub segments_of : Chunk → List WalSegmentInfo
segments_of c = c.0 ∷ c.1

abbrev pub all_segments : List Chunk → List WalSegmentInfo
all_segments chunks = concat (map segments_of chunks)

-- The listed segments that do not end up before the position.
abbrev pub unless_after :
    Result Comparison → WalSegmentInfo → List WalSegmentInfo → List WalSegmentInfo
unless_after (ok after) info rest = rest
unless_after _ info rest = info ∷ rest

abbrev pub unseen : Pos → List WalSegmentInfo → List WalSegmentInfo
unseen pos [] = []
unseen pos (info ∷ itr) = unless_after (compare_pos pos (segment_pos info)) info (unseen pos itr)

add_segment_lem :
    (chunks : List Chunk) (info : WalSegmentInfo)
    → all_segments (add_segment chunks info) ≡ all_segments chunks ++ info ∷ []
unfolding add_segment
add_segment_lem [] info = refl
add_segment_lem ((first, rest) ∷ []) info = elim (Bool-cases (first.index == info.index)) [
  | inl e ↦ rw (e, append-nil rest) (ap (λ l. first ∷ l) (append-nil (rest ++ info ∷ [])))
  | inr e ↦ rw e (ap (λ l. first ∷ (l ++ info ∷ [])) (sym (append-nil rest)))
]
add_segment_lem (c ∷ d ∷ chunks) info =
    ap (λ l. segments_of c ++ l) (add_segment_lem (d ∷ chunks) info)
    ∙ sym (append_assoc (segments_of c) (all_segments (d ∷ chunks)) (info ∷ []))

pub Comparison-cases :
    (v : Result Comparison)
    → ((e : Error) × (v ≡ err e)) ⊎ ((v ≡ ok after) ⊎ ((v ≡ ok before) ⊎ (v ≡ ok same)))
Comparison-cases (err e) = inl (e, refl)
Comparison-cases (ok after) = inr (inl refl)
Comparison-cases (ok before) = inr (inr (inl refl))
Comparison-cases (ok same) = inr (inr (inr refl))

pub group_segments_lem :
    (pos : Pos) (chunks : List Chunk) (itr : List WalSegmentInfo) (result : List Chunk)
    → group_segments pos chunks itr ≡ ok result
    → all_segments result ≡ all_segments chunks ++ unseen pos itr
unfolding group_segments
group_segments_lem pos chunks [] result h =
    ap all_segments (cc) ∙ sym (append-nil (all_segments chunks))
group_segments_lem pos chunks (info ∷ itr) result h =
    elim (Comparison-cases (compare_pos pos (segment_pos info))) [
      | inl (e, q) ↦ cc (rw (group_segments, q) at h)
      | inr (inl q) ↦ rw q (group_segments_lem pos chunks itr result (rw (group_segments, q) at h))
      | inr (inr (inl q)) ↦ rw q (
          keep (
            group_segments_lem pos (add_segment chunks info) itr result
              (rw (group_segments, q) at h)))
      | inr (inr (inr q)) ↦ rw q (
          keep (
            group_segments_lem pos (add_segment chunks info) itr result
              (rw (group_segments, q) at h)))
    ]
  where
    keep :
        all_segments result ≡ all_segments (add_segment chunks info) ++ unseen pos itr
        → all_segments result ≡ all_segments chunks ++ info ∷ unseen pos itr
    keep e =
        e
        ∙ ap (λ l. l ++ unseen pos itr) (add_segment_lem chunks info)
        ∙ append_assoc (all_segments chunks) (info ∷ []) (unseen pos itr)
