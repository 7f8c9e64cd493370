-- ===== src/Db/Listing/InOrder.antt =====
-- Lists of segments in the order of their positions, and lists joined.
use litestream.Prelude.{◌<◌, ◌≡◌, ◌⊎◌, inl, inr, List, [], ◌∷◌, ◌++◌, All, All-append}
use litestream.Client.{WalSegmentInfo}
use litestream.Client.Index.{Any}

-- Strictly by index and then by offset.
abbrev pub Precedes : WalSegmentInfo → WalSegmentInfo → Type 0
Precedes info other =
    (info.index < other.index) ⊎ ((info.index ≡ other.index) × (info.offset < other.offset))

abbrev pub InOrder : List WalSegmentInfo → Type 0
InOrder [] = Unit
InOrder (info ∷ infos) = All (Precedes info) infos × InOrder infos

pub InOrder-append :
    (a b : List WalSegmentInfo)
    → InOrder a
    → InOrder b
    → All (λ i. All (Precedes i) b) a
    → InOrder (a ++ b)
InOrder-append [] b h k l = k
InOrder-append (i ∷ a) b h k l = (All-append (Precedes i) a b h.0 l.0, InOrder-append a b h.1 k l.1)

module _ (P : WalSegmentInfo → Type 0) where
  pub Any-left : (a b : List WalSegmentInfo) → Any P a → Any P (a ++ b)
  Any-left [] b h = elim h [ ]
  Any-left (i ∷ a) b (inl p) = inl p
  Any-left (i ∷ a) b (inr h) = inr (Any-left a b h)

  pub Any-right : (a b : List WalSegmentInfo) → Any P b → Any P (a ++ b)
  Any-right [] b h = h
  Any-right (i ∷ a) b h = inr (Any-right a b h)
