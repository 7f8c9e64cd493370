-- ===== src/Text/Ascii.antt =====
-- Text literals of ASCII.
use Prim.Native.Char.{code}
use Prim.Native.String.{String}
use litestream.Prelude.{ℕ, List, [], ◌∷◌}

abbrev pub codes : String → List ℕ
codes String.[] = []
codes (String.◌∷◌ c s) = code c ∷ codes s
