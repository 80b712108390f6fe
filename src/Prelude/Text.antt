-- ===== src/Prelude/Text.antt =====
-- Go strings: whole texts are native strings, and their characters are numbers.
use Prim.Native.Char.{code}
use Prim.Native.String.{String, compare}
use mathlib.Core.List.{List, [], ◌∷◌}
use Prim.Native.Nat.{ℕ}
use text.Mathlib.Text.{is_lt}
use mathlib.Core.Bool.{Bool}

-- The code points of a text.
abbrev pub codes : String → List ℕ
codes String.[] = []
codes (String.◌∷◌ c s) = code c ∷ codes s

-- The order of Go's strings, `a < b`.
abbrev pub str_ltb : String → String → Bool
str_ltb a b = is_lt (compare a b)
