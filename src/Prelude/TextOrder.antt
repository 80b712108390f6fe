-- ===== src/Prelude/TextOrder.antt =====
-- The order of Go's strings is a strict weak order.
use Prim.Native.String.{String}
use Prim.Native.String.compare
use Prim.Native.Nat.{ℕ}
use mathlib.Core.Path.{◌≡◌, refl}
use mathlib.Core.Bool.{Bool, true, false}
use mathlib.Core.List.{List, [], ◌∷◌}
use native.Mathlib.Omega.{arith}
use realtime_messaging_platf.Prelude.Tests.{ltb, if◌then◌else◌}
use realtime_messaging_platf.Prelude.Text.{codes, str_ltb}

-- The lexicographic order of character lists.
lex : List ℕ → List ℕ → Bool
lex [] [] = false
lex [] (_ ∷ _) = true
lex (_ ∷ _) [] = false
lex (c ∷ s) (d ∷ t) =
    let rest = lex s t in if ltb c d then true else if ltb d c then false else rest

str_ltb-lex : (a b : String) → str_ltb a b ≡ lex (codes a) (codes b)
unfolding lex
str_ltb-lex String.[] String.[] = refl
str_ltb-lex String.[] (String.◌∷◌ d t) = rw (compare.nil-cons d t)
str_ltb-lex (String.◌∷◌ c s) String.[] = rw (compare.cons-nil c s)
str_ltb-lex (String.◌∷◌ c s) (String.◌∷◌ d t) =
    rw (compare.cons-cons c d s t) (ground (arith, str_ltb-lex s t))

lex-asym : (a b : List ℕ) → lex a b ≡ true → lex b a ≡ false
unfolding lex
lex-asym [] [] h = refl
lex-asym [] (_ ∷ _) h = refl
lex-asym (_ ∷ _) [] h = cc
lex-asym (c ∷ s) (d ∷ t) h = ground (arith, lex-asym s t)

lex-negtrans : (a b c : List ℕ) → lex a b ≡ false → lex b c ≡ false → lex a c ≡ false
unfolding lex
lex-negtrans [] [] c h k = k
lex-negtrans [] (_ ∷ _) c h k = cc
lex-negtrans (_ ∷ _) b [] h k = refl
lex-negtrans (_ ∷ _) [] (_ ∷ _) h k = cc
lex-negtrans (x ∷ a) (y ∷ b) (z ∷ c) h k = ground (arith, lex-negtrans a b c)

pub str_ltb-asym : (a b : String) → str_ltb a b ≡ true → str_ltb b a ≡ false
str_ltb-asym a b h = ground (arith, str_ltb-lex a b, str_ltb-lex b a, lex-asym (codes a) (codes b))

pub str_ltb-negtrans :
    (a b c : String) → str_ltb a b ≡ false → str_ltb b c ≡ false → str_ltb a c ≡ false
str_ltb-negtrans a b c h k = ground (
  arith,
  str_ltb-lex a b,
  str_ltb-lex b c,
  str_ltb-lex a c,
  lex-negtrans (codes a) (codes b) (codes c),
)
