-- ===== src/Base/Chars.antt =====
-- A text as the list of its characters, and back.
use Prim.Native.Char.{Char}
use Prim.Native.String.{String}
use mathlib.Core.Path.{◌≡◌, refl, ap}
use mathlib.Core.List.{List, [], ◌∷◌}

unfoldable pub chars : String → List Char
chars String.[] = []
chars (String.◌∷◌ c s) = c ∷ chars s

unfoldable pub of_chars : List Char → String
of_chars [] = String.[]
of_chars (c ∷ cs) = String.◌∷◌ c (of_chars cs)

pub chars-of_chars : (cs : List Char) → chars (of_chars cs) ≡ cs
unfolding chars of_chars
chars-of_chars [] = refl
chars-of_chars (c ∷ cs) = ap (λ t. c ∷ t) (chars-of_chars cs)

pub of_chars-chars : (s : String) → of_chars (chars s) ≡ s
unfolding chars of_chars
of_chars-chars String.[] = refl
of_chars-chars (String.◌∷◌ c s) = ap (λ t. String.◌∷◌ c t) (of_chars-chars s)
