-- ===== src/Prelude/Text.antt =====
-- Texts as lists of characters.
use Prim.Native.Char.{Char}
use Prim.Native.String.{String, ◌++◌ as str_append}
use mathlib.Core.Path.{◌≡◌, refl, ap}
use mathlib.Core.List.{List, [], ◌∷◌, ◌++◌}
use text.Mathlib.TextLemmas.{cons-append, nil-append}

abbrev pub to_chars : String → List Char
to_chars String.[] = []
to_chars (String.◌∷◌ c s) = c ∷ to_chars s

abbrev pub of_chars : List Char → String
of_chars [] = String.[]
of_chars (c ∷ cs) = String.◌∷◌ c (of_chars cs)

pub of_chars-to_chars : (s : String) → of_chars (to_chars s) ≡ s
of_chars-to_chars String.[] = refl
of_chars-to_chars (String.◌∷◌ c s) = ap (String.◌∷◌ c) (of_chars-to_chars s)

pub to_chars-of_chars : (cs : List Char) → to_chars (of_chars cs) ≡ cs
to_chars-of_chars [] = refl
to_chars-of_chars (c ∷ cs) = ap (λ l. c ∷ l) (to_chars-of_chars cs)

pub to_chars-append : (s t : String) → to_chars (str_append s t) ≡ to_chars s ++ to_chars t
to_chars-append String.[] t = rw nil-append
to_chars-append (String.◌∷◌ c s) t = rw cons-append (ap (λ l. c ∷ l) (to_chars-append s t))
