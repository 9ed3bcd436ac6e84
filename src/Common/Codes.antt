-- ===== src/Common/Codes.antt =====
-- Texts as lists of character codes, and the classes of codes that Python's `re` tells apart in ASCII.
use Prim.Native.Char.{code}
use Prim.Native.Nat.{ℕ, ◌+◌, ◌-◌}
use Prim.Native.String.{String}
use mathlib.Core.Bool.{Bool, true, false, ◌&&◌, ◌||◌}
use mathlib.Core.List.{List, [], ◌∷◌}
use hass_ontology_fix.Common.Bools.{leb, ◌==◌, if◌then◌else◌}

abbrev pub codes : String → List ℕ
codes String.[] = []
codes (String.◌∷◌ c s) = code c ∷ codes s

abbrev pub between : ℕ → ℕ → ℕ → Bool
between low high c = leb low c && leb c high

-- `\s`
abbrev pub is_space : ℕ → Bool
is_space c = between 9 13 c || between 28 32 c

-- `\w`
abbrev pub is_word : ℕ → Bool
is_word c = between 48 57 c || between 65 90 c || between 97 122 c || c == 95 || leb 128 c

-- `str.upper` on one code
abbrev pub to_upper : ℕ → ℕ
to_upper c = if between 97 122 c then c - 32 else c

-- The text begins with this code.
abbrev pub starts : ℕ → List ℕ → Bool
starts c [] = false
starts c (d ∷ ds) = d == c

-- `str.lower` on one code
abbrev pub to_lower : ℕ → ℕ
to_lower c = if between 65 90 c then c + 32 else c

abbrev pub codes_eq : List ℕ → List ℕ → Bool
codes_eq [] [] = true
codes_eq (c ∷ cs) (d ∷ ds) = c == d && codes_eq cs ds
codes_eq _ _ = false

abbrev pub is_in : List ℕ → List (List ℕ) → Bool
is_in item [] = false
is_in item (x ∷ xs) = codes_eq item x || is_in item xs

-- `text.startswith(word)`
abbrev pub starts_with : List ℕ → List ℕ → Bool
starts_with [] text = true
starts_with (c ∷ cs) [] = false
starts_with (c ∷ cs) (d ∷ ds) = c == d && starts_with cs ds

-- `word in text`
abbrev pub occurs : List ℕ → List ℕ → Bool
occurs word [] = starts_with word []
occurs word (c ∷ cs) = starts_with word (c ∷ cs) || occurs word cs

-- `entity_id.split(".", 1)[0]`
abbrev pub domain_of : List ℕ → List ℕ
domain_of [] = []
domain_of (c ∷ cs) = let rest = domain_of cs in if c == 46 then [] else c ∷ rest
