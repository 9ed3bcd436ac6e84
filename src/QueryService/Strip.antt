-- ===== src/QueryService/Strip.antt =====
-- The three `re.sub` calls behind `_strip_comments_and_strings`. Each reads the text from the left and
-- is in one of a few modes; a match that is begun is known to end.
use hass_ontology_fix.Common.{
  ℕ, Bool, true, false, ◌&&◌, ◌||◌, List, [], ◌∷◌, ◌++◌, ◌==◌, if◌then◌else◌,
}
use hass_ontology_fix.Common.Codes.{starts}

-- Each code is replaced by codes and changes the mode, as what follows it says.
unfoldable pub rewrite_text :
    {M : Type 0} → (M → ℕ → List ℕ → List ℕ) → (M → ℕ → List ℕ → M) → M → List ℕ → List ℕ
rewrite_text emit next mode [] = []
rewrite_text emit next mode (c ∷ cs) = emit mode c cs ++ rewrite_text emit next (next mode c cs) cs

abbrev pub tail : List ℕ → List ℕ
tail [] = []
tail (c ∷ cs) = cs

-- `*/` occurs in the text.
unfoldable pub closes : List ℕ → Bool
closes [] = false
closes (c ∷ cs) = (c == 42 && starts 47 cs) || closes cs

-- `/\*.*?\*/`: in `opening` the star of the opening is next, in `closing` the last slash.
pub data BlockMode : Type 0 where
  outside opening inside closing : BlockMode

abbrev opens_block : ℕ → List ℕ → Bool
opens_block c cs = c == 47 && starts 42 cs && closes (tail cs)

abbrev pub block_next : BlockMode → ℕ → List ℕ → BlockMode
block_next outside c cs = if opens_block c cs then opening else outside
block_next opening c cs = inside
block_next inside c cs = if c == 42 && starts 47 cs then closing else inside
block_next closing c cs = outside

abbrev pub block_emit : BlockMode → ℕ → List ℕ → List ℕ
block_emit outside c cs = if opens_block c cs then 32 ∷ [] else c ∷ []
block_emit _ c cs = []

-- `//[^\n]*`
pub data LineMode : Type 0 where
  code comment : LineMode

abbrev pub line_next : LineMode → ℕ → List ℕ → LineMode
line_next code c cs = if c == 47 && starts 47 cs then comment else code
line_next comment c cs = if c == 10 then code else comment

abbrev pub line_emit : LineMode → ℕ → List ℕ → List ℕ
line_emit code c cs = if c == 47 && starts 47 cs then 32 ∷ [] else c ∷ []
line_emit comment c cs = if c == 10 then 10 ∷ [] else []

-- A literal opened by this quote ends in the text: a backslash takes the next code with it, which may
-- not be a newline.
unfoldable pub ends : ℕ → Bool → List ℕ → Bool
ends quote escaped [] = false
ends quote true (c ∷ cs) = if c == 10 then false else ends quote false cs
ends quote false (c ∷ cs) = if c == quote then true else ends quote (c == 92) cs

pub data StringMode : Type 0 where
  bare : StringMode
  literal after_backslash : ℕ → StringMode

abbrev opens_literal : ℕ → List ℕ → Bool
opens_literal c cs = (c == 39 || c == 34) && ends c false cs

abbrev pub string_next : StringMode → ℕ → List ℕ → StringMode
string_next bare c cs = if opens_literal c cs then literal c else bare
string_next (literal quote) c cs =
    if c == quote then bare else if c == 92 then after_backslash quote else literal quote
string_next (after_backslash quote) c cs = literal quote

abbrev pub string_emit : List ℕ → StringMode → ℕ → List ℕ → List ℕ
string_emit replacement bare c cs = if opens_literal c cs then replacement else c ∷ []
string_emit replacement _ c cs = []

unfoldable pub strip_blocks : List ℕ → List ℕ
unfolding rewrite_text closes
strip_blocks text = rewrite_text block_emit block_next outside text

unfoldable pub strip_lines : List ℕ → List ℕ
unfolding rewrite_text
strip_lines text = rewrite_text line_emit line_next code text

unfoldable pub strip_comments : List ℕ → List ℕ
unfolding strip_blocks strip_lines
strip_comments text = strip_lines (strip_blocks text)

unfoldable pub strip_strings : List ℕ → List ℕ → List ℕ
unfolding rewrite_text ends
strip_strings replacement text = rewrite_text (string_emit replacement) string_next bare text

unfoldable pub strip_comments_and_strings : List ℕ → List ℕ
unfolding strip_comments strip_strings
strip_comments_and_strings cypher = strip_strings (32 ∷ []) (strip_comments cypher)
