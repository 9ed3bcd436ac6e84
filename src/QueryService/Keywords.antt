-- ===== src/QueryService/Keywords.antt =====
-- `find_denylisted_keyword`: the patterns made of QUERY_DENYLIST_KEYWORDS, `\b` at both ends and `\s+`
-- between the parts.
use hass_ontology_fix.Common.{
  ℕ, String, Bool, true, false, ◌&&◌, ◌||◌, not, Option, none, some, List, [], ◌∷◌, map, ◌==◌,
  if◌then◌else◌,
}
use hass_ontology_fix.Common.Codes.{codes, is_space, is_word, to_upper}
use hass_ontology_fix.QueryService.Strip.{strip_comments_and_strings}

-- A keyword by its name and by its parts.
abbrev pub Keyword : Type 0
Keyword = String × List String

abbrev pub query_denylist_keywords : List Keyword
query_denylist_keywords =
    ("CREATE", "CREATE" ∷ [])
    ∷ ("MERGE", "MERGE" ∷ [])
    ∷ ("DELETE", "DELETE" ∷ [])
    ∷ ("DETACH", "DETACH" ∷ [])
    ∷ ("SET", "SET" ∷ [])
    ∷ ("REMOVE", "REMOVE" ∷ [])
    ∷ ("DROP", "DROP" ∷ [])
    ∷ ("LOAD CSV", "LOAD" ∷ "CSV" ∷ [])
    ∷ ("CALL DBMS", "CALL" ∷ "DBMS" ∷ [])
    ∷ ("CALL MG", "CALL" ∷ "MG" ∷ [])
    ∷ ("CALL ALGO", "CALL" ∷ "ALGO" ∷ [])
    ∷ []

-- What follows a word that the text begins with.
unfoldable pub after_word : List ℕ → List ℕ → Option (List ℕ)
after_word [] text = some text
after_word (c ∷ cs) [] = none
after_word (c ∷ cs) (d ∷ ds) = let rest = after_word cs ds in if d == c then rest else none

abbrev pub drop_spaces : List ℕ → List ℕ
drop_spaces [] = []
drop_spaces (c ∷ cs) = let rest = drop_spaces cs in if is_space c then rest else c ∷ cs

abbrev pub after_spaces : List ℕ → Option (List ℕ)
after_spaces [] = none
after_spaces (c ∷ cs) = if is_space c then some (drop_spaces cs) else none

abbrev pub bind_text : Option (List ℕ) → (List ℕ → Option (List ℕ)) → Option (List ℕ)
bind_text none f = none
bind_text (some text) f = f text

-- The further parts, each after spaces.
unfoldable pub after_parts : List String → List ℕ → Option (List ℕ)
unfolding after_word
after_parts [] text = some text
after_parts (part ∷ parts) text =
    bind_text (after_spaces text)
      (λ rest. bind_text (after_word (codes part) rest) (after_parts parts))

abbrev pub at_boundary : Option (List ℕ) → Bool
at_boundary none = false
at_boundary (some []) = true
at_boundary (some (c ∷ cs)) = not (is_word c)

abbrev pub first_part : List String → List ℕ → Option (List ℕ)
first_part [] text = some text
first_part (part ∷ parts) text = bind_text (after_word (codes part) text) (after_parts parts)

-- `pattern.search`, where the flag says that a word character stands before the text.
unfoldable pub search_pattern : List String → Bool → List ℕ → Bool
unfolding after_parts
search_pattern parts in_word [] = false
search_pattern parts in_word (c ∷ cs) =
    (not in_word && at_boundary (first_part parts (c ∷ cs))) || search_pattern parts (is_word c) cs

unfoldable pub first_keyword : List Keyword → List ℕ → Option String
unfolding search_pattern
first_keyword [] text = none
first_keyword ((keyword, parts) ∷ keywords) text =
    if search_pattern parts false text then some keyword else first_keyword keywords text

unfoldable pub find_denylisted_keyword : List ℕ → Option String
unfolding strip_comments_and_strings first_keyword
find_denylisted_keyword cypher =
    first_keyword query_denylist_keywords (map to_upper (strip_comments_and_strings cypher))
