-- ===== src/QueryService/Words.antt =====
-- What the read-only check refuses: a keyword that stands as a word in a text with no comment and no
-- literal.
use mathlib.Core.List.{map-append}
use hass_ontology_fix.Common.{
  ℕ, ◌≡◌, refl, ap, ◌∙◌, String, Bool, true, false, ◌&&◌, ◌||◌, not, Option, none, some, List, [],
  ◌∷◌, ◌++◌, All, map, any, ◌==◌, if◌then◌else◌, arith, ◌⊎◌, inl, inr, is_some,
}
use hass_ontology_fix.Common.Codes.{codes, is_word, to_upper}
use hass_ontology_fix.Common.Errors.{is_ok}
use hass_ontology_fix.QueryService.{validate_read_only, reject_keyword}
use hass_ontology_fix.QueryService.Strip.{
  rewrite_text, strip_blocks, strip_lines, strip_strings, strip_comments,
  strip_comments_and_strings, block_emit, block_next, outside, line_emit, line_next, code,
  string_emit, string_next, bare,
}
use hass_ontology_fix.QueryService.Keywords.{
  Keyword, query_denylist_keywords, find_denylisted_keyword, first_keyword, search_pattern,
  after_parts, after_word, bind_text, first_part, at_boundary,
}

-- Neither a slash nor a quote.
abbrev pub IsPlainCode : ℕ → Type 0
IsPlainCode c = (c == 47 ≡ false) × (c == 39 ≡ false) × (c == 34 ≡ false)

rewrite_text-id :
    {M : Type 0} (emit : M → ℕ → List ℕ → List ℕ) (next : M → ℕ → List ℕ → M) (m : M)
    → ((c : ℕ) (cs : List ℕ) → IsPlainCode c → (emit m c cs ≡ c ∷ []) × (next m c cs ≡ m))
    → (text : List ℕ) → All IsPlainCode text
    → rewrite_text emit next m text ≡ text
unfolding rewrite_text
rewrite_text-id emit next m h [] p = refl
rewrite_text-id emit next m h (c ∷ cs) (p, ps) =
    let (same, stays) = h c cs p in
    ap (λ e. e ++ rewrite_text emit next (next m c cs) cs) same
    ∙ ap (λ k. c ∷ rewrite_text emit next k cs) stays
    ∙ ap (λ t. c ∷ t) (rewrite_text-id emit next m h cs ps)

strip-plain : (text : List ℕ) → All IsPlainCode text → strip_comments_and_strings text ≡ text
unfolding strip_comments_and_strings strip_comments strip_blocks strip_lines strip_strings
strip-plain text p =
    let blocks =
      rewrite_text-id block_emit block_next outside (λ c cs h. (rw (h.0) refl, rw (h.0) refl)) text
        p in
    let lines =
      rewrite_text-id line_emit line_next code (λ c cs h. (rw (h.0) refl, rw (h.0) refl)) text p in
    let strings =
      rewrite_text-id (string_emit (32 ∷ [])) string_next bare
        (λ c cs h. (rw (h.1, h.2) refl, rw (h.1, h.2) refl)) text p in
    ap (strip_strings (32 ∷ [])) (ap strip_lines blocks ∙ lines) ∙ strings

after_word_self : (w q : List ℕ) → after_word w (w ++ q) ≡ some q
unfolding after_word
after_word_self [] q = refl
after_word_self (c ∷ w) q = ground (arith, after_word_self w q)

-- A word character stands at the end of the text, or before it.
abbrev pub ends_in_word : Bool → List ℕ → Bool
ends_in_word in_word [] = in_word
ends_in_word in_word (c ∷ cs) = ends_in_word (is_word c) cs

abbrev pub is_filled : List ℕ → Bool
is_filled [] = false
is_filled (_ ∷ _) = true

search_here :
    (parts : List String) (text : List ℕ)
    → is_filled text ≡ true
    → at_boundary (first_part parts text) ≡ true
    → search_pattern parts false text ≡ true
unfolding search_pattern
search_here parts [] f h = cc
search_here parts (c ∷ cs) f h = rw h refl

or_true : (b : Bool) → (b || true) ≡ true
or_true true = refl
or_true false = refl

search_after :
    (parts : List String) (in_word : Bool) (pre text : List ℕ)
    → ends_in_word in_word pre ≡ false
    → search_pattern parts false text ≡ true
    → search_pattern parts in_word (pre ++ text) ≡ true
unfolding search_pattern
search_after parts in_word [] text e h = rw e h
search_after parts in_word (c ∷ pre) text e h =
    let here = not in_word && at_boundary (first_part parts (c ∷ (pre ++ text))) in
    ap (λ b. here || b) (search_after parts (is_word c) pre text e h) ∙ or_true here

is_word-to_upper : (c : ℕ) → is_word (to_upper c) ≡ is_word c
is_word-to_upper c = ground arith

ends_in_word-to_upper :
    (b : Bool) (text : List ℕ) → ends_in_word b (map to_upper text) ≡ ends_in_word b text
ends_in_word-to_upper b [] = refl
ends_in_word-to_upper b (c ∷ cs) =
    ends_in_word-to_upper (is_word (to_upper c)) cs
    ∙ ap (λ w. ends_in_word w cs) (is_word-to_upper c)

at_boundary-to_upper :
    (text : List ℕ) → at_boundary (some (map to_upper text)) ≡ at_boundary (some text)
at_boundary-to_upper [] = refl
at_boundary-to_upper (c ∷ cs) = ap not (is_word-to_upper c)

-- A keyword of one part that the list holds.
abbrev pub IsListed : String → List Keyword → Type 0
IsListed keyword [] = ⊥
IsListed keyword ((name, parts) ∷ keywords) = (parts ≡ keyword ∷ []) ⊎ IsListed keyword keywords

found_either :
    (b : Bool) (name : String) (o : Option String)
    → is_some o ≡ true
    → is_some (if b then some name else o) ≡ true
found_either true name o h = refl
found_either false name o h = h

first_keyword-found :
    (keyword : String) (keywords : List Keyword) (text : List ℕ)
    → IsListed keyword keywords
    → search_pattern (keyword ∷ []) false text ≡ true
    → is_some (first_keyword keywords text) ≡ true
unfolding first_keyword
first_keyword-found keyword [] text l h = absurd l
first_keyword-found keyword ((name, parts) ∷ keywords) text (inl same) h = rw (same, h) refl
first_keyword-found keyword ((name, parts) ∷ keywords) text (inr later) h =
    found_either (search_pattern parts false text) name (first_keyword keywords text)
      (first_keyword-found keyword keywords text later h)

refused : (o : Option String) → is_some o ≡ true → is_ok (reject_keyword o) ≡ false
refused none h = cc
refused (some keyword) h = refl

is_filled-append : (w q : List ℕ) → is_filled w ≡ true → is_filled (w ++ q) ≡ true
is_filled-append [] q h = cc
is_filled-append (c ∷ w) q h = refl

-- A slash or a quote.
abbrev pub has_mark : List ℕ → Bool
has_mark text = any (λ c. c == 47 || c == 39 || c == 34) text

no_mark-IsPlain : (text : List ℕ) → has_mark text ≡ false → All IsPlainCode text
no_mark-IsPlain [] h = tt
no_mark-IsPlain (c ∷ cs) h = ground (arith, no_mark-IsPlain cs)

-- If a text without slashes and quotes is made of a text that does not end in a word character, of a
-- word that is in upper case a keyword of one part from the list, and of a text that does not begin
-- with a word character, then the read-only check refuses it.
pub keyword_refused :
    (keyword : String) (pre word post : List ℕ)
    → IsListed keyword query_denylist_keywords
    → has_mark (pre ++ (word ++ post)) ≡ false
    → map to_upper word ≡ codes keyword
    → is_filled (codes keyword) ≡ true
    → ends_in_word false pre ≡ false
    → at_boundary (some post) ≡ true
    → is_ok (validate_read_only (pre ++ (word ++ post))) ≡ false
unfolding validate_read_only find_denylisted_keyword after_parts
keyword_refused keyword pre word post listed plain same filled before behind =
    let text = map to_upper pre ++ (codes keyword ++ map to_upper post) in
    let upper : map to_upper (strip_comments_and_strings (pre ++ (word ++ post))) ≡ text =
      ap (map to_upper)
        (strip-plain (pre ++ (word ++ post)) (no_mark-IsPlain (pre ++ (word ++ post)) plain))
      ∙ map-append to_upper pre (word ++ post)
      ∙ ap (λ t. map to_upper pre ++ t)
          (map-append to_upper word post ∙ ap (λ t. t ++ map to_upper post) same) in
    let here : search_pattern (keyword ∷ []) false (codes keyword ++ map to_upper post) ≡ true =
      search_here (keyword ∷ []) (codes keyword ++ map to_upper post)
        (is_filled-append (codes keyword) (map to_upper post) filled)
        (ap (λ o. at_boundary (bind_text o (after_parts [])))
            (after_word_self (codes keyword) (map to_upper post))
          ∙ at_boundary-to_upper post
          ∙ behind) in
    let found : search_pattern (keyword ∷ []) false text ≡ true =
      search_after (keyword ∷ []) false (map to_upper pre) (codes keyword ++ map to_upper post)
        (ends_in_word-to_upper false pre ∙ before) here in
    refused _ (
      ap (λ t. is_some (first_keyword query_denylist_keywords t)) upper
      ∙ first_keyword-found keyword query_denylist_keywords text listed found)
