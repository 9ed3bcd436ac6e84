-- ===== src/QueryService/Blind.antt =====
-- A blind spot of the two checks: comments are removed before string literals, so comment marks inside
-- two literals hide what stands between them.
use hass_ontology_fix.Common.{
  map, ℕ, ◌≡◌, refl, ap, ◌∙◌, Bool, true, false, ◌&&◌, List, [], ◌∷◌, ◌++◌, ◌==◌, if◌then◌else◌,
  arith,
}
use hass_ontology_fix.Common.Codes.{codes, starts, to_upper}
use hass_ontology_fix.Common.Errors.{is_ok}
use hass_ontology_fix.QueryService.{
  validate_syntax, validate_read_only, quotes_and_brackets, reject_keyword,
}
use hass_ontology_fix.QueryService.Strip.{
  rewrite_text, closes, strip_blocks, strip_lines, strip_strings, strip_comments,
  strip_comments_and_strings, block_emit, block_next, outside, inside, closing, ends,
}
use hass_ontology_fix.QueryService.Keywords.{
  query_denylist_keywords, find_denylisted_keyword, first_keyword, search_pattern, after_parts,
  after_word,
}
use hass_ontology_fix.QueryService.Brackets.{is_balanced, scan, push_or_pop}
use hass_ontology_fix.QueryService.Guard.{accepts}

starts-append : (p r : List ℕ) → starts 47 (p ++ 42 ∷ r) ≡ starts 47 p
starts-append [] r = refl
starts-append (c ∷ p) r = refl

closes-append : (p r : List ℕ) → closes (p ++ 42 ∷ 47 ∷ r) ≡ true
unfolding closes
closes-append [] r = refl
closes-append (c ∷ p) r = ground (arith, closes-append p r)

-- Inside a comment everything up to its end goes.
skip :
    (p r : List ℕ)
    → closes p ≡ false
    → rewrite_text block_emit block_next inside (p ++ 42 ∷ 47 ∷ r)
      ≡ rewrite_text block_emit block_next outside r
unfolding rewrite_text closes
skip [] r h = refl
skip (c ∷ p) r h =
    let goes_on : (c == 42 && starts 47 (p ++ 42 ∷ 47 ∷ r)) ≡ false =
      ap (λ b. c == 42 && b) (starts-append p (47 ∷ r)) ∙ ground arith in
    ap
      (λ (b : Bool).
        rewrite_text block_emit block_next (if b then closing else inside) (p ++ 42 ∷ 47 ∷ r))
      goes_on
    ∙ skip p r (ground arith)

abbrev pub before_hidden : List ℕ
before_hidden = codes "WITH '/*"

abbrev pub after_hidden : List ℕ
after_hidden = codes "*/'"

strip_blocks-hidden :
    (p : List ℕ)
    → closes p ≡ false
    → strip_blocks (before_hidden ++ p ++ after_hidden) ≡ codes "WITH ' '"
unfolding strip_blocks rewrite_text closes
strip_blocks-hidden p h =
    rw (closes-append p (39 ∷ [])) (ap (λ t. codes "WITH ' " ++ t) (skip p (39 ∷ []) h))

strip_comments-hidden :
    (p : List ℕ)
    → closes p ≡ false
    → strip_comments (before_hidden ++ p ++ after_hidden) ≡ codes "WITH ' '"
unfolding strip_comments strip_lines rewrite_text
strip_comments-hidden p h = ap strip_lines (strip_blocks-hidden p h)

syntax_passes :
    (p : List ℕ)
    → closes p ≡ false
    → is_ok (validate_syntax (before_hidden ++ p ++ after_hidden)) ≡ true
unfolding validate_syntax strip_comments_and_strings strip_strings rewrite_text ends is_balanced
    scan push_or_pop
syntax_passes p h = ap (λ text. is_ok (quotes_and_brackets text)) (strip_comments-hidden p h)

read_only_passes :
    (p : List ℕ)
    → closes p ≡ false
    → is_ok (validate_read_only (before_hidden ++ p ++ after_hidden)) ≡ true
unfolding validate_read_only find_denylisted_keyword first_keyword search_pattern after_parts
    after_word strip_comments_and_strings strip_strings rewrite_text ends
read_only_passes p h =
    ap
      (λ text. is_ok (
        reject_keyword
          (first_keyword query_denylist_keywords (map to_upper (strip_strings (32 ∷ []) text)))))
      (strip_comments-hidden p h)

-- Whatever text without an end of a comment stands between the literals '/* and */', the syntax check
-- and the read-only check accept the query.
pub hidden_accepted :
    (p : List ℕ) → closes p ≡ false → accepts (before_hidden ++ p ++ after_hidden) ≡ true
unfolding accepts
hidden_accepted p h = rw (syntax_passes p h, read_only_passes p h) refl
