-- ===== src/QueryService/Tests.antt =====
-- Runs of the query checks, and the theorems at some of them.
use hass_ontology_fix.Common.{
  ℕ, ◌+◌, ◌↔◌, inl, inr, ◌≡◌, refl, true, false, none, some, List, [], ◌∷◌, ◌++◌,
}
use hass_ontology_fix.Common.Codes.{codes}
use hass_ontology_fix.Common.Errors.{ok, is_ok}
use hass_ontology_fix.MemgraphClient.{Driver}
use hass_ontology_fix.MemgraphClient.Limit.{stream, complete}
use hass_ontology_fix.QueryService.{validate_syntax, validate_read_only}
use hass_ontology_fix.QueryService.Strip.{closes}
use hass_ontology_fix.QueryService.Keywords.{find_denylisted_keyword, first_keyword}
use hass_ontology_fix.QueryService.Brackets.{is_balanced, IsBalanced, is_balanced_exact}
use hass_ontology_fix.QueryService.Guard.{accepts}
use hass_ontology_fix.QueryService.Words.{keyword_refused}
use hass_ontology_fix.QueryService.Blind.{before_hidden, after_hidden, hidden_accepted}

-- A database that counts the queries it answers, with three rows each.
abbrev driver : Driver ℕ ℕ (Unit {0})
driver = record {
  run = λ query parameters n. (ok (stream (1 ∷ 2 ∷ 3 ∷ []) complete), n + 1);
  sleep = λ s n. n;
  redact_exception = λ e. e.message;
}

keyword_in_literal :
    find_denylisted_keyword (codes "RETURN 'create' // SET\n, \"drop\" /* call\nmg */") ≡ none
unfolding find_denylisted_keyword first_keyword
keyword_in_literal = refl

keyword_found :
    find_denylisted_keyword (codes "MATCH (n) CALL\n mg.x() RETURN n.settings") ≡ some "CALL MG"
unfolding find_denylisted_keyword first_keyword
keyword_found = refl

deletes_refused : accepts (codes "MATCH (n) DETACH DELETE n") ≡ false
unfolding accepts validate_syntax validate_read_only
deletes_refused = refl

reads_accepted : accepts (codes "MATCH (n {a: [1, ')']}) RETURN n") ≡ true
unfolding accepts validate_syntax validate_read_only
reads_accepted = refl

abbrev hidden : List ℕ
hidden = codes " AS a MATCH (n) DETACH DELETE n RETURN "

hidden_accepted_example : accepts (before_hidden ++ hidden ++ after_hidden) ≡ true
unfolding closes
hidden_accepted_example = hidden_accepted hidden refl

is_balanced_exact_example :
    (is_balanced (codes "([a], {b: 1})") ≡ true) ↔ IsBalanced (codes "([a], {b: 1})")
is_balanced_exact_example = is_balanced_exact (codes "([a], {b: 1})")

keyword_refused_example :
    is_ok (validate_read_only (codes "MATCH (n) " ++ (codes "Delete" ++ codes " n"))) ≡ false
keyword_refused_example =
    keyword_refused "DELETE" (codes "MATCH (n) ") (codes "Delete") (codes " n")
      (inr (inr (inl refl))) refl refl refl refl refl
