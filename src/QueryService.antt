-- ===== src/QueryService.antt =====
-- The read-only query service (custom_components/ontology/query_service.py). A text is the list of its
-- codes; codes beyond ASCII count as word characters with no upper case.
pub mod Strip
pub mod Keywords
pub mod Brackets
pub mod Blind
pub mod Words
pub mod Guard
mod Tests
use Prim.Native.String.{◌++◌}
use hass_ontology_fix.Common.{
  ℕ, zero, suc, min, String, Bool, true, false, ◌&&◌, not, Option, none, some, List, [], ◌∷◌, any,
  length, ◌==◌, if◌then◌else◌,
}
use hass_ontology_fix.Common.Codes.{codes, is_space}
use hass_ontology_fix.Common.Errors.{
  rejected, Exception, Result, ok, err, Action, ◌>>=◌, ◌>>◌, pure, raise,
}
use hass_ontology_fix.MemgraphClient.{Driver, run_query_limited}
use hass_ontology_fix.QueryService.Strip.{strip_comments, strip_strings}
use hass_ontology_fix.QueryService.Keywords.{find_denylisted_keyword}
use hass_ontology_fix.QueryService.Brackets.{is_balanced}

-- DEFAULT_QUERY_LIMIT and MAX_QUERY_LIMIT
abbrev pub default_query_limit : ℕ
default_query_limit = 100

abbrev pub max_query_limit : ℕ
max_query_limit = 1000

abbrev reject : {A : Type 0} → String → Result A
reject message = err (record { class = rejected; message = message })

-- A check that only raises or passes.
abbrev pub check : {W A : Type 0} → Result A → Action W A
check r w = (r, w)

-- `not cypher or not cypher.strip()`
abbrev is_empty : List ℕ → Bool
is_empty cypher = not (any (λ c. not (is_space c)) cypher)

abbrev has_quote : List ℕ → Bool
has_quote text = any (λ c. if c == 39 then true else c == 34) text

-- What `validate_syntax` tests of the text without comments.
unfoldable pub quotes_and_brackets : List ℕ → Result (Unit {0})
unfolding strip_strings is_balanced
quotes_and_brackets text =
    if has_quote (strip_strings [] text)
    then reject "Query rejected: unterminated string literal"
    else if is_balanced (strip_strings (32 ∷ []) text)
    then ok tt
    else reject "Query rejected: unbalanced parentheses, brackets, or braces"

unfoldable pub validate_syntax : List ℕ → Result (Unit {0})
unfolding strip_comments quotes_and_brackets
validate_syntax cypher =
    if is_empty cypher
    then reject "Query rejected: empty query"
    else quotes_and_brackets (strip_comments cypher)

abbrev pub reject_keyword : Option String → Result (Unit {0})
reject_keyword none = ok tt
reject_keyword (some keyword) =
    reject ("Query rejected: contains disallowed keyword '" ++ keyword ++ "'")

unfoldable pub validate_read_only : List ℕ → Result (Unit {0})
unfolding find_denylisted_keyword
validate_read_only cypher = reject_keyword (find_denylisted_keyword cypher)

-- `min(limit or DEFAULT_QUERY_LIMIT, MAX_QUERY_LIMIT)`
abbrev pub effective_limit : Option ℕ → ℕ
effective_limit none = min default_query_limit max_query_limit
effective_limit (some zero) = min default_query_limit max_query_limit
effective_limit (some (suc n)) = min (suc n) max_query_limit

pub record Response (Row : Type 0) : Type 0 where
  pub rows : List Row
  pub truncated : Bool
  pub row_count : ℕ

abbrev response : {Row : Type 0} → List Row × Bool → Response Row
response (rows, truncated) = record { rows = rows; truncated = truncated; row_count = length rows }

module _ {W Row Parameters : Type 0} (driver : Driver W Row Parameters) where
  unfoldable pub execute_query : String → Parameters → Option ℕ → Action W (Response Row)
  unfolding validate_syntax validate_read_only run_query_limited
  execute_query cypher parameters limit = do
    check (validate_syntax (codes cypher))
    check (validate_read_only (codes cypher))
    found ← run_query_limited driver cypher parameters (effective_limit limit)
    pure (response found)
