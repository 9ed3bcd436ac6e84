-- ===== src/Presentation/Text.antt =====
-- The limits and the bounded texts of graph_backends.py. What Python does to any value is an interface.
use Prim.Native.Char.{code}
use hass_ontology_fix.Common.{
  ℕ, zero, suc, min, ◌==◌, ltb, leb, String, Bool, true, false, ◌&&◌, ◌||◌, not, Option, none, some,
  List, [], ◌∷◌, map, any, str_eq, if◌then◌else◌,
}
use hass_ontology_fix.Common.Codes.{codes, to_lower, between, occurs}
use hass_ontology_fix.Common.Json.{Json, Items, Fields}

-- `str(value)`, `json.dumps(value, sort_keys=True, default=str)`, `sorted`, `str.upper`, `str.strip`, and
-- `str.lower` of a state.
pub record Python : Type 0 where
  pub str : Json → String
  pub dumps : Json → String
  pub sorted : List String → List String
  pub upper : String → String
  pub lower : String → String
  pub strip : String → String

-- `_clamp` of a limit that is not given or an integer, where one below zero is no different from zero.
unfoldable pub clamp : Option ℕ → ℕ → ℕ → ℕ
clamp none default maximum = min (if ltb default 1 then 1 else default) maximum
clamp (some value) default maximum = min (if ltb value 1 then 1 else value) maximum

-- `[\x00-\x1f\x7f]`
abbrev is_control : ℕ → Bool
is_control c = leb c 31 || c == 127

abbrev without_controls : String → String
without_controls String.[] = String.[]
without_controls (String.◌∷◌ c s) =
    let rest = without_controls s in if is_control (code c) then rest else String.◌∷◌ c rest

abbrev first_of : ℕ → String → String
first_of zero s = String.[]
first_of (suc n) String.[] = String.[]
first_of (suc n) (String.◌∷◌ c s) = String.◌∷◌ c (first_of n s)

abbrev pub bound : ℕ → String → String
bound limit s = first_of limit (without_controls s)

abbrev text_of_value : Python → Option Json → String
text_of_value python none = ""
text_of_value python (some Json.null) = ""
text_of_value python (some value) = python.str value

-- `_bounded_text`
abbrev pub bounded_text : Python → Option Json → ℕ → String
bounded_text python value limit = bound limit (text_of_value python value)

abbrev is_zero : String → Bool
is_zero n = str_eq n "0" || str_eq n "0.0"

-- Python's truth of a value, where the text of a number that is zero is `0` or `0.0`.
abbrev pub is_true : Json → Bool
is_true Json.null = false
is_true (Json.boolean b) = b
is_true (Json.number n) = not (is_zero n)
is_true (Json.string String.[]) = false
is_true (Json.string (String.◌∷◌ c s)) = true
is_true (Json.array Items.nil) = false
is_true (Json.array (Items.cons x xs)) = true
is_true (Json.object Fields.end) = false
is_true (Json.object (Fields.field k v d)) = true

-- `a or b` of optional values
abbrev pub or_value : Option Json → Option Json → Option Json
or_value none other = other
or_value (some value) other = if is_true value then some value else other

-- `^[A-Za-z_][A-Za-z0-9_]*$`
abbrev is_letter : ℕ → Bool
is_letter c = between 65 90 c || between 97 122 c || c == 95

abbrev all_name : List ℕ → Bool
all_name [] = true
all_name (c ∷ cs) = (is_letter c || between 48 57 c) && all_name cs

abbrev name_codes : List ℕ → Bool
name_codes [] = false
name_codes (c ∷ cs) = is_letter c && all_name cs

abbrev pub is_safe_name : String → Bool
is_safe_name name = name_codes (codes name)

-- `_SENSITIVE_PROPERTY.search(name)`
abbrev pub is_sensitive : String → Bool
is_sensitive name =
    any (λ word. occurs (codes word) (map to_lower (codes name)))
      ("password" ∷ "passphrase" ∷ "secret" ∷ "token" ∷ "credential" ∷ "connection" ∷ "uri" ∷ "url"
        ∷ "host" ∷ [])

-- `re.fullmatch(r"mdi:[a-z0-9-]+", name)`
abbrev icon_codes : List ℕ → Bool
icon_codes [] = true
icon_codes (c ∷ cs) = (between 97 122 c || between 48 57 c || c == 45) && icon_codes cs

abbrev pub is_icon : String → Bool
is_icon (String.◌∷◌ m (String.◌∷◌ d (String.◌∷◌ i (String.◌∷◌ colon (String.◌∷◌ c s))))) =
    code m == 109
    && code d == 100
    && code i == 105
    && code colon == 58
    && icon_codes (code c ∷ codes s)
is_icon _ = false
