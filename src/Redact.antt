-- ===== src/Redact.antt =====
-- redact.py: the masking of secrets in texts, mappings and JSON values. The regular expressions are
-- scanners over the text.
mod Clean
mod Tests
use Prim.Native.Char.{Char, code}
use Prim.Native.String.{◌++◌}
use hass_ontology_fix.Common.{
  ℕ, zero, suc, ◌-◌, ◌==◌, String, Bool, true, false, ◌||◌, Option, none, some, List, [], ◌∷◌, map,
  any, if◌then◌else◌,
}
use hass_ontology_fix.Common.Codes.{codes, to_lower, is_space, is_in, occurs}
use hass_ontology_fix.Common.Json.{Json, Items, Fields}

abbrev pub redacted : String
redacted = "**REDACTED**"

abbrev text_length : String → ℕ
text_length String.[] = 0
text_length (String.◌∷◌ c s) = suc (text_length s)

abbrev first : ℕ → String → String
first zero s = String.[]
first (suc n) String.[] = String.[]
first (suc n) (String.◌∷◌ c s) = String.◌∷◌ c (first n s)

-- What follows the word, read without regard to case.
abbrev after_word : List ℕ → String → Option String
after_word [] s = some s
after_word (d ∷ word) String.[] = none
after_word (d ∷ word) (String.◌∷◌ c s) =
    let rest = after_word word s in if to_lower (code c) == d then rest else none

abbrev or_option {ℓ} : {A : Type ℓ} → Option A → Option A → Option A
or_option (some a) o = some a
or_option none o = o

abbrev secret_words : List String
secret_words = "password" ∷ "token" ∷ "api_key" ∷ "api-key" ∷ "apikey" ∷ "secret" ∷ []

abbrev after_words : List String → String → Option String
after_words [] s = none
after_words (word ∷ words) s = or_option (after_word (codes word) s) (after_words words s)

abbrev skip_spaces : String → String
skip_spaces String.[] = String.[]
skip_spaces (String.◌∷◌ c s) =
    let rest = skip_spaces s in if is_space (code c) then rest else String.◌∷◌ c s

-- `[=:]`
abbrev after_sign : String → Option String
after_sign String.[] = none
after_sign (String.◌∷◌ c s) = if code c == 61 || code c == 58 then some s else none

abbrev after_quote : ℕ → String → Option String
after_quote quote String.[] = none
after_quote quote (String.◌∷◌ c s) =
    let rest = after_quote quote s in if code c == quote then some s else rest

-- `\S*`
abbrev after_run : String → String
after_run String.[] = String.[]
after_run (String.◌∷◌ c s) =
    let rest = after_run s in if is_space (code c) then String.◌∷◌ c s else rest

abbrev after_quoted : Char → String → Option String
after_quoted c s = if code c == 34 || code c == 39 then after_quote (code c) s else none

-- `("[^"]*"|'[^']*'|\S+)`, where a space was skipped before
abbrev after_value : String → Option String
after_value String.[] = none
after_value (String.◌∷◌ c s) = or_option (after_quoted c s) (some (after_run s))

abbrev after_spaced_sign : Option String → Option String
after_spaced_sign none = none
after_spaced_sign (some s) = after_sign (skip_spaces s)

abbrev after_spaced_value : Option String → Option String
after_spaced_value none = none
after_spaced_value (some s) = after_value (skip_spaces s)

-- What replaces the match at the head of the text, and the length of the match.
abbrev replacement : String → Option String → Option String → Option (String × ℕ)
replacement s none end = none
replacement s (some after) none = none
replacement s (some after) (some end) = some (
  first (text_length s - text_length after) s ++ ("=" ++ redacted),
  text_length s - text_length end,
)

abbrev match : String → Option (String × ℕ)
match s =
    let after = after_words secret_words s in
    replacement s after (after_spaced_value (after_spaced_sign after))

abbrev replace_by : Char → Option (String × ℕ) → (ℕ → String) → String
replace_by c none rest = String.◌∷◌ c (rest zero)
replace_by c (some (text, length)) rest = text ++ rest (length - 1)

-- `_SECRET_PATTERN.sub`, with the number of characters of a match that are still to be passed over
abbrev substitute : ℕ → String → String
substitute n String.[] = String.[]
substitute (suc n) (String.◌∷◌ c s) = substitute n s
substitute zero (String.◌∷◌ c s) = replace_by c (match (String.◌∷◌ c s)) (λ n. substitute n s)

unfoldable pub redact_text : String → String
redact_text s = substitute zero s

-- `_SECRET_KEY_PATTERN.search(key)`
abbrev pub is_secret_key : String → Bool
is_secret_key key =
    any (λ word. occurs (codes word) (map to_lower (codes key)))
      ("password" ∷ "token" ∷ "api_key" ∷ "api-key" ∷ "apikey" ∷ "secret" ∷ "credential" ∷ [])

-- `key.lower() in SECRET_KEYS`
abbrev pub is_secret_name : String → Bool
is_secret_name key =
    is_in (map to_lower (codes key))
      (map codes ("password" ∷ "token" ∷ "access_token" ∷ "api_key" ∷ "secret" ∷ []))

abbrev pub mask : Bool → Json → Json
mask true value = Json.string redacted
mask false value = value

unfoldable mutual
  pub redact_value : Json → Json
  redact_value (Json.object fields) = Json.object (redact_fields fields)
  redact_value (Json.array items) = Json.array (redact_items items)
  redact_value (Json.string s) = Json.string (redact_text s)
  redact_value Json.null = Json.null
  redact_value (Json.boolean b) = Json.boolean b
  redact_value (Json.number n) = Json.number n

  pub redact_items : Items → Items
  redact_items Items.nil = Items.nil
  redact_items (Items.cons x xs) = Items.cons (redact_value x) (redact_items xs)

  pub redact_fields : Fields → Fields
  redact_fields Fields.end = Fields.end
  redact_fields (Fields.field key value fields) =
      Fields.field key (mask (is_secret_key key) (redact_value value)) (redact_fields fields)

unfoldable mutual
  pub redact_mapping : Fields → Fields
  redact_mapping Fields.end = Fields.end
  redact_mapping (Fields.field key value fields) =
      Fields.field key (mask (is_secret_name key) (redact_nested value)) (redact_mapping fields)

  pub redact_nested : Json → Json
  redact_nested (Json.object fields) = Json.object (redact_mapping fields)
  redact_nested value = value
