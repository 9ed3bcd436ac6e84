-- ===== src/Overrides/Import.antt =====
-- `async_import_overrides`: the whole payload is checked before the first write.
use hass_ontology_fix.Common.{
  ℕ, String, Bool, false, ◌||◌, Option, none, some, List, [], ◌∷◌, length, str_eq, if◌then◌else◌,
}
use hass_ontology_fix.Common.Errors.{Exception, ErrorClass, Result, ok, err, Action, ◌>>◌, pure}
use hass_ontology_fix.Common.Json.{Json, get, of_items}
use hass_ontology_fix.Overrides.{Override, Graph, is_allowed, async_create_override}

-- OverrideImportRejected
abbrev pub import_rejected : String → Exception
import_rejected message = record { class = ErrorClass.rejected; message = message }

-- `isinstance(value, str) and value`
abbrev pub text_of : Option Json → Option String
text_of (some (Json.string String.[])) = none
text_of (some (Json.string (String.◌∷◌ c s))) = some (String.◌∷◌ c s)
text_of _ = none

abbrev allowed_label : Option Json → Option String
allowed_label (some (Json.string label)) = if is_allowed label then some label else none
allowed_label _ = none

abbrev entry_of : Option String → Option String → Option String → Result Override
entry_of none source_ha_id type_label = err (import_rejected "invalid source_label")
entry_of (some label) none type_label = err (import_rejected "invalid source_ha_id")
entry_of (some label) (some id) none = err (import_rejected "invalid type_label")
entry_of (some label) (some id) (some type) =
    ok (record { source_label = label; source_ha_id = id; type_label = type })

abbrev pub validate_entry : Json → Result Override
validate_entry (Json.object fields) =
    entry_of (allowed_label (get "source_label" fields)) (text_of (get "source_ha_id" fields))
      (text_of (get "type_label" fields))
validate_entry _ = err (import_rejected "not an object")

abbrev add_entry : Result Override → Result (List Override) → Result (List Override)
add_entry (ok o) (ok os) = ok (o ∷ os)
add_entry (ok o) (err e) = err e
add_entry (err e) rest = err e

abbrev pub validate_entries : List Json → Result (List Override)
validate_entries [] = ok []
validate_entries (entry ∷ entries) = add_entry (validate_entry entry) (validate_entries entries)

-- `== 1` in Python, of a number as it is printed: 1, 1.0 and True are equal.
abbrev is_version : Option Json → Bool
is_version (some (Json.number v)) = str_eq v "1" || str_eq v "1.0"
is_version (some (Json.boolean b)) = b
is_version _ = false

abbrev validate_list : Option Json → Result (List Override)
validate_list (some (Json.array items)) = validate_entries (of_items items)
validate_list _ = err (import_rejected "Payload 'overrides' must be a list")

unfoldable pub validate_payload : Json → Result (List Override)
validate_payload (Json.object fields) =
    if is_version (get "version" fields)
    then validate_list (get "overrides" fields)
    else err (import_rejected "Unsupported overrides export version")
validate_payload _ = err (import_rejected "Payload is not an object")

module _ (replies : ℕ → Option Exception) where
  unfoldable pub create_each : List Override → Action Graph (Unit {0})
  unfolding async_create_override
  create_each [] = pure tt
  create_each (o ∷ os) = async_create_override replies o >> create_each os

  abbrev pub import_checked : Result (List Override) → Action Graph ℕ
  import_checked (err e) g = (err e, g)
  import_checked (ok os) g = (create_each os >> pure (length os)) g

  unfoldable pub async_import_overrides : Json → Action Graph ℕ
  unfolding validate_payload create_each
  async_import_overrides payload = import_checked (validate_payload payload)
