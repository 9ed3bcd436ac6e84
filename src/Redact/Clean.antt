-- ===== src/Redact/Clean.antt =====
-- No value stays under a secret key, at any depth.
use hass_ontology_fix.Common.{Bool, true, false, ◌&&◌, ◌≡◌, refl, str_eq, if◌then◌else◌}
use hass_ontology_fix.Common.Json.{Json, Items, Fields}
use hass_ontology_fix.Redact.{
  redacted, mask, is_secret_key, redact_value, redact_items, redact_fields,
}

abbrev pub is_masked : Json → Bool
is_masked (Json.string s) = str_eq s redacted
is_masked _ = false

-- Under each secret key, also in the objects of arrays, stands the mask.
abbrev mutual
  pub is_clean : Json → Bool
  is_clean (Json.object fields) = are_clean_fields fields
  is_clean (Json.array items) = are_clean_items items
  is_clean _ = true

  pub are_clean_items : Items → Bool
  are_clean_items Items.nil = true
  are_clean_items (Items.cons x xs) = is_clean x && are_clean_items xs

  pub are_clean_fields : Fields → Bool
  are_clean_fields Fields.end = true
  are_clean_fields (Fields.field key value fields) =
      (if is_secret_key key then is_masked value else is_clean value) && are_clean_fields fields

mask-clean :
    (b : Bool) (value : Json)
    → is_clean value ≡ true
    → (if b then is_masked (mask b value) else is_clean (mask b value)) ≡ true
mask-clean true value h = refl
mask-clean false value h = h

mutual
  unfolding redact_value redact_items redact_fields

  value_clean : (value : Json) → is_clean (redact_value value) ≡ true
  value_clean (Json.object fields) = fields_clean fields
  value_clean (Json.array items) = items_clean items
  value_clean (Json.string s) = refl
  value_clean Json.null = refl
  value_clean (Json.boolean b) = refl
  value_clean (Json.number n) = refl

  items_clean : (items : Items) → are_clean_items (redact_items items) ≡ true
  items_clean Items.nil = refl
  items_clean (Items.cons x xs) = rw (value_clean x) (items_clean xs)

  fields_clean : (fields : Fields) → are_clean_fields (redact_fields fields) ≡ true
  fields_clean Fields.end = refl
  fields_clean (Fields.field key value fields) =
      rw (mask-clean (is_secret_key key) (redact_value value) (value_clean value))
        (fields_clean fields)

-- In a redacted value, at any depth and also in the objects of arrays, the mask stands under every key
-- that has a word for a secret in it.
pub redact_value-clean : (value : Json) → is_clean (redact_value value) ≡ true
redact_value-clean value = value_clean value
