-- ===== src/Redact/Tests.antt =====
-- Texts and a value with secrets in them.
use hass_ontology_fix.Common.{◌≡◌, refl, true}
use hass_ontology_fix.Common.Json.{Json, Items, Fields}
use hass_ontology_fix.Redact.{redact_text, redact_value}
use hass_ontology_fix.Redact.Clean.{is_clean, redact_value-clean}

masks_text :
    redact_text "bolt: Password = 'a b' api-key:x, ok"
    ≡ "bolt: Password=**REDACTED** api-key=**REDACTED** ok"
unfolding redact_text
masks_text = refl

keeps_text : redact_text "token" ≡ "token"
unfolding redact_text
keeps_text = refl

abbrev nested : Json
nested = Json.object (
    Fields.field "hosts"
      (Json.array (
        Items.cons (Json.object (Fields.field "auth_Token" (Json.number "3") Fields.end))
          Items.nil))
      Fields.end)

redact_value-clean_example : is_clean (redact_value nested) ≡ true
redact_value-clean_example = redact_value-clean nested
