-- ===== src/Overrides/Tests.antt =====
-- A graph with two overrides, its export, and the theorems there.
use hass_ontology_fix.Common.{
  ℕ, ◌≡◌, refl, String, true, ◌&&◌, ◌||◌, Option, none, List, [], ◌∷◌, str_eq,
}
use hass_ontology_fix.Common.Errors.{Exception, ok}
use hass_ontology_fix.Common.Json.{Json, Fields, Items}
use hass_ontology_fix.Overrides.{Override, Graph, async_export_overrides}
use hass_ontology_fix.Overrides.Import.{async_import_overrides}
use hass_ontology_fix.Overrides.Checked.{rejected_unchanged}
use hass_ontology_fix.Overrides.RoundTrip.{import-export}

abbrev pins : List Override
pins =
    record { source_label = "Entity"; source_ha_id = "light.a"; type_label = "Vehicle" }
    ∷ record { source_label = "Area"; source_ha_id = "hall"; type_label = "Camera" }
    ∷ []

abbrev pinned : Graph
pinned = record { has_node = λ label id. true; overrides = pins; sent = 4 }

abbrev rebuilt : Graph
rebuilt = record {
  has_node = λ label id. (str_eq label "Entity" && str_eq id "light.a") || str_eq label "Area";
  overrides = [];
  sent = 9;
}

abbrev answered : ℕ → Option Exception
answered n = none

import-export_example :
    (payload : Json) × ((async_export_overrides answered "now" pinned).0 ≡ ok payload)
    × ((async_import_overrides answered payload rebuilt).0 ≡ ok 2)
    × ((async_import_overrides answered payload rebuilt).1.overrides ≡ pins)
import-export_example =
    import-export answered "now" pinned rebuilt (λ n. refl)
      ((refl, refl, refl), ((refl, refl, refl), tt)) (refl, (refl, tt)) (refl, (refl, tt)) refl

-- The second entry has a label that is not allowed.
abbrev entry : String → Json
entry label = Json.object (
    Fields.field "source_label" (Json.string label) (
      Fields.field "source_ha_id" (Json.string "x")
        (Fields.field "type_label" (Json.string "Camera") Fields.end)))

abbrev half_bad : Json
half_bad = Json.object (
    Fields.field "version" (Json.number "1") (
      Fields.field "overrides"
        (Json.array (Items.cons (entry "Entity") (Items.cons (entry "Floor") Items.nil)))
        Fields.end))

rejected_unchanged_example : (async_import_overrides answered half_bad rebuilt).1 ≡ rebuilt
unfolding async_import_overrides
rejected_unchanged_example = rejected_unchanged answered half_bad rebuilt (λ n. refl) refl
