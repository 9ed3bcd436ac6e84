-- ===== src/Impact/Tests.antt =====
-- A merge of two entities' dependents that share one, and the analysis of a device with them.
use hass_ontology_fix.Common.{
  ℕ, suc, ◌≡◌, refl, String, true, Option, none, some, List, [], ◌∷◌, take,
}
use hass_ontology_fix.Common.Errors.{Result, ok, err}
use hass_ontology_fix.Impact.{Graph, ToolResult}
use hass_ontology_fix.QueryService.{default_query_limit}
use hass_ontology_fix.Impact.Merge.{
  Key, automations, Ref, Properties, Dependencies, items_of, merge_dependencies,
}
use hass_ontology_fix.Impact.Analyze.{analyze, entities_in}
use hass_ontology_fix.Redact.{redact_text}
use hass_ontology_fix.Impact.Distinct.{first_of_each, merge_dependencies_exact}

abbrev ref : String → Ref
ref id = record { ha_id = some id; name = some id }

abbrev only_automations : List Ref → Key → List Ref
only_automations refs automations = refs
only_automations refs _ = []

abbrev pair : List Dependencies
pair =
    record { lists = only_automations (ref "a" ∷ ref "b" ∷ []); warnings = [] }
    ∷ record { lists = only_automations (ref "b" ∷ ref "c" ∷ []); warnings = [] }
    ∷ []

merged_once : (merge_dependencies pair).lists automations ≡ ref "a" ∷ ref "b" ∷ ref "c" ∷ []
unfolding merge_dependencies
merged_once = refl

merge_dependencies_exact_example :
    (merge_dependencies pair).lists automations
    ≡ take default_query_limit (first_of_each [] (items_of automations pair))
merge_dependencies_exact_example = merge_dependencies_exact pair automations

abbrev node : String → Properties
node id = record { ha_id = some id; name = none; title = none }

-- The graph counts the audit records.
abbrev graph : Graph ℕ
graph = record {
  resolve_node = λ label id w. (ok (some (node "hub")), w);
  dependents = λ id w. (ok ((λ (k : Key). some (node "auto") ∷ []) ∷ []), w);
  entities_of_device =
      λ id w. (ok (record { entity = some (node "light.a"); area = none } ∷ []), w);
  devices_of_area = λ id w. (ok [], w);
  entities_of_area = λ id w. (ok [], w);
  append_record = λ entry w. (ok tt, suc w);
  sorted_set = λ ids. ids;
}

abbrev entities_of : Result ToolResult → List (Option String)
entities_of (err e) = []
entities_of (ok r) = entities_in r.result

analyzes_device :
    let (r, w) = analyze graph true "device" (some "hub") 0 in
    (entities_of r ≡ some "light.a" ∷ []) × (w ≡ 1)
unfolding analyze redact_text
analyzes_device = (refl, refl)
