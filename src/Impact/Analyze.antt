-- ===== src/Impact/Analyze.antt =====
-- The three analyses of impact_analysis.py, and `analyze` with its audit.
use hass_ontology_fix.Common.{
  ℕ, ◌++◌, ltb, String, Bool, true, false, Option, none, some, List, [], ◌∷◌, map, take, length,
  str_eq, if◌then◌else◌,
}
use hass_ontology_fix.Common.Errors.{
  Exception, ErrorClass, Result, ok, err, Action, ◌>>=◌, pure, raise,
}
use hass_ontology_fix.QueryService.{default_query_limit}
use hass_ontology_fix.Impact.Merge.{
  Properties, Dependencies, no_dependencies, merge_dependencies, limit_lists,
}
use hass_ontology_fix.Impact.{
  ImpactResult, ToolResult, EntityRow, AuditRecord, Graph, not_found_result, build_result,
  tool_result, somes, first_some, with_warning, ids,
}

-- The lists of a device's result; its warnings are beside them and are not taken.
abbrev inner : Option ImpactResult → Dependencies
inner none = no_dependencies
inner (some result) = record { lists = result.lists; warnings = [] }

abbrev pub entities_in : Option ImpactResult → List (Option String)
entities_in none = []
entities_in (some result) = result.affected_entities

abbrev all_entities : List ToolResult → List (Option String)
all_entities [] = []
all_entities (r ∷ rs) = entities_in r.result ++ all_entities rs

abbrev unknown_scope : Exception
unknown_scope = record { class = ErrorClass.value_error; message = "Unknown impact analysis scope" }

-- `count_results` of a result: the length of its first list.
abbrev counted : Option ImpactResult → ℕ
counted none = 0
counted (some result) = length result.affected_entities

abbrev result_has : Option ImpactResult → Bool
result_has none = false
result_has (some result) = result.has_dependencies

abbrev audit_of : String → Result ToolResult → AuditRecord
audit_of scope (err e) = record {
  scope = scope;
  status = "error";
  result_count = 0;
  error_category = some e.class;
  has_dependencies = false;
}
audit_of scope (ok r) = record {
  scope = scope;
  status = if str_eq r.result_type "not_found" then "not_found" else "resolved";
  result_count = if str_eq r.result_type "not_found" then 0 else counted r.result;
  error_category = none;
  has_dependencies = result_has r.result;
}

abbrev after_audit : Result ToolResult → Result (Unit {0}) → Result ToolResult
after_audit r (ok u) = r
after_audit r (err e) = err e

module _ {W : Type 0} (graph : Graph W) where
  unfoldable pub entity_dependencies : Option String → Action W Dependencies
  unfolding limit_lists
  entity_dependencies entity_id = do rows ← graph.dependents entity_id; pure (limit_lists rows)

  -- `asyncio.gather` of the calls for each node, here one after the other.
  unfoldable pub gather_dependencies : List Properties → Action W (List Dependencies)
  unfolding entity_dependencies
  gather_dependencies [] = pure []
  gather_dependencies (node ∷ nodes) = do
    dependencies ← entity_dependencies node.ha_id
    rest ← gather_dependencies nodes
    pure (dependencies ∷ rest)

  abbrev entity_found : Option String → Option Properties → Action W ToolResult
  entity_found target none = pure (not_found_result target)
  entity_found target (some entity) = do
    dependencies ← entity_dependencies entity.ha_id
    pure (tool_result target (build_result "entity" [] [] dependencies none) dependencies)

  unfoldable pub analyze_entity : Option String → Action W ToolResult
  unfolding entity_dependencies build_result
  analyze_entity target = do entity ← graph.resolve_node "Entity" target; entity_found target entity

  abbrev device_found : Option String → Option Properties → Action W ToolResult
  device_found target none = pure (not_found_result target)
  device_found target (some device) = do
    rows ← graph.entities_of_device device.ha_id
    let entities = somes (map (λ (row : EntityRow). row.entity) (take default_query_limit rows))
    let current_area = first_some (map (λ (row : EntityRow). row.area) rows)
    found ← gather_dependencies entities
    let merged =
        with_warning (ltb default_query_limit (length rows))
          "affected entities truncated to 100 items" (merge_dependencies found)
    pure (tool_result target (build_result "device" (ids entities) [] merged current_area) merged)

  unfoldable pub analyze_device : Option String → Action W ToolResult
  unfolding gather_dependencies build_result merge_dependencies
  analyze_device target = do device ← graph.resolve_node "Device" target; device_found target device

  unfoldable pub gather_devices : List Properties → Action W (List ToolResult)
  unfolding analyze_device
  gather_devices [] = pure []
  gather_devices (device ∷ devices) = do
    result ← analyze_device device.ha_id
    rest ← gather_devices devices
    pure (result ∷ rest)

  abbrev area_found : Option String → Option Properties → Action W ToolResult
  area_found target none = pure (not_found_result target)
  area_found target (some area) = do
    device_rows ← graph.devices_of_area area.ha_id
    let devices = take default_query_limit (somes device_rows)
    results ← gather_devices devices
    direct_rows ← graph.entities_of_area area.ha_id
    let direct = somes (take default_query_limit direct_rows)
    found ← gather_dependencies direct
    let merged =
        with_warning (ltb default_query_limit (length direct_rows))
          "direct entities truncated to 100 items"
          (with_warning (ltb default_query_limit (length device_rows))
            "affected devices truncated to 100 items"
            (merge_dependencies (map (λ (r : ToolResult). inner r.result) results ++ found)))
    let affected = graph.sorted_set (all_entities results ++ ids direct)
    pure (tool_result target (build_result "area" affected (ids devices) merged none) merged)

  unfoldable pub analyze_area : Option String → Action W ToolResult
  unfolding gather_dependencies gather_devices build_result merge_dependencies
  analyze_area target = do area ← graph.resolve_node "Area" target; area_found target area

  abbrev analyze_scope : String → Option String → Action W ToolResult
  analyze_scope scope target =
      if str_eq scope "entity"
      then analyze_entity target
      else if str_eq scope "device"
      then analyze_device target
      else if str_eq scope "area"
      then analyze_area target
      else raise unknown_scope

  -- With the audit, when Home Assistant and the entry are given.
  unfoldable pub analyze : Bool → String → Option String → Action W ToolResult
  unfolding analyze_entity analyze_device analyze_area
  analyze false scope target w = analyze_scope scope target w
  analyze true scope target w =
      let (r, w') = analyze_scope scope target w in
      let (a, w'') = graph.append_record (audit_of scope r) w' in (after_audit r a, w'')
