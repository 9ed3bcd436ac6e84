-- ===== src/Impact.antt =====
-- impact_analysis.py: what depends on an entity, on a device's entities, on an area's. The queries are an
-- interface, with nodes as the properties that are read.
pub mod Merge
pub mod Analyze
mod Distinct
mod Tests
use hass_ontology_fix.Common.{
  ℕ, suc, ◌++◌, ltb, String, Bool, true, false, ◌&&◌, ◌||◌, Option, none, some, List, [], ◌∷◌, map,
  any, take, length, is_some, str_eq, if◌then◌else◌,
}
use hass_ontology_fix.Common.Errors.{
  Exception, ErrorClass, Result, ok, err, Action, ◌>>=◌, ◌>>◌, pure, raise,
}
use hass_ontology_fix.Redact.{redact_text}
use hass_ontology_fix.QueryService.{default_query_limit}
use hass_ontology_fix.Impact.Merge.{
  Key, Ref, Properties, Dependencies, keys, node_ref, no_dependencies, merge_dependencies,
  limit_lists,
}

pub record ImpactResult : Type 0 where
  pub scope : String
  pub affected_entities : List (Option String)
  pub affected_devices : List (Option String)
  pub lists : Key → List Ref
  pub has_dependencies : Bool
  pub current_area : Option Ref

pub record ToolResult : Type 0 where
  pub target : Option String
  pub result_type : String
  pub outcome : String
  pub result : Option ImpactResult
  pub warnings : List String

-- An entity of a device with the area of the device.
pub record EntityRow : Type 0 where
  pub entity : Option Properties
  pub area : Option Properties

-- The audit record of a call.
pub record AuditRecord : Type 0 where
  pub scope : String
  pub status : String
  pub result_count : ℕ
  pub error_category : Option ErrorClass
  pub has_dependencies : Bool

pub record Graph (W : Type 0) : Type 0 where
  -- label, id or name
  pub resolve_node : String → Option String → Action W (Option Properties)
  pub dependents : Option String → Action W (List (Key → List (Option Properties)))
  pub entities_of_device : Option String → Action W (List EntityRow)
  pub devices_of_area : Option String → Action W (List (Option Properties))
  pub entities_of_area : Option String → Action W (List (Option Properties))
  pub append_record : AuditRecord → Action W (Unit {0})
  -- `sorted(set(ids))`
  pub sorted_set : List (Option String) → List (Option String)

-- `redact_value` of texts, optional texts and the parts of a result; no key of it names a secret.
abbrev pub redact_optional : Option String → Option String
redact_optional none = none
redact_optional (some s) = some (redact_text s)

abbrev pub redact_ref : Ref → Ref
redact_ref r = record { ha_id = redact_optional r.ha_id; name = redact_optional r.name }

abbrev pub redact_area : Option Ref → Option Ref
redact_area none = none
redact_area (some r) = some (redact_ref r)

abbrev pub redact_result : ImpactResult → ImpactResult
redact_result r = record {
  scope = redact_text r.scope;
  affected_entities = map redact_optional r.affected_entities;
  affected_devices = map redact_optional r.affected_devices;
  lists = λ key. map redact_ref (r.lists key);
  has_dependencies = r.has_dependencies;
  current_area = redact_area r.current_area;
}

-- `build_tool_result` with the outcome OUTCOME_OK.
abbrev pub build_tool_result : Option String → ImpactResult → List String → ToolResult
build_tool_result target result warnings = record {
  target = redact_optional target;
  result_type = "impact_analysis";
  outcome = "ok";
  result = some (redact_result result);
  warnings = map redact_text warnings;
}

abbrev pub not_found_result : Option String → ToolResult
not_found_result target = record {
  target = redact_optional target;
  result_type = "not_found";
  outcome = "not_found";
  result = none;
  warnings = [];
}

abbrev pub has_items : {A : Type 0} → List A → Bool
has_items [] = false
has_items (x ∷ xs) = true

abbrev pub area_ref : Option Properties → Option Ref
area_ref none = none
area_ref (some p) = some (node_ref p)

unfoldable pub build_result :
    String
    → List (Option String)
    → List (Option String)
    → Dependencies
    → Option Properties
    → ImpactResult
build_result scope affected_entities affected_devices dependencies current_area = record {
  scope = scope;
  affected_entities = affected_entities;
  affected_devices = affected_devices;
  lists = dependencies.lists;
  has_dependencies = any (λ key. has_items (dependencies.lists key)) keys;
  current_area = area_ref current_area;
}

abbrev pub warnings_for : ImpactResult → Dependencies → List String
warnings_for result dependencies =
    if result.has_dependencies
    then dependencies.warnings
    else dependencies.warnings ++ ("no known dependencies found" ∷ [])

abbrev pub tool_result : Option String → ImpactResult → Dependencies → ToolResult
tool_result target result dependencies =
    build_tool_result target result (warnings_for result dependencies)

abbrev pub somes : {A : Type 0} → List (Option A) → List A
somes [] = []
somes (none ∷ xs) = somes xs
somes (some x ∷ xs) = x ∷ somes xs

abbrev pub first_some : {A : Type 0} → List (Option A) → Option A
first_some [] = none
first_some (none ∷ xs) = first_some xs
first_some (some x ∷ xs) = some x

abbrev pub with_warning : Bool → String → Dependencies → Dependencies
with_warning false warning d = d
with_warning true warning d = record d { warnings = d.warnings ++ (warning ∷ []) }

abbrev pub ids : List Properties → List (Option String)
ids nodes = map (λ (p : Properties). p.ha_id) nodes
