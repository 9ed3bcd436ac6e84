-- ===== src/GraphBuilder/Updates/Tests.antt =====
-- A home with a hall, a yard, a lamp that moved to the yard and the device it is on.
use hass_ontology_fix.Common.{
  ℕ, ◌≡◌, refl, ◌⊎◌, String, true, false, ◌&&◌, ◌||◌, Option, none, some, is_some, List, [], ◌∷◌,
  ◌++◌, map, str_eq, Bool, if◌then◌else◌,
}
use hass_ontology_fix.Common.Errors.{Exception, Result, ok, err, ◌>>◌}
use hass_ontology_fix.Common.Json.{Json, Fields}
use hass_ontology_fix.Common.Dict.{Dict}
use hass_ontology_fix.GraphBuilder.{chunks, merge_nodes_bulk, merge_relationships_bulk}
use hass_ontology_fix.GraphBuilder.Labels.{rel_has_area, rel_has_device}
use hass_ontology_fix.GraphBuilder.Graph.{
  NodeKey, is_ref, Properties, PropertyGraph, Step, apply_all, assign, with_source,
  clear_generated_graph, write, send, merge_node, merge_relationship, ensure_schema_node,
}
use hass_ontology_fix.GraphBuilder.Measurement.{Numbers}
use hass_ontology_fix.GraphBuilder.Registry.{
  Hass, AreaEntry, DeviceEntry, RegistryEntry, EntitySyncContext,
}
use hass_ontology_fix.GraphBuilder.Discovery.{discover, ensure_home_node}
use hass_ontology_fix.GraphBuilder.Rows.{entity_step}
use hass_ontology_fix.GraphBuilder.Updates.{
  update_entity, update_device, update_entity_states_bulk, state_rows,
}
use hass_ontology_fix.GraphBuilder.Updates.Areas.{entity, area, update_entity_areas_exact}
use hass_ontology_fix.GraphBuilder.Updates.Stale.{device, update_device_areas_exact}
use hass_ontology_fix.GraphBuilder.Updates.Agree.{bulk_agrees}
use hass_ontology_fix.GraphBuilder.Updates.Bulk.{matched, update_entity_states_bulk_exact}
use hass_ontology_fix.GraphBuilder.Plan.{discovery_plan, found}
use hass_ontology_fix.GraphBuilder.Writes.{AreAnswered, RaisesLast}
use hass_ontology_fix.GraphBuilder.Rows.{BuildCounts}
use hass_ontology_fix.GraphBuilder.Made.{discover_exact}
use hass_ontology_fix.GraphBuilder.Kept.{rebuild_keeps_unowned}
use hass_ontology_fix.GraphBuilder.Found.{discover_finds}

abbrev numbers : Numbers ℕ ℕ
numbers = record {
  float = λ s. none;
  is_finite = λ v. true;
  is_percentage = λ v. true;
  thousandfold = λ v. v;
  isoformat = λ t. "now";
  timestamp = λ t. t;
}

abbrev to_json : ℕ → Json
to_json n = Json.null

abbrev answered : ℕ → Option Exception
answered n = none

abbrev lamp : RegistryEntry
lamp = record {
  entity_id = "light.lamp";
  platform = "hue";
  name = none;
  device_id = some "d1";
  area_id = some "yard";
  labels = [];
}

abbrev bridge_device : DeviceEntry
bridge_device = record {
  id = "d1";
  name_by_user = none;
  name = some "Lamp";
  manufacturer = Json.null;
  model = Json.null;
  area_id = some "yard";
}

abbrev area_entry : String → AreaEntry
area_entry id = record { id = id; name = Json.string id; icon = Json.null; floor_id = none }

abbrev home : Hass ℕ
home = record {
  floors = [];
  areas = area_entry "hall" ∷ area_entry "yard" ∷ [];
  devices = bridge_device ∷ [];
  labels = [];
  entities = lamp ∷ [];
  states = [];
  entities_in_automation = λ id. [];
  entities_in_script = λ id. [];
  set_order = λ names. names;
}

abbrev owned : Properties
owned = assign (with_source "home_assistant" Fields.end) (λ key. Json.null)

abbrev users : Properties
users = assign (with_source "user" Fields.end) (λ key. Json.null)

abbrev wall : NodeKey
wall = record { label = "Wall"; ha_id = "w1" }

abbrev is_listed : NodeKey → List NodeKey → Bool
is_listed r [] = false
is_listed r (x ∷ xs) = is_ref r x || is_listed r xs

-- The device, the lamp and the areas, all in the hall, and a wall that the user drew.
abbrev graph : PropertyGraph
graph = record {
  content = record {
    nodes = λ r.
        if is_ref r wall
        then some users
        else if is_listed r (area "hall" ∷ area "yard" ∷ device "d1" ∷ entity "light.lamp" ∷ [])
        then some owned
        else none;
    edges = λ t a b.
        if str_eq t rel_has_device && is_ref a (area "hall") && is_ref b (device "d1")
        then some owned
        else if str_eq t rel_has_area && is_ref a (entity "light.lamp") && is_ref b (area "hall")
        then some owned
        else none;
  };
  sent = 0;
}

update_entity_areas_exact_example :
    is_some (
      (update_entity numbers to_json answered home "light.lamp" none graph).1.content.edges
        rel_has_area
        (entity "light.lamp")
        (area "yard"))
    ≡ true
unfolding update_entity write merge_node merge_relationship
update_entity_areas_exact_example =
    update_entity_areas_exact numbers to_json answered home "light.lamp" none lamp graph "yard" refl
      refl refl

update_device_areas_exact_example :
    is_some (
      (update_device answered home "d1" graph).1.content.edges rel_has_device
        (area "hall")
        (device "d1"))
    ≡ true
unfolding update_device merge_node merge_relationship
update_device_areas_exact_example =
    update_device_areas_exact answered home bridge_device "d1" graph "hall" refl refl

abbrev contexts : Dict (Option (EntitySyncContext ℕ))
contexts = ("light.lamp", none) ∷ ("light.new", none) ∷ []

abbrev bulk : Result (List String) × PropertyGraph
bulk = update_entity_states_bulk numbers to_json answered home contexts graph

update_entity_states_bulk_exact_example :
    (bulk.0 ≡ ok ("light.lamp" ∷ []))
    × (bulk.1.content
        ≡ apply_all graph.content
            (map entity_step (matched graph.content (state_rows numbers to_json home contexts))))
unfolding update_entity_states_bulk chunks send
update_entity_states_bulk_exact_example =
    update_entity_states_bulk_exact numbers to_json answered home contexts graph refl

discover_finds_example :
    is_some
      ((discover numbers to_json answered home "1" graph).1.content.nodes (entity "light.lamp"))
    ≡ true
unfolding discover ensure_home_node merge_node merge_nodes_bulk merge_relationships_bulk
    ensure_schema_node
discover_finds_example =
    discover_finds numbers to_json home "1" (entity "light.lamp") answered graph refl refl

rebuild_keeps_unowned_example :
    ((clear_generated_graph answered >> discover numbers to_json answered home "1")
        graph).1.content.nodes
      wall
    ≡ some users
rebuild_keeps_unowned_example =
    rebuild_keeps_unowned numbers to_json answered home "1" wall users graph refl refl refl

abbrev discovered : Result BuildCounts × PropertyGraph
discovered = discover numbers to_json answered home "1" graph

discover_exact_example :
    ((discovered.0 ≡ ok (found home))
      × (discovered.1.content ≡ apply_all graph.content (discovery_plan numbers to_json home "1"))
      × AreAnswered answered graph.sent discovered.1.sent)
    ⊎ ((e : Exception) × (done : List Step) × (rest : List Step) × (discovered.0 ≡ err e)
        × (done ++ rest ≡ discovery_plan numbers to_json home "1")
        × (discovered.1.content ≡ apply_all graph.content done)
        × RaisesLast answered e graph.sent discovered.1.sent)
discover_exact_example = discover_exact numbers to_json answered home "1" graph

bulk_agrees_example :
    let full = update_entity numbers to_json answered home "light.lamp" none graph in
    let written =
      update_entity_states_bulk numbers to_json answered home (("light.lamp", none) ∷ []) graph in
    (written.1.content.nodes (entity "light.lamp") ≡ full.1.content.nodes (entity "light.lamp"))
    × (written.1.content.edges ≡ graph.content.edges)
unfolding update_entity write merge_node merge_relationship update_entity_states_bulk chunks send
bulk_agrees_example =
    bulk_agrees numbers to_json answered home "light.lamp" none lamp graph refl refl refl refl refl
