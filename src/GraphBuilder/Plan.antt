-- ===== src/GraphBuilder/Plan.antt =====
-- The single writes that discovery comes to, in order.
use hass_ontology_fix.Common.{String, none, some, List, [], ◌∷◌, ◌++◌, map}
use hass_ontology_fix.Common.Json.{Json, Fields}
use hass_ontology_fix.GraphBuilder.{NodeRow, PairRow}
use hass_ontology_fix.GraphBuilder.Chunks.{concat}
use hass_ontology_fix.GraphBuilder.Labels.{
  label_home, label_floor, label_area, label_device, label_entity, label_domain, label_integration,
  label_label, label_automation, label_scene, label_script, rel_has_area, rel_has_floor,
  rel_on_floor, rel_has_device, rel_has_entity, rel_in_domain, rel_provided_by, rel_has_label,
  rel_references, rel_controls, home_singleton_id, source_home_assistant,
}
use hass_ontology_fix.GraphBuilder.Graph.{
  Step, put_node, cut_areas, node_step, pair_step, schema_ref, versioned,
}
use hass_ontology_fix.GraphBuilder.Measurement.{Numbers}
use hass_ontology_fix.GraphBuilder.Registry.{Hass, EntityState}
use hass_ontology_fix.GraphBuilder.Discovery.{entity_row}
use hass_ontology_fix.GraphBuilder.Rows.{
  row, pair, area_row, device_row, home_floor, home_area, state_fields, links_by, label_pairs,
  floor_row, label_row, entity_step, domain_pair, named, referenced_entity_ids, Collected,
  collected, own_entries, states_of, BuildCounts, counts_of,
}

abbrev pub nodes : String → List NodeRow → List Step
nodes label rows = map (node_step label source_home_assistant) rows

abbrev pub pairs : String → String → String → List PairRow → List Step
pairs from type to rows = map (pair_step from type to source_home_assistant) rows

abbrev pub node : String → String → Fields → Step
node label id fields = node_step label source_home_assistant (row id fields)

abbrev pub each_node : String → (String → Fields) → List String → List Step
each_node label fields [] = []
each_node label fields (id ∷ ids) = node label id (fields id) ∷ each_node label fields ids

abbrev pub refer_plan : String → String → String → List String → List Step
refer_plan label type id [] = []
refer_plan label type id (other ∷ others) =
    pair_step label type label_entity source_home_assistant (pair id other)
    ∷ refer_plan label type id others

module _ {Time : Type 0} (hass : Hass Time) where
  unfoldable pub states_plan : String → String → String → List (EntityState Time) → List Step
  unfolding referenced_entity_ids
  states_plan domain label type [] = []
  states_plan domain label type (s ∷ rest) =
      node label s.entity_id (state_fields s)
        ∷ refer_plan label type s.entity_id (referenced_entity_ids hass domain s.entity_id)
      ++ states_plan domain label type rest

  abbrev pub floors_plan : List Step
  floors_plan = concat (
      nodes label_floor (map floor_row hass.floors)
      ∷ pairs label_home rel_has_floor label_floor (map home_floor hass.floors)
      ∷ [])

  abbrev pub areas_plan : List Step
  areas_plan = concat (
      nodes label_area (map area_row hass.areas)
      ∷ pairs label_home rel_has_area label_area (map home_area hass.areas)
      ∷ pairs label_area rel_on_floor label_floor
          (links_by (λ a. a.floor_id) (λ a i. pair a.id i) hass.areas)
      ∷ [])

  abbrev pub devices_plan : List Step
  devices_plan = concat (
      nodes label_device (map device_row hass.devices)
      ∷ pairs label_area rel_has_device label_device
          (links_by (λ d. d.area_id) (λ d i. pair i d.id) hass.devices)
      ∷ [])

  abbrev pub labels_plan : List Step
  labels_plan = nodes label_label (map label_row hass.labels) ++ []

  abbrev pub all : Collected
  all = collected (own_entries hass)

  unfoldable pub referring : String → String → String → List Step
  unfolding states_plan
  referring domain label type = states_plan domain label type (states_of hass domain) ++ []

  abbrev pub ids_of : String → List String
  ids_of domain = map (λ s. s.entity_id) (states_of hass domain)

  abbrev pub found : BuildCounts
  found = counts_of all (ids_of "automation") (ids_of "scene") (ids_of "script")

module _ {Time F : Type 0} (numbers : Numbers Time F) (json_of_float : F → Json)
    (hass : Hass Time) where
  abbrev pub entities_plan : List Step
  entities_plan = concat (
      map entity_step
        (map (λ e. entity_row numbers json_of_float hass e.entity_id none) (own_entries hass))
      ∷ nodes label_domain (map (λ d. row d Fields.end) (all hass).domains)
      ∷ nodes label_integration (map (λ i. row i (named i)) (all hass).integrations)
      ∷ pairs label_entity rel_in_domain label_domain (map domain_pair (own_entries hass))
      ∷ pairs label_device rel_has_entity label_entity
          (links_by (λ e. e.device_id) (λ e i. pair i e.entity_id) (own_entries hass))
      ∷ map cut_areas (all hass).entity_ids
      ∷ pairs label_entity rel_has_area label_area
          (links_by (λ e. e.area_id) (λ e i. pair e.entity_id i) (own_entries hass))
      ∷ pairs label_entity rel_provided_by label_integration
          (links_by (λ e. some e.platform) (λ e i. pair e.entity_id i) (own_entries hass))
      ∷ pairs label_entity rel_has_label label_label (label_pairs (own_entries hass))
      ∷ [])

  -- Each list of writes is one call of `discover`.
  unfoldable pub discovery_plan : String → List Step
  discovery_plan version = concat (
      (node label_home home_singleton_id (named "Home") ∷ [])
      ∷ floors_plan hass
      ∷ areas_plan hass
      ∷ devices_plan hass
      ∷ labels_plan hass
      ∷ entities_plan
      ∷ each_node label_domain (λ d. Fields.end) (hass.set_order (all hass).domains)
      ∷ each_node label_integration named (hass.set_order (all hass).integrations)
      ∷ referring hass "automation" label_automation rel_references
      ∷ referring hass "scene" label_scene rel_controls
      ∷ referring hass "script" label_script rel_references
      ∷ (put_node schema_ref (versioned version) ∷ [])
      ∷ [])
