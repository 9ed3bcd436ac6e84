-- ===== src/GraphBuilder/Discovery.antt =====
-- The discovery of graph_builder.py: the `collect_` functions, and the full build over them. The semantic
-- classification and the dashboards of a build are actions on the graph that it is given.
use hass_ontology_fix.Common.{
  ℕ, String, Bool, Option, none, some, List, [], ◌∷◌, map, if◌then◌else◌,
}
use hass_ontology_fix.Common.Errors.{Exception, Action, ◌>>=◌, ◌>>◌, pure, ok}
use hass_ontology_fix.Common.Json.{Json, Fields}
use hass_ontology_fix.GraphBuilder.{
  NodeRow, PairRow, chunks, merge_nodes_bulk, merge_relationships_bulk,
}
use hass_ontology_fix.GraphBuilder.Labels.{
  label_home, label_floor, label_area, label_device, label_entity, label_domain, label_integration,
  label_label, label_automation, label_scene, label_script, rel_has_area, rel_has_floor,
  rel_on_floor, rel_has_device, rel_has_entity, rel_in_domain, rel_provided_by, rel_has_label,
  rel_references, rel_controls, home_singleton_id, source_home_assistant,
}
use hass_ontology_fix.GraphBuilder.Graph.{
  PropertyGraph, Step, cut_areas, write, graph_client, merge_node, merge_relationship,
  ensure_schema_node,
}
use hass_ontology_fix.GraphBuilder.Measurement.{Numbers}
use hass_ontology_fix.GraphBuilder.Registry.{
  EntityState, EntitySyncContext, Hass, entity_node_properties,
}
use hass_ontology_fix.GraphBuilder.Rows.{
  BuildCounts, Collected, WrittenEntity, area_row, collected, counts_of, device_row, domain_pair,
  entity_step, floor_row, home_area, home_floor, label_pairs, label_row, links_by, name_field,
  named, own_entries, pair, referenced_entity_ids, row, state_fields, states_of,
}

module _ (errors : ℕ → Option Exception) where
  abbrev pub Write : Type 0
  Write = Action PropertyGraph (Unit {0})

  abbrev pub nodes_bulk : String → List NodeRow → Write
  nodes_bulk label rows = merge_nodes_bulk (graph_client errors) label rows source_home_assistant

  abbrev pub pairs_bulk : String → String → String → List PairRow → Write
  pairs_bulk from type to pairs =
      merge_relationships_bulk (graph_client errors) from type to pairs source_home_assistant

  -- `for chunk in _chunks(rows)`, one query for each
  unfoldable pub write_chunks : {A : Type 0} → (A → Step) → List (List A) → Write
  write_chunks step [] = pure tt
  write_chunks step (chunk ∷ rest) = write errors (map step chunk) >> write_chunks step rest

  unfoldable pub ensure_home_node : Write
  ensure_home_node =
      merge_node errors label_home home_singleton_id (name_field (Json.string "Home") Fields.end)

  unfoldable pub collect_floors : {Time : Type 0} → Hass Time → Action PropertyGraph (List String)
  collect_floors hass = do
    nodes_bulk label_floor (map floor_row hass.floors)
    pairs_bulk label_home rel_has_floor label_floor (map home_floor hass.floors)
    pure (map (λ f. f.floor_id) hass.floors)

  unfoldable pub collect_areas : {Time : Type 0} → Hass Time → Action PropertyGraph (List String)
  collect_areas hass = do
    nodes_bulk label_area (map area_row hass.areas)
    pairs_bulk label_home rel_has_area label_area (map home_area hass.areas)
    pairs_bulk label_area rel_on_floor label_floor
        (links_by (λ a. a.floor_id) (λ a floor_id. pair a.id floor_id) hass.areas)
    pure (map (λ a. a.id) hass.areas)

  unfoldable pub collect_devices : {Time : Type 0} → Hass Time → Action PropertyGraph (List String)
  collect_devices hass = do
    nodes_bulk label_device (map device_row hass.devices)
    pairs_bulk label_area rel_has_device label_device
        (links_by (λ d. d.area_id) (λ d area_id. pair area_id d.id) hass.devices)
    pure (map (λ d. d.id) hass.devices)

  unfoldable pub collect_labels : {Time : Type 0} → Hass Time → Action PropertyGraph (List String)
  collect_labels hass = do
    nodes_bulk label_label (map label_row hass.labels)
    pure (map (λ l. l.label_id) hass.labels)

  unfoldable pub refer_each : String → String → String → List String → Write
  refer_each label rel_type entity_id [] = pure tt
  refer_each label rel_type entity_id (id ∷ ids) =
      merge_relationship errors label entity_id rel_type label_entity id
      >> refer_each label rel_type entity_id ids

  unfoldable pub refer_states :
      {Time : Type 0} → Hass Time → String → String → String → List (EntityState Time) → Write
  unfolding refer_each referenced_entity_ids
  refer_states hass domain label rel_type [] = pure tt
  refer_states hass domain label rel_type (s ∷ rest) = do
    merge_node errors label s.entity_id (state_fields s)
    refer_each label rel_type s.entity_id (referenced_entity_ids hass domain s.entity_id)
    refer_states hass domain label rel_type rest

  -- `_collect_referencing_domain`, for automations, scenes and scripts
  unfoldable pub collect_referencing_domain :
      {Time : Type 0} → Hass Time → String → String → String → Action PropertyGraph (List String)
  unfolding refer_states
  collect_referencing_domain hass domain label rel_type = do
    refer_states hass domain label rel_type (states_of hass domain)
    pure (map (λ s. s.entity_id) (states_of hass domain))

  -- `collect_domains` and `collect_integrations`, given the names in the order of the set: a node for each
  unfoldable pub merge_names : String → (String → Fields) → List String → Write
  merge_names label fields [] = pure tt
  merge_names label fields (id ∷ ids) =
      merge_node errors label id (fields id) >> merge_names label fields ids

module _ {Time F : Type 0} (numbers : Numbers Time F) (json_of_float : F → Json) where
  abbrev pub entity_row : Hass Time → String → Option (EntitySyncContext Time) → WrittenEntity
  entity_row hass entity_id context =
      let (props, measurement) =
        entity_node_properties numbers json_of_float hass entity_id context in
      record { ha_id = entity_id; properties = props; measurement_properties = measurement }

module _ {Time F : Type 0} (numbers : Numbers Time F) (json_of_float : F → Json)
    (errors : ℕ → Option Exception) where
  unfoldable pub collect_entities : Hass Time → Action PropertyGraph Collected
  unfolding write_chunks
  collect_entities hass = do
    let entries = own_entries hass
    let all = collected entries
    write_chunks errors entity_step
        (chunks (map (λ e. entity_row numbers json_of_float hass e.entity_id none) entries))
    nodes_bulk errors label_domain (map (λ d. row d Fields.end) all.domains)
    nodes_bulk errors label_integration (map (λ i. row i (named i)) all.integrations)
    pairs_bulk errors label_entity rel_in_domain label_domain (map domain_pair entries)
    pairs_bulk errors label_device rel_has_entity label_entity
        (links_by (λ e. e.device_id) (λ e device_id. pair device_id e.entity_id) entries)
    write_chunks errors cut_areas (chunks all.entity_ids)
    pairs_bulk errors label_entity rel_has_area label_area
        (links_by (λ e. e.area_id) (λ e area_id. pair e.entity_id area_id) entries)
    pairs_bulk errors label_entity rel_provided_by label_integration
        (links_by (λ e. some e.platform) (λ e platform. pair e.entity_id platform) entries)
    pairs_bulk errors label_entity rel_has_label label_label (label_pairs entries)
    pure all

  -- The part of `build_full_graph` above the classification.
  unfoldable pub discover : Hass Time → String → Action PropertyGraph BuildCounts
  unfolding collect_floors collect_areas collect_devices collect_labels collect_entities
      collect_referencing_domain merge_names
  discover hass version = do
    ensure_home_node errors
    collect_floors errors hass
    collect_areas errors hass
    collect_devices errors hass
    collect_labels errors hass
    all ← collect_entities hass
    merge_names errors label_domain (λ d. Fields.end) (hass.set_order all.domains)
    merge_names errors label_integration named (hass.set_order all.integrations)
    automations ←
        collect_referencing_domain errors hass "automation" label_automation rel_references
    scenes ← collect_referencing_domain errors hass "scene" label_scene rel_controls
    scripts ← collect_referencing_domain errors hass "script" label_script rel_references
    ensure_schema_node errors version
    pure (counts_of all automations scenes scripts)

  -- What the dashboards raise is logged.
  abbrev log_failure : Action PropertyGraph (Unit {0}) → Action PropertyGraph (Unit {0})
  log_failure m g = let (_, g') = m g in (ok tt, g')

  unfoldable pub build_full_graph :
      Action PropertyGraph ℕ
      → Action PropertyGraph (Unit {0})
      → Hass Time
      → String
      → Bool
      → Action PropertyGraph BuildCounts
  unfolding discover
  build_full_graph classify sync_dashboards hass version auto_classify = do
    found ← discover hass version
    classified ← if auto_classify then classify else pure 0
    log_failure sync_dashboards
    pure (record found { classified = classified })
