-- ===== src/GraphBuilder/Updates.antt =====
-- The single-element updates of graph_builder.py, and the bulk write of states.
mod Steps
mod Stale
mod Bulk
mod Agree
mod Tests
mod Areas
use hass_ontology_fix.Common.{
  ℕ, String, Bool, true, false, Option, none, some, List, [], ◌∷◌, ◌++◌, map, filter, is_some,
  if◌then◌else◌,
}
use hass_ontology_fix.Common.Dict.{Dict}
use hass_ontology_fix.Common.Errors.{Exception, Action, ◌>>=◌, ◌>>◌, pure}
use hass_ontology_fix.Common.Json.{Json, Fields}
use hass_ontology_fix.Classify.Home.{truthy}
use hass_ontology_fix.GraphBuilder.{chunks}
use hass_ontology_fix.GraphBuilder.Labels.{
  label_home, label_floor, label_area, label_device, label_entity, label_domain, label_integration,
  label_label, rel_has_area, rel_on_floor, rel_has_device, rel_has_entity, rel_in_domain,
  rel_provided_by, rel_has_label, home_singleton_id,
}
use hass_ontology_fix.GraphBuilder.Graph.{
  Content, PropertyGraph, put_node, cut_areas, apply_all, blank, send, write, merge_node,
  merge_relationship, delete_node,
}
use hass_ontology_fix.GraphBuilder.Measurement.{Numbers}
use hass_ontology_fix.GraphBuilder.Registry.{
  AreaEntry, DeviceEntry, RegistryEntry, EntityState, EntitySyncContext, Hass, domain_text,
  find_area, get_device, find_entry, find_state,
}
use hass_ontology_fix.GraphBuilder.Discovery.{entity_row}
use hass_ontology_fix.GraphBuilder.Rows.{
  WrittenEntity, area_fields, device_fields, entity_change, entity_step, is_own_entity, named,
}

-- The rows of `_ENTITY_STATE_BULK_QUERY`: an entity without a node matches nothing.
abbrev pub is_present : Content → WrittenEntity → Bool
is_present c r = is_some (c.nodes (record { label = label_entity; ha_id = r.ha_id }))

abbrev pub write_states : List WrittenEntity → Content → List String × Content
write_states rows c =
    let found = filter (is_present c) rows in
    (map (λ r. r.ha_id) found, apply_all c (map entity_step found))

module _ (errors : ℕ → Option Exception) where
  abbrev Write : Type 0
  Write = Action PropertyGraph (Unit {0})

  unfoldable pub label_each : String → List String → Write
  label_each entity_id [] = pure tt
  label_each entity_id (label_id ∷ rest) =
      merge_relationship errors label_entity entity_id rel_has_label label_label label_id
      >> label_each entity_id rest

  abbrev pub link_device : String → Option String → Write
  link_device entity_id none = pure tt
  link_device entity_id (some device_id) =
      merge_relationship errors label_device device_id rel_has_entity label_entity entity_id

  abbrev pub link_area : String → Option String → Write
  link_area entity_id none = pure tt
  link_area entity_id (some area_id) =
      merge_relationship errors label_entity entity_id rel_has_area label_area area_id

  abbrev pub link_platform : String → Option String → Write
  link_platform entity_id none = pure tt
  link_platform entity_id (some platform) =
      merge_node errors label_integration platform (named platform)
      >> merge_relationship errors label_entity entity_id rel_provided_by label_integration platform

  -- The part below `if entry is None`.
  abbrev pub link_entry : String → Option RegistryEntry → Write
  link_entry entity_id none = pure tt
  link_entry entity_id (some entry) = do
    link_device entity_id (truthy entry.device_id)
    write errors (cut_areas entity_id ∷ [])
    link_area entity_id (truthy entry.area_id)
    link_platform entity_id (truthy (some entry.platform))
    label_each entity_id entry.labels

  abbrev area_of_device : DeviceEntry → Option String → Write
  area_of_device device none = pure tt
  area_of_device device (some area_id) =
      merge_relationship errors label_area area_id rel_has_device label_device device.id

  abbrev write_device : String → Option DeviceEntry → Write
  write_device device_id none = delete_node errors label_device device_id
  write_device device_id (some device) =
      merge_node errors label_device device.id (device_fields device)
      >> area_of_device device (truthy device.area_id)

  unfoldable pub update_device : {Time : Type 0} → Hass Time → String → Write
  update_device hass device_id = write_device device_id (get_device device_id hass.devices)

  abbrev floor_of_area : AreaEntry → Option String → Write
  floor_of_area area none = pure tt
  floor_of_area area (some floor_id) =
      merge_relationship errors label_area area.id rel_on_floor label_floor floor_id

  abbrev write_area : String → Option AreaEntry → Write
  write_area area_id none = delete_node errors label_area area_id
  write_area area_id (some area) = do
    merge_node errors label_area area.id (area_fields area)
    merge_relationship errors label_home home_singleton_id rel_has_area label_area area.id
    floor_of_area area (truthy area.floor_id)

  unfoldable pub update_area : {Time : Type 0} → Hass Time → String → Write
  update_area hass area_id = write_area area_id (find_area area_id hass.areas)

  -- The ids of all batches. The source puts them in a set, whose order nothing reads; they are keys of a
  -- dictionary, so none comes twice.
  unfoldable pub send_states : List (List WrittenEntity) → Action PropertyGraph (List String)
  send_states [] = pure []
  send_states (chunk ∷ rest) = do
    first ← send errors (write_states chunk)
    others ← send_states rest
    pure (first ++ others)

module _ {Time F : Type 0} (numbers : Numbers Time F) (json_of_float : F → Json) where
  abbrev pub state_rows : Hass Time → Dict (Option (EntitySyncContext Time)) → List WrittenEntity
  state_rows hass contexts =
      map (λ (id, context). entity_row numbers json_of_float hass id context) contexts

module _ {Time F : Type 0} (numbers : Numbers Time F) (json_of_float : F → Json)
    (errors : ℕ → Option Exception) where
  unfoldable pub write_entity_node_and_relationships :
      Hass Time → String → Option (EntitySyncContext Time) → Action PropertyGraph (Unit {0})
  unfolding label_each
  write_entity_node_and_relationships hass entity_id context = do
    write errors (entity_step (entity_row numbers json_of_float hass entity_id context) ∷ [])
    merge_node errors label_domain (domain_text entity_id) Fields.end
    merge_relationship errors label_entity entity_id rel_in_domain label_domain
        (domain_text entity_id)
    link_entry errors entity_id (find_entry entity_id hass.entities)

  abbrev write_or_delete :
      Option RegistryEntry
      → Option (EntityState Time)
      → Hass Time
      → String
      → Option (EntitySyncContext Time)
      → Action PropertyGraph (Unit {0})
  write_or_delete (some entry) state hass entity_id context =
      if is_own_entity entry
      then pure tt
      else write_entity_node_and_relationships hass entity_id context
  write_or_delete none none hass entity_id context = delete_node errors label_entity entity_id
  write_or_delete none (some state) hass entity_id context =
      write_entity_node_and_relationships hass entity_id context

  unfoldable pub update_entity :
      Hass Time → String → Option (EntitySyncContext Time) → Action PropertyGraph (Unit {0})
  unfolding write_entity_node_and_relationships
  update_entity hass entity_id context =
      write_or_delete (find_entry entity_id hass.entities) (find_state entity_id hass.states) hass
        entity_id context

  unfoldable pub update_entity_states_bulk :
      Hass Time → Dict (Option (EntitySyncContext Time)) → Action PropertyGraph (List String)
  unfolding send_states
  update_entity_states_bulk hass contexts =
      send_states errors (chunks (state_rows numbers json_of_float hass contexts))
