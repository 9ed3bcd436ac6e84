-- ===== src/GraphBuilder/Updates/Steps.antt =====
-- The single writes that the update of an entity comes to.
use hass_ontology_fix.Common.{ℕ, ◌≡◌, refl, String, false, Option, none, some, List, [], ◌∷◌, ◌++◌}
use hass_ontology_fix.Common.Errors.{Exception}
use hass_ontology_fix.Common.Json.{Json, Fields}
use hass_ontology_fix.Classify.Home.{truthy}
use hass_ontology_fix.GraphBuilder.Labels.{
  label_area, label_device, label_entity, label_domain, label_integration, label_label,
  rel_has_area, rel_has_entity, rel_in_domain, rel_provided_by, rel_has_label,
  source_home_assistant,
}
use hass_ontology_fix.GraphBuilder.Graph.{
  Step, cut_areas, pair_step, merge_node, merge_relationship,
}
use hass_ontology_fix.GraphBuilder.Measurement.{Numbers}
use hass_ontology_fix.GraphBuilder.Registry.{
  Hass, RegistryEntry, EntitySyncContext, domain_text, find_entry,
}
use hass_ontology_fix.GraphBuilder.Discovery.{entity_row}
use hass_ontology_fix.GraphBuilder.Rows.{pair, entity_step, is_own_entity, named}
use hass_ontology_fix.GraphBuilder.Updates.{
  label_each, link_device, link_area, link_platform, link_entry,
  write_entity_node_and_relationships, update_entity,
}
use hass_ontology_fix.GraphBuilder.Plan.{node}
use hass_ontology_fix.GraphBuilder.Writes.{
  Writes, then-Writes, pure-Writes, write-Writes, calls-Writes,
}
use hass_ontology_fix.GraphBuilder.Calls.{stage, merge_node-Writes, merge_relationship-Writes}

abbrev pub edge : String → String → String → String → String → Step
edge from from_id type to to_id = pair_step from type to source_home_assistant (pair from_id to_id)

module _ (id : String) where
  abbrev pub device_steps : Option String → List Step
  device_steps none = []
  device_steps (some device_id) = edge label_device device_id rel_has_entity label_entity id ∷ []

  abbrev pub area_steps : Option String → List Step
  area_steps none = []
  area_steps (some area_id) = edge label_entity id rel_has_area label_area area_id ∷ []

  abbrev pub platform_steps : Option String → List Step
  platform_steps none = []
  platform_steps (some platform) =
      node label_integration platform (named platform)
      ∷ edge label_entity id rel_provided_by label_integration platform
      ∷ []

  abbrev pub label_steps : List String → List Step
  label_steps [] = []
  label_steps (l ∷ labels) = edge label_entity id rel_has_label label_label l ∷ label_steps labels

  module _ (errors : ℕ → Option Exception) where
    link_device-Writes :
        (o : Option String) → Writes errors (link_device errors id o) tt (device_steps o)
    link_device-Writes none = pure-Writes tt
    link_device-Writes (some device_id) =
        merge_relationship-Writes errors label_device device_id rel_has_entity label_entity id refl
          refl refl

    link_area-Writes : (o : Option String) → Writes errors (link_area errors id o) tt (area_steps o)
    link_area-Writes none = pure-Writes tt
    link_area-Writes (some area_id) =
        merge_relationship-Writes errors label_entity id rel_has_area label_area area_id refl refl
          refl

    link_platform-Writes :
        (o : Option String) → Writes errors (link_platform errors id o) tt (platform_steps o)
    link_platform-Writes none = pure-Writes tt
    link_platform-Writes (some platform) =
        then-Writes errors (merge_node errors label_integration platform (named platform)) _ tt _ _
          (merge_node-Writes errors label_integration platform (named platform) refl)
          (merge_relationship-Writes errors label_entity id rel_provided_by label_integration
            platform refl refl refl)

    label_each-Writes :
        (labels : List String) → Writes errors (label_each errors id labels) tt (label_steps labels)
    unfolding label_each
    label_each-Writes [] = pure-Writes tt
    label_each-Writes (l ∷ labels) =
        then-Writes errors (merge_relationship errors label_entity id rel_has_label label_label l) _
          tt _ _
          (merge_relationship-Writes errors label_entity id rel_has_label label_label l refl refl
            refl)
          (label_each-Writes labels)

  -- What is written before the areas are cut, and after they are put.
  abbrev pub before_areas : Step → RegistryEntry → List Step
  before_areas first entry =
      first
      ∷ node label_domain (domain_text id) Fields.end
      ∷ edge label_entity id rel_in_domain label_domain (domain_text id)
      ∷ device_steps (truthy entry.device_id)

  abbrev pub after_areas : RegistryEntry → List Step
  after_areas entry = platform_steps (truthy (some entry.platform)) ++ label_steps entry.labels

module _ {Time F : Type 0} (numbers : Numbers Time F) (json_of_float : F → Json) (hass : Hass Time)
    (id : String) (context : Option (EntitySyncContext Time)) where
  abbrev pub first : Step
  first = entity_step (entity_row numbers json_of_float hass id context)

module _ {Time F : Type 0} (numbers : Numbers Time F) (json_of_float : F → Json)
    (errors : ℕ → Option Exception) (hass : Hass Time) (id : String)
    (context : Option (EntitySyncContext Time)) (entry : RegistryEntry)
    (here : find_entry id hass.entities ≡ some entry) where
  link_entry-Writes : Writes errors (link_entry errors id (some entry)) tt (
      device_steps id (truthy entry.device_id)
      ++ (cut_areas id ∷ (area_steps id (truthy entry.area_id) ++ after_areas id entry)))
  link_entry-Writes =
      calls-Writes
        (stage _ (link_device-Writes id errors (truthy entry.device_id))
          ∷ stage _ (write-Writes errors (cut_areas id ∷ []))
          ∷ stage _ (link_area-Writes id errors (truthy entry.area_id))
          ∷ stage _ (link_platform-Writes id errors (truthy (some entry.platform)))
          ∷ [])
        (label_each errors id entry.labels) tt (label_steps id entry.labels)
        (label_each-Writes id errors entry.labels)

  pub update_entity-Writes :
      is_own_entity entry ≡ false
      → Writes errors (update_entity numbers json_of_float errors hass id context) tt (
          before_areas id (first numbers json_of_float hass id context) entry
          ++ (cut_areas id ∷ (area_steps id (truthy entry.area_id) ++ after_areas id entry)))
  unfolding update_entity write_entity_node_and_relationships
  update_entity-Writes not_own = rw here (
      rw not_own (
        rw here (
          calls-Writes
            (stage _ (write-Writes errors (first numbers json_of_float hass id context ∷ []))
              ∷ stage _ (merge_node-Writes errors label_domain (domain_text id) Fields.end refl)
              ∷ stage _ (
                  merge_relationship-Writes errors label_entity id rel_in_domain label_domain
                    (domain_text id) refl refl refl)
              ∷ [])
            (link_entry errors id (some entry)) tt _ link_entry-Writes)))
