-- ===== src/GraphBuilder/Made.antt =====
-- Discovery makes the single writes of its plan.
use hass_ontology_fix.Common.{ℕ, refl, String, Option, none, some, List, [], ◌∷◌, map}
use hass_ontology_fix.Common.Errors.{Exception, Action, ◌>>◌, ◌>>=◌, pure}
use hass_ontology_fix.Common.Json.{Json, Fields}
use hass_ontology_fix.GraphBuilder.Chunks.{concat}
use hass_ontology_fix.GraphBuilder.Labels.{
  label_home, label_area, label_device, label_entity, label_domain, label_integration, label_label,
  label_automation, label_scene, label_script, rel_has_area, rel_has_entity, rel_in_domain,
  rel_provided_by, rel_has_label, rel_references, rel_controls, home_singleton_id,
}
use hass_ontology_fix.GraphBuilder.Graph.{
  PropertyGraph, put_node, cut_areas, schema_ref, versioned, ensure_schema_node,
}
use hass_ontology_fix.GraphBuilder.Measurement.{Numbers}
use hass_ontology_fix.GraphBuilder.Registry.{RegistryEntry, Hass}
use hass_ontology_fix.GraphBuilder.Discovery.{
  entity_row, merge_names, collect_entities, collect_referencing_domain, ensure_home_node, discover,
}
use hass_ontology_fix.GraphBuilder.Rows.{
  row, pair, links_by, label_pairs, entity_step, domain_pair, named, Collected, own_entries,
  BuildCounts, counts_of,
}
use hass_ontology_fix.GraphBuilder.Plan.{
  each_node, referring, all, entities_plan, discovery_plan, found, ids_of,
}
use hass_ontology_fix.GraphBuilder.Writes.{
  calls-Writes, nodes_stage, pairs_stage, chunks_stage, Writes, bind-Writes, then-Writes,
  pure-Writes, write-Writes,
}
use hass_ontology_fix.GraphBuilder.Calls.{
  areas-Writes, devices-Writes, floors-Writes, labels-Writes, merge_each-Writes, merge_node-Writes,
  referring-Writes, stage,
}

module _ {Time F : Type 0} (numbers : Numbers Time F) (json_of_float : F → Json)
    (errors : ℕ → Option Exception) (hass : Hass Time) where
  entities-Writes :
      Writes errors
        (collect_entities numbers json_of_float errors hass)
        (all hass)
        (entities_plan numbers json_of_float hass)
  unfolding collect_entities
  entities-Writes =
      let entries = own_entries hass in
      let rows =
        map (λ (e : RegistryEntry). entity_row numbers json_of_float hass e.entity_id none)
          entries in
      let device =
        links_by (λ (e : RegistryEntry). e.device_id) (λ e i. pair i e.entity_id) entries in
      let area = links_by (λ (e : RegistryEntry). e.area_id) (λ e i. pair e.entity_id i) entries in
      let platform =
        links_by (λ (e : RegistryEntry). some e.platform) (λ e i. pair e.entity_id i) entries in
      let v = all hass in
      calls-Writes
        (chunks_stage errors entity_step (rows)
          ∷ nodes_stage errors label_domain
              (map (λ (d : String). row d Fields.end) (all hass).domains) refl
          ∷ nodes_stage errors label_integration
              (map (λ (i : String). row i (named i)) (all hass).integrations) refl
          ∷ pairs_stage errors label_entity rel_in_domain label_domain (map domain_pair entries)
              refl refl refl
          ∷ pairs_stage errors label_device rel_has_entity label_entity (device) refl refl refl
          ∷ chunks_stage errors cut_areas ((all hass).entity_ids)
          ∷ pairs_stage errors label_entity rel_has_area label_area (area) refl refl refl
          ∷ pairs_stage errors label_entity rel_provided_by label_integration (platform) refl refl
              refl
          ∷ pairs_stage errors label_entity rel_has_label label_label (label_pairs entries) refl
              refl refl
          ∷ [])
        (pure v) v [] (pure-Writes v)

  -- The ends of `discover`, after each value that it keeps.
  abbrev last :
      String
      → Collected
      → List String
      → List String
      → List String
      → Action PropertyGraph BuildCounts
  last version c automations scenes scripts =
      ensure_schema_node errors version >> pure (counts_of c automations scenes scripts)

  abbrev with_scenes :
      String → Collected → List String → List String → Action PropertyGraph BuildCounts
  with_scenes version c automations scenes =
      collect_referencing_domain errors hass "script" label_script rel_references
      >>= last version c automations scenes

  abbrev with_automations : String → Collected → List String → Action PropertyGraph BuildCounts
  with_automations version c automations =
      collect_referencing_domain errors hass "scene" label_scene rel_controls
      >>= with_scenes version c automations

  abbrev with_entities : String → Collected → Action PropertyGraph BuildCounts
  with_entities version c =
      merge_names errors label_domain (λ d. Fields.end) (hass.set_order c.domains)
      >> (merge_names errors label_integration named (hass.set_order c.integrations)
          >> (collect_referencing_domain errors hass "automation" label_automation rel_references
              >>= with_automations version c))

  ensure_schema-Writes :
      (version : String)
      → Writes errors
          (ensure_schema_node errors version)
          tt
          (put_node schema_ref (versioned version) ∷ [])
  unfolding ensure_schema_node
  ensure_schema-Writes version = write-Writes errors (put_node schema_ref (versioned version) ∷ [])

  with_automations-Writes :
      (version : String)
      → Writes errors
          (with_automations version (all hass) (ids_of hass "automation"))
          (found hass)
          (concat (
            referring hass "scene" label_scene rel_controls
            ∷ referring hass "script" label_script rel_references
            ∷ (put_node schema_ref (versioned version) ∷ [])
            ∷ []))
  with_automations-Writes version =
      let automations = ids_of hass "automation" in
      let scenes = ids_of hass "scene" in
      bind-Writes (collect_referencing_domain errors hass "scene" label_scene rel_controls)
        (with_scenes version (all hass) automations) scenes (found hass) _ _
        (referring-Writes errors hass "scene" label_scene rel_controls refl refl)
        (bind-Writes (collect_referencing_domain errors hass "script" label_script rel_references)
          (last version (all hass) automations scenes) (ids_of hass "script") (found hass) _ _
          (referring-Writes errors hass "script" label_script rel_references refl refl)
          (then-Writes errors (ensure_schema_node errors version) (pure (found hass)) (found hass) _
            [] (ensure_schema-Writes version) (pure-Writes (found hass))))

  with_entities-Writes :
      (version : String)
      → Writes errors (with_entities version (all hass)) (found hass) (
          concat (
            each_node label_domain (λ d. Fields.end) (hass.set_order (all hass).domains)
            ∷ each_node label_integration named (hass.set_order (all hass).integrations)
            ∷ referring hass "automation" label_automation rel_references
            ∷ referring hass "scene" label_scene rel_controls
            ∷ referring hass "script" label_script rel_references
            ∷ (put_node schema_ref (versioned version) ∷ [])
            ∷ []))
  with_entities-Writes version =
      let found_automations =
        collect_referencing_domain errors hass "automation" label_automation rel_references in
      let k = found_automations >>= with_automations version (all hass) in
      calls-Writes
        (stage _ (
            merge_each-Writes errors label_domain (λ d. Fields.end)
              (hass.set_order (all hass).domains) refl)
          ∷ stage _ (
              merge_each-Writes errors label_integration named
                (hass.set_order (all hass).integrations) refl)
          ∷ [])
        k (found hass) _
        (bind-Writes found_automations (with_automations version (all hass))
          (ids_of hass "automation") (found hass) _ _
          (referring-Writes errors hass "automation" label_automation rel_references refl refl)
          (with_automations-Writes version))

  -- Discovery makes the writes of its plan, in their order, and returns the counts of what it found; the
  -- client then answered every query that it sent. Or the client raised at the last query sent, and
  -- answered those before it: discovery then raises that exception, and the graph has the writes of a
  -- first part of the plan.
  pub discover_exact :
      (version : String)
      → Writes errors
          (discover numbers json_of_float errors hass version)
          (found hass)
          (discovery_plan numbers json_of_float hass version)
  unfolding discover discovery_plan ensure_home_node
  discover_exact version =
      calls-Writes
        (stage _ (merge_node-Writes errors label_home home_singleton_id (named "Home") refl)
          ∷ stage _ (floors-Writes errors hass)
          ∷ stage _ (areas-Writes errors hass)
          ∷ stage _ (devices-Writes errors hass)
          ∷ stage _ (labels-Writes errors hass)
          ∷ [])
        (collect_entities numbers json_of_float errors hass >>= with_entities version) (found hass)
        _
        (bind-Writes (collect_entities numbers json_of_float errors hass) (with_entities version)
          (all hass) (found hass) _ _ entities-Writes (with_entities-Writes version))
