-- ===== src/GraphBuilder/Updates/Agree.antt =====
-- The bulk write of a state and the full update of its entity leave the same node.
use hass_ontology_fix.Common.{
  ℕ, ◌≡◌, refl, sym, ap, ◌∙◌, inl, inr, String, true, false, ◌&&◌, Option, none, some, is_some,
  List, [], ◌∷◌, ◌++◌, map, All, str_eq, Bool-cases,
}
use hass_ontology_fix.Common.Errors.{Exception, is_ok}
use hass_ontology_fix.Common.Json.{Json, Fields}
use hass_ontology_fix.Classify.Home.{truthy}
use hass_ontology_fix.GraphBuilder.Labels.{label_entity, label_domain, rel_in_domain}
use hass_ontology_fix.GraphBuilder.Graph.{
  Content, PropertyGraph, Step, put_node, put_edge, cut_areas, apply, apply_all,
}
use hass_ontology_fix.GraphBuilder.Measurement.{Numbers}
use hass_ontology_fix.GraphBuilder.Registry.{
  Hass, RegistryEntry, EntitySyncContext, find_entry, domain_text,
}
use hass_ontology_fix.GraphBuilder.Rows.{entity_step, is_own_entity}
use hass_ontology_fix.GraphBuilder.Updates.{state_rows, update_entity, update_entity_states_bulk}
use hass_ontology_fix.GraphBuilder.Updates.Steps.{
  edge, device_steps, area_steps, platform_steps, label_steps, after_areas, first,
  update_entity-Writes,
}
use hass_ontology_fix.GraphBuilder.Plan.{node}
use hass_ontology_fix.GraphBuilder.Updates.Areas.{entity}
use hass_ontology_fix.GraphBuilder.Updates.Bulk.{matched, update_entity_states_bulk_exact}

-- The write touches no node of an entity.
abbrev IsElsewhere : Step → Type 0
IsElsewhere (put_node key _) = str_eq label_entity key.label ≡ false
IsElsewhere (put_edge _ _ _ _) = Unit
IsElsewhere (cut_areas _) = Unit

module _ (id : String) where
  elsewhere_keeps :
      (c : Content) (step : Step)
      → IsElsewhere step
      → (apply c step).nodes (entity id) ≡ c.nodes (entity id)
  unfolding apply
  elsewhere_keeps c (put_node key change) h = rw h refl
  elsewhere_keeps c (put_edge type from to fields) h =
      elim (Bool-cases (is_some (c.nodes from) && is_some (c.nodes to))) [
        | inl e ↦ rw e refl
        | inr e ↦ rw e refl
      ]
  elsewhere_keeps c (cut_areas other) h = refl

  apply_all_elsewhere :
      (steps : List Step) (c : Content)
      → All IsElsewhere steps
      → (apply_all c steps).nodes (entity id) ≡ c.nodes (entity id)
  apply_all_elsewhere [] c h = refl
  apply_all_elsewhere (step ∷ steps) c (p, h) =
      apply_all_elsewhere steps (apply c step) h ∙ elsewhere_keeps c step p

  labels-All : (labels : List String) → All IsElsewhere (label_steps id labels)
  labels-All [] = tt
  labels-All (l ∷ labels) = (tt, labels-All labels)

  after-All :
      (platform : Option String) (labels : List String)
      → All IsElsewhere (platform_steps id platform ++ label_steps id labels)
  after-All none labels = labels-All labels
  after-All (some platform) labels = (refl, (tt, labels-All labels))

  areas-All :
      (area platform : Option String) (labels : List String)
      → All IsElsewhere
          (area_steps id area ++ (platform_steps id platform ++ label_steps id labels))
  areas-All none platform labels = after-All platform labels
  areas-All (some area) platform labels = (tt, after-All platform labels)

  rest-All :
      (device area platform : Option String) (labels : List String)
      → All IsElsewhere (
          device_steps id device
          ++ (cut_areas id
              ∷ (area_steps id area ++ (platform_steps id platform ++ label_steps id labels))))
  rest-All none area platform labels = (tt, areas-All area platform labels)
  rest-All (some device) area platform labels = (tt, (tt, areas-All area platform labels))

-- What a full update writes after the entity's node.
abbrev rest_of : String → RegistryEntry → List Step
rest_of id entry =
    node label_domain (domain_text id) Fields.end
    ∷ edge label_entity id rel_in_domain label_domain (domain_text id)
    ∷ (device_steps id (truthy entry.device_id)
        ++ (cut_areas id ∷ (area_steps id (truthy entry.area_id) ++ after_areas id entry)))

rest_of-All : (id : String) (entry : RegistryEntry) → All IsElsewhere (rest_of id entry)
rest_of-All id entry = (
  refl,
  (
    tt,
    rest-All id (truthy entry.device_id) (truthy entry.area_id) (truthy (some entry.platform))
        entry.labels,
  ),
)

-- If an entity that is registered and not the integration's own has a node, a bulk write of its state that
-- returns and a full update of it that returns leave this node with the same properties, and the bulk
-- write leaves all relationships as they were.
pub bulk_agrees :
    {Time F : Type 0} (numbers : Numbers Time F) (json_of_float : F → Json)
    (errors : ℕ → Option Exception) (hass : Hass Time) (id : String)
    (context : Option (EntitySyncContext Time)) (entry : RegistryEntry) (g : PropertyGraph)
    → let full = update_entity numbers json_of_float errors hass id context g in
      let bulk =
        update_entity_states_bulk numbers json_of_float errors hass ((id, context) ∷ []) g in
      find_entry id hass.entities ≡ some entry
      → is_own_entity entry ≡ false
      → is_some (g.content.nodes (entity id)) ≡ true
      → is_ok full.0 ≡ true
      → is_ok bulk.0 ≡ true
      → (bulk.1.content.nodes (entity id) ≡ full.1.content.nodes (entity id))
        × (bulk.1.content.edges ≡ g.content.edges)
unfolding apply
bulk_agrees numbers json_of_float errors hass id context entry g here not_own there returned sent =
    let row = first numbers json_of_float hass id context in
    let c = g.content in
    let (_, written) =
      update_entity_states_bulk_exact numbers json_of_float errors hass ((id, context) ∷ []) g
        sent in
    let rows = state_rows numbers json_of_float hass ((id, context) ∷ []) in
    let only : apply_all c (map entity_step (matched c rows)) ≡ apply c row = rw there refl in
    let one = written ∙ only in
    elim (update_entity-Writes numbers json_of_float errors hass id context entry here not_own g) [
      | inl (p, full, v) ↦ (
        ap (λ (d : Content). d.nodes (entity id)) one
            ∙ sym (
                ap (λ (d : Content). d.nodes (entity id)) full
                ∙ apply_all_elsewhere id (rest_of id entry) (apply c row) (rest_of-All id entry)),
        ap (λ (d : Content). d.edges) one,
      )
      | inr (e, done, rest, p, s, d, f) ↦ absurd (let bad = ap is_ok p in cc)
    ]
