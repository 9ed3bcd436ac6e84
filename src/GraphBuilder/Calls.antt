-- ===== src/GraphBuilder/Calls.antt =====
-- The calls of discovery make the single writes of their plans.
use hass_ontology_fix.Common.{ℕ, ◌≡◌, refl, String, true, Option, List, [], ◌∷◌, map}
use hass_ontology_fix.Common.Errors.{Exception, Action, pure}
use hass_ontology_fix.Common.Json.{Fields}
use hass_ontology_fix.GraphBuilder.{is_safe_label}
use hass_ontology_fix.GraphBuilder.Labels.{
  label_home, label_floor, label_area, label_device, label_entity, label_label, rel_has_area,
  rel_has_floor, rel_on_floor, rel_has_device, source_home_assistant,
}
use hass_ontology_fix.GraphBuilder.Graph.{
  PropertyGraph, Step, pair_step, merge_node, merge_relationship,
}
use hass_ontology_fix.GraphBuilder.Registry.{
  FloorEntry, AreaEntry, DeviceEntry, LabelEntry, Hass, EntityState,
}
use hass_ontology_fix.GraphBuilder.Discovery.{
  refer_each, refer_states, merge_names, collect_floors, collect_areas, collect_devices,
  collect_labels, collect_referencing_domain,
}
use hass_ontology_fix.GraphBuilder.Rows.{
  pair, area_row, device_row, home_floor, home_area, state_fields, links_by, floor_row, label_row,
  referenced_entity_ids, states_of,
}
use hass_ontology_fix.GraphBuilder.Plan.{
  node, each_node, refer_plan, states_plan, referring, floors_plan, areas_plan, devices_plan,
  labels_plan,
}
use hass_ontology_fix.GraphBuilder.Writes.{
  Stage, calls-Writes, nodes_stage, pairs_stage, Writes, then-Writes, pure-Writes, write-Writes,
}

module _ (errors : ℕ → Option Exception) where
  pub merge_node-Writes :
      (label id : String) (fields : Fields)
      → is_safe_label label ≡ true
      → Writes errors (merge_node errors label id fields) tt (node label id fields ∷ [])
  unfolding merge_node
  merge_node-Writes label id fields safe = rw safe (write-Writes errors (node label id fields ∷ []))

  pub merge_relationship-Writes :
      (from from_id type to to_id : String)
      → is_safe_label from ≡ true
      → is_safe_label to ≡ true
      → is_safe_label type ≡ true
      → Writes errors
          (merge_relationship errors from from_id type to to_id)
          tt
          (pair_step from type to source_home_assistant (pair from_id to_id) ∷ [])
  unfolding merge_relationship
  merge_relationship-Writes from from_id type to to_id safe safe_to safe_type =
      rw (safe, safe_to, safe_type) (write-Writes errors _)

  pub merge_each-Writes :
      (label : String) (fields : String → Fields) (ids : List String)
      → is_safe_label label ≡ true
      → Writes errors (merge_names errors label fields ids) tt (each_node label fields ids)
  unfolding merge_names
  merge_each-Writes label fields [] safe = pure-Writes tt
  merge_each-Writes label fields (id ∷ ids) safe =
      then-Writes errors (merge_node errors label id (fields id)) _ tt _ _
        (merge_node-Writes label id (fields id) safe) (merge_each-Writes label fields ids safe)

  refer_each-Writes :
      (label type id : String) (others : List String)
      → is_safe_label label ≡ true
      → is_safe_label type ≡ true
      → Writes errors (refer_each errors label type id others) tt (refer_plan label type id others)
  unfolding refer_each
  refer_each-Writes label type id [] safe safe_type = pure-Writes tt
  refer_each-Writes label type id (other ∷ others) safe safe_type =
      then-Writes errors (merge_relationship errors label id type label_entity other) _ tt _ _
        (merge_relationship-Writes label id type label_entity other safe refl safe_type)
        (refer_each-Writes label type id others safe safe_type)

  module _ {Time : Type 0} (hass : Hass Time) where
    refer_states-Writes :
        (domain label type : String) (states : List (EntityState Time))
        → is_safe_label label ≡ true
        → is_safe_label type ≡ true
        → Writes errors
            (refer_states errors hass domain label type states)
            tt
            (states_plan hass domain label type states)
    unfolding refer_states states_plan
    refer_states-Writes domain label type [] safe safe_type = pure-Writes tt
    refer_states-Writes domain label type (s ∷ rest) safe safe_type =
        let others = referenced_entity_ids hass domain s.entity_id in
        then-Writes errors (merge_node errors label s.entity_id (state_fields s)) _ tt _ _
          (merge_node-Writes label s.entity_id (state_fields s) safe)
          (then-Writes errors (refer_each errors label type s.entity_id others) _ tt _ _
            (refer_each-Writes label type s.entity_id others safe safe_type)
            (refer_states-Writes domain label type rest safe safe_type))

    pub referring-Writes :
        (domain label type : String)
        → is_safe_label label ≡ true
        → is_safe_label type ≡ true
        → Writes errors
            (collect_referencing_domain errors hass domain label type)
            (map (λ s. s.entity_id) (states_of hass domain))
            (referring hass domain label type)
    unfolding collect_referencing_domain referring
    referring-Writes domain label type safe safe_type =
        let ids = map (λ (s : EntityState Time). s.entity_id) (states_of hass domain) in
        then-Writes errors (refer_states errors hass domain label type (states_of hass domain))
          (pure ids) ids (states_plan hass domain label type (states_of hass domain)) []
          (refer_states-Writes domain label type (states_of hass domain) safe safe_type)
          (pure-Writes ids)

    pub floors-Writes :
        Writes errors
          (collect_floors errors hass)
          (map (λ f. f.floor_id) hass.floors)
          (floors_plan hass)
    unfolding collect_floors
    floors-Writes =
        let v = map (λ (f : FloorEntry). f.floor_id) hass.floors in
        calls-Writes
          (nodes_stage errors label_floor (map floor_row hass.floors) refl
            ∷ pairs_stage errors label_home rel_has_floor label_floor (map home_floor hass.floors)
                refl refl refl
            ∷ [])
          (pure v) v [] (pure-Writes v)

    pub areas-Writes :
        Writes errors (collect_areas errors hass) (map (λ a. a.id) hass.areas) (areas_plan hass)
    unfolding collect_areas
    areas-Writes =
        let on_floor = links_by (λ (a : AreaEntry). a.floor_id) (λ a i. pair a.id i) hass.areas in
        let v = map (λ (a : AreaEntry). a.id) hass.areas in
        calls-Writes
          (nodes_stage errors label_area (map area_row hass.areas) refl
            ∷ pairs_stage errors label_home rel_has_area label_area (map home_area hass.areas) refl
                refl refl
            ∷ pairs_stage errors label_area rel_on_floor label_floor (on_floor) refl refl refl
            ∷ [])
          (pure v) v [] (pure-Writes v)

    pub devices-Writes :
        Writes errors
          (collect_devices errors hass)
          (map (λ d. d.id) hass.devices)
          (devices_plan hass)
    unfolding collect_devices
    devices-Writes =
        let in_area = links_by (λ (d : DeviceEntry). d.area_id) (λ d i. pair i d.id) hass.devices in
        let v = map (λ (d : DeviceEntry). d.id) hass.devices in
        calls-Writes
          (nodes_stage errors label_device (map device_row hass.devices) refl
            ∷ pairs_stage errors label_area rel_has_device label_device (in_area) refl refl refl
            ∷ [])
          (pure v) v [] (pure-Writes v)

    pub labels-Writes :
        Writes errors
          (collect_labels errors hass)
          (map (λ l. l.label_id) hass.labels)
          (labels_plan hass)
    unfolding collect_labels
    labels-Writes =
        let v = map (λ (l : LabelEntry). l.label_id) hass.labels in
        calls-Writes (nodes_stage errors label_label (map label_row hass.labels) refl ∷ []) (pure v)
          v [] (pure-Writes v)

abbrev pub stage :
    {errors : ℕ → Option Exception} {A : Type 0} {value : A} {steps : List Step}
    (call : Action PropertyGraph A)
    → Writes errors call value steps
    → Stage errors
stage {errors} {A} {value} {steps} call makes = record {
  Returned = A;
  call = call;
  value = value;
  steps = steps;
  makes = makes;
}
