-- ===== src/GraphBuilder/Updates/Stale.antt =====
-- The areas of a device after it was updated.
use hass_ontology_fix.Common.{
  ℕ, ◌≡◌, refl, sym, ap, inl, inr, String, true, ◌&&◌, ◌||◌, Option, none, some, is_some, List, [],
  ◌∷◌, Bool-cases, arith, str_eq, eq_iff,
}
use hass_ontology_fix.Common.Errors.{Exception, is_ok}
use hass_ontology_fix.Classify.Home.{truthy}
use hass_ontology_fix.GraphBuilder.Labels.{label_area, label_device, rel_has_device}
use hass_ontology_fix.GraphBuilder.Graph.{
  NodeKey, Content, PropertyGraph, Step, apply_all, apply, merge_node,
}
use hass_ontology_fix.GraphBuilder.Registry.{Hass, DeviceEntry, get_device}
use hass_ontology_fix.GraphBuilder.Rows.{device_fields}
use hass_ontology_fix.GraphBuilder.Updates.{update_device, area_of_device}
use hass_ontology_fix.GraphBuilder.Updates.Steps.{edge}
use hass_ontology_fix.GraphBuilder.Updates.Areas.{area, is_text, str_eq_refl}
use hass_ontology_fix.GraphBuilder.Plan.{node}
use hass_ontology_fix.GraphBuilder.Writes.{Writes, pure-Writes, then-Writes}
use hass_ontology_fix.GraphBuilder.Calls.{merge_node-Writes, merge_relationship-Writes}
use hass_ontology_fix.GraphBuilder.Found.{apply_mono}

abbrev pub device : String → NodeKey
device id = record { label = label_device; ha_id = id }

abbrev moved_steps : String → Option String → List Step
moved_steps id none = []
moved_steps id (some area_id) = edge label_area area_id rel_has_device label_device id ∷ []

module _ (id a : String) where
  moved_put :
      (o : Option String) (c : Content)
      → is_some (c.nodes (device id)) ≡ true
      → is_some ((apply_all c (moved_steps id o)).edges rel_has_device (area a) (device id)) ≡ (
          is_text o a && is_some (c.nodes (area a))
          || is_some (c.edges rel_has_device (area a) (device id)))
  unfolding apply
  moved_put none c h = refl
  moved_put (some b) c h = rw h (elim (Bool-cases (str_eq a b)) [
    | inl q ↦ rw (sym ((eq_iff a b).0 q)) (elim (Bool-cases (is_some (c.nodes (area a)))) [
      | inl n ↦ rw n (rw (str_eq_refl id, str_eq_refl a) refl)
      | inr n ↦ rw n (rw (str_eq_refl a) refl)
    ])
    | inr q ↦ elim (Bool-cases (is_some (c.nodes (area b)))) [
      | inl n ↦ rw n (rw (str_eq_refl id, q) refl)
      | inr n ↦ rw n (rw q refl)
    ]
  ])

module _ (errors : ℕ → Option Exception) {Time : Type 0} (hass : Hass Time) (d : DeviceEntry)
    (id : String) where
  area_of_device-Writes :
      (o : Option String) → Writes errors (area_of_device errors d o) tt (moved_steps d.id o)
  area_of_device-Writes none = pure-Writes tt
  area_of_device-Writes (some area_id) =
      merge_relationship-Writes errors label_area area_id rel_has_device label_device d.id refl refl
        refl

  abbrev device_step : Step
  device_step = node label_device d.id (device_fields d)

  update_device-Writes :
      get_device id hass.devices ≡ some d
      → Writes errors
          (update_device errors hass id)
          tt
          (device_step ∷ moved_steps d.id (truthy d.area_id))
  unfolding update_device
  update_device-Writes here = rw here (
      then-Writes errors (merge_node errors label_device d.id (device_fields d)) _ tt _ _
        (merge_node-Writes errors label_device d.id (device_fields d) refl)
        (area_of_device-Writes (truthy d.area_id)))

  -- After an update that returns, of a device that is registered, the device is linked to an area
  -- exactly when the registry gives it this area and the area has a node, or when it was linked to it
  -- before.
  pub update_device_areas_exact :
      (g : PropertyGraph) (a : String)
      → get_device id hass.devices ≡ some d
      → is_ok (update_device errors hass id g).0 ≡ true
      → is_some
          ((update_device errors hass id g).1.content.edges rel_has_device (area a) (device d.id))
        ≡ (is_text (truthy d.area_id) a && is_some (g.content.nodes (area a))
            || is_some (g.content.edges rel_has_device (area a) (device d.id)))
  unfolding apply
  update_device_areas_exact g a here returned = elim (update_device-Writes here g) [
    | inl (p, c, v) ↦
        let first = apply g.content device_step in
        let present : is_some (first.nodes (device d.id)) ≡ true =
          apply_mono (device d.id) g.content device_step (rw (str_eq_refl d.id) (ground arith)) in
        rw c (moved_put d.id a (truthy d.area_id) first present)
    | inr (e, done, rest, p, s, c, f) ↦ absurd (let bad = ap is_ok p in cc)
  ]
