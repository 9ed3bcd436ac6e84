-- ===== src/GraphBuilder/Updates/Areas.antt =====
-- The areas of an entity after it was updated.
use hass_ontology_fix.Common.{
  ℕ, ◌≡◌, refl, sym, ap, ◌∙◌, inl, inr, String, Bool, true, false, ◌||◌, ◌&&◌, not, Option, none,
  some, is_some, List, [], ◌∷◌, ◌++◌, All, str_eq, eq_iff, Bool-cases, Option-cases, if◌then◌else◌,
  arith,
}
use mathlib.Core.List.{foldl-append}
use hass_ontology_fix.Common.Errors.{Exception, is_ok}
use hass_ontology_fix.Common.Json.{Json}
use hass_ontology_fix.Classify.Home.{truthy}
use hass_ontology_fix.GraphBuilder.Labels.{
  label_area, label_entity, rel_has_area, source_home_assistant,
}
use hass_ontology_fix.GraphBuilder.Graph.{
  NodeKey, Properties, Content, PropertyGraph, Step, put_node, put_edge, cut_areas, apply,
  apply_all, is_sourced,
}
use hass_ontology_fix.GraphBuilder.Measurement.{Numbers}
use hass_ontology_fix.GraphBuilder.Registry.{Hass, RegistryEntry, EntitySyncContext, find_entry}
use hass_ontology_fix.GraphBuilder.Rows.{is_own_entity}
use hass_ontology_fix.GraphBuilder.Updates.{update_entity}
use hass_ontology_fix.GraphBuilder.Updates.Steps.{
  device_steps, area_steps, platform_steps, label_steps, before_areas, after_areas, first,
  update_entity-Writes,
}
use hass_ontology_fix.GraphBuilder.Found.{apply_all-puts}

abbrev pub entity : String → NodeKey
entity id = record { label = label_entity; ha_id = id }

abbrev pub area : String → NodeKey
area id = record { label = label_area; ha_id = id }

-- The write touches no area and no relationship of that type.
abbrev IsAside : Step → Type 0
IsAside (put_node ref _) = str_eq label_area ref.label ≡ false
IsAside (put_edge type _ _ _) = str_eq rel_has_area type ≡ false
IsAside (cut_areas _) = false ≡ true

-- A relationship that Home Assistant did not give.
abbrev pub is_foreign : Option Properties → Bool
is_foreign none = false
is_foreign (some p) = not (is_sourced source_home_assistant p)

abbrev pub is_text : Option String → String → Bool
is_text none s = false
is_text (some t) s = str_eq s t

pub str_eq_refl : (s : String) → str_eq s s ≡ true
str_eq_refl s = (eq_iff s s).1 refl

module _ (e : NodeKey) (a : String) where
  -- The two parts of the graph that the theorem is about.
  abbrev Same : Content → Content → Type 0
  Same c d =
      (c.edges rel_has_area e (area a) ≡ d.edges rel_has_area e (area a))
      × (c.nodes (area a) ≡ d.nodes (area a))

  aside_keeps : (c : Content) (step : Step) → IsAside step → Same (apply c step) c
  unfolding apply
  aside_keeps c (put_node ref change) h = (refl, rw h refl)
  aside_keeps c (put_edge type from to fields) h =
      elim (Bool-cases (is_some (c.nodes from) && is_some (c.nodes to))) [
        | inl q ↦ rw q (rw h refl, refl)
        | inr q ↦ rw q (refl, refl)
      ]
  aside_keeps c (cut_areas id) h = absurd cc

  All-apply_aside :
      (steps : List Step) (c : Content) → All IsAside steps → Same (apply_all c steps) c
  All-apply_aside [] c h = (refl, refl)
  All-apply_aside (step ∷ steps) c (p, h) =
      let (q1, q2) = All-apply_aside steps (apply c step) h in
      let (r1, r2) = aside_keeps c step p in (q1 ∙ r1, q2 ∙ r2)

kept :
    (p : Properties)
    → is_some (if is_sourced source_home_assistant p then none else some p)
      ≡ not (is_sourced source_home_assistant p)
kept p = elim (Bool-cases (is_sourced source_home_assistant p)) [
  | inl q ↦ rw q refl
  | inr q ↦ rw q refl
]

module _ (id : String) where
  device-IsAside : (o : Option String) → All IsAside (device_steps id o)
  device-IsAside none = tt
  device-IsAside (some d) = (refl, tt)

  label-IsAside : (labels : List String) → All IsAside (label_steps id labels)
  label-IsAside [] = tt
  label-IsAside (l ∷ labels) = (refl, label-IsAside labels)

  after-IsAside :
      (o : Option String) (labels : List String)
      → All IsAside (platform_steps id o ++ label_steps id labels)
  after-IsAside none labels = label-IsAside labels
  after-IsAside (some platform) labels = (refl, (refl, label-IsAside labels))

module _ (id a : String) where
  after_cut :
      (c : Content)
      → is_some ((apply c (cut_areas id)).edges rel_has_area (entity id) (area a))
        ≡ is_foreign (c.edges rel_has_area (entity id) (area a))
  unfolding apply
  after_cut c = elim (Option-cases (c.edges rel_has_area (entity id) (area a))) [
    | inl q ↦ rw q refl
    | inr (p, q) ↦ rw q (rw (str_eq_refl id) (kept p))
  ]

  after_put :
      (o : Option String) (c : Content)
      → is_some (c.nodes (entity id)) ≡ true
      → is_some ((apply_all c (area_steps id o)).edges rel_has_area (entity id) (area a)) ≡ (
          is_text o a && is_some (c.nodes (area a))
          || is_some (c.edges rel_has_area (entity id) (area a)))
  unfolding apply
  after_put none c h = refl
  after_put (some b) c h = rw h (elim (Bool-cases (str_eq a b)) [
    | inl q ↦ rw (sym ((eq_iff a b).0 q)) (elim (Bool-cases (is_some (c.nodes (area a)))) [
      | inl n ↦ rw n (rw (str_eq_refl id, str_eq_refl a) refl)
      | inr n ↦ rw n (rw (str_eq_refl a) refl)
    ])
    | inr q ↦ elim (Bool-cases (is_some (c.nodes (area b)))) [
      | inl n ↦ rw n (rw (str_eq_refl id, q) refl)
      | inr n ↦ rw n (rw q refl)
    ]
  ])

module _ {Time F : Type 0} (numbers : Numbers Time F) (json_of_float : F → Json) (hass : Hass Time)
    (id : String) (context : Option (EntitySyncContext Time)) (entry : RegistryEntry) where
  abbrev steps_first : List Step
  steps_first = before_areas id (first numbers json_of_float hass id context) entry

  abbrev steps : List Step
  steps =
      steps_first ++ (cut_areas id ∷ (area_steps id (truthy entry.area_id) ++ after_areas id entry))

  first-IsAside : All IsAside steps_first
  first-IsAside = (refl, (refl, (refl, device-IsAside id (truthy entry.device_id))))

  areas_of_steps :
      (a : String) (c : Content)
      → is_some ((apply_all c steps).edges rel_has_area (entity id) (area a)) ≡ (
          is_text (truthy entry.area_id) a && is_some (c.nodes (area a))
          || is_foreign (c.edges rel_has_area (entity id) (area a)))
  unfolding apply
  areas_of_steps a c =
      let c1 = apply_all c steps_first in
      let c2 = apply c1 (cut_areas id) in
      let c3 = apply_all c2 (area_steps id (truthy entry.area_id)) in
      let made : apply_all c steps ≡ apply_all c3 (after_areas id entry) =
        foldl-append apply c steps_first _
        ∙ foldl-append apply c2 (area_steps id (truthy entry.area_id)) (after_areas id entry) in
      let (same_edge, same_area) = All-apply_aside (entity id) a steps_first c first-IsAside in
      let (last, _) =
        All-apply_aside (entity id) a (after_areas id entry) c3
          (after-IsAside id (truthy (some entry.platform)) entry.labels) in
      let present : is_some (c1.nodes (entity id)) ≡ true =
        apply_all-puts (entity id) steps_first c (rw (str_eq_refl id) (ground arith)) in
      rw made (
        rw last (
          rw (after_put id a (truthy entry.area_id) c2 present)
            (rw (after_cut id a c1) (rw same_edge (rw same_area refl)))))

-- After an update that returns, of an entity that is registered and not the integration's own, the entity
-- is linked to an area exactly when the registry gives it this area and the area has a node, or when a
-- source that is not Home Assistant had linked it before.
pub update_entity_areas_exact :
    {Time F : Type 0} (numbers : Numbers Time F) (json_of_float : F → Json)
    (errors : ℕ → Option Exception) (hass : Hass Time) (id : String)
    (context : Option (EntitySyncContext Time)) (entry : RegistryEntry) (g : PropertyGraph)
    (a : String)
    → find_entry id hass.entities ≡ some entry
    → is_own_entity entry ≡ false
    → is_ok (update_entity numbers json_of_float errors hass id context g).0 ≡ true
    → is_some (
        (update_entity numbers json_of_float errors hass id context g).1.content.edges rel_has_area
          (entity id)
          (area a))
      ≡ (is_text (truthy entry.area_id) a && is_some (g.content.nodes (area a))
          || is_foreign (g.content.edges rel_has_area (entity id) (area a)))
update_entity_areas_exact numbers json_of_float errors hass id context entry g a here not_own
      returned =
    elim (update_entity-Writes numbers json_of_float errors hass id context entry here not_own g) [
      | inl (p, c, v) ↦
          ap (λ (d : Content). is_some (d.edges rel_has_area (entity id) (area a))) c
          ∙ areas_of_steps numbers json_of_float hass id context entry a g.content
      | inr (e, done, rest, p, s, c, f) ↦ absurd (let bad = ap is_ok p in cc)
    ]
