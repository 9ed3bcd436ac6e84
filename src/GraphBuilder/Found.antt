-- ===== src/GraphBuilder/Found.antt =====
-- What discovery finds has a node afterwards.
use hass_ontology_fix.Common.{
  ℕ, ◌≡◌, refl, ap, ◌⊎◌, inl, inr, String, Bool, true, false, ◌||◌, ◌&&◌, Option, none, is_some,
  List, [], ◌∷◌, ◌++◌, map, any, Bool-cases, arith,
}
use hass_ontology_fix.Common.Errors.{Exception, is_ok}
use hass_ontology_fix.Common.Json.{Json}
use hass_ontology_fix.GraphBuilder.{NodeRow}
use hass_ontology_fix.GraphBuilder.Labels.{
  label_home, home_singleton_id, source_home_assistant, label_floor, label_area, label_device,
  label_entity, label_label,
}
use hass_ontology_fix.GraphBuilder.Graph.{
  NodeKey, is_ref, Content, PropertyGraph, Step, put_node, put_edge, cut_areas, apply, apply_all,
  node_step,
}
use hass_ontology_fix.GraphBuilder.Measurement.{Numbers}
use hass_ontology_fix.GraphBuilder.Registry.{Hass, RegistryEntry}
use hass_ontology_fix.GraphBuilder.Discovery.{discover, entity_row}
use hass_ontology_fix.GraphBuilder.Rows.{
  own_entries, entity_step, named, floor_row, area_row, device_row, label_row,
}
use hass_ontology_fix.GraphBuilder.Plan.{
  discovery_plan, node, floors_plan, areas_plan, devices_plan, labels_plan,
}
use hass_ontology_fix.GraphBuilder.Made.{discover_exact}

abbrev pub puts : NodeKey → Step → Bool
puts r (put_node ref _) = is_ref r ref
puts r _ = false

module _ (r : NodeKey) where
  pub apply_mono :
      (c : Content) (step : Step)
      → is_some (c.nodes r) || puts r step ≡ true
      → is_some ((apply c step).nodes r) ≡ true
  unfolding apply
  apply_mono c (put_node ref change) h = elim (Bool-cases (is_ref r ref)) [
    | inl e ↦ rw e refl
    | inr e ↦ rw e (ground (arith, h))
  ]
  apply_mono c (put_edge type from to fields) h =
      elim (Bool-cases (is_some (c.nodes from) && is_some (c.nodes to))) [
        | inl e ↦ rw e (ground (arith, h))
        | inr e ↦ rw e (ground (arith, h))
      ]
  apply_mono c (cut_areas id) h = ground (arith, h)

  pub apply_all-puts :
      (steps : List Step) (c : Content)
      → is_some (c.nodes r) || any (puts r) steps ≡ true
      → is_some ((apply_all c steps).nodes r) ≡ true
  apply_all-puts [] c h = ground (arith, h)
  apply_all-puts (step ∷ steps) c h =
      apply_all-puts steps (apply c step) (ground (arith, h, apply_mono c step))

any-map :
    {A B : Type 0} (test : A → Bool) (f : B → A) (xs : List B)
    → any (λ x. test (f x)) xs ≡ true
    → any test (map f xs) ≡ true
any-map test f [] h = cc
any-map test f (x ∷ xs) h = ground (arith, h, any-map test f xs)

or_cases : (a b : Bool) → a || b ≡ true → (a ≡ true) ⊎ (b ≡ true)
or_cases true b h = inl refl
or_cases false b h = inr h

module _ (test : Step → Bool) where
  any_left : (xs ys : List Step) → any test xs ≡ true → any test (xs ++ ys) ≡ true
  any_left [] ys h = cc
  any_left (x ∷ xs) ys h = ground (arith, h, any_left xs ys)

  any_right : (xs ys : List Step) → any test ys ≡ true → any test (xs ++ ys) ≡ true
  any_right [] ys h = h
  any_right (x ∷ xs) ys h = ground (arith, any_right xs ys h)

  -- Some of the writes passes the test.
  record Holds (steps : List Step) : Type 0 where
    holds : any test steps ≡ true

  left : {xs : List Step} (ys : List Step) → Holds xs → Holds (xs ++ ys)
  left {xs} ys h = record { holds = any_left xs ys h.holds }

  right : (xs : List Step) {ys : List Step} → Holds ys → Holds (xs ++ ys)
  right xs {ys} h = record { holds = any_right xs ys h.holds }

abbrev ref : String → String → NodeKey
ref label id = record { label = label; ha_id = id }

-- The registries have an element with this label and id; an entity of the integration itself is none.
abbrev pub is_found : {Time : Type 0} → Hass Time → NodeKey → Bool
is_found hass r =
    any (λ f. is_ref r (ref label_floor f.floor_id)) hass.floors
    || (any (λ a. is_ref r (ref label_area a.id)) hass.areas
        || (any (λ d. is_ref r (ref label_device d.id)) hass.devices
            || (any (λ l. is_ref r (ref label_label l.label_id)) hass.labels
                || any (λ e. is_ref r (ref label_entity e.entity_id)) (own_entries hass))))

module _ {Time F : Type 0} (numbers : Numbers Time F) (json_of_float : F → Json) (hass : Hass Time)
    (version : String) (r : NodeKey) where
  rows-Holds :
      {B : Type 0} (label : String) (to_row : B → NodeRow) (xs : List B)
      → any (λ x. is_ref r (ref label (to_row x).ha_id)) xs ≡ true
      → Holds (puts r) (map (node_step label source_home_assistant) (map to_row xs))
  rows-Holds label to_row xs h = record {
    holds =
        any-map (puts r) (node_step label source_home_assistant) (map to_row xs)
          (any-map (λ row. is_ref r (ref label row.ha_id)) to_row xs h);
  }

  entities-Holds :
      any (λ e. is_ref r (ref label_entity e.entity_id)) (own_entries hass) ≡ true
      → Holds (puts r) (
          map entity_step
            (map (λ e. entity_row numbers json_of_float hass e.entity_id none) (own_entries hass)))
  entities-Holds h = record {
    holds = any-map (puts r) entity_step _ (
        any-map (λ row. is_ref r (ref label_entity row.ha_id))
          (λ (e : RegistryEntry). entity_row numbers json_of_float hass e.entity_id none)
          (own_entries hass) h);
  }

  plan-Holds :
      is_found hass r ≡ true → Holds (puts r) (discovery_plan numbers json_of_float hass version)
  unfolding discovery_plan
  plan-Holds h =
      let home = node label_home home_singleton_id (named "Home") ∷ [] in
      let t = puts r in
      elim (or_cases (any (λ f. is_ref r (ref label_floor f.floor_id)) hass.floors) _ h) [
        | inl e ↦
            right t home (left t _ (left t _ (rows-Holds label_floor floor_row hass.floors e)))
        | inr h1 ↦ elim (or_cases (any (λ a. is_ref r (ref label_area a.id)) hass.areas) _ h1) [
          | inl e ↦ right t home (
              right t (floors_plan hass)
                (left t _ (left t _ (rows-Holds label_area area_row hass.areas e))))
          | inr h2 ↦
              elim (or_cases (any (λ d. is_ref r (ref label_device d.id)) hass.devices) _ h2) [
                | inl e ↦ right t home (
                    right t (floors_plan hass) (
                      right t (areas_plan hass)
                        (left t _ (left t _ (rows-Holds label_device device_row hass.devices e)))))
                | inr h3 ↦
                    elim (or_cases (any (λ l. is_ref r (ref label_label l.label_id)) hass.labels) _
                      h3) [
                        | inl e ↦ right t home (
                            right t (floors_plan hass) (
                              right t (areas_plan hass) (
                                right t (devices_plan hass) (
                                  left t _
                                    (left t _ (rows-Holds label_label label_row hass.labels e))))))
                        | inr e ↦ right t home (
                            right t (floors_plan hass) (
                              right t (areas_plan hass) (
                                right t (devices_plan hass) (
                                  right t (labels_plan hass)
                                    (left t _ (left t _ (entities-Holds e)))))))
                      ]
              ]
        ]
      ]

  -- After a discovery that returns, every floor, area, device, label and entity of the registries has a
  -- node, except the integration's own entities.
  pub discover_finds :
      (errors : ℕ → Option Exception) (g : PropertyGraph)
      → is_found hass r ≡ true
      → is_ok (discover numbers json_of_float errors hass version g).0 ≡ true
      → is_some ((discover numbers json_of_float errors hass version g).1.content.nodes r) ≡ true
  discover_finds errors g h returned =
      elim (discover_exact numbers json_of_float errors hass version g) [
        | inl (p, c, v) ↦ rw c (
            apply_all-puts r (discovery_plan numbers json_of_float hass version) g.content
              (ground (arith, (plan-Holds h).holds)))
        | inr (e, done, rest, p, s, c, f) ↦ absurd (let bad = ap is_ok p in cc)
      ]
