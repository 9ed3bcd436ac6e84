-- ===== src/GraphBuilder/Kept.antt =====
-- What clearing and discovery leave of the nodes that the integration does not own.
use hass_ontology_fix.Common.{
  ℕ, suc, ◌≡◌, refl, ap, ◌∙◌, inl, inr, String, Bool, true, false, ◌||◌, ◌&&◌, Option, none, some,
  List, [], ◌∷◌, ◌++◌, map, All, str_eq, eq_iff, is_some, Bool-cases,
}
use hass_ontology_fix.Common.Errors.{Exception, Action, ◌>>◌, continue-preserves}
use hass_ontology_fix.Common.Json.{Json, Fields}
use hass_ontology_fix.GraphBuilder.Labels.{
  rel_references, rel_controls, rel_has_area, rel_has_floor, rel_on_floor, rel_has_device,
  rel_has_entity, rel_in_domain, rel_provided_by, rel_has_label, label_home, label_floor,
  label_area, label_device, label_entity, label_domain, label_integration, label_label,
  label_automation, label_scene, label_script, label_ontology_schema,
}
use hass_ontology_fix.GraphBuilder.Graph.{
  node_step, pair_step, schema_ref, versioned, NodeKey, is_ref, Properties, Content, PropertyGraph,
  Step, put_node, put_edge, cut_areas, apply, apply_all, is_owned, answer, send, detach_delete,
  clear_generated_graph, is_generated,
}
use hass_ontology_fix.GraphBuilder.Measurement.{Numbers}
use hass_ontology_fix.GraphBuilder.Registry.{Hass, EntityState}
use hass_ontology_fix.GraphBuilder.Discovery.{discover}
use hass_ontology_fix.GraphBuilder.Rows.{entity_step, named, referenced_entity_ids, states_of}
use hass_ontology_fix.GraphBuilder.Plan.{
  each_node, refer_plan, states_plan, referring, entities_plan, discovery_plan, all, found,
}
use hass_ontology_fix.GraphBuilder.Writes.{Writes}
use hass_ontology_fix.GraphBuilder.Made.{discover_exact}

-- The labels of the nodes that discovery writes.
abbrev pub is_discovered : String → Bool
is_discovered label =
    str_eq label label_home
    || str_eq label label_floor
    || str_eq label label_area
    || str_eq label label_device
    || str_eq label label_label
    || str_eq label label_entity
    || str_eq label label_domain
    || str_eq label label_integration
    || str_eq label label_automation
    || str_eq label label_scene
    || str_eq label label_script
    || str_eq label label_ontology_schema

abbrev IsDiscovered : Step → Type 0
IsDiscovered (put_node ref _) = is_discovered ref.label ≡ true
IsDiscovered (put_edge _ _ _ _) = Unit
IsDiscovered (cut_areas _) = Unit

-- The writes are all of such nodes.
record AreDiscovered (steps : List Step) : Type 0 where
  each : All IsDiscovered steps

module _ {A : Type 0} (P : A → Type 0) where
  All-append : (xs ys : List A) → All P xs → All P ys → All P (xs ++ ys)
  All-append [] ys h k = k
  All-append (x ∷ xs) ys (p, h) k = (p, All-append xs ys h k)

  All-first : (xs ys : List A) → All P (xs ++ ys) → All P xs
  All-first [] ys h = tt
  All-first (x ∷ xs) ys (p, h) = (p, All-first xs ys h)

  All-map : {B : Type 0} (f : B → A) (xs : List B) → ((x : B) → P (f x)) → All P (map f xs)
  All-map f [] h = tt
  All-map f (x ∷ xs) h = (h x, All-map f xs h)

infixr 3 ◌and◌
◌and◌ : {xs ys : List Step} → AreDiscovered xs → AreDiscovered ys → AreDiscovered (xs ++ ys)
◌and◌ {xs} {ys} h k = record { each = All-append IsDiscovered xs ys h.each k.each }

none_left : AreDiscovered []
none_left = record { each = tt }

one_node :
    {ref : NodeKey} {change : Option Properties → Properties}
    → is_discovered ref.label ≡ true
    → AreDiscovered (put_node ref change ∷ [])
one_node h = record { each = (h, tt) }

mapped :
    {B : Type 0} (f : B → Step) (xs : List B)
    → ((x : B) → IsDiscovered (f x))
    → AreDiscovered (map f xs)
mapped f xs h = record { each = All-map IsDiscovered f xs h }

each_node-IsDiscovered :
    (label : String) (fields : String → Fields) (ids : List String)
    → is_discovered label ≡ true
    → All IsDiscovered (each_node label fields ids)
each_node-IsDiscovered label fields [] h = tt
each_node-IsDiscovered label fields (id ∷ ids) h = (h, each_node-IsDiscovered label fields ids h)

each_node-AreDiscovered :
    (label : String) (fields : String → Fields) (ids : List String)
    → is_discovered label ≡ true
    → AreDiscovered (each_node label fields ids)
each_node-AreDiscovered label fields ids h = record {
  each = each_node-IsDiscovered label fields ids h;
}

refer_plan-IsDiscovered :
    (label type id : String) (others : List String)
    → All IsDiscovered (refer_plan label type id others)
refer_plan-IsDiscovered label type id [] = tt
refer_plan-IsDiscovered label type id (other ∷ others) =
    (tt, refer_plan-IsDiscovered label type id others)

module _ {Time : Type 0} (hass : Hass Time) where
  states_plan-IsDiscovered :
      (domain label type : String) (states : List (EntityState Time))
      → is_discovered label ≡ true
      → All IsDiscovered (states_plan hass domain label type states)
  unfolding states_plan
  states_plan-IsDiscovered domain label type [] h = tt
  states_plan-IsDiscovered domain label type (s ∷ rest) h = (
    h,
    All-append IsDiscovered
        (refer_plan label type s.entity_id (referenced_entity_ids hass domain s.entity_id)) _
        (refer_plan-IsDiscovered label type s.entity_id _)
        (states_plan-IsDiscovered domain label type rest h),
  )

  referring-AreDiscovered :
      (domain label type : String)
      → is_discovered label ≡ true
      → AreDiscovered (referring hass domain label type)
  unfolding referring
  referring-AreDiscovered domain label type h =
      record { each = states_plan-IsDiscovered domain label type (states_of hass domain) h }
      and none_left

module _ {Time F : Type 0} (numbers : Numbers Time F) (json_of_float : F → Json)
    (hass : Hass Time) where
  entities_plan-AreDiscovered : AreDiscovered (entities_plan numbers json_of_float hass)
  entities_plan-AreDiscovered =
      mapped entity_step _ (λ _. refl)
      and mapped (node_step label_domain _) _ (λ _. refl)
      and mapped (node_step label_integration _) _ (λ _. refl)
      and mapped (pair_step label_entity rel_in_domain label_domain _) _ (λ _. tt)
      and mapped (pair_step label_device rel_has_entity label_entity _) _ (λ _. tt)
      and mapped cut_areas _ (λ _. tt)
      and mapped (pair_step label_entity rel_has_area label_area _) _ (λ _. tt)
      and mapped (pair_step label_entity rel_provided_by label_integration _) _ (λ _. tt)
      and mapped (pair_step label_entity rel_has_label label_label _) _ (λ _. tt)
      and none_left

  plan-AreDiscovered :
      (version : String) → AreDiscovered (discovery_plan numbers json_of_float hass version)
  unfolding discovery_plan
  plan-AreDiscovered version =
      one_node refl
      and (mapped (node_step label_floor _) _ (λ _. refl)
          and mapped (pair_step label_home rel_has_floor label_floor _) _ (λ _. tt)
          and none_left)
      and (mapped (node_step label_area _) _ (λ _. refl)
          and mapped (pair_step label_home rel_has_area label_area _) _ (λ _. tt)
          and mapped (pair_step label_area rel_on_floor label_floor _) _ (λ _. tt)
          and none_left)
      and (mapped (node_step label_device _) _ (λ _. refl)
          and mapped (pair_step label_area rel_has_device label_device _) _ (λ _. tt)
          and none_left)
      and (mapped (node_step label_label _) _ (λ _. refl) and none_left)
      and entities_plan-AreDiscovered
      and each_node-AreDiscovered label_domain (λ _. Fields.end) (hass.set_order (all hass).domains)
          refl
      and each_node-AreDiscovered label_integration named (hass.set_order (all hass).integrations)
          refl
      and referring-AreDiscovered hass "automation" label_automation rel_references refl
      and referring-AreDiscovered hass "scene" label_scene rel_controls refl
      and referring-AreDiscovered hass "script" label_script rel_references refl
      and one_node {ref = schema_ref} {change = versioned version} refl
      and none_left

module _ (r : NodeKey) (other : is_discovered r.label ≡ false) where
  is_ref_other : (ref : NodeKey) → is_discovered ref.label ≡ true → is_ref r ref ≡ false
  is_ref_other ref h = elim (Bool-cases (str_eq r.label ref.label)) [
    | inl e ↦
        let same : is_discovered r.label ≡ is_discovered ref.label =
          ap is_discovered ((eq_iff r.label ref.label).0 e) in
        cc
    | inr e ↦ rw e refl
  ]

  apply-keeps : (c : Content) (step : Step) → IsDiscovered step → (apply c step).nodes r ≡ c.nodes r
  unfolding apply
  apply-keeps c (put_node ref change) h = rw (is_ref_other ref h) refl
  apply-keeps c (put_edge type from to fields) h =
      elim (Bool-cases (is_some (c.nodes from) && is_some (c.nodes to))) [
        | inl e ↦ rw e refl
        | inr e ↦ rw e refl
      ]
  apply-keeps c (cut_areas id) h = refl

  apply_all-keeps :
      (steps : List Step) (c : Content)
      → All IsDiscovered steps
      → (apply_all c steps).nodes r ≡ c.nodes r
  apply_all-keeps [] c h = refl
  apply_all-keeps (step ∷ steps) c (p, h) =
      apply_all-keeps steps (apply c step) h ∙ apply-keeps c step p

  Writes-keeps :
      {errors : ℕ → Option Exception} {A : Type 0} (m : Action PropertyGraph A) (a : A)
      (steps : List Step) (g : PropertyGraph)
      → Writes errors m a steps
      → AreDiscovered steps
      → (m g).1.content.nodes r ≡ g.content.nodes r
  Writes-keeps m a steps g h are = elim (h g) [
    | inl (p, c, v) ↦ ap (λ (d : Content). d.nodes r) c ∙ apply_all-keeps steps g.content are.each
    | inr (e, done, rest, p, s, c, f) ↦
        ap (λ (d : Content). d.nodes r) c
        ∙ apply_all-keeps done g.content (All-first IsDiscovered done rest (rw s are.each))
  ]

-- What is kept by clearing: the answer to its query, or none.
clear-keeps :
    (r : NodeKey) (p : Properties) (o : Option Exception) (g : PropertyGraph)
    → g.content.nodes r ≡ some p
    → is_owned p ≡ false
    → (answer o (λ c. (tt, detach_delete is_generated c)) g).1.content.nodes r ≡ some p
unfolding detach_delete
clear-keeps r p none g here unowned = rw here (rw unowned refl)
clear-keeps r p (some e) g here unowned = here

module _ {Time F : Type 0} (numbers : Numbers Time F) (json_of_float : F → Json)
    (errors : ℕ → Option Exception) (hass : Hass Time) (version : String) where
  -- A node that the integration does not own, and whose label discovery does not write, is there with
  -- the same properties after the graph is cleared and discovered again, whatever the client raises.
  pub rebuild_keeps_unowned :
      (r : NodeKey) (p : Properties) (g : PropertyGraph)
      → is_discovered r.label ≡ false
      → g.content.nodes r ≡ some p
      → is_owned p ≡ false
      → ((clear_generated_graph errors >> discover numbers json_of_float errors hass version)
            g).1.content.nodes
          r
        ≡ some p
  unfolding clear_generated_graph send
  rebuild_keeps_unowned r p g other here unowned =
      let cleared = clear_generated_graph errors g in
      let again = discover numbers json_of_float errors hass version in
      continue-preserves (λ (v : PropertyGraph). v.content.nodes r ≡ some p) cleared.0 (λ _. again)
        cleared.1 (clear-keeps r p (errors g.sent) (record g { sent = suc g.sent }) here unowned)
        (λ _ v h.
          Writes-keeps r other again (found hass)
            (discovery_plan numbers json_of_float hass version) v
            (discover_exact numbers json_of_float errors hass version)
            (plan-AreDiscovered numbers json_of_float hass version)
          ∙ h)
