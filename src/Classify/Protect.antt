-- ===== src/Classify/Protect.antt =====
-- Classification leaves alone what the user has overridden.
use hass_ontology_fix.Common.{
  ℕ, ◌+◌, ◌≡◌, refl, ap, ◌∙◌, String, Bool, true, false, Option, none, some, List, [], ◌∷◌, str_eq,
  eq_iff, Bool-cases, inl, inr, All, filter, arith,
}
use hass_ontology_fix.Common.Errors.{Result, ok, err, Action, ◌>>=◌, pure, continue, continue-keeps}
use hass_ontology_fix.Classify.Home.{entity_signals, Home, resolve_area_id, truthy}
use hass_ontology_fix.Classify.Rules.{ClassificationRule, rules, matching_rules, rule_matches}
use hass_ontology_fix.Classify.Apply.{
  SemanticGraph, locate, apply_rule, unless_overridden, semantic_ha_id, classify_rule,
  classify_rules, classify_entity,
}

-- What the graph holds about one semantic type, for the entity at hand: its type node, the edges to it
-- and its assets. The query reads the override off it, and a write about another type leaves it alone.
pub record TypeLaws {W V : Type 0} (graph : SemanticGraph W) (entity_id : String)
    (view : W → String → V) (overridden : V → Bool) : Type 0 where
  pub reads :
      (label : String) (w : W)
      → graph.has_user_override entity_id label w ≡ (ok (overridden (view w label)), w)
  pub keeps_type :
      (l l' name source : String) (w : W)
      → str_eq l l' ≡ false
      → view (graph.merge_node "SemanticType" l name source w).1 l' ≡ view w l'
  pub keeps_edge :
      (l l' rel source : String) (w : W)
      → str_eq l l' ≡ false
      → view (graph.merge_relationship "Entity" entity_id rel "SemanticType" l source w).1 l'
        ≡ view w l'
  pub keeps_asset :
      (l l' id name source : String) (w : W)
      → str_eq l "SemanticType" ≡ false
      → str_eq l l' ≡ false
      → view (graph.merge_node l id name source w).1 l' ≡ view w l'
  pub keeps_asset_edge :
      (l l' id rel to_label to_id source : String) (w : W)
      → str_eq l "SemanticType" ≡ false
      → str_eq to_label "SemanticType" ≡ false
      → str_eq l l' ≡ false
      → view (graph.merge_relationship l id rel to_label to_id source w).1 l' ≡ view w l'

-- The label of an asset, which the label of the types is not.
abbrev IsAsset : ClassificationRule → Type 0
IsAsset rule = str_eq rule.label "SemanticType" ≡ false

All-filter :
    {A : Type 0} (P : A → Type 0) (p : A → Bool) (xs : List A) → All P xs → All P (filter p xs)
All-filter P p [] h = tt
All-filter P p (x ∷ xs) (h, hs) = elim (Bool-cases (p x)) [
  | inl e ↦ rw e (h, All-filter P p xs hs)
  | inr e ↦ rw e (All-filter P p xs hs)
]

matching-IsAsset : (home : Home) (entity_id : String) → All IsAsset (matching_rules home entity_id)
unfolding matching_rules
matching-IsAsset home entity_id =
    All-filter IsAsset (λ rule. rule_matches rule (entity_signals home entity_id)) rules
      (refl, (refl, (refl, (refl, (refl, (refl, (refl, (refl, (refl, tt)))))))))

module _ {W V : Type 0} (graph : SemanticGraph W) (entity_id : String) (view : W → String → V)
    (overridden : V → Bool) (laws : TypeLaws graph entity_id view overridden) (label : String) where
  -- A call that leaves what the graph holds about the type alone.
  abbrev Keeps : {A : Type 0} → Action W A → Type 0
  Keeps m = (w : W) → view (m w).1 label ≡ view w label

  bind-Keeps :
      {A B : Type 0} (m : Action W A) (k : A → Action W B)
      → Keeps m
      → ((a : A) → Keeps (k a))
      → Keeps (m >>= k)
  bind-Keeps m k h hk w = continue-keeps (λ v. view v label) (m w).0 k (m w).1 (λ a v. hk a v) ∙ h w

  locate-Keeps :
      (l id : String) (area : Option String)
      → str_eq l "SemanticType" ≡ false
      → str_eq l label ≡ false
      → Keeps (locate graph l id area)
  locate-Keeps l id none n h w = refl
  locate-Keeps l id (some area) n h w = laws.keeps_asset_edge l label id _ _ _ _ w n refl h

  apply_rule-Keeps :
      (home : Home) (name : String) (rule : ClassificationRule)
      → str_eq rule.label "SemanticType" ≡ false
      → str_eq rule.label label ≡ false
      → Keeps (apply_rule graph home entity_id name rule)
  unfolding apply_rule
  apply_rule-Keeps home name rule n h =
      let id = semantic_ha_id entity_id rule.label in
      let add_type = graph.merge_node "SemanticType" rule.label rule.label "generated" in
      let add_edge =
        graph.merge_relationship "Entity" entity_id "CLASSIFIED_AS" "SemanticType" rule.label
          "inferred" in
      let add_asset = graph.merge_node rule.label id name "inferred" in
      let add_asset_edge =
        graph.merge_relationship rule.label id rule.back_relationship "Entity" entity_id
          "inferred" in
      bind-Keeps add_type _ (λ w. laws.keeps_type rule.label label _ _ w h)
        (λ _.
          bind-Keeps add_edge _ (λ w. laws.keeps_edge rule.label label _ _ w h)
            (λ _.
              bind-Keeps add_asset _ (λ w. laws.keeps_asset rule.label label _ _ _ w n h)
                (λ _.
                  bind-Keeps add_asset_edge _
                    (λ w. laws.keeps_asset_edge rule.label label _ _ _ _ _ w n refl h)
                    (λ _.
                      locate-Keeps rule.label id (truthy (resolve_area_id home entity_id)) n h))))

  unless_overridden-Keeps :
      (home : Home) (name : String) (rule : ClassificationRule) (o : Bool)
      → str_eq rule.label "SemanticType" ≡ false
      → (o ≡ false → str_eq rule.label label ≡ false)
      → Keeps (unless_overridden graph home entity_id name rule o)
  unless_overridden-Keeps home name rule true n h w = refl
  unless_overridden-Keeps home name rule false n h w =
      bind-Keeps (apply_rule graph home entity_id name rule) _
        (apply_rule-Keeps home name rule n (h refl)) (λ _ _. refl) w

  -- A rule whose type is not overridden is not the overridden type's.
  other_type :
      (l : String) (w : W)
      → overridden (view w label) ≡ true
      → overridden (view w l) ≡ false
      → str_eq l label ≡ false
  other_type l w o p = elim (Bool-cases (str_eq l label)) [
    | inl e ↦ absurd (ground (arith, ap (λ m. overridden (view w m)) ((eq_iff l label).0 e)))
    | inr e ↦ e
  ]

  classify_rule-Keeps :
      (home : Home) (name : String) (rule : ClassificationRule) (w : W)
      → str_eq rule.label "SemanticType" ≡ false
      → overridden (view w label) ≡ true
      → view (classify_rule graph home entity_id name rule w).1 label ≡ view w label
  unfolding classify_rule
  classify_rule-Keeps home name rule w n o = rw (laws.reads rule.label w) (
      unless_overridden-Keeps home name rule (overridden (view w rule.label)) n
        (other_type rule.label w o) w)

  -- What follows the first rule.
  rest-Keeps :
      (home : Home) (name : String) (found : List ClassificationRule) (r : Result ℕ) (w : W)
      → overridden (view w label) ≡ true
      → view (classify_rules graph home entity_id name found w).1 label ≡ view w label
      → view
          (continue r
            (λ applied.
              classify_rules graph home entity_id name found
              >>= (λ (others : ℕ). pure (applied + others)))
            w).1
          label
        ≡ view w label
  rest-Keeps home name found (err e) w o h = refl
  rest-Keeps home name found (ok n) w o h =
      let others = classify_rules graph home entity_id name found w in
      continue-keeps (λ v. view v label) others.0 (λ (m : ℕ). pure (n + m)) others.1 (λ _ _. refl)
      ∙ h

  classify_rules-Keeps :
      (home : Home) (name : String) (found : List ClassificationRule) (w : W)
      → All IsAsset found
      → overridden (view w label) ≡ true
      → view (classify_rules graph home entity_id name found w).1 label ≡ view w label
  unfolding classify_rules
  classify_rules-Keeps home name [] w n o = refl
  classify_rules-Keeps home name (rule ∷ found) w (n, ns) o =
      let step = classify_rule graph home entity_id name rule w in
      let kept = classify_rule-Keeps home name rule w n o in
      let o' = ap overridden kept ∙ o in
      rest-Keeps home name found step.0 step.1 o'
        (classify_rules-Keeps home name found step.1 ns o')
      ∙ kept

  -- If the user has overridden a type for an entity, classifying the entity leaves all that the graph
  -- holds about that type and entity as it was. The graph's query must report the override, and its
  -- writes about one type must leave what it holds about another alone.
  pub classify_respects_override :
      (home : Home) (w : W)
      → overridden (view w label) ≡ true
      → view (classify_entity graph home entity_id w).1 label ≡ view w label
  unfolding classify_entity
  classify_respects_override home w o =
      classify_rules-Keeps home _ (matching_rules home entity_id) w
        (matching-IsAsset home entity_id) o
