-- ===== src/Classify/Apply.antt =====
-- `_classify_entity`, `async_classify_entities` and `async_refresh_semantics`, over the interface to the
-- graph: the query for a user override, `merge_node` and `merge_relationship` of graph_builder.py.
use Prim.Native.String.{◌++◌}
use hass_ontology_fix.Common.{
  ℕ, ◌+◌, ltb, String, Bool, true, false, Option, none, some, List, [], ◌∷◌, str_eq, if◌then◌else◌,
}
use hass_ontology_fix.Common.Dict.{Dict}
use hass_ontology_fix.Common.Errors.{Action, ◌>>=◌, ◌>>◌, pure}
use hass_ontology_fix.Classify.Home.{Home, Entry, truthy, entity_signals, resolve_area_id}
use hass_ontology_fix.Classify.Rules.{ClassificationRule, matching_rules}

pub record SemanticGraph (W : Type 0) : Type 0 where
  pub has_user_override : String → String → Action W Bool
  -- label, id, the name property, source
  pub merge_node : String → String → String → String → Action W (Unit {0})
  -- the label and id it comes from, its type, the label and id it goes to, source
  pub merge_relationship : String → String → String → String → String → String → Action W (Unit {0})

-- `semantic_ha_id`
abbrev pub semantic_ha_id : String → String → String
semantic_ha_id entity_id label = entity_id ++ ("::" ++ label)

module _ {W : Type 0} (graph : SemanticGraph W) where
  abbrev pub locate : String → String → Option String → Action W (Unit {0})
  locate label asset_id none = pure tt
  locate label asset_id (some area) =
      graph.merge_relationship label asset_id "LOCATED_IN" "Area" area "inferred"

  -- The writes for one rule.
  unfoldable pub apply_rule : Home → String → String → ClassificationRule → Action W (Unit {0})
  unfolding resolve_area_id
  apply_rule home entity_id name rule = do
    graph.merge_node "SemanticType" rule.label rule.label "generated"
    graph.merge_relationship "Entity" entity_id "CLASSIFIED_AS" "SemanticType" rule.label "inferred"
    graph.merge_node rule.label (semantic_ha_id entity_id rule.label) name "inferred"
    graph.merge_relationship rule.label (semantic_ha_id entity_id rule.label) rule.back_relationship
        "Entity" entity_id "inferred"
    locate rule.label (semantic_ha_id entity_id rule.label)
        (truthy (resolve_area_id home entity_id))

  abbrev pub unless_overridden : Home → String → String → ClassificationRule → Bool → Action W ℕ
  unless_overridden home entity_id name rule true = pure 0
  unless_overridden home entity_id name rule false = do apply_rule home entity_id name rule; pure 1

  unfoldable pub classify_rule : Home → String → String → ClassificationRule → Action W ℕ
  unfolding apply_rule
  classify_rule home entity_id name rule = do
    overridden ← graph.has_user_override entity_id rule.label
    unless_overridden home entity_id name rule overridden

  -- The loop over the rules that match.
  unfoldable pub classify_rules : Home → String → String → List ClassificationRule → Action W ℕ
  unfolding classify_rule
  classify_rules home entity_id name [] = pure 0
  classify_rules home entity_id name (rule ∷ found) = do
    applied ← classify_rule home entity_id name rule
    others ← classify_rules home entity_id name found
    pure (applied + others)

  unfoldable pub classify_entity : Home → String → Action W ℕ
  unfolding classify_rules entity_signals matching_rules
  classify_entity home entity_id =
      classify_rules home entity_id (entity_signals home entity_id).friendly_name
        (matching_rules home entity_id)

  abbrev classify_registered : Home → String → Entry → Action W ℕ
  classify_registered home entity_id entry =
      if str_eq entry.platform "ontology"
      then pure 0
      else (do applied ← classify_entity home entity_id; pure (if ltb 0 applied then 1 else 0))

  -- The loop over the registry.
  unfoldable pub classify_entries : Home → Dict Entry → Action W ℕ
  unfolding classify_entity
  classify_entries home [] = pure 0
  classify_entries home ((entity_id, entry) ∷ entries) = do
    matched ← classify_registered home entity_id entry
    others ← classify_entries home entries
    pure (matched + others)

  unfoldable pub async_classify_entities : Home → Action W ℕ
  unfolding classify_entries
  async_classify_entities home = classify_entries home home.entries

  unfoldable pub async_refresh_semantics : Home → Option String → Action W ℕ
  unfolding classify_entity async_classify_entities
  async_refresh_semantics home (some entity_id) = classify_entity home entity_id
  async_refresh_semantics home none = async_classify_entities home
