-- ===== src/Validation/Detect.antt =====
-- The detections of validation.py and `async_run_validation`. What a query answers on the graph, the states
-- and the registries are arguments.
pub mod Names
use hass_ontology_fix.Common.{
  ℕ, suc, ◌==◌, String, Bool, true, false, ◌||◌, not, Option, none, some, List, [], ◌∷◌, ◌++◌, map,
  filter, any, length, str_eq, leb, if◌then◌else◌,
}
use hass_ontology_fix.Common.Dict.{Dict}
use hass_ontology_fix.Common.Errors.{Result, ok, err, Action, ◌>>=◌, pure}
use hass_ontology_fix.Schema.{schema_version}
use hass_ontology_fix.Classify.Home.{Home, Entry}
use hass_ontology_fix.Classify.Rules.{ClassificationRule, matching_rules}
use hass_ontology_fix.Validation.{Graph, Answer, reconcile_category}
use hass_ontology_fix.Validation.Detect.Names.{expose_pair}

-- The queries that answer with ids, by the detection that sends them.
pub data Query : Type 0 where
  missing_area missing_device orphan_entity orphan_device : Query
  classified_entities invalid_relationship already_classified : Query
  floor_missing_spatial_coverage entity_missing_floor_pin : Query

-- What the client answers, and the current states.
pub record Reads : Type 0 where
  pub ids : Query → Graph → Result (List String)
  pub same_names : Graph → Result (List (List String))
  pub get_schema_version : Graph → Result (Option String)
  pub state_of : String → Option String

abbrev pub Detected : Type 0
Detected = List (String × String)

abbrev pub labelled : String → List String → Detected
labelled label ids = map (λ (id : String). (id, label)) ids

abbrev pub read : {A : Type 0} → (Graph → Result A) → Action Graph A
read query g = (query g, record g { queries = suc g.queries })

module _ (reads : Reads) (home : Home) where
  abbrev detect_by : Query → String → Action Graph Detected
  detect_by query label = do rows ← read (reads.ids query); pure (labelled label rows)

  abbrev detect_missing_area : Action Graph Detected
  detect_missing_area = detect_by Query.missing_area "Device"

  abbrev detect_missing_device : Action Graph Detected
  detect_missing_device = detect_by Query.missing_device "Entity"

  abbrev detect_orphan_entity : Action Graph Detected
  detect_orphan_entity = detect_by Query.orphan_entity "Entity"

  abbrev detect_orphan_device : Action Graph Detected
  detect_orphan_device = detect_by Query.orphan_device "Device"

  abbrev detect_invalid_relationship : Action Graph Detected
  detect_invalid_relationship = detect_by Query.invalid_relationship "Entity"

  abbrev detect_floor_missing_spatial_coverage : Action Graph Detected
  detect_floor_missing_spatial_coverage = detect_by Query.floor_missing_spatial_coverage "Floor"

  abbrev detect_entity_missing_floor_pin : Action Graph Detected
  detect_entity_missing_floor_pin = detect_by Query.entity_missing_floor_pin "Entity"

  abbrev named_alike : List (List String) → Detected
  named_alike [] = []
  named_alike (ids ∷ rows) =
      (if expose_pair ids then [] else labelled "Entity" ids) ++ named_alike rows

  abbrev detect_duplicate_entity : Action Graph Detected
  detect_duplicate_entity = do rows ← read reads.same_names; pure (named_alike rows)

  abbrev is_unavailable : Option String → Bool
  is_unavailable none = false
  is_unavailable (some state) = str_eq state "unavailable"

  abbrev detect_unavailable_critical_entity : Action Graph Detected
  detect_unavailable_critical_entity = do
    rows ← read (reads.ids Query.classified_entities)
    pure (labelled "Entity" (filter (λ id. is_unavailable (reads.state_of id)) rows))

  abbrev is_other_version : Option String → Bool
  is_other_version none = false
  is_other_version (some current) = not (str_eq current schema_version)

  abbrev detect_schema_mismatch : Action Graph Detected
  detect_schema_mismatch = do
    current ← read reads.get_schema_version
    pure (
        if is_other_version current then ("home_assistant_ontology", "OntologySchema") ∷ [] else [])

  abbrev has_rule : List ClassificationRule → Bool
  has_rule [] = false
  has_rule (_ ∷ _) = true

  abbrev unclassified : List String → Dict Entry → Detected
  unclassified classified [] = []
  unclassified classified ((entity_id, entry) ∷ entries) =
      let rest = unclassified classified entries in
      if str_eq entry.platform "ontology" || any (str_eq entity_id) classified
      then rest
      else if has_rule (matching_rules home entity_id)
      then (entity_id, "Entity") ∷ rest
      else rest

  abbrev detect_missing_semantic_classification : Action Graph Detected
  detect_missing_semantic_classification = do
    rows ← read (reads.ids Query.already_classified)
    pure (unclassified rows home.entries)

  -- The categories with their severities, in the order of the run.
  abbrev pub detectors : List (String × (String × Action Graph Detected))
  detectors =
      ("missing_area", ("info", detect_missing_area))
      ∷ ("missing_device", ("info", detect_missing_device))
      ∷ ("orphan_entity", ("warning", detect_orphan_entity))
      ∷ ("orphan_device", ("warning", detect_orphan_device))
      ∷ ("duplicate_entity", ("warning", detect_duplicate_entity))
      ∷ ("unavailable_critical_entity", ("error", detect_unavailable_critical_entity))
      ∷ ("invalid_relationship", ("error", detect_invalid_relationship))
      ∷ ("schema_mismatch", ("error", detect_schema_mismatch))
      ∷ ("missing_semantic_classification", ("info", detect_missing_semantic_classification))
      ∷ ("floor_missing_spatial_coverage", ("info", detect_floor_missing_spatial_coverage))
      ∷ ("entity_missing_floor_pin", ("info", detect_entity_missing_floor_pin))
      ∷ []

pub record Detection : Type 0 where
  pub category : String
  pub severity : String
  pub detected : Detected

unfoldable pub detect_all :
    List (String × (String × Action Graph Detected)) → Action Graph (List Detection)
detect_all [] = pure []
detect_all ((category, (severity, detect)) ∷ others) = do
  detected ← detect
  rest ← detect_all others
  pure (record { category = category; severity = severity; detected = detected } ∷ rest)

module _ (answers : ℕ → Answer) (clock : ℕ → String) where
  unfoldable pub reconcile_each : List Detection → Action Graph (Dict ℕ)
  unfolding reconcile_category
  reconcile_each [] = pure []
  reconcile_each (d ∷ ds) = do
    count ← reconcile_category answers clock d.category d.detected d.severity
    counts ← reconcile_each ds
    pure ((d.category, count) ∷ counts)

  unfoldable pub async_run_validation : Reads → Home → Action Graph (Dict ℕ)
  unfolding detect_all reconcile_each
  async_run_validation reads home = do
    detections ← detect_all (detectors reads home)
    reconcile_each detections
