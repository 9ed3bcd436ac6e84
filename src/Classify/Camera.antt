-- ===== src/Classify/Camera.antt =====
-- Entities of one camera maker are cameras, and never vehicles.
use hass_ontology_fix.Common.{
  String, Bool, true, false, ◌≡◌, refl, ◌∙◌, ◌&&◌, List, [], ◌∷◌, any, filter, str_eq, arith,
}
use hass_ontology_fix.Classify.Home.{Home, Signals, entity_signals}
use hass_ontology_fix.Classify.Rules.{
  ClassificationRule, rules, rule_matches, matching_rules, one_of,
}

abbrev pub has_label : String → List ClassificationRule → Bool
has_label label found = any (λ rule. str_eq rule.label label) found

any-filter :
    {A : Type 0} (p q : A → Bool) (xs : List A) → any q (filter p xs) ≡ any (λ x. p x && q x) xs
any-filter p q [] = refl
any-filter p q (x ∷ xs) = ground (arith, any-filter p q xs)

abbrev vehicle_rule : ClassificationRule
vehicle_rule = record {
  label = "Vehicle";
  back_relationship = "MEASURED_BY";
  domains = "device_tracker" ∷ "sensor" ∷ "binary_sensor" ∷ [];
  device_classes = [];
  keywords = "car" ∷ "vehicle" ∷ "truck" ∷ "ev charger" ∷ [];
  manufacturers = [];
  exclude_manufacturers = "Reolink" ∷ [];
}

abbrev camera_rule : ClassificationRule
camera_rule = record {
  label = "Camera";
  back_relationship = "OBSERVED_BY";
  domains = [];
  device_classes = [];
  keywords = [];
  manufacturers = "Reolink" ∷ [];
  exclude_manufacturers = [];
}

camera_matches : (s : Signals) → rule_matches camera_rule s ≡ one_of s.manufacturer ("Reolink" ∷ [])
unfolding rule_matches
camera_matches s = refl

vehicle_excludes :
    (s : Signals)
    → one_of s.manufacturer ("Reolink" ∷ []) ≡ true
    → rule_matches vehicle_rule s ≡ false
unfolding rule_matches
vehicle_excludes s h = rw h (ground arith)

-- No rule but the last has that label, and none but the second has the other.
camera_label :
    (s : Signals)
    → has_label "Camera" (filter (λ rule. rule_matches rule s) rules) ≡ rule_matches camera_rule s
camera_label s =
    any-filter (λ rule. rule_matches rule s) (λ rule. str_eq rule.label "Camera") rules
    ∙ ground arith

vehicle_label :
    (s : Signals)
    → has_label "Vehicle" (filter (λ rule. rule_matches rule s) rules) ≡ rule_matches vehicle_rule s
vehicle_label s =
    any-filter (λ rule. rule_matches rule s) (λ rule. str_eq rule.label "Vehicle") rules
    ∙ ground arith

-- An entity is classified as a camera exactly if its device's maker is Reolink, and no entity is
-- classified as a camera and as a vehicle.
pub camera_exact :
    (home : Home) (entity_id : String)
    → let found = matching_rules home entity_id in
      (has_label "Camera" found
        ≡ one_of (entity_signals home entity_id).manufacturer ("Reolink" ∷ []))
      × ((has_label "Camera" found && has_label "Vehicle" found) ≡ false)
unfolding matching_rules
camera_exact home entity_id =
    let s = entity_signals home entity_id in
    (
      camera_label s ∙ camera_matches s,
      rw (camera_label s, vehicle_label s) (ground (arith, camera_matches s, vehicle_excludes s)),
    )
