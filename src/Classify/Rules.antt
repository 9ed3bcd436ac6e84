-- ===== src/Classify/Rules.antt =====
-- The rule table and `_rule_matches`.
use hass_ontology_fix.Common.{
  String, Bool, true, false, ◌&&◌, not, Option, none, some, List, [], ◌∷◌, map, any, filter, str_eq,
  if◌then◌else◌,
}
use hass_ontology_fix.Common.Codes.{codes, is_in, occurs}
use hass_ontology_fix.Classify.Home.{Home, Signals, entity_signals}

pub record ClassificationRule : Type 0 where
  pub label : String
  pub back_relationship : String
  pub domains : List String
  pub device_classes : List String
  pub keywords : List String
  pub manufacturers : List String
  pub exclude_manufacturers : List String

abbrev pub rules : List ClassificationRule
rules =
    record {
      label = "GasCylinder";
      back_relationship = "MEASURED_BY";
      domains = "sensor" ∷ "binary_sensor" ∷ [];
      device_classes = "gas" ∷ [];
      keywords = "gas" ∷ "cylinder" ∷ "propane" ∷ "lpg" ∷ [];
      manufacturers = [];
      exclude_manufacturers = [];
    }
    ∷ record {
      label = "Vehicle";
      back_relationship = "MEASURED_BY";
      domains = "device_tracker" ∷ "sensor" ∷ "binary_sensor" ∷ [];
      device_classes = [];
      keywords = "car" ∷ "vehicle" ∷ "truck" ∷ "ev charger" ∷ [];
      manufacturers = [];
      exclude_manufacturers = "Reolink" ∷ [];
    }
    ∷ record {
      label = "EnergyAsset";
      back_relationship = "MEASURED_BY";
      domains = "sensor" ∷ [];
      device_classes = "energy" ∷ "power" ∷ "voltage" ∷ "current" ∷ [];
      keywords = "solar" ∷ "inverter" ∷ "energy" ∷ "power meter" ∷ [];
      manufacturers = [];
      exclude_manufacturers = [];
    }
    ∷ record {
      label = "SecurityDevice";
      back_relationship = "OBSERVED_BY";
      domains = "alarm_control_panel" ∷ "lock" ∷ "binary_sensor" ∷ "camera" ∷ [];
      device_classes = "lock" ∷ "door" ∷ "window" ∷ "safety" ∷ [];
      keywords = "alarm" ∷ "lock" ∷ "camera" ∷ "security" ∷ [];
      manufacturers = [];
      exclude_manufacturers = [];
    }
    ∷ record {
      label = "OccupancySensor";
      back_relationship = "OBSERVED_BY";
      domains = "binary_sensor" ∷ [];
      device_classes = "occupancy" ∷ "motion" ∷ "presence" ∷ [];
      keywords = "occupancy" ∷ "motion" ∷ "presence" ∷ [];
      manufacturers = [];
      exclude_manufacturers = [];
    }
    ∷ record {
      label = "ClimateDevice";
      back_relationship = "MEASURED_BY";
      domains = "climate" ∷ "sensor" ∷ [];
      device_classes = "temperature" ∷ "humidity" ∷ [];
      keywords = "thermostat" ∷ "climate" ∷ "hvac" ∷ "heater" ∷ [];
      manufacturers = [];
      exclude_manufacturers = [];
    }
    ∷ record {
      label = "NetworkDevice";
      back_relationship = "MEASURED_BY";
      domains = "device_tracker" ∷ "sensor" ∷ "binary_sensor" ∷ [];
      device_classes = "connectivity" ∷ [];
      keywords = "router" ∷ "wifi" ∷ "network" ∷ "access point" ∷ [];
      manufacturers = [];
      exclude_manufacturers = [];
    }
    ∷ record {
      label = "BatteryPoweredDevice";
      back_relationship = "MEASURED_BY";
      domains = "sensor" ∷ "binary_sensor" ∷ [];
      device_classes = "battery" ∷ [];
      keywords = "battery" ∷ [];
      manufacturers = [];
      exclude_manufacturers = [];
    }
    ∷ record {
      label = "Camera";
      back_relationship = "OBSERVED_BY";
      domains = [];
      device_classes = [];
      keywords = [];
      manufacturers = "Reolink" ∷ [];
      exclude_manufacturers = [];
    }
    ∷ []

-- The truth of a tuple.
abbrev given : List String → Bool
given [] = false
given (_ ∷ _) = true

-- `value in texts`, where `None` is in none.
abbrev pub one_of : Option String → List String → Bool
one_of none texts = false
one_of (some value) texts = any (str_eq value) texts

unfoldable pub mentions : Signals → List String → Bool
mentions signals words = any (λ word. occurs (codes word) signals.text) words

unfoldable pub rule_matches : ClassificationRule → Signals → Bool
unfolding mentions
rule_matches rule signals =
    if given rule.domains && not (is_in signals.domain (map codes rule.domains))
    then false
    else if given rule.exclude_manufacturers
        && one_of signals.manufacturer rule.exclude_manufacturers
    then false
    else if given rule.manufacturers
    then one_of signals.manufacturer rule.manufacturers
    else if given rule.device_classes && one_of signals.device_class rule.device_classes
    then true
    else if given rule.keywords && mentions signals rule.keywords
    then true
    else not (given rule.device_classes) && not (given rule.keywords)

unfoldable pub matching_rules : Home → String → List ClassificationRule
unfolding entity_signals rule_matches
matching_rules home entity_id =
    let signals = entity_signals home entity_id in filter (λ rule. rule_matches rule signals) rules
