-- ===== src/Classify/Tests.antt =====
-- A home with a camera's entity and a plug's, a graph that is a list of writes with the pinned types, and
-- the theorems there.
use hass_ontology_fix.Common.{
  ◌≡◌, refl, String, Bool, none, some, List, [], ◌∷◌, map, str_eq, if◌then◌else◌, ℕ, suc,
}
use hass_ontology_fix.Common.Errors.{ok}
use hass_ontology_fix.Classify.Home.{Home}
use hass_ontology_fix.Classify.Rules.{matching_rules}
use hass_ontology_fix.Classify.Apply.{SemanticGraph}
use hass_ontology_fix.Classify.Protect.{TypeLaws, classify_respects_override}
use hass_ontology_fix.Classify.Apply.{classify_entity}

abbrev home : Home
home = record {
  entries =
      (
        "binary_sensor.front_vehicle",
        record { platform = "reolink"; area_id = none; device_id = some "cam" },
      )
      ∷ ("sensor.plug_power", record { platform = "hue"; area_id = some "hall"; device_id = none })
      ∷ [];
  devices =
      (
        "cam",
        record {
          name_by_user = none;
          name = some "Front";
          manufacturer = some "Reolink";
          area_id = some "yard";
        },
      )
      ∷ [];
  area_names = ("yard", some "Yard") ∷ [];
  states =
      (
        "sensor.plug_power",
        record { device_class = some "power"; friendly_name = some "Dryer consumption" },
      )
      ∷ [];
}

abbrev labels : List String
labels = map (λ rule. rule.label) (matching_rules home "binary_sensor.front_vehicle")

camera_only : labels ≡ "Camera" ∷ []
unfolding matching_rules
camera_only = refl

-- What the graph holds: the pinned types, and how many writes each type has seen.
record World : Type 0 where
  pins : String → Bool
  writes : String → ℕ

record Held : Type 0 where
  pinned : Bool
  written : ℕ

abbrev touch : String → World → World
touch label w = record w { writes = λ l. if str_eq label l then suc (w.writes l) else w.writes l }

abbrev type_of : String → String → String
type_of label ha_id = if str_eq label "SemanticType" then ha_id else label

abbrev touched_type : String → String → String → String
touched_type label to_label to_id = if str_eq to_label "SemanticType" then to_id else label

abbrev graph : SemanticGraph World
graph = record {
  has_user_override = λ entity_id label w. (ok (w.pins label), w);
  merge_node = λ label ha_id name source w. (ok tt, touch (type_of label ha_id) w);
  merge_relationship = λ label ha_id rel to_label to_id source w.
      (ok tt, touch (touched_type label to_label to_id) w);
}

abbrev view : World → String → Held
view w label = record { pinned = w.pins label; written = w.writes label }

type_laws : TypeLaws graph "binary_sensor.front_vehicle" view (λ held. held.pinned)
type_laws = record {
  reads = λ label w. refl;
  keeps_type = λ l l' name source w h. rw h refl;
  keeps_edge = λ l l' rel source w h. rw h refl;
  keeps_asset = λ l l' id name source w n h. rw n (rw h refl);
  keeps_asset_edge = λ l l' id rel to_label to_id source w n t h. rw t (rw h refl);
}

abbrev pinned : World
pinned = record { pins = str_eq "Camera"; writes = λ _. 0 }

classify_respects_override_example :
    view (classify_entity graph home "binary_sensor.front_vehicle" pinned).1 "Camera"
    ≡ view pinned "Camera"
classify_respects_override_example =
    classify_respects_override graph "binary_sensor.front_vehicle" view (λ held. held.pinned)
      type_laws "Camera" home pinned refl
