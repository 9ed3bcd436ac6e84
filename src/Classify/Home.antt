-- ===== src/Classify/Home.antt =====
-- What the classifier reads of Home Assistant: the registries and the states, as dictionaries, and the
-- signals that `_entity_signals` gathers.
use hass_ontology_fix.Common.{
  ℕ, String, Bool, Option, none, some, List, [], ◌∷◌, ◌++◌, map, is_some,
}
use hass_ontology_fix.Common.Dict.{Dict, lookup}
use hass_ontology_fix.Common.Codes.{codes, to_lower, domain_of}

pub record Entry : Type 0 where
  pub platform : String
  pub area_id : Option String
  pub device_id : Option String

pub record Device : Type 0 where
  pub name_by_user : Option String
  pub name : Option String
  pub manufacturer : Option String
  pub area_id : Option String

-- The two attributes of a state that are read.
pub record Attributes : Type 0 where
  pub device_class : Option String
  pub friendly_name : Option String

pub record Home : Type 0 where
  pub entries : Dict Entry
  pub devices : Dict Device
  pub area_names : Dict (Option String)
  pub states : Dict Attributes

-- Python's truth of an optional text.
abbrev pub truthy : Option String → Option String
truthy none = none
truthy (some String.[]) = none
truthy (some (String.◌∷◌ c s)) = some (String.◌∷◌ c s)

-- `a or b`
abbrev pub or_else : Option String → String → String
or_else (some s) t = s
or_else none t = t

abbrev pub device_of : Home → Option String → Option Device
device_of home none = none
device_of home (some id) = lookup id home.devices

abbrev device_area : Option Device → Option String
device_area none = none
device_area (some device) = device.area_id

abbrev own_or_device_area : Option String → Option Device → Option String
own_or_device_area (some area) device = some area
own_or_device_area none device = device_area device

abbrev area_of_entry : Home → Option Entry → Option String
area_of_entry home none = none
area_of_entry home (some entry) =
    own_or_device_area (truthy entry.area_id) (device_of home (truthy entry.device_id))

-- `_resolve_area_id`
unfoldable pub resolve_area_id : Home → String → Option String
resolve_area_id home entity_id = area_of_entry home (lookup entity_id home.entries)

abbrev name_of_area : Option (Option String) → String
name_of_area none = ""
name_of_area (some name) = or_else (truthy name) ""

abbrev area_name : Home → Option String → String
area_name home none = ""
area_name home (some area) = name_of_area (lookup area home.area_names)

abbrev entry_device_id : Option Entry → Option String
entry_device_id none = none
entry_device_id (some entry) = truthy entry.device_id

abbrev device_name : Option Device → String
device_name none = ""
device_name (some device) = or_else (truthy device.name_by_user) (or_else (truthy device.name) "")

abbrev manufacturer_of : Option Device → Option String
manufacturer_of none = none
manufacturer_of (some device) = device.manufacturer

abbrev class_of : Option Attributes → Option String
class_of none = none
class_of (some state) = state.device_class

abbrev name_of : String → Option Attributes → String
name_of entity_id none = entity_id
name_of entity_id (some state) = or_else (truthy state.friendly_name) entity_id

pub record Signals : Type 0 where
  pub domain : List ℕ
  pub device_class : Option String
  pub text : List ℕ
  pub has_device : Bool
  pub friendly_name : String
  pub manufacturer : Option String

abbrev spaced : List String → List ℕ
spaced [] = 32 ∷ []
spaced (word ∷ words) = 32 ∷ (codes word ++ spaced words)

unfoldable pub entity_signals : Home → String → Signals
unfolding resolve_area_id
entity_signals home entity_id =
    let entry = lookup entity_id home.entries in
    let state = lookup entity_id home.states in
    let device = device_of home (entry_device_id entry) in
    let friendly_name = name_of entity_id state in
    let area = area_name home (truthy (resolve_area_id home entity_id)) in
    record {
      domain = domain_of (codes entity_id);
      device_class = class_of state;
      text = map to_lower (spaced (entity_id ∷ friendly_name ∷ device_name device ∷ area ∷ []));
      has_device = is_some (entry_device_id entry);
      friendly_name = friendly_name;
      manufacturer = manufacturer_of device;
    }
