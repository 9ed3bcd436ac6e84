-- ===== src/GraphBuilder/Registry.antt =====
-- What the builder reads of Home Assistant: the registries, in their order, and the states, and the
-- properties of an entity's node. The helper integrations that list what an automation or a script
-- refers to are an interface.
use Prim.Native.Char.{code}
use hass_ontology_fix.Common.{
  ℕ, String, Bool, true, false, ◌||◌, Option, none, some, List, [], ◌∷◌, str_eq, ltb, ◌==◌,
  if◌then◌else◌,
}
use hass_ontology_fix.Common.Codes.{codes}
use hass_ontology_fix.Common.Json.{Json, Fields}
use hass_ontology_fix.Classify.Home.{truthy, or_else}
use hass_ontology_fix.GraphBuilder.Measurement.{
  Numbers, MeasuredState, Measurement, MeasurementStatus, normalize_current_measurement,
}

-- A value that is only passed on is JSON.
pub record FloorEntry : Type 0 where
  pub floor_id : String
  pub name : Json
  pub level : Json
  pub icon : Json

pub record AreaEntry : Type 0 where
  pub id : String
  pub name : Json
  pub icon : Json
  pub floor_id : Option String

pub record DeviceEntry : Type 0 where
  pub id : String
  pub name_by_user : Option String
  pub name : Option String
  pub manufacturer : Json
  pub model : Json
  pub area_id : Option String

pub record LabelEntry : Type 0 where
  pub label_id : String
  pub name : Json
  pub color : Json

pub record RegistryEntry : Type 0 where
  pub entity_id : String
  pub platform : String
  pub name : Option String
  pub device_id : Option String
  pub area_id : Option String
  pub labels : List String

-- The attribute `entity_id`: one id or several, none where it is missing.
pub data Members : Type 0 where
  one : String → Members
  many : List String → Members

pub record EntityState (Time : Type 0) : Type 0 where
  pub entity_id : String
  pub name : String
  pub last_changed : String
  pub measured : MeasuredState Time
  pub friendly_name : Option String
  pub members : Members

pub record EntitySyncContext (Time : Type 0) : Type 0 where
  pub state : EntityState Time
  pub measurement_last_updated : Time

pub record Hass (Time : Type 0) : Type 0 where
  pub floors : List FloorEntry
  pub areas : List AreaEntry
  pub devices : List DeviceEntry
  pub labels : List LabelEntry
  pub entities : List RegistryEntry
  pub states : List (EntityState Time)
  pub entities_in_automation : String → List String
  pub entities_in_script : String → List String
  -- The order in which Python goes over a set of texts.
  pub set_order : List String → List String

abbrev pub json_of : Option String → Json
json_of none = Json.null
json_of (some s) = Json.string s

-- `entity_id.split(".", 1)[0]`
abbrev pub domain_text : String → String
domain_text String.[] = String.[]
domain_text (String.◌∷◌ c s) =
    let rest = domain_text s in if code c == 46 then String.[] else String.◌∷◌ c rest

-- The order of texts by their codes.
abbrev pub is_before : List ℕ → List ℕ → Bool
is_before xs [] = false
is_before [] (d ∷ ds) = true
is_before (c ∷ cs) (d ∷ ds) = let rest = is_before cs ds in if c == d then rest else ltb c d

abbrev insert_sorted : String → List String → List String
insert_sorted s [] = s ∷ []
insert_sorted s (x ∷ xs) =
    let rest = insert_sorted s xs in
    if str_eq s x then x ∷ xs else if is_before (codes s) (codes x) then s ∷ x ∷ xs else x ∷ rest

-- `sorted` of the set of some texts
abbrev pub sorted_set : List String → List String
sorted_set [] = []
sorted_set (s ∷ rest) = insert_sorted s (sorted_set rest)

abbrev pub find_area : String → List AreaEntry → Option AreaEntry
find_area id [] = none
find_area id (a ∷ rest) = if str_eq a.id id then some a else find_area id rest

abbrev pub get_device : String → List DeviceEntry → Option DeviceEntry
get_device id [] = none
get_device id (d ∷ rest) = if str_eq d.id id then some d else get_device id rest

abbrev pub find_entry : String → List RegistryEntry → Option RegistryEntry
find_entry id [] = none
find_entry id (e ∷ rest) = if str_eq e.entity_id id then some e else find_entry id rest

abbrev pub find_state :
    {Time : Type 0} → String → List (EntityState Time) → Option (EntityState Time)
find_state id [] = none
find_state id (s ∷ rest) = if str_eq s.entity_id id then some s else find_state id rest

-- `a or b`
abbrev pub first_text : Option String → Option String → Option String
first_text none other = other
first_text (some String.[]) other = other
first_text (some (String.◌∷◌ c s)) other = some (String.◌∷◌ c s)

abbrev status_text : MeasurementStatus → String
status_text MeasurementStatus.status_available = "available"
status_text MeasurementStatus.status_unavailable = "unavailable"
status_text MeasurementStatus.status_unsupported_unit = "unsupported_unit"
status_text MeasurementStatus.status_invalid_value = "invalid_value"

-- `_ENTITY_MEASUREMENT_REMOVE`
abbrev pub is_measurement_key : String → Bool
is_measurement_key key =
    str_eq key "measurement_kind"
    || str_eq key "measurement_status"
    || str_eq key "battery_percentage"
    || str_eq key "power_watts"
    || str_eq key "measurement_last_updated"
    || str_eq key "measurement_last_updated_epoch"

module _ {Time F : Type 0} (numbers : Numbers Time F) (json_of_float : F → Json) where
  abbrev with_float : String → Option F → Fields → Fields
  with_float key none rest = rest
  with_float key (some v) rest = Fields.field key (json_of_float v) rest

  abbrev measurement_fields : Option (Measurement F) → Fields
  measurement_fields none = Fields.end
  measurement_fields (some m) = Fields.field "measurement_kind" (Json.string m.kind) (
      Fields.field "measurement_last_updated" (Json.string m.last_updated) (
        Fields.field "measurement_last_updated_epoch" (json_of_float m.last_updated_epoch) (
          Fields.field "measurement_status" (Json.string (status_text m.status)) (
            with_float "battery_percentage" m.battery_percentage
              (with_float "power_watts" m.power_watts Fields.end)))))

  abbrev state_of_context :
      Option (EntitySyncContext Time) → Option (EntityState Time) → Option (EntityState Time)
  state_of_context none state = state
  state_of_context (some context) state = some context.state

  abbrev updated_of : Option (EntitySyncContext Time) → Option Time
  updated_of none = none
  updated_of (some context) = some context.measurement_last_updated

  abbrev entry_name : Option RegistryEntry → Option String
  entry_name none = none
  entry_name (some entry) = entry.name

  abbrev state_name : Option (EntityState Time) → Option String
  state_name none = none
  state_name (some state) = some state.name

  abbrev with_entry : Option RegistryEntry → Fields → Fields
  with_entry none rest = rest
  with_entry (some entry) rest =
      Fields.field "device_id" (json_of entry.device_id)
        (Fields.field "area_id" (json_of entry.area_id) rest)

  abbrev with_state : Option (EntityState Time) → Fields → Fields
  with_state none rest = rest
  with_state (some s) rest = Fields.field "state" (Json.string s.measured.state) (
      Fields.field "state_updated_at" (Json.string s.last_changed) (
        Fields.field "device_class" (json_of s.measured.device_class)
          (Fields.field "unit_of_measurement" (json_of s.measured.unit_of_measurement) rest)))

  abbrev measurement_of : Option (EntityState Time) → Option Time → Fields
  measurement_of none updated = Fields.end
  measurement_of (some s) updated =
      measurement_fields (normalize_current_measurement numbers s.measured updated)

  -- `_entity_node_properties`: the base properties, which carry the source, and the measurement's.
  unfoldable pub entity_node_properties :
      Hass Time → String → Option (EntitySyncContext Time) → Fields × Fields
  unfolding normalize_current_measurement
  entity_node_properties hass entity_id context =
      let entry = find_entry entity_id hass.entities in
      let state = state_of_context context (find_state entity_id hass.states) in
      let name = or_else (first_text (entry_name entry) (truthy (state_name state))) entity_id in
      (
        Fields.field "name" (Json.string name) (
            with_entry entry
              (with_state state (Fields.field "source" (Json.string "home_assistant") Fields.end))),
        measurement_of state (updated_of context),
      )
