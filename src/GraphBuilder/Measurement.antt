-- ===== src/GraphBuilder/Measurement.antt =====
-- `normalize_current_measurement` of graph_builder.py. Times and floating point are an interface.
use hass_ontology_fix.Common.{
  String, Bool, false, ◌&&◌, ◌||◌, not, Option, none, some, str_eq, if◌then◌else◌,
}

pub record Numbers (Time F : Type 0) : Type 0 where
  -- `float(text)`, none where it raises
  pub float : String → Option F
  pub is_finite : F → Bool
  -- `0 <= value <= 100`
  pub is_percentage : F → Bool
  pub thousandfold : F → F
  -- `astimezone(UTC).isoformat()` and `.timestamp()`
  pub isoformat : Time → String
  pub timestamp : Time → F

pub data MeasurementStatus : Type 0 where
  status_available status_unavailable status_unsupported_unit status_invalid_value :
      MeasurementStatus

pub record MeasuredState (Time : Type 0) : Type 0 where
  pub state : String
  pub device_class : Option String
  pub unit_of_measurement : Option String
  pub last_updated : Time

pub record Measurement (F : Type 0) : Type 0 where
  pub kind : String
  pub last_updated : String
  pub last_updated_epoch : F
  pub status : MeasurementStatus
  pub battery_percentage : Option F
  pub power_watts : Option F

abbrev pub is_unit : Option String → String → Bool
is_unit none unit = false
is_unit (some u) unit = str_eq u unit

abbrev pub is_battery : String → Bool
is_battery kind = str_eq kind "battery"

abbrev pub is_supported_unit : String → Option String → Bool
is_supported_unit kind unit =
    if is_battery kind then is_unit unit "%" else is_unit unit "W" || is_unit unit "kW"

abbrev updated_at : {Time : Type 0} → Option Time → Time → Time
updated_at none last_updated = last_updated
updated_at (some t) last_updated = t

module _ {Time F : Type 0} (numbers : Numbers Time F) where
  abbrev measured : String → Time → MeasurementStatus → Option F → Option F → Option (Measurement F)
  measured kind updated status battery watts = some (record {
    kind = kind;
    last_updated = numbers.isoformat updated;
    last_updated_epoch = numbers.timestamp updated;
    status = status;
    battery_percentage = battery;
    power_watts = watts;
  })

  abbrev with_value : String → Time → Option String → Option F → Option (Measurement F)
  with_value kind updated unit none = measured kind updated status_invalid_value none none
  with_value kind updated unit (some value) =
      if not (numbers.is_finite value) || (is_battery kind && not (numbers.is_percentage value))
      then measured kind updated status_invalid_value none none
      else if is_battery kind
      then measured kind updated status_available (some value) none
      else measured kind updated status_available none
          (some (if is_unit unit "kW" then numbers.thousandfold value else value))

  abbrev of_kind : String → Time → MeasuredState Time → Option (Measurement F)
  of_kind kind updated s =
      if str_eq s.state "unknown" || str_eq s.state "unavailable"
      then measured kind updated status_unavailable none none
      else if not (is_supported_unit kind s.unit_of_measurement)
      then measured kind updated status_unsupported_unit none none
      else with_value kind updated s.unit_of_measurement (numbers.float s.state)

  abbrev by_class : Option String → Time → MeasuredState Time → Option (Measurement F)
  by_class none updated s = none
  by_class (some kind) updated s =
      if is_battery kind || str_eq kind "power" then of_kind kind updated s else none

  -- None stands for the empty dictionary.
  unfoldable pub normalize_current_measurement :
      MeasuredState Time → Option Time → Option (Measurement F)
  normalize_current_measurement s measurement_last_updated =
      by_class s.device_class (updated_at measurement_last_updated s.last_updated) s
