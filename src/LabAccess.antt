-- ===== src/LabAccess.antt =====
-- lab_access.py: whether the add-on's Lab can be used, as its GraphQL endpoint tells. Sending the request
-- and reading the reply's JSON is an interface.
mod Tests
use hass_ontology_fix.Common.{
  ℕ, ◌-◌, String, Bool, true, false, ◌&&◌, ◌||◌, not, Option, none, some, is_some, if◌then◌else◌,
}
use hass_ontology_fix.Common.Errors.{Exception, ErrorClass, Result, ok, err, Action}
use hass_ontology_fix.Common.Json.{Json, Fields, get}
use hass_ontology_fix.Classify.Home.{truthy}
use hass_ontology_fix.Presentation.Text.{is_true}

pub record Capability : Type 0 where
  pub available : Bool
  pub reason : Json
  pub ingress_path : Json
  pub checked_at : Json

abbrev pub no_capability : String → Capability
no_capability reason = record {
  available = false;
  reason = Json.string reason;
  ingress_path = Json.null;
  checked_at = Json.null;
}

-- The address and the token, whether there is a session and whether it is the object's own, the last
-- reply, and how long it took in milliseconds.
pub record Lab : Type 0 where
  pub url : Option String
  pub token : Option String
  pub has_session : Bool
  pub owns_session : Bool
  pub last_capability : Capability
  pub probe_duration : Option ℕ

abbrev pub init_lab : Option String → Option String → Bool → Lab
init_lab url token given_session = record {
  url = url;
  token = token;
  has_session = given_session;
  owns_session = not given_session && is_some (truthy url);
  last_capability = no_capability "NOT_ADDON_BACKEND";
  probe_duration = none;
}

abbrev no_object : Exception
no_object = record { class = ErrorClass.other "AttributeError"; message = "no attribute 'get'" }

-- `value.get` needs a dictionary.
abbrev object_of : Json → Result Fields
object_of (Json.object fields) = ok fields
object_of _ = err no_object

-- `fields.get(key, {})`, and then its own `get`
abbrev object_at : Option Json → Result Fields
object_at none = ok Fields.end
object_at (some value) = object_of value

abbrev inner_object : String → Result Fields → Result Fields
inner_object key (err e) = err e
inner_object key (ok fields) = object_at (get key fields)

abbrev or_reason : Option Json → Json
or_reason none = Json.string "TRANSPORT_UNAVAILABLE"
or_reason (some reason) = reason

abbrev or_null : Option Json → Json
or_null none = Json.null
or_null (some value) = value

abbrev capability_in : Result Fields → Capability
capability_in (err e) = no_capability "TRANSPORT_UNAVAILABLE"
capability_in (ok lab) = record {
  available = is_true (or_null (get "available" lab));
  reason = or_reason (get "reason" lab);
  ingress_path = or_null (get "ingressPath" lab);
  checked_at = or_null (get "checkedAt" lab);
}

abbrev body_of : Result Json → Result Fields
body_of (err e) = err e
body_of (ok body) = inner_object "labCapability" (inner_object "data" (object_of body))

pub record Endpoint (W : Type 0) : Type 0 where
  -- the request to this address with this token, and the reply's JSON
  pub post : String → String → Action W Json
  -- milliseconds
  pub monotonic : W → ℕ

-- `_ensure_session`, where the address is there
abbrev ensure_session : Lab → Lab
ensure_session lab = record lab { has_session = lab.has_session || lab.owns_session }

module _ {W : Type 0} (endpoint : Endpoint W) where
  abbrev probe : String → String → Lab → W → (Capability × Lab) × W
  probe url token lab w =
      let (r, w') = endpoint.post url token w in
      let capability = capability_in (body_of r) in
      (
        (
          capability,
          record lab {
            last_capability = capability;
            probe_duration = some (endpoint.monotonic w' - endpoint.monotonic w);
          },
        ),
        w',
      )

  abbrev probe_with : Bool → String → String → Lab → W → (Capability × Lab) × W
  probe_with true url token lab w = probe url token lab w
  probe_with false url token lab w = ((no_capability "NOT_ADDON_BACKEND", lab), w)

  abbrev capability_by : Option String → Option String → Lab → W → (Capability × Lab) × W
  capability_by (some url) (some token) lab w =
      let ensured = ensure_session lab in probe_with ensured.has_session url token ensured w
  capability_by _ _ lab w = ((no_capability "NOT_ADDON_BACKEND", lab), w)

  unfoldable pub get_capability : Lab → W → (Capability × Lab) × W
  get_capability lab w = capability_by (truthy lab.url) (truthy lab.token) lab w

-- The session that `close` closes is the object's own.
unfoldable pub close_session : Lab → Lab
close_session lab = record lab { has_session = lab.has_session && not lab.owns_session }
