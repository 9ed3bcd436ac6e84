-- ===== src/Presentation/Normalize.antt =====
-- The safe records that graph_backends.py makes of a node and of a relationship, each an object as the
-- client returns it.
use Prim.Native.String.{◌++◌}
use hass_ontology_fix.Common.{
  ℕ, suc, ltb, String, Bool, true, false, ◌&&◌, ◌||◌, not, Option, none, some, List, [], ◌∷◌, map,
  str_eq, if◌then◌else◌,
}
use hass_ontology_fix.Common.Dict.{Dict, lookup}
use hass_ontology_fix.Common.Errors.{ErrorClass, Result, ok, err}
use hass_ontology_fix.Common.Json.{Json, Fields, get, of_items}
use hass_ontology_fix.Redact.{redact_value, is_secret_name}
use hass_ontology_fix.Presentation.Text.{
  Python, bound, bounded_text, is_true, or_value, is_safe_name, is_sensitive, is_icon,
}

abbrev pub graph_property_limit : ℕ
graph_property_limit = 25

abbrev graph_property_value_max_length : ℕ
graph_property_value_max_length = 2048

abbrev node_types : Dict String
node_types =
    ("Area", "AREA")
    ∷ ("Device", "DEVICE")
    ∷ ("Entity", "ENTITY")
    ∷ ("Automation", "AUTOMATION")
    ∷ ("Scene", "SCENE")
    ∷ ("Script", "SCRIPT")
    ∷ ("Dashboard", "DASHBOARD")
    ∷ ("DashboardCard", "DASHBOARD_CARD")
    ∷ ("SemanticType", "SEMANTIC_TYPE")
    ∷ ("ValidationFinding", "VALIDATION_FINDING")
    ∷ []

pub record Property : Type 0 where
  pub name : String
  pub value : Json
  pub display_value : String

pub record Node : Type 0 where
  pub id : String
  pub ha_id : String
  pub type : String
  pub label : String
  pub icon : Option Json
  pub state : Option String
  pub unavailable : Bool
  pub finding_severity : Option String
  pub properties : List Property

pub record Relationship : Type 0 where
  pub id : String
  pub type : String
  pub source : String
  pub target : String
  pub source_class : Option String
  pub properties : List Property

abbrev pub keys : Fields → List String
keys Fields.end = []
keys (Fields.field key value fields) = key ∷ keys fields

abbrev own_properties : Option Json → Fields → Fields
own_properties none fields = fields
own_properties (some (Json.object properties)) fields = properties
own_properties (some _) fields = Fields.end

abbrev raw_properties : Json → Fields
raw_properties (Json.object fields) = own_properties (get "properties" fields) fields
raw_properties _ = Fields.end

abbrev metadata : Json → Fields
metadata (Json.object fields) = fields
metadata _ = Fields.end

abbrev label_items : Option Json → List Json
label_items (some (Json.array items)) = of_items items
label_items _ = []

abbrev pub or_null : Option Json → Json
or_null none = Json.null
or_null (some value) = value

abbrev pub is_skipped : String → Bool
is_skipped name = not (is_safe_name name) || is_secret_name name || is_sensitive name

abbrev or_default : Option Json → String → Option Json
or_default value default = or_value value (some (Json.string default))

-- The upper case of a value that is true.
abbrev upper_of : Python → Option Json → Option String
upper_of python none = none
upper_of python (some value) =
    if is_true value then some (python.upper (python.str value)) else none

abbrev canonical_by : Option String → String → String → String
canonical_by none label rest = rest
canonical_by (some type) label rest = label

abbrev canonical : List String → String
canonical [] = "Other"
canonical (label ∷ labels) = canonical_by (lookup label node_types) label (canonical labels)

abbrev type_of_label : Option String → String
type_of_label none = "OTHER"
type_of_label (some type) = type

abbrev state_of : Python → Option Json → Option String
state_of python none = none
state_of python (some Json.null) = none
state_of python (some value) = some (bounded_text python (some value) 256)

abbrev is_unavailable : String → Bool
is_unavailable state = str_eq state "unknown" || str_eq state "unavailable"

abbrev icon_of : Python → Option Json → Option Json
icon_of python none = none
icon_of python (some icon) = if is_icon (python.str icon) then some icon else none

module _ (python : Python) where
  -- What a property shows: a list or an object as its text.
  abbrev shown : Json → Json
  shown (Json.array items) =
      Json.string (bound graph_property_value_max_length (python.dumps (Json.array items)))
  shown (Json.object fields) =
      Json.string (bound graph_property_value_max_length (python.dumps (Json.object fields)))
  shown (Json.string s) = Json.string (bound graph_property_value_max_length s)
  shown value = value

  abbrev safe_property : Fields → String → Property
  safe_property properties name =
      let value = shown (redact_value (or_null (get name properties))) in
      record {
        name = name;
        value = value;
        display_value = bounded_text python (some value) graph_property_value_max_length;
      }

  abbrev pub take_if : Bool → Property → (ℕ → List Property) → ℕ → List Property
  take_if true property rest taken = property ∷ rest (suc taken)
  take_if false property rest taken = rest taken

  -- The loop over the sorted names, after so many properties were taken.
  unfoldable pub take_properties : Fields → List String → ℕ → List Property
  take_properties properties [] taken = []
  take_properties properties (name ∷ names) taken =
      take_if (ltb taken graph_property_limit && not (is_skipped name))
        (safe_property properties name) (λ n. take_properties properties names n) taken

  unfoldable pub safe_properties : Fields → List Property
  unfolding take_properties
  safe_properties properties = take_properties properties (python.sorted (keys properties)) 0

  abbrev raw_labels : Json → List String
  raw_labels value = python.sorted (map python.str (label_items (get "labels" (metadata value))))

  abbrev named_node : Fields → String → String → Result Node
  named_node properties label ha_id =
      if str_eq ha_id ""
      then err (record {
        class = ErrorClass.value_error;
        message = "Graph node is missing a stable identifier";
      })
      else ok (record {
        id = label ++ (":" ++ ha_id);
        ha_id = ha_id;
        type = type_of_label (lookup label node_types);
        label =
            bounded_text python
              (or_value (get "name" properties) (or_default (get "friendly_name" properties) ha_id))
              256;
        icon = icon_of python (get "icon" properties);
        state = state_of python (get "state" properties);
        unavailable = is_unavailable (python.lower (python.str (or_null (get "state" properties))));
        finding_severity = upper_of python (get "severity" properties);
        properties = safe_properties properties;
      })

  unfoldable pub normalize_graph_node : Json → Result Node
  unfolding safe_properties
  normalize_graph_node value =
      let properties = raw_properties value in
      named_node properties (canonical (raw_labels value))
        (bounded_text python (or_value (get "ha_id" properties) (get "id" properties)) 512)

  abbrev end_of : Option Json → Option Json → String
  end_of endpoint property = bounded_text python (or_value endpoint property) 512

  unfoldable pub normalize_graph_relationship : Json → Relationship
  unfolding safe_properties
  normalize_graph_relationship value =
      let properties = raw_properties value in
      let fields = metadata value in
      let type =
        bounded_text python
          (or_value (get "type" fields) (or_default (get "type" properties) "RELATED_TO")) 128 in
      let source = end_of (get "source" fields) (get "source" properties) in
      let target = end_of (get "target" fields) (get "target" properties) in
      let discriminator =
        bounded_text python
          (or_value (get "id" fields)
            (or_value (get "ha_id" properties) (or_default (get "id" properties) "0")))
          128 in
      record {
        id = type ++ (":" ++ (source ++ (":" ++ (target ++ (":" ++ discriminator)))));
        type = type;
        source = source;
        target = target;
        source_class = upper_of python (
            or_value (get "source_class" fields) (
              or_value (get "sourceClass" fields)
                (or_value (get "source_class" properties) (get "sourceClass" properties))));
        properties = safe_properties properties;
      }
