-- ===== src/GraphBuilder/Rows.antt =====
-- What discovery takes out of the registries: the rows of its queries, the pairs and the counts.
use hass_ontology_fix.Common.{
  ℕ, String, Bool, not, Option, none, some, List, [], ◌∷◌, ◌++◌, map, filter, length, str_eq,
  if◌then◌else◌,
}
use hass_ontology_fix.Common.Json.{Json, Fields}
use hass_ontology_fix.Classify.Home.{truthy, or_else}
use hass_ontology_fix.GraphBuilder.{NodeRow, PairRow}
use hass_ontology_fix.GraphBuilder.Labels.{label_entity, home_singleton_id}
use hass_ontology_fix.GraphBuilder.Graph.{Properties, Step, put_node, assign, blank}
use hass_ontology_fix.GraphBuilder.Registry.{
  FloorEntry, AreaEntry, DeviceEntry, LabelEntry, RegistryEntry, EntityState, Members, one, many,
  Hass, json_of, domain_text, sorted_set, find_state, first_text, is_measurement_key,
}

abbrev pub row : String → Fields → NodeRow
row id fields = record { ha_id = id; properties = fields }

abbrev pub pair : String → String → PairRow
pair from to = record { from_id = from; to_id = to }

abbrev pub name_field : Json → Fields → Fields
name_field name rest = Fields.field "name" name rest

-- `[... for x in xs if key(x)]`, of a key that may be missing or empty
abbrev link_with : {A : Type 0} → Option A → (A → PairRow) → List PairRow → List PairRow
link_with none f rest = rest
link_with (some i) f rest = f i ∷ rest

abbrev pub links_by :
    {A : Type 0} → (A → Option String) → (A → String → PairRow) → List A → List PairRow
links_by key f [] = []
links_by key f (x ∷ xs) = link_with (truthy (key x)) (f x) (links_by key f xs)

abbrev pub label_pairs : List RegistryEntry → List PairRow
label_pairs [] = []
label_pairs (e ∷ entries) = map (pair e.entity_id) e.labels ++ label_pairs entries

abbrev texts : List (Option String) → List String
texts [] = []
texts (none ∷ rest) = texts rest
texts (some s ∷ rest) = s ∷ texts rest

abbrev pub floor_row : FloorEntry → NodeRow
floor_row f =
    row f.floor_id
      (name_field f.name (Fields.field "level" f.level (Fields.field "icon" f.icon Fields.end)))

abbrev pub area_fields : AreaEntry → Fields
area_fields a = name_field a.name (Fields.field "icon" a.icon Fields.end)

abbrev pub device_fields : DeviceEntry → Fields
device_fields d =
    name_field (json_of (first_text d.name_by_user d.name))
      (Fields.field "manufacturer" d.manufacturer (Fields.field "model" d.model Fields.end))

abbrev pub area_row : AreaEntry → NodeRow
area_row a = row a.id (area_fields a)

abbrev pub device_row : DeviceEntry → NodeRow
device_row d = row d.id (device_fields d)

abbrev pub home_floor : FloorEntry → PairRow
home_floor f = pair home_singleton_id f.floor_id

abbrev pub home_area : AreaEntry → PairRow
home_area a = pair home_singleton_id a.id

abbrev pub state_fields : {Time : Type 0} → EntityState Time → Fields
state_fields s = name_field (Json.string (or_else s.friendly_name s.entity_id)) Fields.end

abbrev pub label_row : LabelEntry → NodeRow
label_row l = row l.label_id (name_field l.name (Fields.field "color" l.color Fields.end))

pub record WrittenEntity : Type 0 where
  pub ha_id : String
  pub properties : Fields
  pub measurement_properties : Fields

abbrev without_measurement : Properties → Properties
without_measurement p = λ key. if is_measurement_key key then Json.null else p key

-- `_ENTITY_MEASUREMENT_REMOVE`, then `SET`
abbrev pub entity_change : WrittenEntity → Properties → Properties
entity_change r p = assign r.measurement_properties (assign r.properties (without_measurement p))

abbrev pub entity_step : WrittenEntity → Step
entity_step r =
    put_node (record { label = label_entity; ha_id = r.ha_id }) (λ old. entity_change r (blank old))

abbrev pub is_own_entity : RegistryEntry → Bool
is_own_entity entry = str_eq entry.platform "ontology"

abbrev pub domain_pair : RegistryEntry → PairRow
domain_pair e = pair e.entity_id (domain_text e.entity_id)

abbrev members_list : Members → List String
members_list (one id) = id ∷ []
members_list (many ids) = ids

abbrev members_of : {Time : Type 0} → Option (EntityState Time) → List String
members_of none = []
members_of (some s) = members_list s.members

-- `_referenced_entity_ids`
unfoldable pub referenced_entity_ids : {Time : Type 0} → Hass Time → String → String → List String
referenced_entity_ids hass domain entity_id =
    if str_eq domain "automation"
    then hass.entities_in_automation entity_id
    else if str_eq domain "script"
    then hass.entities_in_script entity_id
    else members_of (find_state entity_id hass.states)

-- What `collect_entities` returns, and the counts_of of a build.
pub record Collected : Type 0 where
  pub entity_ids : List String
  pub domains : List String
  pub integrations : List String

pub record BuildCounts : Type 0 where
  pub entities : ℕ
  pub domains : ℕ
  pub integrations : ℕ
  pub automations : ℕ
  pub scenes : ℕ
  pub scripts : ℕ
  pub classified : ℕ

abbrev pub states_of : {Time : Type 0} → Hass Time → String → List (EntityState Time)
states_of hass domain = filter (λ s. str_eq (domain_text s.entity_id) domain) hass.states

abbrev pub named : String → Fields
named name = name_field (Json.string name) Fields.end

abbrev pub counts_of : Collected → List String → List String → List String → BuildCounts
counts_of all automations scenes scripts = record {
  entities = length all.entity_ids;
  domains = length all.domains;
  integrations = length all.integrations;
  automations = length automations;
  scenes = length scenes;
  scripts = length scripts;
  classified = 0;
}

abbrev pub own_entries : {Time : Type 0} → Hass Time → List RegistryEntry
own_entries hass = filter (λ e. not (is_own_entity e)) hass.entities

abbrev pub collected : List RegistryEntry → Collected
collected entries = record {
  entity_ids = map (λ e. e.entity_id) entries;
  domains = sorted_set (map (λ e. domain_text e.entity_id) entries);
  integrations = sorted_set (texts (map (λ e. truthy (some e.platform)) entries));
}
