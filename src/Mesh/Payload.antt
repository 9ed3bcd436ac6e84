-- ===== src/Mesh/Payload.antt =====
-- What mesh_sync.py takes out of the networkmap of Zigbee2MQTT. A value that has not the shape which the
-- code reads raises.
use Prim.Native.String.{◌++◌ as text_append}
use hass_ontology_fix.Common.{
  ℕ, String, Bool, true, false, ◌&&◌, ◌||◌, not, Option, none, some, List, [], ◌∷◌, ◌++◌, map, any,
  drop, str_eq, ◌==◌, if◌then◌else◌,
}
use hass_ontology_fix.Common.Codes.{codes, to_lower, codes_eq, starts_with}
use hass_ontology_fix.Common.Dict.{Dict, lookup, insert}
use hass_ontology_fix.Common.Errors.{Exception, ErrorClass, Result, ok, err}
use hass_ontology_fix.Common.Json.{Json, Fields, get, of_items}

abbrev attribute_error : Exception
attribute_error = record {
  class = ErrorClass.other "AttributeError";
  message = "no such attribute";
}

abbrev type_error : Exception
type_error = record { class = ErrorClass.other "TypeError"; message = "unhashable or not iterable" }

abbrev pub on_ok : {A : Type 0} {B : Type 0} → Result A → (A → Result B) → Result B
on_ok (ok a) f = f a
on_ok (err e) f = err e

abbrev or_null : Option Json → Json
or_null none = Json.null
or_null (some v) = v

-- Python's truth of a value.
abbrev is_true : Json → Bool
is_true Json.null = false
is_true (Json.boolean b) = b
is_true (Json.number s) = not (str_eq s "0" || str_eq s "0.0" || str_eq s "-0.0")
is_true (Json.string s) = not (str_eq s "")
is_true (Json.array items) = any (λ x. true) (of_items items)
is_true (Json.object Fields.end) = false
is_true (Json.object (Fields.field k v rest)) = true

abbrev or_object : Json → Json
or_object j = if is_true j then j else Json.object Fields.end

-- `j.get(key)`
abbrev get_of : String → Json → Result Json
get_of key (Json.object fields) = ok (or_null (get key fields))
get_of key _ = err attribute_error

abbrev iterated : Json → Result (List Json)
iterated (Json.array items) = ok (of_items items)
iterated (Json.object _) = err attribute_error
iterated (Json.string _) = err attribute_error
iterated _ = err type_error

-- `j or []`, to be iterated over
abbrev or_items : Json → Result (List Json)
or_items j = if is_true j then iterated j else ok []

-- `((payload or {}).get("data") or {}).get("value")`
abbrev value_of : Json → Result Json
value_of payload =
    on_ok (get_of "data" (or_object payload)) (λ inner. get_of "value" (or_object inner))

abbrev lower_codes : String → List ℕ
lower_codes s = map to_lower (codes s)

-- An address that is a number is never looked up, since `lower` raises for it first.
abbrev add_name : Json → Json → Dict Json → Result (Dict Json)
add_name (Json.string address) name names = ok (insert address name names)
add_name (Json.array _) name names = err type_error
add_name (Json.object _) name names = err type_error
add_name _ name names = ok names

abbrev named_by : Json → Json → Json
named_by friendly address = if is_true friendly then friendly else address

abbrev add_node_name : Json → Dict Json → Result (Dict Json)
add_node_name node names = on_ok (get_of "ieeeAddr" node) (λ address.
    if is_true address
    then on_ok (get_of "friendlyName" node)
        (λ friendly. add_name address (named_by friendly address) names)
    else ok names)

abbrev names_from : List Json → Dict Json → Result (Dict Json)
names_from [] names = ok names
names_from (node ∷ nodes) names = on_ok (add_node_name node names) (λ more. names_from nodes more)

pub record Extracted : Type 0 where
  pub links : Json
  pub names : Dict Json

abbrev extract_from : Json → Result Extracted
extract_from (Json.object fields) = on_ok (or_items (or_null (get "nodes" fields))) (λ nodes.
    on_ok (names_from nodes [])
      (λ names. ok (record { links = or_null (get "links" fields); names = names })))
extract_from _ = ok (record { links = Json.null; names = [] })

-- `_extract_links`
unfoldable pub extract_links : Json → Result Extracted
extract_links payload = on_ok (value_of payload) extract_from

abbrev is_coordinator : Json → Bool
is_coordinator (Json.string s) = str_eq s "Coordinator"
is_coordinator _ = false

-- `str(address).lower()`; of what is neither a text nor a number the text matches no address
abbrev address_codes : Json → List ℕ
address_codes (Json.string s) = lower_codes s
address_codes (Json.number s) = lower_codes s
address_codes _ = []

abbrev coordinator_in : List Json → Result (Option (List ℕ))
coordinator_in [] = ok none
coordinator_in (node ∷ nodes) = on_ok (get_of "type" node) (λ kind.
    on_ok (if is_coordinator kind then get_of "ieeeAddr" node else ok Json.null) (λ address.
      let rest = coordinator_in nodes in
      if is_true address then ok (some (address_codes address)) else rest))

abbrev coordinator_of : Json → Result (Option (List ℕ))
coordinator_of (Json.object fields) = on_ok (or_items (or_null (get "nodes" fields))) coordinator_in
coordinator_of _ = ok none

-- `_coordinator_ieee`
unfoldable pub coordinator_ieee : Json → Result (Option (List ℕ))
coordinator_ieee payload = on_ok (value_of payload) coordinator_of

-- An identifier of a device: its domain, its text and the device's id.
pub record Identifier : Type 0 where
  pub domain : String
  pub text_value : String
  pub device_id : String

abbrev pub Addresses : Type 0
Addresses = List (List ℕ × String)

abbrev pub device_at : List ℕ → Addresses → Option String
device_at address [] = none
device_at address ((a, id) ∷ rest) = if codes_eq a address then some id else device_at address rest

abbrev without_prefix : List ℕ → Option (List ℕ)
without_prefix text =
    if starts_with (codes "zigbee2mqtt_bridge_") text
    then some (drop 19 text)
    else if starts_with (codes "zigbee2mqtt_") text
    then some (drop 12 text)
    else none

abbrev add_address : Option (List ℕ) → String → Addresses → Addresses
add_address none id found = found
add_address (some address) id found = (map to_lower address, id) ∷ found

-- `_ieee_to_device_ids`: the last entry for an address stands first
unfoldable pub ieee_to_device_ids : List Identifier → Addresses → Addresses
ieee_to_device_ids [] found = found
ieee_to_device_ids (i ∷ rest) found = ieee_to_device_ids rest (
    if str_eq i.domain "mqtt"
    then add_address (without_prefix (codes i.text_value)) i.device_id found
    else found)

-- The names that are shown for the link and its relationship follow from these and are left out, as are the
-- source and the time.
pub record LinkRow : Type 0 where
  pub ha_id : String
  pub from_device : String
  pub from_name : Json
  pub to_device : String
  pub to_name : Json
  pub lqi : Json
  pub depth : Json
  pub relationship : Option String
  pub from_device_id : Option String
  pub to_device_id : Option String

-- An `int`: its text has no fraction and no exponent.
abbrev is_whole : String → Bool
is_whole s = not (any (λ c. c == 46 || c == 101 || c == 69) (codes s))

abbrev relationship_of : Json → Option String
relationship_of (Json.number s) = if is_whole s then some s else none
relationship_of _ = none

abbrev name_or : Option Json → String → Json
name_or none s = Json.string s
name_or (some name) s = name

abbrev join : List String → String
join [] = ""
join (s ∷ rest) = text_append s (join rest)

-- The ends of a link.
abbrev address_at_end : String → Json → Result Json
address_at_end key link = on_ok (get_of key link) (λ place. get_of "ieeeAddr" (or_object place))

module _ (snapshot_id : String) (names : Dict Json) (addresses : Addresses) where
  -- The row of a link, whose ends must be texts, since `lower` is asked of them.
  abbrev link_row : Json → Json → Json → Json → Json → Result LinkRow
  link_row lqi depth relationship (Json.string source) (Json.string target) = ok (record {
    ha_id = join (snapshot_id ∷ "::" ∷ source ∷ "->" ∷ target ∷ []);
    from_device = source;
    from_name = name_or (lookup source names) source;
    to_device = target;
    to_name = name_or (lookup target names) target;
    lqi = lqi;
    depth = depth;
    relationship = relationship_of relationship;
    from_device_id = device_at (lower_codes source) addresses;
    to_device_id = device_at (lower_codes target) addresses;
  })
  link_row lqi depth relationship _ _ = err attribute_error

  abbrev row_between : Json → Json → Json → Result (List LinkRow)
  row_between link source target =
      if is_true source && is_true target
      then on_ok (get_of "linkquality" link) (λ lqi. on_ok (get_of "depth" link) (λ depth.
        on_ok (get_of "relationship" link) (λ relationship.
          on_ok (link_row lqi depth relationship source target) (λ row. ok (row ∷ [])))))
      else ok []

  abbrev rows_of_link : Json → Result (List LinkRow)
  rows_of_link link =
      on_ok (address_at_end "source" link)
        (λ source. on_ok (address_at_end "target" link) (λ target. row_between link source target))

  abbrev rows_of_links : List Json → Result (List LinkRow)
  rows_of_links [] = ok []
  rows_of_links (link ∷ links) =
      let rest = rows_of_links links in
      on_ok (rows_of_link link) (λ first. on_ok rest (λ others. ok (first ++ others)))

  -- The loop over the links of `async_scan_zigbee_mesh`
  unfoldable pub link_rows : Json → Result (List LinkRow)
  link_rows links = on_ok (or_items links) rows_of_links
