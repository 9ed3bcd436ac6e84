-- ===== src/Overrides.antt =====
-- overrides.py: a user's overrides, their export and their import. The graph holds the nodes by label and
-- id, the user's override edges, and how many queries have been sent.
pub mod Import
mod Checked
pub mod RoundTrip
pub mod Restored
mod Tests
use hass_ontology_fix.Common.{
  ℕ, suc, String, Bool, true, false, ◌&&◌, ◌||◌, not, Option, none, some, List, [], ◌∷◌, ◌++◌, map,
  any, filter, str_eq, if◌then◌else◌,
}
use hass_ontology_fix.Common.Errors.{
  Exception, ErrorClass, Result, ok, err, Action, ◌>>=◌, ◌>>◌, pure, raise,
}
use hass_ontology_fix.Common.Json.{Json, Fields, to_items}

-- One override, as `async_list_overrides` returns it and as an import reads it.
pub record Override : Type 0 where
  pub source_label : String
  pub source_ha_id : String
  pub type_label : String

pub record Graph : Type 0 where
  pub has_node : String → String → Bool
  pub overrides : List Override
  pub sent : ℕ

abbrev pub same_override : Override → Override → Bool
same_override o p =
    str_eq o.source_label p.source_label
    && str_eq o.source_ha_id p.source_ha_id
    && str_eq o.type_label p.type_label

-- The query of `merge_relationship`: without the source node there is no match and nothing is written.
abbrev pub write_override : Override → List Override → Bool → List Override
write_override o overrides false = overrides
write_override o overrides true =
    if any (same_override o) overrides then overrides else overrides ++ (o ∷ [])

abbrev pub merge_override : Override → Graph → Graph
merge_override o g = record g {
  overrides =
      write_override o g.overrides
        (g.has_node o.source_label o.source_ha_id && g.has_node "SemanticType" o.type_label);
}

-- The query of `merge_node`
abbrev pub merge_type : String → Graph → Graph
merge_type type_label g = record g {
  has_node = λ label ha_id.
      if str_eq label "SemanticType" && str_eq ha_id type_label
      then true
      else g.has_node label ha_id;
}

abbrev pub delete_edge : Override → Graph → Graph
delete_edge o g = record g { overrides = filter (λ p. not (same_override o p)) g.overrides }

abbrev pub allowed_source_labels : List String
allowed_source_labels = "Entity" ∷ "Device" ∷ "Area" ∷ []

abbrev pub is_allowed : String → Bool
is_allowed label = any (str_eq label) allowed_source_labels

abbrev unsupported : Exception
unsupported = record {
  class = ErrorClass.value_error;
  message = "Unsupported override source label";
}

abbrev sanitize_label : String → Action Graph (Unit {0})
sanitize_label label = if is_allowed label then pure tt else raise unsupported

-- What comes of a query, by what the client raises at it.
abbrev pub reply_by : Option Exception → (Graph → Graph) → Action Graph (Unit {0})
reply_by none query g = (ok tt, query g)
reply_by (some e) query g = (err e, g)

-- A row of the listing: the labels of the source node, its id, the type.
pub record Row : Type 0 where
  pub source_labels : List String
  pub source_ha_id : String
  pub type_label : String

-- A node has the one label that `merge_node` has given it.
abbrev pub row_of : Override → Row
row_of o = record {
  source_labels = o.source_label ∷ [];
  source_ha_id = o.source_ha_id;
  type_label = o.type_label;
}

abbrev pub add_row : Row → List String → List Override → List Override
add_row row [] listed = listed
add_row row (label ∷ labels) listed =
    record { source_label = label; source_ha_id = row.source_ha_id; type_label = row.type_label }
    ∷ listed

abbrev pub list_rows : List Row → List Override
list_rows [] = []
list_rows (row ∷ rows) = add_row row (filter is_allowed row.source_labels) (list_rows rows)

abbrev pub override_object : Override → Json
override_object o = Json.object (
    Fields.field "relationship_type" (Json.string "OVERRIDE_OF") (
      Fields.field "source_label" (Json.string o.source_label) (
        Fields.field "source_ha_id" (Json.string o.source_ha_id)
          (Fields.field "type_label" (Json.string o.type_label) Fields.end))))

abbrev pub export_object : String → List Override → Json
export_object exported_at overrides = Json.object (
    Fields.field "version" (Json.number "1") (
      Fields.field "exported_at" (Json.string exported_at) (
        Fields.field "overrides" (Json.array (to_items (map override_object overrides)))
          Fields.end)))

module _ (replies : ℕ → Option Exception) where
  unfoldable pub send_query : (Graph → Graph) → Action Graph (Unit {0})
  send_query query g = reply_by (replies g.sent) query (record g { sent = suc g.sent })

  unfoldable pub async_create_override : Override → Action Graph (Unit {0})
  unfolding send_query
  async_create_override o = do
    sanitize_label o.source_label
    send_query (merge_type o.type_label)
    send_query (merge_override o)

  unfoldable pub async_delete_override : Override → Action Graph (Unit {0})
  unfolding send_query
  async_delete_override o = do sanitize_label o.source_label; send_query (delete_edge o)

  unfoldable pub async_list_overrides : Action Graph (List Override)
  unfolding send_query
  async_list_overrides g = (send_query (λ v. v) >> pure (list_rows (map row_of g.overrides))) g

  unfoldable pub async_export_overrides : String → Action Graph Json
  unfolding async_list_overrides
  async_export_overrides exported_at = do
    overrides ← async_list_overrides
    pure (export_object exported_at overrides)
