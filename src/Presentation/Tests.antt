-- ===== src/Presentation/Tests.antt =====
-- Two areas with an edge, and the theorems at a slice of them and at requests to a backend.
use hass_ontology_fix.Common.{
  ℕ, zero, suc, ◌≤◌, ◌≡◌, refl, length, All, String, Option, some, List, [], ◌∷◌,
}
use hass_ontology_fix.Common.Errors.{ErrorClass, Result, ok, err}
use hass_ontology_fix.Common.Json.{Json, Items, Fields}
use hass_ontology_fix.Presentation.Text.{Python}
use hass_ontology_fix.Presentation.Normalize.{graph_property_limit, safe_properties}
use hass_ontology_fix.Presentation.Slice.{slice, ids_of, Slice}
use hass_ontology_fix.Presentation.Gateway.{PanelRequest, GraphBackend}
use hass_ontology_fix.Presentation.Renderable.{IsDrawable, slice-IsDrawable}
use hass_ontology_fix.Presentation.Safe.{IsPublic, safe_properties-IsPublic}

abbrev text_of : Json → String
text_of (Json.string s) = s
text_of value = "None"

abbrev python : Python
python = record {
  str = text_of;
  dumps = λ value. "{}";
  sorted = λ names. names;
  upper = λ s. s;
  lower = λ s. s;
  strip = λ s. s;
}

abbrev area : String → Json
area id = Json.object (
    Fields.field "labels" (Json.array (Items.cons (Json.string "Area") Items.nil)) (
      Fields.field "properties"
        (Json.object (
          Fields.field "ha_id" (Json.string id)
            (Fields.field "api_token" (Json.string "x") Fields.end)))
        Fields.end))

abbrev edge : String → Json
edge target = Json.object (
    Fields.field "type" (Json.string "NEXT_TO") (
      Fields.field "source" (Json.string "Area:hall")
        (Fields.field "target" (Json.string target) Fields.end)))

-- The hall stands twice in it, and the second edge leaves the slice.
abbrev rows : List Fields
rows =
    Fields.field "nodes"
      (Json.array
        (Items.cons (area "hall") (Items.cons (area "hall") (Items.cons (area "yard") Items.nil))))
      (Fields.field "relationships"
        (Json.array (Items.cons (edge "Area:yard") (Items.cons (edge "Area:roof") Items.nil)))
        Fields.end)
    ∷ []

abbrev node_ids : Result Slice → List String
node_ids (ok s) = ids_of s.nodes
node_ids (err e) = []

abbrev edge_count : Result Slice → ℕ
edge_count (ok s) = length s.relationships
edge_count (err e) = 0

drawn :
    let s = slice python rows 3 5 in
    (node_ids s ≡ "Area:hall" ∷ "Area:yard" ∷ []) × (edge_count s ≡ 1)
unfolding slice
drawn = (refl, refl)

slice-IsDrawable_example : IsDrawable 3 5 (slice python rows 3 5)
slice-IsDrawable_example = slice-IsDrawable python rows 3 5

abbrev properties : Fields
properties =
    Fields.field "state" (Json.string "on") (Fields.field "api_token" (Json.string "x") Fields.end)

safe_properties-IsPublic_example :
    All IsPublic (safe_properties python properties)
    × (length (safe_properties python properties) ≤ graph_property_limit)
safe_properties-IsPublic_example = safe_properties-IsPublic python properties

-- A backend that answers the first call and then is gone.
abbrev reply_to : ℕ → Result (Option String)
reply_to zero = ok (some "graph")
reply_to (suc n) = err (record { class = ErrorClass.timeout_error; message = "gone" })

abbrev backend : GraphBackend ℕ String
backend = record { name = "DirectMemgraphBackend"; operation = λ request n. (reply_to n, suc n) }

abbrev requests : List PanelRequest
requests = PanelRequest.graph_health ∷ PanelRequest.graph_element "Area:hall" ∷ []
