-- ===== src/Presentation/Slice.antt =====
-- `_slice` and the two filters that make a snapshot the panel can draw.
use hass_ontology_fix.Common.{
  ℕ, ltb, String, Bool, true, false, ◌||◌, not, Option, none, some, List, [], ◌∷◌, map, any, filter,
  take, length, str_eq,
}
use hass_ontology_fix.Common.Errors.{Result, ok, err}
use hass_ontology_fix.Common.Json.{Json, Fields, get, of_items}
use hass_ontology_fix.Presentation.Text.{Python, is_true}
use hass_ontology_fix.Presentation.Normalize.{
  Node, Relationship, normalize_graph_node, normalize_graph_relationship,
}

pub record Slice : Type 0 where
  pub nodes : List Node
  pub relationships : List Relationship
  pub truncated : Bool
  pub next_cursor : Option String
  pub revision : ℕ

abbrev pub has_id : String → List String → Bool
has_id id ids = any (str_eq id) ids

abbrev pub keep_unless :
    {A : Type 0} → Bool → (A → String) → A → (List String → List A) → List String → List A
keep_unless true id x rest seen = rest seen
keep_unless false id x rest seen = x ∷ rest (id x ∷ seen)

-- The loop of `_unique_nodes`, with the ids that were seen.
unfoldable pub unique_from : List String → List Node → List Node
unique_from seen [] = []
unique_from seen (node ∷ nodes) =
    keep_unless (has_id node.id seen) (λ (n : Node). n.id) node (λ ids. unique_from ids nodes) seen

unfoldable pub unique_nodes : List Node → List Node
unfolding unique_from
unique_nodes nodes = unique_from [] nodes

abbrev pub ids_of : List Node → List String
ids_of nodes = map (λ (node : Node). node.id) nodes

-- The loop of `_renderable_relationships`, with the ids of the nodes and those that were seen.
unfoldable pub renderable_from : List String → List String → List Relationship → List Relationship
renderable_from node_ids seen [] = []
renderable_from node_ids seen (rel ∷ rels) =
    keep_unless
      (not (has_id rel.source node_ids) || not (has_id rel.target node_ids) || has_id rel.id seen)
      (λ (r : Relationship). r.id) rel (λ ids. renderable_from node_ids ids rels) seen

unfoldable pub renderable_relationships : List Node → List Relationship → List Relationship
unfolding renderable_from
renderable_relationships nodes rels = renderable_from (ids_of nodes) (ids_of nodes) rels

abbrev pub add_node : Result Node → Result (List Node) → Result (List Node)
add_node (ok node) (ok nodes) = ok (node ∷ nodes)
add_node (ok node) (err e) = err e
add_node (err e) rest = err e

abbrev pub list_of : Option Json → List Json
list_of (some (Json.array items)) = of_items items
list_of _ = []

abbrev pub first_row : List Fields → Fields
first_row [] = Fields.end
first_row (row ∷ rows) = row

module _ (python : Python) where
  unfoldable pub normalize_each : List Json → Result (List Node)
  unfolding normalize_graph_node
  normalize_each [] = ok []
  normalize_each (value ∷ values) =
      add_node (normalize_graph_node python value) (normalize_each values)

  abbrev pub slice_with : List Json → List Json → ℕ → ℕ → Result (List Node) → Result Slice
  slice_with raw_nodes raw_rels node_limit edge_limit (err e) = err e
  slice_with raw_nodes raw_rels node_limit edge_limit (ok normalized) =
      let nodes = unique_nodes normalized in
      ok (record {
        nodes = nodes;
        relationships =
            renderable_relationships nodes (
              map (normalize_graph_relationship python)
                (filter is_true (take edge_limit raw_rels)));
        truncated = ltb node_limit (length raw_nodes) || ltb edge_limit (length raw_rels);
        next_cursor = none;
        revision = 0;
      })

  -- `_slice`
  unfoldable pub slice : List Fields → ℕ → ℕ → Result Slice
  unfolding unique_nodes renderable_relationships normalize_each normalize_graph_relationship
  slice rows node_limit edge_limit =
      let raw_nodes = list_of (get "nodes" (first_row rows)) in
      let raw_rels = list_of (get "relationships" (first_row rows)) in
      slice_with raw_nodes raw_rels node_limit edge_limit
        (normalize_each (filter is_true (take node_limit raw_nodes)))
