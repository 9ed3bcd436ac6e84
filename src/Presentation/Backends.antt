-- ===== src/Presentation/Backends.antt =====
-- DirectMemgraphBackend of graph_backends.py: fixed queries through the client, which is an interface.
use hass_ontology_fix.Common.{
  ℕ, ◌+◌, ◌-◌, ltb, String, Bool, false, Option, none, some, List, [], ◌∷◌, map, take, length,
  if◌then◌else◌,
}
use hass_ontology_fix.Common.Errors.{Result, Action, ◌>>=◌, ◌>>◌, pure, gets}
use hass_ontology_fix.Common.Json.{Json, Fields, get}
use hass_ontology_fix.Presentation.Text.{Python, clamp, bound, or_value, is_true}
use hass_ontology_fix.Presentation.Normalize.{
  Node, Relationship, or_null, normalize_graph_node, normalize_graph_relationship,
}
use hass_ontology_fix.Presentation.Slice.{Slice, slice, normalize_each}

-- The fixed queries with their parameters: an id or a term, and the limits for nodes and edges.
pub data GraphQuery : Type 0 where
  initial_graph : ℕ → ℕ → GraphQuery
  expand_node : String → ℕ → ℕ → GraphQuery
  search_graph : String → ℕ → GraphQuery
  graph_element graph_relationship : String → GraphQuery
  graph_health : GraphQuery

pub record Client (W : Type 0) : Type 0 where
  pub run_graph_query : GraphQuery → Action W (List Fields)
  -- the loop's clock, in milliseconds
  pub time : W → ℕ

pub record Match : Type 0 where
  pub id : String
  pub ha_id : String
  pub type : String
  pub label : String
  pub icon : Option Json

pub record Found : Type 0 where
  pub matches : List Match
  pub truncated : Bool

pub record Element : Type 0 where
  pub node : Option Node
  pub relationship : Option Relationship
  pub direct_connections : Slice

abbrev match_of : Node → Match
match_of node = record {
  id = node.id;
  ha_id = node.ha_id;
  type = node.type;
  label = node.label;
  icon = node.icon;
}

-- `row.get("n") or row.get("node") or row`
abbrev found_value : Fields → Json
found_value row =
    or_null (or_value (get "n" row) (or_value (get "node" row) (some (Json.object row))))

abbrev when_true : Option Json → Option Json
when_true none = none
when_true (some value) = if is_true value then some value else none

abbrev element_in : List Fields → Option Json
element_in [] = none
element_in (row ∷ rows) = when_true (get "element" row)

module _ {W : Type 0} (python : Python) (client : Client W) where
  abbrev returned : {A : Type 0} → Result A → Action W A
  returned r w = (r, w)

  unfoldable pub direct_initial_graph : Option ℕ → Action W Slice
  unfolding clamp slice
  direct_initial_graph limit = do
    rows ← client.run_graph_query (GraphQuery.initial_graph (clamp limit 100 100 + 1) 101)
    returned (slice python rows (clamp limit 100 100) 100)

  unfoldable pub direct_expand_node : String → Option ℕ → Option ℕ → Action W Slice
  unfolding clamp slice
  direct_expand_node node_id node_limit edge_limit = do
    rows ← client.run_graph_query (
        GraphQuery.expand_node (bound 512 node_id) (clamp node_limit 25 250 + 1)
          (clamp edge_limit 50 500 + 1))
    returned (slice python rows (clamp node_limit 25 250) (clamp edge_limit 50 500))

  unfoldable pub direct_search_graph : String → Option ℕ → Action W Found
  unfolding clamp normalize_each
  direct_search_graph term limit = do
    rows ←
        client.run_graph_query
          (GraphQuery.search_graph (python.strip (bound 256 term)) (clamp limit 50 100 + 1))
    nodes ← returned (normalize_each python (map found_value rows))
    pure (record {
      matches = map match_of (take (clamp limit 50 100) nodes);
      truncated = ltb (clamp limit 50 100) (length nodes);
    })

  abbrev node_element : Json → List Fields → Action W (Option Element)
  node_element value rows = do
    node ← returned (normalize_graph_node python value)
    connections ← returned (slice python rows 25 50)
    pure (some (record { node = some node; relationship = none; direct_connections = connections }))

  abbrev relationship_element : List Fields → Action W (Option Element)
  relationship_element [] = pure none
  relationship_element (row ∷ rows) =
      let relationship = normalize_graph_relationship python (or_null (get "relationship" row)) in
      (do
        nodes ← returned (
            normalize_each python
              (or_null (get "source_node" row) ∷ or_null (get "target_node" row) ∷ []))
        pure (
            some (record {
              node = none;
              relationship = some relationship;
              direct_connections = record {
                nodes = nodes;
                relationships = relationship ∷ [];
                truncated = false;
                next_cursor = none;
                revision = 0;
              };
            })))

  abbrev element_by : String → List Fields → Option Json → Action W (Option Element)
  element_by element_id rows (some value) = node_element value rows
  element_by element_id rows none = do
    relationships ← client.run_graph_query (GraphQuery.graph_relationship (bound 512 element_id))
    relationship_element relationships

  unfoldable pub direct_graph_element : String → Action W (Option Element)
  unfolding slice normalize_each normalize_graph_node normalize_graph_relationship
  direct_graph_element element_id = do
    rows ← client.run_graph_query (GraphQuery.graph_element (bound 512 element_id))
    element_by element_id rows (element_in rows)

  -- The latency of the health query.
  unfoldable pub direct_graph_health : Action W ℕ
  direct_graph_health = do
    started ← gets client.time
    client.run_graph_query GraphQuery.graph_health
    ended ← gets client.time
    pure (ended - started)
