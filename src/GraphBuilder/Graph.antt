-- ===== src/GraphBuilder/Graph.antt =====
-- The property graph that the queries of graph_builder.py read and write. A node is known by its label
-- and id, a relationship by its type and ends. `errors` is what the client raises at each query; none
-- where it is answered. The times of writing are left out.
use hass_ontology_fix.Common.{
  ℕ, suc, String, Bool, false, ◌&&◌, ◌||◌, not, Option, none, some, is_some, List, [], ◌∷◌, map,
  foldl, str_eq, if◌then◌else◌,
}
use hass_ontology_fix.Common.Errors.{Exception, ok, err, Action, ◌>>◌}
use hass_ontology_fix.Common.Json.{Json, Fields, get}
use hass_ontology_fix.GraphBuilder.{NodeRow, PairRow, Client, checked_label}
use hass_ontology_fix.GraphBuilder.Labels.{
  label_entity, label_area, label_ontology_schema, rel_has_area, schema_singleton_id,
  source_home_assistant, source_generated,
}

pub record NodeKey : Type 0 where
  pub label : String
  pub ha_id : String

abbrev pub is_ref : NodeKey → NodeKey → Bool
is_ref a b = str_eq a.label b.label && str_eq a.ha_id b.ha_id

-- A property that is not there is null.
abbrev pub Properties : Type 0
Properties = String → Json

pub record Content : Type 0 where
  pub nodes : NodeKey → Option Properties
  pub edges : String → NodeKey → NodeKey → Option Properties

pub record PropertyGraph : Type 0 where
  pub content : Content
  pub sent : ℕ

abbrev pub blank : Option Properties → Properties
blank none = λ key. Json.null
blank (some p) = p

abbrev value_or : Option Json → Json → Json
value_or none old = old
value_or (some v) old = v

-- `SET n += $properties`
abbrev pub assign : Fields → Properties → Properties
assign fields p = λ key. value_or (get key fields) (p key)

abbrev pub with_source : String → Fields → Fields
with_source source fields = Fields.field "source" (Json.string source) fields

abbrev is_text : String → Json → Bool
is_text s (Json.string t) = str_eq t s
is_text s _ = false

abbrev pub is_sourced : String → Properties → Bool
is_sourced source p = is_text source (p "source")

-- `n.source IN [$home_assistant, $generated]`
abbrev pub is_owned : Properties → Bool
is_owned p = is_sourced source_home_assistant p || is_sourced source_generated p

-- One write of a query: a node changed by `change`, made where it is missing; a relationship between two
-- nodes that are there; an entity's areas that Home Assistant gave.
pub data Step : Type 0 where
  put_node : NodeKey → (Option Properties → Properties) → Step
  put_edge : String → NodeKey → NodeKey → Fields → Step
  cut_areas : String → Step

abbrev pub is_cut : String → String → NodeKey → NodeKey → Option Properties → Bool
is_cut id type a b none = false
is_cut id type a b (some p) =
    str_eq type rel_has_area
    && is_ref a (record { label = label_entity; ha_id = id })
    && str_eq b.label label_area
    && is_sourced source_home_assistant p

abbrev pub is_edge : String → NodeKey → NodeKey → String → NodeKey → NodeKey → Bool
is_edge type a b type' a' b' = str_eq type type' && is_ref a a' && is_ref b b'

unfoldable pub apply : Content → Step → Content
apply c (put_node ref change) = record c {
  nodes = λ r. if is_ref r ref then some (change (c.nodes r)) else c.nodes r;
}
apply c (put_edge type from to fields) =
    if is_some (c.nodes from) && is_some (c.nodes to)
    then record c {
      edges = λ t a b.
          if is_edge t a b type from to
          then some (assign fields (blank (c.edges t a b)))
          else c.edges t a b;
    }
    else c
apply c (cut_areas id) = record c {
  edges = λ t a b. if is_cut id t a b (c.edges t a b) then none else c.edges t a b;
}

abbrev pub apply_all : Content → List Step → Content
apply_all = foldl apply

abbrev satisfies : (NodeKey → Properties → Bool) → NodeKey → Option Properties → Bool
satisfies p ref none = false
satisfies p ref (some properties) = p ref properties

-- `DETACH DELETE n`
unfoldable pub detach_delete : (NodeKey → Properties → Bool) → Content → Content
detach_delete p c =
    let is_deleted = λ (r : NodeKey). satisfies p r (c.nodes r) in
    record {
      nodes = λ r. if is_deleted r then none else c.nodes r;
      edges = λ t a b. if is_deleted a || is_deleted b then none else c.edges t a b;
    }

abbrev pub node_step : String → String → NodeRow → Step
node_step label source row =
    put_node (record { label = label; ha_id = row.ha_id })
      (λ old. assign (with_source source row.properties) (blank old))

abbrev pub pair_step : String → String → String → String → PairRow → Step
pair_step from type to source row =
    put_edge type (record { label = from; ha_id = row.from_id })
      (record { label = to; ha_id = row.to_id }) (with_source source Fields.end)

abbrev pub is_generated : NodeKey → Properties → Bool
is_generated r p = is_owned p && not (str_eq r.label label_ontology_schema)

abbrev pub answer :
    {A : Type 0} → Option Exception → (Content → A × Content) → Action PropertyGraph A
answer none query g = let (a, c) = query g.content in (ok a, record g { content = c })
answer (some e) query g = (err e, g)

abbrev pub schema_ref : NodeKey
schema_ref = record { label = label_ontology_schema; ha_id = schema_singleton_id }

abbrev pub versioned : String → Option Properties → Properties
versioned version none =
    assign (Fields.field "version" (Json.string version) Fields.end) (blank none)
versioned version (some p) = p

abbrev first_version : Option Properties → Option Json
first_version none = none
first_version (some p) = some (p "version")

module _ (errors : ℕ → Option Exception) where
  unfoldable pub send : {A : Type 0} → (Content → A × Content) → Action PropertyGraph A
  send query g = answer (errors g.sent) query (record g { sent = suc g.sent })

  unfoldable pub write : List Step → Action PropertyGraph (Unit {0})
  unfolding send
  write steps = send (λ c. (tt, apply_all c steps))

  -- The bulk queries, `UNWIND $rows`.
  abbrev pub graph_client : Client PropertyGraph
  graph_client = record {
    merge_nodes = λ label rows source. write (map (node_step label source) rows);
    merge_relationships =
        λ from type to rows source. write (map (pair_step from type to source) rows);
  }

  unfoldable pub merge_node : String → String → Fields → Action PropertyGraph (Unit {0})
  unfolding write
  merge_node label ha_id properties =
      checked_label graph_client label
      >> write (
          node_step label source_home_assistant (record { ha_id = ha_id; properties = properties })
          ∷ [])

  unfoldable pub merge_relationship :
      String → String → String → String → String → Action PropertyGraph (Unit {0})
  unfolding write
  merge_relationship from_label from_id rel_type to_label to_id = do
    checked_label graph_client from_label
    checked_label graph_client to_label
    checked_label graph_client rel_type
    write (
        pair_step from_label rel_type to_label source_home_assistant
          (record { from_id = from_id; to_id = to_id })
        ∷ [])

  unfoldable pub delete_node : String → String → Action PropertyGraph (Unit {0})
  unfolding send detach_delete
  delete_node label ha_id =
      checked_label graph_client label
      >> send (λ c. (
        tt,
        detach_delete (λ r p. is_ref r (record { label = label; ha_id = ha_id }) && is_owned p) c,
      ))

  unfoldable pub clear_generated_graph : Action PropertyGraph (Unit {0})
  unfolding send detach_delete
  clear_generated_graph = send (λ c. (tt, detach_delete is_generated c))

  -- `ON CREATE SET s.version = $version`
  unfoldable pub ensure_schema_node : String → Action PropertyGraph (Unit {0})
  unfolding write
  ensure_schema_node version = write (put_node schema_ref (versioned version) ∷ [])

  unfoldable pub get_schema_version : Action PropertyGraph (Option Json)
  unfolding send
  get_schema_version = send (λ c. (first_version (c.nodes schema_ref), c))
