-- ===== src/Presentation/Renderable.antt =====
-- A slice can be drawn: its ids are distinct, the ends of its relationships are among its nodes, and it is
-- within the limits.
use hass_ontology_fix.Common.{
  ℕ, suc, ◌≤◌, ◌≡◌, refl, String, Bool, true, false, ◌||◌, not, List, [], ◌∷◌, map, filter, take,
  length, length-take, All, Bool-cases, inl, inr, arith,
}
use hass_ontology_fix.Common.Errors.{Result, ok, err}
use hass_ontology_fix.Common.Json.{Json, Fields, get}
use hass_ontology_fix.Presentation.Text.{Python, is_true}
use hass_ontology_fix.Presentation.Normalize.{
  Node, Relationship, normalize_graph_node, normalize_graph_relationship,
}
use hass_ontology_fix.Presentation.Slice.{
  Slice, has_id, ids_of, unique_from, unique_nodes, renderable_from, renderable_relationships,
  normalize_each, slice_with, slice, add_node, list_of, first_row,
}

-- Each id differs from those before it and from these.
abbrev pub AreNew : List String → List String → Type 0
AreNew seen [] = Unit
AreNew seen (id ∷ ids) = (has_id id seen ≡ false) × AreNew (id ∷ seen) ids

abbrev pub rel_ids : List Relationship → List String
rel_ids rels = map (λ (rel : Relationship). rel.id) rels

-- Both ends are among these ids.
abbrev pub HasEnds : List String → Relationship → Type 0
HasEnds ids rel = (has_id rel.source ids ≡ true) × (has_id rel.target ids ≡ true)

-- What was returned, if it was not an error.
abbrev pub IsDrawable : ℕ → ℕ → Result Slice → Type 0
IsDrawable node_limit edge_limit (err e) = Unit
IsDrawable node_limit edge_limit (ok s) =
    AreNew [] (ids_of s.nodes)
    × AreNew (ids_of s.nodes) (rel_ids s.relationships)
    × All (HasEnds (ids_of s.nodes)) s.relationships
    × (length s.nodes ≤ node_limit)
    × (length s.relationships ≤ edge_limit)

unique_from-AreNew :
    (seen : List String) (nodes : List Node) → AreNew seen (ids_of (unique_from seen nodes))
unfolding unique_from
unique_from-AreNew seen [] = tt
unique_from-AreNew seen (node ∷ nodes) = elim (Bool-cases (has_id node.id seen)) [
  | inl e ↦ rw e (unique_from-AreNew seen nodes)
  | inr e ↦ rw e (e, unique_from-AreNew (node.id ∷ seen) nodes)
]

length-unique_from :
    (seen : List String) (nodes : List Node) → length (unique_from seen nodes) ≤ length nodes
unfolding unique_from
length-unique_from seen [] = omega arith
length-unique_from seen (node ∷ nodes) = elim (Bool-cases (has_id node.id seen)) [
  | inl e ↦ rw e (omega (arith, length-unique_from seen nodes))
  | inr e ↦ rw e (omega (arith, length-unique_from (node.id ∷ seen) nodes))
]

abbrev is_dropped : List String → List String → Relationship → Bool
is_dropped ids seen rel =
    not (has_id rel.source ids) || not (has_id rel.target ids) || has_id rel.id seen

module _ (ids : List String) where
  renderable-AreNew :
      (seen : List String) (rels : List Relationship)
      → AreNew seen (rel_ids (renderable_from ids seen rels))
  unfolding renderable_from
  renderable-AreNew seen [] = tt
  renderable-AreNew seen (rel ∷ rels) = elim (Bool-cases (is_dropped ids seen rel)) [
    | inl e ↦ rw e (renderable-AreNew seen rels)
    | inr e ↦ rw e (ground (arith, e), renderable-AreNew (rel.id ∷ seen) rels)
  ]

  renderable-HasEnds :
      (seen : List String) (rels : List Relationship)
      → All (HasEnds ids) (renderable_from ids seen rels)
  unfolding renderable_from
  renderable-HasEnds seen [] = tt
  renderable-HasEnds seen (rel ∷ rels) = elim (Bool-cases (is_dropped ids seen rel)) [
    | inl e ↦ rw e (renderable-HasEnds seen rels)
    | inr e ↦ rw e ((ground (arith, e), ground (arith, e)), renderable-HasEnds (rel.id ∷ seen) rels)
  ]

  length-renderable :
      (seen : List String) (rels : List Relationship)
      → length (renderable_from ids seen rels) ≤ length rels
  unfolding renderable_from
  length-renderable seen [] = omega arith
  length-renderable seen (rel ∷ rels) = elim (Bool-cases (is_dropped ids seen rel)) [
    | inl e ↦ rw e (omega (arith, length-renderable seen rels))
    | inr e ↦ rw e (omega (arith, length-renderable (rel.id ∷ seen) rels))
  ]

length-filter : {A : Type 0} (p : A → Bool) (xs : List A) → length (filter p xs) ≤ length xs
length-filter p [] = omega arith
length-filter p (x ∷ xs) = ground (arith, length-filter p xs)

length-map : {A B : Type 0} (f : A → B) (xs : List A) → length (map f xs) ≡ length xs
length-map f [] = refl
length-map f (x ∷ xs) = omega (arith, length-map f xs)

bounded : (p : Json → Bool) (n : ℕ) (xs : List Json) → length (filter p (take n xs)) ≤ n
bounded p n xs = omega (arith, length-filter p (take n xs), length-take n xs)

-- The nodes are as many as the values, if every one is a node.
abbrev IsShort : ℕ → Result (List Node) → Type 0
IsShort n (err e) = Unit
IsShort n (ok nodes) = length nodes ≤ n

add_node-IsShort :
    (r : Result Node) (rest : Result (List Node)) (n : ℕ)
    → IsShort n rest
    → IsShort (suc n) (add_node r rest)
add_node-IsShort (ok node) (ok nodes) n h = omega arith
add_node-IsShort (ok node) (err e) n h = tt
add_node-IsShort (err e) rest n h = tt

module _ (python : Python) where
  normalize_each-IsShort :
      (values : List Json) → IsShort (length values) (normalize_each python values)
  unfolding normalize_each
  normalize_each-IsShort [] = omega arith
  normalize_each-IsShort (value ∷ values) =
      add_node-IsShort (normalize_graph_node python value) (normalize_each python values)
        (length values) (normalize_each-IsShort values)

  slice_with-IsDrawable :
      (raw_nodes raw_rels : List Json) (node_limit edge_limit n : ℕ) (r : Result (List Node))
      → n ≤ node_limit
      → IsShort n r
      → IsDrawable node_limit edge_limit
          (slice_with python raw_nodes raw_rels node_limit edge_limit r)
  unfolding unique_nodes renderable_relationships
  slice_with-IsDrawable raw_nodes raw_rels node_limit edge_limit n (err e) b h = tt
  slice_with-IsDrawable raw_nodes raw_rels node_limit edge_limit n (ok nodes) b h =
      let ids = ids_of (unique_from [] nodes) in
      let rels =
        map (normalize_graph_relationship python) (filter is_true (take edge_limit raw_rels)) in
      (
        unique_from-AreNew [] nodes,
        renderable-AreNew ids ids rels,
        renderable-HasEnds ids ids rels,
        omega (arith, length-unique_from [] nodes),
        omega (
          arith,
          length-renderable ids ids rels,
          length-map (normalize_graph_relationship python)
              (filter is_true (take edge_limit raw_rels)),
          bounded is_true edge_limit raw_rels,
        ),
      )

  -- A slice that is returned has no id twice, its relationships join nodes of the slice, and it has no
  -- more nodes and relationships than the limits.
  pub slice-IsDrawable :
      (rows : List Fields) (node_limit edge_limit : ℕ)
      → IsDrawable node_limit edge_limit (slice python rows node_limit edge_limit)
  unfolding slice
  slice-IsDrawable rows node_limit edge_limit =
      let raw_nodes = list_of (get "nodes" (first_row rows)) in
      slice_with-IsDrawable raw_nodes (list_of (get "relationships" (first_row rows))) node_limit
        edge_limit (length (filter is_true (take node_limit raw_nodes))) _
        (bounded is_true node_limit raw_nodes)
        (normalize_each-IsShort (filter is_true (take node_limit raw_nodes)))
