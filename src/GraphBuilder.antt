-- ===== src/GraphBuilder.antt =====
-- The writes of graph_builder.py that all discovery goes through, in bulk batches, and the current measurement of
-- an entity. A query is sent with a text and its rows.
mod Chunks
mod Tests
pub mod Labels
pub mod Graph
pub mod Registry
pub mod Rows
pub mod Discovery
pub mod Updates
mod Writes
mod Plan
mod Calls
mod Made
mod Kept
mod Found
pub mod Measurement
use Prim.Native.String.{◌++◌}
use hass_ontology_fix.Common.{
  ℕ, zero, suc, ◌+◌, ◌/◌, ◌&&◌, ◌||◌, not, String, Bool, true, false, List, [], ◌∷◌, map, filter,
  take, drop, length, ◌==◌, if◌then◌else◌,
}
use hass_ontology_fix.Common.Codes.{codes, between}
use hass_ontology_fix.Common.Errors.{
  Exception, ErrorClass, Result, ok, err, Action, ◌>>=◌, ◌>>◌, pure, raise,
}
use hass_ontology_fix.Common.Json.{Json, Fields}

abbrev pub bulk_batch_size : ℕ
bulk_batch_size = 250

-- `str.isalnum` of what is left without the underscores, which must not be empty
abbrev is_alphanumeric : ℕ → Bool
is_alphanumeric c = between 48 57 c || between 65 90 c || between 97 122 c

abbrev all_alphanumeric : List ℕ → Bool
all_alphanumeric [] = true
all_alphanumeric (c ∷ cs) = is_alphanumeric c && all_alphanumeric cs

abbrev is_word_of : List ℕ → Bool
is_word_of [] = false
is_word_of (c ∷ cs) = all_alphanumeric (c ∷ cs)

abbrev pub is_safe_label : String → Bool
is_safe_label label = is_word_of (filter (λ c. not (c == 95)) (codes label))

-- So many batches from this place on.
unfoldable pub chunks_from : {A : Type 0} → ℕ → ℕ → List A → List (List A)
chunks_from zero i rows = []
chunks_from (suc n) i rows =
    take bulk_batch_size (drop i rows) ∷ chunks_from n (i + bulk_batch_size) rows

-- `_chunks`: a batch for each of `range(0, len(rows), _BULK_BATCH_SIZE)`
unfoldable pub chunks : {A : Type 0} → List A → List (List A)
unfolding chunks_from
chunks rows = chunks_from ((length rows + 249) / 250) 0 rows

-- A node's id and properties, and the ids at the ends of a relationship.
pub record NodeRow : Type 0 where
  pub ha_id : String
  pub properties : Fields

pub record PairRow : Type 0 where
  pub from_id : String
  pub to_id : String

pub record Client (W : Type 0) : Type 0 where
  -- label, rows, source
  pub merge_nodes : String → List NodeRow → String → Action W (Unit {0})
  -- label, type, label, rows, source
  pub merge_relationships : String → String → String → List PairRow → String → Action W (Unit {0})

abbrev unsafe_label : Exception
unsafe_label = record { class = ErrorClass.value_error; message = "Unsafe Cypher label/type" }

module _ {W : Type 0} (client : Client W) where
  abbrev pub checked_label : String → Action W (Unit {0})
  checked_label label = if is_safe_label label then pure tt else raise unsafe_label

  unfoldable pub send_nodes : String → String → List (List NodeRow) → Action W (Unit {0})
  send_nodes label source [] = pure tt
  send_nodes label source (chunk ∷ rest) =
      client.merge_nodes label chunk source >> send_nodes label source rest

  unfoldable pub merge_nodes_bulk : String → List NodeRow → String → Action W (Unit {0})
  unfolding chunks send_nodes
  merge_nodes_bulk label nodes source =
      checked_label label >> send_nodes label source (chunks nodes)

  unfoldable pub send_pairs :
      String → String → String → String → List (List PairRow) → Action W (Unit {0})
  send_pairs from type to source [] = pure tt
  send_pairs from type to source (chunk ∷ rest) =
      client.merge_relationships from type to chunk source >> send_pairs from type to source rest

  unfoldable pub merge_relationships_bulk :
      String → String → String → List PairRow → String → Action W (Unit {0})
  unfolding chunks send_pairs
  merge_relationships_bulk from type to pairs source = do
    checked_label from
    checked_label to
    checked_label type
    send_pairs from type to source (chunks pairs)
