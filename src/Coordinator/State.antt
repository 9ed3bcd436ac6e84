-- ===== src/Coordinator/State.antt =====
-- `OntologyState`, the coordinator's own fields, and the methods that keep its health and its list of
-- failed updates. The activity counters are in Activity.antt, the lock is in Serialize.antt.
use hass_ontology_fix.Common.{
  ℕ, ◌+◌, String, Bool, true, false, ◌&&◌, not, Option, none, List, [], ◌∷◌, ◌++◌, filter, any,
  str_eq, if◌then◌else◌,
}
use hass_ontology_fix.Common.Dict.{Dict}
use hass_ontology_fix.ChangeBuffer.{GraphChangeBuffer}

-- HEALTH_OK, HEALTH_ERROR and HEALTH_UNAVAILABLE
pub data Health : Type 0 where
  ok error unavailable : Health

-- The values of `kind` in `failed_updates`.
pub data UpdateKind : Type 0 where
  entity device area : UpdateKind

abbrev pub kind_eq : UpdateKind → UpdateKind → Bool
kind_eq entity entity = true
kind_eq device device = true
kind_eq area area = true
kind_eq _ _ = false

pub record FailedUpdate : Type 0 where
  pub kind : UpdateKind
  pub id : String
  pub attempts : ℕ
  pub error : String

pub record OntologyState : Type 0 where
  pub health : Health
  pub node_count : ℕ
  pub relationship_count : ℕ
  pub last_sync : Option String
  pub last_error : Option String
  pub schema_version : Option String
  pub consecutive_failures : ℕ
  pub failed_updates : List FailedUpdate
  pub validation_findings : Dict ℕ

abbrev pub init_state : OntologyState
init_state = record {
  health = unavailable;
  node_count = 0;
  relationship_count = 0;
  last_sync = none;
  last_error = none;
  schema_version = none;
  consecutive_failures = 0;
  failed_updates = [];
  validation_findings = [];
}

-- The world `W` holds the graph, Home Assistant and what the callbacks act on.
pub record Coordinator (W : Type 0) : Type 0 where
  pub state : OntologyState
  pub change_buffer : GraphChangeBuffer W
  pub world : W

-- SUSTAINED_FAILURE_THRESHOLD
abbrev pub sustained_failure_threshold : ℕ
sustained_failure_threshold = 3

-- The test `item["kind"] == kind and item["id"] == target_id`.
unfoldable pub is_update : UpdateKind → String → FailedUpdate → Bool
is_update kind id item = kind_eq item.kind kind && str_eq item.id id

-- The loop of `_track_failed_update`: the first item of that key is counted up.
unfoldable pub count_attempt : UpdateKind → String → String → List FailedUpdate → List FailedUpdate
count_attempt kind id message [] = []
count_attempt kind id message (item ∷ items) =
    if is_update kind id item
    then record item { attempts = item.attempts + 1; error = message } ∷ items
    else item ∷ count_attempt kind id message items

unfoldable pub track_failed : UpdateKind → String → String → List FailedUpdate → List FailedUpdate
unfolding count_attempt
track_failed kind id message items =
    if any (is_update kind id) items
    then count_attempt kind id message items
    else items ++ record { kind = kind; id = id; attempts = 1; error = message } ∷ []

unfoldable pub clear_failed : UpdateKind → String → List FailedUpdate → List FailedUpdate
clear_failed kind id items = filter (λ item. not (is_update kind id item)) items
