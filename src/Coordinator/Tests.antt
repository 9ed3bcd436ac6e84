-- ===== src/Coordinator/Tests.antt =====
-- A small world for the coordinator's calls, runs in it, and the theorems at some of them.
use hass_ontology_fix.Common.{
  ℕ, ◌≡◌, refl, String, Bool, true, false, Option, none, some, List, [], ◌∷◌, length, str_eq,
  if◌then◌else◌,
}
use hass_ontology_fix.Common.Dict.{Dict, lookup}
use hass_ontology_fix.Common.Errors.{ErrorClass, Exception, ok, err, Action, is_ok}
use hass_ontology_fix.ChangeBuffer.{init, publish_upsert}
use hass_ontology_fix.Coordinator.State.{Coordinator, init_state, entity, Health}
use hass_ontology_fix.Coordinator.Services.{Services, refresh_counts, record_success}
use hass_ontology_fix.Coordinator.Failures.{attempts}
use hass_ontology_fix.Coordinator.FullSync.{async_rebuild}
use hass_ontology_fix.Coordinator.FullSync.Restored.{
  with_overrides, overrides_of, rebuild_restores_overrides, rebuild_loses_overrides,
}
use hass_ontology_fix.Coordinator.FullSync.Keeps.{LeavesOverrides}
use hass_ontology_fix.Common.Json.{Json}
use hass_ontology_fix.Overrides.{
  Override, Graph, async_list_overrides, async_create_override, async_export_overrides, send_query,
}
use hass_ontology_fix.Overrides.Import.{async_import_overrides, create_each, validate_payload}
use hass_ontology_fix.Coordinator.Health.{IssueLaws, record_all, record_all_exact}
use hass_ontology_fix.Coordinator.Batch.{
  publish_each, keys, succeeded, execute_entity_sync_batch, async_handle_entity_changes_batch,
}
use hass_ontology_fix.Coordinator.Batch.Outcome.{Counts, failures_after, batch_outcome}
use hass_ontology_fix.Coordinator.Batch.Report.{after, batch_attempts}

-- The graph's overrides, whether the database is up, and whether the repair issue is shown.
record World : Type 0 where
  pins : List String
  up : Bool
  issue : Bool

abbrev lost : Exception
lost = record { class = ErrorClass.transient_error; message = "lost" }

abbrev write : Action World (Unit {0})
write w = (if w.up then ok tt else err lost, w)

-- The bulk write writes no entity, so each goes its own way; a light always fails.
abbrev services : Services World (Unit {0}) (List String)
services = record {
  update_entity = λ id context w. (if str_eq id "light.a" then err lost else ok tt, w);
  update_entity_states_bulk = λ candidates w. (ok [], w);
  update_device = λ id w. write w;
  update_area = λ id w. write w;
  clear_generated_graph = λ w. (ok tt, record w { pins = [] });
  build_full_graph = λ w. write w;
  get_schema_version = λ w. (ok (some "6"), w);
  export_overrides = λ w. (ok w.pins, w);
  import_overrides = λ payload w. (ok (length payload), record w { pins = payload });
  reconcile_energy_roles = λ id w. (ok 0, w);
  reconcile_energy_role_for_entity = λ id w. (ok false, w);
  repair_energy_role_bindings = λ w. (ok tt, w);
  count_nodes = λ w. (ok (some 2), w);
  count_relationships = λ w. (ok none, w);
  test_connection = λ w. write w;
  run_validation = λ w. (ok [], w);
  platform_of = λ w id. some "hue";
  has_state = λ w id. true;
  now = λ w. "now";
  redact_exception = λ e. e.message;
  set_updated_data = λ s w. w;
  on_sustained_failure = some (λ (w : World). record w { issue = true });
  on_failure_cleared = some (λ (w : World). record w { issue = false });
}

abbrev started : Bool → Coordinator World
started up = record {
  state = init_state;
  change_buffer = init 4;
  world = record { pins = "light.a" ∷ []; up = up; issue = false };
}

issue_laws : IssueLaws services (λ w. w.issue)
issue_laws = record { raises = λ w. refl; clears = λ w. refl; notifies = λ s w. refl }

record_all_exact_example :
    let os = some lost ∷ some lost ∷ some lost ∷ none ∷ [] in
    let d = record_all services os (started true) in
    (d.state.consecutive_failures ≡ 3) × (d.state.health ≡ Health.error) × (d.world.issue ≡ true)
record_all_exact_example =
    record_all_exact services (λ w. w.issue) issue_laws
      (some lost ∷ some lost ∷ some lost ∷ none ∷ []) (started true) refl refl refl

-- A graph of overrides, and whether the database is up. The build makes the entities only.
abbrev graph_services : Services (Graph × Bool) (Unit {0}) Json
graph_services = record {
  update_entity = λ id context w. (ok tt, w);
  update_entity_states_bulk = λ candidates w. (ok [], w);
  update_device = λ id w. (ok tt, w);
  update_area = λ id w. (ok tt, w);
  clear_generated_graph =
      λ w. (ok tt, (record (w.0) { has_node = λ label id. false; overrides = [] }, w.1));
  build_full_graph = λ w. (
    if w.1 then ok tt else err lost,
    (record (w.0) { has_node = λ label id. str_eq label "Entity" }, w.1),
  );
  get_schema_version = λ w. (ok (some "6"), w);
  export_overrides = λ w. (ok Json.null, w);
  import_overrides = λ payload w. (ok 0, w);
  reconcile_energy_roles = λ id w. (ok 0, w);
  reconcile_energy_role_for_entity = λ id w. (ok false, w);
  repair_energy_role_bindings = λ w. (ok tt, w);
  count_nodes = λ w. (ok (some 2), w);
  count_relationships = λ w. (ok none, w);
  test_connection = λ w. (ok tt, w);
  run_validation = λ w. (ok [], w);
  platform_of = λ w id. some "hue";
  has_state = λ w id. true;
  now = λ w. "now";
  redact_exception = λ e. e.message;
  set_updated_data = λ s w. w;
  on_sustained_failure = none;
  on_failure_cleared = none;
}

abbrev answered : ℕ → Option Exception
answered n = none

abbrev all_services : Services (Graph × Bool) (Unit {0}) Json
all_services = with_overrides answered "now" graph_services

override_laws : LeavesOverrides all_services overrides_of
override_laws = record {
  builds = λ w. refl;
  reconciles = λ w. refl;
  reads_version = λ w. refl;
  counts_nodes = λ w. refl;
  counts_relationships = λ w. refl;
  notifies = λ s w. refl;
  reports_failure = λ w. refl;
  clears_failure = λ w. refl;
}

abbrev vehicle : Override
vehicle = record { source_label = "Entity"; source_ha_id = "light.a"; type_label = "Vehicle" }

abbrev pins : List Override
pins = vehicle ∷ record { source_label = "Area"; source_ha_id = "hall"; type_label = "Camera" } ∷ []

abbrev pinned : Bool → Coordinator (Graph × Bool)
pinned up = record {
  state = init_state;
  change_buffer = init 4;
  world = (record { has_node = λ label id. true; overrides = pins; sent = 0 }, up);
}

-- The area is not built again, and its override is gone.
rebuild_restores_overrides_example :
    (async_rebuild all_services (pinned true)).1.world.0.overrides ≡ vehicle ∷ []
unfolding async_rebuild init refresh_counts async_export_overrides async_import_overrides
    create_each async_create_override async_list_overrides send_query validate_payload
rebuild_restores_overrides_example =
    rebuild_restores_overrides answered "now" graph_services override_laws (pinned true)
      ((refl, refl, refl), ((refl, refl, refl), tt)) (refl, (refl, tt)) refl tt refl

rebuild_loses_overrides_example :
    (is_ok (async_rebuild all_services (pinned false)).0 ≡ false)
    × ((async_rebuild all_services (pinned false)).1.world.0.overrides ≡ [])
unfolding async_rebuild init async_export_overrides async_list_overrides send_query
rebuild_loses_overrides_example =
    rebuild_loses_overrides answered "now" graph_services override_laws (pinned false) refl refl tt
      refl

abbrev batch : Dict (Option (Unit {0}))
batch = ("light.a", none) ∷ ("light.b", none) ∷ []

batch_outcome_example :
    let (results, d) = execute_entity_sync_batch services batch (started true) in
    Counts (started true) d (length (succeeded results)) (failures_after results 0)
    × (keys results ≡ "light.a" ∷ "light.b" ∷ [])
batch_outcome_example = batch_outcome services batch (started true)

-- One of the two is written and published.
batch_runs :
    let (results, d) = execute_entity_sync_batch services batch (started true) in
    (succeeded results ≡ "light.b" ∷ []) × (d.change_buffer.revision ≡ 1)
unfolding execute_entity_sync_batch init publish_each publish_upsert record_success
batch_runs = (refl, refl)

batch_attempts_example :
    attempts entity "light.a"
      (async_handle_entity_changes_batch services batch (started true)).state.failed_updates
    ≡ after entity (lookup "light.a" (execute_entity_sync_batch services batch (started true)).0) 0
batch_attempts_example =
    batch_attempts services batch entity "light.a" (started true) (refl, (refl, tt))
