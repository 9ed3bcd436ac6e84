-- ===== src/Coordinator/FullSync.antt =====
-- The full sync behind `async_rebuild` and `async_resync`, and the validation run. The lock around
-- them is in Serialize.antt.
pub mod Keeps
pub mod Overrides
pub mod Restored
use hass_ontology_fix.Common.{ℕ, String, Bool, true, false, Option, none, some, if◌then◌else◌}
use hass_ontology_fix.Common.Dict.{Dict}
use hass_ontology_fix.Common.Errors.{Exception, Result, ok, err, Action, ◌>>=◌, ◌>>◌, pure}
use hass_ontology_fix.ChangeBuffer.{publish_reconcile}
use hass_ontology_fix.Coordinator.State.{Coordinator, OntologyState}
use hass_ontology_fix.Coordinator.Services.{
  Services, record_success, record_failure, on_world, refresh_counts,
}

module _ {W Context Payload : Type 0} (sv : Services W Context Payload) where
  -- `if clear_first:` the overrides are exported, then the generated graph is cleared.
  abbrev save_and_clear : Bool → Action (Coordinator W) (Option Payload)
  save_and_clear true = do
    payload ← on_world sv sv.export_overrides
    on_world sv sv.clear_generated_graph
    pure (some payload)
  save_and_clear false = pure none

  abbrev restore : Option Payload → Action (Coordinator W) (Unit {0})
  restore none = pure tt
  restore (some payload) = do on_world sv (sv.import_overrides payload); pure tt

  abbrev set_schema_version : Option String → Action (Coordinator W) (Unit {0})
  set_schema_version version c =
      (ok tt, record c { state = record (c.state) { schema_version = version } })

  abbrev refresh_version : Action (Coordinator W) (Unit {0})
  refresh_version = do
    version ← on_world sv sv.get_schema_version
    set_schema_version version
    refresh_counts sv

  -- What comes after the graph is built.
  abbrev after_build : Option Payload → Action (Coordinator W) (Unit {0})
  after_build payload = do
    restore payload
    on_world sv (sv.reconcile_energy_roles none)
    refresh_version

  abbrev build_all : Option Payload → Action (Coordinator W) (Unit {0})
  build_all payload = do on_world sv sv.build_full_graph; after_build payload

  -- The body of the `try` of `_execute_full_sync`.
  abbrev full_sync : Bool → Action (Coordinator W) (Unit {0})
  full_sync clear_first = do payload ← save_and_clear clear_first; build_all payload

  abbrev end_full_sync : Result (Unit {0}) → Action (Coordinator W) (Unit {0})
  end_full_sync (ok _) c =
      let d = record_success sv c in
      let (buffer, w) = publish_reconcile (sv.now d.world) d.change_buffer d.world in
      (ok tt, record d { change_buffer = buffer; world = w })
  end_full_sync (err e) c = (err e, record_failure sv e c)

  unfoldable pub execute_full_sync : Bool → Action (Coordinator W) (Unit {0})
  execute_full_sync clear_first c = let (r, d) = full_sync clear_first c in end_full_sync r d

  unfoldable pub async_rebuild : Action (Coordinator W) (Unit {0})
  unfolding execute_full_sync
  async_rebuild = execute_full_sync true

  unfoldable pub async_resync : Action (Coordinator W) (Unit {0})
  unfolding execute_full_sync
  async_resync = execute_full_sync false

  abbrev set_findings : Dict ℕ → Action (Coordinator W) (Unit {0})
  set_findings findings c =
      (ok tt, record c { state = record (c.state) { validation_findings = findings } })

  abbrev validate : Action (Coordinator W) (Unit {0})
  validate = do
    on_world sv sv.test_connection
    version ← on_world sv sv.get_schema_version
    set_schema_version version
    findings ← on_world sv sv.run_validation
    set_findings findings

  abbrev end_validate : Result (Unit {0}) → Action (Coordinator W) (Unit {0})
  end_validate (ok _) c = (ok tt, record_success sv c)
  end_validate (err e) c = (err e, record_failure sv e c)

  pub execute_validate : Action (Coordinator W) (Unit {0})
  execute_validate c = let (r, d) = validate c in end_validate r d
