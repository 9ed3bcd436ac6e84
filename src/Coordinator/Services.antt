-- ===== src/Coordinator/Services.antt =====
-- What the coordinator calls: the graph modules, the two registries of Home Assistant, the clock and
-- the callbacks. `Context` is `graph_builder.EntitySyncContext`.
use hass_ontology_fix.Common.{ℕ, ◌+◌, String, Bool, Option, none, some, List, leb, if◌then◌else◌}
use hass_ontology_fix.Common.Dict.{Dict}
use hass_ontology_fix.Common.Errors.{Exception, Result, ok, err, Action}
use hass_ontology_fix.Coordinator.State.{
  Coordinator, OntologyState, Health, error, sustained_failure_threshold, UpdateKind, track_failed,
  clear_failed,
}

pub record Services (W Context Payload : Type 0) : Type 0 where
  -- graph_builder
  pub update_entity : String → Option Context → Action W Unit
  pub update_entity_states_bulk : Dict (Option Context) → Action W (List String)
  pub update_device : String → Action W Unit
  pub update_area : String → Action W Unit
  pub clear_generated_graph : Action W Unit
  pub build_full_graph : Action W Unit
  pub get_schema_version : Action W (Option String)
  -- overrides
  pub export_overrides : Action W Payload
  pub import_overrides : Payload → Action W ℕ
  -- user_knowledge
  pub reconcile_energy_roles : Option String → Action W ℕ
  pub reconcile_energy_role_for_entity : String → Action W Bool
  pub repair_energy_role_bindings : Action W Unit
  -- the two counting queries of `_refresh_counts`, `none` where no row comes back
  pub count_nodes : Action W (Option ℕ)
  pub count_relationships : Action W (Option ℕ)
  -- validation, and the client's connection test
  pub test_connection : Action W Unit
  pub run_validation : Action W (Dict ℕ)
  -- the entity registry: the platform of an entry, if there is one; and the state machine
  pub platform_of : W → String → Option String
  pub has_state : W → String → Bool
  -- `datetime.now(UTC).isoformat()` and `redact_exception`
  pub now : W → String
  pub redact_exception : Exception → String
  -- `async_set_updated_data`, and the optional callbacks
  pub set_updated_data : OntologyState → W → W
  pub on_sustained_failure : Option (W → W)
  pub on_failure_cleared : Option (W → W)

abbrev pub call_if : {W : Type 0} → Option (W → W) → W → W
call_if none w = w
call_if (some f) w = f w

module _ {W Context Payload : Type 0} (sv : Services W Context Payload) where
  -- `_notify_state_changed`
  abbrev pub notify_state_changed : Coordinator W → Coordinator W
  notify_state_changed c = record c { world = sv.set_updated_data c.state c.world }

  unfoldable pub record_success : Coordinator W → Coordinator W
  record_success c =
      let state = record (c.state) {
        health = Health.ok;
        last_error = none;
        consecutive_failures = 0;
        last_sync = some (sv.now c.world);
      } in
      notify_state_changed
        (record c { state = state; world = call_if sv.on_failure_cleared c.world })

  unfoldable pub record_failure : Exception → Coordinator W → Coordinator W
  record_failure e c =
      let failures = c.state.consecutive_failures + 1 in
      let state = record (c.state) {
        health = error;
        last_error = some (sv.redact_exception e);
        consecutive_failures = failures;
      } in
      notify_state_changed (record c {
        state = state;
        world =
            if leb sustained_failure_threshold failures
            then call_if sv.on_sustained_failure c.world
            else c.world;
      })

  -- A call on the world alone.
  abbrev pub on_world : {A : Type 0} → Action W A → Action (Coordinator W) A
  on_world m c = let (r, w) = m c.world in (r, record c { world = w })

  abbrev pub count_or_zero : Option ℕ → ℕ
  count_or_zero none = 0
  count_or_zero (some n) = n

  -- Both queries are made before either count is stored.
  abbrev store_counts : Result (Option ℕ) → Result (Option ℕ) → Action (Coordinator W) Unit
  store_counts (ok n) (ok r) c = (
    ok tt,
    record c {
      state = record (c.state) {
        node_count = count_or_zero n;
        relationship_count = count_or_zero r;
      };
    },
  )
  store_counts (ok n) (err e) c = (err e, c)
  store_counts (err e) _ c = (err e, c)

  abbrev second_count : Result (Option ℕ) → Action (Coordinator W) Unit
  second_count (err e) c = (err e, c)
  second_count (ok n) c =
      let (r, w) = sv.count_relationships c.world in store_counts (ok n) r (record c { world = w })

  unfoldable pub refresh_counts : Action (Coordinator W) Unit
  refresh_counts c = let (n, w) = sv.count_nodes c.world in second_count n (record c { world = w })

  unfoldable pub track_failed_update :
      UpdateKind → String → Exception → Coordinator W → Coordinator W
  unfolding track_failed
  track_failed_update kind id e c = notify_state_changed (record c {
    state = record (c.state) {
      failed_updates = track_failed kind id (sv.redact_exception e) c.state.failed_updates;
    };
  })

  unfoldable pub clear_failed_update : UpdateKind → String → Coordinator W → Coordinator W
  unfolding clear_failed
  clear_failed_update kind id c = notify_state_changed (record c {
    state = record (c.state) { failed_updates = clear_failed kind id c.state.failed_updates };
  })
