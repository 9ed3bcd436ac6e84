-- ===== src/Coordinator/Batch.antt =====
-- The sync of a batch of entities: `_write_state_only_updates`, `_execute_entity_sync_batch` and
-- `async_handle_entity_changes_batch`. The lock is in Serialize.antt, the count of the batch by
-- `record_sync_batch` in Activity.antt.
pub mod Report
pub mod Outcome
use hass_ontology_fix.Common.{
  ℕ, String, ◌≡◌, Bool, true, false, ◌&&◌, ◌||◌, not, Option, none, some, List, [], ◌∷◌, any,
  filter, is_some, str_eq, if◌then◌else◌,
}
use hass_ontology_fix.Common.Dict.{Dict}
use hass_ontology_fix.Common.Errors.{Exception, Result, ok, err, Action, ◌>>=◌, ◌>>◌, pure}
use hass_ontology_fix.Coordinator.State.{Coordinator, OntologyState, UpdateKind, entity}
use hass_ontology_fix.Coordinator.Services.{
  Services, record_success, record_failure, on_world, refresh_counts, track_failed_update,
  clear_failed_update,
}
use hass_ontology_fix.Coordinator.EntitySync.{is_gone, publish_change}

-- A result per entity: `none` where its write succeeded.
abbrev pub Results : Type 0
Results = Dict (Option Exception)

abbrev pub contains : String → List String → Bool
contains id ids = any (str_eq id) ids

abbrev pub keys {ℓ} : {V : Type ℓ} → Dict V → List String
keys [] = []
keys ((k, _) ∷ d) = k ∷ keys d

-- `[entity_id for entity_id, err in results.items() if err is None]`
abbrev pub succeeded : Results → List String
succeeded [] = []
succeeded ((id, none) ∷ rs) = id ∷ succeeded rs
succeeded ((id, some _) ∷ rs) = succeeded rs

-- `for entity_id in succeeded: results[entity_id] = err`
unfoldable pub fail_succeeded : Exception → Results → Results
fail_succeeded e [] = []
fail_succeeded e ((id, none) ∷ rs) = (id, some e) ∷ fail_succeeded e rs
fail_succeeded e ((id, some e') ∷ rs) = (id, some e') ∷ fail_succeeded e rs

abbrev pub nonempty : List String → Bool
nonempty [] = false
nonempty (_ ∷ _) = true

abbrev pub outcome : {A : Type 0} → Result A → Option Exception
outcome (ok _) = none
outcome (err e) = some e

abbrev pub has_role : Result Bool → Bool
has_role (ok b) = b
has_role (err _) = false

module _ {W Context Payload : Type 0} (sv : Services W Context Payload) where
  -- The integration's own entities, whose platform is DOMAIN, and those with no state are left out.
  abbrev is_own : Option String → Bool
  is_own none = false
  is_own (some platform) = str_eq platform "ontology"

  abbrev is_candidate : W → String × Option Context → Bool
  is_candidate w (id, _) = not (is_own (sv.platform_of w id)) && sv.has_state w id

  abbrev written : Dict (Option Context) → Result (List String) → List String
  written candidates (ok updated) = filter (λ id. contains id updated) (keys candidates)
  written candidates (err _) = []

  abbrev bulk_write : Dict (Option Context) → W → List String × W
  bulk_write [] w = ([], w)
  bulk_write (candidate ∷ rest) w =
      let (r, w') = sv.update_entity_states_bulk (candidate ∷ rest) w in
      (written (candidate ∷ rest) r, w')

  unfoldable pub write_state_only_updates : Dict (Option Context) → W → List String × W
  write_state_only_updates entities w = bulk_write (filter (is_candidate w) entities) w

  -- The body of the `try` for one entity.
  abbrev sync_one : List String → String → Option Context → Action W Bool
  sync_one state_updated id context = do
    if contains id state_updated then pure tt else sv.update_entity id context
    sv.reconcile_energy_role_for_entity id

  -- The loop over the batch: the results, whether any role was assigned, and the world.
  unfoldable pub sync_each : List String → Dict (Option Context) → W → Results × Bool × W
  sync_each state_updated [] w = ([], false, w)
  sync_each state_updated ((id, context) ∷ rest) w =
      let (r, w') = sync_one state_updated id context w in
      let (rs, any_role, w'') = sync_each state_updated rest w' in
      ((id, outcome r) ∷ rs, has_role r || any_role, w'')

  abbrev removed_of : W → List String → List String
  removed_of w ids = filter (is_gone sv w) ids

  unfoldable pub publish_each : List String → List String → Coordinator W → Coordinator W
  unfolding publish_change
  publish_each removed [] c = c
  publish_each removed (id ∷ ids) c =
      publish_each removed ids (publish_change sv id (contains id removed) c)

  -- The two steps that the whole batch shares, each only if it is needed.
  abbrev shared_steps : Bool → List String → Action (Coordinator W) Unit
  shared_steps any_role removed = do
    if nonempty removed then refresh_counts sv else pure tt
    if any_role || nonempty removed then on_world sv sv.repair_energy_role_bindings else pure tt

  abbrev finish_batch :
      Results → List String → Result (Unit {0}) → Coordinator W → Results × Coordinator W
  finish_batch results removed (ok _) c =
      (results, publish_each removed (succeeded results) (record_success sv c))
  finish_batch results removed (err e) c = (fail_succeeded e results, record_failure sv e c)

  abbrev none_succeeded : Results → Coordinator W → Results × Coordinator W
  none_succeeded [] c = ([], c)
  none_succeeded ((id, none) ∷ rs) c = ((id, none) ∷ rs, c)
  none_succeeded ((id, some e) ∷ rs) c = ((id, some e) ∷ rs, record_failure sv e c)

  abbrev conclude : List String → Results → Bool → Coordinator W → Results × Coordinator W
  conclude [] results any_role c = none_succeeded results c
  conclude (id ∷ ids) results any_role c =
      let removed = removed_of c.world (id ∷ ids) in
      let (r, c') = shared_steps any_role removed c in finish_batch results removed r c'

  unfoldable pub execute_entity_sync_batch :
      Dict (Option Context) → Coordinator W → Results × Coordinator W
  unfolding write_state_only_updates sync_each
  execute_entity_sync_batch entities c =
      let (state_updated, w) = write_state_only_updates entities c.world in
      let (results, any_role, w') = sync_each state_updated entities w in
      conclude (succeeded results) results any_role (record c { world = w' })

  -- The last loop of `async_handle_entity_changes_batch`.
  abbrev report_one : String → Option Exception → Coordinator W → Coordinator W
  report_one id none c = clear_failed_update sv entity id c
  report_one id (some e) c = track_failed_update sv entity id e c

  unfoldable pub report_each : Results → Coordinator W → Coordinator W
  report_each [] c = c
  report_each ((id, r) ∷ rs) c = report_each rs (report_one id r c)

  unfoldable pub async_handle_entity_changes_batch :
      Dict (Option Context) → Coordinator W → Coordinator W
  unfolding execute_entity_sync_batch report_each
  async_handle_entity_changes_batch [] c = c
  async_handle_entity_changes_batch (item ∷ rest) c =
      let (results, c') = execute_entity_sync_batch (item ∷ rest) c in report_each results c'
