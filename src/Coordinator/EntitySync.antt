-- ===== src/Coordinator/EntitySync.antt =====
-- The sync of one entity, device or area, and the retry of what failed. The lock around these calls
-- is in Serialize.antt.
use Prim.Native.String.{◌++◌}
use hass_ontology_fix.Common.{
  String, Bool, ◌&&◌, not, Option, none, some, List, [], ◌∷◌, is_some, if◌then◌else◌,
}
use hass_ontology_fix.Common.Errors.{ErrorClass, Result, ok, err, Action, ◌>>◌}
use hass_ontology_fix.ChangeBuffer.{publish_remove, publish_upsert}
use hass_ontology_fix.Coordinator.State.{
  Coordinator, UpdateKind, entity, device, area, FailedUpdate,
}
use hass_ontology_fix.Coordinator.Services.{
  Services, record_success, record_failure, on_world, refresh_counts, track_failed_update,
  clear_failed_update,
}

module _ {W Context Payload : Type 0} (sv : Services W Context Payload) where
  -- Neither the registry nor the state machine knows the entity.
  abbrev pub is_gone : W → String → Bool
  is_gone w id = not (is_some (sv.platform_of w id)) && not (sv.has_state w id)

  -- The event of one entity after a successful write.
  unfoldable pub publish_change : String → Bool → Coordinator W → Coordinator W
  publish_change id gone c =
      let node_id : String = "Entity:" ++ id in
      let now = sv.now c.world in
      let (buffer, w) =
        if gone
        then publish_remove (node_id ∷ []) [] now c.change_buffer c.world
        else publish_upsert (node_id ∷ []) [] ("state" ∷ "ha_id" ∷ []) now c.change_buffer
            c.world in
      record c { change_buffer = buffer; world = w }

  -- The body of the `try` of `_execute_entity_sync`.
  abbrev write_entity : String → Option Context → Action (Coordinator W) Unit
  write_entity id context = do
    on_world sv (sv.update_entity id context)
    on_world sv (sv.reconcile_energy_roles (some id))
    refresh_counts sv

  abbrev after_entity : String → Result (Unit {0}) → Action (Coordinator W) Unit
  after_entity id (ok _) c =
      let c' = record_success sv c in (ok tt, publish_change id (is_gone c'.world id) c')
  after_entity id (err e) c = (err e, record_failure sv e c)

  unfoldable pub execute_entity_sync : String → Option Context → Action (Coordinator W) Unit
  execute_entity_sync id context c = let (r, c') = write_entity id context c in after_entity id r c'

  -- The `except` and the `else` of the incremental entry points.
  abbrev settle : UpdateKind → String → Result (Unit {0}) → Coordinator W → Coordinator W
  settle kind id (ok _) c = clear_failed_update sv kind id c
  settle kind id (err e) c = track_failed_update sv kind id e c

  unfoldable pub async_handle_entity_change :
      String → Option Context → Coordinator W → Coordinator W
  unfolding execute_entity_sync
  async_handle_entity_change id context c =
      let (r, c') = execute_entity_sync id context c in settle entity id r c'

  unfoldable pub async_handle_device_change : String → Coordinator W → Coordinator W
  async_handle_device_change id c =
      let (r, c') = on_world sv (sv.update_device id) c in settle device id r c'

  unfoldable pub async_handle_area_change : String → Coordinator W → Coordinator W
  async_handle_area_change id c =
      let (r, c') = on_world sv (sv.update_area id) c in settle area id r c'

  abbrev retry_one : UpdateKind → String → Coordinator W → Coordinator W
  retry_one entity id c = async_handle_entity_change id none c
  retry_one device id c = async_handle_device_change id c
  retry_one area id c = async_handle_area_change id c

  -- The loop runs over a copy of the list made before the first retry.
  unfoldable pub retry_each : List FailedUpdate → Coordinator W → Coordinator W
  unfolding async_handle_entity_change async_handle_device_change async_handle_area_change
  retry_each [] c = c
  retry_each (item ∷ items) c = retry_each items (retry_one item.kind item.id c)

  unfoldable pub async_retry_failed_updates : Coordinator W → Coordinator W
  unfolding retry_each
  async_retry_failed_updates c = retry_each c.state.failed_updates c

  -- `async_sync_entity` up to the lock: an entity that does not exist is refused.
  unfoldable pub async_sync_entity : String → Action (Coordinator W) Unit
  unfolding execute_entity_sync
  async_sync_entity id c =
      if is_gone c.world id
      then (
        err (record {
          class = ErrorClass.value_error;
          message = "Entity " ++ id ++ " does not exist";
        }),
        c,
      )
      else execute_entity_sync id none c
