-- ===== src/Coordinator/Batch/Report.antt =====
-- After a batch the list of failed updates says of each entity how often it has failed since it last
-- succeeded.
use hass_ontology_fix.Common.{
  ℕ, ◌+◌, ◌≡◌, refl, ap, sym, ◌∙◌, String, false, Option, none, some, List, [], ◌∷◌, if◌then◌else◌,
  arith, eq_iff,
}
use hass_ontology_fix.Common.Dict.{Dict, lookup}
use hass_ontology_fix.Common.Errors.{Exception}
use hass_ontology_fix.Coordinator.State.{Coordinator, UpdateKind, entity, device, area}
use hass_ontology_fix.Coordinator.Services.{Services, track_failed_update, clear_failed_update}
use hass_ontology_fix.Coordinator.Failures.{
  attempts, same_key, attempts-track_failed, attempts-clear_failed, same_key-entity, same_key-ne,
}
use hass_ontology_fix.Coordinator.Batch.{
  Results, keys, contains, report_one, report_each, execute_entity_sync_batch,
  async_handle_entity_changes_batch,
}
use hass_ontology_fix.Coordinator.Batch.Outcome.{batch_outcome}

-- No text occurs twice, as the keys of a `dict`.
abbrev pub IsDistinct : List String → Type 0
IsDistinct [] = Unit
IsDistinct (k ∷ ks) = (contains k ks ≡ false) × IsDistinct ks

-- The attempts of an update before a result, and after it.
abbrev pub after : UpdateKind → Option (Option Exception) → ℕ → ℕ
after entity none n = n
after entity (some none) n = 0
after entity (some (some e)) n = 1 + n
after _ _ n = n

after-none : (k : UpdateKind) (n : ℕ) → after k none n ≡ n
after-none entity n = refl
after-none _ n = refl

lookup-absent : (id : String) (rs : Results) → contains id (keys rs) ≡ false → lookup id rs ≡ none
lookup-absent id [] h = refl
lookup-absent id ((j, r) ∷ rs) h = ground (arith, lookup-absent id rs, eq_iff id j, eq_iff j id)

module _ {W Context Payload : Type 0} (sv : Services W Context Payload) where
  report_one-attempts :
      (k : UpdateKind) (id j : String) (r : Option Exception) (c : Coordinator W)
      → attempts k id (report_one sv j r c).state.failed_updates ≡ (
          if same_key k id entity j
          then after entity (some r) (attempts k id c.state.failed_updates)
          else attempts k id c.state.failed_updates)
  unfolding track_failed_update clear_failed_update
  report_one-attempts k id j none c = attempts-clear_failed k entity id j c.state.failed_updates
  report_one-attempts k id j (some e) c =
      ground
        (arith, attempts-track_failed k entity id j (sv.redact_exception e) c.state.failed_updates)

  report_each-attempts :
      (k : UpdateKind) (id : String) (rs : Results) (c : Coordinator W)
      → IsDistinct (keys rs)
      → attempts k id (report_each sv rs c).state.failed_updates
        ≡ after k (lookup id rs) (attempts k id c.state.failed_updates)
  unfolding report_each
  report_each-attempts k id [] c h = sym (after-none k (attempts k id c.state.failed_updates))
  report_each-attempts entity id ((j, r) ∷ rs) c h =
      let d : Coordinator W = report_one sv j r c in
      ground (
        arith,
        report_each-attempts entity id rs d h.1,
        report_one-attempts entity id j r c,
        same_key-entity id j,
        lookup-absent id rs,
        eq_iff j id,
      )
  report_each-attempts device id ((j, r) ∷ rs) c h =
      let d : Coordinator W = report_one sv j r c in
      ground (
        arith,
        report_each-attempts device id rs d h.1,
        report_one-attempts device id j r c,
        same_key-ne device entity id j refl,
      )
  report_each-attempts area id ((j, r) ∷ rs) c h =
      let d : Coordinator W = report_one sv j r c in
      ground (
        arith,
        report_each-attempts area id rs d h.1,
        report_one-attempts area id j r c,
        same_key-ne area entity id j refl,
      )

  -- After a batch whose entities are distinct, the failed updates count for each entity of the batch
  -- none if its result is a success and one more than before if it is an error; the count of an entity
  -- outside the batch, of a device and of an area stays.
  pub batch_attempts :
      (entities : Dict (Option Context)) (k : UpdateKind) (id : String) (c : Coordinator W)
      → IsDistinct (keys entities)
      → attempts k id (async_handle_entity_changes_batch sv entities c).state.failed_updates
        ≡ after k
            (lookup id (execute_entity_sync_batch sv entities c).0)
            (attempts k id c.state.failed_updates)
  unfolding async_handle_entity_changes_batch
  batch_attempts [] k id c h = sym (after-none k (attempts k id c.state.failed_updates))
  batch_attempts (item ∷ rest) k id c h =
      let (counts, same) = batch_outcome sv (item ∷ rest) c in
      let (rs, d) = execute_entity_sync_batch sv (item ∷ rest) c in
      report_each-attempts k id rs d (rw same h)
      ∙ ap (λ items. after k (lookup id rs) (attempts k id items)) counts.failed_updates
