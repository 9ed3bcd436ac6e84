-- ===== src/Coordinator/Batch/Outcome.antt =====
-- What a batch leaves behind: a result for each entity, an event for each success, and the health.
use hass_ontology_fix.Common.{
  ℕ, ◌+◌, ◌≡◌, ◌≢◌, refl, ap, sym, ◌∙◌, String, Bool, true, false, Option, none, some, List, [],
  ◌∷◌, length, if◌then◌else◌, arith,
}
use hass_ontology_fix.Common.Dict.{Dict}
use hass_ontology_fix.Common.Errors.{Exception, Result, ok, err}
use hass_ontology_fix.ChangeBuffer.{publish_remove, publish_upsert}
use hass_ontology_fix.Coordinator.State.{Coordinator}
use hass_ontology_fix.Coordinator.Services.{
  Services, record_success, record_failure, refresh_counts,
}
use hass_ontology_fix.Coordinator.EntitySync.{publish_change}
use hass_ontology_fix.Coordinator.Batch.{
  Results, keys, succeeded, fail_succeeded, sync_each, write_state_only_updates, publish_each,
  shared_steps, finish_batch, none_succeeded, conclude, contains, sync_one,
  execute_entity_sync_batch, removed_of, nonempty,
}

succeeded-fail_succeeded : (e : Exception) (rs : Results) → succeeded (fail_succeeded e rs) ≡ []
unfolding fail_succeeded
succeeded-fail_succeeded e [] = refl
succeeded-fail_succeeded e ((id, none) ∷ rs) = succeeded-fail_succeeded e rs
succeeded-fail_succeeded e ((id, some e') ∷ rs) = succeeded-fail_succeeded e rs

keys-fail_succeeded : (e : Exception) (rs : Results) → keys (fail_succeeded e rs) ≡ keys rs
unfolding fail_succeeded
keys-fail_succeeded e [] = refl
keys-fail_succeeded e ((id, none) ∷ rs) = ap (λ ks. id ∷ ks) (keys-fail_succeeded e rs)
keys-fail_succeeded e ((id, some e') ∷ rs) = ap (λ ks. id ∷ ks) (keys-fail_succeeded e rs)

-- The failures in a row after a batch with these results.
abbrev pub failures_after : Results → ℕ → ℕ
failures_after [] n = n
failures_after (r ∷ rs) n = if nonempty (succeeded (r ∷ rs)) then 0 else n + 1

nonempty-true : (ids : List String) → ids ≢ [] → nonempty ids ≡ true
nonempty-true [] h = absurd (h refl)
nonempty-true (id ∷ ids) h = refl

failures_after-success : (rs : Results) (n : ℕ) → succeeded rs ≢ [] → failures_after rs n ≡ 0
failures_after-success [] n h = absurd (h refl)
failures_after-success (r ∷ rs) n h = rw (nonempty-true (succeeded (r ∷ rs)) h) refl

failures_after-failure :
    (rs : Results) (n : ℕ) → keys rs ≢ [] → succeeded rs ≡ [] → failures_after rs n ≡ n + 1
failures_after-failure [] n h e = absurd (h refl)
failures_after-failure (r ∷ rs) n h e = rw e refl

keys-succeeded : (rs : Results) → succeeded rs ≢ [] → keys rs ≢ []
keys-succeeded [] h = h
keys-succeeded ((id, r) ∷ rs) h = λ e. cc

-- What a batch leaves alone or counts, beside its world.
pub record Counts {W : Type 0} (c d : Coordinator W) (published failures : ℕ) : Type 0 where
  pub revision : d.change_buffer.revision ≡ c.change_buffer.revision + published
  pub failed_updates : d.state.failed_updates ≡ c.state.failed_updates
  pub consecutive_failures : d.state.consecutive_failures ≡ failures

module _ {W Context Payload : Type 0} (sv : Services W Context Payload) where
  keys-sync_each :
      (up : List String) (es : Dict (Option Context)) (w : W)
      → keys (sync_each sv up es w).0 ≡ keys es
  unfolding sync_each
  keys-sync_each up [] w = refl
  keys-sync_each up ((id, context) ∷ es) w =
      ap (λ ks. id ∷ ks) (keys-sync_each up es (sync_one sv up id context w).1)

  publish_change-Counts :
      (id : String) (b : Bool) (c : Coordinator W)
      → Counts c (publish_change sv id b c) 1 c.state.consecutive_failures
  unfolding publish_change publish_remove publish_upsert
  publish_change-Counts id true c = record {
    revision = refl;
    failed_updates = refl;
    consecutive_failures = refl;
  }
  publish_change-Counts id false c = record {
    revision = refl;
    failed_updates = refl;
    consecutive_failures = refl;
  }

  publish_each-Counts :
      (removed ids : List String) (c : Coordinator W)
      → Counts c (publish_each sv removed ids c) (length ids) c.state.consecutive_failures
  unfolding publish_each
  publish_each-Counts removed [] c = record {
    revision = omega arith;
    failed_updates = refl;
    consecutive_failures = refl;
  }
  publish_each-Counts removed (id ∷ ids) c =
      let d : Coordinator W = publish_change sv id (contains id removed) c in
      let one = publish_change-Counts id (contains id removed) c in
      let rest = publish_each-Counts removed ids d in
      record {
        revision = omega (arith, one.revision, rest.revision);
        failed_updates = rest.failed_updates ∙ one.failed_updates;
        consecutive_failures = rest.consecutive_failures ∙ one.consecutive_failures;
      }

  refresh_counts-Counts :
      (c : Coordinator W) → Counts c (refresh_counts sv c).1 0 c.state.consecutive_failures
  unfolding refresh_counts
  refresh_counts-Counts c = ground arith

  shared_steps-Counts :
      (any_role : Bool) (removed : List String) (c : Coordinator W)
      → Counts c (shared_steps sv any_role removed c).1 0 c.state.consecutive_failures
  shared_steps-Counts any_role removed c = ground (arith, refresh_counts-Counts c)

  record_success-Counts : (c : Coordinator W) → Counts c (record_success sv c) 0 0
  unfolding record_success
  record_success-Counts c = record {
    revision = omega arith;
    failed_updates = refl;
    consecutive_failures = refl;
  }

  record_failure-Counts :
      (e : Exception) (c : Coordinator W)
      → Counts c (record_failure sv e c) 0 (c.state.consecutive_failures + 1)
  unfolding record_failure
  record_failure-Counts e c = record {
    revision = omega arith;
    failed_updates = refl;
    consecutive_failures = refl;
  }

  finish_batch-Counts :
      (results : Results) (removed : List String) (r : Result (Unit {0})) (c : Coordinator W)
      → succeeded results ≢ []
      → let (rs, d) = finish_batch sv results removed r c in
        Counts c d (length (succeeded rs)) (failures_after rs c.state.consecutive_failures)
  finish_batch-Counts results removed (ok u) c h =
      let d : Coordinator W = record_success sv c in
      let one = record_success-Counts c in
      let all = publish_each-Counts removed (succeeded results) d in
      record {
        revision = omega (arith, one.revision, all.revision);
        failed_updates = all.failed_updates ∙ one.failed_updates;
        consecutive_failures =
            all.consecutive_failures
            ∙ one.consecutive_failures
            ∙ sym (failures_after-success results c.state.consecutive_failures h);
      }
  finish_batch-Counts results removed (err e) c h =
      let failed : Results = fail_succeeded e results in
      let none_left : succeeded failed ≡ [] = succeeded-fail_succeeded e results in
      let one = record_failure-Counts e c in
      let same = keys-fail_succeeded e results in
      record {
        revision = omega (arith, one.revision, ap length none_left);
        failed_updates = one.failed_updates;
        consecutive_failures =
            one.consecutive_failures
            ∙ sym (
                failures_after-failure failed c.state.consecutive_failures
                  (λ x. keys-succeeded results h (sym same ∙ x)) none_left);
      }

  none_succeeded-Counts :
      (results : Results) (c : Coordinator W)
      → succeeded results ≡ []
      → let (rs, d) = none_succeeded sv results c in
        Counts c d (length (succeeded rs)) (failures_after rs c.state.consecutive_failures)
  none_succeeded-Counts [] c h = ground arith
  none_succeeded-Counts ((id, none) ∷ rs) c h = cc
  none_succeeded-Counts ((id, some e) ∷ rs) c h =
      let one = record_failure-Counts e c in
      record {
        revision = omega (arith, one.revision, ap length h);
        failed_updates = one.failed_updates;
        consecutive_failures = rw h one.consecutive_failures;
      }

  keys-finish_batch :
      (results : Results) (removed : List String) (r : Result (Unit {0})) (c : Coordinator W)
      → keys (finish_batch sv results removed r c).0 ≡ keys results
  keys-finish_batch results removed (ok u) c = refl
  keys-finish_batch results removed (err e) c = keys-fail_succeeded e results

  keys-none_succeeded :
      (results : Results) (c : Coordinator W) → keys (none_succeeded sv results c).0 ≡ keys results
  keys-none_succeeded [] c = refl
  keys-none_succeeded ((id, none) ∷ rs) c = refl
  keys-none_succeeded ((id, some e) ∷ rs) c = refl

  conclude-Counts :
      (ids : List String) (results : Results) (any_role : Bool) (c : Coordinator W)
      → succeeded results ≡ ids
      → let (rs, d) = conclude sv ids results any_role c in
        Counts c d (length (succeeded rs)) (failures_after rs c.state.consecutive_failures)
        × (keys rs ≡ keys results)
  conclude-Counts [] results any_role c h =
      (none_succeeded-Counts results c h, keys-none_succeeded results c)
  conclude-Counts (id ∷ ids) results any_role c h =
      let removed : List String = removed_of sv c.world (id ∷ ids) in
      let (r, d) = shared_steps sv any_role removed c in
      let (rs, e) = finish_batch sv results removed r d in
      let one = shared_steps-Counts any_role removed c in
      let two = finish_batch-Counts results removed r d (λ x. cc) in
      (
        record {
          revision = omega (arith, one.revision, two.revision);
          failed_updates = two.failed_updates ∙ one.failed_updates;
          consecutive_failures =
              two.consecutive_failures ∙ ap (failures_after rs) one.consecutive_failures;
        },
        keys-finish_batch results removed r d,
      )

  -- A batch returns one result for each of its entities, in order. The change buffer's revision grows
  -- by exactly the number of entities that are reported as successful. The failures in a row fall to
  -- zero if one entity succeeded, grow by one if there were entities and none did, and stay for an
  -- empty batch. The list of failed updates is left alone.
  pub batch_outcome :
      (entities : Dict (Option Context)) (c : Coordinator W)
      → let (results, d) = execute_entity_sync_batch sv entities c in
        Counts c d
          (length (succeeded results))
          (failures_after results c.state.consecutive_failures)
        × (keys results ≡ keys entities)
  unfolding execute_entity_sync_batch
  batch_outcome entities c =
      let (up, w) = write_state_only_updates sv entities c.world in
      let (results, any_role, w') = sync_each sv up entities w in
      let (counts, same) =
        conclude-Counts (succeeded results) results any_role (record c { world = w' }) refl in
      (
        record {
          revision = counts.revision;
          failed_updates = counts.failed_updates;
          consecutive_failures = counts.consecutive_failures;
        },
        same ∙ keys-sync_each up entities w,
      )
