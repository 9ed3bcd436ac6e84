-- ===== src/Activity/Tests.antt =====
-- A run of the counters over a few minutes, and the theorem at it. A float is a number of tenths.
use hass_ontology_fix.Common.{ℕ, ◌+◌, ◌*◌, ◌/◌, ◌≡◌, refl, List, [], ◌∷◌, ltb, if◌then◌else◌, arith}
use hass_ontology_fix.Activity.{Floats, init, async_publish_sync_activity}
use hass_ontology_fix.Activity.Buckets.{recent_total}
use hass_ontology_fix.Activity.Window.{
  Op, event, batch, publish, event_log, batch_log, synced_log, run, snapshot_exact,
}

abbrev tenths : Floats ℕ
tenths = record { zero_float = 0; rounded_ratio = λ a b. (a * 20 + b) / (b * 2); rounded = λ x. x }

-- The event of minute 100 has left the window at minute 105.
abbrev ops : List (Op ℕ)
ops =
    event 100
    ∷ event 101
    ∷ event 101
    ∷ batch 101 37 2
    ∷ publish 102
    ∷ event 104
    ∷ batch 104 12 1
    ∷ []

run-ops :
    let a = async_publish_sync_activity tenths 105 (run tenths ops (init tenths)) in
    (a.events ≡ 3) × (a.batches ≡ 2) × (a.avg_batch_size ≡ 15)
unfolding run async_publish_sync_activity
run-ops = (refl, refl, refl)

-- With nothing for longer than the window the snapshot falls back to zero.
run_decays :
    let a = async_publish_sync_activity tenths 200 (run tenths ops (init tenths)) in
    (a.events ≡ 0) × (a.batches ≡ 0) × (a.avg_batch_size ≡ 0)
unfolding run async_publish_sync_activity
run_decays = (refl, refl, refl)

snapshot_exact_example :
    let a = async_publish_sync_activity tenths 105 (run tenths ops (init tenths)) in
    let batches = recent_total 105 (batch_log ops []) in
    (a.events ≡ recent_total 105 (event_log ops []))
    × (a.batches ≡ batches)
    × (a.avg_batch_size ≡ (
        if ltb 0 batches
        then tenths.rounded_ratio (recent_total 105 (synced_log ops [])) batches
        else tenths.zero_float))
snapshot_exact_example = snapshot_exact tenths ops 105 (omega arith)
