-- ===== src/Activity/Window.antt =====
-- The counters through any sequence of recordings: what the sensor shows is what was counted in the
-- last five minutes.
use hass_ontology_fix.Common.{ℕ, ◌≡◌, refl, List, [], ◌∷◌, ltb, if◌then◌else◌, Option, none, some}
use hass_ontology_fix.Activity.{
  Activity, init, activity_roll, record_sync_event, record_sync_batch, async_publish_sync_activity,
  Floats,
}
use hass_ontology_fix.Activity.Buckets.{Log, recent_total, sum-Tracks}
use hass_ontology_fix.Activity.Rolling.{NotAfter, Tracks-add}
use hass_ontology_fix.Activity.Tracking.{IsTracking, activity_roll-IsTracking}

-- What happens to the counters, each with the minute at which it happens.
pub data Op (Float : Type 0) : Type 0 where
  event : ℕ → Op Float
  batch : ℕ → Float → ℕ → Op Float
  publish : ℕ → Op Float

abbrev pub minute : {Float : Type 0} → Op Float → ℕ
minute (event now) = now
minute (batch now d n) = now
minute (publish now) = now

-- The three logs of a sequence, on top of those before it.
abbrev pub event_log : {Float : Type 0} → List (Op Float) → Log → Log
event_log [] log = log
event_log (event now ∷ ops) log = event_log ops ((now, 1) ∷ log)
event_log (batch now d n ∷ ops) log = event_log ops log
event_log (publish now ∷ ops) log = event_log ops log

abbrev pub batch_log : {Float : Type 0} → List (Op Float) → Log → Log
batch_log [] log = log
batch_log (event now ∷ ops) log = batch_log ops log
batch_log (batch now d n ∷ ops) log = batch_log ops ((now, 1) ∷ log)
batch_log (publish now ∷ ops) log = batch_log ops log

abbrev pub synced_log : {Float : Type 0} → List (Op Float) → Log → Log
synced_log [] log = log
synced_log (event now ∷ ops) log = synced_log ops log
synced_log (batch now d n ∷ ops) log = synced_log ops ((now, n) ∷ log)
synced_log (publish now ∷ ops) log = synced_log ops log

-- The clock does not go back through the sequence, nor up to the reading `end`.
abbrev pub IsForward : {Float : Type 0} → Option ℕ → List (Op Float) → ℕ → Type 0
IsForward o [] end = NotAfter o end
IsForward o (op ∷ ops) end = NotAfter o (minute op) × IsForward (some (minute op)) ops end

module _ {Float : Type 0} (fl : Floats Float) where
  unfoldable pub perform : Op Float → Activity Float → Activity Float
  unfolding record_sync_event record_sync_batch async_publish_sync_activity
  perform (event now) a = record_sync_event now a
  perform (batch now d n) a = record_sync_batch fl now d n a
  perform (publish now) a = async_publish_sync_activity fl now a

  unfoldable pub run : List (Op Float) → Activity Float → Activity Float
  unfolding perform
  run [] a = a
  run (op ∷ ops) a = run ops (perform op a)

  -- The last minute of a sequence.
  abbrev last_minute : Option ℕ → List (Op Float) → Option ℕ
  last_minute o [] = o
  last_minute o (op ∷ ops) = last_minute (some (minute op)) ops

  perform-IsTracking :
      (op : Op Float) (o : Option ℕ) (es bs ss : Log) (a : Activity Float)
      → NotAfter o (minute op)
      → IsTracking a o es bs ss
      → IsTracking
          (perform op a)
          (some (minute op))
          (event_log (op ∷ []) es)
          (batch_log (op ∷ []) bs)
          (synced_log (op ∷ []) ss)
  unfolding perform
  perform-IsTracking (event now) o es bs ss a h k =
      let t = activity_roll-IsTracking o now es bs ss a h k in
      record {
        minute = t.minute;
        tracked_events = Tracks-add now 1 es (activity_roll now a).event_buckets t.tracked_events;
        tracked_batches = t.tracked_batches;
        tracked_synced = t.tracked_synced;
      }
  perform-IsTracking (batch now d n) o es bs ss a h k =
      let t = activity_roll-IsTracking o now es bs ss a h k in
      record {
        minute = t.minute;
        tracked_events = t.tracked_events;
        tracked_batches = Tracks-add now 1 bs (activity_roll now a).batch_buckets t.tracked_batches;
        tracked_synced = Tracks-add now n ss (activity_roll now a).synced_buckets t.tracked_synced;
      }
  perform-IsTracking (publish now) o es bs ss a h k =
      let t = activity_roll-IsTracking o now es bs ss a h k in
      record {
        minute = t.minute;
        tracked_events = t.tracked_events;
        tracked_batches = t.tracked_batches;
        tracked_synced = t.tracked_synced;
      }

  run-IsTracking :
      (ops : List (Op Float)) (o : Option ℕ) (end : ℕ) (es bs ss : Log) (a : Activity Float)
      → IsForward o ops end
      → IsTracking a o es bs ss
      → IsTracking
          (run ops a)
          (last_minute o ops)
          (event_log ops es)
          (batch_log ops bs)
          (synced_log ops ss)
  unfolding run
  run-IsTracking [] o end es bs ss a h k = k
  run-IsTracking (event now ∷ ops) o end es bs ss a h k =
      run-IsTracking ops (some now) end ((now, 1) ∷ es) bs ss (perform (event now) a) h.1
        (perform-IsTracking (event now) o es bs ss a h.0 k)
  run-IsTracking (batch now d n ∷ ops) o end es bs ss a h k =
      run-IsTracking ops (some now) end es ((now, 1) ∷ bs) ((now, n) ∷ ss)
        (perform (batch now d n) a) h.1 (perform-IsTracking (batch now d n) o es bs ss a h.0 k)
  run-IsTracking (publish now ∷ ops) o end es bs ss a h k =
      run-IsTracking ops (some now) end es bs ss (perform (publish now) a) h.1
        (perform-IsTracking (publish now) o es bs ss a h.0 k)

  last_minute-NotAfter :
      (ops : List (Op Float)) (o : Option ℕ) (end : ℕ)
      → IsForward o ops end
      → NotAfter (last_minute o ops) end
  last_minute-NotAfter [] o end h = h
  last_minute-NotAfter (op ∷ ops) o end h = last_minute-NotAfter ops (some (minute op)) end h.1

-- After any recordings by a clock that does not go back, the snapshot that is published at minute
-- `now` shows as events, batches and average exactly what was recorded in the minutes `now - 4` to
-- `now`: the events, the batches, and the entities synced over the batches, or zero if there were
-- none.
pub snapshot_exact :
    {Float : Type 0} (fl : Floats Float) (ops : List (Op Float)) (now : ℕ)
    → IsForward none ops now
    → let a = async_publish_sync_activity fl now (run fl ops (init fl)) in
      let batches = recent_total now (batch_log ops []) in
      (a.events ≡ recent_total now (event_log ops []))
      × (a.batches ≡ batches)
      × (a.avg_batch_size ≡ (
          if ltb 0 batches
          then fl.rounded_ratio (recent_total now (synced_log ops [])) batches
          else fl.zero_float))
unfolding async_publish_sync_activity
snapshot_exact fl ops now h =
    let k = run-IsTracking fl ops none now [] [] [] (init fl) h (record {
      minute = refl;
      tracked_events = (refl, refl);
      tracked_batches = (refl, refl);
      tracked_synced = (refl, refl);
    }) in
    let a : Activity _ = activity_roll now (run fl ops (init fl)) in
    let t =
      activity_roll-IsTracking (last_minute fl none ops) now (event_log ops []) (batch_log ops [])
        (synced_log ops []) (run fl ops (init fl)) (last_minute-NotAfter fl ops none now h) k in
    let e = sum-Tracks now (event_log ops []) a.event_buckets t.tracked_events in
    let b = sum-Tracks now (batch_log ops []) a.batch_buckets t.tracked_batches in
    let s = sum-Tracks now (synced_log ops []) a.synced_buckets t.tracked_synced in
    (e, b, rw (b, s) refl)
