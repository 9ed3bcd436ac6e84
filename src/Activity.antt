-- ===== src/Activity.antt =====
-- The sync-activity counters of `OntologyCoordinator` (custom_components/ontology/coordinator.py):
-- one bucket a minute, circular over a window of five minutes. `now_minute` is the clock's reading,
-- `int(time.time() // 60)`. Floats are the parameter `Float` with the two operations that are used.
pub mod Buckets
pub mod Rolling
pub mod Tracking
pub mod Window
mod Tests
use hass_ontology_fix.Common.{
  ℕ, zero, suc, ◌+◌, ◌-◌, ◌%◌, min, Option, none, some, List, [], ◌∷◌, sum, leb, ltb, if◌then◌else◌,
}

-- SYNC_ACTIVITY_WINDOW_MINUTES
abbrev pub window : ℕ
window = 5

-- `buckets[i] = v` and `buckets[i] += v`, for an index in range.
unfoldable pub set : ℕ → ℕ → List ℕ → List ℕ
set i v [] = []
set zero v (b ∷ bs) = v ∷ bs
set (suc i) v (b ∷ bs) = b ∷ set i v bs

unfoldable pub add : ℕ → ℕ → List ℕ → List ℕ
add i v [] = []
add zero v (b ∷ bs) = (b + v) ∷ bs
add (suc i) v (b ∷ bs) = b ∷ add i v bs

-- The two operations on floats, of Python's library: `round(a / b, 1)` and `round(x, 1)`.
pub record Floats (Float : Type 0) : Type 0 where
  pub zero_float : Float
  pub rounded_ratio : ℕ → ℕ → Float
  pub rounded : Float → Float

pub record Activity (Float : Type 0) : Type 0 where
  pub event_buckets : List ℕ
  pub batch_buckets : List ℕ
  pub synced_buckets : List ℕ
  pub bucket_minute : Option ℕ
  -- the fields `sync_activity_*` of the state that the sensor shows
  pub events : ℕ
  pub batches : ℕ
  pub avg_batch_size : Float
  pub last_batch_ms : Option Float

module _ {Float : Type 0} where
  abbrev pub init : Floats Float → Activity Float
  init fl = record {
    event_buckets = 0 ∷ 0 ∷ 0 ∷ 0 ∷ 0 ∷ [];
    batch_buckets = 0 ∷ 0 ∷ 0 ∷ 0 ∷ 0 ∷ [];
    synced_buckets = 0 ∷ 0 ∷ 0 ∷ 0 ∷ 0 ∷ [];
    bucket_minute = none;
    events = 0;
    batches = 0;
    avg_batch_size = fl.zero_float;
    last_batch_ms = none;
  }

  -- `for step in range(step, step + n)` of `_activity_roll`.
  unfoldable pub clear_steps : ℕ → ℕ → ℕ → Activity Float → Activity Float
  unfolding set
  clear_steps last step zero a = a
  clear_steps last step (suc n) a =
      let idx = (last + step) % window in
      clear_steps last (step + 1) n (record a {
        event_buckets = set idx 0 a.event_buckets;
        batch_buckets = set idx 0 a.batch_buckets;
        synced_buckets = set idx 0 a.synced_buckets;
      })

  -- The rest of `_activity_roll` once a minute was recorded. `elapsed <= 0` also covers a clock that
  -- went back.
  unfoldable pub roll_from : Option ℕ → ℕ → Activity Float → Activity Float
  unfolding clear_steps
  roll_from none now_minute a = record a { bucket_minute = some now_minute }
  roll_from (some last) now_minute a =
      if leb now_minute last
      then a
      else record (clear_steps last 1 (min (now_minute - last) window) a) {
        bucket_minute = some now_minute;
      }

  unfoldable pub activity_roll : ℕ → Activity Float → Activity Float
  unfolding roll_from
  activity_roll now_minute a = roll_from a.bucket_minute now_minute a

  unfoldable pub record_sync_event : ℕ → Activity Float → Activity Float
  unfolding activity_roll add
  record_sync_event now_minute a =
      let a' = activity_roll now_minute a in
      record a' { event_buckets = add (now_minute % window) 1 a'.event_buckets }

  unfoldable pub record_sync_batch : Floats Float → ℕ → Float → ℕ → Activity Float → Activity Float
  unfolding activity_roll add
  record_sync_batch fl now_minute duration_ms batch_size a =
      let a' = activity_roll now_minute a in
      let idx = now_minute % window in
      record a' {
        batch_buckets = add idx 1 a'.batch_buckets;
        synced_buckets = add idx batch_size a'.synced_buckets;
        last_batch_ms = some (fl.rounded duration_ms);
      }

  unfoldable pub async_publish_sync_activity : Floats Float → ℕ → Activity Float → Activity Float
  unfolding activity_roll
  async_publish_sync_activity fl now_minute a =
      let a' = activity_roll now_minute a in
      let synced = sum a'.synced_buckets in
      let batches = sum a'.batch_buckets in
      record a' {
        events = sum a'.event_buckets;
        batches = batches;
        avg_batch_size = if ltb 0 batches then fl.rounded_ratio synced batches else fl.zero_float;
      }
