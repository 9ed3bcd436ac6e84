-- ===== src/Activity/Tracking.antt =====
-- The counters' three arrays against their logs, through `_activity_roll`.
use hass_ontology_fix.Common.{
  ℕ, zero, suc, ◌+◌, ◌-◌, ◌%◌, ◌≡◌, refl, ap, ◌∙◌, leb, arith, min, Option, none, some, Bool-cases,
  inl, inr,
}
use hass_ontology_fix.Activity.{window, set, Activity, clear_steps, roll_from, activity_roll}
use hass_ontology_fix.Activity.Buckets.{Log}
use hass_ontology_fix.Activity.Rolling.{clear_list, roll_list, Tracked, NotAfter, Tracks-roll}

module _ {Float : Type 0} where
  -- The three arrays go through the same loop.
  clear_steps_lists :
      (last step n : ℕ) (a : Activity Float)
      → let b = clear_steps last step n a in
        (b.event_buckets ≡ clear_list last step n a.event_buckets)
        × (b.batch_buckets ≡ clear_list last step n a.batch_buckets)
        × (b.synced_buckets ≡ clear_list last step n a.synced_buckets)
  unfolding clear_steps clear_list
  clear_steps_lists last step zero a = (refl, refl, refl)
  clear_steps_lists last step (suc n) a =
      let idx : ℕ = (last + step) % window in
      clear_steps_lists last (step + 1) n (record a {
        event_buckets = set idx 0 a.event_buckets;
        batch_buckets = set idx 0 a.batch_buckets;
        synced_buckets = set idx 0 a.synced_buckets;
      })

  roll_lists :
      (o : Option ℕ) (now : ℕ) (a : Activity Float)
      → NotAfter o now
      → a.bucket_minute ≡ o
      → let b = roll_from o now a in
        (b.event_buckets ≡ roll_list o now a.event_buckets)
        × (b.batch_buckets ≡ roll_list o now a.batch_buckets)
        × (b.synced_buckets ≡ roll_list o now a.synced_buckets)
        × (b.bucket_minute ≡ some now)
  unfolding roll_from roll_list
  roll_lists none now a h e = (refl, refl, refl, refl)
  roll_lists (some last) now a h e = elim (Bool-cases (leb now last)) [
    | inl same ↦ rw same (refl, refl, refl, e ∙ ap some (ground arith))
    | inr later ↦
        let c = clear_steps_lists last 1 (min (now - last) window) a in
        rw later (c.0, c.1, c.2, refl)
  ]

  -- The three arrays, each with its log.
  pub record IsTracking (a : Activity Float) (o : Option ℕ) (events batches synced : Log)
      : Type 0 where
    pub minute : a.bucket_minute ≡ o
    pub tracked_events : Tracked o events a.event_buckets
    pub tracked_batches : Tracked o batches a.batch_buckets
    pub tracked_synced : Tracked o synced a.synced_buckets

  roll_from-IsTracking :
      (o : Option ℕ) (now : ℕ) (es bs ss : Log) (a : Activity Float)
      → NotAfter o now
      → IsTracking a o es bs ss
      → IsTracking (roll_from o now a) (some now) es bs ss
  roll_from-IsTracking o now es bs ss a h k =
      let r = roll_lists o now a h k.minute in
      record {
        minute = r.3;
        tracked_events = rw r.0 (Tracks-roll o now es a.event_buckets h k.tracked_events);
        tracked_batches = rw r.1 (Tracks-roll o now bs a.batch_buckets h k.tracked_batches);
        tracked_synced = rw r.2 (Tracks-roll o now ss a.synced_buckets h k.tracked_synced);
      }

  pub activity_roll-IsTracking :
      (o : Option ℕ) (now : ℕ) (es bs ss : Log) (a : Activity Float)
      → NotAfter o now
      → IsTracking a o es bs ss
      → IsTracking (activity_roll now a) (some now) es bs ss
  unfolding activity_roll
  activity_roll-IsTracking o now es bs ss a h k =
      simp k.minute (roll_from-IsTracking o now es bs ss a h k)
