-- ===== src/Serialize/Tests.antt =====
-- The scenarios of the coordinator's tests as runs, and the theorems at some of them.
use hass_ontology_fix.Common.{◌≡◌, refl, List, [], ◌∷◌, ◌++◌, length, ◌≤◌, true, false, arith}
use hass_ontology_fix.Serialize.{
  Task, Event, request, wake, finish, serialized, incremental, init, step, run,
}
use hass_ontology_fix.Serialize.Turns.{pending}
use hass_ontology_fix.Serialize.Exclusion.{run_exclusive, run_fifo, rounds, run_drains}
use hass_ontology_fix.Serialize.Pending.{
  serialized_task, flood, reject_justified, pending_unbounded,
}

abbrev update_task : Task
update_task = record { id = 9; kind = incremental }

-- One sync runs and one waits; an incremental update waits its turn.
abbrev busy : List Event
busy = request (serialized_task 0) ∷ request (serialized_task 1) ∷ request update_task ∷ []

third_rejected :
    (step (request (serialized_task 2)) (run busy init)).rejected ≡ serialized_task 2 ∷ []
unfolding step run
third_rejected = refl

-- An update queued between two syncs: when the first sync ends and the update runs, the flag of the
-- second sync is gone, and a third sync waits beside it.
two_pending :
    let s =
      run
        (request (serialized_task 0)
          ∷ request update_task
          ∷ request (serialized_task 1)
          ∷ finish
          ∷ wake
          ∷ request (serialized_task 2)
          ∷ [])
        init in
    (pending s.waiters ≡ 2) × (s.rejected ≡ []) × (s.locked ≡ true)
unfolding step run
two_pending = (refl, refl, refl)

run_exclusive_example : length (run busy init).holders ≤ 1
run_exclusive_example = run_exclusive busy

run_fifo_example : (run busy init).accepted ≡ (run busy init).started ++ (run busy init).waiters
run_fifo_example = run_fifo busy tt

run_drains_example :
    let s = run busy init in
    let t = run (rounds (length s.waiters)) s in
    (t.waiters ≡ []) × (t.locked ≡ false) × (t.holders ≡ []) × (t.started ≡ s.started ++ s.waiters)
run_drains_example = run_drains busy

reject_justified_example :
    let s = run busy init in
    (serialized ≡ serialized)
    × (length s.holders ≡ 1)
    × (1 ≤ pending s.waiters)
    × (step (request (serialized_task 2)) s
        ≡ record s { rejected = s.rejected ++ serialized_task 2 ∷ [] })
unfolding step run
reject_justified_example = reject_justified busy (serialized_task 2) (omega arith)

pending_unbounded_example :
    let s = run (flood 5) init in
    (s.locked ≡ true) × (pending s.waiters ≡ 5) × (s.waiting ≡ false) × (s.rejected ≡ [])
pending_unbounded_example = pending_unbounded 5
