-- ===== src/Serialize.antt =====
-- How operations take turns: `_run_serialized` and `_run_incremental` of
-- custom_components/ontology/coordinator.py over one `asyncio.Lock` and the flag `_waiting`.
-- A step is what a task does between two points where it may be suspended, so a run is a list of
-- events in any order that the event loop may choose. The lock is the standard library's: a
-- release wakes the head of the queue, which takes the lock only when its task is run again.
pub mod Turns
pub mod Exclusion
pub mod Pending
mod Tests
use hass_ontology_fix.Common.{
  ℕ, Bool, true, false, Option, none, some, List, [], ◌∷◌, ◌++◌, ◌==◌, if◌then◌else◌, filter,
}

-- `serialized` is a call of `_run_serialized`, `incremental` one of `_run_incremental`.
pub data Kind : Type 0 where
  serialized incremental : Kind

pub record Task : Type 0 where
  pub id : ℕ
  pub kind : Kind

pub record State : Type 0 where
  pub locked : Bool
  pub waiters : List Task
  pub waiting : Bool
  -- the tasks whose operation has begun and has not ended
  pub holders : List Task
  -- the tasks that asked and were not rejected, and those that began, both in order
  pub accepted : List Task
  pub started : List Task
  pub rejected : List Task

abbrev pub init : State
init = record {
  locked = false;
  waiters = [];
  waiting = false;
  holders = [];
  accepted = [];
  started = [];
  rejected = [];
}

pub data Event : Type 0 where
  -- a task makes the call and runs up to its first suspension
  request : Task → Event
  -- the woken head of the queue is run
  wake : Event
  -- the operation that holds the lock returns or raises
  finish : Event
  -- the waiter with this number is cancelled
  cancel : ℕ → Event

abbrev pub is_serialized : Task → Bool
is_serialized t = elim t.kind [ serialized ↦ true | incremental ↦ false ]

-- The body of `async with self._lock` begins: `_run_serialized` first drops the flag.
pub enter : Task → State → State
enter t s = record s {
  locked = true;
  waiting = if is_serialized t then false else s.waiting;
  holders = t ∷ s.holders;
  started = s.started ++ t ∷ [];
}

abbrev pub accept : Task → State → State
accept t s = record s { accepted = s.accepted ++ t ∷ [] }

-- `asyncio.Lock.acquire` up to its suspension: it is taken at once only if it is free and nobody
-- waits.
abbrev enter_or_wait : Bool → List Task → Task → State → State
enter_or_wait false [] t s = enter t s
enter_or_wait _ _ t s = record s { waiters = s.waiters ++ t ∷ [] }

pub acquire : Task → State → State
unfolding enter
acquire t s = enter_or_wait s.locked s.waiters t (accept t s)

-- `_run_serialized` up to the lock: the test and the set of `_waiting`.
pub run_serialized : Task → State → State
unfolding acquire
run_serialized t s =
    if s.locked
    then (if s.waiting
        then record s { rejected = s.rejected ++ t ∷ [] }
        else acquire t (record s { waiting = true }))
    else acquire t s

pub run_incremental : Task → State → State
unfolding acquire
run_incremental t s = acquire t s

-- The `finally` of `_run_serialized`.
abbrev leave : Task → State → State
leave t s = record s { waiting = if is_serialized t then false else s.waiting }

abbrev finish_holder : List Task → State → State
finish_holder [] s = s
finish_holder (t ∷ rest) s = leave t (record s { locked = false; holders = rest })

abbrev wake_head : Bool → List Task → State → State
wake_head false (t ∷ rest) s = enter t (record s { waiters = rest })
wake_head _ _ s = s

abbrev without : ℕ → List Task → List Task
without i [] = []
without i (t ∷ ts) = if t.id == i then ts else t ∷ without i ts

abbrev find : ℕ → List Task → Option Task
find i [] = none
find i (t ∷ ts) = if t.id == i then some t else find i ts

-- A cancelled waiter leaves the queue by an exception, through the same `finally`.
abbrev cancel_waiter : ℕ → Option Task → State → State
cancel_waiter i none s = s
cancel_waiter i (some t) s = leave t (record s { waiters = without i s.waiters })

unfoldable pub call : Kind → Task → State → State
unfolding run_serialized run_incremental
call serialized t s = run_serialized t s
call incremental t s = run_incremental t s

unfoldable pub step : Event → State → State
unfolding call enter
step (request t) s = call t.kind t s
step wake s = wake_head s.locked s.waiters s
step finish s = finish_holder s.holders s
step (cancel i) s = cancel_waiter i (find i s.waiters) s

unfoldable pub run : List Event → State → State
unfolding step
run [] s = s
run (e ∷ es) s = run es (step e s)
