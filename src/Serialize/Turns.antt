-- ===== src/Serialize/Turns.antt =====
-- What a state of the lock always satisfies, whatever the event loop does.
use hass_ontology_fix.Common.{
  ℕ, ◌+◌, ◌≤◌, ◌≡◌, refl, Bool, true, false, Option, none, some, List, [], ◌∷◌, ◌++◌, arith,
  if◌then◌else◌, length,
}
use hass_ontology_fix.Serialize.{
  Kind, Task, State, Event, request, wake, finish, cancel, serialized, incremental, init,
  is_serialized, find, without, step, run, call, enter_or_wait, finish_holder, wake_head,
  cancel_waiter, acquire, enter, run_serialized, accept,
}

-- How many calls of `_run_serialized` are in the queue.
abbrev pub pending : List Task → ℕ
pending [] = 0
pending (t ∷ ts) = (if is_serialized t then 1 else 0) + pending ts

-- The lock is held by exactly one task, or free with no task inside.
abbrev pub Held : Bool → List Task → Type 0
Held true hs = length hs ≡ 1
Held false hs = length hs ≡ 0

-- The flag is raised only while a serialized call is in the queue.
abbrev pub Flagged : Bool → List Task → Type 0
Flagged true ts = 1 ≤ pending ts
Flagged false ts = Unit

pub record IsSound (s : State) : Type 0 where
  pub held : Held s.locked s.holders
  pub flagged : Flagged s.waiting s.waiters

pub pending-append : (ts us : List Task) → pending (ts ++ us) ≡ pending ts + pending us
pending-append [] us = omega arith
pending-append (t ∷ ts) us = omega (arith, pending-append ts us)

pending-without :
    (i : ℕ) (ts : List Task) (t : Task)
    → find i ts ≡ some t
    → pending ts ≡ (if is_serialized t then 1 else 0) + pending (without i ts)
pending-without i [] t h = cc
pending-without i (u ∷ ts) t h = ground (arith, pending-without i ts t)

-- A call that finds the lock free takes it, or queues behind a woken waiter.
acquire_free-IsSound :
    (ts : List Task) (t : Task) (s : State)
    → s.locked ≡ false
    → s.waiters ≡ ts
    → IsSound s
    → IsSound (enter_or_wait false ts t (accept t s))
unfolding enter
acquire_free-IsSound [] t s eb ets h = ground arith
acquire_free-IsSound (u ∷ ts) t s eb ets h = ground (arith, pending-append s.waiters (t ∷ []))

Flagged-append : (w : Bool) (ts : List Task) (t : Task) → Flagged w ts → Flagged w (ts ++ t ∷ [])
Flagged-append true ts t h = omega (arith, pending-append ts (t ∷ []))
Flagged-append false ts t h = tt

acquire-IsSound :
    (b : Bool) (t : Task) (s : State)
    → s.locked ≡ b
    → IsSound s
    → IsSound (enter_or_wait b s.waiters t (accept t s))
acquire-IsSound true t s e h = record {
  held = h.held;
  flagged = Flagged-append s.waiting s.waiters t h.flagged;
}
acquire-IsSound false t s e h = acquire_free-IsSound s.waiters t s e refl h

wake-IsSound :
    (b : Bool) (ts : List Task) (s : State)
    → s.locked ≡ b
    → s.waiters ≡ ts
    → IsSound s
    → IsSound (wake_head b ts s)
unfolding enter
wake-IsSound true ts s eb ets h = h
wake-IsSound false [] s eb ets h = h
wake-IsSound false (u ∷ ts) s eb ets h = ground arith

finish-IsSound :
    (hs : List Task) (s : State) → s.holders ≡ hs → IsSound s → IsSound (finish_holder hs s)
finish-IsSound [] s e h = h
finish-IsSound (t ∷ hs) s e h = ground arith

cancel-IsSound :
    (i : ℕ) (o : Option Task) (s : State)
    → find i s.waiters ≡ o
    → IsSound s
    → IsSound (cancel_waiter i o s)
cancel-IsSound i none s e h = h
cancel-IsSound i (some t) s e h = ground (arith, pending-without i s.waiters t)

serialized-IsSound :
    (b w : Bool) (t : Task) (s : State)
    → t.kind ≡ serialized
    → s.locked ≡ b
    → s.waiting ≡ w
    → IsSound s
    → IsSound (run_serialized t s)
unfolding run_serialized acquire
serialized-IsSound true true t s k e ew h = ground arith
serialized-IsSound true false t s k e ew h = ground (arith, pending-append s.waiters (t ∷ []))
serialized-IsSound false w t s k e ew h = rw (e) (rw e at (acquire-IsSound s.locked t s refl h))

call-IsSound : (k : Kind) (t : Task) (s : State) → t.kind ≡ k → IsSound s → IsSound (call k t s)
unfolding call acquire
call-IsSound serialized t s e h = serialized-IsSound s.locked s.waiting t s e refl refl h
call-IsSound incremental t s e h = acquire-IsSound s.locked t s refl h

pub step-IsSound : (e : Event) (s : State) → IsSound s → IsSound (step e s)
unfolding step
step-IsSound (request t) s h = call-IsSound t.kind t s refl h
step-IsSound wake s h = wake-IsSound s.locked s.waiters s refl refl h
step-IsSound finish s h = finish-IsSound s.holders s refl h
step-IsSound (cancel i) s h = cancel-IsSound i (find i s.waiters) s refl h

pub run-IsSound : (es : List Event) (s : State) → IsSound s → IsSound (run es s)
unfolding run
run-IsSound [] s h = h
run-IsSound (e ∷ es) s h = run-IsSound es (step e s) (step-IsSound e s h)

pub init-IsSound : IsSound init
init-IsSound = record { held = refl; flagged = tt }
