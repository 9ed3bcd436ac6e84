-- ===== src/Serialize/Pending.antt =====
-- The pending slot of `_run_serialized`: a rejection is always justified, but the slot is not one
-- deep, since `finally: self._waiting = False` of a call that ends also drops the flag that another
-- waiting call raised.
use hass_ontology_fix.Common.{
  ℕ, zero, suc, ◌+◌, ◌≤◌, ◌<◌, ◌≡◌, refl, Bool, true, false, List, [], ◌∷◌, ◌++◌, arith, length, ap,
}
use hass_ontology_fix.Serialize.{
  Kind, Task, State, Event, request, wake, finish, serialized, incremental, init, step, run, call,
  enter_or_wait, acquire, enter, run_serialized, accept,
}
use hass_ontology_fix.Serialize.Turns.{pending, pending-append, IsSound, run-IsSound, init-IsSound}

rejected-acquire :
    (b : Bool) (ts : List Task) (t : Task) (s : State)
    → (enter_or_wait b ts t s).rejected ≡ s.rejected
unfolding enter
rejected-acquire true ts t s = refl
rejected-acquire false [] t s = refl
rejected-acquire false (u ∷ ts) t s = refl

call_rejects :
    (k : Kind) (b w : Bool) (t : Task) (s : State)
    → s.locked ≡ b
    → s.waiting ≡ w
    → IsSound s
    → length s.rejected < length (call k t s).rejected
    → (k ≡ serialized)
      × (length s.holders ≡ 1)
      × (1 ≤ pending s.waiters)
      × (call k t s ≡ record s { rejected = s.rejected ++ t ∷ [] })
unfolding call acquire run_serialized
call_rejects incremental b w t s e f h r =
    absurd (omega (arith, ap length (rejected-acquire s.locked s.waiters t (accept t s))))
call_rejects serialized true true t s e f h r = ground arith
call_rejects serialized true false t s e f h r = ground arith
call_rejects serialized false w t s e f h r =
    ground (arith, ap length (rejected-acquire s.locked s.waiters t (accept t s)))

-- In every reachable state, a call that is rejected is a call of `_run_serialized`, made while one
-- operation is inside the lock and another serialized one waits; nothing but the list of rejected
-- calls changes.
pub reject_justified :
    (es : List Event) (t : Task)
    → length (run es init).rejected < length (step (request t) (run es init)).rejected
    → let s = run es init in
      (t.kind ≡ serialized)
      × (length s.holders ≡ 1)
      × (1 ≤ pending s.waiters)
      × (step (request t) s ≡ record s { rejected = s.rejected ++ t ∷ [] })
unfolding step
reject_justified es t r =
    let s : State = run es init in
    call_rejects t.kind s.locked s.waiting t s refl refl (run-IsSound es init init-IsSound) r

abbrev pub serialized_task : ℕ → Task
serialized_task n = record { id = n; kind = serialized }

abbrev pub burst : ℕ → List Event
burst zero = wake ∷ []
burst (suc n) = request (serialized_task n) ∷ burst n

-- Two calls, the first of which ends; `n` more come before the loop runs the woken second call.
abbrev pub flood : ℕ → List Event
flood n = request (serialized_task 0) ∷ request (serialized_task 1) ∷ finish ∷ burst n

-- The lock is free and its woken queue begins with a serialized call.
abbrev woken : List Task → List Task → List Task → State
woken ts accepted started = record {
  locked = false;
  waiters = serialized_task 1 ∷ ts;
  waiting = false;
  holders = [];
  accepted = accepted;
  started = started;
  rejected = [];
}

burst_queues :
    (n : ℕ) (ts accepted started : List Task)
    → let s = run (burst n) (woken ts accepted started) in
      (s.locked ≡ true)
      × (pending s.waiters ≡ n + pending ts)
      × (s.waiting ≡ false)
      × (s.rejected ≡ [])
unfolding run
burst_queues zero ts acc st = (refl, omega arith, refl, refl)
burst_queues (suc n) ts acc st =
    let t : Task = serialized_task n in
    let ih = burst_queues n (ts ++ t ∷ []) (acc ++ t ∷ []) st in
    (ih.0, omega (arith, ih.1, pending-append ts (t ∷ [])), ih.2, ih.3)

-- The pending slot has no bound: for every `n` there is a run in which one operation is inside the
-- lock, `n` calls of `_run_serialized` wait behind it, none was rejected, and the flag is down, so
-- that the next call would wait too.
pub pending_unbounded :
    (n : ℕ)
    → let s = run (flood n) init in
      (s.locked ≡ true) × (pending s.waiters ≡ n) × (s.waiting ≡ false) × (s.rejected ≡ [])
unfolding run
pending_unbounded n =
    let first : Task = serialized_task 0 in
    let h = burst_queues n [] (first ∷ serialized_task 1 ∷ []) (first ∷ []) in
    (h.0, omega (arith, h.1), h.2, h.3)
