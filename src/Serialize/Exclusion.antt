-- ===== src/Serialize/Exclusion.antt =====
-- Mutual exclusion, the order of turns, and that every accepted operation gets its turn.
use hass_ontology_fix.Common.{
  ℕ, zero, suc, ◌≤◌, ◌≡◌, refl, Bool, true, false, List, [], ◌∷◌, ◌++◌, arith, length, ap, sym, ◌∙◌,
}
use mathlib.Core.List.{append-nil, append_assoc}
use hass_ontology_fix.Serialize.{
  Kind, Task, State, Event, request, wake, finish, cancel, serialized, incremental, init, step, run,
  call, enter_or_wait, finish_holder, wake_head, acquire, enter, run_serialized, accept,
}
use hass_ontology_fix.Serialize.Turns.{Held, IsSound, step-IsSound, run-IsSound, init-IsSound}

Held-le-one : (b : Bool) (hs : List Task) → Held b hs → length hs ≤ 1
Held-le-one true hs h = omega arith
Held-le-one false hs h = omega arith

-- Whatever calls arrive, in whatever order they, wake-ups, ends and cancellations come, at most one
-- operation is inside the lock.
pub run_exclusive : (es : List Event) → length (run es init).holders ≤ 1
run_exclusive es =
    let s : State = run es init in
    Held-le-one s.locked s.holders (run-IsSound es init init-IsSound).held

-- No task is cancelled while it waits.
abbrev pub IsPatient : List Event → Type 0
IsPatient [] = Unit
IsPatient (cancel i ∷ es) = ⊥
IsPatient (_ ∷ es) = IsPatient es

-- The accepted tasks are those that began, then those in the queue.
abbrev IsOrdered : State → Type 0
IsOrdered s = s.accepted ≡ s.started ++ s.waiters

enter_or_wait-IsOrdered :
    (b : Bool) (ts : List Task) (t : Task) (s : State)
    → s.waiters ≡ ts
    → IsOrdered s
    → IsOrdered (enter_or_wait b ts t (accept t s))
unfolding enter
enter_or_wait-IsOrdered true ts t s e h = simp (h, append_assoc)
enter_or_wait-IsOrdered false [] t s e h = simp (h, e, append-nil)
enter_or_wait-IsOrdered false (u ∷ ts) t s e h = simp (h, append_assoc)

wake-IsOrdered :
    (b : Bool) (ts : List Task) (s : State)
    → s.waiters ≡ ts
    → IsOrdered s
    → IsOrdered (wake_head b ts s)
unfolding enter
wake-IsOrdered true ts s e h = h
wake-IsOrdered false [] s e h = h
wake-IsOrdered false (u ∷ ts) s e h = simp (h, e, append_assoc)

serialized-IsOrdered :
    (b w : Bool) (t : Task) (s : State)
    → s.locked ≡ b
    → s.waiting ≡ w
    → IsOrdered s
    → IsOrdered (run_serialized t s)
unfolding run_serialized acquire
serialized-IsOrdered true true t s e ew h = rw (e, ew) h
serialized-IsOrdered true false t s e ew h = rw (e, ew) (simp (h, append_assoc))
serialized-IsOrdered false w t s e ew h =
    rw e (rw e at (enter_or_wait-IsOrdered s.locked s.waiters t s refl h))

call-IsOrdered : (k : Kind) (t : Task) (s : State) → IsOrdered s → IsOrdered (call k t s)
unfolding call acquire
call-IsOrdered serialized t s h = serialized-IsOrdered s.locked s.waiting t s refl refl h
call-IsOrdered incremental t s h = enter_or_wait-IsOrdered s.locked s.waiters t s refl h

finish-IsOrdered : (hs : List Task) (s : State) → IsOrdered s → IsOrdered (finish_holder hs s)
finish-IsOrdered [] s h = h
finish-IsOrdered (t ∷ hs) s h = h

run-IsOrdered : (es : List Event) (s : State) → IsPatient es → IsOrdered s → IsOrdered (run es s)
unfolding run step
run-IsOrdered [] s p h = h
run-IsOrdered (request t ∷ es) s p h =
    run-IsOrdered es (step (request t) s) p (call-IsOrdered t.kind t s h)
run-IsOrdered (wake ∷ es) s p h =
    run-IsOrdered es (step wake s) p (wake-IsOrdered s.locked s.waiters s refl h)
run-IsOrdered (finish ∷ es) s p h =
    run-IsOrdered es (step finish s) p (finish-IsOrdered s.holders s h)
run-IsOrdered (cancel i ∷ es) s p h = absurd p

-- In a run in which no waiting task is cancelled, the operations begin exactly in the order in which
-- their calls were accepted: those that began, followed by the queue, are the accepted calls.
pub run_fifo :
    (es : List Event)
    → IsPatient es
    → (run es init).accepted ≡ (run es init).started ++ (run es init).waiters
run_fifo es p = run-IsOrdered es init p refl

-- The event loop ends the operation that runs and wakes the next, `n` times, and ends the last.
abbrev pub rounds : ℕ → List Event
rounds zero = finish ∷ []
rounds (suc n) = finish ∷ wake ∷ rounds n

finish_frees :
    (hs : List Task) (s : State)
    → s.holders ≡ hs
    → Held s.locked s.holders
    → let t = finish_holder hs s in
      (t.locked ≡ false) × (t.holders ≡ []) × (t.waiters ≡ s.waiters) × (t.started ≡ s.started)
finish_frees [] s e h = ground arith
finish_frees (t ∷ []) s e h = ground arith
finish_frees (t ∷ u ∷ hs) s e h = ground arith

wake_enters :
    (u : Task) (ts : List Task) (b : Bool) (ws : List Task) (s : State)
    → b ≡ false
    → ws ≡ u ∷ ts
    → let t = wake_head b ws s in (t.waiters ≡ ts) × (t.started ≡ s.started ++ u ∷ [])
unfolding enter
wake_enters u ts b ws s e f = rw (e, f) (refl, refl)

round_starts :
    (u : Task) (ts : List Task) (s : State)
    → IsSound s
    → s.waiters ≡ u ∷ ts
    → let t = step wake (step finish s) in (t.waiters ≡ ts) × (t.started ≡ s.started ++ u ∷ [])
unfolding step
round_starts u ts s h e =
    let f = finish_frees s.holders s refl h.held in
    let t : State = finish_holder s.holders s in
    let w = wake_enters u ts t.locked t.waiters t f.0 (f.2 ∙ e) in
    (w.0, w.1 ∙ ap (λ xs. xs ++ u ∷ []) f.3)

rounds_drain :
    (ts : List Task) (s : State)
    → IsSound s
    → s.waiters ≡ ts
    → let t = run (rounds (length ts)) s in
      (t.waiters ≡ []) × (t.locked ≡ false) × (t.holders ≡ []) × (t.started ≡ s.started ++ ts)
unfolding run
rounds_drain [] s h e =
    unfold step in
    let f = finish_frees s.holders s refl h.held in
    (f.2 ∙ e, f.0, f.1, f.3 ∙ sym (append-nil s.started))
rounds_drain (u ∷ ts) s h e =
    let t : State = step wake (step finish s) in
    let r = round_starts u ts s h e in
    let d = rounds_drain ts t (step-IsSound wake (step finish s) (step-IsSound finish s h)) r.0 in
    (d.0, d.1, d.2, d.3 ∙ ap (λ xs. xs ++ ts) r.1 ∙ append_assoc s.started (u ∷ []) ts)

-- From every state that can be reached, if no new call comes and the operations inside return, then
-- after as many rounds as there are waiters every one of them has begun, in the order of the queue,
-- and the lock is free with nobody inside and nobody waiting.
pub run_drains :
    (es : List Event)
    → let s = run es init in
      let t = run (rounds (length s.waiters)) s in
      (t.waiters ≡ [])
      × (t.locked ≡ false)
      × (t.holders ≡ [])
      × (t.started ≡ s.started ++ s.waiters)
run_drains es =
    let s : State = run es init in rounds_drain s.waiters s (run-IsSound es init init-IsSound) refl
