-- ===== src/Debounce/Window.antt =====
-- The batch window: one timer exactly while something is pending, and the batch is made of the last
-- accepted change of each entity.
use hass_ontology_fix.Common.{
  ℕ, ◌+◌, ◌≡◌, refl, ap, ◌∙◌, String, Bool, true, false, Option, none, some, List, [], ◌∷◌, ◌++◌,
  str_eq, if◌then◌else◌, arith,
}
use hass_ontology_fix.Common.Dict.{Dict, insert, lookup, lookup-insert}
use hass_ontology_fix.Debounce.{
  Debouncer, arm_if_empty, cancel_timer, retain, async_handle_state_changed, fire, async_cancel_all,
  run_timer, on_state_changed, Step, changed, expired, cancelled, step, run,
}
use hass_ontology_fix.Debounce.Filter.{Options, SyncContext, accepted_change}

-- Nothing is pending and no timer is outstanding, or something is and one timer is, the debouncer's.
abbrev pub IsArmed : Dict SyncContext → Option ℕ → List ℕ → Type 0
IsArmed [] timer timers = (timer ≡ none) × (timers ≡ [])
IsArmed (_ ∷ _) timer timers = (h : ℕ) × (timer ≡ some h) × (timers ≡ h ∷ [])

-- The accepted change of a step.
abbrev pub accepted : Options → Step → Option (String × SyncContext)
accepted options (changed true change) = accepted_change options change
accepted options _ = none

-- The last change of an entity among the accepted ones since the window was last closed.
abbrev pub ends_window : Step → Bool
ends_window (changed _ _) = false
ends_window _ = true

abbrev pub newer : String → Option (String × SyncContext) → Option SyncContext → Option SyncContext
newer id none older = older
newer id (some (id', context)) older = if str_eq id' id then some context else older

abbrev pub latest : Options → String → List Step → Option SyncContext
latest options id [] = none
latest options id (st ∷ older) =
    if ends_window st then none else newer id (accepted options st) (latest options id older)

IsGood : Debouncer → Type 0
IsGood s = IsArmed s.pending s.timer s.timers

insert-IsArmed :
    (id : String) (context : SyncContext) (d : Dict SyncContext) (h : ℕ) (timer : Option ℕ)
    (timers : List ℕ)
    → timer ≡ some h
    → timers ≡ h ∷ []
    → IsArmed (insert id context d) timer timers
insert-IsArmed id context [] h timer timers a b = (h, a, b)
insert-IsArmed id context ((j, w) ∷ d) h timer timers a b = by_test (str_eq j id)
  where
    by_test :
        (t : Bool)
        → IsArmed (if t then (j, context) ∷ d else (j, w) ∷ insert id context d) timer timers
    by_test true = (h, a, b)
    by_test false = (h, a, b)

retain-IsGood : (o : Option (String × SyncContext)) (s : Debouncer) → IsGood s → IsGood (retain o s)
unfolding IsGood
retain-IsGood none s g = g
retain-IsGood (some (id, context)) s g = by_pending s.pending g
  where
    by_pending :
        (d : Dict SyncContext)
        → IsArmed d s.timer s.timers
        → let r =
            arm_if_empty d (record s { counted = s.counted + 1; pending = insert id context d }) in
          IsArmed r.pending r.timer r.timers
    by_pending [] (a, b) = (s.next_timer, refl, ap (λ t. t ++ s.next_timer ∷ []) b)
    by_pending (x ∷ d) (h, a, b) = insert-IsArmed id context (x ∷ d) h s.timer s.timers a b

single :
    (d : Dict SyncContext) (timer : Option ℕ) (h : ℕ) (rest : List ℕ)
    → IsArmed d timer (h ∷ rest)
    → rest ≡ []
single [] timer h rest (a, b) = cc
single (x ∷ d) timer h rest (k, a, b) = cc

all_cancelled :
    (d : Dict SyncContext) (timer : Option ℕ) (timers : List ℕ)
    → IsArmed d timer timers
    → cancel_timer timer timers ≡ []
all_cancelled [] timer timers (a, b) = rw (a, b) refl
all_cancelled (x ∷ d) timer timers (k, a, b) = rw (a, b) (ground arith)

run_timer-IsGood :
    (ts : List ℕ) (s : Debouncer)
    → IsArmed s.pending s.timer ts
    → IsGood s
    → IsGood (run_timer ts s)
unfolding IsGood fire
run_timer-IsGood [] s g' g = g
run_timer-IsGood (h ∷ rest) s g' g = (refl, single s.pending s.timer h rest g')

step-IsGood :
    (options : Options) (st : Step) (s : Debouncer) → IsGood s → IsGood (step options st s)
unfolding IsGood step on_state_changed async_handle_state_changed async_cancel_all
step-IsGood options (changed false change) s g = g
step-IsGood options (changed true change) s g = retain-IsGood (accepted_change options change) s g
step-IsGood options expired s g = run_timer-IsGood s.timers s g g
step-IsGood options cancelled s g = (refl, all_cancelled s.pending s.timer s.timers g)

run-IsGood : (options : Options) (steps : List Step) → IsGood (run options steps)
unfolding IsGood run
run-IsGood options [] = (refl, refl)
run-IsGood options (st ∷ older) =
    step-IsGood options st (run options older) (run-IsGood options older)

lookup-retain :
    (id : String) (o : Option (String × SyncContext)) (s : Debouncer)
    → lookup id (retain o s).pending ≡ newer id o (lookup id s.pending)
lookup-retain id none s = refl
lookup-retain id (some (id', context)) s =
    ap (lookup id) (kept s.pending) ∙ lookup-insert id' id context s.pending
  where
    kept :
        (d : Dict SyncContext)
        → (arm_if_empty d
            (record s { counted = s.counted + 1; pending = insert id' context s.pending })).pending
          ≡ insert id' context s.pending
    kept [] = refl
    kept (x ∷ d) = refl

lookup-run_timer :
    (id : String) (ts : List ℕ) (s : Debouncer)
    → IsArmed s.pending s.timer ts
    → lookup id (run_timer ts s).pending ≡ none
unfolding fire
lookup-run_timer id (h ∷ rest) s g = refl
lookup-run_timer id [] s g = by_pending s.pending g
  where
    by_pending : (d : Dict SyncContext) → IsArmed d s.timer [] → lookup id d ≡ none
    by_pending [] g' = refl
    by_pending (x ∷ d) (k, a, b) = cc

lookup-step :
    (options : Options) (id : String) (st : Step) (s : Debouncer)
    → IsGood s
    → lookup id (step options st s).pending
      ≡ (if ends_window st then none else newer id (accepted options st) (lookup id s.pending))
unfolding IsGood step on_state_changed async_handle_state_changed async_cancel_all
lookup-step options id (changed false change) s g = refl
lookup-step options id (changed true change) s g =
    lookup-retain id (accepted_change options change) s
lookup-step options id expired s g = lookup-run_timer id s.timers s g
lookup-step options id cancelled s g = refl

-- After any events, ends of a timer and cancellations: either nothing is pending and no timer is
-- outstanding in the event loop, or something is pending and exactly one timer is, which the debouncer
-- knows. And what is pending for an entity is its last accepted change since the last step that was
-- the end of a timer or a cancellation, and nothing if there was none.
pub window_exact :
    (options : Options) (steps : List Step) (id : String)
    → let s = run options steps in
      IsArmed s.pending s.timer s.timers × (lookup id s.pending ≡ latest options id steps)
unfolding IsGood run
window_exact options [] id = ((refl, refl), refl)
window_exact options (st ∷ older) id =
    let s = run options older in
    let (g, same) = window_exact options older id in
    (
      step-IsGood options st s g,
      lookup-step options id st s g
          ∙ ap (λ o. if ends_window st then none else newer id (accepted options st) o) same,
    )

abbrev pub with_batch : Dict SyncContext → List (Dict SyncContext) → List (Dict SyncContext)
with_batch [] batches = batches
with_batch (x ∷ d) batches = batches ++ (x ∷ d) ∷ []

run_timer-empties :
    (d : Dict SyncContext) (ts : List ℕ) (s : Debouncer)
    → s.pending ≡ d
    → s.timers ≡ ts
    → IsArmed d s.timer ts
    → let t = run_timer ts s in
      (t.pending ≡ []) × (t.timers ≡ []) × (t.batches ≡ with_batch d s.batches)
unfolding fire
run_timer-empties [] [] s p q g = (p, q, refl)
run_timer-empties [] (h ∷ rest) s p q (a, b) = cc
run_timer-empties (x ∷ d) [] s p q (k, a, b) = cc
run_timer-empties (x ∷ d) (h ∷ rest) s p q g =
    (refl, single (x ∷ d) s.timer h rest g, ap (λ e. s.batches ++ e ∷ []) p)

-- After any steps, when the event loop comes to run a timer: nothing is pending and no timer is
-- outstanding afterwards, and what was pending has been handed over as one batch, if it was not empty.
pub batch_exact :
    (options : Options) (steps : List Step)
    → let s = run options steps in
      let t = run options (expired ∷ steps) in
      (t.pending ≡ []) × (t.timers ≡ []) × (t.batches ≡ with_batch s.pending s.batches)
unfolding IsGood run step
batch_exact options steps =
    let s = run options steps in
    run_timer-empties s.pending s.timers s refl refl (run-IsGood options steps)
