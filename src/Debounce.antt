-- ===== src/Debounce.antt =====
-- The listeners of custom_components/ontology/event_listener.py: which state changes count, and the
-- batch window of `StateChangeDebouncer`.
pub mod Filter
pub mod Window
mod Tests
use hass_ontology_fix.Common.{
  ℕ, suc, ◌+◌, String, Bool, true, false, not, Option, none, some, List, [], ◌∷◌, ◌++◌, ◌==◌,
  filter, if◌then◌else◌,
}
use hass_ontology_fix.Common.Dict.{Dict, insert}
use hass_ontology_fix.Coordinator.State.{UpdateKind}
use hass_ontology_fix.Debounce.Filter.{Options, StateChange, SyncContext, accepted_change}

-- The debouncer, the timers that the event loop has outstanding (with the number of the next one), and
-- what was passed to the coordinator: the events counted and the batches handed over.
pub record Debouncer : Type 0 where
  pub timer : Option ℕ
  pub pending : Dict SyncContext
  pub timers : List ℕ
  pub next_timer : ℕ
  pub counted : ℕ
  pub batches : List (Dict SyncContext)

abbrev pub init : Debouncer
init = record { timer = none; pending = []; timers = []; next_timer = 0; counted = 0; batches = [] }

-- `self._timer = loop.call_later(...)`
abbrev arm : Debouncer → Debouncer
arm s = record s {
  timer = some s.next_timer;
  timers = s.timers ++ s.next_timer ∷ [];
  next_timer = s.next_timer + 1;
}

-- `if was_empty:`, on what was pending before
abbrev arm_if_empty : Dict SyncContext → Debouncer → Debouncer
arm_if_empty [] s = arm s
arm_if_empty (_ ∷ _) s = s

abbrev retain : Option (String × SyncContext) → Debouncer → Debouncer
retain none s = s
retain (some (entity_id, context)) s =
    arm_if_empty s.pending
      (record s { counted = s.counted + 1; pending = insert entity_id context s.pending })

unfoldable pub async_handle_state_changed : Options → StateChange → Debouncer → Debouncer
unfolding accepted_change
async_handle_state_changed options change s = retain (accepted_change options change) s

unfoldable pub fire : Debouncer → Debouncer
fire s = record s { timer = none; pending = []; batches = s.batches ++ s.pending ∷ [] }

-- `timer.cancel()`
abbrev cancel_timer : Option ℕ → List ℕ → List ℕ
cancel_timer none timers = timers
cancel_timer (some h) timers = filter (λ t. not (t == h)) timers

unfoldable pub async_cancel_all : Debouncer → Debouncer
async_cancel_all s = record s { timer = none; pending = []; timers = cancel_timer s.timer s.timers }

-- The event loop runs a timer whose time has come.
abbrev run_timer : List ℕ → Debouncer → Debouncer
run_timer [] s = s
run_timer (h ∷ rest) s = fire (record s { timers = rest })

-- The listener for state changes does nothing before Home Assistant runs.
unfoldable pub on_state_changed : Options → Bool → StateChange → Debouncer → Debouncer
unfolding async_handle_state_changed
on_state_changed options running change s =
    if running then async_handle_state_changed options change s else s

-- The three registry listeners: the task that each creates.
unfoldable pub on_registry_updated :
    Bool → UpdateKind → Option String → Option (UpdateKind × String)
on_registry_updated true kind (some (String.◌∷◌ c id)) = some (kind, String.◌∷◌ c id)
on_registry_updated _ kind _ = none

pub data Step : Type 0 where
  changed : Bool → StateChange → Step
  expired cancelled : Step

unfoldable pub step : Options → Step → Debouncer → Debouncer
unfolding on_state_changed fire async_cancel_all
step options (changed running change) s = on_state_changed options running change s
step options expired s = run_timer s.timers s
step options cancelled s = async_cancel_all s

-- The steps of a run, the newest first.
unfoldable pub run : Options → List Step → Debouncer
unfolding step
run options [] = init
run options (st ∷ older) = step options st (run options older)
