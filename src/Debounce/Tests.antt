-- ===== src/Debounce/Tests.antt =====
-- Runs of the debouncer, and the theorems at some of them.
use hass_ontology_fix.Common.{ℕ, ◌≡◌, refl, String, true, Option, none, some, List, [], ◌∷◌, length}
use hass_ontology_fix.Common.Codes.{codes}
use hass_ontology_fix.Common.Dict.{lookup}
use hass_ontology_fix.Debounce.{Step, changed, expired, run}
use hass_ontology_fix.Debounce.Filter.{EntityState, Options, parse_csv, accepted_change}
use hass_ontology_fix.Debounce.Window.{IsArmed, latest, with_batch, window_exact, batch_exact}

abbrev options : Options
options = record { excluded_domains = "sun, , update"; excluded_entities = "light.x" }

abbrev shown : String → String → ℕ → EntityState
shown state name time = record {
  state = state;
  friendly_name = some name;
  device_class = none;
  unit_of_measurement = none;
  last_updated = time;
}

abbrev change : String → Option EntityState → EntityState → Step
change id old new =
    changed true (record { entity_id = some id; old_state = old; new_state = some new })

parses : parse_csv (codes " a ,, b c") ≡ codes "a" ∷ codes "b c" ∷ []
unfolding parse_csv
parses = refl

-- The newest first: a lamp is renamed after it was turned on; the sun and an unchanged lamp are left out.
abbrev steps : List Step
steps =
    change "light.b" (some (shown "on" "B" 5)) (shown "on" "B" 6)
    ∷ change "light.a" (some (shown "on" "A" 2)) (shown "on" "Lamp" 4)
    ∷ change "sun.sun" none (shown "up" "Sun" 3)
    ∷ change "light.a" (some (shown "off" "A" 1)) (shown "on" "A" 2)
    ∷ []

runs :
    ((run options steps).pending
      ≡ ("light.a", record { state = shown "on" "Lamp" 4; measurement_last_updated = 2 }) ∷ [])
    × ((run options steps).counted ≡ 2)
    × (length (run options (expired ∷ steps)).batches ≡ 1)
unfolding run accepted_change
runs = (refl, refl, refl)

window_exact_example :
    let s = run options steps in
    IsArmed s.pending s.timer s.timers
    × (lookup "light.a" s.pending ≡ latest options "light.a" steps)
window_exact_example = window_exact options steps "light.a"

batch_exact_example :
    let s = run options steps in
    let t = run options (expired ∷ steps) in
    (t.pending ≡ []) × (t.timers ≡ []) × (t.batches ≡ with_batch s.pending s.batches)
batch_exact_example = batch_exact options steps
