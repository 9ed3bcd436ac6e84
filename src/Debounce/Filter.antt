-- ===== src/Debounce/Filter.antt =====
-- The test at the head of `async_handle_state_changed`: the excluded ids and domains, and the changes
-- that matter.
use hass_ontology_fix.Common.{
  ℕ, String, Bool, true, false, ◌&&◌, ◌||◌, not, Option, none, some, List, [], ◌∷◌, filter, map,
  str_eq, ◌==◌, if◌then◌else◌,
}
use hass_ontology_fix.Common.Codes.{codes, is_space, domain_of, is_in}

-- The state of an entity: of its attributes the three that are compared.
pub record EntityState : Type 0 where
  pub state : String
  pub friendly_name : Option String
  pub device_class : Option String
  pub unit_of_measurement : Option String
  pub last_updated : ℕ

-- The data of a `state_changed` event.
pub record StateChange : Type 0 where
  pub entity_id : Option String
  pub old_state : Option EntityState
  pub new_state : Option EntityState

-- `EntitySyncContext`
pub record SyncContext : Type 0 where
  pub state : EntityState
  pub measurement_last_updated : ℕ

pub record Options : Type 0 where
  pub excluded_domains : String
  pub excluded_entities : String

-- `value.split(",")`
abbrev add_code : ℕ → List (List ℕ) → List (List ℕ)
add_code c [] = (c ∷ []) ∷ []
add_code c (item ∷ items) = (c ∷ item) ∷ items

abbrev split_commas : List ℕ → List (List ℕ)
split_commas [] = [] ∷ []
split_commas (c ∷ cs) = let rest = split_commas cs in if c == 44 then [] ∷ rest else add_code c rest

-- `item.strip()`: a trailing space goes if only spaces follow.
abbrev strip_left : List ℕ → List ℕ
strip_left [] = []
strip_left (c ∷ cs) = let rest = strip_left cs in if is_space c then rest else c ∷ cs

abbrev keep_right : ℕ → List ℕ → List ℕ
keep_right c [] = if is_space c then [] else c ∷ []
keep_right c (d ∷ ds) = c ∷ d ∷ ds

abbrev strip_right : List ℕ → List ℕ
strip_right [] = []
strip_right (c ∷ cs) = keep_right c (strip_right cs)

abbrev is_filled : List ℕ → Bool
is_filled [] = false
is_filled (_ ∷ _) = true

-- `_parse_csv`; the set is a list, of which only membership is asked.
unfoldable pub parse_csv : List ℕ → List (List ℕ)
parse_csv value =
    filter is_filled (map (λ item. strip_right (strip_left item)) (split_commas value))

unfoldable pub is_excluded : Options → String → Bool
unfolding parse_csv
is_excluded options entity_id =
    is_in (codes entity_id) (parse_csv (codes options.excluded_entities))
    || is_in (domain_of (codes entity_id)) (parse_csv (codes options.excluded_domains))

abbrev option_eq : Option String → Option String → Bool
option_eq none none = true
option_eq (some a) (some b) = str_eq a b
option_eq _ _ = false

-- The time of the measurement, if the change is one to keep.
unfoldable pub measurement_time : Option EntityState → EntityState → Option ℕ
measurement_time none new = some new.last_updated
measurement_time (some old) new =
    let others =
      option_eq old.device_class new.device_class
      && option_eq old.unit_of_measurement new.unit_of_measurement in
    if not (str_eq old.state new.state) || not others
    then some new.last_updated
    else if option_eq old.friendly_name new.friendly_name
    then none
    else some old.last_updated

abbrev with_context : String → EntityState → Option ℕ → Option (String × SyncContext)
with_context entity_id new none = none
with_context entity_id new (some time) =
    some (entity_id, record { state = new; measurement_last_updated = time })

abbrev known_change :
    Options
    → Option String
    → Option EntityState
    → Option EntityState
    → Option (String × SyncContext)
known_change options (some entity_id) old (some new) =
    if is_excluded options entity_id
    then none
    else with_context entity_id new (measurement_time old new)
known_change options _ old _ = none

unfoldable pub accepted_change : Options → StateChange → Option (String × SyncContext)
unfolding is_excluded measurement_time
accepted_change options change =
    known_change options change.entity_id change.old_state change.new_state
