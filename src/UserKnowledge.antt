-- ===== src/UserKnowledge.antt =====
-- user_knowledge.py: the assignments of energy roles by their id, which of the entities are in the graph, the
-- generated bindings from an assignment to an entity, and how many queries have been sent.
mod Protect
mod Tests
use hass_ontology_fix.Common.{
  ℕ, suc, String, Bool, true, false, ◌&&◌, ◌||◌, Option, none, some, is_some, List, [], ◌∷◌, map,
  any, filter, str_eq, if◌then◌else◌,
}
use hass_ontology_fix.Common.Errors.{
  Exception, ErrorClass, Result, ok, err, Action, ◌>>=◌, ◌>>◌, pure, raise,
}
use hass_ontology_fix.Classify.Home.{Home}
use hass_ontology_fix.Classify.EnergyRole.{EnergyRole, infer_energy_role}

pub data Source : Type 0 where
  user inferred : Source

pub record Assignment : Type 0 where
  pub measurement_entity_id : String
  pub role : EnergyRole
  pub source : Source

pub record Graph : Type 0 where
  pub assignments : String → Option Assignment
  pub entities : String → Bool
  pub bindings : String → String → Bool
  pub sent : ℕ

-- A row of `_resolve_power_entity`.
pub record Candidate : Type 0 where
  pub entity_id : String
  pub measurement_kind : Option String

abbrev rejected : String → Exception
rejected message = record { class = ErrorClass.rejected; message = message }

abbrev is_power : Option String → Bool
is_power none = false
is_power (some kind) = str_eq kind "power"

abbrev or_rows : List Candidate → List Candidate → List Candidate
or_rows [] rows = rows
or_rows (row ∷ exact) rows = row ∷ exact

-- The choice among the rows of the query.
abbrev choose : List Candidate → Result String
choose [] = err (rejected "Power measurement entity not found")
choose (row ∷ []) =
    if is_power row.measurement_kind
    then ok row.entity_id
    else err (rejected "Entity is not a power measurement")
choose (row ∷ other ∷ rows) = err (rejected "Power measurement entity is ambiguous")

unfoldable pub choose_power_entity : String → List Candidate → Result String
choose_power_entity identifier rows =
    choose (or_rows (filter (λ row. str_eq row.entity_id identifier) rows) rows)

abbrev is_same : Source → Source → Bool
is_same user user = true
is_same inferred inferred = true
is_same _ _ = false

-- The query that writes an assignment: without the entity it matches nothing.
abbrev pub upsert_assignment : String → Assignment → Graph → Graph
upsert_assignment id a g =
    if g.entities a.measurement_entity_id
    then record g {
      assignments = λ k. if str_eq k id then some a else g.assignments k;
      bindings =
          λ k e. if str_eq k id && str_eq e a.measurement_entity_id then true else g.bindings k e;
    }
    else g

abbrev pub unless_from : Source → Option Assignment → Option Assignment
unless_from source none = none
unless_from source (some a) = if is_same a.source source then none else some a

-- The query that deletes an assignment of this source, and its bindings.
abbrev pub delete_from : String → Source → Graph → Graph
delete_from id source g = record g {
  assignments = λ k. if str_eq k id then unless_from source (g.assignments k) else g.assignments k;
  bindings = λ k e.
      if str_eq k id
      then is_some (unless_from source (g.assignments k)) && g.bindings k e
      else g.bindings k e;
}

abbrev is_bound : Option Assignment → String → (String → Bool) → Bool
is_bound none e entities = false
is_bound (some a) e entities = str_eq e a.measurement_entity_id && entities e

-- The query of `async_repair_energy_role_bindings`.
abbrev pub repair : Graph → Graph
repair g = record g { bindings = λ k e. is_bound (g.assignments k) e g.entities }

abbrev pub reply_by : {A : Type 0} → Option Exception → (Graph → A × Graph) → Action Graph A
reply_by none query g = let (a, g') = query g in (ok a, g')
reply_by (some e) query g = (err e, g)

-- What an effective role is: the user's, else the inferred one.
pub record Effective : Type 0 where
  pub deleted : Bool
  pub entity_id : String
  pub role : Option EnergyRole

abbrev role_in : Option Assignment → Option EnergyRole
role_in none = none
role_in (some a) = some a.role

abbrev is_from : Source → Option Assignment → Bool
is_from source none = false
is_from source (some a) = is_same a.source source

-- The ids, which are hashes of the source and the entity, what the query for the rows answers, and what
-- the client raises at each query.
module _ (assignment_id : Source → String → String) (candidates : String → Graph → List Candidate)
    (replies : ℕ → Option Exception) where
  unfoldable pub ask : {A : Type 0} → (Graph → A × Graph) → Action Graph A
  ask query g = reply_by (replies g.sent) query (record g { sent = suc g.sent })

  unfoldable pub resolve_power_entity : String → Action Graph String
  unfolding ask choose_power_entity
  resolve_power_entity identifier = do
    rows ← ask (λ g. (candidates identifier g, g))
    λ g. (choose_power_entity identifier rows, g)

  abbrev assignment_of : Bool → Assignment → Action Graph Assignment
  assignment_of true a = pure a
  assignment_of false a = raise (rejected "Power measurement entity no longer exists")

  -- The role is one of ENERGY_ROLES, or not.
  unfoldable pub async_set_energy_role : String → Option EnergyRole → Action Graph Assignment
  unfolding resolve_power_entity
  async_set_energy_role identifier none = raise (rejected "Invalid energy role")
  async_set_energy_role identifier (some role) = do
    entity_id ← resolve_power_entity identifier
    let a : Assignment = record { measurement_entity_id = entity_id; role = role; source = user }
    found ← ask (λ g. (g.entities entity_id, upsert_assignment (assignment_id user entity_id) a g))
    assignment_of found a

  unfoldable pub async_delete_user_energy_role : String → Action Graph Effective
  unfolding resolve_power_entity
  async_delete_user_energy_role identifier = do
    entity_id ← resolve_power_entity identifier
    ask (λ g.
        let here = is_from user (g.assignments (assignment_id user entity_id)) in
        (
          record {
            deleted = here;
            entity_id = entity_id;
            role =
                if here then role_in (g.assignments (assignment_id inferred entity_id)) else none;
          },
          delete_from (assignment_id user entity_id) user g,
        ))

  abbrev reconcile_role : String → Option EnergyRole → Action Graph Bool
  reconcile_role entity_id none =
      ask (λ g. (tt, delete_from (assignment_id inferred entity_id) inferred g)) >> pure false
  reconcile_role entity_id (some role) =
      let a : Assignment = record {
        measurement_entity_id = entity_id;
        role = role;
        source = inferred;
      } in
      ask (λ g. (tt, upsert_assignment (assignment_id inferred entity_id) a g)) >> pure true

  unfoldable pub async_reconcile_energy_role_for_entity : Home → String → Action Graph Bool
  unfolding ask
  async_reconcile_energy_role_for_entity home entity_id =
      reconcile_role entity_id (infer_energy_role home entity_id)

  unfoldable pub reconcile_ids : Home → List String → Action Graph ℕ
  unfolding async_reconcile_energy_role_for_entity
  reconcile_ids home [] = pure 0
  reconcile_ids home (entity_id ∷ ids) = do
    is_inferred ← async_reconcile_energy_role_for_entity home entity_id
    count ← reconcile_ids home ids
    pure (if is_inferred then suc count else count)

  unfoldable pub async_repair_energy_role_bindings : Action Graph (Unit {0})
  unfolding ask
  async_repair_energy_role_bindings = ask (λ g. (tt, repair g))

  -- The sorted ids of all states, or the one that is given.
  unfoldable pub async_reconcile_energy_roles : Home → List String → Action Graph ℕ
  unfolding reconcile_ids async_repair_energy_role_bindings
  async_reconcile_energy_roles home entity_ids = do
    inferred_count ← reconcile_ids home entity_ids
    async_repair_energy_role_bindings
    pure inferred_count
