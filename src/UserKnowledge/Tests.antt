-- ===== src/UserKnowledge/Tests.antt =====
-- A user's role for a plug that a reconciliation would infer otherwise.
use Prim.Native.Char.{code}
use hass_ontology_fix.Common.{
  ◌==◌, ◌≡◌, ap, String, Bool, false, none, some, List, [], ◌∷◌, str_eq, eq_iff, if◌then◌else◌,
  Bool-cases, inl, inr, arith,
}
use hass_ontology_fix.Classify.Home.{Home}
use hass_ontology_fix.Classify.EnergyRole.{storage}
use hass_ontology_fix.UserKnowledge.{
  Source, user, inferred, Graph, Candidate, async_reconcile_energy_roles,
}
use hass_ontology_fix.UserKnowledge.Protect.{reconcile_respects_user}

abbrev assignment_id : Source → String → String
assignment_id user e = String.◌∷◌ "u" e
assignment_id inferred e = String.◌∷◌ "i" e

abbrev first_is_u : String → Bool
first_is_u String.[] = false
first_is_u (String.◌∷◌ c s) = code c == 117

ids_apart : (e e' : String) → str_eq (assignment_id user e) (assignment_id inferred e') ≡ false
ids_apart e e' = elim (Bool-cases (str_eq (assignment_id user e) (assignment_id inferred e'))) [
  | inl h ↦ absurd (
      ground
        (arith, ap first_is_u ((eq_iff (assignment_id user e) (assignment_id inferred e')).0 h)))
  | inr h ↦ h
]

abbrev home : Home
home = record {
  entries = [];
  devices = [];
  area_names = [];
  states =
      (
        "sensor.plug",
        record { device_class = some "power"; friendly_name = some "Dryer consumption" },
      )
      ∷ [];
}

abbrev graph : Graph
graph = record {
  assignments = λ k.
      if str_eq k "usensor.plug"
      then some (record { measurement_entity_id = "sensor.plug"; role = storage; source = user })
      else none;
  entities = str_eq "sensor.plug";
  bindings = λ k e. false;
  sent = 0;
}

abbrev candidates : String → Graph → List Candidate
candidates identifier g = []

reconcile_respects_user_example :
    (async_reconcile_energy_roles assignment_id candidates
        (λ n. none)
        home
        ("sensor.plug" ∷ [])
        graph).1.assignments
      (assignment_id user "sensor.plug")
    ≡ graph.assignments (assignment_id user "sensor.plug")
reconcile_respects_user_example =
    reconcile_respects_user assignment_id candidates (λ n. none) home ("sensor.plug" ∷ []) graph
      "sensor.plug" ids_apart
