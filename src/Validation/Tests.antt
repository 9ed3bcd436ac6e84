-- ===== src/Validation/Tests.antt =====
-- A graph with one finding of a category, runs over it, and the theorems there.
use hass_ontology_fix.Common.{
  ℕ, zero, suc, Bool-cases, inl, inr, ◌≡◌, refl, String, true, false, none, some, [], ◌∷◌, any,
  str_eq, if◌then◌else◌,
}
use hass_ontology_fix.Common.Errors.{ok, err, Exception, ErrorClass}
use hass_ontology_fix.Classify.Home.{Home}
use hass_ontology_fix.Validation.{
  Finding, Graph, Answer, status_open, merge_each, reconcile_category,
}
use hass_ontology_fix.Validation.Lifecycle.{
  stage, next_stage, is_lost, settled, reconcile_lifecycle,
}
use hass_ontology_fix.Validation.Consistent.{AreConsistent}
use hass_ontology_fix.Validation.Detect.{Reads, async_run_validation}
use hass_ontology_fix.Validation.Run.{run_validation-IsConsistent}

abbrev old_finding : Finding
old_finding = record {
  category = "orphan_device";
  severity = "warning";
  status = status_open;
  first_detected_at = "t0";
  last_detected_at = "t0";
  resolved_at = none;
  updated_at = "t0";
}

abbrev graph : Graph
graph = record {
  findings = λ k. if str_eq k "orphan_device::hub" then some old_finding else none;
  related = λ k l t. false;
  nodes = λ l t. true;
  queries = 0;
}

abbrev timeout : Exception
timeout = record { class = ErrorClass.timeout_error; message = "timeout" }

-- The first query is refused, all others are done.
abbrev first_refused : ℕ → Answer
first_refused zero = Answer.refused timeout
first_refused (suc n) = Answer.done

abbrev first_refused_heard : (n : ℕ) → is_lost (first_refused n) ≡ false
first_refused_heard zero = refl
first_refused_heard (suc n) = refl

abbrev clock : ℕ → String
clock n = "t1"

-- The device is still without entities, but the merge of its finding raises: the finding is resolved.
reconcile_lifecycle_example :
    let (r, after) =
      reconcile_category first_refused clock "orphan_device"
        (("hub", "Device") ∷ [])
        "warning"
        graph in
    let ids =
      (merge_each first_refused clock "orphan_device" "warning"
        (("hub", "Device") ∷ [])
        []
        graph).0 in
    stage (after.findings "orphan_device::hub")
    ≡ next_stage
        (any (str_eq "orphan_device::hub") ids)
        (stage (graph.findings "orphan_device::hub"))
unfolding merge_each reconcile_category
reconcile_lifecycle_example =
    reconcile_lifecycle first_refused clock "orphan_device" "warning" (("hub", "Device") ∷ []) graph
      "orphan_device::hub" first_refused_heard (refl, refl) refl

skipped_is_settled :
    let after =
      (reconcile_category first_refused clock "orphan_device"
        (("hub", "Device") ∷ [])
        "warning"
        graph).1 in
    stage (after.findings "orphan_device::hub") ≡ settled
unfolding reconcile_category
skipped_is_settled = refl

abbrev home : Home
home = record { entries = []; devices = []; area_names = []; states = [] }

abbrev no_names : Reads
no_names = record {
  ids = λ query g. ok ("hub" ∷ []);
  same_names = λ g. err timeout;
  get_schema_version = λ g. ok none;
  state_of = λ id. none;
}

graph-AreConsistent : AreConsistent graph
graph-AreConsistent k = elim (Bool-cases (str_eq k "orphan_device::hub")) [
  | inl e ↦ rw e refl
  | inr e ↦ rw e tt
]

run_validation-IsConsistent_example :
    AreConsistent (async_run_validation first_refused clock no_names home graph).1
run_validation-IsConsistent_example =
    run_validation-IsConsistent first_refused clock no_names home graph graph-AreConsistent
