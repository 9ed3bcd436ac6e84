-- ===== src/Validation.antt =====
-- The findings of validation.py in the graph, and `_merge_finding` and `_reconcile_category` over it. Each
-- Cypher query is the write that its text says. The client answers a query in one of three ways.

pub mod Detect
mod Run
mod Lifecycle
mod Consistent
mod Tests
use Prim.Native.String.{◌++◌}
use hass_ontology_fix.Common.{
  ℕ, suc, String, Bool, true, false, ◌&&◌, ◌||◌, not, is_some, Option, none, some, List, [], ◌∷◌,
  any, length, str_eq, eq_iff, ◌≡◌, ap, Bool-cases, inl, inr, arith, if◌then◌else◌,
}
use hass_ontology_fix.Common.Errors.{Exception, Result, ok, err, Action, ◌>>=◌, ◌>>◌, pure}

pub data Status : Type 0 where
  status_open status_resolved : Status

pub record Finding : Type 0 where
  pub category : String
  pub severity : String
  pub status : Status
  pub first_detected_at : String
  pub last_detected_at : String
  pub resolved_at : Option String
  pub updated_at : String

-- The finding nodes by their ha_id, the RELATES_TO edges by finding, label and id of the target, the nodes
-- by label and id, and how many queries have been sent.
pub record Graph : Type 0 where
  pub findings : String → Option Finding
  pub related : String → String → String → Bool
  pub nodes : String → String → Bool
  pub queries : ℕ

-- How the client answers: the query is run, it raises and nothing is written, or it raises although the
-- database has written, as after a timeout.
pub data Answer : Type 0 where
  done : Answer
  refused lost : Exception → Answer

-- `_finding_ha_id`
abbrev pub finding_ha_id : String → String → String
finding_ha_id category target_ha_id = category ++ ("::" ++ target_ha_id)

abbrev first_seen : Option Finding → String → String
first_seen none now = now
first_seen (some f) now = f.first_detected_at

abbrev merged : String → String → String → Option Finding → Finding
merged category severity now before = record {
  category = category;
  severity = severity;
  status = status_open;
  first_detected_at = first_seen before now;
  last_detected_at = now;
  resolved_at = none;
  updated_at = now;
}

-- The query of `_merge_finding`.
unfoldable pub merge_query : String → String → String → String → String → String → Graph → Graph
merge_query id category severity now label target g = record g {
  findings =
      λ k. if str_eq k id then some (merged category severity now (g.findings k)) else g.findings k;
  related = λ k l t.
      if str_eq k id && str_eq l label && str_eq t target && g.nodes label target
      then true
      else g.related k l t;
}

-- `f.resolved_at <> $now`, which is not true of a null.
abbrev is_before : Option String → String → Bool
is_before none now = false
is_before (some t) now = not (str_eq t now)

abbrev is_resolved : Status → Bool
is_resolved status_open = false
is_resolved status_resolved = true

abbrev is_deleted : String → List String → String → String → Finding → Bool
is_deleted category ids now k f =
    str_eq f.category category
    && is_resolved f.status
    && not (any (str_eq k) ids)
    && is_before f.resolved_at now

abbrev unless_deleted : String → List String → String → String → Option Finding → Option Finding
unless_deleted category ids now k none = none
unless_deleted category ids now k (some f) =
    if is_deleted category ids now k f then none else some f

-- `delete_query`: with a node its edges go.
unfoldable pub delete_query : String → List String → String → Graph → Graph
delete_query category ids now g = record g {
  findings = λ k. unless_deleted category ids now k (g.findings k);
  related = λ k l t. g.related k l t && is_some (unless_deleted category ids now k (g.findings k));
}

abbrev is_outdated : String → List String → String → Finding → Bool
is_outdated category ids k f =
    str_eq f.category category && not (is_resolved f.status) && not (any (str_eq k) ids)

abbrev resolve : String → List String → String → String → Option Finding → Option Finding
resolve category ids now k none = none
resolve category ids now k (some f) =
    if is_outdated category ids k f
    then some (record f { status = status_resolved; resolved_at = some now; updated_at = now })
    else some f

-- `resolve_query`
unfoldable pub resolve_query : String → List String → String → Graph → Graph
resolve_query category ids now g = record g {
  findings = λ k. resolve category ids now k (g.findings k);
}

abbrev answer_by : Answer → (Graph → Graph) → Action Graph (Unit {0})
answer_by done query g = (ok tt, query g)
answer_by (refused e) query g = (err e, g)
answer_by (lost e) query g = (err e, query g)

-- A Python set of ids.
abbrev pub add_once : String → List String → List String
add_once id ids = if any (str_eq id) ids then ids else id ∷ ids

pub any-add_once :
    (k id : String) (ids : List String)
    → any (str_eq k) (add_once id ids) ≡ (str_eq k id || any (str_eq k) ids)
any-add_once k id ids = elim (Bool-cases (str_eq k id)) [
  | inl e ↦ ground (arith, ap (λ (x : String). any (str_eq x) ids) ((eq_iff k id).0 e), e)
  | inr e ↦ ground (arith, e)
]

abbrev keep_merged : Result String → List String → List String
keep_merged (ok id) ids = add_once id ids
keep_merged (err e) ids = ids

-- How the client answers each query, and what the clock shows when so many queries have been sent.
module _ (answers : ℕ → Answer) (clock : ℕ → String) where
  unfoldable pub send_query : (Graph → Graph) → Action Graph (Unit {0})
  send_query query g = answer_by (answers g.queries) query (record g { queries = suc g.queries })

  unfoldable pub merge_finding : String → String → String → String → Action Graph String
  unfolding send_query merge_query
  merge_finding category target_ha_id target_label severity g =
      let id = finding_ha_id category target_ha_id in
      (send_query (merge_query id category severity (clock g.queries) target_label target_ha_id)
          >> pure id)
        g

  -- The loop over what was detected: a finding whose merge raises is skipped.
  unfoldable pub merge_each :
      String → String → List (String × String) → List String → Graph → List String × Graph
  unfolding merge_finding
  merge_each category severity [] ids g = (ids, g)
  merge_each category severity ((target_ha_id, target_label) ∷ detected) ids g =
      let (r, g') = merge_finding category target_ha_id target_label severity g in
      merge_each category severity detected (keep_merged r ids) g'

  -- The two queries after the loop.
  unfoldable pub retire : String → List String → Action Graph ℕ
  unfolding send_query delete_query resolve_query
  retire category ids g =
      let now = clock g.queries in
      (send_query (delete_query category ids now)
          >> send_query (resolve_query category ids now)
          >> pure (length ids))
        g

  unfoldable pub reconcile_category : String → List (String × String) → String → Action Graph ℕ
  unfolding merge_each retire
  reconcile_category category detected severity g =
      let (ids, g') = merge_each category severity detected [] g in retire category ids g'
