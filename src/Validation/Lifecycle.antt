-- ===== src/Validation/Lifecycle.antt =====
-- The life of a finding over the runs: opened while it is detected, then resolved, and removed by the
-- run after.
use hass_ontology_fix.Common.{
  ℕ, suc, ◌≡◌, refl, sym, ap, ◌∙◌, String, Bool, true, false, Option, none, some, List, [], ◌∷◌,
  any, length, str_eq, Bool-cases, inl, inr, arith,
}
use hass_ontology_fix.Common.Errors.{
  Result, ok, err, Action, continue, continue-ok, is_ok, ◌>>◌, pure,
}
use hass_ontology_fix.Validation.{
  Finding, Status, status_open, status_resolved, Graph, Answer, is_resolved, is_before,
  finding_ha_id, merge_query, delete_query, resolve_query, unless_deleted, resolve, answer_by,
  any-add_once, keep_merged, send_query, merge_finding, merge_each, retire, reconcile_category,
}

pub data Stage : Type 0 where
  absent opened settled : Stage

abbrev stage_by : Status → Stage
stage_by status_open = opened
stage_by status_resolved = settled

abbrev pub stage : Option Finding → Stage
stage none = absent
stage (some f) = stage_by f.status

-- The next stage, of a finding that the run has merged and of one that it has not.
abbrev pub next_stage : Bool → Stage → Stage
next_stage true s = opened
next_stage false absent = absent
next_stage false opened = settled
next_stage false settled = absent

abbrev pub is_lost : Answer → Bool
is_lost (Answer.lost e) = true
is_lost _ = false

-- A finding of the category that was not resolved at this time.
abbrev pub IsEarlier : String → String → Option Finding → Type 0
IsEarlier category now none = Unit
IsEarlier category now (some f) =
    (str_eq f.category category ≡ true) × (is_resolved f.status ≡ is_before f.resolved_at now)

abbrev finding : String → String → Status → String → String → Option String → String → Finding
finding category severity status first last resolved_at updated = record {
  category = category;
  severity = severity;
  status = status;
  first_detected_at = first;
  last_detected_at = last;
  resolved_at = resolved_at;
  updated_at = updated;
}

settle_by :
    (category c severity first last updated : String) (ids : List String) (now k : String)
    (t : Option String) (s : Status)
    → let f = finding c severity s first last t updated in
      IsEarlier category now (some f)
      → any (str_eq k) ids ≡ false
      → stage (resolve category ids now k (unless_deleted category ids now k (some f)))
        ≡ next_stage false (stage (some f))
settle_by category c severity first last updated ids now k t status_open (e, b) n =
    rw (e, n) (rw e refl)
settle_by category c severity first last updated ids now k t status_resolved (e, b) n =
    rw (sym b) (rw (e, n) refl)

settle :
    (category : String) (ids : List String) (now k : String) (before : Option Finding)
    → IsEarlier category now before
    → any (str_eq k) ids ≡ false
    → stage (resolve category ids now k (unless_deleted category ids now k before))
      ≡ next_stage false (stage before)
settle category ids now k none h n = refl
settle category ids now k (some f) h n =
    settle_by category f.category f.severity f.first_detected_at f.last_detected_at f.updated_at ids
      now k f.resolved_at f.status h n

untouched :
    (category : String) (ids : List String) (now k : String) (before : Option Finding)
    → any (str_eq k) ids ≡ true
    → resolve category ids now k (unless_deleted category ids now k before) ≡ before
untouched category ids now k none n = refl
untouched category ids now k (some f) n = ground (arith, n)

-- One step of the loop, by the client's answer to it.
abbrev merged_by : Answer → String → (Graph → Graph) → Graph → Result String × Graph
merged_by a id query g = let (r, g') = answer_by a query g in continue r (λ _. pure id) g'

module _ (id category severity now label target : String) (k : String) where
  abbrev query : Graph → Graph
  query = merge_query id category severity now label target

  merged-outside :
      (a : Answer) (ids : List String) (g : Graph)
      → is_lost a ≡ false
      → any (str_eq k) (keep_merged (merged_by a id query g).0 ids) ≡ false
      → (merged_by a id query g).1.findings k ≡ g.findings k
  unfolding merge_query
  merged-outside Answer.done ids g l n = ground (arith, any-add_once k id ids, n)
  merged-outside (Answer.refused e) ids g l n = refl
  merged-outside (Answer.lost e) ids g l n = absurd (ground (arith, l))

  merged-inside :
      (a : Answer) (ids : List String) (g : Graph)
      → is_lost a ≡ false
      → (any (str_eq k) ids ≡ true → stage (g.findings k) ≡ opened)
      → any (str_eq k) (keep_merged (merged_by a id query g).0 ids) ≡ true
      → stage ((merged_by a id query g).1.findings k) ≡ opened
  unfolding merge_query
  merged-inside Answer.done ids g l h n = elim (Bool-cases (str_eq k id)) [
    | inl e ↦ rw e refl
    | inr e ↦ rw e (h (ground (arith, any-add_once k id ids, n, e)))
  ]
  merged-inside (Answer.refused e) ids g l h n = h n
  merged-inside (Answer.lost e) ids g l h n = absurd (ground (arith, l))

  merged_mono :
      (r : Result String) (ids : List String)
      → any (str_eq k) ids ≡ true
      → any (str_eq k) (keep_merged r ids) ≡ true
  merged_mono (ok i) ids n = ground (arith, any-add_once k i ids, n)
  merged_mono (err e) ids n = n

module _ (answers : ℕ → Answer) (clock : ℕ → String) (category severity : String) (k : String) where
  abbrev loop : List (String × String) → List String → Graph → List String × Graph
  loop = merge_each answers clock category severity

  loop_mono :
      (detected : List (String × String)) (ids : List String) (g : Graph)
      → any (str_eq k) ids ≡ true
      → any (str_eq k) (loop detected ids g).0 ≡ true
  unfolding merge_each
  loop_mono [] ids g n = n
  loop_mono ((target, label) ∷ detected) ids g n =
      loop_mono detected _ _ (merged_mono "" "" "" "" "" "" k _ ids n)

  loop-outside :
      (detected : List (String × String)) (ids : List String) (g : Graph)
      → ((n : ℕ) → is_lost (answers n) ≡ false)
      → any (str_eq k) (loop detected ids g).0 ≡ false
      → (loop detected ids g).1.findings k ≡ g.findings k
  unfolding merge_each merge_finding send_query
  loop-outside [] ids g l n = refl
  loop-outside ((target, label) ∷ detected) ids g l n =
      let step = merge_finding answers clock category target label severity g in
      let ids' = keep_merged step.0 ids in
      loop-outside detected ids' step.1 l n
      ∙ merged-outside (finding_ha_id category target) category severity (clock g.queries) label
          target k (answers g.queries) ids (record g { queries = suc g.queries }) (l g.queries)
          (elim (Bool-cases (any (str_eq k) ids')) [
            | inl e ↦ absurd (ground (arith, loop_mono detected ids' step.1 e, n))
            | inr e ↦ e
          ])

  loop-inside :
      (detected : List (String × String)) (ids : List String) (g : Graph)
      → ((n : ℕ) → is_lost (answers n) ≡ false)
      → (any (str_eq k) ids ≡ true → stage (g.findings k) ≡ opened)
      → any (str_eq k) (loop detected ids g).0 ≡ true
      → stage ((loop detected ids g).1.findings k) ≡ opened
  unfolding merge_each merge_finding send_query
  loop-inside [] ids g l h n = h n
  loop-inside ((target, label) ∷ detected) ids g l h n =
      let step = merge_finding answers clock category target label severity g in
      loop-inside detected (keep_merged step.0 ids) step.1 l
        (merged-inside (finding_ha_id category target) category severity (clock g.queries) label
          target k (answers g.queries) ids (record g { queries = suc g.queries }) (l g.queries) h)
        n

answer-ok :
    (a : Answer) (q : Graph → Graph) (g : Graph)
    → is_ok (answer_by a q g).0 ≡ true
    → answer_by a q g ≡ (ok tt, q g)
answer-ok Answer.done q g h = refl
answer-ok (Answer.refused e) q g h = absurd (ground (arith, h))
answer-ok (Answer.lost e) q g h = absurd (ground (arith, h))

-- Two queries that were answered have been run, one after the other.
both-ok :
    (a : Answer) (f : ℕ → Answer) (q1 q2 : Graph → Graph) (n : ℕ) (g : Graph)
    → let second : Action Graph (Unit {0}) =
        λ v. answer_by (f v.queries) q2 (record v { queries = suc v.queries }) in
      let m = answer_by a q1 >> second >> pure n in
      is_ok (m g).0 ≡ true → (m g).1 ≡ q2 (record (q1 g) { queries = suc (q1 g).queries })
both-ok Answer.done f q1 q2 n g h =
    let v = q1 g in
    let v' = record v { queries = suc v.queries } in
    let x = answer_by (f v.queries) q2 v' in
    let (u, p, q) = continue-ok x.0 (λ _. pure n) x.1 h in
    ap (λ (y : Result (Unit {0}) × Graph). (continue y.0 (λ _. pure n) y.1).1)
      (answer-ok (f v.queries) q2 v' (rw p refl))
both-ok (Answer.refused e) f q1 q2 n g h = absurd (ground (arith, h))
both-ok (Answer.lost e) f q1 q2 n g h = absurd (ground (arith, h))

module _ (answers : ℕ → Answer) (clock : ℕ → String) (category : String) where
  retire-ok :
      (ids : List String) (g : Graph) (k : String)
      → is_ok (retire answers clock category ids g).0 ≡ true
      → (retire answers clock category ids g).1.findings k
        ≡ resolve category ids
            (clock g.queries)
            k
            (unless_deleted category ids (clock g.queries) k (g.findings k))
  unfolding retire send_query delete_query resolve_query
  retire-ok ids g k h =
      let now = clock g.queries in
      ap (λ (v : Graph). v.findings k)
        (both-ok (answers g.queries) answers (delete_query category ids now)
          (resolve_query category ids now) (length ids) (record g { queries = suc g.queries }) h)

  -- If the client answers the two queries that end a run over a category, and no reply of a query that
  -- was run is lost, then a finding that the run has merged is open. Any other open finding of the
  -- category becomes resolved, and one that was resolved at another time is removed. A finding that
  -- is not there and is not merged stays away.
  pub reconcile_lifecycle :
      (severity : String) (detected : List (String × String)) (g : Graph) (k : String)
      → ((n : ℕ) → is_lost (answers n) ≡ false)
      → let (ids, g') = merge_each answers clock category severity detected [] g in
        IsEarlier category (clock g'.queries) (g.findings k)
        → let (r, after) = reconcile_category answers clock category detected severity g in
          is_ok r ≡ true
          → stage (after.findings k) ≡ next_stage (any (str_eq k) ids) (stage (g.findings k))
  unfolding reconcile_category
  reconcile_lifecycle severity detected g k l e h =
      let (ids, g') = merge_each answers clock category severity detected [] g in
      ap stage (retire-ok ids g' k h) ∙ elim (Bool-cases (any (str_eq k) ids)) [
        | inl n ↦
            ap stage (untouched category ids (clock g'.queries) k (g'.findings k) n)
            ∙ loop-inside answers clock category severity k detected [] g l
                (λ b. absurd (ground (arith, b))) n
            ∙ rw n refl
        | inr n ↦
            let same = loop-outside answers clock category severity k detected [] g l n in
            rw (same, n) (settle category ids (clock g'.queries) k (g.findings k) e n)
      ]
