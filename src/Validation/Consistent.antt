-- ===== src/Validation/Consistent.antt =====
-- A finding has a time of resolution exactly while it is resolved.
use hass_ontology_fix.Common.{
  ℕ, suc, ◌≡◌, refl, String, Option, none, some, List, [], ◌∷◌, length, is_some, str_eq, Bool-cases,
  inl, inr,
}
use hass_ontology_fix.Common.Errors.{◌>>◌, pure, continue-preserves}
use hass_ontology_fix.Validation.{
  Finding, Graph, Answer, is_resolved, merge_query, delete_query, resolve_query, unless_deleted,
  is_deleted, is_outdated, resolve, finding_ha_id, answer_by, send_query, merge_finding, merge_each,
  retire, reconcile_category,
}

abbrev pub IsConsistent : Option Finding → Type 0
IsConsistent none = Unit
IsConsistent (some f) = is_resolved f.status ≡ is_some f.resolved_at

-- Of all findings.
abbrev pub AreConsistent : Graph → Type 0
AreConsistent g = (k : String) → IsConsistent (g.findings k)

abbrev Preserves : (Graph → Graph) → Type 0
Preserves query = (g : Graph) → AreConsistent g → AreConsistent (query g)

merge-Preserves :
    (id category severity now label target : String)
    → Preserves (merge_query id category severity now label target)
unfolding merge_query
merge-Preserves id category severity now label target g h k = elim (Bool-cases (str_eq k id)) [
  | inl e ↦ rw e refl
  | inr e ↦ rw e (h k)
]

unless_deleted-IsConsistent :
    (category : String) (ids : List String) (now k : String) (before : Option Finding)
    → IsConsistent before
    → IsConsistent (unless_deleted category ids now k before)
unless_deleted-IsConsistent category ids now k none h = tt
unless_deleted-IsConsistent category ids now k (some f) h =
    elim (Bool-cases (is_deleted category ids now k f)) [ inl e ↦ rw e tt | inr e ↦ rw e h ]

resolve-IsConsistent :
    (category : String) (ids : List String) (now k : String) (before : Option Finding)
    → IsConsistent before
    → IsConsistent (resolve category ids now k before)
resolve-IsConsistent category ids now k none h = tt
resolve-IsConsistent category ids now k (some f) h =
    elim (Bool-cases (is_outdated category ids k f)) [ inl e ↦ rw e refl | inr e ↦ rw e h ]

module _ (answers : ℕ → Answer) (clock : ℕ → String) where
  answer-IsConsistent :
      (a : Answer) (query : Graph → Graph) (g : Graph)
      → Preserves query
      → AreConsistent g
      → AreConsistent (answer_by a query g).1
  answer-IsConsistent Answer.done query g p h = p g h
  answer-IsConsistent (Answer.refused e) query g p h = h
  answer-IsConsistent (Answer.lost e) query g p h = p g h

  send_query-IsConsistent :
      (query : Graph → Graph) (g : Graph)
      → Preserves query
      → AreConsistent g
      → AreConsistent (send_query answers clock query g).1
  unfolding send_query
  send_query-IsConsistent query g p h =
      answer-IsConsistent (answers g.queries) query (record g { queries = suc g.queries }) p h

  merge_finding-IsConsistent :
      (category target label severity : String) (g : Graph)
      → AreConsistent g
      → AreConsistent (merge_finding answers clock category target label severity g).1
  unfolding merge_finding
  merge_finding-IsConsistent category target label severity g h =
      let id = finding_ha_id category target in
      let query = merge_query id category severity (clock g.queries) label target in
      let step = send_query answers clock query g in
      continue-preserves AreConsistent step.0 _ step.1
        (send_query-IsConsistent query g (merge-Preserves id category severity _ label target) h)
        (λ _ v p. p)

  merge_each-IsConsistent :
      (category severity : String) (detected : List (String × String)) (ids : List String)
      (g : Graph)
      → AreConsistent g
      → AreConsistent (merge_each answers clock category severity detected ids g).1
  unfolding merge_each
  merge_each-IsConsistent category severity [] ids g h = h
  merge_each-IsConsistent category severity ((target, label) ∷ detected) ids g h =
      merge_each-IsConsistent category severity detected _ _
        (merge_finding-IsConsistent category target label severity g h)

  retire-IsConsistent :
      (category : String) (ids : List String) (g : Graph)
      → AreConsistent g
      → AreConsistent (retire answers clock category ids g).1
  unfolding retire delete_query resolve_query
  retire-IsConsistent category ids g h =
      let now = clock g.queries in
      let del = send_query answers clock (delete_query category ids now) in
      let res = send_query answers clock (resolve_query category ids now) in
      let kept =
        send_query-IsConsistent (delete_query category ids now) g
          (λ v p k. unless_deleted-IsConsistent category ids now k (v.findings k) (p k)) h in
      let both =
        continue-preserves AreConsistent (del g).0 (λ _. res) (del g).1 kept
          (λ _ v q.
            send_query-IsConsistent (resolve_query category ids now) v
              (λ u p k. resolve-IsConsistent category ids now k (u.findings k) (p k)) q) in
      continue-preserves AreConsistent ((del >> res) g).0 (λ _. pure (length ids))
        ((del >> res) g).1 both (λ _ v q. q)

  -- A run over a category leaves every finding with a time of resolution exactly if it is resolved,
  -- if this held before it, however the client answers its queries.
  pub reconcile-IsConsistent :
      (category severity : String) (detected : List (String × String)) (g : Graph)
      → AreConsistent g
      → AreConsistent (reconcile_category answers clock category detected severity g).1
  unfolding reconcile_category
  reconcile-IsConsistent category severity detected g h =
      retire-IsConsistent category _ _ (merge_each-IsConsistent category severity detected [] g h)
