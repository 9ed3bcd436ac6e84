-- ===== src/Validation/Run.antt =====
-- A run over all categories: a detection that raises ends it before anything is written, and the times of
-- resolution stay consistent.
use mathlib.Core.Path.{subst}
use hass_ontology_fix.Common.{
  ℕ, sym, Option, ◌≡◌, refl, ◌∙◌, ap, String, false, List, [], ◌∷◌, All, arith,
}
use hass_ontology_fix.Common.Errors.{
  Result, ok, err, Action, continue, continue-keeps, continue-preserves, is_ok, ◌>>=◌, pure,
}
use hass_ontology_fix.Classify.Home.{Home}
use hass_ontology_fix.Validation.{Finding, Graph, Answer, reconcile_category}
use hass_ontology_fix.Validation.Consistent.{IsConsistent, AreConsistent, reconcile-IsConsistent}
use hass_ontology_fix.Validation.Detect.{
  read, Reads, Detected, Detection, detectors, detect_all, reconcile_each, async_run_validation,
}

abbrev IsReadOnly : {A : Type 0} → Action Graph A → Type 0
IsReadOnly m = (g : Graph) → (m g).1.findings ≡ g.findings

read-IsReadOnly :
    {A B : Type 0} (query : Graph → Result A) (f : A → B)
    → IsReadOnly (read query >>= λ rows. pure (f rows))
read-IsReadOnly query f g =
    continue-keeps (λ (v : Graph). v.findings) (query g) (λ rows. pure (f rows)) _ (λ _ _. refl)

detectors-IsReadOnly :
    (reads : Reads) (home : Home)
    → All
        (λ ((c, (s, detect)) : String × (String × Action Graph Detected)). IsReadOnly detect)
        (detectors reads home)
detectors-IsReadOnly reads home = (
  read-IsReadOnly _ _,
  (
    read-IsReadOnly _ _,
    (
      read-IsReadOnly _ _,
      (
        read-IsReadOnly _ _,
        (
          read-IsReadOnly _ _,
          (
            read-IsReadOnly _ _,
            (
              read-IsReadOnly _ _,
              (
                read-IsReadOnly _ _,
                (read-IsReadOnly _ _, (read-IsReadOnly _ _, (read-IsReadOnly _ _, tt))),
              ),
            ),
          ),
        ),
      ),
    ),
  ),
)

abbrev Detectors : Type 0
Detectors = List (String × (String × Action Graph Detected))

abbrev AreReadOnly : Detectors → Type 0
AreReadOnly =
    All (λ ((c, (s, detect)) : String × (String × Action Graph Detected)). IsReadOnly detect)

detect_all-IsReadOnly : (ds : Detectors) → AreReadOnly ds → IsReadOnly (detect_all ds)
unfolding detect_all
detect_all-IsReadOnly [] h g = refl
detect_all-IsReadOnly ((c, (s, detect)) ∷ ds) (h, hs) g =
    continue-keeps (λ (v : Graph). v.findings) (detect g).0 _ (detect g).1
      (λ found v.
        continue-keeps (λ (u : Graph). u.findings) (detect_all ds v).0 _ (detect_all ds v).1
          (λ _ _. refl)
        ∙ detect_all-IsReadOnly ds hs v)
    ∙ h g

continue-failed :
    {W A B : Type 0} (r : Result A) (k : A → Action W B) (w : W)
    → is_ok r ≡ false
    → (is_ok (continue r k w).0 ≡ false) × ((continue r k w).1 ≡ w)
continue-failed (ok a) k w h = absurd (ground (arith, h))
continue-failed (err e) k w h = (refl, refl)

module _ (answers : ℕ → Answer) (clock : ℕ → String) where
  reconcile_each-IsConsistent :
      (ds : List Detection) (g : Graph)
      → AreConsistent g
      → AreConsistent (reconcile_each answers clock ds g).1
  unfolding reconcile_each
  reconcile_each-IsConsistent [] g h = h
  reconcile_each-IsConsistent (d ∷ ds) g h =
      let step = reconcile_category answers clock d.category d.detected d.severity g in
      continue-preserves AreConsistent step.0 _ step.1
        (reconcile-IsConsistent answers clock d.category d.severity d.detected g h)
        (λ _ v p.
          continue-preserves AreConsistent (reconcile_each answers clock ds v).0 _ _
            (reconcile_each-IsConsistent ds v p) (λ _ _ q. q))

  -- If one of the detections raises, then the whole run raises and no finding has changed.
  pub failed_detection :
      (reads : Reads) (home : Home) (g : Graph)
      → is_ok (detect_all (detectors reads home) g).0 ≡ false
      → let (r, after) = async_run_validation answers clock reads home g in
        (is_ok r ≡ false) × (after.findings ≡ g.findings)
  unfolding async_run_validation
  failed_detection reads home g h =
      let found = detect_all (detectors reads home) g in
      let (e, same) = continue-failed found.0 (reconcile_each answers clock) found.1 h in
      (
        e,
        ap (λ (v : Graph). v.findings) same
            ∙ detect_all-IsReadOnly (detectors reads home) (detectors-IsReadOnly reads home) g,
      )

  -- After a run every finding has a time of resolution exactly if it is resolved, if this held before
  -- it, however the client answers the queries.
  pub run_validation-IsConsistent :
      (reads : Reads) (home : Home) (g : Graph)
      → AreConsistent g
      → AreConsistent (async_run_validation answers clock reads home g).1
  unfolding async_run_validation
  run_validation-IsConsistent reads home g h =
      let found = detect_all (detectors reads home) g in
      let same = detect_all-IsReadOnly (detectors reads home) (detectors-IsReadOnly reads home) g in
      continue-preserves AreConsistent found.0 (reconcile_each answers clock) found.1
        (λ k.
          subst (λ (findings : String → Option Finding). IsConsistent (findings k)) (sym same)
            (h k))
        (λ ds v p. reconcile_each-IsConsistent ds v p)
