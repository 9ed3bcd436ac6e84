-- ===== src/Coordinator/Health.antt =====
-- The health that the sync operations report: `_record_success`, `_record_failure` and the repair issue
-- that the two callbacks raise and clear (custom_components/ontology/__init__.py).
use hass_ontology_fix.Common.{
  ℕ, ◌+◌, ◌≡◌, refl, ap, ◌∙◌, Bool, true, false, Option, none, some, List, [], ◌∷◌, leb, arith,
}
use hass_ontology_fix.Common.Errors.{Exception}
use hass_ontology_fix.Coordinator.State.{
  Coordinator, OntologyState, Health, error, unavailable, sustained_failure_threshold,
}
use hass_ontology_fix.Coordinator.Services.{Services, record_success, record_failure, call_if}

-- The outcomes of the operations so far, the newest first: `none` is a success.
abbrev pub Outcomes : Type 0
Outcomes = List (Option Exception)

-- The failures since the last success.
abbrev pub streak : Outcomes → ℕ
streak [] = 0
streak (none ∷ os) = 0
streak (some e ∷ os) = streak os + 1

abbrev pub health_of : Outcomes → Health
health_of [] = unavailable
health_of (none ∷ os) = Health.ok
health_of (some e ∷ os) = error

-- Which issue the world shows, and that the callbacks raise and clear it and a notification leaves it.
pub record IssueLaws {W Context Payload : Type 0} (sv : Services W Context Payload)
    (issue : W → Bool) : Type 0 where
  pub raises : (w : W) → issue (call_if sv.on_sustained_failure w) ≡ true
  pub clears : (w : W) → issue (call_if sv.on_failure_cleared w) ≡ false
  pub notifies : (s : OntologyState) (w : W) → issue (sv.set_updated_data s w) ≡ issue w

module _ {W Context Payload : Type 0} (sv : Services W Context Payload) where
  unfoldable pub record_outcome : Option Exception → Coordinator W → Coordinator W
  record_outcome none c = record_success sv c
  record_outcome (some e) c = record_failure sv e c

  unfoldable pub record_all : Outcomes → Coordinator W → Coordinator W
  unfolding record_outcome
  record_all [] c = c
  record_all (o ∷ os) c = record_outcome o (record_all os c)

  -- Under the laws of `IssueLaws`, from a coordinator just made whose world shows no issue: after any outcomes, the failures counted
  -- are those since the last success, the health is that of the last outcome, and the issue is shown
  -- exactly if there were three failures or more since the last success.
  pub record_all_exact :
      (issue : W → Bool)
      → IssueLaws sv issue
      → (os : Outcomes) (c : Coordinator W) → c.state.consecutive_failures ≡ 0
      → c.state.health ≡ unavailable
      → issue c.world ≡ false
      → let d = record_all os c in
        (d.state.consecutive_failures ≡ streak os)
        × (d.state.health ≡ health_of os)
        × (issue d.world ≡ leb sustained_failure_threshold (streak os))
  unfolding record_all record_outcome record_success record_failure
  record_all_exact issue laws [] c h k i = (h, k, i)
  record_all_exact issue laws (none ∷ os) c h k i =
      (refl, refl, laws.notifies _ _ ∙ laws.clears (record_all os c).world)
  record_all_exact issue laws (some e ∷ os) c h k i =
      let (n, _, shown) = record_all_exact issue laws os c h k i in
      (
        ap (λ m. m + 1) n,
        refl,
        laws.notifies _ _ ∙ ground (arith, n, shown, laws.raises (record_all os c).world),
      )
