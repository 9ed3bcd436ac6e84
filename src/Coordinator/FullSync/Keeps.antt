-- ===== src/Coordinator/FullSync/Keeps.antt =====
-- The calls of a full sync that leave the overrides of the graph alone, and what is left after them.
use hass_ontology_fix.Common.{
  ◌≡◌, refl, ap, sym, ◌∙◌, String, Bool, true, false, none, ◌+◌, [], ◌∷◌, if◌then◌else◌, All, arith,
  leb,
}
use mathlib.Core.Path.{transport}
use hass_ontology_fix.Common.Dict.{Dict}
use hass_ontology_fix.Common.Errors.{Exception, Result, ok, err, ◌>>◌, continue-keeps}
use hass_ontology_fix.ChangeBuffer.{
  GraphChangeEvent, Subscriber, notify, publish_reconcile, publish, next_revision,
}
use hass_ontology_fix.Coordinator.State.{Coordinator, OntologyState, sustained_failure_threshold}
use hass_ontology_fix.Coordinator.Services.{
  Services, record_success, record_failure, on_world, refresh_counts, call_if,
}
use hass_ontology_fix.Coordinator.FullSync.{refresh_version, end_full_sync}

-- Of the other calls that a full sync makes, none touches the overrides of the graph; the clear is not
-- among them.
pub record LeavesOverrides {W Context Payload P : Type 0} (sv : Services W Context Payload)
    (overrides_of : W → P) : Type 0 where
  pub builds : (w : W) → overrides_of (sv.build_full_graph w).1 ≡ overrides_of w
  pub reconciles : (w : W) → overrides_of (sv.reconcile_energy_roles none w).1 ≡ overrides_of w
  pub reads_version : (w : W) → overrides_of (sv.get_schema_version w).1 ≡ overrides_of w
  pub counts_nodes : (w : W) → overrides_of (sv.count_nodes w).1 ≡ overrides_of w
  pub counts_relationships : (w : W) → overrides_of (sv.count_relationships w).1 ≡ overrides_of w
  pub notifies :
      (s : OntologyState) (w : W) → overrides_of (sv.set_updated_data s w) ≡ overrides_of w
  pub reports_failure : (w : W) → overrides_of (call_if sv.on_sustained_failure w) ≡ overrides_of w
  pub clears_failure : (w : W) → overrides_of (call_if sv.on_failure_cleared w) ≡ overrides_of w

if-keeps :
    {W P : Type 0} (b : Bool) (f : W → P) (x y : W) → f x ≡ f y → f (if b then x else y) ≡ f y
if-keeps true f x y h = h
if-keeps false f x y h = refl

-- No subscriber changes the overrides.
abbrev pub IsQuiet : {W P : Type 0} → (W → P) → Dict (Subscriber W) → Type 0
IsQuiet {W} overrides_of subscribers =
    All
      (λ (s : String × Subscriber W).
        (event : GraphChangeEvent) (w : W) → overrides_of (s.1 event w).0 ≡ overrides_of w)
      subscribers

module _ {W Context Payload P : Type 0} (sv : Services W Context Payload) (overrides_of : W → P)
    (laws : LeavesOverrides sv overrides_of) where
  refresh_counts-keeps :
      (c : Coordinator W) → overrides_of (refresh_counts sv c).1.world ≡ overrides_of c.world
  unfolding refresh_counts
  refresh_counts-keeps c =
      ground
        (arith, laws.counts_nodes c.world, laws.counts_relationships (sv.count_nodes c.world).1)

  record_failure-keeps :
      (e : Exception) (c : Coordinator W)
      → overrides_of (record_failure sv e c).world ≡ overrides_of c.world
  unfolding record_failure
  record_failure-keeps e c =
      laws.notifies _ _
      ∙ if-keeps (leb sustained_failure_threshold (c.state.consecutive_failures + 1)) overrides_of
          (call_if sv.on_sustained_failure c.world) c.world (laws.reports_failure c.world)

  record_success-keeps :
      (c : Coordinator W) → overrides_of (record_success sv c).world ≡ overrides_of c.world
  unfolding record_success
  record_success-keeps c =
      laws.notifies _ (call_if sv.on_failure_cleared c.world) ∙ laws.clears_failure c.world

  refresh_version-keeps :
      (c : Coordinator W) → overrides_of (refresh_version sv c).1.world ≡ overrides_of c.world
  refresh_version-keeps c =
      continue-keeps (λ (d : Coordinator W). overrides_of d.world) (sv.get_schema_version c.world).0
        _ _ (λ version d. refresh_counts-keeps _)
      ∙ laws.reads_version c.world

  pub reconcile_and_refresh-keeps :
      (c : Coordinator W)
      → overrides_of
          ((on_world sv (sv.reconcile_energy_roles none) >> refresh_version sv) c).1.world
        ≡ overrides_of c.world
  reconcile_and_refresh-keeps c =
      continue-keeps (λ (d : Coordinator W). overrides_of d.world)
        (sv.reconcile_energy_roles none c.world).0 _ _ (λ n d. refresh_version-keeps d)
      ∙ laws.reconciles c.world

  notify-keeps :
      (subscribers : Dict (Subscriber W)) (event : GraphChangeEvent) (w : W)
      → IsQuiet overrides_of subscribers
      → overrides_of (notify subscribers event w) ≡ overrides_of w
  unfolding notify
  notify-keeps [] event w h = refl
  notify-keeps ((id, subscriber) ∷ rest) event w (h, hs) =
      notify-keeps rest event (subscriber event w).0 hs ∙ h event w

  record_success-subscribers :
      (c : Coordinator W)
      → (record_success sv c).change_buffer.subscribers ≡ c.change_buffer.subscribers
  unfolding record_success
  record_success-subscribers c = refl

  pub end_full_sync-keeps :
      (r : Result (Unit {0})) (c : Coordinator W)
      → IsQuiet overrides_of c.change_buffer.subscribers
      → overrides_of (end_full_sync sv r c).1.world ≡ overrides_of c.world
  unfolding publish_reconcile publish next_revision
  end_full_sync-keeps (ok u) c h =
      let d = record_success sv c in
      let same : d.change_buffer.subscribers ≡ c.change_buffer.subscribers =
        record_success-subscribers c in
      notify-keeps d.change_buffer.subscribers _ d.world
        (transport (ap (IsQuiet overrides_of) (sym same)) h)
      ∙ record_success-keeps c
  end_full_sync-keeps (err e) c h = record_failure-keeps e c
