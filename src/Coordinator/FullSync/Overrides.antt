-- ===== src/Coordinator/FullSync/Overrides.antt =====
-- The overrides in a rebuild: the clear comes after the export, and the import that brings them back comes
-- after the build, which may raise. The graph's modules are any.
use hass_ontology_fix.Common.{
  ℕ, ◌≡◌, refl, ap, sym, ◌∙◌, true, false, Option, none, some, arith, ◌⊎◌, inl, inr,
}
use mathlib.Core.Path.{transport}
use hass_ontology_fix.Common.Errors.{
  Exception, Result, ok, err, Action, ◌>>◌, continue, continue-keeps, continue-ok, continue-of_ok,
  continue-of_err, Result-cases, is_ok, pure,
}
use hass_ontology_fix.ChangeBuffer.{GraphChangeBuffer}
use hass_ontology_fix.Coordinator.State.{Coordinator}
use hass_ontology_fix.Coordinator.Services.{Services, on_world, refresh_counts}
use hass_ontology_fix.Coordinator.FullSync.{
  full_sync, save_and_clear, refresh_version, restore, build_all, after_build, end_full_sync,
  execute_full_sync, async_rebuild,
}
use hass_ontology_fix.Coordinator.FullSync.Keeps.{
  LeavesOverrides, IsQuiet, reconcile_and_refresh-keeps, end_full_sync-keeps,
}

module _ {W Context Payload P : Type 0} (sv : Services W Context Payload) (overrides_of : W → P)
    (laws : LeavesOverrides sv overrides_of) where
  ok-of-restore :
      (q : Result ℕ) (c : Coordinator W)
      → is_ok (continue q (λ _. pure tt) c).0 ≡ true
      → is_ok q ≡ true
  ok-of-restore (ok n) c h = refl
  ok-of-restore (err e) c h = h

  -- Unless they raise, the steps after the build end with what the import leaves, which returned.
  after_build-imports :
      (p : Payload) (c : Coordinator W)
      → is_ok (after_build sv (some p) c).0 ≡ true
      → (is_ok (sv.import_overrides p c.world).0 ≡ true)
        × (overrides_of (after_build sv (some p) c).1.world
            ≡ overrides_of (sv.import_overrides p c.world).1)
  after_build-imports p c r =
      let view = λ (d : Coordinator W). overrides_of d.world in
      let (s, d) = restore sv (some p) c in
      let (u, restored, _) = continue-ok s _ d r in
      (
        ok-of-restore (sv.import_overrides p c.world).0
            (record c { world = (sv.import_overrides p c.world).1 }) (ap is_ok restored),
        continue-keeps view s
              (λ _. on_world sv (sv.reconcile_energy_roles none) >> refresh_version sv) d
              (λ a e. reconcile_and_refresh-keeps sv overrides_of laws e)
            ∙ continue-keeps view (sv.import_overrides p c.world).0 (λ _. pure tt) _ (λ a e. refl),
      )

  abbrev built : Coordinator W → Coordinator W
  built c = record c { world = (sv.build_full_graph c.world).1 }

  build_all-imports :
      (p : Payload) (c : Coordinator W)
      → is_ok (build_all sv (some p) c).0 ≡ true
      → (is_ok (sv.import_overrides p (built c).world).0 ≡ true)
        × (overrides_of (build_all sv (some p) c).1.world
            ≡ overrides_of (sv.import_overrides p (built c).world).1)
  build_all-imports p c r =
      let (s, d) = on_world sv sv.build_full_graph c in
      let (u, done, rest) = continue-ok s (λ _. after_build sv (some p)) d r in
      let (imported, same) = after_build-imports p d rest in
      (
        imported,
        ap (λ (q : Result (Unit {0}) × Coordinator W). overrides_of q.1.world)
              (continue-of_ok s (λ _. after_build sv (some p)) u d done)
            ∙ same,
      )

  abbrev exported : Coordinator W → Coordinator W
  exported c = record c { world = (sv.export_overrides c.world).1 }

  abbrev cleared : Coordinator W → Coordinator W
  cleared c = record c { world = (sv.clear_generated_graph (exported c).world).1 }

  abbrev clear_after : Payload → Action (Coordinator W) (Option Payload)
  clear_after payload = on_world sv sv.clear_generated_graph >> pure (some payload)

  -- After an export that returned, the clear raises, or the build starts from its graph.
  full_sync-cases :
      (p : Payload) (c : Coordinator W)
      → (sv.export_overrides c.world).0 ≡ ok p
      → (full_sync sv true c ≡ build_all sv (some p) (cleared c))
        ⊎ ((e : Exception) × (full_sync sv true c ≡ (err e, cleared c)))
  full_sync-cases p c returned =
      let k = λ (x : Unit {0}). pure {W = Coordinator W} (some p) in
      let next = λ (q : Result (Option Payload) × Coordinator W).
        continue q.0 (λ payload. build_all sv payload) q.1 in
      let q = (sv.clear_generated_graph (exported c).world).0 in
      let saved : save_and_clear sv true c ≡ continue q k (cleared c) =
        continue-of_ok (sv.export_overrides c.world).0 clear_after p (exported c) returned in
      elim (Result-cases q) [
        | inl (u, h) ↦ inl (ap next (saved ∙ continue-of_ok q k u (cleared c) h))
        | inr (e, h) ↦ inr (e, ap next (saved ∙ continue-of_err q k e (cleared c) h))
      ]

  full_sync-exported :
      (c : Coordinator W)
      → is_ok (full_sync sv true c).0 ≡ true
      → (p : Payload) × ((sv.export_overrides c.world).0 ≡ ok p)
  full_sync-exported c r =
      let (s, d) = save_and_clear sv true c in
      let (x, saved, _) = continue-ok s (λ payload. build_all sv payload) d r in
      let (p, returned, _) =
        continue-ok (sv.export_overrides c.world).0 clear_after (exported c) (ap is_ok saved) in
      (p, returned)

  full_sync-imports :
      (p : Payload) (c : Coordinator W)
      → (sv.export_overrides c.world).0 ≡ ok p
      → is_ok (full_sync sv true c).0 ≡ true
      → (is_ok (sv.import_overrides p (built (cleared c)).world).0 ≡ true)
        × (overrides_of (full_sync sv true c).1.world
            ≡ overrides_of (sv.import_overrides p (built (cleared c)).world).1)
  full_sync-imports p c returned r = elim (full_sync-cases p c returned) [
    | inl h ↦
        let (imported, same) =
          build_all-imports p (cleared c)
            (sym (ap (λ (q : Result (Unit {0}) × Coordinator W). is_ok q.0) h) ∙ r) in
        (imported, ap (λ (q : Result (Unit {0}) × Coordinator W). overrides_of q.1.world) h ∙ same)
    | inr (e, h) ↦ absurd cc
  ]

  full_sync-loses :
      (p : Payload) (c : Coordinator W)
      → (sv.export_overrides c.world).0 ≡ ok p
      → is_ok (sv.build_full_graph (cleared c).world).0 ≡ false
      → (is_ok (full_sync sv true c).0 ≡ false)
        × (overrides_of (full_sync sv true c).1.world ≡ overrides_of (cleared c).world)
  full_sync-loses p c returned r = elim (full_sync-cases p c returned) [
    | inl h ↦
        let (q, d) = on_world sv sv.build_full_graph (cleared c) in
        elim (Result-cases q) [
          | inl (u, done) ↦ cc
          | inr (e, failed) ↦
              let all = h ∙ continue-of_err q (λ _. after_build sv (some p)) e d failed in
              (
                ap (λ (q : Result (Unit {0}) × Coordinator W). is_ok q.0) all,
                ap (λ (q : Result (Unit {0}) × Coordinator W). overrides_of q.1.world) all
                    ∙ laws.builds (cleared c).world,
              )
        ]
    | inr (e, h) ↦ (
      ap (λ (q : Result (Unit {0}) × Coordinator W). is_ok q.0) h,
      ap (λ (q : Result (Unit {0}) × Coordinator W). overrides_of q.1.world) h,
    )
  ]

  build_all-buffer :
      (p : Payload) (c : Coordinator W)
      → (build_all sv (some p) c).1.change_buffer ≡ c.change_buffer
  unfolding refresh_counts
  build_all-buffer p c = ground arith

  full_sync-buffer :
      (p : Payload) (c : Coordinator W)
      → (sv.export_overrides c.world).0 ≡ ok p
      → (full_sync sv true c).1.change_buffer ≡ c.change_buffer
  full_sync-buffer p c returned = elim (full_sync-cases p c returned) [
    | inl h ↦
        ap (λ (q : Result (Unit {0}) × Coordinator W). q.1.change_buffer) h
        ∙ build_all-buffer p (cleared c)
    | inr (e, h) ↦ ap (λ (q : Result (Unit {0}) × Coordinator W). q.1.change_buffer) h
  ]

  is_ok-end_full_sync :
      (r : Result (Unit {0})) (c : Coordinator W) → is_ok (end_full_sync sv r c).0 ≡ is_ok r
  is_ok-end_full_sync (ok u) c = refl
  is_ok-end_full_sync (err e) c = refl

  IsQuiet-full_sync :
      (p : Payload) (c : Coordinator W)
      → (sv.export_overrides c.world).0 ≡ ok p
      → IsQuiet overrides_of c.change_buffer.subscribers
      → IsQuiet overrides_of (full_sync sv true c).1.change_buffer.subscribers
  IsQuiet-full_sync p c returned h =
      transport
        (ap (λ (b : GraphChangeBuffer W). IsQuiet overrides_of b.subscribers)
          (sym (full_sync-buffer p c returned)))
        h

  pub rebuild-exported :
      (c : Coordinator W)
      → is_ok (async_rebuild sv c).0 ≡ true
      → (p : Payload) × ((sv.export_overrides c.world).0 ≡ ok p)
  unfolding async_rebuild execute_full_sync
  rebuild-exported c r =
      let (q, d) = full_sync sv true c in full_sync-exported c (sym (is_ok-end_full_sync q d) ∙ r)

  pub rebuild-imports :
      (p : Payload) (c : Coordinator W)
      → (sv.export_overrides c.world).0 ≡ ok p
      → IsQuiet overrides_of c.change_buffer.subscribers
      → is_ok (async_rebuild sv c).0 ≡ true
      → (is_ok (sv.import_overrides p (built (cleared c)).world).0 ≡ true)
        × (overrides_of (async_rebuild sv c).1.world
            ≡ overrides_of (sv.import_overrides p (built (cleared c)).world).1)
  unfolding async_rebuild execute_full_sync
  rebuild-imports p c returned quiet r =
      let (q, d) = full_sync sv true c in
      let (imported, same) = full_sync-imports p c returned (sym (is_ok-end_full_sync q d) ∙ r) in
      (
        imported,
        end_full_sync-keeps sv overrides_of laws q d (IsQuiet-full_sync p c returned quiet) ∙ same,
      )

  pub rebuild-loses :
      (p : Payload) (c : Coordinator W)
      → (sv.export_overrides c.world).0 ≡ ok p
      → IsQuiet overrides_of c.change_buffer.subscribers
      → is_ok (sv.build_full_graph (cleared c).world).0 ≡ false
      → (is_ok (async_rebuild sv c).0 ≡ false)
        × (overrides_of (async_rebuild sv c).1.world ≡ overrides_of (cleared c).world)
  unfolding async_rebuild execute_full_sync
  rebuild-loses p c returned quiet r =
      let (q, d) = full_sync sv true c in
      let (raised, same) = full_sync-loses p c returned r in
      (
        is_ok-end_full_sync q d ∙ raised,
        end_full_sync-keeps sv overrides_of laws q d (IsQuiet-full_sync p c returned quiet) ∙ same,
      )
