-- ===== src/Coordinator/FullSync/Restored.antt =====
-- A rebuild with the export and the import of overrides.py: the overrides that it brings back, and those
-- that it loses.
use hass_ontology_fix.Common.{
  ℕ, ◌≡◌, ap, ◌∙◌, String, true, false, Option, [], All, inl, inr, List, filter,
}
use hass_ontology_fix.Common.Errors.{Exception, Action, Result-cases, is_ok}
use hass_ontology_fix.Common.Json.{Json}
use hass_ontology_fix.Overrides.{Override, Graph, export_object, async_export_overrides}
use hass_ontology_fix.Overrides.Import.{async_import_overrides}
use hass_ontology_fix.Overrides.RoundTrip.{IsWellFormed, AreFresh}
use hass_ontology_fix.Overrides.Restored.{has_source, export_ok, import-restores}
use hass_ontology_fix.Coordinator.State.{Coordinator}
use hass_ontology_fix.Coordinator.Services.{Services}
use hass_ontology_fix.Coordinator.FullSync.{async_rebuild}
use hass_ontology_fix.Coordinator.FullSync.Keeps.{LeavesOverrides, IsQuiet}
use hass_ontology_fix.Coordinator.FullSync.Overrides.{
  rebuild-exported, rebuild-imports, rebuild-loses,
}

abbrev on_graph : {V A : Type 0} → Action Graph A → Action (Graph × V) A
on_graph m w = let (r, g) = m w.0 in (r, (g, w.1))

-- The calls of a coordinator whose overrides module is that of overrides.py, over a client that
-- answers its n-th query by `replies`, beside the rest `V` of the world.
abbrev pub with_overrides :
    {V Context : Type 0}
    → (ℕ → Option Exception)
    → String
    → Services (Graph × V) Context Json
    → Services (Graph × V) Context Json
with_overrides replies exported_at sv = record sv {
  export_overrides = on_graph (async_export_overrides replies exported_at);
  import_overrides = λ payload. on_graph (async_import_overrides replies payload);
}

abbrev pub overrides_of : {V : Type 0} → Graph × V → List Override
overrides_of w = w.0.overrides

module _ {V Context : Type 0} (replies : ℕ → Option Exception) (exported_at : String)
    (sv : Services (Graph × V) Context Json)
    (laws : LeavesOverrides (with_overrides replies exported_at sv) overrides_of)
    (c : Coordinator (Graph × V)) where
  abbrev with : Services (Graph × V) Context Json
  with = with_overrides replies exported_at sv

  -- The world that the clear leaves, which comes after the export.
  abbrev pub cleared_world : Graph × V
  cleared_world = (sv.clear_generated_graph (with.export_overrides c.world).1).1

  -- Take a graph whose overrides are well formed and have distinct pairs of a source and a type, a
  -- clear that leaves none of them, other calls that leave the overrides alone (`LeavesOverrides`)
  -- and subscribers that do too. After a rebuild that returns, the graph holds exactly those of its
  -- former overrides whose source node the build made again, in their order: the export and the
  -- import are those of overrides.py, and the other overrides are gone without an error.
  pub rebuild_restores_overrides :
      All IsWellFormed c.world.0.overrides
      → AreFresh [] c.world.0.overrides
      → cleared_world.0.overrides ≡ []
      → IsQuiet overrides_of c.change_buffer.subscribers
      → is_ok (async_rebuild with c).0 ≡ true
      → (async_rebuild with c).1.world.0.overrides
        ≡ filter (has_source (sv.build_full_graph cleared_world).1.0) c.world.0.overrides
  rebuild_restores_overrides w fresh empty quiet r =
      let (p, returned) = rebuild-exported with overrides_of laws c r in
      let given = export_ok replies exported_at c.world.0 w (ap is_ok returned) in
      let (imported, same) =
        rebuild-imports with overrides_of laws (export_object exported_at c.world.0.overrides) c
          given quiet r in
      same
      ∙ import-restores replies exported_at c.world.0.overrides
          (sv.build_full_graph cleared_world).1.0 w fresh (laws.builds cleared_world ∙ empty)
          imported

  -- For calls that leave the overrides alone (`LeavesOverrides`) and subscribers that do too, whatever
  -- the overrides are: if the export returns, the clear leaves no override and the build raises on
  -- the cleared graph, the rebuild raises, and the graph holds no overrides afterwards.
  pub rebuild_loses_overrides :
      is_ok (with.export_overrides c.world).0 ≡ true
      → cleared_world.0.overrides ≡ []
      → IsQuiet overrides_of c.change_buffer.subscribers
      → is_ok (sv.build_full_graph cleared_world).0 ≡ false
      → (is_ok (async_rebuild with c).0 ≡ false) × ((async_rebuild with c).1.world.0.overrides ≡ [])
  rebuild_loses_overrides exports empty quiet r =
      elim (Result-cases (with.export_overrides c.world).0) [
        | inl (p, returned) ↦
            let (raised, same) = rebuild-loses with overrides_of laws p c returned quiet r in
            (raised, same ∙ empty)
        | inr (e, failed) ↦ absurd cc
      ]
