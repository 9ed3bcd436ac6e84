-- ===== src/Mesh/Tests.antt =====
-- A snapshot with a tree link and a sibling link before the newest one, and a two_links of two links.
use hass_ontology_fix.Common.{ℕ, ◌≡◌, refl, String, Bool, true, false, Option, none, some, [], ◌∷◌}
use hass_ontology_fix.Common.Errors.{Exception, Result, ok, err}
use hass_ontology_fix.Common.Json.{Json, Items, Fields}
use hass_ontology_fix.GraphBuilder.{chunks}
use hass_ontology_fix.Mesh.{
  HeldLink, MeshGraph, Scan, is_history, send, prune_history_siblings, prune_batches,
  async_scan_zigbee_mesh,
}
use hass_ontology_fix.Mesh.Payload.{Extracted, extract_links}
use hass_ontology_fix.Mesh.Prune.{count, others, prune_history_exact}

abbrev answered : ℕ → Option Exception
answered n = none

abbrev held : String → Option String → HeldLink
held id relationship = record {
  ha_id = id;
  relationship = relationship;
  snapshot = some "old";
  from_device = none;
  to_device = none;
}

abbrev graph : MeshGraph
graph = record {
  snapshots = [];
  links = held "tree" (some "0") ∷ held "sibling" (some "2") ∷ held "unknown" none ∷ [];
  devices = λ id. true;
  sent = 0;
}

prune_history_exact_example :
    ((prune_history_siblings answered "new" graph).0 ≡ ok 1)
    × (count (is_history "new") (prune_history_siblings answered "new" graph).1.links ≡ 0)
    × (others (is_history "new") (prune_history_siblings answered "new" graph).1.links
        ≡ held "tree" (some "0") ∷ held "unknown" none ∷ [])
unfolding prune_history_siblings prune_batches send
prune_history_exact_example = prune_history_exact answered "new" graph refl

abbrev end_at : String → Json
end_at address = Json.object (Fields.field "ieeeAddr" (Json.string address) Fields.end)

abbrev payload : Json
payload = Json.object (
    Fields.field "data"
      (Json.object (
        Fields.field "value"
          (Json.object (
            Fields.field "links"
              (Json.array (
                Items.cons
                  (Json.object (
                    Fields.field "source" (end_at "0xa")
                      (Fields.field "target" (end_at "0xb") Fields.end)))
                  (Items.cons (Json.object Fields.end) Items.nil)))
              Fields.end))
          Fields.end))
      Fields.end)

abbrev two_links : Scan
two_links = record {
  mqtt_available = true;
  payload = some payload;
  snapshot_id = "new";
  scanned_at = "2026-01-02";
  cutoff = "2026-01-01";
  identifiers = [];
  coordinator_device_id = none;
  keep_sibling_history = true;
}

-- A link without ends is passed over.
scan_links : (async_scan_zigbee_mesh answered two_links graph).0 ≡ ok 1
unfolding async_scan_zigbee_mesh chunks
scan_links = refl

abbrev is_err : Result Extracted → Bool
is_err (ok _) = false
is_err (err _) = true

-- A payload that is a list, or whose data is a text, raises.
list_raises : is_err (extract_links (Json.array (Items.cons Json.null Items.nil))) ≡ true
unfolding extract_links
list_raises = refl
