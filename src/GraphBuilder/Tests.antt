-- ===== src/GraphBuilder/Tests.antt =====
-- Batches of a few rows, and a measurement in kilowatts.
use hass_ontology_fix.Common.{
  ℕ, ◌*◌, leb, ◌≡◌, refl, true, Option, none, some, List, [], ◌∷◌, ◌++◌, map, All, str_eq,
  if◌then◌else◌,
}
use hass_ontology_fix.Common.Errors.{ok}
use hass_ontology_fix.Common.Json.{Fields}
use hass_ontology_fix.GraphBuilder.{Client, NodeRow, merge_nodes_bulk}
use hass_ontology_fix.GraphBuilder.Chunks.{Query, IsLogged, IsBatch, concat, merge_nodes_bulk_exact}
use hass_ontology_fix.GraphBuilder.Measurement.{Numbers, Measurement, normalize_current_measurement}

-- A graph that is the queries it was sent.
abbrev client : Client (List Query)
client = record {
  merge_nodes = λ label rows source w. (ok tt, w ++ ((label, (source, rows)) ∷ []));
  merge_relationships = λ from type to rows source w. (ok tt, w);
}

abbrev rows : List NodeRow
rows =
    record { ha_id = "hall"; properties = Fields.end }
    ∷ record { ha_id = "yard"; properties = Fields.end }
    ∷ []

client-IsLogged : IsLogged client (λ w. w)
client-IsLogged label source chunk w h = refl

merge_nodes_bulk_exact_example :
    (batches : List (List NodeRow)) × ((merge_nodes_bulk client "Area" rows "home_assistant" []).1
      ≡ [] ++ map (λ chunk. ("Area", ("home_assistant", chunk))) batches)
    × (concat batches ≡ rows)
    × All IsBatch batches
unfolding merge_nodes_bulk
merge_nodes_bulk_exact_example =
    merge_nodes_bulk_exact client (λ w. w) client-IsLogged "Area" "home_assistant" rows [] refl

abbrev numbers : Numbers ℕ ℕ
numbers = record {
  float = λ s. if str_eq s "2" then some 2 else none;
  is_finite = λ v. true;
  is_percentage = λ v. leb v 100;
  thousandfold = λ v. v * 1000;
  isoformat = λ t. "now";
  timestamp = λ t. t;
}

abbrev watts : Option (Measurement ℕ) → Option ℕ
watts none = none
watts (some m) = m.power_watts

in_watts :
    watts (
      normalize_current_measurement numbers
        (record {
          state = "2";
          device_class = some "power";
          unit_of_measurement = some "kW";
          last_updated = 7;
        })
        none)
    ≡ some 2000
unfolding normalize_current_measurement
in_watts = refl
