-- ===== src/Schema/Tests.antt =====
-- A graph that is its version and its indexes, and the theorem at a migration of it.
use hass_ontology_fix.Common.{◌≡◌, refl, String, Option, some, List, [], ◌∷◌}
use hass_ontology_fix.Common.Errors.{ok}
use hass_ontology_fix.Schema.{Store, migrate_schema_if_supported}
use hass_ontology_fix.Schema.Version.{VersionLaws, migrate_exact}

record World : Type 0 where
  version : Option String
  indexes : List String

abbrev store : Store World
store = record {
  read_version = λ w. (ok w.version, w);
  read_in_transaction = λ w. (ok w.version, w);
  write_version = λ v w. (ok tt, record w { version = some v });
  show_indexes = λ w. (ok w.indexes, w);
  create_index = λ label w. (ok tt, record w { indexes = label ∷ w.indexes });
}

version_laws : VersionLaws store (λ w. w.version)
version_laws = record {
  reads = λ w. refl;
  reads_again = λ w. refl;
  writes = λ v w h. refl;
  shows = λ w. refl;
  creates = λ label w. refl;
}

abbrev old : World
old = record { version = some "3.3.0"; indexes = "Entity" ∷ [] }

migrates :
    migrate_schema_if_supported store ("Entity" ∷ "Device" ∷ []) old
    ≡ (ok (some "3.4.0"), record { version = some "3.4.0"; indexes = "Device" ∷ "Entity" ∷ [] })
unfolding migrate_schema_if_supported
migrates = refl

migrate_exact_example :
    let (r, w) = migrate_schema_if_supported store ("Entity" ∷ "Device" ∷ []) old in
    (r ≡ ok (some "3.4.0")) × (w.version ≡ some "3.4.0")
unfolding migrate_schema_if_supported
migrate_exact_example =
    migrate_exact store (λ w. w.version) version_laws ("Entity" ∷ "Device" ∷ []) old refl
