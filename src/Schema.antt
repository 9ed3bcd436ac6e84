-- ===== src/Schema.antt =====
-- The migration of the stored schema (custom_components/ontology/schema_migrations.py). The queries are
-- the interface `Store`; the write transaction is run to its end.
pub mod Version
mod Tests
use hass_ontology_fix.Common.{
  String, Bool, true, false, ◌&&◌, ◌||◌, not, Option, none, some, List, [], ◌∷◌, any, str_eq,
  if◌then◌else◌,
}
use hass_ontology_fix.Common.Errors.{
  cannot_connect, invalid_auth, Exception, Result, ok, err, Action, ◌>>=◌, ◌>>◌, pure, continue,
}

-- The version read by `run_query`, the version read in the transaction and its update, the labels that
-- have an index on `ha_id`, and the creation of one.
pub record Store (W : Type 0) : Type 0 where
  pub read_version : Action W (Option String)
  pub read_in_transaction : Action W (Option String)
  pub write_version : String → Action W (Unit {0})
  pub show_indexes : Action W (List String)
  pub create_index : String → Action W (Unit {0})

-- SCHEMA_VERSION and SCHEMA_PREVIOUS_VERSION
abbrev pub schema_version : String
schema_version = "3.4.0"

abbrev pub schema_previous_version : String
schema_previous_version = "3.3.0"

abbrev pub is_previous : Option String → Bool
is_previous none = false
is_previous (some v) = str_eq v schema_previous_version

abbrev pub is_supported : Option String → Bool
is_supported none = true
is_supported (some v) = str_eq v schema_previous_version || str_eq v schema_version

-- What `_ensure_v3_indexes` lets pass: any error of a creation but two.
abbrev is_fatal : Exception → Bool
is_fatal e = elim e.class [ cannot_connect ↦ true | invalid_auth ↦ true | _ ↦ false ]

abbrev pub tolerate : Result (Unit {0}) → Result (Unit {0})
tolerate (ok _) = ok tt
tolerate (err e) = if is_fatal e then err e else ok tt

module _ {W : Type 0} (store : Store W) where
  abbrev create_tolerant : String → Action W (Unit {0})
  create_tolerant label w = let (r, w') = store.create_index label w in (tolerate r, w')

  -- The loop over the labels, which are distinct names fit for Cypher.
  unfoldable pub create_missing : List String → List String → Action W (Unit {0})
  create_missing existing [] = pure tt
  create_missing existing (label ∷ labels) =
      (if any (str_eq label) existing then pure tt else create_tolerant label)
      >> create_missing existing labels

  unfoldable pub ensure_indexes : List String → Action W (Unit {0})
  unfolding create_missing
  ensure_indexes labels = do existing ← store.show_indexes; create_missing existing labels

  abbrev pub migrate_found : Option String → Action W (Option String)
  migrate_found version =
      if is_previous version
      then (do store.write_version schema_version; pure (some schema_version))
      else pure version

  -- `_migrate_supported_schema`
  unfoldable pub migrate_supported_schema : Action W (Option String)
  migrate_supported_schema = do version ← store.read_in_transaction; migrate_found version

  abbrev pub migrate_from : List String → Option String → Action W (Option String)
  migrate_from labels version =
      if is_supported version
      then (do
        ensure_indexes labels
        if is_previous version then migrate_supported_schema else pure version)
      else pure version

  unfoldable pub migrate_schema_if_supported : List String → Action W (Option String)
  unfolding ensure_indexes migrate_supported_schema
  migrate_schema_if_supported labels = do version ← store.read_version; migrate_from labels version
