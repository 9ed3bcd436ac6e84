-- ===== src/Schema/Version.antt =====
-- What a migration leaves in the graph: it answers with the version that the graph then carries.
use hass_ontology_fix.Common.{
  ◌≡◌, refl, ap, sym, ◌∙◌, String, Bool, true, false, Option, none, some, List, [], ◌∷◌, any,
  str_eq, if◌then◌else◌, arith,
}
use hass_ontology_fix.Common.Errors.{Result, ok, err, ◌>>◌, pure, continue, continue-keeps, is_ok}
use mathlib.Core.Path.{subst}
use hass_ontology_fix.Schema.{
  Store, schema_version, is_previous, is_supported, tolerate, create_tolerant, create_missing,
  ensure_indexes, migrate_found, migrate_supported_schema, migrate_from,
  migrate_schema_if_supported,
}

-- What the database is relied on for: both reads give the version that the graph carries, a write that
-- does not raise sets it, and no other query changes it.
pub record VersionLaws {W : Type 0} (store : Store W) (version_of : W → Option String)
    : Type 0 where
  pub reads : (w : W) → store.read_version w ≡ (ok (version_of w), w)
  pub reads_again : (w : W) → store.read_in_transaction w ≡ (ok (version_of w), w)
  pub writes :
      (v : String) (w : W)
      → is_ok (store.write_version v w).0 ≡ true
      → version_of (store.write_version v w).1 ≡ some v
  pub shows : (w : W) → version_of (store.show_indexes w).1 ≡ version_of w
  pub creates : (label : String) (w : W) → version_of (store.create_index label w).1 ≡ version_of w

-- The version after a migration from this one.
abbrev pub migrated : Option String → Option String
migrated version = if is_previous version then some schema_version else version

module _ {W : Type 0} (store : Store W) (version_of : W → Option String)
    (laws : VersionLaws store version_of) where
  create_missing-keeps :
      (existing labels : List String) (w : W)
      → version_of (create_missing store existing labels w).1 ≡ version_of w
  unfolding create_missing
  create_missing-keeps existing [] w = refl
  create_missing-keeps existing (label ∷ labels) w =
      by_test (any (str_eq label) existing) (create_missing-keeps existing labels)
    where
      by_test :
          (b : Bool)
          → ((v : W) → version_of (create_missing store existing labels v).1 ≡ version_of v)
          → version_of
              (((if b then pure tt else create_tolerant store label)
                  >> create_missing store existing labels)
                w).1
            ≡ version_of w
      by_test true rest = rest w
      by_test false rest =
          continue-keeps version_of (tolerate (store.create_index label w).0) _ _ (λ a v. rest v)
          ∙ laws.creates label w

  ensure_indexes-keeps :
      (labels : List String) (w : W) → version_of (ensure_indexes store labels w).1 ≡ version_of w
  unfolding ensure_indexes
  ensure_indexes-keeps labels w =
      continue-keeps version_of (store.show_indexes w).0 _ _
        (λ existing v. create_missing-keeps existing labels v)
      ∙ laws.shows w

  -- If it returned, it returned this version, and the graph carries it.
  abbrev Settles : Option String → Result (Option String) × W → Type 0
  Settles v (r, w) = is_ok r ≡ true → (r ≡ ok v) × (version_of w ≡ v)

  Settles-written :
      (q : Result (Unit {0})) (w : W)
      → (is_ok q ≡ true → version_of w ≡ some schema_version)
      → Settles (some schema_version) (continue q (λ _. pure (some schema_version)) w)
  Settles-written (ok u) w l h = (refl, l refl)
  Settles-written (err e) w l h = cc

  migrate_found-Settles :
      (w : W) → Settles (migrated (version_of w)) (migrate_found store (version_of w) w)
  migrate_found-Settles w = by_test (is_previous (version_of w))
    where
      by_test :
          (b : Bool)
          → Settles (if b then some schema_version else version_of w) (
              (if b
                  then (store.write_version schema_version >> pure (some schema_version))
                  else pure (version_of w))
                w)
      by_test true =
          Settles-written (store.write_version schema_version w).0 _ (laws.writes schema_version w)
      by_test false = λ h. (refl, refl)

  supported_schema-Settles :
      (w : W) → Settles (migrated (version_of w)) (migrate_supported_schema store w)
  unfolding migrate_supported_schema
  supported_schema-Settles w =
      subst
        (λ (q : Result (Option String) × W).
          Settles (migrated (version_of w)) (continue q.0 (migrate_found store) q.1))
        (sym (laws.reads_again w)) (migrate_found-Settles w)

  indexed-Settles :
      (q : Result (Unit {0})) (v : Option String) (w : W)
      → version_of w ≡ v
      → Settles
          (migrated v)
          (continue q (λ _. if is_previous v then migrate_supported_schema store else pure v) w)
  indexed-Settles (err e) v w same = λ h. cc
  indexed-Settles (ok u) v w same = by_test (is_previous v) refl
    where
      by_test :
          (b : Bool)
          → is_previous v ≡ b
          → Settles
              (if b then some schema_version else v)
              ((if b then migrate_supported_schema store else pure v) w)
      by_test true e =
          subst (λ t. Settles t (migrate_supported_schema store w))
            (ap migrated same ∙ ap (λ b. if b then some schema_version else v) e)
            (supported_schema-Settles w)
      by_test false e = λ h. (refl, same)

  unsupported : (v : Option String) → is_supported v ≡ false → is_previous v ≡ false
  unsupported none h = refl
  unsupported (some v) h = ground arith

  migrate_from-Settles :
      (labels : List String) (w : W)
      → Settles (migrated (version_of w)) (migrate_from store labels (version_of w) w)
  migrate_from-Settles labels w = by_test (is_supported (version_of w)) refl
    where
      by_test :
          (b : Bool)
          → is_supported (version_of w) ≡ b
          → Settles (migrated (version_of w)) (
              (if b
                  then (ensure_indexes store labels
                      >> (if is_previous (version_of w)
                          then migrate_supported_schema store
                          else pure (version_of w)))
                  else pure (version_of w))
                w)
      by_test true e =
          indexed-Settles (ensure_indexes store labels w).0 (version_of w)
            (ensure_indexes store labels w).1 (ensure_indexes-keeps labels w)
      by_test false e = λ h.
          let stays : migrated (version_of w) ≡ version_of w =
            ap (λ b. if b then some schema_version else version_of w)
              (unsupported (version_of w) e) in
          (ap ok (sym stays), sym stays)

  -- Under the laws of `VersionLaws`, a migration that returns answers with the version that the graph then
  -- carries: the current one if the graph carried its predecessor, and else the one it carried.
  pub migrate_exact :
      (labels : List String) (w : W)
      → is_ok (migrate_schema_if_supported store labels w).0 ≡ true
      → ((migrate_schema_if_supported store labels w).0 ≡ ok (migrated (version_of w)))
        × (version_of (migrate_schema_if_supported store labels w).1 ≡ migrated (version_of w))
  unfolding migrate_schema_if_supported
  migrate_exact labels w =
      subst
        (λ (q : Result (Option String) × W).
          Settles (migrated (version_of w)) (continue q.0 (migrate_from store labels) q.1))
        (sym (laws.reads w)) (migrate_from-Settles labels w)
