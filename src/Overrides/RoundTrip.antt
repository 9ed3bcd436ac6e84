-- ===== src/Overrides/RoundTrip.antt =====
-- What is exported comes back by an import.
use mathlib.Core.Path.{subst}
use hass_ontology_fix.Common.{
  ℕ, suc, ◌≡◌, refl, sym, ap, ◌∙◌, String, Bool, true, false, Option, none, some, List, [], ◌∷◌,
  ◌++◌, map, any, append-nil, append_assoc, length, All, eq_iff, arith,
}
use hass_ontology_fix.Common.Errors.{Exception, Result, ok, pure, continue-of_ok}
use hass_ontology_fix.Common.Json.{Json, to_items, of_items}
use hass_ontology_fix.Overrides.{
  Override, Graph, same_override, is_allowed, send_query, merge_type, merge_override, row_of,
  list_rows, override_object, export_object, async_create_override, async_list_overrides,
  async_export_overrides,
}
use hass_ontology_fix.Overrides.Import.{
  text_of, validate_entry, validate_entries, validate_payload, create_each, import_checked,
  async_import_overrides,
}

abbrev pub is_named : String → Bool
is_named String.[] = false
is_named (String.◌∷◌ c s) = true

-- An override of an entity, a device or an area, with both names given.
abbrev pub IsWellFormed : Override → Type 0
IsWellFormed o =
    (is_allowed o.source_label ≡ true)
    × (is_named o.source_ha_id ≡ true)
    × (is_named o.type_label ≡ true)

-- Each override of the list differs from those before it.
abbrev pub AreFresh : List Override → List Override → Type 0
AreFresh before [] = Unit
AreFresh before (o ∷ os) = (any (same_override o) before ≡ false) × AreFresh (before ++ (o ∷ [])) os

pub list_rows-row_of : (os : List Override) → All IsWellFormed os → list_rows (map row_of os) ≡ os
list_rows-row_of [] h = refl
list_rows-row_of (o ∷ os) ((a, b, c), hs) = rw (a, list_rows-row_of os hs) refl

text_of-string : (s : String) → is_named s ≡ true → text_of (some (Json.string s)) ≡ some s
text_of-string String.[] h = absurd (ground (arith, h))
text_of-string (String.◌∷◌ c s) h = refl

validate_object : (o : Override) → IsWellFormed o → validate_entry (override_object o) ≡ ok o
validate_object o (a, b, c) =
    rw (a, text_of-string o.source_ha_id b, text_of-string o.type_label c) refl

validate_objects :
    (os : List Override)
    → All IsWellFormed os
    → validate_entries (of_items (to_items (map override_object os))) ≡ ok os
validate_objects [] h = refl
validate_objects (o ∷ os) (h, hs) = rw (validate_object o h, validate_objects os hs) refl

pub validate_export :
    (t : String) (os : List Override)
    → All IsWellFormed os
    → validate_payload (export_object t os) ≡ ok os
unfolding validate_payload
validate_export t os h = validate_objects os h

module _ (replies : ℕ → Option Exception) (answered : (n : ℕ) → replies n ≡ none) where
  abbrev tick : Graph → Graph
  tick g = record g { sent = suc g.sent }

  abbrev created : Override → Graph → Graph
  created o g = merge_override o (tick (merge_type o.type_label (tick g)))

  create_override-ok :
      (o : Override) (g : Graph)
      → is_allowed o.source_label ≡ true
      → async_create_override replies o g ≡ (ok tt, created o g)
  unfolding async_create_override send_query
  create_override-ok o g a = rw (a, answered g.sent, answered (suc g.sent)) refl

  created-overrides :
      (o : Override) (g : Graph)
      → g.has_node o.source_label o.source_ha_id ≡ true
      → any (same_override o) g.overrides ≡ false
      → (created o g).overrides ≡ g.overrides ++ (o ∷ [])
  created-overrides o g h n = ground (arith, h, n, (eq_iff o.type_label o.type_label).1 refl)

  created-has_node :
      (o : Override) (g : Graph) (label ha_id : String)
      → g.has_node label ha_id ≡ true
      → (created o g).has_node label ha_id ≡ true
  created-has_node o g label ha_id h = ground (arith, h)

  abbrev pub HasSource : Graph → Override → Type 0
  HasSource g o = g.has_node o.source_label o.source_ha_id ≡ true

  created-HasSource :
      (o : Override) (g : Graph) (os : List Override)
      → All (HasSource g) os
      → All (HasSource (created o g)) os
  created-HasSource o g [] h = tt
  created-HasSource o g (p ∷ os) (h, hs) =
      (created-has_node o g p.source_label p.source_ha_id h, created-HasSource o g os hs)

  create_each-ok :
      (os : List Override) (g : Graph)
      → All IsWellFormed os
      → All (HasSource g) os
      → AreFresh g.overrides os
      → ((create_each replies os g).0 ≡ ok tt)
        × ((create_each replies os g).1.overrides ≡ g.overrides ++ os)
  unfolding create_each
  create_each-ok [] g w h f = (refl, (sym (append-nil g.overrides)))
  create_each-ok (o ∷ os) g ((a, b, c), w) (h, hs) (f, fs) =
      let now = created-overrides o g h f in
      let (r, e) =
        create_each-ok os (created o g) w (created-HasSource o g os hs)
          (subst (λ (before : List Override). AreFresh before os) (sym now) fs) in
      rw (create_override-ok o g a) (
        r,
        e
            ∙ ap (λ (before : List Override). before ++ os) now
            ∙ append_assoc g.overrides (o ∷ []) os,
      )

module _ (replies : ℕ → Option Exception) (exported_at : String) (g h : Graph) where
  exported :
      ((n : ℕ) → replies n ≡ none)
      → All IsWellFormed g.overrides
      → (async_export_overrides replies exported_at g).0
        ≡ ok (export_object exported_at g.overrides)
  unfolding async_export_overrides async_list_overrides send_query
  exported answered w = rw (answered g.sent, list_rows-row_of g.overrides w) refl

  imported :
      (os : List Override)
      → ((create_each replies os h).0 ≡ ok tt) × ((create_each replies os h).1.overrides ≡ os)
      → let (r, after) = import_checked replies (ok os) h in
        (r ≡ ok (length os)) × (after.overrides ≡ os)
  imported os (r, e) =
      let step = create_each replies os h in
      let returned = continue-of_ok step.0 (λ _. pure (length os)) tt step.1 r in
      (
        ap (λ (x : Result ℕ × Graph). x.0) returned,
        ap (λ (x : Result ℕ × Graph). x.1.overrides) returned ∙ e,
      )

  -- If every query is answered, then an export returns a payload whose import gives a graph without
  -- overrides the same overrides, and returns their number. The exported overrides must be distinct,
  -- with allowed labels and names that are not empty, and the other graph must have the nodes they are on.
  pub import-export :
      ((n : ℕ) → replies n ≡ none)
      → All IsWellFormed g.overrides
      → AreFresh [] g.overrides
      → All (λ o. h.has_node o.source_label o.source_ha_id ≡ true) g.overrides
      → h.overrides ≡ []
      → (payload : Json) × ((async_export_overrides replies exported_at g).0 ≡ ok payload)
        × ((async_import_overrides replies payload h).0 ≡ ok (length g.overrides))
        × ((async_import_overrides replies payload h).1.overrides ≡ g.overrides)
  unfolding async_import_overrides
  import-export answered w fresh sources empty =
      let os = g.overrides in
      let fresh' = subst (λ (before : List Override). AreFresh before os) (sym empty) fresh in
      let (r, e) = create_each-ok replies answered os h w sources fresh' in
      let (a, b) = imported os (r, e ∙ ap (λ (before : List Override). before ++ os) empty) in
      (
        export_object exported_at os,
        exported answered w,
        rw (validate_export exported_at os w) a,
        rw (validate_export exported_at os w) b,
      )
