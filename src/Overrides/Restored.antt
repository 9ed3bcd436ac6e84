-- ===== src/Overrides/Restored.antt =====
-- What an import that returns brings back of an export: the overrides whose source node is there. A
-- relationship to a node that is missing matches nothing, and the import returns all the same.
use mathlib.Core.Path.{subst}
use hass_ontology_fix.Common.{
  ℕ, suc, ◌≡◌, refl, sym, ap, ◌∙◌, inl, inr, String, Bool, true, false, Option, List, [], ◌∷◌, ◌++◌,
  any, filter, append-nil, append_assoc, length, All, str_eq, eq_iff, Bool-cases, Option-cases,
  if◌then◌else◌, arith,
}
use hass_ontology_fix.Common.Errors.{
  Exception, Result, ok, Action, pure, is_ok, continue-ok, continue-of_ok,
}
use hass_ontology_fix.Overrides.{
  Override, Graph, same_override, is_allowed, send_query, merge_type, merge_override, export_object,
  async_create_override, async_list_overrides, async_export_overrides,
}
use hass_ontology_fix.Overrides.Import.{create_each, import_checked, async_import_overrides}
use hass_ontology_fix.Overrides.RoundTrip.{
  IsWellFormed, AreFresh, list_rows-row_of, validate_export,
}

abbrev pub has_source : Graph → Override → Bool
has_source g o = g.has_node o.source_label o.source_ha_id

allowed-not_type : (label : String) → is_allowed label ≡ true → str_eq label "SemanticType" ≡ false
allowed-not_type label h = elim (Bool-cases (str_eq label "SemanticType")) [
  | inl e ↦
      let same : is_allowed label ≡ false = ap is_allowed ((eq_iff label "SemanticType").0 e) in
      absurd cc
  | inr e ↦ e
]

any_without :
    (p : Override → Bool) (o : Override) (xs ys : List Override)
    → any p (xs ++ (o ∷ ys)) ≡ false
    → any p (xs ++ ys) ≡ false
any_without p o [] ys h = ground (arith, h)
any_without p o (x ∷ xs) ys h = ground (arith, h, any_without p o xs ys)

fresh_without :
    (o : Override) (xs ys os : List Override)
    → AreFresh (xs ++ (o ∷ ys)) os
    → AreFresh (xs ++ ys) os
fresh_without o xs ys [] h = tt
fresh_without o xs ys (p ∷ os) (h, hs) =
    let last = p ∷ [] in
    let fresh = λ (before : List Override). AreFresh before os in
    (
      any_without (same_override p) o xs ys h,
      subst fresh (sym (append_assoc xs ys last))
          (fresh_without o xs (ys ++ last) os (subst fresh (append_assoc xs (o ∷ ys) last) hs)),
    )

module _ (replies : ℕ → Option Exception) where
  abbrev tick : Graph → Graph
  tick g = record g { sent = suc g.sent }

  abbrev created : Override → Graph → Graph
  created o g = merge_override o (tick (merge_type o.type_label (tick g)))

  -- A creation that returned was answered twice.
  created_ok :
      (o : Override) (g : Graph)
      → is_allowed o.source_label ≡ true
      → is_ok (async_create_override replies o g).0 ≡ true
      → async_create_override replies o g ≡ (ok tt, created o g)
  unfolding async_create_override send_query
  created_ok o g a h = elim (Option-cases (replies g.sent)) [
    | inl e ↦ elim (Option-cases (replies (suc g.sent))) [
      | inl f ↦ rw (a, e, f) refl
      | inr (x, f) ↦ absurd (let bad = (rw (a, e, f) at h) in cc)
    ]
    | inr (x, e) ↦ absurd (let bad = (rw (a, e) at h) in cc)
  ]

  created-overrides :
      (o : Override) (g : Graph)
      → is_allowed o.source_label ≡ true
      → any (same_override o) g.overrides ≡ false
      → (created o g).overrides ≡ (if has_source g o then g.overrides ++ (o ∷ []) else g.overrides)
  created-overrides o g a fresh =
      ground
        (arith, allowed-not_type o.source_label a, fresh, (eq_iff o.type_label o.type_label).1 refl)

  created-has_source :
      (o p : Override) (g : Graph)
      → is_allowed p.source_label ≡ true
      → has_source (created o g) p ≡ has_source g p
  created-has_source o p g a = rw (allowed-not_type p.source_label a) refl

  created-sources :
      (o : Override) (g : Graph) (os : List Override)
      → All IsWellFormed os
      → filter (has_source (created o g)) os ≡ filter (has_source g) os
  created-sources o g [] w = refl
  created-sources o g (p ∷ os) ((a, _, _), w) =
      rw (created-has_source o p g a) (rw (created-sources o g os w) refl)

  -- From a list of overrides, the creations that returned add those with a source, in their order.
  create_each-restores :
      (os : List Override) (g : Graph)
      → All IsWellFormed os
      → AreFresh g.overrides os
      → is_ok (create_each replies os g).0 ≡ true
      → (create_each replies os g).1.overrides ≡ g.overrides ++ filter (has_source g) os
  unfolding create_each
  create_each-restores [] g w f h = sym (append-nil g.overrides)
  create_each-restores (o ∷ os) g ((a, b, c), w) (f, fs) h =
      let first = async_create_override replies o g in
      let k : Unit {0} → Action Graph (Unit {0}) = λ _. create_each replies os in
      let (_, p, _) = continue-ok first.0 k first.1 h in
      let made = created_ok o g a (rw p refl) in
      let h' : is_ok (create_each replies os (created o g)).0 ≡ true = (rw made at h) in
      let now = created-overrides o g a f in
      let rest = filter (has_source g) os in
      let later = λ (fresh : AreFresh (created o g).overrides os).
        create_each-restores os (created o g) w fresh h'
        ∙ ap (λ (l : List Override). (created o g).overrides ++ l) (created-sources o g os w) in
      let fresh = λ (before : List Override). AreFresh before os in
      elim (Bool-cases (has_source g o)) [
        | inl e ↦
            let grown : (created o g).overrides ≡ g.overrides ++ (o ∷ []) = now ∙ (rw e refl) in
            let picked : filter (has_source g) (o ∷ os) ≡ o ∷ rest = rw e refl in
            rw made (
              later (subst fresh (sym grown) fs)
              ∙ ap (λ (l : List Override). l ++ rest) grown
              ∙ append_assoc g.overrides (o ∷ []) rest
              ∙ ap (λ (l : List Override). g.overrides ++ l) (sym picked))
        | inr e ↦
            let same : (created o g).overrides ≡ g.overrides = now ∙ (rw e refl) in
            let fewer =
              subst fresh (append-nil g.overrides) (fresh_without o g.overrides [] os fs) in
            let picked : filter (has_source g) (o ∷ os) ≡ rest = rw e refl in
            rw made (
              later (subst fresh (sym same) fewer)
              ∙ ap (λ (l : List Override). l ++ rest) same
              ∙ ap (λ (l : List Override). g.overrides ++ l) (sym picked))
      ]

  -- An export that returned gives the overrides of the graph, and leaves them.
  pub export_ok :
      (t : String) (g : Graph)
      → All IsWellFormed g.overrides
      → is_ok (async_export_overrides replies t g).0 ≡ true
      → (async_export_overrides replies t g).0 ≡ ok (export_object t g.overrides)
  unfolding async_export_overrides async_list_overrides send_query
  export_ok t g w h = elim (Option-cases (replies g.sent)) [
    | inl e ↦ rw (e, list_rows-row_of g.overrides w) refl
    | inr (x, e) ↦ absurd (let bad = (rw e at h) in cc)
  ]

  pub import-restores :
      (t : String) (os : List Override) (g : Graph)
      → All IsWellFormed os
      → AreFresh [] os
      → g.overrides ≡ []
      → is_ok (async_import_overrides replies (export_object t os) g).0 ≡ true
      → (async_import_overrides replies (export_object t os) g).1.overrides
        ≡ filter (has_source g) os
  unfolding async_import_overrides
  import-restores t os g w fresh empty h =
      let h' : is_ok (import_checked replies (ok os) g).0 ≡ true =
        (rw (validate_export t os w) at h) in
      let step = create_each replies os g in
      let k : Unit {0} → Action Graph ℕ = λ _. pure (length os) in
      let (u, p, _) = continue-ok step.0 k step.1 h' in
      rw (validate_export t os w) (
        ap (λ (x : Result ℕ × Graph). x.1.overrides) (continue-of_ok step.0 k u step.1 p)
        ∙ create_each-restores os g w
            (subst (λ (l : List Override). AreFresh l os) (sym empty) fresh) (rw p refl)
        ∙ ap (λ (l : List Override). l ++ filter (has_source g) os) empty)
