-- ===== src/Overrides/Checked.antt =====
-- A payload that is rejected writes nothing.
use hass_ontology_fix.Common.{
  ℕ, ◌≡◌, refl, Bool, true, false, Option, none, some, List, [], ◌∷◌, length, Bool-cases, inl, inr,
  arith,
}
use hass_ontology_fix.Common.Errors.{Exception, ErrorClass, Result, ok, err, Action, pure, continue}
use hass_ontology_fix.Common.Json.{Json}
use hass_ontology_fix.Overrides.{
  Override, Graph, is_allowed, send_query, async_create_override, reply_by,
}
use hass_ontology_fix.Overrides.Import.{
  validate_payload, create_each, import_checked, async_import_overrides,
}

abbrev is_rejected_class : ErrorClass → Bool
is_rejected_class ErrorClass.rejected = true
is_rejected_class _ = false

-- The client raises this exception, or none.
abbrev pub is_rejected_reply : Option Exception → Bool
is_rejected_reply none = false
is_rejected_reply (some e) = is_rejected_class e.class

-- The call has raised OverrideImportRejected.
abbrev pub is_rejected : {A : Type 0} → Result A → Bool
is_rejected (ok a) = false
is_rejected (err e) = is_rejected_class e.class

continue-not_rejected :
    {W A B : Type 0} (r : Result A) (k : A → Action W B) (w : W)
    → is_rejected r ≡ false
    → ((a : A) (v : W) → is_rejected (k a v).0 ≡ false)
    → is_rejected (continue r k w).0 ≡ false
continue-not_rejected (ok a) k w h s = s a w
continue-not_rejected (err e) k w h s = h

reply-not_rejected :
    (o : Option Exception) (q : Graph → Graph) (g : Graph)
    → is_rejected_reply o ≡ false
    → is_rejected (reply_by o q g).0 ≡ false
reply-not_rejected none q g h = refl
reply-not_rejected (some e) q g h = h

module _ (replies : ℕ → Option Exception)
    (never : (n : ℕ) → is_rejected_reply (replies n) ≡ false) where
  query-not_rejected :
      (q : Graph → Graph) (g : Graph) → is_rejected (send_query replies q g).0 ≡ false
  unfolding send_query
  query-not_rejected q g = reply-not_rejected (replies g.sent) q _ (never g.sent)

  create-not_rejected :
      (o : Override) (g : Graph) → is_rejected (async_create_override replies o g).0 ≡ false
  unfolding async_create_override
  create-not_rejected o g = elim (Bool-cases (is_allowed o.source_label)) [
    | inl e ↦
        rw e (continue-not_rejected _ _ _ (query-not_rejected _ _) (λ _ v. query-not_rejected _ v))
    | inr e ↦ rw e refl
  ]

  create_each-not_rejected :
      (os : List Override) (g : Graph) → is_rejected (create_each replies os g).0 ≡ false
  unfolding create_each
  create_each-not_rejected [] g = refl
  create_each-not_rejected (o ∷ os) g =
      continue-not_rejected _ _ _ (create-not_rejected o g) (λ _ v. create_each-not_rejected os v)

  checked :
      (r : Result (List Override)) (g : Graph)
      → is_rejected (import_checked replies r g).0 ≡ true
      → (import_checked replies r g).1 ≡ g
  checked (err e) g h = refl
  checked (ok os) g h =
      let create = create_each replies os g in
      let no : is_rejected (import_checked replies (ok os) g).0 ≡ false =
        continue-not_rejected create.0 (λ _. pure (length os)) create.1
          (create_each-not_rejected os g) (λ _ v. refl) in
      absurd (ground (arith, h, no))

-- If an import raises OverrideImportRejected, which the client itself never raises, then the graph is as
-- before it: nothing was written and no query was sent.
pub rejected_unchanged :
    (replies : ℕ → Option Exception) (payload : Json) (g : Graph)
    → ((n : ℕ) → is_rejected_reply (replies n) ≡ false)
    → let (r, after) = async_import_overrides replies payload g in is_rejected r ≡ true → after ≡ g
unfolding async_import_overrides
rejected_unchanged replies payload g never h = checked replies never (validate_payload payload) g h
