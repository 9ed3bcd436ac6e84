-- ===== src/Presentation/Safe.antt =====
-- What a node or a relationship shows of its properties is bounded and has no sensitive name.
use hass_ontology_fix.Common.{
  ℕ, suc, ◌+◌, ◌≤◌, ltb, ◌≡◌, String, true, false, ◌&&◌, not, List, [], ◌∷◌, length, All,
  Bool-cases, inl, inr, arith, ltb→lt,
}
use hass_ontology_fix.Common.Json.{Fields}
use hass_ontology_fix.Redact.{is_secret_name}
use hass_ontology_fix.Presentation.Text.{Python, is_safe_name, is_sensitive}
use hass_ontology_fix.Presentation.Normalize.{
  Property, graph_property_limit, is_skipped, take_properties, safe_properties, keys,
}

-- A plain name, which is no secret and has no sensitive word in it.
abbrev pub IsPublic : Property → Type 0
IsPublic p =
    (is_safe_name p.name ≡ true) × (is_secret_name p.name ≡ false) × (is_sensitive p.name ≡ false)

module _ (python : Python) where
  take_properties-IsPublic :
      (properties : Fields) (names : List String) (taken : ℕ)
      → All IsPublic (take_properties python properties names taken)
  unfolding take_properties
  take_properties-IsPublic properties [] taken = tt
  take_properties-IsPublic properties (name ∷ names) taken =
      elim (Bool-cases (ltb taken graph_property_limit && not (is_skipped name))) [
        | inl e ↦ rw e (
          (ground (arith, e), ground (arith, e), ground (arith, e)),
          take_properties-IsPublic properties names (suc taken),
        )
        | inr e ↦ rw e (take_properties-IsPublic properties names taken)
      ]

  length-take_properties :
      (properties : Fields) (names : List String) (taken : ℕ)
      → taken ≤ graph_property_limit
      → taken + length (take_properties python properties names taken) ≤ graph_property_limit
  unfolding take_properties
  length-take_properties properties [] taken h = omega arith
  length-take_properties properties (name ∷ names) taken h =
      elim (Bool-cases (ltb taken graph_property_limit && not (is_skipped name))) [
        | inl e ↦
            let below = ltb→lt taken graph_property_limit (ground (arith, e)) in
            rw e (omega (arith, length-take_properties properties names (suc taken) (omega arith)))
        | inr e ↦ rw e (length-take_properties properties names taken h)
      ]

  -- The properties of a node or of a relationship that are shown are at most 25, and the name of each is
  -- plain, is no secret's and has no sensitive word in it.
  pub safe_properties-IsPublic :
      (properties : Fields)
      → All IsPublic (safe_properties python properties)
        × (length (safe_properties python properties) ≤ graph_property_limit)
  unfolding safe_properties
  safe_properties-IsPublic properties = (
    take_properties-IsPublic properties (python.sorted (keys properties)) 0,
    omega (
      arith,
      length-take_properties properties (python.sorted (keys properties)) 0 (omega arith),
    ),
  )
