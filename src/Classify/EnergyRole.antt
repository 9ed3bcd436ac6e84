-- ===== src/Classify/EnergyRole.antt =====
-- `infer_energy_role`: what a power or energy sensor stands for.
use hass_ontology_fix.Common.{
  String, Bool, true, false, ◌≡◌, ◌↔◌, refl, ◌||◌, not, Option, none, some, List, [], ◌∷◌, ◌++◌, ap,
  ◌∙◌, if◌then◌else◌, arith,
}
use hass_ontology_fix.Classify.Home.{Home, Signals, entity_signals}
use hass_ontology_fix.Classify.Rules.{one_of, mentions}

pub data EnergyRole : Type 0 where
  consumer producer storage grid_import grid_export : EnergyRole

unfoldable pub role_of : Signals → Option EnergyRole
unfolding mentions
role_of signals =
    if not (one_of signals.device_class ("power" ∷ "energy" ∷ []))
    then none
    else if mentions signals ("grid export" ∷ "export to grid" ∷ "feed in" ∷ [])
    then some grid_export
    else if mentions signals ("grid import" ∷ "import from grid" ∷ [])
    then some grid_import
    else if mentions signals ("battery storage" ∷ "storage power" ∷ [])
    then some storage
    else if mentions signals ("solar" ∷ "generation" ∷ "generator output" ∷ [])
    then some producer
    else if mentions signals ("consumption" ∷ "consuming" ∷ "appliance load" ∷ [])
    then some consumer
    else if signals.has_device
    then some consumer
    else none

unfoldable pub infer_energy_role : Home → String → Option EnergyRole
unfolding entity_signals role_of
infer_energy_role home entity_id = role_of (entity_signals home entity_id)

-- The words that say where in the energy flow a sensor measures, and those of an appliance.
abbrev pub topology_words : List String
topology_words =
    "grid export" ∷ "export to grid" ∷ "feed in" ∷ "grid import" ∷ "import from grid"
    ∷ "battery storage" ∷ "storage power" ∷ "solar" ∷ "generation" ∷ "generator output" ∷ []

abbrev pub consumption_words : List String
consumption_words = "consumption" ∷ "consuming" ∷ "appliance load" ∷ []

abbrev pub is_measured : Signals → Bool
is_measured signals = one_of signals.device_class ("power" ∷ "energy" ∷ [])

mentions-append :
    (s : Signals) (a b : List String) → mentions s (a ++ b) ≡ (mentions s a || mentions s b)
unfolding mentions
mentions-append s [] b = refl
mentions-append s (word ∷ a) b = ground (arith, mentions-append s a b)

topology :
    (s : Signals)
    → mentions s topology_words ≡ (
        mentions s ("grid export" ∷ "export to grid" ∷ "feed in" ∷ [])
        || (mentions s ("grid import" ∷ "import from grid" ∷ [])
            || (mentions s ("battery storage" ∷ "storage power" ∷ [])
                || mentions s ("solar" ∷ "generation" ∷ "generator output" ∷ []))))
topology s =
    mentions-append s ("grid export" ∷ "export to grid" ∷ "feed in" ∷ []) (
      "grid import" ∷ "import from grid" ∷ "battery storage" ∷ "storage power" ∷ "solar"
      ∷ "generation" ∷ "generator output" ∷ [])
    ∙ ap (λ b. mentions s ("grid export" ∷ "export to grid" ∷ "feed in" ∷ []) || b)
        (mentions-append s ("grid import" ∷ "import from grid" ∷ [])
            ("battery storage" ∷ "storage power" ∷ "solar" ∷ "generation" ∷ "generator output" ∷ [])
          ∙ ap (λ b. mentions s ("grid import" ∷ "import from grid" ∷ []) || b)
              (mentions-append s ("battery storage" ∷ "storage power" ∷ [])
                ("solar" ∷ "generation" ∷ "generator output" ∷ [])))

consumer_iff :
    (m a b c d e h : Bool) (w : Bool)
    → w ≡ (a || (b || (c || d)))
    → ((if not m
          then none
          else if a
          then some grid_export
          else if b
          then some grid_import
          else if c
          then some storage
          else if d
          then some producer
          else if e
          then some consumer
          else if h
          then some consumer
          else none)
        ≡ some consumer)
      ↔ ((m ≡ true) × (w ≡ false) × ((e || h) ≡ true))
consumer_iff m a b c d e h w k = (λ p. ground arith, λ p. ground arith)

-- An entity is inferred to be a consumer exactly if it measures power or energy, its text has none of
-- the words for a place in the energy flow, and its text has a word for consumption or it belongs to
-- a device.
pub consumer_exact :
    (home : Home) (entity_id : String)
    → let s = entity_signals home entity_id in
      (infer_energy_role home entity_id ≡ some consumer) ↔ (
        (is_measured s ≡ true)
        × (mentions s topology_words ≡ false)
        × ((mentions s consumption_words || s.has_device) ≡ true))
unfolding infer_energy_role role_of
consumer_exact home entity_id =
    let s = entity_signals home entity_id in
    consumer_iff (is_measured s) _ _ _ _ (mentions s consumption_words) s.has_device
      (mentions s topology_words) (topology s)
