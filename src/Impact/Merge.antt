-- ===== src/Impact/Merge.antt =====
-- The five lists of dependents: `_node_ref`, the limit on one entity's, and `_merge_dependencies`.
use hass_ontology_fix.Common.{
  ltb, String, Bool, true, false, Option, none, some, List, [], ◌∷◌, ◌++◌, any, take, length,
  str_eq, if◌then◌else◌,
}
use hass_ontology_fix.QueryService.{default_query_limit}
use hass_ontology_fix.Classify.Home.{truthy}

pub data Key : Type 0 where
  automations scripts scenes dashboards semantic_assets : Key

abbrev pub keys : List Key
keys = automations ∷ scripts ∷ scenes ∷ dashboards ∷ semantic_assets ∷ []

-- `key.replace("_", " ")`
abbrev pub key_words : Key → String
key_words automations = "automations"
key_words scripts = "scripts"
key_words scenes = "scenes"
key_words dashboards = "dashboards"
key_words semantic_assets = "semantic assets"

pub record Properties : Type 0 where
  pub ha_id : Option String
  pub name : Option String
  pub title : Option String

pub record Ref : Type 0 where
  pub ha_id : Option String
  pub name : Option String

abbrev or_text : Option String → Option String → Option String
or_text (some s) other = some s
or_text none other = other

-- `_node_ref` of a node that is there
abbrev pub node_ref : Properties → Ref
node_ref p = record {
  ha_id = p.ha_id;
  name = or_text (truthy p.name) (or_text (truthy p.title) p.ha_id);
}

pub record Dependencies : Type 0 where
  pub lists : Key → List Ref
  pub warnings : List String

abbrev pub no_dependencies : Dependencies
no_dependencies = record { lists = λ key. []; warnings = [] }

abbrev pub refs_of : List (Option Properties) → List Ref
refs_of [] = []
refs_of (none ∷ nodes) = refs_of nodes
refs_of (some p ∷ nodes) = node_ref p ∷ refs_of nodes

abbrev append_text : String → String → String
append_text String.[] t = t
append_text (String.◌∷◌ c s) t = String.◌∷◌ c (append_text s t)

abbrev truncation_warnings : (Key → List Ref) → List Key → List String
truncation_warnings lists [] = []
truncation_warnings lists (key ∷ rest) =
    let others = truncation_warnings lists rest in
    if ltb default_query_limit (length (lists key))
    then append_text (key_words key) " truncated to 100 items" ∷ others
    else others

-- What `_entity_dependencies` makes of the rows.
unfoldable pub limit_lists : List (Key → List (Option Properties)) → Dependencies
limit_lists [] = no_dependencies
limit_lists (row ∷ rows) =
    let lists = λ (key : Key). refs_of (row key) in
    record {
      lists = λ key. take default_query_limit (lists key);
      warnings = truncation_warnings lists keys;
    }

abbrev pub same_id : Option String → Option String → Bool
same_id none none = true
same_id (some a) (some b) = str_eq a b
same_id _ _ = false

abbrev pub is_seen : Option String → List (Option String) → Bool
is_seen id seen = any (same_id id) seen

abbrev pub append_below_limit : List Ref → Ref → List Ref
append_below_limit merged item =
    if ltb (length merged) default_query_limit then merged ++ (item ∷ []) else merged

abbrev pub merge_by :
    Bool
    → Ref
    → List Ref
    → List (Option String)
    → (List Ref → List (Option String) → List Ref)
    → List Ref
merge_by true item merged seen rest = rest merged seen
merge_by false item merged seen rest = rest (append_below_limit merged item) (item.ha_id ∷ seen)

-- The loop over the items of one key, with what was merged and the ids that were seen.
unfoldable pub merge_items : List Ref → List (Option String) → List Ref → List Ref
merge_items merged seen [] = merged
merge_items merged seen (item ∷ items) =
    merge_by (is_seen item.ha_id seen) item merged seen (λ m s. merge_items m s items)

-- The items of a key in the order of the loops over the results and their lists.
abbrev pub items_of : Key → List Dependencies → List Ref
items_of key [] = []
items_of key (d ∷ ds) = d.lists key ++ items_of key ds

abbrev warnings_of : List Dependencies → List String
warnings_of [] = []
warnings_of (d ∷ ds) = d.warnings ++ warnings_of ds

-- `list(dict.fromkeys(warnings))`, with those that were there before
abbrev pub key_by : Bool → String → List String → (List String → List String) → List String
key_by true w seen rest = rest seen
key_by false w seen rest = w ∷ rest (w ∷ seen)

abbrev pub from_keys : List String → List String → List String
from_keys seen [] = []
from_keys seen (w ∷ ws) = key_by (any (str_eq w) seen) w seen (λ s. from_keys s ws)

-- The lists of different keys do not touch each other, so each is merged by itself.
unfoldable pub merge_dependencies : List Dependencies → Dependencies
unfolding merge_items
merge_dependencies ds = record {
  lists = λ key. merge_items [] [] (items_of key ds);
  warnings = from_keys [] (warnings_of ds);
}
