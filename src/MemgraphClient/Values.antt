-- ===== src/MemgraphClient/Values.antt =====
-- `_serialize_value` and `_serialize_record` (custom_components/ontology/memgraph_client.py): what the
-- driver decodes, made fit for JSON.
use hass_ontology_fix.Common.{String, Bool, ◌≡◌, refl, Option, none, some, List, [], ◌∷◌}

-- The values that the function leaves alone; a number is known by its literal.
pub data Scalar : Type 0 where
  null : Scalar
  text number : String → Scalar
  boolean : Bool → Scalar

-- `temporal` has its `iso_format()`, `other` its `str()`; a relationship may lack its ends.
mutual
  pub data Value : Type 0 where
    scalar : Scalar → Value
    node : String → List String → Fields → Value
    relationship : String → String → Option String → Option String → Fields → Value
    path : Items → Items → Value
    dict : Fields → Value
    list : Items → Value
    temporal other : String → Value

  pub data Items : Type 0 where
    nil : Items
    cons : Value → Items → Items

  pub data Fields : Type 0 where
    end : Fields
    field : String → Value → Fields → Fields

abbrev texts : List String → Items
texts [] = nil
texts (s ∷ ss) = cons (scalar (text s)) (texts ss)

abbrev id_or_none : Option String → Value
id_or_none none = scalar null
id_or_none (some id) = scalar (text id)

-- `sorted` puts the labels, which have no order, in one.
module _ (sorted : List String → List String) where
  unfoldable mutual
    pub serialize_value : Value → Value
    serialize_value (scalar s) = scalar s
    serialize_value (node element_id labels properties) = dict (
        field "element_id" (scalar (text element_id)) (
          field "labels" (list (texts (sorted labels)))
            (field "properties" (dict (serialize_fields properties)) end)))
    serialize_value (relationship element_id type start stop properties) = dict (
        field "element_id" (scalar (text element_id)) (
          field "type" (scalar (text type)) (
            field "start_node_element_id" (id_or_none start) (
              field "end_node_element_id" (id_or_none stop)
                (field "properties" (dict (serialize_fields properties)) end)))))
    serialize_value (path nodes relationships) = dict (
        field "nodes" (list (serialize_items nodes))
          (field "relationships" (list (serialize_items relationships)) end))
    serialize_value (dict fields) = dict (serialize_fields fields)
    serialize_value (list items) = list (serialize_items items)
    serialize_value (temporal s) = scalar (text s)
    serialize_value (other s) = scalar (text s)

    pub serialize_items : Items → Items
    serialize_items nil = nil
    serialize_items (cons v vs) = cons (serialize_value v) (serialize_items vs)

    -- `_serialize_record` too: a record is a list of named values.
    pub serialize_fields : Fields → Fields
    serialize_fields end = end
    serialize_fields (field key v fs) = field key (serialize_value v) (serialize_fields fs)

-- What JSON can hold: scalars, lists and dictionaries of such.
mutual
  pub IsPlain : Value → Type 0
  IsPlain (scalar s) = Unit
  IsPlain (dict fields) = IsPlainFields fields
  IsPlain (list items) = IsPlainItems items
  IsPlain _ = ⊥

  pub IsPlainItems : Items → Type 0
  IsPlainItems nil = Unit
  IsPlainItems (cons v vs) = IsPlain v × IsPlainItems vs

  pub IsPlainFields : Fields → Type 0
  IsPlainFields end = Unit
  IsPlainFields (field key v fs) = IsPlain v × IsPlainFields fs

texts-IsPlain : (ss : List String) → IsPlainItems (texts ss)
unfolding IsPlain
texts-IsPlain [] = tt
texts-IsPlain (s ∷ ss) = (tt, texts-IsPlain ss)

id_or_none-IsPlain : (o : Option String) → IsPlain (id_or_none o)
unfolding IsPlain
id_or_none-IsPlain none = tt
id_or_none-IsPlain (some id) = tt

module _ (sorted : List String → List String) where
  mutual
    unfolding serialize_value IsPlain

    value-IsPlain : (v : Value) → IsPlain (serialize_value sorted v)
    value-IsPlain (scalar s) = tt
    value-IsPlain (node i ls ps) = (tt, (texts-IsPlain (sorted ls), (fields-IsPlain ps, tt)))
    value-IsPlain (relationship i t a b ps) =
        (tt, (tt, (id_or_none-IsPlain a, (id_or_none-IsPlain b, (fields-IsPlain ps, tt)))))
    value-IsPlain (path ns rs) = (items-IsPlain ns, (items-IsPlain rs, tt))
    value-IsPlain (dict fs) = fields-IsPlain fs
    value-IsPlain (list vs) = items-IsPlain vs
    value-IsPlain (temporal s) = tt
    value-IsPlain (other s) = tt

    items-IsPlain : (vs : Items) → IsPlainItems (serialize_items sorted vs)
    items-IsPlain nil = tt
    items-IsPlain (cons v vs) = (value-IsPlain v, items-IsPlain vs)

    fields-IsPlain : (fs : Fields) → IsPlainFields (serialize_fields sorted fs)
    fields-IsPlain end = tt
    fields-IsPlain (field k v fs) = (value-IsPlain v, fields-IsPlain fs)

  mutual
    unfolding serialize_value IsPlain

    plain_value : (v : Value) → IsPlain v → serialize_value sorted v ≡ v
    plain_value (scalar s) h = refl
    plain_value (dict fs) h = rw (plain_fields fs h)
    plain_value (list vs) h = rw (plain_items vs h)
    plain_value (node i ls ps) h = absurd h
    plain_value (relationship i t a b ps) h = absurd h
    plain_value (path ns rs) h = absurd h
    plain_value (temporal s) h = absurd h
    plain_value (other s) h = absurd h

    plain_items : (vs : Items) → IsPlainItems vs → serialize_items sorted vs ≡ vs
    plain_items nil h = refl
    plain_items (cons v vs) (h, hs) = rw (plain_value v h, plain_items vs hs)

    plain_fields : (fs : Fields) → IsPlainFields fs → serialize_fields sorted fs ≡ fs
    plain_fields end h = refl
    plain_fields (field k v fs) (h, hs) = rw (plain_value v h, plain_fields fs hs)

  -- What serialization makes of any value is fit for JSON, and a second serialization changes nothing.
  pub serialize-IsPlain :
      (v : Value)
      → IsPlain (serialize_value sorted v)
        × (serialize_value sorted (serialize_value sorted v) ≡ serialize_value sorted v)
  serialize-IsPlain v = (value-IsPlain v, plain_value (serialize_value sorted v) (value-IsPlain v))
