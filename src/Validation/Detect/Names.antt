-- ===== src/Validation/Detect/Names.antt =====
-- The groups of entities of one name that `_detect_duplicate_entity` passes over: one device seen under
-- several domains.
use Prim.Native.Char.{code}
use hass_ontology_fix.Common.{
  ◌==◌, ◌≡◌, ◌↔◌, refl, sym, ◌∙◌, String, Bool, true, false, ◌||◌, Option, none, some, List, [],
  ◌∷◌, any, length, str_eq, eq_iff, leb, if◌then◌else◌, arith,
}
use hass_ontology_fix.Validation.{add_once, any-add_once}

-- `ha_id.split(".", 1)[1]`, of an id with a dot.
abbrev pub object_id : String → Option String
object_id String.[] = none
object_id (String.◌∷◌ c s) = let rest = object_id s in if code c == 46 then some s else rest

abbrev add_object : Option String → List String → List String
add_object none ids = ids
add_object (some id) ids = add_once id ids

abbrev object_ids : List String → List String
object_ids [] = []
object_ids (ha_id ∷ ids) = add_object (object_id ha_id) (object_ids ids)

unfoldable pub expose_pair : List String → Bool
expose_pair ids = leb (length (object_ids ids)) 1

-- Some id of the list has this object id.
abbrev has_object : String → Option String → Bool
has_object id none = false
has_object id (some o) = str_eq id o

abbrev pub IsObjectOf : String → List String → Type 0
IsObjectOf id ids = any (λ ha_id. has_object id (object_id ha_id)) ids ≡ true

any-add_object :
    (k : String) (o : Option String) (ids : List String)
    → any (str_eq k) (add_object o ids) ≡ (has_object k o || any (str_eq k) ids)
any-add_object k none ids = refl
any-add_object k (some id) ids = any-add_once k id ids

any-object_ids :
    (k : String) (ids : List String)
    → any (str_eq k) (object_ids ids) ≡ any (λ ha_id. has_object k (object_id ha_id)) ids
any-object_ids k [] = refl
any-object_ids k (ha_id ∷ ids) =
    ground (arith, any-add_object k (object_id ha_id) (object_ids ids), any-object_ids k ids)

one_member :
    (a b : String) (xs : List String)
    → leb (length xs) 1 ≡ true
    → any (str_eq a) xs ≡ true
    → any (str_eq b) xs ≡ true
    → a ≡ b
one_member a b [] h p q = absurd (ground (arith, p))
one_member a b (x ∷ []) h p q =
    (eq_iff a x).0 (ground (arith, p)) ∙ sym ((eq_iff b x).0 (ground (arith, q)))
one_member a b (x ∷ y ∷ xs) h p q = absurd (ground (arith, h))

-- Adding a member that may not differ from the others keeps a set at one member.
add_alike :
    (o : String) (xs : List String)
    → leb (length xs) 1 ≡ true
    → ((a : String) → any (str_eq a) xs ≡ true → o ≡ a)
    → leb (length (add_once o xs)) 1 ≡ true
add_alike o [] h f = refl
add_alike o (x ∷ []) h f =
    let same = (eq_iff o x).1 (f x (ground (arith, (eq_iff x x).1 refl))) in rw same refl
add_alike o (x ∷ y ∷ xs) h f = absurd (ground (arith, h))

alike_object :
    (o : Option String) (xs : List String)
    → leb (length xs) 1 ≡ true
    → ((a b : String)
        → any (str_eq a) (add_object o xs) ≡ true
        → any (str_eq b) (add_object o xs) ≡ true
        → a ≡ b)
    → leb (length (add_object o xs)) 1 ≡ true
alike_object none xs h f = h
alike_object (some o) xs h f = add_alike o xs h (λ a p.
    f o a (any-add_once o o xs ∙ rw ((eq_iff o o).1 refl) refl)
      (any-add_once a o xs ∙ ground (arith, p)))

alike :
    (ids : List String)
    → ((a b : String)
        → any (str_eq a) (object_ids ids) ≡ true
        → any (str_eq b) (object_ids ids) ≡ true
        → a ≡ b)
    → leb (length (object_ids ids)) 1 ≡ true
alike [] f = refl
alike (ha_id ∷ ids) f =
    alike_object (object_id ha_id) (object_ids ids)
      (alike ids (λ a b p q.
        f a b (any-add_object a (object_id ha_id) (object_ids ids) ∙ ground (arith, p))
          (any-add_object b (object_id ha_id) (object_ids ids) ∙ ground (arith, q))))
      f

-- A group of entities with one name is passed over exactly if the ids in it that have a dot all have
-- the same object id after it.
pub expose_pair_exact :
    (ids : List String)
    → (expose_pair ids ≡ true) ↔ ((a b : String) → IsObjectOf a ids → IsObjectOf b ids → a ≡ b)
unfolding expose_pair
expose_pair_exact ids = (
  λ h a b p q.
      one_member a b (object_ids ids) h (any-object_ids a ids ∙ p) (any-object_ids b ids ∙ q),
  λ f.
      alike ids
        (λ a b p q. f a b (sym (any-object_ids a ids) ∙ p) (sym (any-object_ids b ids) ∙ q)),
)
