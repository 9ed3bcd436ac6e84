-- ===== src/Impact/Distinct.antt =====
-- A merge keeps the first hundred distinct dependents of each kind.
use hass_ontology_fix.Common.{
  ℕ, zero, suc, ◌-◌, ltb, length, length-append, append-nil, append_assoc, if◌then◌else◌, take,
  ◌++◌, ◌≡◌, refl, sym, ◌∙◌, String, true, false, Option, List, [], ◌∷◌, Bool-cases, inl, inr,
  arith,
}
use hass_ontology_fix.QueryService.{default_query_limit}
use hass_ontology_fix.Impact.Merge.{
  Key, Ref, Dependencies, is_seen, append_below_limit, merge_items, items_of, merge_dependencies,
}

-- The first item of each id, but for the ids that were seen.
abbrev pub first_of_each : List (Option String) → List Ref → List Ref
first_of_each seen [] = []
first_of_each seen (item ∷ items) =
    if is_seen item.ha_id seen
    then first_of_each seen items
    else item ∷ first_of_each (item.ha_id ∷ seen) items

take-nil : {A : Type 0} (n : ℕ) → take {A = A} n [] ≡ []
take-nil zero = refl
take-nil (suc n) = refl

-- What is still taken of the items when so many were merged.
room :
    (n : ℕ) (merged : List Ref) (item : Ref) (rest : List Ref)
    → n ≡ default_query_limit - length merged
    → append_below_limit merged item
        ++ take (default_query_limit - length (append_below_limit merged item)) rest
      ≡ merged ++ take n (item ∷ rest)
room zero merged item rest h =
    let full : ltb (length merged) default_query_limit ≡ false = ground (arith, h) in
    rw (full, sym h) refl
room (suc n) merged item rest h =
    let below : ltb (length merged) default_query_limit ≡ true = ground (arith, h) in
    let left : default_query_limit - length (merged ++ (item ∷ [])) ≡ n =
      omega (arith, h, length-append merged (item ∷ [])) in
    rw (below, left) (append_assoc merged (item ∷ []) (take n rest))

merge_items_lem :
    (merged : List Ref) (seen : List (Option String)) (items : List Ref)
    → merge_items merged seen items
      ≡ merged ++ take (default_query_limit - length merged) (first_of_each seen items)
unfolding merge_items
merge_items_lem merged seen [] =
    rw (take-nil {A = Ref} (default_query_limit - length merged)) (sym (append-nil merged))
merge_items_lem merged seen (item ∷ items) = elim (Bool-cases (is_seen item.ha_id seen)) [
  | inl e ↦ rw e (merge_items_lem merged seen items)
  | inr e ↦ rw e (
      merge_items_lem (append_below_limit merged item) (item.ha_id ∷ seen) items
      ∙ room (default_query_limit - length merged) merged item
          (first_of_each (item.ha_id ∷ seen) items) refl)
]

-- A merge of the dependents of several nodes has, of each kind, the first hundred of those that are left
-- when only the first with each id stays.
pub merge_dependencies_exact :
    (ds : List Dependencies) (key : Key)
    → (merge_dependencies ds).lists key
      ≡ take default_query_limit (first_of_each [] (items_of key ds))
unfolding merge_dependencies
merge_dependencies_exact ds key = merge_items_lem [] [] (items_of key ds)
