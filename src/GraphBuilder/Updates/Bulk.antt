-- ===== src/GraphBuilder/Updates/Bulk.antt =====
-- The bulk write of states is the single writes of the entities that have a node.
use hass_ontology_fix.Common.{
  ℕ, suc, ◌≡◌, refl, sym, ap, ◌∙◌, inl, inr, String, Bool, true, false, ◌&&◌, Option, none, some,
  is_some, List, [], ◌∷◌, ◌++◌, map, filter, All, Bool-cases, arith, str_eq, eq_iff,
}
use mathlib.Core.Path.{subst}
use mathlib.Core.List.{map-append, foldl-append}
use hass_ontology_fix.Common.Dict.{Dict}
use hass_ontology_fix.Common.Errors.{
  Exception, Result, ok, Action, ◌>>=◌, pure, is_ok, continue-ok, continue-of_ok,
}
use hass_ontology_fix.Common.Json.{Json}
use hass_ontology_fix.GraphBuilder.{chunks}
use hass_ontology_fix.GraphBuilder.Chunks.{concat, concat-chunks}
use hass_ontology_fix.GraphBuilder.Graph.{
  Properties, NodeKey, is_ref, Content, PropertyGraph, apply, apply_all, answer, send,
}
use hass_ontology_fix.GraphBuilder.Labels.{label_entity}
use hass_ontology_fix.GraphBuilder.Measurement.{Numbers}
use hass_ontology_fix.GraphBuilder.Registry.{Hass, EntitySyncContext}
use hass_ontology_fix.GraphBuilder.Rows.{WrittenEntity, entity_step}
use hass_ontology_fix.GraphBuilder.Updates.{
  is_present, write_states, state_rows, send_states, update_entity_states_bulk,
}

module _ {A : Type 0} where
  filter_append : (p : A → Bool) (xs ys : List A) → filter p (xs ++ ys) ≡ filter p xs ++ filter p ys
  filter_append p [] ys = refl
  filter_append p (x ∷ xs) ys = elim (Bool-cases (p x)) [
    | inl e ↦ rw e (ap (λ (l : List A). x ∷ l) (filter_append p xs ys))
    | inr e ↦ rw e (filter_append p xs ys)
  ]

  filter_same : (p q : A → Bool) (xs : List A) → ((x : A) → p x ≡ q x) → filter p xs ≡ filter q xs
  filter_same p q [] h = refl
  filter_same p q (x ∷ xs) h = ground (arith, h x, filter_same p q xs h)

  filter-All : (p : A → Bool) (xs : List A) → All (λ x. p x ≡ true) (filter p xs)
  filter-All p [] = tt
  filter-All p (x ∷ xs) = elim (Bool-cases (p x)) [
    | inl e ↦ rw e (e, filter-All p xs)
    | inr e ↦ rw e (filter-All p xs)
  ]

and_left : (a b : Bool) → a && b ≡ true → a ≡ true
and_left true b h = refl
and_left false b h = h

and_right : (a b : Bool) → a && b ≡ true → b ≡ true
and_right true b h = h
and_right false b h = absurd cc

same_node : (c : Content) (r q : NodeKey) → is_ref r q ≡ true → c.nodes r ≡ c.nodes q
same_node c r q h =
    ap (λ (l : String). c.nodes (record { label = l; ha_id = r.ha_id }))
      ((eq_iff r.label q.label).0 (and_left (str_eq r.label q.label) _ h))
    ∙ ap (λ (i : String). c.nodes (record { label = q.label; ha_id = i }))
        ((eq_iff r.ha_id q.ha_id).0 (and_right (str_eq r.label q.label) _ h))

-- Writing rows of entities that have a node makes no node.
one_same :
    (x : WrittenEntity) (c : Content) (r : NodeKey)
    → is_present c x ≡ true
    → is_some ((apply c (entity_step x)).nodes r) ≡ is_some (c.nodes r)
unfolding apply
one_same x c r h =
    let q : NodeKey = record { label = label_entity; ha_id = x.ha_id } in
    elim (Bool-cases (is_ref r q)) [
      | inl e ↦ rw e (sym (ap (λ (o : Option Properties). is_some o) (same_node c r q e) ∙ h))
      | inr e ↦ rw e refl
    ]

still_there :
    (x : WrittenEntity) (c : Content) (xs : List WrittenEntity)
    → is_present c x ≡ true
    → All (λ y. is_present c y ≡ true) xs
    → All (λ y. is_present (apply c (entity_step x)) y ≡ true) xs
still_there x c [] h k = tt
still_there x c (y ∷ ys) h (p, k) = (one_same x c _ h ∙ p, still_there x c ys h k)

All-apply_same :
    (xs : List WrittenEntity) (c : Content) (r : NodeKey)
    → All (λ x. is_present c x ≡ true) xs
    → is_some ((apply_all c (map entity_step xs)).nodes r) ≡ is_some (c.nodes r)
All-apply_same [] c r h = refl
All-apply_same (x ∷ xs) c r (p, h) =
    All-apply_same xs (apply c (entity_step x)) r (still_there x c xs p h) ∙ one_same x c r p

-- The ids and the graph after writing the rows that have a node.
abbrev pub matched : Content → List WrittenEntity → List WrittenEntity
matched c rows = filter (is_present c) rows

module _ (errors : ℕ → Option Exception) where
  answered :
      (rows : List WrittenEntity) (o : Option Exception) (g : PropertyGraph)
      → is_ok (answer o (write_states rows) g).0 ≡ true
      → ((answer o (write_states rows) g).0 ≡ ok (map (λ r. r.ha_id) (matched g.content rows)))
        × ((answer o (write_states rows) g).1.content
            ≡ apply_all g.content (map entity_step (matched g.content rows)))
  answered rows none g h = (refl, refl)
  answered rows (some e) g h = absurd cc

  matched_after :
      (rows others : List WrittenEntity) (c : Content)
      → matched (apply_all c (map entity_step (matched c rows))) others ≡ matched c others
  matched_after rows others c =
      filter_same _ _ others
        (λ x. All-apply_same (matched c rows) c _ (filter-All (is_present c) rows))

  send_states_exact :
      (batches : List (List WrittenEntity)) (g : PropertyGraph)
      → is_ok (send_states errors batches g).0 ≡ true
      → ((send_states errors batches g).0
          ≡ ok (map (λ r. r.ha_id) (matched g.content (concat batches))))
        × ((send_states errors batches g).1.content
            ≡ apply_all g.content (map entity_step (matched g.content (concat batches))))
  unfolding send_states send
  send_states_exact [] g h = (refl, refl)
  send_states_exact (rows ∷ rest) g h =
      let m = send errors (write_states rows) in
      let rest_of = send_states errors rest in
      let id_of = λ (r : WrittenEntity). r.ha_id in
      let c = g.content in
      let ids = map id_of (matched c rows) in
      let k2 : List String → List String → Action PropertyGraph (List String) =
        λ first others. pure (first ++ others) in
      let k : List String → Action PropertyGraph (List String) = λ first. rest_of >>= k2 first in
      let w = (m g).1 in
      let (_, p, _) = continue-ok (m g).0 k w h in
      let (e1, c1) = answered rows (errors g.sent) (record g { sent = suc g.sent }) (rw p refl) in
      let go = continue-of_ok (m g).0 k ids w e1 in
      let q : is_ok (k ids w).0 ≡ true =
        sym (ap (λ (x : Result (List String) × PropertyGraph). is_ok x.0) go) ∙ h in
      let (_, p2, _) = continue-ok (rest_of w).0 (k2 ids) (rest_of w).1 q in
      let (e2, c2) = send_states_exact rest w (rw p2 refl) in
      let go2 = continue-of_ok (rest_of w).0 (k2 ids) _ (rest_of w).1 e2 in
      let same : matched w.content (concat rest) ≡ matched c (concat rest) =
        ap (λ (d : Content). matched d (concat rest)) c1 ∙ matched_after rows (concat rest) c in
      let joined = sym (filter_append (is_present c) rows (concat rest)) in
      (
        ap (λ (x : Result (List String) × PropertyGraph). x.0) (go ∙ go2)
            ∙ ap (λ (l : List WrittenEntity). ok (ids ++ map id_of l)) same
            ∙ ap (λ (l : List String). ok l)
                (sym (map-append id_of (matched c rows) (matched c (concat rest))))
            ∙ ap (λ (l : List WrittenEntity). ok (map id_of l)) joined,
        ap (λ (x : Result (List String) × PropertyGraph). x.1.content) (go ∙ go2)
            ∙ c2
            ∙ ap (λ (l : List WrittenEntity). apply_all w.content (map entity_step l)) same
            ∙ ap (λ (d : Content). apply_all d (map entity_step (matched c (concat rest)))) c1
            ∙ sym (
                foldl-append apply c (map entity_step (matched c rows))
                  (map entity_step (matched c (concat rest))))
            ∙ ap (apply_all c)
                (sym (map-append entity_step (matched c rows) (matched c (concat rest))))
            ∙ ap (λ (l : List WrittenEntity). apply_all c (map entity_step l)) joined,
      )

-- A bulk write of states that returns gives the ids of those entities that have a node, in their order, and
-- has written them one by one, and nothing else.
pub update_entity_states_bulk_exact :
    {Time F : Type 0} (numbers : Numbers Time F) (json_of_float : F → Json)
    (errors : ℕ → Option Exception) (hass : Hass Time)
    (contexts : Dict (Option (EntitySyncContext Time))) (g : PropertyGraph)
    → let written = matched g.content (state_rows numbers json_of_float hass contexts) in
      is_ok (update_entity_states_bulk numbers json_of_float errors hass contexts g).0 ≡ true
      → ((update_entity_states_bulk numbers json_of_float errors hass contexts g).0
          ≡ ok (map (λ r. r.ha_id) written))
        × ((update_entity_states_bulk numbers json_of_float errors hass contexts g).1.content
            ≡ apply_all g.content (map entity_step written))
unfolding update_entity_states_bulk
update_entity_states_bulk_exact numbers json_of_float errors hass contexts g returned =
    let rows = state_rows numbers json_of_float hass contexts in
    subst
      (λ (l : List WrittenEntity).
        ((send_states errors (chunks rows) g).0 ≡ ok (map (λ r. r.ha_id) (matched g.content l)))
        × ((send_states errors (chunks rows) g).1.content
            ≡ apply_all g.content (map entity_step (matched g.content l))))
      (concat-chunks rows) (send_states_exact errors (chunks rows) g returned)
