-- ===== src/GraphBuilder/Chunks.antt =====
-- The batches that a bulk write sends.
use hass_ontology_fix.Common.{
  ℕ, zero, suc, ◌+◌, ◌*◌, ◌/◌, ◌≤◌, ◌<◌, ◌≡◌, refl, sym, ap, ◌∙◌, List, [], ◌∷◌, ◌++◌, take, drop,
  length, map, length-take, length-drop, take-append-drop, drop-drop, All, append-nil, append_assoc,
  String, true, Bool-cases, inl, inr, arith,
}
use hass_ontology_fix.Common.Errors.{Result, is_ok, continue-ok, continue-of_ok}
use hass_ontology_fix.GraphBuilder.{
  NodeRow, Client, is_safe_label, checked_label, send_nodes, merge_nodes_bulk, bulk_batch_size,
  chunks_from, chunks,
}

abbrev pub concat : {A : Type 0} → List (List A) → List A
concat [] = []
concat (xs ∷ xss) = xs ++ concat xss

-- A batch that is not empty and not over the limit.
abbrev pub IsBatch : {A : Type 0} → List A → Type 0
IsBatch chunk = (1 ≤ length chunk) × (length chunk ≤ bulk_batch_size)

module _ {A : Type 0} where
  drop-past : (n : ℕ) (xs : List A) → length xs ≤ n → drop n xs ≡ []
  drop-past zero [] h = refl
  drop-past zero (x ∷ xs) h = absurd (omega (arith, h))
  drop-past (suc n) [] h = refl
  drop-past (suc n) (x ∷ xs) h = drop-past n xs (omega (arith, h))

  concat-chunks_from :
      (n i : ℕ) (rows : List A)
      → length rows ≤ i + 250 * n
      → concat (chunks_from n i rows) ≡ drop i rows
  unfolding chunks_from
  concat-chunks_from zero i rows h = sym (drop-past i rows (omega (arith, h)))
  concat-chunks_from (suc n) i rows h =
      ap (λ (xs : List A). take bulk_batch_size (drop i rows) ++ xs)
        (concat-chunks_from n (i + bulk_batch_size) rows (omega (arith, h))
          ∙ sym (drop-drop bulk_batch_size i rows))
      ∙ take-append-drop bulk_batch_size (drop i rows)

  chunks_from-IsBatch :
      (n i : ℕ) (rows : List A)
      → i + 250 * n < length rows + 250
      → All IsBatch (chunks_from n i rows)
  unfolding chunks_from
  chunks_from-IsBatch zero i rows h = tt
  chunks_from-IsBatch (suc n) i rows h =
      let size = length-take bulk_batch_size (drop i rows) in
      let left = length-drop i rows in
      (
        (omega (arith, h, size, left), omega (arith, size)),
        chunks_from-IsBatch n (i + bulk_batch_size) rows (omega (arith, h)),
      )

  pub concat-chunks : (rows : List A) → concat (chunks rows) ≡ rows
  unfolding chunks
  concat-chunks rows = concat-chunks_from ((length rows + 249) / 250) 0 rows (omega arith)

  chunks-IsBatch : (rows : List A) → All IsBatch (chunks rows)
  unfolding chunks
  chunks-IsBatch rows = chunks_from-IsBatch ((length rows + 249) / 250) 0 rows (omega arith)

-- What a bulk query carries: the label of its nodes, their source and its rows.
abbrev pub Query : Type 0
Query = String × (String × List NodeRow)

-- A query that is answered is the next in the log.
abbrev pub IsLogged : {W : Type 0} → Client W → (W → List Query) → Type 0
IsLogged {W} client queries =
    (label source : String) (chunk : List NodeRow) (w : W)
    → is_ok (client.merge_nodes label chunk source w).0 ≡ true
    → queries (client.merge_nodes label chunk source w).1
      ≡ queries w ++ ((label, (source, chunk)) ∷ [])

module _ {W : Type 0} (client : Client W) (queries : W → List Query)
    (logs : IsLogged client queries) (label source : String) where
  abbrev query : List NodeRow → Query
  query chunk = (label, (source, chunk))

  send_nodes-logged :
      (batches : List (List NodeRow)) (w : W)
      → is_ok (send_nodes client label source batches w).0 ≡ true
      → queries (send_nodes client label source batches w).1 ≡ queries w ++ map query batches
  unfolding send_nodes
  send_nodes-logged [] w h = sym (append-nil (queries w))
  send_nodes-logged (batch ∷ rest) w h =
      let first = client.merge_nodes label batch source w in
      let next = λ (u : Unit {0}). send_nodes client label source rest in
      let (u, p, q) = continue-ok first.0 next first.1 h in
      let one = logs label source batch w (rw p refl) in
      ap (λ (x : Result (Unit {0}) × W). queries x.1) (continue-of_ok first.0 next u first.1 p)
      ∙ send_nodes-logged rest first.1 q
      ∙ ap (λ (before : List Query). before ++ map query rest) one
      ∙ append_assoc (queries w) (query batch ∷ []) (map query rest)

  checked_keeps : (w : W) → (checked_label client label w).1 ≡ w
  checked_keeps w = elim (Bool-cases (is_safe_label label)) [
    | inl e ↦ rw e refl
    | inr e ↦ rw e refl
  ]

  -- Where each answered query is the next in the log, the queries that a bulk write of nodes has added
  -- to the log when it returns carry the given label and source and batches of rows. No batch is
  -- empty or has more than 250 rows, and one after the other they are the given rows, in their order.
  pub merge_nodes_bulk_exact :
      (nodes : List NodeRow) (w : W)
      → is_ok (merge_nodes_bulk client label nodes source w).0 ≡ true
      → (batches : List (List NodeRow)) × (queries (merge_nodes_bulk client label nodes source w).1
          ≡ queries w ++ map (λ chunk. (label, (source, chunk))) batches)
        × (concat batches ≡ nodes)
        × All IsBatch batches
  unfolding merge_nodes_bulk
  merge_nodes_bulk_exact nodes w h =
      let first = checked_label client label w in
      let next = λ (u : Unit {0}). send_nodes client label source (chunks nodes) in
      let (u, p, q) = continue-ok first.0 next first.1 h in
      (
        chunks nodes,
        ap (λ (x : Result (Unit {0}) × W). queries x.1) (continue-of_ok first.0 next u first.1 p)
            ∙ send_nodes-logged (chunks nodes) first.1 q
            ∙ ap (λ (v : W). queries v ++ map query (chunks nodes)) (checked_keeps w),
        concat-chunks nodes,
        chunks-IsBatch nodes,
      )
