-- ===== src/GraphBuilder/Writes.antt =====
-- Actions on the graph that carry out a list of writes, in order, and stop in it where the client raises.
use hass_ontology_fix.Common.{
  ℕ, suc, ◌≤◌, ◌<◌, leb, arith, Bool-cases, Option-cases, ◌≡◌, refl, sym, ap, ◌∙◌, ◌⊎◌, inl, inr,
  String, true, Option, none, some, List, [], ◌∷◌, ◌++◌, map, append_assoc,
}
use mathlib.Core.Path.{subst}
use mathlib.Core.List.{foldl-append, map-append}
use hass_ontology_fix.Common.Errors.{
  Exception, Result, ok, err, Action, ◌>>=◌, ◌>>◌, pure, continue-of_ok, continue-of_err,
}
use hass_ontology_fix.GraphBuilder.{
  NodeRow, PairRow, is_safe_label, chunks, send_nodes, merge_nodes_bulk, send_pairs,
  merge_relationships_bulk,
}
use hass_ontology_fix.GraphBuilder.Chunks.{concat, concat-chunks}
use hass_ontology_fix.GraphBuilder.Labels.{source_home_assistant}
use hass_ontology_fix.GraphBuilder.Graph.{
  PropertyGraph, Content, Step, apply, apply_all, send, write, graph_client, node_step, pair_step,
}
use hass_ontology_fix.GraphBuilder.Discovery.{write_chunks, nodes_bulk, pairs_bulk}

-- The client answers the queries from the one number up to, and without, the other.
abbrev pub AreAnswered : (ℕ → Option Exception) → ℕ → ℕ → Type 0
AreAnswered errors start end = (start ≤ end) × ((n : ℕ) → start ≤ n → n < end → errors n ≡ none)

-- The client raises the exception at the last of these queries, and answers those before it.
abbrev pub RaisesLast : (ℕ → Option Exception) → Exception → ℕ → ℕ → Type 0
RaisesLast errors e start end =
    (last : ℕ) × (errors last ≡ some e) × AreAnswered errors start last × (end ≡ suc last)

AreAnswered-trans :
    (errors : ℕ → Option Exception) (a b c : ℕ)
    → AreAnswered errors a b
    → AreAnswered errors b c
    → AreAnswered errors a c
AreAnswered-trans errors a b c (h, k) (h', k') = (
  omega (arith, h, h'),
  λ n from to. elim (Bool-cases (leb b n)) [
    | inl q ↦ k' n (ground (arith, q)) to
    | inr q ↦ k n from (ground (arith, q))
  ],
)

-- The action returns this value and has made these writes, and the client answered every query that it
-- sent; or the client raised at the last query that was sent, the action raises that exception, and
-- it has made a first part of the writes.
abbrev pub Writes :
    (ℕ → Option Exception) → {A : Type 0} → Action PropertyGraph A → A → List Step → Type 0
Writes errors m a steps =
    (g : PropertyGraph)
    → (((m g).0 ≡ ok a)
        × ((m g).1.content ≡ apply_all g.content steps)
        × AreAnswered errors g.sent (m g).1.sent)
      ⊎ ((e : Exception) × (done : List Step) × (rest : List Step) × ((m g).0 ≡ err e)
          × (done ++ rest ≡ steps)
          × ((m g).1.content ≡ apply_all g.content done)
          × RaisesLast errors e g.sent (m g).1.sent)

module _ {errors : ℕ → Option Exception} {A B : Type 0} where
  pub bind-Writes :
      (m : Action PropertyGraph A) (k : A → Action PropertyGraph B) (a : A) (b : B)
      (steps more : List Step)
      → Writes errors m a steps
      → Writes errors (k a) b more
      → Writes errors (m >>= k) b (steps ++ more)
  bind-Writes m k a b steps more hm hk g = elim (hm g) [
    | inl (p, c, w) ↦
        let go = continue-of_ok (m g).0 k a (m g).1 p in
        let all =
          ap (λ (start : Content). apply_all start more) c
          ∙ sym (foldl-append apply g.content steps more) in
        elim (hk (m g).1) [
          | inl (q, d, v) ↦ inl (
            ap (λ (x : Result B × PropertyGraph). x.0) go ∙ q,
            ap (λ (x : Result B × PropertyGraph). x.1.content) go ∙ d ∙ all,
            subst (AreAnswered errors g.sent)
                (sym (ap (λ (x : Result B × PropertyGraph). x.1.sent) go))
                (AreAnswered-trans errors g.sent (m g).1.sent (k a (m g).1).1.sent w v),
          )
          | inr (e, done, rest, q, s, d, (last, raised, v, n)) ↦ inr (
            e,
            steps ++ done,
            rest,
            ap (λ (x : Result B × PropertyGraph). x.0) go ∙ q,
            append_assoc steps done rest ∙ ap (λ (l : List Step). steps ++ l) s,
            ap (λ (x : Result B × PropertyGraph). x.1.content) go
                ∙ d
                ∙ ap (λ (start : Content). apply_all start done) c
                ∙ sym (foldl-append apply g.content steps done),
            (
              last,
              raised,
              AreAnswered-trans errors g.sent (m g).1.sent last w v,
              ap (λ (x : Result B × PropertyGraph). x.1.sent) go ∙ n,
            ),
          )
        ]
    | inr (e, done, rest, p, s, c, (last, raised, w, n)) ↦
        let stop = continue-of_err (m g).0 k e (m g).1 p in
        inr (
          e,
          done,
          rest ++ more,
          ap (λ (x : Result B × PropertyGraph). x.0) stop,
          sym (append_assoc done rest more) ∙ ap (λ (l : List Step). l ++ more) s,
          ap (λ (x : Result B × PropertyGraph). x.1.content) stop ∙ c,
          (last, raised, w, ap (λ (x : Result B × PropertyGraph). x.1.sent) stop ∙ n),
        )
  ]

AreAnswered-none : (errors : ℕ → Option Exception) (n : ℕ) → AreAnswered errors n n
AreAnswered-none errors n = (omega arith, λ m from to. absurd (omega (arith, from, to)))

pub pure-Writes : {errors : ℕ → Option Exception} {A : Type 0} (a : A) → Writes errors (pure a) a []
pure-Writes {errors} a g = inl (refl, refl, AreAnswered-none errors g.sent)

module _ (errors : ℕ → Option Exception) where
  AreAnswered-one : (n : ℕ) → errors n ≡ none → AreAnswered errors n (suc n)
  AreAnswered-one n h =
      (omega arith, λ m from to. ap errors (let same : m ≡ n = omega (arith, from, to) in same) ∙ h)

  pub write-Writes : (steps : List Step) → Writes errors (write errors steps) tt steps
  unfolding write send
  write-Writes steps g = elim (Option-cases (errors g.sent)) [
    | inl h ↦ rw h (inl (refl, refl, AreAnswered-one g.sent h))
    | inr (e, h) ↦
        rw h
          (inr (e, [], steps, refl, refl, refl, (g.sent, h, AreAnswered-none errors g.sent, refl)))
  ]

  pub then-Writes :
      {B : Type 0} (m : Action PropertyGraph (Unit {0})) (k : Action PropertyGraph B) (b : B)
      (steps more : List Step)
      → Writes errors m tt steps
      → Writes errors k b more
      → Writes errors (m >> k) b (steps ++ more)
  then-Writes m k b steps more hm hk = bind-Writes m (λ _. k) tt b steps more hm hk

  batch-Writes :
      {A : Type 0} (step : A → Step) (batch rest : List A) (k : Action PropertyGraph (Unit {0}))
      → Writes errors k tt (map step rest)
      → Writes errors (write errors (map step batch) >> k) tt (map step (batch ++ rest))
  batch-Writes step batch rest k h =
      subst (λ (steps : List Step). Writes errors (write errors (map step batch) >> k) tt steps)
        (sym (map-append step batch rest))
        (then-Writes (write errors (map step batch)) k tt (map step batch) (map step rest)
          (write-Writes (map step batch)) h)

  module _ {A : Type 0} (step : A → Step) where
    batches-Writes :
        (batches : List (List A))
        → Writes errors (write_chunks errors step batches) tt (map step (concat batches))
    unfolding write_chunks
    batches-Writes [] = pure-Writes tt
    batches-Writes (batch ∷ rest) =
        batch-Writes step batch (concat rest) (write_chunks errors step rest) (batches-Writes rest)

    pub write_chunks-Writes :
        (rows : List A) → Writes errors (write_chunks errors step (chunks rows)) tt (map step rows)
    write_chunks-Writes rows =
        subst
          (λ (l : List A). Writes errors (write_chunks errors step (chunks rows)) tt (map step l))
          (concat-chunks rows) (batches-Writes (chunks rows))

  send_nodes-Writes :
      (label source : String) (batches : List (List NodeRow))
      → Writes errors
          (send_nodes (graph_client errors) label source batches)
          tt
          (map (node_step label source) (concat batches))
  unfolding send_nodes
  send_nodes-Writes label source [] = pure-Writes tt
  send_nodes-Writes label source (batch ∷ rest) =
      batch-Writes (node_step label source) batch (concat rest)
        (send_nodes (graph_client errors) label source rest) (send_nodes-Writes label source rest)

  send_pairs-Writes :
      (from type to source : String) (batches : List (List PairRow))
      → Writes errors
          (send_pairs (graph_client errors) from type to source batches)
          tt
          (map (pair_step from type to source) (concat batches))
  unfolding send_pairs
  send_pairs-Writes from type to source [] = pure-Writes tt
  send_pairs-Writes from type to source (batch ∷ rest) =
      batch-Writes (pair_step from type to source) batch (concat rest)
        (send_pairs (graph_client errors) from type to source rest)
        (send_pairs-Writes from type to source rest)

  pub nodes-Writes :
      (label source : String) (rows : List NodeRow)
      → is_safe_label label ≡ true
      → Writes errors
          (merge_nodes_bulk (graph_client errors) label rows source)
          tt
          (map (node_step label source) rows)
  unfolding merge_nodes_bulk
  nodes-Writes label source rows safe = rw safe (
      subst
        (λ (l : List NodeRow).
          Writes errors (send_nodes (graph_client errors) label source (chunks rows)) tt
            (map (node_step label source) l))
        (concat-chunks rows) (send_nodes-Writes label source (chunks rows)))

  pub pairs-Writes :
      (from type to source : String) (rows : List PairRow)
      → is_safe_label from ≡ true
      → is_safe_label to ≡ true
      → is_safe_label type ≡ true
      → Writes errors
          (merge_relationships_bulk (graph_client errors) from type to rows source)
          tt
          (map (pair_step from type to source) rows)
  unfolding merge_relationships_bulk
  pairs-Writes from type to source rows safe safe_to safe_type =
      rw (safe, safe_to, safe_type)
        (subst
          (λ (l : List PairRow).
            Writes errors (send_pairs (graph_client errors) from type to source (chunks rows)) tt
              (map (pair_step from type to source) l))
          (concat-chunks rows) (send_pairs-Writes from type to source (chunks rows)))

-- A call and the writes that it makes. Calls that are made one after the other, with what follows.
pub record Stage (errors : ℕ → Option Exception) : Type 1 where
  pub Returned : Type 0
  pub call : Action PropertyGraph Returned
  pub value : Returned
  pub steps : List Step
  pub makes : Writes errors call value steps

abbrev pub steps_of : {errors : ℕ → Option Exception} → List (Stage errors) → List Step → List Step
steps_of [] more = more
steps_of (s ∷ stages) more = s.steps ++ steps_of stages more

module _ {errors : ℕ → Option Exception} {B : Type 0} where
  abbrev pub calls : List (Stage errors) → Action PropertyGraph B → Action PropertyGraph B
  calls [] k = k
  calls (s ∷ stages) k = s.call >> calls stages k

  pub calls-Writes :
      (stages : List (Stage errors)) (k : Action PropertyGraph B) (b : B) (more : List Step)
      → Writes errors k b more
      → Writes errors (calls stages k) b (steps_of stages more)
  calls-Writes [] k b more h = h
  calls-Writes (s ∷ stages) k b more h =
      bind-Writes s.call (λ _. calls stages k) s.value b s.steps (steps_of stages more) s.makes
        (calls-Writes stages k b more h)

module _ (errors : ℕ → Option Exception) where
  abbrev pub nodes_stage :
      (label : String) (rows : List NodeRow) → is_safe_label label ≡ true → Stage errors
  nodes_stage label rows safe = record {
    Returned = Unit {0};
    call = nodes_bulk errors label rows;
    value = tt;
    steps = map (node_step label source_home_assistant) rows;
    makes = nodes-Writes errors label source_home_assistant rows safe;
  }

  abbrev pub pairs_stage :
      (from type to : String) (rows : List PairRow)
      → is_safe_label from ≡ true
      → is_safe_label to ≡ true
      → is_safe_label type ≡ true
      → Stage errors
  pairs_stage from type to rows safe safe_to safe_type = record {
    Returned = Unit {0};
    call = pairs_bulk errors from type to rows;
    value = tt;
    steps = map (pair_step from type to source_home_assistant) rows;
    makes = pairs-Writes errors from type to source_home_assistant rows safe safe_to safe_type;
  }

  abbrev pub chunks_stage : {A : Type 0} → (A → Step) → List A → Stage errors
  chunks_stage step rows = record {
    Returned = Unit {0};
    call = write_chunks errors step (chunks rows);
    value = tt;
    steps = map step rows;
    makes = write_chunks-Writes errors step rows;
  }
