-- ===== src/MemgraphClient/Tests.antt =====
-- Runs of the client, and the theorems at some of them. A driver whose world is a script of answers and a log of sleeps.
use hass_ontology_fix.Common.{ℕ, ◌+◌, ◌<◌, ◌≡◌, refl, ◌⊎◌, true, false, List, [], ◌∷◌}
use hass_ontology_fix.Common.Errors.{transient_error, Exception, Result, ok, err}
use hass_ontology_fix.MemgraphClient.{
  Stream, done, record_of, Driver, max_attempts, is_retried, normalize, run_query_limited,
  run_query_with_retry,
}
use hass_ontology_fix.MemgraphClient.Retry.{attempt, fails_for_now, retry_exact}
use hass_ontology_fix.MemgraphClient.Limit.{complete, stream, run_query_limited_exact}
use hass_ontology_fix.MemgraphClient.Values.{Value, node, list, temporal, field, end, cons, nil}

record World : Type 0 where
  answers : List (Result (Stream ℕ))
  sleeps : List ℕ

abbrev conflict : Exception
conflict = record { class = transient_error; message = "conflict" }

abbrev answer : World → Result (Stream ℕ) × World
answer w = elim w.answers [ [] ↦ (ok done, w) | r ∷ rest ↦ (r, record w { answers = rest }) ]

abbrev driver : Driver World ℕ (Unit {0})
driver = record {
  run = λ query parameters w. answer w;
  sleep = λ n w. record w { sleeps = n ∷ w.sleeps };
  redact_exception = λ e. e.message;
}

abbrev flaky : World
flaky = record {
  answers = err conflict ∷ err conflict ∷ err conflict ∷ ok (record_of 7 done) ∷ [];
  sleeps = [];
}

-- Three conflicts, then the rows: the sleeps were 1, 2 and 4 seconds.
flaky_runs :
    run_query_with_retry driver "q" tt flaky
    ≡ (ok (7 ∷ []), record { answers = []; sleeps = 4 ∷ 2 ∷ 1 ∷ [] })
unfolding run_query_with_retry is_retried normalize
flaky_runs = refl

retry_exact_example :
    (k : ℕ) × (k < max_attempts)
    × ((i : ℕ) → i < k → fails_for_now (attempt driver "q" tt i flaky).0 ≡ true)
    × ((fails_for_now (attempt driver "q" tt k flaky).0 ≡ false) ⊎ (k + 1 ≡ max_attempts))
    × (run_query_with_retry driver "q" tt flaky ≡ attempt driver "q" tt k flaky)
retry_exact_example = retry_exact driver "q" tt flaky

abbrev three_rows : World
three_rows = record { answers = ok (stream (1 ∷ 2 ∷ 3 ∷ []) complete) ∷ []; sleeps = [] }

run_query_limited_exact_example :
    run_query_limited driver "q" tt 2 three_rows
    ≡ (ok (1 ∷ 2 ∷ [], true), record { answers = []; sleeps = [] })
run_query_limited_exact_example =
    run_query_limited_exact driver "q" tt 2 three_rows (record { answers = []; sleeps = [] })
      (1 ∷ 2 ∷ 3 ∷ []) complete refl

abbrev lamp : Value
lamp = node "4:1" ("Entity" ∷ []) (field "seen" (list (cons (temporal "2024-01-01") nil)) end)
