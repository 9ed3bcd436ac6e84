-- ===== src/MemgraphClient.antt =====
-- The database client (custom_components/ontology/memgraph_client.py): `run_query`, `run_query_limited`
-- and `run_query_with_retry`. The driver's session and the clock are the interface `Driver`; a timeout
-- is an exception of the driver's call. Rows are what `_serialize_record` makes of the records.
pub mod Retry
pub mod Limit
pub mod Values
mod Tests
use hass_ontology_fix.Common.{
  ℕ, zero, suc, ◌-◌, ◌*◌, min, String, Bool, true, false, ◌&&◌, List, [], ◌∷◌, ltb, leb,
  if◌then◌else◌,
}
use hass_ontology_fix.Common.Errors.{
  ErrorClass, cannot_connect, invalid_auth, auth_error, service_unavailable, timeout_error,
  transient_error, Exception, Result, ok, err, Action,
}

-- What `async for record in result` meets: records, and an end or an exception.
pub data Stream (Row : Type 0) : Type 0 where
  done : Stream Row
  failed : Exception → Stream Row
  record_of : Row → Stream Row → Stream Row

-- `session.run` on the connected driver, `asyncio.sleep`, and `redact_exception`.
pub record Driver (W Row Parameters : Type 0) : Type 0 where
  pub run : String → Parameters → Action W (Stream Row)
  pub sleep : ℕ → W → W
  pub redact_exception : Exception → String

-- RETRY_MAX_ATTEMPTS, RETRY_INITIAL_DELAY_SECONDS and RETRY_MAX_DELAY_SECONDS
abbrev pub max_attempts : ℕ
max_attempts = 5

abbrev pub initial_delay : ℕ
initial_delay = 1

abbrev pub max_delay : ℕ
max_delay = 60

-- The classes that `run_query_with_retry` catches.
unfoldable pub is_retried : Exception → Bool
is_retried e = elim e.class [
  | cannot_connect ↦ true
  | service_unavailable ↦ true
  | timeout_error ↦ true
  | transient_error ↦ true
  | _ ↦ false
]

-- `[_serialize_record(record) async for record in result]`
unfoldable pub collect : {Row : Type 0} → Stream Row → Result (List Row)
collect done = ok []
collect (failed e) = err e
collect (record_of row rest) = elim (collect rest) [ ok rows ↦ ok (row ∷ rows) | err e ↦ err e ]

-- The loop of `run_query_limited`, by the number of rows that still fit.
unfoldable pub collect_limited : {Row : Type 0} → ℕ → Stream Row → Result (List Row × Bool)
collect_limited n done = ok ([], false)
collect_limited n (failed e) = err e
collect_limited zero (record_of row rest) = ok ([], true)
collect_limited (suc n) (record_of row rest) = elim (collect_limited n rest) [
  | ok (rows, truncated) ↦ ok (row ∷ rows, truncated)
  | err e ↦ err e
]

module _ {W Row Parameters : Type 0} (driver : Driver W Row Parameters) where
  -- The `except` clauses that the three methods share.
  unfoldable pub normalize : Exception → Exception
  normalize e = elim e.class [
    | auth_error ↦ record { class = invalid_auth; message = driver.redact_exception e }
    | timeout_error ↦ record {
      class = cannot_connect;
      message = "Connection to Memgraph timed out";
    }
    | service_unavailable ↦ record { class = cannot_connect; message = driver.redact_exception e }
    | _ ↦ e
  ]

  abbrev pub reply : {A : Type 0} → (Stream Row → Result A) → Result (Stream Row) → Result A
  reply read (err e) = err (normalize e)
  reply read (ok stream) = elim (read stream) [ ok a ↦ ok a | err e ↦ err (normalize e) ]

  unfoldable pub run_query : String → Parameters → Action W (List Row)
  unfolding collect
  run_query query parameters w =
      let (r, w') = driver.run query parameters w in (reply collect r, w')

  unfoldable pub run_query_limited : String → Parameters → ℕ → Action W (List Row × Bool)
  unfolding collect_limited
  run_query_limited query parameters limit w =
      let (r, w') = driver.run query parameters w in (reply (collect_limited limit) r, w')

  -- What follows an attempt, with the number of attempts left and the rest of the loop.
  abbrev pub retry_after : Result (List Row) → ℕ → Action W (List Row) → Action W (List Row)
  retry_after (ok rows) n rest w = (ok rows, w)
  retry_after (err e) zero rest w = (err e, w)
  retry_after (err e) (suc n) rest w = if is_retried e then rest w else (err e, w)

  -- The loop: one attempt, and after it the given number of further ones.
  unfoldable pub retry : String → Parameters → ℕ → ℕ → Action W (List Row)
  unfolding run_query
  retry query parameters zero delay w = run_query query parameters w
  retry query parameters (suc n) delay w =
      let rest =
        λ (v : W). retry query parameters n (min (delay * 2) max_delay) (driver.sleep delay v) in
      let (r, w') = run_query query parameters w in retry_after r (suc n) rest w'

  unfoldable pub run_query_with_retry : String → Parameters → Action W (List Row)
  unfolding retry
  run_query_with_retry query parameters w =
      retry query parameters (max_attempts - 1) initial_delay w
