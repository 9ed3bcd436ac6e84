-- ===== src/MemgraphClient/Limit.antt =====
-- `run_query_limited` against the rows that the database would send.
use hass_ontology_fix.Common.{
  ℕ, zero, suc, ◌≤◌, ◌≡◌, refl, String, Bool, true, false, List, [], ◌∷◌, length, take, ltb,
  if◌then◌else◌, arith,
}
use hass_ontology_fix.Common.Errors.{Exception, Result, ok, err, continue, pure}
use hass_ontology_fix.MemgraphClient.{
  Stream, done, failed, record_of, Driver, collect, collect_limited, reply, run_query,
  run_query_limited,
}

-- How a stream ends.
pub data End : Type 0 where
  complete : End
  broken : Exception → End

-- What a reader sees of the end.
abbrev pub ended : {A : Type 0} → A → End → Result A
ended a complete = ok a
ended a (broken e) = err e

module _ {Row : Type 0} where
  abbrev pub stream : List Row → End → Stream Row
  stream [] complete = done
  stream [] (broken e) = failed e
  stream (row ∷ rows) end = record_of row (stream rows end)

  collect-stream : (rows : List Row) (end : End) → collect (stream rows end) ≡ ended rows end
  unfolding collect
  collect-stream [] complete = refl
  collect-stream [] (broken e) = refl
  collect-stream (row ∷ rows) complete = rw (collect-stream rows complete)
  collect-stream (row ∷ rows) (broken e) = rw (collect-stream rows (broken e))

  abbrev pub limited : ℕ → List Row → End → Result (List Row × Bool)
  limited limit rows end =
      if ltb limit (length rows) then ok (take limit rows, true) else ended (rows, false) end

  collect_limited-stream :
      (limit : ℕ) (rows : List Row) (end : End)
      → collect_limited limit (stream rows end) ≡ limited limit rows end
  unfolding collect_limited
  collect_limited-stream limit [] complete = ground arith
  collect_limited-stream limit [] (broken e) = ground arith
  collect_limited-stream zero (row ∷ rows) end = ground arith
  collect_limited-stream (suc limit) (row ∷ rows) complete =
      ground (arith, collect_limited-stream limit rows complete)
  collect_limited-stream (suc limit) (row ∷ rows) (broken e) =
      ground (arith, collect_limited-stream limit rows (broken e))

module _ {W Row Parameters : Type 0} (driver : Driver W Row Parameters) where
  -- If the database answers with some rows and an end, then `run_query_limited` returns the first
  -- `limit` rows and true if there are more than `limit`, whatever comes after them; if not, and the
  -- stream ends well, all rows and false; and else it raises what `run_query` raises.
  pub run_query_limited_exact :
      (query : String) (parameters : Parameters) (limit : ℕ) (w v : W) (rows : List Row) (end : End)
      → driver.run query parameters w ≡ (ok (stream rows end), v)
      → run_query_limited driver query parameters limit w ≡ (
          if ltb limit (length rows)
          then (ok (take limit rows, true), v)
          else (continue (run_query driver query parameters w).0 (λ all. pure (all, false)) v))
  unfolding run_query_limited run_query
  run_query_limited_exact query parameters limit w v rows complete h =
      rw (h, reply, collect_limited-stream limit rows complete, collect-stream rows complete)
        (ground arith)
  run_query_limited_exact query parameters limit w v rows (broken e) h =
      rw (h, reply, collect_limited-stream limit rows (broken e), collect-stream rows (broken e))
        (ground arith)

-- The rows of a result, none if it is an exception.
abbrev pub returned : {Row : Type 0} → Result (List Row × Bool) → List Row
returned (ok (rows, _)) = rows
returned (err e) = []

collect_limited_le :
    {Row : Type 0} (limit : ℕ) (s : Stream Row)
    → length (returned (collect_limited limit s)) ≤ limit
unfolding collect_limited
collect_limited_le limit done = omega arith
collect_limited_le limit (failed e) = omega arith
collect_limited_le zero (record_of row rest) = omega arith
collect_limited_le (suc limit) (record_of row rest) = ground (arith, collect_limited_le limit rest)

-- No more rows than the limit come back.
pub run_query_limited_le :
    {W Row Parameters : Type 0} (driver : Driver W Row Parameters) (query : String)
    (parameters : Parameters) (limit : ℕ) (w : W)
    → length (returned (run_query_limited driver query parameters limit w).0) ≤ limit
unfolding run_query_limited
run_query_limited_le {Row = Row} driver query parameters limit w =
    by_reply (driver.run query parameters w).0
  where
    by_reply :
        (r : Result (Stream Row))
        → length (returned (reply driver (collect_limited limit) r)) ≤ limit
    by_reply (err e) = omega arith
    by_reply (ok s) = ground (arith, collect_limited_le limit s)
