-- ===== src/QueryService/Guard.antt =====
-- What `execute_query` lets through, and how much it returns.
use hass_ontology_fix.Common.{
  ℕ, ◌≤◌, ◌≡◌, refl, ap, String, Bool, false, ◌&&◌, Option, List, length, arith,
}
use hass_ontology_fix.Common.Codes.{codes}
use hass_ontology_fix.Common.Errors.{Result, ok, err, Action, ◌>>=◌, ◌>>◌, pure, continue, is_ok}
use hass_ontology_fix.MemgraphClient.{Driver, run_query_limited}
use hass_ontology_fix.MemgraphClient.Limit.{returned, run_query_limited_le}
use hass_ontology_fix.QueryService.{
  validate_syntax, validate_read_only, check, execute_query, effective_limit, max_query_limit,
  Response, response,
}

-- Both checks pass.
unfoldable pub accepts : List ℕ → Bool
accepts cypher = is_ok (validate_syntax cypher) && is_ok (validate_read_only cypher)

module _ {W A B : Type 0} where
  checked-stops :
      (a b : Result A) (m : Action W B) (w : W)
      → (is_ok a && is_ok b) ≡ false
      → let (r, v) = (check a >> (check b >> m)) w in (is_ok r ≡ false) × (v ≡ w)
  checked-stops (err e) b m w h = (refl, refl)
  checked-stops (ok a) (err e) m w h = (refl, refl)
  checked-stops (ok a) (ok b) m w h = cc

  checked-returns :
      (a b : Result A) (m : Action W B) (w : W) (x : B)
      → ((check a >> (check b >> m)) w).0 ≡ ok x
      → (m w).0 ≡ ok x
  checked-returns (err e) b m w x h = cc
  checked-returns (ok a) (err e) m w x h = cc
  checked-returns (ok a) (ok b) m w x h = h

effective_limit_le : (limit : Option ℕ) → effective_limit limit ≤ max_query_limit
effective_limit_le limit = ground arith

module _ {W Row : Type 0} where
  response-of :
      (r : Result (List Row × Bool)) (v : W) (x : Response Row)
      → (continue r (λ found. pure (response found)) v).0 ≡ ok x
      → (x.rows ≡ returned r) × (x.row_count ≡ length x.rows)
  response-of r v x h = ground arith

module _ {W Row Parameters : Type 0} (driver : Driver W Row Parameters) where
  -- A query that one of the two checks refuses raises, and the world is as before: the database is not
  -- called.
  pub execute_query_refuses :
      (cypher : String) (parameters : Parameters) (limit : Option ℕ) (w : W)
      → accepts (codes cypher) ≡ false
      → let (r, v) = execute_query driver cypher parameters limit w in (is_ok r ≡ false) × (v ≡ w)
  unfolding execute_query accepts
  execute_query_refuses cypher parameters limit w h =
      checked-stops (validate_syntax (codes cypher)) (validate_read_only (codes cypher))
        (run_query_limited driver cypher parameters (effective_limit limit) >>= λ found.
          pure (response found))
        w h

  -- A response counts its own rows, and they are no more than the limit asked for, or 100 where none
  -- or 0 is, and never more than 1000.
  pub execute_query_bounded :
      (cypher : String) (parameters : Parameters) (limit : Option ℕ) (w : W) (x : Response Row)
      → (execute_query driver cypher parameters limit w).0 ≡ ok x
      → (x.row_count ≡ length x.rows)
        × (x.row_count ≤ effective_limit limit)
        × (x.row_count ≤ max_query_limit)
  unfolding execute_query
  execute_query_bounded cypher parameters limit w x h =
      let m = run_query_limited driver cypher parameters (effective_limit limit) in
      let (r, v) = m w in
      let found =
        checked-returns (validate_syntax (codes cypher)) (validate_read_only (codes cypher))
          (m >>= λ found. pure (response found)) w x h in
      let (same, counted) = response-of r v x found in
      let few = run_query_limited_le driver cypher parameters (effective_limit limit) w in
      (
        counted,
        omega (arith, counted, ap length same, few),
        omega (arith, counted, ap length same, few, effective_limit_le limit),
      )
