-- ===== src/MemgraphClient/Retry.antt =====
-- `run_query_with_retry` against the sequence of attempts that it describes.
use Prim.Native.Nat.{◌^◌}
use native.Mathlib.Nat.{pow-suc}
use hass_ontology_fix.Common.{
  ℕ, zero, suc, ◌+◌, ◌*◌, ◌≤◌, ◌<◌, ◌≡◌, refl, ap, ◌∙◌, min, String, Bool, true, false, List, arith,
  ◌==◌, Bool-cases, ◌⊎◌, inl, inr,
}
use hass_ontology_fix.Common.Errors.{Result, ok, err, Action}
use hass_ontology_fix.MemgraphClient.{
  Driver, max_attempts, max_delay, is_retried, run_query, retry, run_query_with_retry, retry_after,
}

-- An attempt that another may follow.
abbrev pub fails_for_now : {A : Type 0} → Result A → Bool
fails_for_now (ok a) = false
fails_for_now (err e) = is_retried e

-- The seconds before the attempt after attempt i.
pub delay_of : ℕ → ℕ
delay_of i = min (2 ^ i) max_delay

retry_after-fails :
    {W Row Parameters : Type 0} (driver : Driver W Row Parameters) (r : Result (List Row)) (n : ℕ)
    (rest : Action W (List Row)) (w : W)
    → fails_for_now r ≡ true
    → retry_after driver r (suc n) rest w ≡ rest w
retry_after-fails driver (ok rows) n rest w h = cc
retry_after-fails driver (err e) n rest w h = rw h refl

retry_after-stops :
    {W Row Parameters : Type 0} (driver : Driver W Row Parameters) (r : Result (List Row)) (n : ℕ)
    (rest : Action W (List Row)) (w : W)
    → fails_for_now r ≡ false
    → retry_after driver r (suc n) rest w ≡ (r, w)
retry_after-stops driver (ok rows) n rest w h = refl
retry_after-stops driver (err e) n rest w h = rw h refl

module _ {W Row Parameters : Type 0} (driver : Driver W Row Parameters) (query : String)
    (parameters : Parameters) where
  -- Attempt i, counted from zero, each after the sleep that follows the one before.
  unfoldable pub attempt : ℕ → Action W (List Row)
  attempt zero w = run_query driver query parameters w
  attempt (suc i) w = run_query driver query parameters (driver.sleep (delay_of i) (attempt i w).1)

  delay_of-suc : (i : ℕ) → min (delay_of i * 2) max_delay ≡ delay_of (suc i)
  unfolding delay_of
  delay_of-suc i = omega (arith, pow-suc 2 i)

  -- From attempt j on: attempt k is the last one, it and only it is not followed by another, and all
  -- before it failed in a way that is retried.
  abbrev IsLast : ℕ → ℕ → W → ℕ → Type 0
  IsLast j n w k =
      (j ≤ k)
      × (k ≤ j + n)
      × ((i : ℕ) → j ≤ i → i < k → fails_for_now (attempt i w).0 ≡ true)
      × (fails_for_now (attempt k w).0 ≡ true → k ≡ j + n)

  decide_first : (i : ℕ) {j : ℕ} → j ≤ i → (i ≡ j) ⊎ (suc j ≤ i)
  decide_first i {j} h = elim (Bool-cases (i == j)) [
    | inl e ↦ inl (ground arith)
    | inr e ↦ inr (ground arith)
  ]

  retry-at :
      (j n : ℕ) (w v : W)
      → run_query driver query parameters v ≡ attempt j w
      → (k : ℕ) × IsLast j n w k × (retry driver query parameters n (delay_of j) v ≡ attempt k w)
  unfolding retry attempt
  retry-at j zero w v h =
      (j, (omega arith, omega arith, λ i a b. absurd (omega arith), λ x. omega arith), h)
  retry-at j (suc n) w v h =
      let (r, w') = attempt j w in
      let rest = λ (u : W).
        retry driver query parameters n (min (delay_of j * 2) max_delay)
          (driver.sleep (delay_of j) u) in
      let first : retry driver query parameters (suc n) (delay_of j) v
          ≡ retry_after driver r (suc n) rest w' =
        ap (λ (q : Result (List Row) × W). retry_after driver q.0 (suc n) rest q.1) h in
      elim (Bool-cases (fails_for_now r)) [
        | inl more ↦
            let (k, (low, high, before, last), same) =
              retry-at (suc j) n w (driver.sleep (delay_of j) w') refl in
            (
              k,
              (
                omega arith,
                omega arith,
                λ i a b. elim (decide_first i a) [
                  | inl here ↦ rw here more
                  | inr later ↦ before i later b
                ],
                λ x. omega (arith, last x),
              ),
              first
                  ∙ retry_after-fails driver r n rest w' more
                  ∙ ap (λ d. retry driver query parameters n d (driver.sleep (delay_of j) w'))
                      (delay_of-suc j)
                  ∙ same,
            )
        | inr enough ↦ (
          j,
          (omega arith, omega arith, λ i a b. absurd (omega arith), λ x. cc),
          first ∙ retry_after-stops driver r n rest w' enough,
        )
      ]

  -- There is an attempt k, the first one, the fifth or one between, such that every attempt before it
  -- failed in a way that is retried, `run_query_with_retry` ends with its result and its world, and if
  -- it fails in such a way too, it is the fifth. Before the attempt after attempt i it sleeps 2 ^ i
  -- seconds, and not more than 60.
  pub retry_exact :
      (w : W)
      → (k : ℕ) × (k < max_attempts)
        × ((i : ℕ) → i < k → fails_for_now (attempt i w).0 ≡ true)
        × ((fails_for_now (attempt k w).0 ≡ false) ⊎ (k + 1 ≡ max_attempts))
        × (run_query_with_retry driver query parameters w ≡ attempt k w)
  unfolding run_query_with_retry attempt delay_of
  retry_exact w =
      let (k, (low, high, before, last), same) = retry-at 0 4 w w refl in
      (
        k,
        omega arith,
        λ i b. before i (omega arith) b,
        elim (Bool-cases (fails_for_now (attempt k w).0)) [
          | inl again ↦ inr (omega (arith, last again))
          | inr enough ↦ inl enough
        ],
        same,
      )
