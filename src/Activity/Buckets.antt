-- ===== src/Activity/Buckets.antt =====
-- One array of buckets against the log of what was counted, for a clock that does not go back.
use hass_ontology_fix.Common.{
  ℕ, zero, suc, ◌+◌, ◌%◌, ◌≤◌, ◌<◌, ◌≡◌, refl, ap, ◌&&◌, List, [], ◌∷◌, sum, ltb, ◌==◌,
  if◌then◌else◌, arith, length, All,
}
use hass_ontology_fix.Activity.{window, set, add}

-- The bucket with number `i`.
abbrev pub at : List ℕ → ℕ → ℕ
at [] i = 0
at (b ∷ bs) zero = b
at (b ∷ bs) (suc i) = at bs i

-- A log of counts, each with its minute.
abbrev pub Log : Type 0
Log = List (ℕ × ℕ)

-- What was counted in the last `window` minutes up to `now`, in all and with remainder `i`.
abbrev pub recent_total : ℕ → Log → ℕ
recent_total now [] = 0
recent_total now ((t, n) ∷ log) = (if ltb now (t + window) then n else 0) + recent_total now log

abbrev pub recent : ℕ → ℕ → Log → ℕ
recent now i [] = 0
recent now i ((t, n) ∷ log) =
    (if ltb now (t + window) && t % window == i then n else 0) + recent now i log

abbrev pub IsPast : ℕ → Log → Type 0
IsPast now = All (λ e. e.0 ≤ now)

pub at-set :
    (i j v : ℕ) (bs : List ℕ) → i < length bs → at (set i v bs) j ≡ (if i == j then v else at bs j)
unfolding set
at-set i j v [] h = absurd (omega arith)
at-set zero zero v (b ∷ bs) h = refl
at-set zero (suc j) v (b ∷ bs) h = ground arith
at-set (suc i) zero v (b ∷ bs) h = ground arith
at-set (suc i) (suc j) v (b ∷ bs) h = ground (arith, at-set i j v bs)

pub at-add :
    (i j v : ℕ) (bs : List ℕ)
    → i < length bs
    → at (add i v bs) j ≡ at bs j + (if i == j then v else 0)
unfolding add
at-add i j v [] h = absurd (omega arith)
at-add zero zero v (b ∷ bs) h = refl
at-add zero (suc j) v (b ∷ bs) h = ground arith
at-add (suc i) zero v (b ∷ bs) h = ground arith
at-add (suc i) (suc j) v (b ∷ bs) h = ground (arith, at-add i j v bs)

pub length-set : (i v : ℕ) (bs : List ℕ) → length (set i v bs) ≡ length bs
unfolding set
length-set i v [] = refl
length-set zero v (b ∷ bs) = refl
length-set (suc i) v (b ∷ bs) = ap suc (length-set i v bs)

pub length-add : (i v : ℕ) (bs : List ℕ) → length (add i v bs) ≡ length bs
unfolding add
length-add i v [] = refl
length-add zero v (b ∷ bs) = refl
length-add (suc i) v (b ∷ bs) = ap suc (length-add i v bs)

-- The five remainders share out what is recent.
recent_shares :
    (now : ℕ) (log : Log)
    → recent now 0 log + recent now 1 log + recent now 2 log + recent now 3 log + recent now 4 log
      ≡ recent_total now log
recent_shares now [] = refl
recent_shares now ((t, n) ∷ log) = ground (arith, recent_shares now log)

-- The buckets hold the counts of the last minutes up to `last`.
pub record Tracks (last : ℕ) (log : Log) (bs : List ℕ) : Type 0 where
  pub size : length bs ≡ window
  pub past : IsPast last log
  pub counts : (i : ℕ) → i < window → at bs i ≡ recent last i log

sum_five :
    (bs : List ℕ) → length bs ≡ window → sum bs ≡ at bs 0 + at bs 1 + at bs 2 + at bs 3 + at bs 4
sum_five (a ∷ b ∷ c ∷ d ∷ e ∷ []) h = omega arith
sum_five _ h = absurd (omega arith)

pub sum-Tracks :
    (last : ℕ) (log : Log) (bs : List ℕ) → Tracks last log bs → sum bs ≡ recent_total last log
sum-Tracks last log bs h = omega (
  arith,
  sum_five bs h.size,
  recent_shares last log,
  h.counts 0 (omega arith),
  h.counts 1 (omega arith),
  h.counts 2 (omega arith),
  h.counts 3 (omega arith),
  h.counts 4 (omega arith),
)
