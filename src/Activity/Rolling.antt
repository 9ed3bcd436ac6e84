-- ===== src/Activity/Rolling.antt =====
-- `_activity_roll` on one array of buckets: what it clears is what has left the window.
use hass_ontology_fix.Common.{
  ℕ, zero, suc, ◌+◌, ◌-◌, ◌%◌, ◌≤◌, ◌<◌, ◌≡◌, refl, ◌∙◌, Bool, false, ◌&&◌, ◌||◌, List, [], ◌∷◌,
  ltb, leb, ◌==◌, if◌then◌else◌, arith, length, min, Option, none, some, Bool-cases, inl, inr,
}
use hass_ontology_fix.Activity.{window, set, add}
use hass_ontology_fix.Activity.Buckets.{
  at, Log, recent, IsPast, Tracks, at-set, at-add, length-set, length-add,
}

-- The loop of `_activity_roll` on one array.
unfoldable pub clear_list : ℕ → ℕ → ℕ → List ℕ → List ℕ
clear_list last step zero bs = bs
clear_list last step (suc n) bs = clear_list last (step + 1) n (set ((last + step) % window) 0 bs)

abbrev cleared : ℕ → ℕ → ℕ → ℕ → Bool
cleared last step zero i = false
cleared last step (suc n) i = (last + step) % window == i || cleared last (step + 1) n i

length-clear_list : (last step n : ℕ) (bs : List ℕ) → length (clear_list last step n bs) ≡ length bs
unfolding clear_list
length-clear_list last step zero bs = refl
length-clear_list last step (suc n) bs =
    let idx : ℕ = (last + step) % window in
    length-clear_list last (step + 1) n (set idx 0 bs) ∙ length-set idx 0 bs

at-clear_list :
    (last step n i : ℕ) (bs : List ℕ)
    → length bs ≡ window
    → at (clear_list last step n bs) i ≡ (if cleared last step n i then 0 else at bs i)
unfolding clear_list
at-clear_list last step zero i bs h = refl
at-clear_list last step (suc n) i bs h =
    let idx : ℕ = (last + step) % window in
    ground (
      arith,
      at-set idx i 0 bs (omega arith),
      length-set idx 0 bs,
      at-clear_list last (step + 1) n i (set idx 0 bs),
    )

-- An entry of the past is still recent after the clock moved exactly if its bucket was not cleared.
entry_kept :
    (last now n t i : ℕ)
    → last < now
    → t ≤ last
    → n ≡ min (now - last) window
    → (ltb now (t + window) && t % window == i)
      ≡ (if cleared last 1 n i then false else ltb last (t + window) && t % window == i)
entry_kept last now zero t i h p e = absurd (omega arith)
entry_kept last now (suc zero) t i h p e = ground arith
entry_kept last now (suc (suc zero)) t i h p e = ground arith
entry_kept last now (suc (suc (suc zero))) t i h p e = ground arith
entry_kept last now (suc (suc (suc (suc zero)))) t i h p e = ground arith
entry_kept last now (suc (suc (suc (suc (suc zero))))) t i h p e = ground arith
entry_kept last now (suc (suc (suc (suc (suc (suc n)))))) t i h p e = absurd (omega arith)

recent-roll :
    (last now i : ℕ) (log : Log)
    → last < now
    → IsPast last log
    → recent now i log
      ≡ (if cleared last 1 (min (now - last) window) i then 0 else recent last i log)
recent-roll last now i [] h p = ground arith
recent-roll last now i ((t, v) ∷ log) h p = ground (
  arith,
  entry_kept last now (min (now - last) window) t i h p.0 refl,
  recent-roll last now i log h p.1,
)

IsPast-later : (last now : ℕ) (log : Log) → last ≤ now → IsPast last log → IsPast now log
IsPast-later last now [] h p = tt
IsPast-later last now (e ∷ log) h p = (omega arith, IsPast-later last now log h p.1)

Tracks-clear :
    (last now : ℕ) (log : Log) (bs : List ℕ)
    → last < now
    → Tracks last log bs
    → Tracks now log (clear_list last 1 (min (now - last) window) bs)
Tracks-clear last now log bs h k =
    let n : ℕ = min (now - last) window in
    record {
      size = length-clear_list last 1 n bs ∙ k.size;
      past = IsPast-later last now log (omega arith) k.past;
      counts = λ i lt.
          ground
            (arith, at-clear_list last 1 n i bs, recent-roll last now i log h k.past, k.counts i);
    }

pub Tracks-add :
    (now v : ℕ) (log : Log) (bs : List ℕ)
    → Tracks now log bs
    → Tracks now ((now, v) ∷ log) (add (now % window) v bs)
Tracks-add now v log bs k = record {
  size = length-add (now % window) v bs ∙ k.size;
  past = (omega arith, k.past);
  counts = λ i lt. ground (arith, at-add (now % window) i v bs, k.size, k.counts i);
}

-- An array of a coordinator that has recorded nothing yet is all zero.
abbrev pub zeros : List ℕ
zeros = 0 ∷ 0 ∷ 0 ∷ 0 ∷ 0 ∷ []

abbrev pub Tracked : Option ℕ → Log → List ℕ → Type 0
Tracked none log bs = (log ≡ []) × (bs ≡ zeros)
Tracked (some last) log bs = Tracks last log bs

-- The clock does not go back.
abbrev pub NotAfter : Option ℕ → ℕ → Type 0
NotAfter none now = Unit
NotAfter (some last) now = last ≤ now

-- `_activity_roll` on one array.
unfoldable pub roll_list : Option ℕ → ℕ → List ℕ → List ℕ
unfolding clear_list
roll_list none now bs = bs
roll_list (some last) now bs =
    if leb now last then bs else clear_list last 1 (min (now - last) window) bs

zeros-Tracks : (now i : ℕ) → i < window → at zeros i ≡ 0
zeros-Tracks now zero h = refl
zeros-Tracks now (suc zero) h = refl
zeros-Tracks now (suc (suc zero)) h = refl
zeros-Tracks now (suc (suc (suc zero))) h = refl
zeros-Tracks now (suc (suc (suc (suc zero)))) h = refl
zeros-Tracks now (suc (suc (suc (suc (suc i))))) h = absurd (omega arith)

pub Tracks-roll :
    (o : Option ℕ) (now : ℕ) (log : Log) (bs : List ℕ)
    → NotAfter o now
    → Tracked o log bs
    → Tracks now log (roll_list o now bs)
unfolding roll_list
Tracks-roll none now log bs h k =
    rw (k.0, k.1) (record { size = refl; past = tt; counts = λ i lt. zeros-Tracks now i lt })
Tracks-roll (some last) now log bs h k = elim (Bool-cases (leb now last)) [
  | inl same ↦ let e : last ≡ now = ground arith in rw same (rw e at k)
  | inr later ↦ rw later (Tracks-clear last now log bs (ground arith) k)
]
