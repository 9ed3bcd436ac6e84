-- ===== src/ChangeBuffer/History.antt =====
-- The buffer against the full history of what was published: it holds the newest events, numbered
-- without a gap, and `events_since` is exact about what it can still replay.
use hass_ontology_fix.Common.{
  ℕ, zero, suc, ◌+◌, ◌-◌, ◌<◌, ◌≡◌, refl, ap, sym, ◌∙◌, true, false, none, some, List, [], ◌∷◌,
  ◌++◌, arith, length, drop, filter, ltb, if◌then◌else◌, length-append, length-drop, drop-nil,
  drop-drop, drop-append_le, Bool-cases, inl, inr,
}
use native.Mathlib.Nat.{add-zero, add-suc, suc-add}
use hass_ontology_fix.ChangeBuffer
use hass_ontology_fix.ChangeBuffer.Requests.{
  Request, upsert, remove, reconcile, subscribe, unsubscribe, perform, event, extend, run, history,
  replayable,
}
use hass_ontology_fix.ChangeBuffer.{
  Kind, GraphChangeEvent, GraphChangeBuffer, Subscriber, append_bounded, init, publish,
  publish_upsert, publish_remove, publish_reconcile, bridge, events_since,
}

-- The revisions are `s`, `s + 1`, …
abbrev pub Numbered : ℕ → List GraphChangeEvent → Type 0
Numbered s [] = Unit
Numbered s (e ∷ es) = (e.revision ≡ s) × Numbered (suc s) es

Numbered-append :
    (s : ℕ) (xs : List GraphChangeEvent) (e : GraphChangeEvent)
    → Numbered s xs
    → e.revision ≡ s + length xs
    → Numbered s (xs ++ e ∷ [])
Numbered-append s [] e h p = (omega arith, tt)
Numbered-append s (x ∷ xs) e h p = (h.0, Numbered-append (suc s) xs e h.1 (omega arith))

Numbered-drop :
    (s k : ℕ) (xs : List GraphChangeEvent) → Numbered s xs → Numbered (s + k) (drop k xs)
Numbered-drop s zero xs h = rw add-zero h
Numbered-drop s (suc k) [] h = tt
Numbered-drop s (suc k) (x ∷ xs) h = rw (add-suc, ← suc-add) (Numbered-drop (suc s) k xs h.1)

filter_newer :
    (s r : ℕ) (xs : List GraphChangeEvent)
    → Numbered s xs
    → filter (λ event. ltb r event.revision) xs ≡ drop (r + 1 - s) xs
filter_newer s r [] h = sym (drop-nil (r + 1 - s))
filter_newer s r (x ∷ xs) h = elim (Bool-cases (ltb r x.revision)) [
  | inl newer ↦
      let e : r + 1 - s ≡ 0 = ground arith in
      let e' : r + 1 - suc s ≡ 0 = ground arith in
      rw (newer, e) (ap (λ ys. x ∷ ys) (filter_newer (suc s) r xs h.1 ∙ ap (λ n. drop n xs) e'))
  | inr old ↦
      let e : r + 1 - s ≡ suc (r + 1 - suc s) = ground arith in
      rw (old, e) (filter_newer (suc s) r xs h.1)
]

-- The bounded queue holds the newest `m` items of a history.
append_bounded-newest :
    (m : ℕ) (h : List GraphChangeEvent) (e : GraphChangeEvent)
    → append_bounded m (drop (length h - m) h) e ≡ drop (length (h ++ e ∷ []) - m) (h ++ e ∷ [])
unfolding append_bounded
append_bounded-newest m h e =
    let k : ℕ = length h - m in
    let same : drop k h ++ e ∷ [] ≡ drop k (h ++ e ∷ []) =
      sym (drop-append_le k h (e ∷ []) (omega arith)) in
    let n : k + (length (drop k (h ++ e ∷ [])) - m) ≡ length (h ++ e ∷ []) - m =
      omega (arith, length-drop k (h ++ e ∷ []), length-append h (e ∷ [])) in
    rw same (
      drop-drop (length (drop k (h ++ e ∷ [])) - m) k (h ++ e ∷ [])
      ∙ ap (λ i. drop i (h ++ e ∷ [])) n)

-- What the buffer keeps of a history.
pub record Refines {W : Type 0} (b : GraphChangeBuffer W) (h : List GraphChangeEvent) : Type 0 where
  pub numbered : Numbered 1 h
  pub revision : b.revision ≡ length h
  pub events : b.events ≡ drop (length h - b.max_size) h

Refines-publish :
    {W : Type 0} (b : GraphChangeBuffer W) (h : List GraphChangeEvent) (e : GraphChangeEvent)
    (w : W)
    → Refines b h
    → e.revision ≡ length h + 1
    → Refines (publish (ChangeBuffer.next_revision b) e w).0 (h ++ e ∷ [])
unfolding publish ChangeBuffer.next_revision
Refines-publish b h e w r p = record {
  numbered = Numbered-append 1 h e r.numbered (omega arith);
  revision = omega (arith, r.revision, length-append h (e ∷ []));
  events =
      ap (λ xs. append_bounded b.max_size xs e) r.events ∙ append_bounded-newest b.max_size h e;
}

perform-Refines :
    {W : Type 0} (q : Request W) (b : GraphChangeBuffer W) (h : List GraphChangeEvent) (w : W)
    → Refines b h
    → Refines (perform q b w).0 (extend q h)
unfolding perform ChangeBuffer.unsubscribe
perform-Refines (upsert n r p now) b h w i = rw (← i.revision) (
    Refines-publish b h (event Kind.upsert n r p now (b.revision + 1)) w i
      (omega (arith, i.revision)))
perform-Refines (remove n r now) b h w i = rw (← i.revision) (
    Refines-publish b h (event Kind.remove n r [] now (b.revision + 1)) w i
      (omega (arith, i.revision)))
perform-Refines (reconcile now) b h w i = rw (← i.revision) (
    Refines-publish b h (event Kind.reconcile [] [] [] now (b.revision + 1)) w i
      (omega (arith, i.revision)))
perform-Refines (subscribe id f) b h w i = record {
  numbered = i.numbered;
  revision = i.revision;
  events = i.events;
}
perform-Refines (unsubscribe id) b h w i = record {
  numbered = i.numbered;
  revision = i.revision;
  events = i.events;
}

max_size-perform :
    {W : Type 0} (q : Request W) (b : GraphChangeBuffer W) (w : W)
    → (perform q b w).0.max_size ≡ b.max_size
unfolding perform ChangeBuffer.unsubscribe
max_size-perform (upsert n r p now) b w = refl
max_size-perform _ b w = refl

bridge-Numbered :
    (s r : ℕ) (es : List GraphChangeEvent)
    → Numbered (1 + s) es
    → 0 < length es
    → bridge r es ≡ (if ltb r s then none else some (drop (r - s) es))
unfolding bridge
bridge-Numbered s r [] n pos = absurd (omega arith)
bridge-Numbered s r (x ∷ xs) n pos = elim (Bool-cases (ltb r s)) [
  | inl gap ↦ ground (arith, n.0)
  | inr kept ↦
      let e : r + 1 - (1 + s) ≡ r - s = omega arith in
      let t : ltb r (x.revision - 1) ≡ false = ground (arith, n.0) in
      rw (t, kept) (ap some (filter_newer (1 + s) r (x ∷ xs) n ∙ ap (λ i. drop i (x ∷ xs)) e))
]

bridge-newest :
    (m r : ℕ) (h : List GraphChangeEvent)
    → 0 < m
    → 0 < length h
    → Numbered 1 h
    → bridge r (drop (length h - m) h) ≡ (if ltb (r + m) (length h) then none else some (drop r h))
bridge-newest m r h pos some_event num =
    let k : ℕ = length h - m in
    let at_k : bridge r (drop k h) ≡ (if ltb r k then none else some (drop (r - k) (drop k h))) =
      bridge-Numbered k r (drop k h) (Numbered-drop 1 k h num) (omega (arith, length-drop k h)) in
    elim (Bool-cases (ltb (r + m) (length h))) [
      | inl gap ↦ let t : ltb r k ≡ true = ground arith in rw gap (rw t at at_k)
      | inr kept ↦
          let t : ltb r k ≡ false = ground arith in
          let e : k + (r - k) ≡ r = ground arith in
          rw kept ((rw t at at_k) ∙ ap some (drop-drop (r - k) k h ∙ ap (λ i. drop i h) e))
    ]

events_since-Refines :
    {W : Type 0} (b : GraphChangeBuffer W) (h : List GraphChangeEvent) (r : ℕ)
    → 0 < b.max_size
    → Refines b h
    → events_since b r ≡ replayable b.max_size r h
unfolding events_since bridge
events_since-Refines b [] r pos i =
    rw (i.revision, i.events, drop-nil (0 - b.max_size))
      (ground (arith, drop-nil {A = GraphChangeEvent} r))
events_since-Refines b (x ∷ xs) r pos i =
    rw (i.revision, i.events)
      (ap (λ o. if ltb (length (x ∷ xs)) r then none else o)
        (bridge-newest b.max_size r (x ∷ xs) pos (omega arith) i.numbered))

run-Refines :
    {W : Type 0} (qs : List (Request W)) (b : GraphChangeBuffer W) (h : List GraphChangeEvent)
    (w : W)
    → Refines b h
    → Refines (run qs b w).0 (history qs h) × ((run qs b w).0.max_size ≡ b.max_size)
unfolding run
run-Refines [] b h w i = (i, refl)
run-Refines (q ∷ qs) b h w i =
    let (b', w') = perform q b w in
    let (r, e) = run-Refines qs b' (extend q h) w' (perform-Refines q b h w i) in
    (r, e ∙ max_size-perform q b w)

-- A buffer of size m > 0 that began empty, after any sequence of publish, subscribe and unsubscribe
-- calls whose events in full are `history requests []`: `events_since r` is `none` exactly if `r` is
-- beyond the number of events published or more than `m` events came after `r`; otherwise it is the
-- complete list of the events that came after `r`, in order.
pub events_since_exact :
    {W : Type 0} (requests : List (Request W)) (m r : ℕ) (w : W)
    → 0 < m
    → events_since (run requests (init m) w).0 r ≡ replayable m r (history requests [])
unfolding init
events_since_exact requests m r w pos =
    let (i, e) =
      run-Refines requests (init m) [] w
        (record { numbered = tt; revision = refl; events = sym (drop-nil (0 - m)) }) in
    events_since-Refines (run requests (init m) w).0 (history requests []) r (rw e pos) i
    ∙ ap (λ n. replayable n r (history requests [])) e
