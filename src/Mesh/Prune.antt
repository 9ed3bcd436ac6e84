-- ===== src/Mesh/Prune.antt =====
-- What the pruning of older snapshots deletes.
use hass_ontology_fix.Common.{
  ℕ, zero, suc, ◌+◌, ◌-◌, ◌*◌, ◌≤◌, min, ◌≡◌, refl, sym, ap, ◌∙◌, inl, inr, String, Bool, true,
  false, not, Option, none, some, List, [], ◌∷◌, filter, length, ltb, ltb→lt, Bool-cases,
  if◌then◌else◌, arith,
}
use hass_ontology_fix.Common.Errors.{
  Exception, Result, ok, Action, ◌>>=◌, pure, is_ok, continue, continue-ok,
}
use mathlib.Core.Path.{subst}
use hass_ontology_fix.Mesh.{
  HeldLink, MeshGraph, write_batch_size, max_prune_batches, is_history, delete_first, at_most,
  prune_query, answer_query, send, prune_batches, prune_history_siblings,
}

pub at_most-min : (limit n : ℕ) → at_most limit n ≡ min limit n
at_most-min limit n = ground arith

le_of_ltb : (a b : ℕ) → ltb a b ≡ false → b ≤ a
le_of_ltb a b h = ground arith

module _ (p : HeldLink → Bool) where
  abbrev pub count : List HeldLink → ℕ
  count links = length (filter p links)

  abbrev pub others : List HeldLink → List HeldLink
  others = filter (λ l. not (p l))

  count-delete_first :
      (n : ℕ) (links : List HeldLink) → count (delete_first p n links) ≡ count links - n
  count-delete_first n [] = omega arith
  count-delete_first zero (l ∷ links) = omega arith
  count-delete_first (suc n) (l ∷ links) = elim (Bool-cases (p l)) [
    | inl e ↦ rw e (omega (arith, count-delete_first n links))
    | inr e ↦ rw e (rw e (omega (arith, count-delete_first (suc n) links)))
  ]

  others-delete_first :
      (n : ℕ) (links : List HeldLink) → others (delete_first p n links) ≡ others links
  others-delete_first n [] = refl
  others-delete_first zero (l ∷ links) = refl
  others-delete_first (suc n) (l ∷ links) = elim (Bool-cases (p l)) [
    | inl e ↦ rw e (others-delete_first n links)
    | inr e ↦ rw e (rw e (ap (λ (xs : List HeldLink). l ∷ xs) (others-delete_first (suc n) links)))
  ]

module _ (errors : ℕ → Option Exception) (newest : String) where
  abbrev Pruned : ℕ → ℕ → MeshGraph → Result ℕ × MeshGraph → Type 0
  Pruned n total g x =
      (x.0 ≡ ok (total + min (250 * n) (count (is_history newest) g.links)))
      × (count (is_history newest) x.1.links ≡ count (is_history newest) g.links - 250 * n)
      × (others (is_history newest) x.1.links ≡ others (is_history newest) g.links)

  replied :
      (o : Option Exception) (g : MeshGraph)
      → is_ok (answer_query o (prune_query newest) g).0 ≡ true
      → (answer_query o (prune_query newest) g)
        ≡ (ok (prune_query newest g).0, (prune_query newest g).1)
  replied none g h = refl
  replied (some e) g h = absurd cc

  prune_batches_exact :
      (n total : ℕ) (g : MeshGraph)
      → is_ok (prune_batches errors n newest total g).0 ≡ true
      → Pruned n total g (prune_batches errors n newest total g)
  unfolding prune_batches send
  prune_batches_exact zero total g h = (ap (λ (k : ℕ). ok k) (omega arith), omega arith, refl)
  prune_batches_exact (suc n) total g h =
      let test = is_history newest in
      let c = count test g.links in
      let m = send errors (prune_query newest) in
      let k : ℕ → Action MeshGraph ℕ = λ deleted.
        if ltb deleted write_batch_size
        then pure (total + deleted)
        else prune_batches errors n newest (total + deleted) in
      let g0 = record g { sent = suc g.sent } in
      let d = at_most write_batch_size c in
      let g1 = (prune_query newest g0).1 in
      let (_, p, _) = continue-ok (m g).0 k (m g).1 h in
      let whole : (m >>= k) g ≡ k d g1 =
        ap (λ (x : Result ℕ × MeshGraph). continue x.0 k x.1)
          (replied (errors g.sent) g0 (rw p refl)) in
      let left = count-delete_first test write_batch_size g.links in
      let same = others-delete_first test write_batch_size g.links in
      let small = at_most-min write_batch_size c in
      let returned : is_ok (k d g1).0 ≡ true =
        sym (ap (λ (x : Result ℕ × MeshGraph). is_ok x.0) whole) ∙ h in
      subst (Pruned (suc n) total g) (sym whole) (elim (Bool-cases (ltb d write_batch_size)) [
        | inl e ↦
            let few = ltb→lt d write_batch_size e in
            rw e (
              ap (λ (i : ℕ). ok i) (omega (arith, small, few)),
              omega (arith, left, small, few),
              same,
            )
        | inr e ↦
            let full = le_of_ltb d write_batch_size e in
            let (r1, r2, r3) = prune_batches_exact n (total + d) g1 (rw e at returned) in
            rw e (
              r1 ∙ ap (λ (i : ℕ). ok i) (omega (arith, small, full, left)),
              omega (arith, r2, left, small, full),
              r3 ∙ same,
            )
      ])

  pruned_in_all :
      (n limit : ℕ) (g : MeshGraph)
      → 250 * n ≡ limit
      → is_ok (prune_batches errors n newest 0 g).0 ≡ true
      → ((prune_batches errors n newest 0 g).0 ≡ ok (min limit (count (is_history newest) g.links)))
        × (count (is_history newest) (prune_batches errors n newest 0 g).1.links
            ≡ count (is_history newest) g.links - limit)
        × (others (is_history newest) (prune_batches errors n newest 0 g).1.links
            ≡ others (is_history newest) g.links)
  pruned_in_all n limit g e h =
      let (r1, r2, r3) = prune_batches_exact n 0 g h in
      (r1 ∙ ap (λ (i : ℕ). ok i) (omega (arith, e)), omega (arith, r2, e), r3)

  -- A pruning that returns has deleted the links of older snapshots that are no tree links, or 50000 of them
  -- if there are more, and returns how many. The links of the newest snapshot, the tree links and those of
  -- an unknown relationship are left as they were.
  pub prune_history_exact :
      (g : MeshGraph)
      → let history = is_history newest in
        let after = (prune_history_siblings errors newest g).1 in
        is_ok (prune_history_siblings errors newest g).0 ≡ true
        → ((prune_history_siblings errors newest g).0 ≡ ok (min 50000 (count history g.links)))
          × (count history after.links ≡ count history g.links - 50000)
          × (others history after.links ≡ others history g.links)
  unfolding prune_history_siblings
  prune_history_exact g h = pruned_in_all max_prune_batches 50000 g refl h
