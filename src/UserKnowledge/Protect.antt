-- ===== src/UserKnowledge/Protect.antt =====
-- The inference of roles leaves the user's assignments alone.
use hass_ontology_fix.Common.{
  ℕ, suc, ◌≡◌, refl, ◌∙◌, String, Bool, true, false, Option, none, some, List, [], ◌∷◌, str_eq,
  if◌then◌else◌, Bool-cases, inl, inr,
}
use hass_ontology_fix.Common.Errors.{Exception, Action, ◌>>=◌, pure, continue-keeps}
use hass_ontology_fix.Classify.Home.{Home}
use hass_ontology_fix.Classify.EnergyRole.{EnergyRole, infer_energy_role}
use hass_ontology_fix.UserKnowledge.{
  Source, user, inferred, Assignment, Graph, Candidate, upsert_assignment, delete_from, repair,
  reply_by, ask, reconcile_role, reconcile_ids, async_reconcile_energy_role_for_entity,
  async_repair_energy_role_bindings, async_reconcile_energy_roles,
}

module _ (k : String) where
  reply-keeps :
      {A : Type 0} (o : Option Exception) (query : Graph → A × Graph) (g : Graph)
      → (query g).1.assignments k ≡ g.assignments k
      → (reply_by o query g).1.assignments k ≡ g.assignments k
  reply-keeps none query g h = h
  reply-keeps (some e) query g h = refl

  upsert_assignment-keeps :
      (id : String) (a : Assignment) (g : Graph)
      → str_eq k id ≡ false
      → (upsert_assignment id a g).assignments k ≡ g.assignments k
  upsert_assignment-keeps id a g h = elim (Bool-cases (g.entities a.measurement_entity_id)) [
    | inl e ↦ rw e (rw h refl)
    | inr e ↦ rw e refl
  ]

  delete-keeps :
      (id : String) (source : Source) (g : Graph)
      → str_eq k id ≡ false
      → (delete_from id source g).assignments k ≡ g.assignments k
  delete-keeps id source g h = rw h refl

module _ (assignment_id : Source → String → String) (candidates : String → Graph → List Candidate)
    (replies : ℕ → Option Exception) (home : Home) (k : String)
    (apart : (e : String) → str_eq k (assignment_id inferred e) ≡ false) where
  abbrev Keeps : {A : Type 0} → Action Graph A → Type 0
  Keeps m = (g : Graph) → (m g).1.assignments k ≡ g.assignments k

  bind-Keeps :
      {A B : Type 0} (m : Action Graph A) (f : A → Action Graph B)
      → Keeps m
      → ((a : A) → Keeps (f a))
      → Keeps (m >>= f)
  bind-Keeps m f h hf g =
      continue-keeps (λ (v : Graph). v.assignments k) (m g).0 f (m g).1 (λ a v. hf a v) ∙ h g

  reconcile_role-Keeps :
      (entity_id : String) (o : Option EnergyRole)
      → Keeps (reconcile_role assignment_id candidates replies entity_id o)
  unfolding ask
  reconcile_role-Keeps entity_id none =
      bind-Keeps
        (ask assignment_id candidates replies
          (λ g. (tt, delete_from (assignment_id inferred entity_id) inferred g)))
        (λ _. pure false)
        (λ g. reply-keeps k (replies g.sent) _ _ (
          delete-keeps k (assignment_id inferred entity_id) inferred
            (record g { sent = suc g.sent }) (apart entity_id)))
        (λ _ _. refl)
  reconcile_role-Keeps entity_id (some role) =
      let a : Assignment = record {
        measurement_entity_id = entity_id;
        role = role;
        source = inferred;
      } in
      bind-Keeps
        (ask assignment_id candidates replies
          (λ g. (tt, upsert_assignment (assignment_id inferred entity_id) a g)))
        (λ _. pure true)
        (λ g. reply-keeps k (replies g.sent) _ _ (
          upsert_assignment-keeps k (assignment_id inferred entity_id) a
            (record g { sent = suc g.sent }) (apart entity_id)))
        (λ _ _. refl)

  reconcile_ids-Keeps :
      (ids : List String) → Keeps (reconcile_ids assignment_id candidates replies home ids)
  unfolding reconcile_ids async_reconcile_energy_role_for_entity
  reconcile_ids-Keeps [] = λ (g : Graph). refl
  reconcile_ids-Keeps (entity_id ∷ ids) =
      let rest = reconcile_ids assignment_id candidates replies home ids in
      bind-Keeps
        (reconcile_role assignment_id candidates replies entity_id
          (infer_energy_role home entity_id))
        _ (reconcile_role-Keeps entity_id (infer_energy_role home entity_id))
        (λ (b : Bool).
          bind-Keeps rest (λ (count : ℕ). pure (if b then suc count else count))
            (reconcile_ids-Keeps ids) (λ _ _. refl))

  repair-Keeps : Keeps (async_repair_energy_role_bindings assignment_id candidates replies)
  unfolding async_repair_energy_role_bindings ask
  repair-Keeps g =
      reply-keeps k (replies g.sent) (λ v. (tt, repair v)) (record g { sent = suc g.sent }) refl

  reconcile-Keeps :
      (ids : List String)
      → Keeps (async_reconcile_energy_roles assignment_id candidates replies home ids)
  unfolding async_reconcile_energy_roles
  reconcile-Keeps ids =
      bind-Keeps (reconcile_ids assignment_id candidates replies home ids) _
        (reconcile_ids-Keeps ids)
        (λ (n : ℕ).
          bind-Keeps (async_repair_energy_role_bindings assignment_id candidates replies)
            (λ _. pure n) repair-Keeps (λ _ _. refl))

-- Reconciling the inferred roles of any entities leaves the user's assignment for each entity as it was,
-- whatever the client raises. No id of a user's assignment may be one of an inferred assignment.
pub reconcile_respects_user :
    (assignment_id : Source → String → String) (candidates : String → Graph → List Candidate)
    (replies : ℕ → Option Exception) (home : Home) (ids : List String) (g : Graph)
    (entity_id : String)
    → ((e e' : String) → str_eq (assignment_id user e) (assignment_id inferred e') ≡ false)
    → (async_reconcile_energy_roles assignment_id candidates replies home ids g).1.assignments
        (assignment_id user entity_id)
      ≡ g.assignments (assignment_id user entity_id)
reconcile_respects_user assignment_id candidates replies home ids g entity_id apart =
    reconcile-Keeps assignment_id candidates replies home (assignment_id user entity_id)
      (apart entity_id) ids g
