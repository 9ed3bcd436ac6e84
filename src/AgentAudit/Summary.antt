-- ===== src/AgentAudit/Summary.antt =====
-- The summary counts the records, and a sweep is the same whether it saves or not.
use hass_ontology_fix.Common.{
  ℕ, suc, ◌+◌, length, ◌≡◌, refl, ap, ◌∙◌, String, Bool, ◌&&◌, List, [], ◌∷◌, filter, foldl, str_eq,
  eq_iff, if◌then◌else◌, Bool-cases, inl, inr, arith,
}
use hass_ontology_fix.Common.Dict.{Dict, lookup, insert, lookup-insert}
use hass_ontology_fix.Common.Json.{Fields}
use hass_ontology_fix.AgentAudit.{
  or_zero, or_empty, event_of, status_of, count_record, async_summarize,
}

-- The number that a summary has for an event and a status.
abbrev pub count_at : String → String → Dict (Dict ℕ) → ℕ
count_at event status summary = or_zero (lookup status (or_empty (lookup event summary)))

abbrev pub is_counted : String → String → Fields → Bool
is_counted event status entry = str_eq (event_of entry) event && str_eq (status_of entry) status

abbrev count_in : String → Dict ℕ → Dict ℕ
count_in s by_status = insert s (suc (or_zero (lookup s by_status))) by_status

count_in-lookup :
    (s status : String) (d : Dict ℕ)
    → or_zero (lookup status (count_in s d))
      ≡ (if str_eq s status then suc (or_zero (lookup status d)) else or_zero (lookup status d))
count_in-lookup s status d =
    rw (lookup-insert s status (suc (or_zero (lookup s d))) d)
      (elim (Bool-cases (str_eq s status)) [
        | inl p ↦ rw p (ap (λ (x : String). suc (or_zero (lookup x d))) ((eq_iff s status).0 p))
        | inr p ↦ rw p refl
      ])

count_step :
    (e s event status : String) (summary : Dict (Dict ℕ))
    → count_at event status (insert e (count_in s (or_empty (lookup e summary))) summary) ≡ (
        if str_eq e event && str_eq s status
        then suc (count_at event status summary)
        else count_at event status summary)
count_step e s event status summary =
    rw (lookup-insert e event (count_in s (or_empty (lookup e summary))) summary)
      (elim (Bool-cases (str_eq e event)) [
        | inl p ↦ rw p (
            ap (λ (x : String). or_zero (lookup status (count_in s (or_empty (lookup x summary)))))
              ((eq_iff e event).0 p)
            ∙ count_in-lookup s status (or_empty (lookup event summary)))
        | inr p ↦ rw p refl
      ])

count_all :
    (event status : String) (records : List Fields) (summary : Dict (Dict ℕ))
    → count_at event status (foldl count_record summary records)
      ≡ length (filter (is_counted event status) records) + count_at event status summary
count_all event status [] summary = omega arith
count_all event status (entry ∷ records) summary =
    count_all event status records (count_record summary entry)
    ∙ ground (arith, count_step (event_of entry) (status_of entry) event status summary)

-- The summary's number for an event and a status is the number of stored records with both, where a
-- record without one of them counts as unknown there, and an absent number is none.
pub summarize_exact :
    (event status : String) (records : List Fields)
    → count_at event status (async_summarize records)
      ≡ length (filter (is_counted event status) records)
unfolding async_summarize
summarize_exact event status records = count_all event status records [] ∙ ground arith
