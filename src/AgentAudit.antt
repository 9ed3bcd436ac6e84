-- ===== src/AgentAudit.antt =====
-- agent_audit.py: the stored audit records of an entry, oldest first. A record is a JSON object whose event,
-- status and timestamp are texts. Reading a date is the library's, so it is an argument: the microseconds
-- of a text that is a date.
mod Summary
mod Tests
use hass_ontology_fix.Common.{
  ℕ, suc, ◌-◌, ◌*◌, ltb, ◌==◌, length, String, Bool, true, false, ◌||◌, not, Option, none, some,
  List, [], ◌∷◌, ◌++◌, any, filter, foldl, str_eq, if◌then◌else◌,
}
use hass_ontology_fix.Common.Dict.{Dict, lookup, insert}
use hass_ontology_fix.Common.Json.{Json, Fields, get}
use hass_ontology_fix.Redact.{redact_fields}

abbrev pub text_or : String → Option Json → String
text_or default (some (Json.string s)) = s
text_or default _ = default

abbrev common_fields : List String
common_fields = "event" ∷ "status" ∷ "result_count" ∷ "error_category" ∷ "timestamp" ∷ []

abbrev event_fields : Dict (List String)
event_fields =
    ("assist_query", common_fields ++ ("intent" ∷ []))
    ∷ ("mcp_tool_call", common_fields ++ ("tool" ∷ "client_id" ∷ []))
    ∷ ("mcp_write_rejected", common_fields ++ ("tool" ∷ "client_id" ∷ "rejected_operation" ∷ []))
    ∷ ("mcp_auth_rejected", common_fields ++ ("tool" ∷ "client_id" ∷ []))
    ∷ ("impact_analysis", common_fields ++ ("scope" ∷ "has_dependencies" ∷ []))
    ∷ ("context_export", common_fields ++ ("export_type" ∷ []))
    ∷ []

abbrev or_common : Option (List String) → List String
or_common none = common_fields
or_common (some fields) = fields

abbrev pub allowed_fields : Fields → List String
allowed_fields entry = or_common (lookup (text_or "None" (get "event" entry)) event_fields)

-- The fields that are allowed; a Python set has no order, so the record's is kept.
abbrev pub only : List String → Fields → Fields
only allowed Fields.end = Fields.end
only allowed (Fields.field key value fields) =
    let rest = only allowed fields in
    if any (str_eq key) allowed then Fields.field key value rest else rest

abbrev pub retention : ℕ
retention = 30 * 24 * 3600 * 1000000

unfoldable pub safe_record : Fields → Fields
safe_record entry = redact_fields (only (allowed_fields entry) entry)

module _ (time_of : String → Option ℕ) where
  abbrev is_old : Option ℕ → ℕ → Bool
  is_old none now = false
  is_old (some recorded_at) now = ltb retention (now - recorded_at)

  -- `_is_expired`: an empty timestamp is none, as one that is no date.
  abbrev pub is_expired : ℕ → Fields → Bool
  is_expired now entry =
      let timestamp = text_or "" (get "timestamp" entry) in
      if str_eq timestamp "" then false else is_old (time_of timestamp) now

  unfoldable pub async_append_record : Fields → ℕ → List Fields → List Fields
  unfolding safe_record
  async_append_record entry now records =
      filter (λ r. not (is_expired now r)) records ++ (safe_record entry ∷ [])

  -- What is stored after the sweep, and whether it was saved.
  unfoldable pub async_prune_expired : ℕ → List Fields → List Fields × Bool
  async_prune_expired now records =
      let pruned = filter (λ r. not (is_expired now r)) records in
      if length pruned == length records then (records, false) else (pruned, true)

abbrev pub or_zero : Option ℕ → ℕ
or_zero none = 0
or_zero (some n) = n

abbrev pub or_empty : Option (Dict ℕ) → Dict ℕ
or_empty none = []
or_empty (some d) = d

abbrev pub event_of : Fields → String
event_of entry = text_or "unknown" (get "event" entry)

abbrev pub status_of : Fields → String
status_of entry = text_or "unknown" (get "status" entry)

abbrev pub count_record : Dict (Dict ℕ) → Fields → Dict (Dict ℕ)
count_record summary entry =
    let by_status = or_empty (lookup (event_of entry) summary) in
    insert (event_of entry)
      (insert (status_of entry) (suc (or_zero (lookup (status_of entry) by_status))) by_status)
      summary

unfoldable pub async_summarize : List Fields → Dict (Dict ℕ)
async_summarize records = foldl count_record [] records
