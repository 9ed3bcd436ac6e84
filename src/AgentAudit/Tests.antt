-- ===== src/AgentAudit/Tests.antt =====
-- Three stored records, their summary, and an append that drops a record of the past.
use hass_ontology_fix.Common.{
  ℕ, ◌*◌, ◌≡◌, refl, String, Option, none, some, List, [], ◌∷◌, length, filter, str_eq,
  if◌then◌else◌,
}
use hass_ontology_fix.Common.Json.{Json, Fields}
use hass_ontology_fix.Redact.{redact_fields, redact_text}
use hass_ontology_fix.AgentAudit.{async_append_record, async_summarize}
use hass_ontology_fix.AgentAudit.Summary.{count_at, is_counted, summarize_exact}

abbrev entry : String → String → String → Fields
entry event status timestamp = Fields.field "event" (Json.string event) (
    Fields.field "status" (Json.string status) (
      Fields.field "query" (Json.string "?")
        (Fields.field "timestamp" (Json.string timestamp) Fields.end)))

abbrev records : List Fields
records = entry "mcp_tool_call" "ok" "day 0" ∷ entry "mcp_tool_call" "ok" "day 9" ∷ []

abbrev time_of : String → Option ℕ
time_of timestamp = if str_eq timestamp "day 0" then some 0 else none

appended :
    async_append_record time_of
      (Fields.field "event"
        (Json.string "assist_query")
        (Fields.field "query" (Json.string "?") Fields.end))
      (31 * 24 * 3600 * 1000000)
      records
    ≡ entry "mcp_tool_call" "ok" "day 9"
      ∷ Fields.field "event" (Json.string "assist_query") Fields.end
      ∷ []
unfolding async_append_record redact_fields redact_text
appended = refl

summarize_exact_example :
    count_at "mcp_tool_call" "ok" (async_summarize records)
    ≡ length (filter (is_counted "mcp_tool_call" "ok") records)
summarize_exact_example = summarize_exact "mcp_tool_call" "ok" records
