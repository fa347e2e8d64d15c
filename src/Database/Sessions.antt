-- ===== src/Database/Sessions.antt =====
-- The session that is kept for the agent, sessionProjection and projectSessionEvent of
-- src/main/database.ts. The schemas of an entry and of a checkpoint pass what `createId` and
-- SHA-256 give. The codes of the numbers that are not negative are a parameter.
pub mod Clean
pub mod Projected
use adrouter_agent.Prelude.{if◌then◌else◌, Text, codes, ℕ, Bool, Option, none, some, List, [], ◌∷◌}
use adrouter_agent.Json.{
  Json, null, bool, num, str, arr, obj, Fields, end, field, remove_sponsor_data,
  contains_sponsor_key,
}
use adrouter_agent.Manifest.{}
use adrouter_agent.Database.{
  message_user, message_complete, tool_result, approval_resolved, file_change, diff_change,
  operation_completed, compaction, runtime_crash, JournalEvent, SessionEntryKind, entry_user,
  entry_assistant, entry_tool_result, entry_compaction, entry_anchor,
}
use adrouter_agent.Database.Payloads.{
  lookup, safe_record, as_string, or_empty_array, truthy, optional_field, when_some,
}

pub record Projection : Type 0 where
  pub kind : SessionEntryKind
  pub payload : Json

abbrev pub token_count : (ℕ → Bool) → Option Json → Json
token_count is_count none = num 0
token_count is_count (some (num n)) = if is_count n then num n else num 0
token_count is_count (some null) = num 0
token_count is_count (some (bool b)) = num 0
token_count is_count (some (str s)) = num 0
token_count is_count (some (arr items)) = num 0
token_count is_count (some (obj fields)) = num 0

unfoldable pub usage_json : (ℕ → Bool) → Fields → Json
usage_json is_count usage = obj (
    field (codes "input") (token_count is_count (lookup (codes "input") usage)) (
      field (codes "output") (token_count is_count (lookup (codes "output") usage)) (
        field (codes "cacheRead") (token_count is_count (lookup (codes "cacheRead") usage)) (
          field (codes "cacheWrite") (token_count is_count (lookup (codes "cacheWrite") usage)) (
            field (codes "totalTokens") (token_count is_count (lookup (codes "totalTokens") usage))
              end)))))

abbrev pub optional_record : Option Json → Fields
optional_record none = end
optional_record (some j) = safe_record j

abbrev pub optional_text : Option Text → Option Json
optional_text none = none
optional_text (some s) = some (str s)

unfoldable pub project_user : Fields → Option Projection
project_user payload = when_some (as_string (lookup (codes "text") payload)) (λ text. some (record {
  kind = entry_user;
  payload = obj (
      field (codes "role") (str (codes "user")) (
        field (codes "text") (str text) (
          optional_field (codes "mode") (optional_text (as_string (lookup (codes "mode") payload)))
            end)));
}))

unfoldable pub project_assistant : (ℕ → Bool) → Fields → Option Projection
project_assistant is_count payload = when_some (as_string (lookup (codes "text") payload)) (λ text.
    some (record {
      kind = entry_assistant;
      payload = obj (
          field (codes "role") (str (codes "assistant")) (
            field (codes "text") (str text) (
              field (codes "content")
                (remove_sponsor_data (or_empty_array (lookup (codes "content") payload)))
                (field (codes "model")
                  (str (elim (as_string (lookup (codes "model") payload)) [
                    | none ↦ codes "unknown"
                    | some model ↦ model
                  ]))
                  (field (codes "usage")
                    (usage_json is_count (optional_record (lookup (codes "usage") payload)))
                    end)))));
    }))

unfoldable pub project_tool : Fields → Option Projection
project_tool payload = when_some (as_string (lookup (codes "name") payload)) (λ name.
    when_some (as_string (lookup (codes "toolCallId") payload)) (λ call.
      when_some (as_string (lookup (codes "output") payload)) (λ output. some (record {
        kind = entry_tool_result;
        payload = obj (
            field (codes "name") (str name) (
              field (codes "toolCallId") (str call) (
                field (codes "output") (str output) (
                  field (codes "isError") (bool (truthy (lookup (codes "isError") payload)))
                    end))));
      }))))

-- The fields of a compaction that are copied; undefined ones are not written.
abbrev pub copied_fields : List Text
copied_fields =
    codes "outcome"
    ∷ codes "droppedMessages"
    ∷ codes "tokensBefore"
    ∷ codes "tokensAfter"
    ∷ codes "modelAssisted"
    ∷ []

unfoldable pub copy_fields : List Text → Fields → Fields → Fields
copy_fields [] payload rest = rest
copy_fields (key ∷ keys) payload rest =
    optional_field key (lookup key payload) (copy_fields keys payload rest)

unfoldable pub project_compaction : Fields → Option Projection
project_compaction payload = when_some (as_string (lookup (codes "summary") payload)) (λ summary.
    some (record {
      kind = entry_compaction;
      payload = obj (
          field (codes "summary") (str summary) (
            copy_fields copied_fields payload (
              field (codes "retainedMessages")
                (remove_sponsor_data (or_empty_array (lookup (codes "retainedMessages") payload)))
                end)));
    }))

unfoldable pub project_anchor : Text → Fields → Option Projection
project_anchor name payload = some (record {
  kind = entry_anchor;
  payload = obj (
      field (codes "eventType") (str name)
        (field (codes "value") (remove_sponsor_data (obj payload)) end));
})

unfoldable pub session_projection : (ℕ → Bool) → JournalEvent → Option Projection
session_projection is_count event =
    let payload = safe_record event.payload in
    if contains_sponsor_key event.payload then none else elim event.event_type [
      | message_user ↦ project_user payload
      | message_complete ↦ project_assistant is_count payload
      | tool_result ↦ project_tool payload
      | compaction ↦ project_compaction payload
      | approval_resolved ↦ project_anchor (codes "approval.resolved") payload
      | file_change ↦ project_anchor (codes "file.change") payload
      | diff_change ↦ project_anchor (codes "diff.change") payload
      | operation_completed ↦ project_anchor (codes "operation.completed") payload
      | runtime_crash ↦ project_anchor (codes "runtime.crash") payload
      | _ ↦ none
    ]
