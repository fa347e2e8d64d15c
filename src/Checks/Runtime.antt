-- ===== src/Checks/Runtime.antt =====
-- The presence gate, the event stream, the command policy and the task policy at concrete inputs.
use adrouter_agent.Prelude.{
  if◌then◌else◌, is_some, length, Text, codes, same_text, lower_unit, to_lower_case, text_in,
  starts_with, includes, ends_with, split_on, is_space, trim_start, trim, fold_unit, fold_case, ℕ,
  ◌+◌, ◌<◌, String, ◌≡◌, refl, ◌≢◌, ◌↔◌, inr, true, false, none, some, List, [], ◌∷◌, ◌++◌,
}
use adrouter_agent.Presence.{
  PresenceGate, presence_ms, new_gate, arm, check, stop, start, passed, waiting, boundary,
}
use adrouter_agent.Presence.Attended.{
  Call, started, checked, call, attends, elapse, act, run, new_watch, boundary_attended, prompt_of,
}
use adrouter_agent.Ndjson.{
  other, Codec, malformed, ParsedNdjson, NdjsonParser, new_parser, split_lines, pop_line,
  account_tool_call, payload_of, process_payload, process_line, process_lines, nothing_parsed,
  add_trailing, drain, push, finish,
}
use adrouter_agent.Ndjson.Chunks.{join, push-append}
use adrouter_agent.Ndjson.Ends.{ends_return, finish-push}
use adrouter_agent.Ndjson.Limits.{}
use adrouter_agent.CommandPolicy.{
  is_sensitive_segment, matches_sensitive_path, behind_equals, argument_value, is_drive_path,
  is_outside_path, references_outside_workspace, references_sensitive_path, is_dependency_operation,
  is_test_command, contains_shell_syntax, last_text, drop_extension, command_name,
}
use adrouter_agent.CommandPolicy.Classify.{
  allow, classify_git, classify_interpreter, classify_program, classify_binary, classify_command,
  allow_once, reject, approval_allows_command,
}
use adrouter_agent.CommandPolicy.Laws.{
  approval_allows_command_iff, IsPlainName, branch_delete, classify_command-branch_delete,
}
use adrouter_agent.Scheduler.{read_only}
use adrouter_agent.TaskPolicy.{
  TaskCapabilityPolicy, full_task_capability_policy, effective_task_capability_policy, script_run,
  git_commit, capability_text, operation_capability_allowed, project_defaults, inherited,
  TaskPolicySnapshot, snapshot_is_valid, Digest, finalize_snapshot, inherited_policy_snapshot,
}
use adrouter_agent.TaskPolicy.Grants.{
  family, IsGranted, operation_capability_allowed_iff, self, child,
  inherited_policy_snapshot_weaker,
}

abbrev one_start : List (ℕ × String × Call)
one_start = (10, "id", started "task") ∷ (59999, "id", checked) ∷ []

start_running : is_some (run one_start new_watch).gate.task_id ≡ true
unfolding run act elapse call start stop arm check
start_running = refl

start_passed :
    (boundary (run one_start new_watch).now "id" 0 (some "task") (run one_start new_watch).gate).0
    ≡ passed
unfolding run act elapse call attends start stop arm check boundary
start_passed = refl

boundary_attended_example : (run one_start new_watch).idle < presence_ms
boundary_attended_example =
    boundary_attended one_start "id" 0 (some "task") start_running start_passed

-- A minute later the boundary is not passed.
start_unattended :
    (boundary
      ((run one_start new_watch).now + 1)
      "id"
      0
      (some "task")
      (run one_start new_watch).gate).0
    ≡ waiting
unfolding run act elapse call attends start stop arm check boundary
start_unattended = refl

abbrev prompted : PresenceGate
prompted = record new_gate {
  task_id = some "task";
  pending = some (prompt_of "task" "id");
  issued_at = 100;
}

abbrev codec : Codec
codec = record {
  byte_length = λ text. length text;
  parse_event = λ text. if starts_with text (codes "x") then none else some (other text);
  stringify_call = λ name args. codes name ++ args;
}

-- A stream in two chunks that part a carriage return from its line feed.
abbrev chunk_a : Text
chunk_a = b'a' ∷ 13 ∷ []

abbrev chunk_b : Text
chunk_b = 10 ∷ b'x' ∷ 10 ∷ b'b' ∷ []

abbrev after_a : NdjsonParser
after_a = record new_parser { remainder = chunk_a }

abbrev after_b : NdjsonParser
after_b = record {
  remainder = b'b' ∷ [];
  counters = record { event_count = 2; tool_argument_bytes = 0; tool_calls = [] };
}

abbrev parsed_b : ParsedNdjson
parsed_b = record { events = other (codes "a") ∷ []; errors = malformed (codes "x") ∷ [] }

push_a : push codec chunk_a new_parser ≡ (after_a, inr nothing_parsed)
unfolding push drain split_lines pop_line process_lines add_trailing
push_a = refl

push_b : push codec chunk_b after_a ≡ (after_b, inr parsed_b)
unfolding push drain split_lines pop_line process_lines process_line process_payload payload_of
    account_tool_call add_trailing trim trim_start is_space starts_with same_text
push_b = refl

push-append_example :
    push codec (chunk_a ++ chunk_b) new_parser ≡ (after_b, inr (join nothing_parsed parsed_b))
push-append_example =
    push-append codec chunk_a chunk_b new_parser after_a after_b nothing_parsed parsed_b push_a
      push_b

abbrev finished : NdjsonParser
finished = record {
  remainder = [];
  counters = record { event_count = 1; tool_argument_bytes = 0; tool_calls = [] };
}

abbrev parsed_end : ParsedNdjson
parsed_end = record { events = other (codes "a") ∷ []; errors = [] }

finish-push_example : finish codec [] after_b ≡ push codec (10 ∷ []) after_b
unfolding ends_return
finish-push_example = finish-push codec [] after_b refl refl

abbrev two_answers : List ParsedNdjson
two_answers = nothing_parsed ∷ parsed_end ∷ []

-- The folder above the workspace is listed without asking.
parent_listed : (classify_command (codes "ls" ∷ codes "./.." ∷ [])).disposition ≡ allow
unfolding classify_command classify_binary classify_program classify_git classify_interpreter
    contains_shell_syntax references_outside_workspace argument_value behind_equals is_outside_path
    is_drive_path references_sensitive_path matches_sensitive_path is_sensitive_segment
    is_dependency_operation is_test_command command_name split_on last_text drop_extension
    to_lower_case lower_unit ends_with includes starts_with text_in same_text fold_case fold_unit
    trim trim_start is_space
parent_listed = refl

approval_allows_command_iff_example :
    (approval_allows_command allow_once (codes "ls" ∷ []) (codes "ls" ∷ []) ≡ true)
    ↔ ((allow_once ≢ reject) × (codes "ls" ∷ [] ≡ codes "ls" ∷ []))
approval_allows_command_iff_example =
    approval_allows_command_iff allow_once (codes "ls" ∷ []) (codes "ls" ∷ [])

main-IsPlainName : IsPlainName (codes "main")
unfolding contains_shell_syntax references_outside_workspace argument_value behind_equals
    is_outside_path is_drive_path references_sensitive_path matches_sensitive_path
    is_sensitive_segment split_on includes starts_with text_in same_text fold_case fold_unit
main-IsPlainName = record {
  bounded = refl;
  plain = refl;
  inside = refl;
  open_path = refl;
  harmless = refl;
  no_flag = refl;
}

classify_command-branch_delete_example :
    (classify_command (branch_delete (codes "main"))).disposition ≡ allow
classify_command-branch_delete_example =
    classify_command-branch_delete (codes "main") main-IsPlainName

abbrev reader : TaskCapabilityPolicy
reader = full_task_capability_policy read_only true

operation_capability_allowed_iff_example :
    (operation_capability_allowed reader git_commit ≡ true) ↔ IsGranted reader (family git_commit)
operation_capability_allowed_iff_example = operation_capability_allowed_iff reader git_commit

abbrev digest : Digest
digest parent body = body.extra_instructions

abbrev root_snapshot : TaskPolicySnapshot
root_snapshot = record {
  body = record {
    source = project_defaults;
    preset_id = none;
    preset_name = none;
    preset_digest = none;
    extra_instructions = "";
    capability_policy = reader;
    captured_at = 0;
  };
  snapshot_digest = "";
}

abbrev child_snapshot : TaskPolicySnapshot
child_snapshot = record {
  body = record root_snapshot.body {
    source = inherited;
    capability_policy = record reader { delegation = false };
    captured_at = 7;
  };
  snapshot_digest = "";
}

child_made : inherited_policy_snapshot digest root_snapshot true 7 ≡ some child_snapshot
unfolding inherited_policy_snapshot finalize_snapshot snapshot_is_valid
child_made = refl

script_allowed :
    operation_capability_allowed child_snapshot.body.capability_policy script_run ≡ true
unfolding operation_capability_allowed effective_task_capability_policy full_task_capability_policy
    capability_text starts_with same_text
script_allowed = refl

inherited_policy_snapshot_weaker_example :
    operation_capability_allowed root_snapshot.body.capability_policy script_run ≡ true
inherited_policy_snapshot_weaker_example =
    inherited_policy_snapshot_weaker digest root_snapshot child_snapshot script_run
      (child true 7 (self root_snapshot) child_made) script_allowed
