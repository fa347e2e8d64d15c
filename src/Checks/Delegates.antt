-- ===== src/Checks/Delegates.antt =====
-- A delegated task at concrete inputs.
use adrouter_agent.Scheduler.{workspace_write}
use adrouter_agent.Prelude.{
  length, codes, same_text, lower_unit, to_lower_case, text_in, starts_with, is_space, trim_start,
  trim, ◌≤◌, ◌≡◌, refl, inl, inr, true, false, none, some, [], ◌∷◌,
}
use adrouter_agent.Json.{is_sponsor_key, contains_sponsor_key}
use adrouter_agent.TaskPolicy.{
  full_task_capability_policy, effective_task_capability_policy, OperationCapability,
  delegation_start, capability_text, operation_capability_allowed, inherited, TaskPolicySnapshot,
  snapshot_is_valid, finalize_snapshot, project_default_policy_snapshot, inherited_policy_snapshot,
}
use adrouter_agent.Manifest.{OperationManifest, operation_manifest_binding}
use adrouter_agent.Manifest.Schema.{is_hash, manifest_is_consistent, manifest_is_valid}
use adrouter_agent.Manifest.Operations.{matches_expected, assert_operation_manifest}
use adrouter_agent.Manifest.Delegation.{
  title_is_safe, prompt_is_safe, has_no_authority, assert_own, start_arguments_of,
  delegation_arguments,
}
use adrouter_agent.Database.{
  thread_status_text, Thread, thread_lifecycle, Database, find_row, update_rows, max_of,
  get_project, get_thread,
}
use adrouter_agent.Database.Payloads.{safe_record}
use adrouter_agent.Database.Sessions.{session_projection}
use adrouter_agent.Database.Journal.{
  project_session_event, next_event, insert_event_row, append_event,
}
use adrouter_agent.Database.Threads.{
  status_payload, thread_is_valid, starting_policy, make_thread, references_exist, and_append,
  create_thread, insert_newest, newest_first, list_threads, get_task_policy_snapshot,
}
use adrouter_agent.Tasks.{TaskError, delegation_context, owned_delegated_children, admit_delegated}
use adrouter_agent.Tasks.Delegated.{
  admit_delegated-IsBounded, admit_delegated-IsNarrower, admit_delegated-depth,
}
use adrouter_agent.Checks.Samples.{at_time, manifest, digest, task, task_event, task_db}

-- The task delegates.
abbrev child_snapshot : TaskPolicySnapshot
child_snapshot = record {
  body = record {
    source = inherited;
    preset_id = none;
    preset_name = none;
    preset_digest = none;
    extra_instructions = "";
    capability_policy = record {
      workspace_access = workspace_write;
      file_mutations = true;
      general_commands = true;
      network_fetch = true;
      dependency_changes = true;
      git_writes = true;
      delegation = false;
    };
    captured_at = 2000;
  };
  snapshot_digest = "digest";
}

abbrev delegate : Thread
delegate = record task {
  id = codes "c";
  parent_thread_id = some (codes "t");
  title = codes "Write tests";
  label = some (codes "Delegated");
  policy_snapshot = some child_snapshot;
  created_at = 2000 ∷ [];
  updated_at = 2000 ∷ [];
}

abbrev delegate_db : Database
delegate_db = record task_db {
  threads = task ∷ delegate ∷ [];
  events =
      task_event
      ∷ (record {
        id = 2000 ∷ [];
        thread_id = codes "c";
        turn_id = none;
        sequence = 1;
        event_type = thread_lifecycle;
        timestamp = 2000 ∷ [];
        payload = status_payload (codes "idle");
      })
      ∷ [];
}

delegate_admitted :
    admit_delegated digest (at_time 2000) (codes "c") manifest task_db
    ≡ inr (delegate, codes "For the parser.", delegate_db)
unfolding admit_delegated delegation_arguments assert_own start_arguments_of has_no_authority
    title_is_safe prompt_is_safe assert_operation_manifest matches_expected manifest_is_valid
    operation_manifest_binding manifest_is_consistent is_hash capability_text starts_with
    delegation_context get_task_policy_snapshot effective_task_capability_policy
    owned_delegated_children list_threads newest_first insert_newest inherited_policy_snapshot
    create_thread get_project find_row starting_policy project_default_policy_snapshot
    full_task_capability_policy finalize_snapshot snapshot_is_valid make_thread thread_is_valid
    references_exist and_append append_event next_event insert_event_row get_thread update_rows
    max_of project_session_event session_projection contains_sponsor_key is_sponsor_key
    to_lower_case text_in same_text lower_unit safe_record thread_status_text trim trim_start
    is_space
delegate_admitted = refl

admit_delegated-IsBounded_example :
    (some (codes "t") ≡ some (codes "t"))
    × (length (owned_delegated_children (codes "t") (codes "p") delegate_db) ≤ 3)
admit_delegated-IsBounded_example =
    admit_delegated-IsBounded digest (at_time 2000) (codes "c") manifest delegate
      (codes "For the parser.") task_db delegate_db delegate_admitted

admit_delegated-IsNarrower_example :
    (parent : TaskPolicySnapshot) × (s : TaskPolicySnapshot) × (get_task_policy_snapshot
        (codes "t")
        task_db
      ≡ inr parent)
    × (some child_snapshot ≡ some s)
    × (operation_capability_allowed s.body.capability_policy delegation_start ≡ false)
    × ((capability : OperationCapability)
        → operation_capability_allowed s.body.capability_policy capability ≡ true
        → operation_capability_allowed parent.body.capability_policy capability ≡ true)
admit_delegated-IsNarrower_example =
    admit_delegated-IsNarrower digest (at_time 2000) (codes "c") manifest delegate
      (codes "For the parser.") task_db delegate_db delegate_admitted

-- The manifest in the child's name.
abbrev own_manifest : OperationManifest
own_manifest = record manifest { unsigned = record (manifest.unsigned) { thread_id = codes "c" } }

admit_delegated-depth_example :
    (x : TaskError) × (admit_delegated digest (at_time 2500) (codes "d") own_manifest delegate_db
      ≡ inl x)
unfolding get_thread find_row same_text
admit_delegated-depth_example =
    admit_delegated-depth digest (at_time 2000) (at_time 2500) (codes "c") (codes "d") manifest
      own_manifest delegate (codes "For the parser.") task_db delegate_db refl delegate_admitted
      refl
