-- ===== src/TaskPolicy.antt =====
-- What a task may do, src/shared/task-policy.ts: policies behind their schemas, and snapshots over
-- the digest and the clock, which the functions take.
pub mod Grants
use adrouter_agent.Prelude.{
  str_eq, if◌then◌else◌, is_some, Text, codes, same_text, starts_with, ℕ, String, Bool, true, false,
  not, ◌&&◌, ◌||◌, Option, none, some,
}
use adrouter_agent.Scheduler.{PermissionMode, read_only, workspace_write}

pub record TaskCapabilityPolicy : Type 0 where
  pub workspace_access : PermissionMode
  pub file_mutations : Bool
  pub general_commands : Bool
  pub network_fetch : Bool
  pub dependency_changes : Bool
  pub git_writes : Bool
  pub delegation : Bool

unfoldable pub full_task_capability_policy : PermissionMode → Bool → TaskCapabilityPolicy
full_task_capability_policy workspace_access delegation = record {
  workspace_access = workspace_access;
  file_mutations = true;
  general_commands = true;
  network_fetch = true;
  dependency_changes = true;
  git_writes = true;
  delegation = delegation;
}

unfoldable pub effective_task_capability_policy : TaskCapabilityPolicy → TaskCapabilityPolicy
effective_task_capability_policy policy = elim policy.workspace_access [
  | workspace_write ↦ policy
  | read_only ↦ record policy {
    file_mutations = false;
    dependency_changes = false;
    git_writes = false;
  }
]

pub data OperationCapability : Type 0 where
  file_copy file_move file_delete file_restore : OperationCapability
  dependency_preview dependency_apply dependency_lifecycle : OperationCapability
  script_run : OperationCapability
  git_branch_create git_switch git_stage git_stage_hunk git_commit git_push : OperationCapability
  network_get : OperationCapability
  delegation_start delegation_status delegation_message delegation_cancel : OperationCapability

-- The value of the enumeration.
unfoldable pub capability_text : OperationCapability → Text
capability_text file_copy = codes "file.copy"
capability_text file_move = codes "file.move"
capability_text file_delete = codes "file.delete"
capability_text file_restore = codes "file.restore"
capability_text dependency_preview = codes "dependency.preview"
capability_text dependency_apply = codes "dependency.apply"
capability_text dependency_lifecycle = codes "dependency.lifecycle"
capability_text script_run = codes "script.run"
capability_text git_branch_create = codes "git.branch.create"
capability_text git_switch = codes "git.switch"
capability_text git_stage = codes "git.stage"
capability_text git_stage_hunk = codes "git.stage.hunk"
capability_text git_commit = codes "git.commit"
capability_text git_push = codes "git.push"
capability_text network_get = codes "network.fetch"
capability_text delegation_start = codes "delegation.start"
capability_text delegation_status = codes "delegation.status"
capability_text delegation_message = codes "delegation.message"
capability_text delegation_cancel = codes "delegation.cancel"

unfoldable pub operation_capability_allowed : TaskCapabilityPolicy → OperationCapability → Bool
operation_capability_allowed raw capability =
    let policy = effective_task_capability_policy raw in
    let name = capability_text capability in
    if starts_with name (codes "file.")
    then policy.file_mutations
    else if same_text name (codes "script.run")
    then policy.general_commands
    else if starts_with name (codes "dependency.")
    then policy.dependency_changes
    else if starts_with name (codes "git.")
    then policy.git_writes
    else if same_text name (codes "network.fetch")
    then policy.network_fetch
    else if starts_with name (codes "delegation.")
    then policy.delegation
    else false

pub data SnapshotSource : Type 0 where
  project_defaults preset inherited : SnapshotSource

pub record TaskPreset : Type 0 where
  pub id : String
  pub name : String
  pub preset_digest : String
  pub extra_instructions : String
  pub capability_policy : TaskCapabilityPolicy

pub record SnapshotBody : Type 0 where
  pub source : SnapshotSource
  pub preset_id : Option String
  pub preset_name : Option String
  pub preset_digest : Option String
  pub extra_instructions : String
  pub capability_policy : TaskCapabilityPolicy
  pub captured_at : ℕ

pub record TaskPolicySnapshot : Type 0 where
  pub body : SnapshotBody
  pub snapshot_digest : String

-- The refinement of the snapshot's schema.
unfoldable pub snapshot_is_valid : SnapshotBody → Bool
snapshot_is_valid body =
    let known = is_some body.preset_id && is_some body.preset_name && is_some body.preset_digest in
    let claimed =
      is_some body.preset_id || is_some body.preset_name || is_some body.preset_digest in
    elim body.source [ preset ↦ known | project_defaults ↦ not claimed | inherited ↦ true ]

-- The digest of a snapshot's fields. An inherited one is made from its parent with the parent's own
-- digest among them.
abbrev pub Digest : Type 0
Digest = Option String → SnapshotBody → String

-- None when the schema refuses the snapshot.
unfoldable pub finalize_snapshot : Digest → Option String → SnapshotBody → Option TaskPolicySnapshot
finalize_snapshot digest parent body =
    if snapshot_is_valid body
    then some (record { body = body; snapshot_digest = digest parent body })
    else none

unfoldable pub project_default_policy_snapshot :
    Digest → PermissionMode → Bool → ℕ → Option TaskPolicySnapshot
project_default_policy_snapshot digest mode delegation captured_at =
    finalize_snapshot digest none (record {
      source = project_defaults;
      preset_id = none;
      preset_name = none;
      preset_digest = none;
      extra_instructions = "";
      capability_policy = full_task_capability_policy mode delegation;
      captured_at = captured_at;
    })

unfoldable pub preset_policy_snapshot : Digest → TaskPreset → ℕ → Option TaskPolicySnapshot
preset_policy_snapshot digest p captured_at = finalize_snapshot digest none (record {
  source = preset;
  preset_id = some p.id;
  preset_name = some p.name;
  preset_digest = some p.preset_digest;
  extra_instructions = p.extra_instructions;
  capability_policy = p.capability_policy;
  captured_at = captured_at;
})

unfoldable pub inherited_policy_snapshot :
    Digest → TaskPolicySnapshot → Bool → ℕ → Option TaskPolicySnapshot
inherited_policy_snapshot digest parent disable_delegation captured_at =
    if not (snapshot_is_valid parent.body)
    then none
    else let policy = parent.body.capability_policy in
      finalize_snapshot digest (some parent.snapshot_digest) (record parent.body {
        source = inherited;
        capability_policy =
            if disable_delegation then record policy { delegation = false } else policy;
        captured_at = captured_at;
      })

pub record TaskPolicySummary : Type 0 where
  pub source : SnapshotSource
  pub preset_id : Option String
  pub preset_name : Option String
  pub preset_digest : Option String
  pub capability_policy : TaskCapabilityPolicy
  pub captured_at : ℕ
  pub snapshot_digest : String
  pub has_extra_instructions : Bool
  pub extra_instructions_bytes : ℕ

-- Over `Buffer.byteLength` in UTF-8.
unfoldable pub task_policy_summary : (String → ℕ) → TaskPolicySnapshot → Option TaskPolicySummary
task_policy_summary byte_length s =
    if not (snapshot_is_valid s.body)
    then none
    else some (record {
      source = s.body.source;
      preset_id = s.body.preset_id;
      preset_name = s.body.preset_name;
      preset_digest = s.body.preset_digest;
      capability_policy = s.body.capability_policy;
      captured_at = s.body.captured_at;
      snapshot_digest = s.snapshot_digest;
      has_extra_instructions = not (str_eq s.body.extra_instructions "");
      extra_instructions_bytes = byte_length s.body.extra_instructions;
    })
