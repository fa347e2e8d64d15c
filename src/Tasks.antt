-- ===== src/Tasks.antt =====
-- Delegated tasks, the checks of src/main/task-service.ts. The turns that are started, and the
-- runtime that runs them, are left out.
pub mod Children
pub mod Admission
pub mod Delegated
use adrouter_agent.Prelude.{
  leb, if◌then◌else◌, length, filter, Text, codes, same_text, is_empty, and_then, ℕ, ◌⊎◌, inl, inr,
  Bool, true, false, not, ◌&&◌, ◌||◌, Option, none, some, List,
}
use adrouter_agent.TaskPolicy.{
  effective_task_capability_policy, TaskPolicySnapshot, Digest, inherited_policy_snapshot,
}
use adrouter_agent.Manifest.{Encoding, OperationManifest}
use adrouter_agent.Manifest.Delegation.{
  DelegationError, delegation_arguments, delegation_status_arguments, delegation_message_arguments,
  delegation_cancel_arguments,
}
use adrouter_agent.Database.{Project, Thread, Database, DbError, get_project, get_thread}
use adrouter_agent.Database.Journal.{Context}
use adrouter_agent.Database.Threads.{
  ThreadInput, create_thread, list_threads, get_task_policy_snapshot,
}

pub data TaskError : Type 0 where
  arguments_refused : DelegationError → TaskError
  database_refused : DbError → TaskError
  parent_not_found invalid_workspace delegation_disabled : TaskError
  not_owned child_delegates too_many_children policy_refused : TaskError

pub record DelegationContext : Type 0 where
  pub parent : Thread
  pub project : Project
  pub parent_policy : TaskPolicySnapshot

abbrev pub or_refuse {ℓ κ} : {X : Type ℓ} {A : Type κ} → (X → TaskError) → X ⊎ A → TaskError ⊎ A
or_refuse f (inl x) = inl (f x)
or_refuse f (inr a) = inr a

abbrev pub require {ℓ} : {A : Type ℓ} → TaskError → Option A → TaskError ⊎ A
require x none = inl x
require x (some a) = inr a

unfoldable pub delegation_context : OperationManifest → Database → TaskError ⊎ DelegationContext
delegation_context manifest db =
    and_then (require parent_not_found (get_thread manifest.unsigned.thread_id db)) (λ parent.
      and_then (require invalid_workspace (get_project parent.project_id db)) (λ project.
        if not (same_text project.path manifest.unsigned.workspace)
        then inl invalid_workspace
        else and_then (or_refuse database_refused (get_task_policy_snapshot parent.id db))
            (λ parent_policy.
              if not
                (effective_task_capability_policy parent_policy.body.capability_policy).delegation
              then inl delegation_disabled
              else inr
                  (record { parent = parent; project = project; parent_policy = parent_policy }))))

abbrev pub is_id_of : Text → Option Text → Bool
is_id_of id none = false
is_id_of id (some other) = same_text other id

-- `Boolean(forkedFromCheckpointId)`
abbrev pub is_present : Option Text → Bool
is_present none = false
is_present (some id) = not (is_empty id)

abbrev pub is_child_of : Text → Thread → Bool
is_child_of parent_id t =
    is_id_of parent_id t.parent_thread_id && not (is_present t.forked_from_checkpoint_id)

unfoldable pub owned_delegated_children : Text → Text → Database → List Thread
owned_delegated_children parent_id project_id db =
    filter (is_child_of parent_id) (list_threads project_id db)

unfoldable pub owned_delegated_child : Text → Text → Text → Database → TaskError ⊎ Thread
owned_delegated_child parent_id project_id child_id db =
    and_then (require not_owned (get_thread child_id db)) (λ child.
      if not (same_text child.project_id project_id)
        || not (is_id_of parent_id child.parent_thread_id)
        || is_present child.forked_from_checkpoint_id
      then inl not_owned
      else inr child)

-- The children that the capability `delegation.status` reports.
unfoldable pub delegated_status :
    Encoding → ℕ → OperationManifest → Database → TaskError ⊎ List Thread
delegated_status e now manifest db =
    and_then (or_refuse arguments_refused (delegation_status_arguments e now manifest)) (λ _.
      and_then (delegation_context manifest db)
        (λ context. inr (owned_delegated_children context.parent.id context.project.id db)))

-- The child that a message goes to, with the message, and the child that is cancelled.
unfoldable pub message_target :
    Encoding → ℕ → OperationManifest → Database → TaskError ⊎ (Thread × Text)
message_target e now manifest db =
    and_then (or_refuse arguments_refused (delegation_message_arguments e now manifest)) (λ a.
      and_then (delegation_context manifest db) (λ context.
        and_then (owned_delegated_child context.parent.id context.project.id a.child_thread_id db)
          (λ child. inr (child, a.prompt))))

unfoldable pub cancel_target : Encoding → ℕ → OperationManifest → Database → TaskError ⊎ Thread
cancel_target e now manifest db =
    and_then (or_refuse arguments_refused (delegation_cancel_arguments e now manifest)) (λ a.
      and_then (delegation_context manifest db)
        (λ context. owned_delegated_child context.parent.id context.project.id a.1 db))

abbrev pub child_input : DelegationContext → Text → TaskPolicySnapshot → ThreadInput
child_input context title policy = record {
  project_id = context.project.id;
  parent_thread_id = some context.parent.id;
  forked_from_checkpoint_id = none;
  title = title;
  label = some (codes "Delegated");
  model = context.parent.model;
  thinking_level = context.parent.thinking_level;
  policy_snapshot = some policy;
}

-- startDelegated up to the creation of the child, with its prompt.
unfoldable pub admit_delegated :
    Digest → Context → Text → OperationManifest → Database → TaskError ⊎ (Thread × Text × Database)
admit_delegated digest c id manifest db =
    and_then (or_refuse arguments_refused (delegation_arguments c.encoding c.now manifest)) (λ a.
      and_then (delegation_context manifest db) (λ context.
        let parent = context.parent in
        if is_present parent.parent_thread_id && not (is_present parent.forked_from_checkpoint_id)
        then inl child_delegates
        else if leb 3 (length (owned_delegated_children parent.id context.project.id db))
        then inl too_many_children
        else and_then
            (require policy_refused
              (inherited_policy_snapshot digest context.parent_policy true c.now))
            (λ policy.
              and_then
                (or_refuse database_refused
                  (create_thread digest c id (child_input context a.title policy) db))
                (λ r. inr (r.0, a.prompt, r.1)))))
