-- ===== src/TaskPolicy/Grants.antt =====
-- What a policy grants, src/shared/task-policy.ts.
use adrouter_agent.Prelude.{
  same_text, starts_with, ℕ, ◌≡◌, refl, sym, subst, ◌∙◌, ◌↔◌, ◌⊎◌, inl, inr, Bool, true, false,
  some, arith,
}
use adrouter_agent.Scheduler.{PermissionMode, read_only, workspace_write}
use adrouter_agent.TaskPolicy.{
  TaskCapabilityPolicy, effective_task_capability_policy, OperationCapability, file_copy, file_move,
  file_delete, file_restore, dependency_preview, dependency_apply, dependency_lifecycle, script_run,
  git_branch_create, git_switch, git_stage, git_stage_hunk, git_commit, git_push, network_get,
  delegation_start, delegation_status, delegation_message, delegation_cancel, capability_text,
  operation_capability_allowed, TaskPolicySnapshot, snapshot_is_valid, Digest, finalize_snapshot,
  inherited_policy_snapshot,
}

-- What an operation is, apart from the spelling of its capability.
pub data Family : Type 0 where
  files dependencies scripts git network delegates : Family

unfoldable pub family : OperationCapability → Family
family file_copy = files
family file_move = files
family file_delete = files
family file_restore = files
family dependency_preview = dependencies
family dependency_apply = dependencies
family dependency_lifecycle = dependencies
family script_run = scripts
family git_branch_create = git
family git_switch = git
family git_stage = git
family git_stage_hunk = git
family git_commit = git
family git_push = git
family network_get = network
family delegation_start = delegates
family delegation_status = delegates
family delegation_message = delegates
family delegation_cancel = delegates

-- What a policy grants a family: what changes files, dependencies or Git needs write access besides.
pub data IsGranted (policy : TaskCapabilityPolicy) : Family → Type 0 where
  grants_files :
      policy.workspace_access ≡ workspace_write
      → policy.file_mutations ≡ true
      → IsGranted policy files
  grants_dependencies :
      policy.workspace_access ≡ workspace_write
      → policy.dependency_changes ≡ true
      → IsGranted policy dependencies
  grants_git :
      policy.workspace_access ≡ workspace_write → policy.git_writes ≡ true → IsGranted policy git
  grants_scripts : policy.general_commands ≡ true → IsGranted policy scripts
  grants_network : policy.network_fetch ≡ true → IsGranted policy network
  grants_delegates : policy.delegation ≡ true → IsGranted policy delegates

abbrev family_allowed : TaskCapabilityPolicy → Family → Bool
family_allowed policy files = policy.file_mutations
family_allowed policy dependencies = policy.dependency_changes
family_allowed policy scripts = policy.general_commands
family_allowed policy git = policy.git_writes
family_allowed policy network = policy.network_fetch
family_allowed policy delegates = policy.delegation

operation_family :
    (policy : TaskCapabilityPolicy) (capability : OperationCapability)
    → operation_capability_allowed policy capability
      ≡ family_allowed (effective_task_capability_policy policy) (family capability)
unfolding operation_capability_allowed capability_text starts_with same_text family
operation_family policy file_copy = refl
operation_family policy file_move = refl
operation_family policy file_delete = refl
operation_family policy file_restore = refl
operation_family policy dependency_preview = refl
operation_family policy dependency_apply = refl
operation_family policy dependency_lifecycle = refl
operation_family policy script_run = refl
operation_family policy git_branch_create = refl
operation_family policy git_switch = refl
operation_family policy git_stage = refl
operation_family policy git_stage_hunk = refl
operation_family policy git_commit = refl
operation_family policy git_push = refl
operation_family policy network_get = refl
operation_family policy delegation_start = refl
operation_family policy delegation_status = refl
operation_family policy delegation_message = refl
operation_family policy delegation_cancel = refl

mode-cases : (m : PermissionMode) → (m ≡ read_only) ⊎ (m ≡ workspace_write)
mode-cases read_only = inl refl
mode-cases workspace_write = inr refl

effective_read :
    (policy : TaskCapabilityPolicy)
    → policy.workspace_access ≡ read_only
    → effective_task_capability_policy policy
      ≡ record policy { file_mutations = false; dependency_changes = false; git_writes = false }
unfolding effective_task_capability_policy
effective_read policy e = rw e refl

effective_write :
    (policy : TaskCapabilityPolicy)
    → policy.workspace_access ≡ workspace_write
    → effective_task_capability_policy policy ≡ policy
unfolding effective_task_capability_policy
effective_write policy e = rw e refl

family-IsGranted_write :
    (policy : TaskCapabilityPolicy) (f : Family)
    → policy.workspace_access ≡ workspace_write
    → family_allowed policy f ≡ true
    → IsGranted policy f
family-IsGranted_write policy files e h = grants_files e h
family-IsGranted_write policy dependencies e h = grants_dependencies e h
family-IsGranted_write policy scripts e h = grants_scripts h
family-IsGranted_write policy git e h = grants_git e h
family-IsGranted_write policy network e h = grants_network h
family-IsGranted_write policy delegates e h = grants_delegates h

family-IsGranted_read :
    (policy : TaskCapabilityPolicy) (f : Family)
    → family_allowed
        (record policy { file_mutations = false; dependency_changes = false; git_writes = false })
        f
      ≡ true
    → IsGranted policy f
family-IsGranted_read policy files h = cc
family-IsGranted_read policy dependencies h = cc
family-IsGranted_read policy scripts h = grants_scripts h
family-IsGranted_read policy git h = cc
family-IsGranted_read policy network h = grants_network h
family-IsGranted_read policy delegates h = grants_delegates h

family-IsGranted :
    (policy : TaskCapabilityPolicy) (f : Family)
    → family_allowed (effective_task_capability_policy policy) f ≡ true
    → IsGranted policy f
family-IsGranted policy f h = elim (mode-cases policy.workspace_access) [
  | inl e ↦
      family-IsGranted_read policy f
        (subst (λ p. family_allowed p f ≡ true) (effective_read policy e) h)
  | inr e ↦
      family-IsGranted_write policy f e
        (subst (λ p. family_allowed p f ≡ true) (effective_write policy e) h)
]

granted_family :
    (policy : TaskCapabilityPolicy) (f : Family)
    → IsGranted policy f
    → family_allowed (effective_task_capability_policy policy) f ≡ true
unfolding effective_task_capability_policy
granted_family policy files (grants_files e h) = rw (effective_write policy e) h
granted_family policy dependencies (grants_dependencies e h) = rw (effective_write policy e) h
granted_family policy git (grants_git e h) = rw (effective_write policy e) h
granted_family policy scripts (grants_scripts h) = elim (mode-cases policy.workspace_access) [
  | inl e ↦ rw (effective_read policy e) h
  | inr e ↦ rw (effective_write policy e) h
]
granted_family policy network (grants_network h) = elim (mode-cases policy.workspace_access) [
  | inl e ↦ rw (effective_read policy e) h
  | inr e ↦ rw (effective_write policy e) h
]
granted_family policy delegates (grants_delegates h) = elim (mode-cases policy.workspace_access) [
  | inl e ↦ rw (effective_read policy e) h
  | inr e ↦ rw (effective_write policy e) h
]

-- An operation is allowed exactly when the policy grants what it does: a change of files, of
-- dependencies or in Git by its own switch and write access to the workspace, a script, a fetch or a
-- delegation by its switch alone. The spelling of the nineteen capabilities puts none in a wrong
-- family.
pub operation_capability_allowed_iff :
    (policy : TaskCapabilityPolicy) (capability : OperationCapability)
    → (operation_capability_allowed policy capability ≡ true) ↔ IsGranted policy (family capability)
operation_capability_allowed_iff policy capability =
    let same = operation_family policy capability in
    (
      λ h. family-IsGranted policy (family capability) (sym same ∙ h),
      λ g. same ∙ granted_family policy (family capability) g,
    )

-- One snapshot inherited from another, any number of times.
pub data Descends (digest : Digest) : TaskPolicySnapshot → TaskPolicySnapshot → Type 0 where
  self : (s : TaskPolicySnapshot) → Descends digest s s
  child :
      {root parent s : TaskPolicySnapshot} (disable_delegation : Bool) (captured_at : ℕ)
      → Descends digest root parent
      → inherited_policy_snapshot digest parent disable_delegation captured_at ≡ some s
      → Descends digest root s

inherited_weaker :
    (digest : Digest) (parent s : TaskPolicySnapshot) (disable : Bool) (at : ℕ) (f : Family)
    → inherited_policy_snapshot digest parent disable at ≡ some s
    → IsGranted s.body.capability_policy f
    → IsGranted parent.body.capability_policy f
unfolding inherited_policy_snapshot finalize_snapshot snapshot_is_valid
inherited_weaker digest parent s disable at files e (grants_files w h) =
    grants_files (ground arith) (ground arith)
inherited_weaker digest parent s disable at dependencies e (grants_dependencies w h) =
    grants_dependencies (ground arith) (ground arith)
inherited_weaker digest parent s disable at git e (grants_git w h) =
    grants_git (ground arith) (ground arith)
inherited_weaker digest parent s disable at scripts e (grants_scripts h) =
    grants_scripts (ground arith)
inherited_weaker digest parent s disable at network e (grants_network h) =
    grants_network (ground arith)
inherited_weaker digest parent s disable at delegates e (grants_delegates h) =
    grants_delegates (ground arith)

Descends-weaker :
    (digest : Digest) (root s : TaskPolicySnapshot) (f : Family)
    → Descends digest root s
    → IsGranted s.body.capability_policy f
    → IsGranted root.body.capability_policy f
Descends-weaker digest root s f (self t) g = g
Descends-weaker digest root s f (child {parent = parent} disable at d e) g =
    Descends-weaker digest root parent f d (inherited_weaker digest parent s disable at f e g)

-- However often a policy is inherited, no task gets an operation that the first one did not have.
pub inherited_policy_snapshot_weaker :
    (digest : Digest) (root s : TaskPolicySnapshot) (capability : OperationCapability)
    → Descends digest root s
    → operation_capability_allowed s.body.capability_policy capability ≡ true
    → operation_capability_allowed root.body.capability_policy capability ≡ true
inherited_policy_snapshot_weaker digest root s capability d h =
    let granted = (operation_capability_allowed_iff s.body.capability_policy capability).0 h in
    (operation_capability_allowed_iff root.body.capability_policy capability).1
      (Descends-weaker digest root s (family capability) d granted)
