-- ===== src/Manifest/Names.antt =====
-- The names of the enumerations in a manifest can be read back.
use adrouter_agent.Prelude.{
  if◌then◌else◌, Text, codes, same_text, ◌≡◌, refl, sym, ap, ◌∙◌, List, [], ◌∷◌,
}
use adrouter_agent.Json.{}
use adrouter_agent.TaskPolicy.{
  OperationCapability, file_copy, file_move, file_delete, file_restore, dependency_preview,
  dependency_apply, dependency_lifecycle, script_run, git_branch_create, git_switch, git_stage,
  git_stage_hunk, git_commit, git_push, network_get, delegation_start, delegation_status,
  delegation_message, delegation_cancel, capability_text,
}
use adrouter_agent.Manifest.{
  TargetKind, target_file, target_directory, target_missing, target_git_ref, NetworkMethod,
  method_get, method_head, method_git_push, target_kind_text, method_text,
}

abbrev target_kind_of : Text → TargetKind
target_kind_of t =
    if same_text t (codes "file")
    then target_file
    else if same_text t (codes "directory")
    then target_directory
    else if same_text t (codes "missing")
    then target_missing
    else target_git_ref

target_kind_of-text : (k : TargetKind) → target_kind_of (target_kind_text k) ≡ k
unfolding target_kind_text same_text
target_kind_of-text target_file = refl
target_kind_of-text target_directory = refl
target_kind_of-text target_missing = refl
target_kind_of-text target_git_ref = refl

pub target_kind_text_inj : (a b : TargetKind) → target_kind_text a ≡ target_kind_text b → a ≡ b
target_kind_text_inj a b h =
    sym (target_kind_of-text a) ∙ ap target_kind_of h ∙ target_kind_of-text b

abbrev method_of : Text → NetworkMethod
method_of t =
    if same_text t (codes "GET")
    then method_get
    else if same_text t (codes "HEAD")
    then method_head
    else method_git_push

method_of-text : (m : NetworkMethod) → method_of (method_text m) ≡ m
unfolding method_text same_text
method_of-text method_get = refl
method_of-text method_head = refl
method_of-text method_git_push = refl

pub method_text_inj : (a b : NetworkMethod) → method_text a ≡ method_text b → a ≡ b
method_text_inj a b h = sym (method_of-text a) ∙ ap method_of h ∙ method_of-text b

abbrev first_capability : Text → List OperationCapability → OperationCapability
first_capability t [] = file_copy
first_capability t (c ∷ cs) = if same_text t (capability_text c) then c else first_capability t cs

abbrev all_capabilities : List OperationCapability
all_capabilities =
    file_copy ∷ file_move ∷ file_delete ∷ file_restore ∷ dependency_preview ∷ dependency_apply
    ∷ dependency_lifecycle ∷ script_run ∷ git_branch_create ∷ git_switch ∷ git_stage
    ∷ git_stage_hunk ∷ git_commit ∷ git_push ∷ network_get ∷ delegation_start ∷ delegation_status
    ∷ delegation_message ∷ delegation_cancel ∷ []

capability_of-text :
    (c : OperationCapability) → first_capability (capability_text c) all_capabilities ≡ c
unfolding capability_text same_text
capability_of-text file_copy = refl
capability_of-text file_move = refl
capability_of-text file_delete = refl
capability_of-text file_restore = refl
capability_of-text dependency_preview = refl
capability_of-text dependency_apply = refl
capability_of-text dependency_lifecycle = refl
capability_of-text script_run = refl
capability_of-text git_branch_create = refl
capability_of-text git_switch = refl
capability_of-text git_stage = refl
capability_of-text git_stage_hunk = refl
capability_of-text git_commit = refl
capability_of-text git_push = refl
capability_of-text network_get = refl
capability_of-text delegation_start = refl
capability_of-text delegation_status = refl
capability_of-text delegation_message = refl
capability_of-text delegation_cancel = refl

pub capability_text_inj :
    (a b : OperationCapability) → capability_text a ≡ capability_text b → a ≡ b
capability_text_inj a b h =
    sym (capability_of-text a)
    ∙ ap (λ t. first_capability t all_capabilities) h
    ∙ capability_of-text b
