-- ===== src/Manifest/Delegation.antt =====
-- Manifests of delegated work, src/runtime/delegation.ts.
pub mod Laws
use adrouter_agent.Prelude.{
  ◌==◌, if◌then◌else◌, is_some, length, get_elem?, any, Text, trim, is_empty, and_then, ℕ, ◌⊎◌, inl,
  inr, Bool, false, not, ◌&&◌, ◌||◌, Option, none, some, List, [], ◌∷◌,
}
use adrouter_agent.TaskPolicy.{
  OperationCapability, delegation_start, delegation_status, delegation_message, delegation_cancel,
}
use adrouter_agent.Manifest.{Encoding, UnsignedManifest, OperationManifest}
use adrouter_agent.Manifest.Schema.{is_sized}
use adrouter_agent.Manifest.Operations.{
  ManifestError, create_operation_manifest, Expected, assert_operation_manifest,
}

pub data DelegationError : Type 0 where
  title_unbounded prompt_unbounded follow_up_unbounded : DelegationError
  invalid_child invalid_authority : DelegationError
  title_binding prompt_binding follow_up_binding : DelegationError
  manifest_error : ManifestError → DelegationError

abbrev pub is_break : ℕ → Bool
is_break c = c == 13 || c == 10 || c == 0

unfoldable pub title_is_safe : Text → Bool
title_is_safe title = is_sized 1 120 title && not (any is_break title)

unfoldable pub prompt_is_safe : Text → Bool
prompt_is_safe prompt = is_sized 1 8192 prompt && not (any (λ c. c == 0) prompt)

pub record DelegationSite : Type 0 where
  pub thread_id : Text
  pub turn_id : Text
  -- The real path of the workspace.
  pub workspace : Text

abbrev pub as_delegation {ℓ} : {A : Type ℓ} → ManifestError ⊎ A → DelegationError ⊎ A
as_delegation (inl x) = inl (manifest_error x)
as_delegation (inr a) = inr a

unfoldable pub delegation_manifest :
    Encoding
    → ℕ
    → Text
    → DelegationSite
    → OperationCapability
    → Option (List Text)
    → DelegationError ⊎ OperationManifest
delegation_manifest e now id site capability argv = as_delegation (
    create_operation_manifest e now id (record {
      capability = capability;
      thread_id = site.thread_id;
      turn_id = site.turn_id;
      workspace = site.workspace;
      targets = [];
      argv = argv;
      network = none;
      git = none;
      lifetime_ms = none;
    }))

unfoldable pub create_delegation_manifest :
    Encoding → ℕ → Text → DelegationSite → Text → Text → DelegationError ⊎ OperationManifest
create_delegation_manifest e now id site raw_title raw_prompt =
    let title = trim raw_title in
    let prompt = trim raw_prompt in
    if not (title_is_safe title)
    then inl title_unbounded
    else if not (prompt_is_safe prompt)
    then inl prompt_unbounded
    else delegation_manifest e now id site delegation_start (some (title ∷ prompt ∷ []))

unfoldable pub create_delegation_status_manifest :
    Encoding → ℕ → Text → DelegationSite → DelegationError ⊎ OperationManifest
create_delegation_status_manifest e now id site =
    delegation_manifest e now id site delegation_status none

unfoldable pub create_delegation_message_manifest :
    Encoding → ℕ → Text → DelegationSite → Text → Text → DelegationError ⊎ OperationManifest
create_delegation_message_manifest e now id site child raw_prompt =
    let prompt = trim raw_prompt in
    if not (e.is_id child)
    then inl invalid_child
    else if not (prompt_is_safe prompt)
    then inl follow_up_unbounded
    else delegation_manifest e now id site delegation_message (some (child ∷ prompt ∷ []))

unfoldable pub create_delegation_cancel_manifest :
    Encoding → ℕ → Text → DelegationSite → Text → DelegationError ⊎ OperationManifest
create_delegation_cancel_manifest e now id site child =
    if not (e.is_id child)
    then inl invalid_child
    else delegation_manifest e now id site delegation_cancel (some (child ∷ []))

-- No targets, no network, no repository.
unfoldable pub has_no_authority : UnsignedManifest → Bool
has_no_authority m = is_empty m.targets && not (is_some m.network) && not (is_some m.git)

abbrev pub argv_has_length : ℕ → Option (List Text) → Bool
argv_has_length n none = false
argv_has_length n (some argv) = length argv == n

-- The arguments; a missing one reads as the empty text.
abbrev pub argument : ℕ → Option (List Text) → Text
argument n none = []
argument n (some argv) = elim (get_elem? argv n) [ none ↦ [] | some a ↦ a ]

-- The manifest's own ids: only the capability is a demand.
abbrev pub own_of : OperationCapability → UnsignedManifest → Expected
own_of capability m = record {
  operation_id = m.operation_id;
  thread_id = m.thread_id;
  turn_id = m.turn_id;
  capability = capability;
}

unfoldable pub assert_own :
    Encoding → ℕ → OperationCapability → OperationManifest → DelegationError ⊎ OperationManifest
assert_own e now capability parsed =
    as_delegation (assert_operation_manifest e now (own_of capability parsed.unsigned) parsed)

pub record StartArguments : Type 0 where
  pub manifest : OperationManifest
  pub title : Text
  pub prompt : Text

unfoldable pub start_arguments_of : OperationManifest → DelegationError ⊎ StartArguments
start_arguments_of manifest =
    let m = manifest.unsigned in
    let title = argument 0 m.argv in
    let prompt = argument 1 m.argv in
    if not (has_no_authority m && argv_has_length 2 m.argv)
    then inl invalid_authority
    else if not (title_is_safe title)
    then inl title_binding
    else if not (prompt_is_safe prompt)
    then inl prompt_binding
    else inr (record { manifest = manifest; title = title; prompt = prompt })

unfoldable pub delegation_arguments :
    Encoding → ℕ → OperationManifest → DelegationError ⊎ StartArguments
delegation_arguments e now parsed =
    and_then (assert_own e now delegation_start parsed) start_arguments_of

unfoldable pub management_manifest :
    Encoding → ℕ → OperationManifest → OperationCapability → ℕ → DelegationError ⊎ OperationManifest
management_manifest e now parsed capability argv_length =
    and_then (assert_own e now capability parsed) (λ manifest.
      let m = manifest.unsigned in
      let fits =
        if argv_length == 0 then not (is_some m.argv) else argv_has_length argv_length m.argv in
      if has_no_authority m && fits then inr manifest else inl invalid_authority)

unfoldable pub delegation_status_arguments :
    Encoding → ℕ → OperationManifest → DelegationError ⊎ OperationManifest
delegation_status_arguments e now raw = management_manifest e now raw delegation_status 0

pub record MessageArguments : Type 0 where
  pub manifest : OperationManifest
  pub child_thread_id : Text
  pub prompt : Text

unfoldable pub delegation_message_arguments :
    Encoding → ℕ → OperationManifest → DelegationError ⊎ MessageArguments
delegation_message_arguments e now raw =
    and_then (management_manifest e now raw delegation_message 2) (λ manifest.
      let child = argument 0 manifest.unsigned.argv in
      let prompt = argument 1 manifest.unsigned.argv in
      if not (e.is_id child)
      then inl invalid_child
      else if not (prompt_is_safe prompt)
      then inl follow_up_binding
      else inr (record { manifest = manifest; child_thread_id = child; prompt = prompt }))

unfoldable pub delegation_cancel_arguments :
    Encoding → ℕ → OperationManifest → DelegationError ⊎ (OperationManifest × Text)
delegation_cancel_arguments e now raw =
    and_then (management_manifest e now raw delegation_cancel 1) (λ manifest.
      let child = argument 0 manifest.unsigned.argv in
      if e.is_id child then inr (manifest, child) else inl invalid_child)
