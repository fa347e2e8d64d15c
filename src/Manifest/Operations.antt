-- ===== src/Manifest/Operations.antt =====
-- Making and asserting a manifest, src/runtime/operation-manifest.ts.
use adrouter_agent.Prelude.{
  leb, if◌then◌else◌, Text, same_text, ℕ, ◌+◌, min, max, ◌⊎◌, inl, inr, Bool, not, ◌&&◌, Option,
  none, some, List,
}
use adrouter_agent.Json.{}
use adrouter_agent.TaskPolicy.{OperationCapability, capability_text}
use adrouter_agent.Manifest.{
  Encoding, Target, NetworkBinding, GitBinding, UnsignedManifest, OperationManifest,
  operation_manifest_binding,
}
use adrouter_agent.Manifest.Schema.{is_capability, manifest_is_valid}

pub data ManifestError : Type 0 where
  invalid_manifest binding_mismatch expired binding_modified : ManifestError

abbrev pub default_lifetime_ms : ℕ
default_lifetime_ms = 300000

unfoldable pub lifetime_of : Option ℕ → ℕ
lifetime_of none = min (max default_lifetime_ms 1000) 900000
lifetime_of (some ms) = min (max ms 1000) 900000

pub record CreateInput : Type 0 where
  pub capability : OperationCapability
  pub thread_id : Text
  pub turn_id : Text
  pub workspace : Text
  pub targets : List Target
  pub argv : Option (List Text)
  pub network : Option NetworkBinding
  pub git : Option GitBinding
  pub lifetime_ms : Option ℕ

-- At a time, with the id that is made; inputs that are left out are filled in.
unfoldable pub create_operation_manifest :
    Encoding → ℕ → Text → CreateInput → ManifestError ⊎ OperationManifest
create_operation_manifest e now operation_id input =
    let unsigned : UnsignedManifest = record {
      operation_id = operation_id;
      capability = input.capability;
      thread_id = input.thread_id;
      turn_id = input.turn_id;
      workspace = input.workspace;
      targets = input.targets;
      argv = input.argv;
      network = input.network;
      git = input.git;
      created_at = e.to_iso now;
      expires_at = e.to_iso (now + lifetime_of input.lifetime_ms);
    } in
    let manifest : OperationManifest = record {
      unsigned = unsigned;
      binding = operation_manifest_binding e unsigned;
    } in
    if manifest_is_valid e manifest then inr manifest else inl invalid_manifest

pub record Expected : Type 0 where
  pub operation_id : Text
  pub thread_id : Text
  pub turn_id : Text
  pub capability : OperationCapability

unfoldable pub matches_expected : UnsignedManifest → Expected → Bool
matches_expected m x =
    same_text m.operation_id x.operation_id
    && same_text m.thread_id x.thread_id
    && same_text m.turn_id x.turn_id
    && is_capability m.capability (capability_text x.capability)

unfoldable pub assert_operation_manifest :
    Encoding → ℕ → Expected → OperationManifest → ManifestError ⊎ OperationManifest
assert_operation_manifest e now expected manifest =
    let m = manifest.unsigned in
    if not (manifest_is_valid e manifest)
    then inl invalid_manifest
    else if not (matches_expected m expected)
    then inl binding_mismatch
    else if leb (e.date_parse m.expires_at) now
    then inl expired
    else if not (same_text manifest.binding (operation_manifest_binding e m))
    then inl binding_modified
    else inr manifest
