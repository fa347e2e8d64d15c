-- ===== src/Checks/Manifests.antt =====
-- Manifests at concrete inputs.
use adrouter_agent.Prelude.{
  codes, same_text, starts_with, is_space, trim_start, trim, ◌≡◌, refl, inr, arith,
}
use adrouter_agent.TaskPolicy.{delegation_start, capability_text}
use adrouter_agent.Manifest.{operation_manifest_binding}
use adrouter_agent.Manifest.Schema.{is_hash, manifest_is_consistent, manifest_is_valid}
use adrouter_agent.Manifest.Operations.{
  lifetime_of, create_operation_manifest, Expected, matches_expected, assert_operation_manifest,
}
use adrouter_agent.Manifest.Binding.{assert_operation_manifest_unique}
use adrouter_agent.Manifest.Delegation.{
  title_is_safe, prompt_is_safe, delegation_manifest, create_delegation_manifest,
  delegation_arguments,
}
use adrouter_agent.Manifest.Delegation.Laws.{delegation_arguments-create_delegation_manifest}
use adrouter_agent.Checks.Samples.{toy, site, manifest}

manifest_made :
    create_delegation_manifest toy 1000
      (codes "op")
      site
      (codes " Write tests")
      (codes "For the parser. ")
    ≡ inr manifest
unfolding create_delegation_manifest delegation_manifest create_operation_manifest manifest_is_valid
    title_is_safe prompt_is_safe lifetime_of operation_manifest_binding manifest_is_consistent
    is_hash capability_text same_text starts_with trim trim_start is_space
manifest_made = refl

delegation_arguments-create_delegation_manifest_example :
    delegation_arguments toy 2000 manifest
    ≡ inr (record {
      manifest = manifest;
      title = trim (codes " Write tests");
      prompt = trim (codes "For the parser. ");
    })
delegation_arguments-create_delegation_manifest_example =
    delegation_arguments-create_delegation_manifest toy 1000 2000 (codes "op") site
      (codes " Write tests") (codes "For the parser. ") manifest manifest_made (omega arith)

abbrev expected : Expected
expected = record {
  operation_id = codes "op";
  thread_id = codes "t";
  turn_id = codes "u";
  capability = delegation_start;
}

manifest_asserted : (assert_operation_manifest toy 2000 expected manifest) ≡ inr manifest
unfolding assert_operation_manifest matches_expected manifest_is_valid operation_manifest_binding
    manifest_is_consistent is_hash capability_text same_text starts_with
manifest_asserted = refl

manifest_asserted_later : (assert_operation_manifest toy 3000 expected manifest) ≡ inr manifest
unfolding assert_operation_manifest matches_expected manifest_is_valid operation_manifest_binding
    manifest_is_consistent is_hash capability_text same_text starts_with
manifest_asserted_later = refl

assert_operation_manifest_unique_example : manifest ≡ manifest
assert_operation_manifest_unique_example =
    assert_operation_manifest_unique toy 2000 3000 expected expected manifest manifest manifest
      manifest (λ h. refl) manifest_asserted manifest_asserted_later refl
