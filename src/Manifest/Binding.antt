-- ===== src/Manifest/Binding.antt =====
-- What the binding of a manifest fixes, src/runtime/operation-manifest.ts.
use adrouter_agent.Prelude.{same_text_sound, ℕ, ◌<◌, ◌≡◌, sym, ◌∙◌, inr, true, arith}
use adrouter_agent.Json.{canonicalize}
use adrouter_agent.TaskPolicy.{capability_text}
use adrouter_agent.Manifest.{
  Encoding, UnsignedManifest, OperationManifest, manifest_json, operation_manifest_binding,
}
use adrouter_agent.Manifest.Schema.{manifest_is_valid}
use adrouter_agent.Manifest.Operations.{Expected, matches_expected, assert_operation_manifest}
use adrouter_agent.Manifest.Names.{capability_text_inj}
use adrouter_agent.Manifest.Canonical.{manifest_json_inj}

-- The digests of the JSON of two manifests do not collide.
abbrev pub AreCollisionFree : Encoding → UnsignedManifest → UnsignedManifest → Type 0
AreCollisionFree e m n =
    operation_manifest_binding e m ≡ operation_manifest_binding e n
    → canonicalize (manifest_json m) ≡ canonicalize (manifest_json n)

assert_operation_manifest_bound :
    (e : Encoding) (now : ℕ) (x : Expected) (m r : OperationManifest)
    → assert_operation_manifest e now x m ≡ inr r
    → (m ≡ r) × (m.binding ≡ operation_manifest_binding e m.unsigned)
unfolding assert_operation_manifest
assert_operation_manifest_bound e now x m r h = (
  ground arith,
  same_text_sound m.binding (operation_manifest_binding e m.unsigned) (ground arith),
)

-- A manifest that passes the assertion and has the binding of one that passed before, as an approval
-- keeps it, is that manifest in every field, whatever the times and the expected ids: where the
-- digests of the two canonical JSON texts do not collide, no field can be changed under an approval.
pub assert_operation_manifest_unique :
    (e : Encoding) (now later : ℕ) (x y : Expected) (m n r s : OperationManifest)
    → AreCollisionFree e m.unsigned n.unsigned
    → assert_operation_manifest e now x m ≡ inr r
    → assert_operation_manifest e later y n ≡ inr s
    → m.binding ≡ n.binding
    → m ≡ n
assert_operation_manifest_unique e now later x y m n r s digests h k same =
    let a = assert_operation_manifest_bound e now x m r h in
    let b = assert_operation_manifest_bound e later y n s k in
    let unsigned = manifest_json_inj m.unsigned n.unsigned (digests (sym a.1 ∙ same ∙ b.1)) in
    λ i. record { unsigned = unsigned i; binding = same i }

-- What a passed assertion means.
pub record IsAsserted (e : Encoding) (now : ℕ) (x : Expected) (m : OperationManifest) : Type 0 where
  pub valid : manifest_is_valid e m ≡ true
  pub operation : m.unsigned.operation_id ≡ x.operation_id
  pub thread : m.unsigned.thread_id ≡ x.thread_id
  pub turn : m.unsigned.turn_id ≡ x.turn_id
  pub capability : m.unsigned.capability ≡ x.capability
  pub live : now < e.date_parse m.unsigned.expires_at
  pub bound : m.binding ≡ operation_manifest_binding e m.unsigned

pub assert_operation_manifest-IsAsserted :
    (e : Encoding) (now : ℕ) (x : Expected) (m r : OperationManifest)
    → assert_operation_manifest e now x m ≡ inr r
    → (m ≡ r) × IsAsserted e now x m
unfolding assert_operation_manifest matches_expected
assert_operation_manifest-IsAsserted e now x m r h =
    let (same, bound) = assert_operation_manifest_bound e now x m r h in
    (
      same,
      record {
        valid = ground arith;
        operation = same_text_sound m.unsigned.operation_id x.operation_id (ground arith);
        thread = same_text_sound m.unsigned.thread_id x.thread_id (ground arith);
        turn = same_text_sound m.unsigned.turn_id x.turn_id (ground arith);
        capability = capability_text_inj m.unsigned.capability x.capability (
            same_text_sound (capability_text m.unsigned.capability) (capability_text x.capability)
              (ground arith));
        live = ground arith;
        bound = bound;
      },
    )
