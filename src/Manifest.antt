-- ===== src/Manifest.antt =====
-- Manifests of structured operations, src/runtime/operation-manifest.ts, with their schema of
-- src/shared/contracts.ts. Ids, times and hashes are texts.
pub mod Schema
pub mod Operations
pub mod Names
pub mod Values
pub mod Canonical
pub mod Binding
pub mod Delegation
use adrouter_agent.Prelude.{Text, codes, ℕ, Bool, Option, none, some, List, [], ◌∷◌}
use adrouter_agent.Json.{Json, null, num, str, arr, obj, Items, nil, cons, end, field, canonicalize}
use adrouter_agent.TaskPolicy.{OperationCapability, capability_text}

-- What comes from outside: SHA-256 in hexadecimal, `JSON.stringify`, `Date.parse`, `toISOString`, and
-- the schemas of ids, times and addresses of the web.
pub record Encoding : Type 0 where
  pub sha256 : Text → Text
  pub stringify : Json → Text
  pub date_parse : Text → ℕ
  pub to_iso : ℕ → Text
  pub is_id : Text → Bool
  pub is_timestamp : Text → Bool
  pub is_url : Text → Bool

pub data TargetKind : Type 0 where
  target_file target_directory target_missing target_git_ref : TargetKind

pub record Target : Type 0 where
  pub path : Text
  pub kind : TargetKind
  pub before_hash : Option Text

pub data NetworkMethod : Type 0 where
  method_get method_head method_git_push : NetworkMethod

pub record NetworkBinding : Type 0 where
  pub method : NetworkMethod
  pub url : Text
  pub host : Text
  pub resolved_addresses : List Text
  pub max_response_bytes : ℕ

pub record GitBinding : Type 0 where
  pub head_oid : Option Text
  pub index_tree_oid : Option Text
  pub ref : Option Text

-- A manifest without its binding; both versions are the literal 1.
pub record UnsignedManifest : Type 0 where
  pub operation_id : Text
  pub capability : OperationCapability
  pub thread_id : Text
  pub turn_id : Text
  pub workspace : Text
  pub targets : List Target
  pub argv : Option (List Text)
  pub network : Option NetworkBinding
  pub git : Option GitBinding
  pub created_at : Text
  pub expires_at : Text

pub record OperationManifest : Type 0 where
  pub unsigned : UnsignedManifest
  pub binding : Text

unfoldable pub target_kind_text : TargetKind → Text
target_kind_text target_file = codes "file"
target_kind_text target_directory = codes "directory"
target_kind_text target_missing = codes "missing"
target_kind_text target_git_ref = codes "git-ref"

unfoldable pub method_text : NetworkMethod → Text
method_text method_get = codes "GET"
method_text method_head = codes "HEAD"
method_text method_git_push = codes "GIT_PUSH"

abbrev pub text_or_null : Option Text → Json
text_or_null none = null
text_or_null (some t) = str t

abbrev pub texts_json : List Text → Items
texts_json [] = nil
texts_json (t ∷ ts) = cons (str t) (texts_json ts)

unfoldable pub target_json : Target → Json
target_json t = obj (
    field (codes "path") (str t.path) (
      field (codes "kind") (str (target_kind_text t.kind))
        (field (codes "beforeHash") (text_or_null t.before_hash) end)))

unfoldable pub targets_json : List Target → Items
targets_json [] = nil
targets_json (t ∷ ts) = cons (target_json t) (targets_json ts)

abbrev pub argv_json : Option (List Text) → Json
argv_json none = null
argv_json (some argv) = arr (texts_json argv)

unfoldable pub network_json : Option NetworkBinding → Json
network_json none = null
network_json (some n) = obj (
    field (codes "method") (str (method_text n.method)) (
      field (codes "url") (str n.url) (
        field (codes "host") (str n.host) (
          field (codes "resolvedAddresses") (arr (texts_json n.resolved_addresses))
            (field (codes "maxResponseBytes") (num n.max_response_bytes) end)))))

unfoldable pub git_json : Option GitBinding → Json
git_json none = null
git_json (some g) = obj (
    field (codes "headOid") (text_or_null g.head_oid) (
      field (codes "indexTreeOid") (text_or_null g.index_tree_oid)
        (field (codes "ref") (text_or_null g.ref) end)))

-- The manifest as the value that is digested.
unfoldable pub manifest_json : UnsignedManifest → Json
manifest_json m = obj (
    field (codes "version") (num 1) (
      field (codes "operationId") (str m.operation_id) (
        field (codes "capability") (str (capability_text m.capability)) (
          field (codes "threadId") (str m.thread_id) (
            field (codes "turnId") (str m.turn_id) (
              field (codes "workspace") (str m.workspace) (
                field (codes "targets") (arr (targets_json m.targets)) (
                  field (codes "argv") (argv_json m.argv) (
                    field (codes "network") (network_json m.network) (
                      field (codes "git") (git_json m.git) (
                        field (codes "policyVersion") (num 1) (
                          field (codes "createdAt") (str m.created_at)
                            (field (codes "expiresAt") (str m.expires_at) end)))))))))))))

unfoldable pub operation_manifest_binding : Encoding → UnsignedManifest → Text
operation_manifest_binding e m = e.sha256 (e.stringify (canonicalize (manifest_json m)))
