-- ===== src/Rpc.antt =====
-- Local automation, src/main/local-rpc-server.ts with the tables of src/shared/automation-protocol.ts:
-- what the server keeps and what it takes from the platform. `now()` is read once in a request.
pub mod Signed
pub mod Pairing
pub mod Exports
use adrouter_agent.Prelude.{
  ltb, ◌==◌, str_eq, if◌then◌else◌, length, filter, Text, codes, same_text, ℕ, ◌+◌, String, ◌⊎◌,
  inl, inr, Bool, not, ◌||◌, Option, none, some, List, [], ◌∷◌,
}
use adrouter_agent.Json.{Json}

pub data Scope : Type 0 where
  diagnostics_read tasks_read tasks_write approvals_resolve : Scope

pub data Method : Type 0 where
  diagnostics_get projects_list tasks_start tasks_list tasks_get tasks_events tasks_steer : Method
  tasks_queue_follow_up tasks_compact tasks_fork tasks_export exports_read tasks_stop : Method
  approvals_list approvals_resolve_method : Method

-- `localRpcMethodScope`
unfoldable pub method_scope : Method → Scope
method_scope diagnostics_get = diagnostics_read
method_scope projects_list = tasks_read
method_scope tasks_start = tasks_write
method_scope tasks_list = tasks_read
method_scope tasks_get = tasks_read
method_scope tasks_events = tasks_read
method_scope tasks_steer = tasks_write
method_scope tasks_queue_follow_up = tasks_write
method_scope tasks_compact = tasks_write
method_scope tasks_fork = tasks_write
method_scope tasks_export = tasks_read
method_scope exports_read = tasks_read
method_scope tasks_stop = tasks_write
method_scope approvals_list = tasks_read
method_scope approvals_resolve_method = approvals_resolve

-- The method's name in the protocol.
unfoldable pub method_name : Method → Text
method_name diagnostics_get = codes "diagnostics.get"
method_name projects_list = codes "projects.list"
method_name tasks_start = codes "tasks.start"
method_name tasks_list = codes "tasks.list"
method_name tasks_get = codes "tasks.get"
method_name tasks_events = codes "tasks.events"
method_name tasks_steer = codes "tasks.steer"
method_name tasks_queue_follow_up = codes "tasks.queueFollowUp"
method_name tasks_compact = codes "tasks.compact"
method_name tasks_fork = codes "tasks.fork"
method_name tasks_export = codes "tasks.export"
method_name exports_read = codes "exports.read"
method_name tasks_stop = codes "tasks.stop"
method_name approvals_list = codes "approvals.list"
method_name approvals_resolve_method = codes "approvals.resolve"

abbrev pub scope_number : Scope → ℕ
scope_number diagnostics_read = 0
scope_number tasks_read = 1
scope_number tasks_write = 2
scope_number approvals_resolve = 3

abbrev pub same_scope : Scope → Scope → Bool
same_scope a b = scope_number a == scope_number b

-- A row of the database's table of clients; display names and dates are left out.
pub record Client : Type 0 where
  pub id : String
  pub public_key : String
  pub fingerprint : Text
  pub scopes : List Scope
  pub revoked : Bool

-- `getAutomationClient` and `getAutomationClientByFingerprint`.
unfoldable pub get_client : String → List Client → Option Client
get_client id [] = none
get_client id (c ∷ cs) = if str_eq c.id id then some c else get_client id cs

unfoldable pub get_client_by_fingerprint : Text → List Client → Option Client
get_client_by_fingerprint print [] = none
get_client_by_fingerprint print (c ∷ cs) =
    if same_text c.fingerprint print then some c else get_client_by_fingerprint print cs

pub data RpcError : Type 0 where
  invalid_key request_skew params_changed client_revoked scope_denied bad_signature : RpcError
  rate_limited nonce_replay nonce_capacity pairing_not_found pairing_queue_full : RpcError
  invalid_scopes already_paired export_unavailable invalid_offset export_too_large : RpcError
  pairing_unavailable : RpcError

-- What comes from Node: text and byte encodings, the digest, and Ed25519 keys.
pub record Platform : Type 1 where
  pub Key : Type 0
  pub decode64 : String → List ℕ
  pub encode64 : List ℕ → String
  -- `createPublicKey`; none when it throws.
  pub create_public_key : List ℕ → Option Key
  pub is_ed25519 : Key → Bool
  pub export_spki : Key → List ℕ
  pub sha256 : List ℕ → Text
  pub sha256_text : Text → Text
  pub stringify : Json → Text
  pub date_parse : Text → ℕ
  pub verify_signature : Text → Key → List ℕ → Bool

module _ (p : Platform) where
  -- `canonicalBase64`
  unfoldable pub canonical_base64 : String → RpcError ⊎ List ℕ
  canonical_base64 value =
      let bytes = p.decode64 value in
      if length bytes == 0 || not (str_eq (p.encode64 bytes) value)
      then inl invalid_key
      else inr bytes

  -- `parseEd25519PublicKey`
  unfoldable pub parse_public_key : String → RpcError ⊎ (p.Key × Text)
  unfolding canonical_base64
  parse_public_key value = elim (canonical_base64 value) [
    | inl e ↦ inl e
    | inr bytes ↦ elim (p.create_public_key bytes) [
      | none ↦ inl invalid_key
      | some key ↦
          if not (p.is_ed25519 key)
          then inl invalid_key
          else if not (same_text (p.export_spki key) bytes)
          then inl invalid_key
          else inr (key, p.sha256 bytes)
    ]
  ]

-- `pruneRate`: the times of the last minute.
unfoldable pub prune_rate : ℕ → List ℕ → List ℕ
prune_rate now values = filter (λ value. ltb now (value + 60000)) values
