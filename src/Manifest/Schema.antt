-- ===== src/Manifest/Schema.antt =====
-- The schema of a manifest, src/shared/contracts.ts.
use adrouter_agent.Prelude.{
  ltb, leb, ◌==◌, is_some, length, all, Text, codes, same_text, starts_with, ℕ, ◌+◌, Bool, true,
  false, not, ◌&&◌, ◌||◌, Option, none, some, List,
}
use adrouter_agent.Json.{}
use adrouter_agent.TaskPolicy.{OperationCapability, capability_text}
use adrouter_agent.Manifest.{
  Encoding, Target, method_get, method_head, method_git_push, NetworkBinding, GitBinding,
  UnsignedManifest, OperationManifest,
}

-- `min(low).max(high)` of a text or an array.
abbrev pub is_sized {ℓ} : {A : Type ℓ} → ℕ → ℕ → List A → Bool
is_sized low high xs = leb low (length xs) && leb (length xs) high

abbrev pub is_hexadecimal : ℕ → Bool
is_hexadecimal c = (leb b'0' c && leb c b'9') || (leb b'a' c && leb c b'f')

unfoldable pub is_hash : ℕ → Text → Bool
is_hash low t = is_sized low 64 t && all is_hexadecimal t

abbrev pub is_null_or {ℓ} : {A : Type ℓ} → (A → Bool) → Option A → Bool
is_null_or p none = true
is_null_or p (some a) = p a

unfoldable pub target_is_valid : Target → Bool
target_is_valid t = is_sized 1 4096 t.path && is_null_or (is_hash 40) t.before_hash

-- `/^[0-9a-fA-F:.]+$/`
abbrev pub is_address_unit : ℕ → Bool
is_address_unit c = is_hexadecimal c || (leb b'A' c && leb c b'F') || c == b':' || c == b'.'

unfoldable pub network_is_valid : Encoding → NetworkBinding → Bool
network_is_valid e n =
    e.is_url n.url
    && leb (length n.url) 8192
    && is_sized 1 253 n.host
    && is_sized 1 16 n.resolved_addresses
    && all (λ a. is_sized 2 64 a && all is_address_unit a) n.resolved_addresses
    && ltb 0 n.max_response_bytes
    && leb n.max_response_bytes 10485760

unfoldable pub git_is_valid : GitBinding → Bool
git_is_valid g =
    is_null_or (is_hash 40) g.head_oid
    && is_null_or (is_hash 40) g.index_tree_oid
    && is_null_or (λ r. is_sized 1 1024 r) g.ref

abbrev pub is_fetch_method : Option NetworkBinding → Bool
is_fetch_method none = false
is_fetch_method (some n) = elim n.method [
  | method_get ↦ true
  | method_head ↦ true
  | method_git_push ↦ false
]

abbrev pub is_push_method : Option NetworkBinding → Bool
is_push_method none = false
is_push_method (some n) = elim n.method [
  | method_get ↦ false
  | method_head ↦ false
  | method_git_push ↦ true
]

abbrev pub is_capability : OperationCapability → Text → Bool
is_capability capability name = same_text (capability_text capability) name

-- The refinement of the schema; the lifetime is a difference of integers.
unfoldable pub manifest_is_consistent : Encoding → UnsignedManifest → Bool
manifest_is_consistent e m =
    let created = e.date_parse m.created_at in
    let expires = e.date_parse m.expires_at in
    let fetches = is_capability m.capability (codes "network.fetch") in
    let pushes = is_capability m.capability (codes "git.push") in
    ltb created expires
    && leb expires (created + 900000)
    && (not fetches || is_fetch_method m.network)
    && (not pushes || is_push_method m.network)
    && (fetches || pushes || not (is_some m.network))
    && (not (starts_with (capability_text m.capability) (codes "git.")) || is_some m.git)

unfoldable pub manifest_is_valid : Encoding → OperationManifest → Bool
manifest_is_valid e manifest =
    let m = manifest.unsigned in
    e.is_id m.operation_id
    && e.is_id m.thread_id
    && e.is_id m.turn_id
    && is_sized 1 4096 m.workspace
    && leb (length m.targets) 2000
    && all target_is_valid m.targets
    && is_null_or (λ argv. leb (length argv) 256 && all (is_sized 1 8192) argv) m.argv
    && is_null_or (network_is_valid e) m.network
    && is_null_or git_is_valid m.git
    && e.is_timestamp m.created_at
    && e.is_timestamp m.expires_at
    && is_hash 64 manifest.binding
    && manifest_is_consistent e m
