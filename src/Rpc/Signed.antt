-- ===== src/Rpc/Signed.antt =====
-- `verifySignedRequest`: the checks of a signed request, its rate and its nonce.
pub mod Replay
pub mod Bounds
pub mod Trace
use adrouter_agent.Prelude.{
  ltb, leb, if◌then◌else◌, length, any, filter, map_get, map_set, map_has, Text, codes, same_text,
  ℕ, ◌+◌, ◌-◌, String, ◌⊎◌, inl, inr, Bool, not, Option, none, some, List, [], ◌∷◌, ◌++◌,
}
use adrouter_agent.Json.{Json, num, str, obj, Fields, end, field, canonicalize}
use adrouter_agent.Rpc.{
  Scope, Method, method_scope, method_name, same_scope, Client, get_client, RpcError, request_skew,
  params_changed, client_revoked, scope_denied, bad_signature, rate_limited, nonce_replay,
  nonce_capacity, Platform, canonical_base64, parse_public_key, prune_rate,
}

pub record SignedRequest : Type 0 where
  pub request_id : String
  pub client_id : String
  pub method : Method
  pub params : Json
  pub params_digest : Text
  pub nonce : String
  pub timestamp : Text
  pub signature : String

abbrev pub request_skew_ms : ℕ
request_skew_ms = 60000

abbrev pub nonce_lifetime_ms : ℕ
nonce_lifetime_ms = 600000

abbrev pub max_nonces_per_client : ℕ
max_nonces_per_client = 1024

abbrev pub max_requests_per_minute : ℕ
max_requests_per_minute = 60

-- `clientRequestTimes` and `nonces`.
pub record Accounts : Type 0 where
  pub request_times : List (String × List ℕ)
  pub nonces : List (String × List (String × ℕ))

-- `map.get(key) ?? default`
abbrev pub get_or {ℓ} : {A : Type ℓ} → Option A → A → A
get_or none d = d
get_or (some a) d = a

-- |a - b| > bound
abbrev pub differs_by_more : ℕ → ℕ → ℕ → Bool
differs_by_more bound a b = ltb bound ((a - b) + (b - a))

module _ (p : Platform) where
  unfoldable pub params_digest : Json → Text
  params_digest params = p.sha256_text (p.stringify (canonicalize params))

  -- `localRpcSigningPayload` of the request without its params and signature.
  unfoldable pub signing_payload : SignedRequest → Text
  signing_payload request = p.stringify (
      canonicalize (
        obj (
          field (codes "version") (num 1) (
            field (codes "requestId") (str (codes request.request_id)) (
              field (codes "clientId") (str (codes request.client_id)) (
                field (codes "method") (str (method_name request.method)) (
                  field (codes "paramsDigest") (str request.params_digest) (
                    field (codes "nonce") (str (codes request.nonce))
                      (field (codes "timestamp") (str request.timestamp) end)))))))))

  -- The checks up to the signature, which change nothing.
  unfoldable pub check_signature : SignedRequest → Client → RpcError ⊎ Client
  check_signature request client = elim (parse_public_key p client.public_key) [
    | inl e ↦ inl e
    | inr (key, print) ↦ elim (canonical_base64 p request.signature) [
      | inl e ↦ inl e
      | inr signature ↦
          if p.verify_signature (signing_payload request) key signature
          then inr client
          else inl bad_signature
    ]
  ]

  unfoldable pub check_request : ℕ → List Client → SignedRequest → RpcError ⊎ Client
  unfolding params_digest check_signature
  check_request now clients request =
      if differs_by_more request_skew_ms (p.date_parse request.timestamp) now
      then inl request_skew
      else if not (same_text (params_digest request.params) request.params_digest)
      then inl params_changed
      else elim (get_client request.client_id clients) [
        | none ↦ inl client_revoked
        | some client ↦
            if client.revoked
            then inl client_revoked
            else if not (any (λ s. same_scope s (method_scope request.method)) client.scopes)
            then inl scope_denied
            else check_signature request client
      ]

-- The first loop over the client's nonces: those that expired are deleted.
unfoldable pub live_nonces : ℕ → List (String × ℕ) → List (String × ℕ)
live_nonces now nonces = filter (λ n. ltb now n.1) nonces

-- The deletions happen in the client's map, if it has one.
unfoldable pub prune_client : ℕ → String → Accounts → Accounts
prune_client now client s = elim (map_get client s.nonces) [
  | none ↦ s
  | some nonces ↦ record s { nonces = map_set client (live_nonces now nonces) s.nonces }
]

unfoldable pub account_nonce : ℕ → String → String → Accounts → Accounts × Option RpcError
account_nonce now client nonce s =
    let live = live_nonces now (get_or (map_get client s.nonces) []) in
    if map_has nonce live
    then (prune_client now client s, some nonce_replay)
    else if leb max_nonces_per_client (length live)
    then (prune_client now client s, some nonce_capacity)
    else (
      record s { nonces = map_set client (map_set nonce (now + nonce_lifetime_ms) live) s.nonces },
      none,
    )

-- The request is counted before its nonce is looked at.
unfoldable pub account_request : ℕ → String → String → Accounts → Accounts × Option RpcError
account_request now client nonce s =
    let times = prune_rate now (get_or (map_get client s.request_times) []) in
    if leb max_requests_per_minute (length times)
    then (s, some rate_limited)
    else account_nonce now client nonce
        (record s { request_times = map_set client (times ++ now ∷ []) s.request_times })

-- The whole of `verifySignedRequest`.
unfoldable pub verify_signed_request :
    Platform → ℕ → List Client → SignedRequest → Accounts → Accounts × (RpcError ⊎ Client)
verify_signed_request p now clients request s = elim (check_request p now clients request) [
  | inl e ↦ (s, inl e)
  | inr client ↦
      let (t, refused) = account_request now client.id request.nonce s in
      (t, elim refused [ none ↦ inr client | some e ↦ inl e ])
]
