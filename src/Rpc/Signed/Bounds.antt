-- ===== src/Rpc/Signed/Bounds.antt =====
-- How much the server keeps for a client, src/main/local-rpc-server.ts.
use adrouter_agent.Prelude.{
  ltb, leb, Bool-cases, Option-cases, Sum-cases, length, length-append, length-filter-le, map_get,
  map_set, map_has, map_get-set, length-map_set_le, ℕ, ◌+◌, ◌≤◌, String, inl, inr, List, [], ◌∷◌,
  ◌++◌, arith,
}
use adrouter_agent.Rpc.{Client, Platform, prune_rate}
use adrouter_agent.Rpc.Signed.Trace.{Arrival, after_arrivals}
use adrouter_agent.Rpc.Signed.{
  SignedRequest, nonce_lifetime_ms, max_nonces_per_client, max_requests_per_minute, Accounts,
  get_or, check_request, live_nonces, prune_client, account_nonce, account_request,
  verify_signed_request,
}

-- What is kept for a client: the nonces and the times of its requests.
pub record IsBounded (s : Accounts) : Type 0 where
  pub nonces :
      (client : String) → length (get_or (map_get client s.nonces) []) ≤ max_nonces_per_client
  pub times :
      (client : String)
      → length (get_or (map_get client s.request_times) []) ≤ max_requests_per_minute

live_nonces_le :
    (now : ℕ) (nonces : List (String × ℕ)) → length (live_nonces now nonces) ≤ length nonces
unfolding live_nonces
live_nonces_le now nonces = length-filter-le (λ n. ltb now n.1) nonces

get_or-map_set :
    (k j : String) (v : List (String × ℕ)) (m : List (String × List (String × ℕ)))
    → length v ≤ max_nonces_per_client
    → length (get_or (map_get j m) []) ≤ max_nonces_per_client
    → length (get_or (map_get j (map_set k v m)) []) ≤ max_nonces_per_client
get_or-map_set k j v m h old = ground (arith, map_get-set k j v m)

get_or-map_set_times :
    (k j : String) (v : List ℕ) (m : List (String × List ℕ))
    → length v ≤ max_requests_per_minute
    → length (get_or (map_get j m) []) ≤ max_requests_per_minute
    → length (get_or (map_get j (map_set k v m)) []) ≤ max_requests_per_minute
get_or-map_set_times k j v m h old = ground (arith, map_get-set k j v m)

prune_client-IsBounded :
    (now : ℕ) (client : String) (s : Accounts) → IsBounded s → IsBounded (prune_client now client s)
unfolding prune_client
prune_client-IsBounded now client s b = elim (Option-cases (map_get client s.nonces)) [
  | inl e ↦ rw (prune_client, e) b
  | inr (nonces, e) ↦
      let short : length (live_nonces now nonces) ≤ max_nonces_per_client =
        ground (arith, live_nonces_le now nonces, b.nonces client) in
      rw (prune_client, e)
        (record {
          nonces = λ other.
              get_or-map_set client other (live_nonces now nonces) s.nonces short (b.nonces other);
          times = b.times;
        })
]

account_nonce-IsBounded :
    (now : ℕ) (client nonce : String) (s : Accounts)
    → IsBounded s
    → IsBounded (account_nonce now client nonce s).0
unfolding account_nonce
account_nonce-IsBounded now client nonce s b =
    let live = live_nonces now (get_or (map_get client s.nonces) []) in
    elim (Bool-cases (map_has nonce live)) [
      | inl again ↦ rw (account_nonce, again) (prune_client-IsBounded now client s b)
      | inr fresh ↦ elim (Bool-cases (leb max_nonces_per_client (length live))) [
        | inl full ↦ rw (account_nonce, fresh, full) (prune_client-IsBounded now client s b)
        | inr room ↦
            let kept = map_set nonce (now + nonce_lifetime_ms) live in
            let short : length kept ≤ max_nonces_per_client =
              ground (arith, length-map_set_le nonce (now + nonce_lifetime_ms) live) in
            rw (account_nonce, fresh, room)
              (record {
                nonces = λ other. get_or-map_set client other kept s.nonces short (b.nonces other);
                times = b.times;
              })
      ]
    ]

account_request-IsBounded :
    (now : ℕ) (client nonce : String) (s : Accounts)
    → IsBounded s
    → IsBounded (account_request now client nonce s).0
unfolding account_request
account_request-IsBounded now client nonce s b =
    let times = prune_rate now (get_or (map_get client s.request_times) []) in
    elim (Bool-cases (leb max_requests_per_minute (length times))) [
      | inl full ↦ rw (account_request, full) b
      | inr room ↦
          let more : Accounts = record s {
            request_times = map_set client (times ++ now ∷ []) s.request_times;
          } in
          let short : length (times ++ now ∷ []) ≤ max_requests_per_minute =
            ground (arith, length-append times (now ∷ [])) in
          rw (account_request, room)
            (account_nonce-IsBounded now client nonce more (record {
              nonces = b.nonces;
              times = λ other.
                  get_or-map_set_times client other (times ++ now ∷ []) s.request_times short
                    (b.times other);
            }))
    ]

verify_signed_request-IsBounded :
    (p : Platform) (now : ℕ) (clients : List Client) (request : SignedRequest) (s : Accounts)
    → IsBounded s
    → IsBounded (verify_signed_request p now clients request s).0
unfolding verify_signed_request
verify_signed_request-IsBounded p now clients request s b =
    elim (Sum-cases (check_request p now clients request)) [
      | inl (error, e) ↦ rw (verify_signed_request, e) b
      | inr (client, e) ↦
          rw (verify_signed_request, e) (account_request-IsBounded now client.id request.nonce s b)
    ]

-- Whatever requests arrive, accepted or not, the server keeps at most 1024 nonces and the times of at
-- most 60 requests for each client.
pub after_arrivals-IsBounded :
    (p : Platform) (arrivals : List Arrival) (s : Accounts)
    → IsBounded s
    → IsBounded (after_arrivals p arrivals s)
unfolding after_arrivals
after_arrivals-IsBounded p [] s b = b
after_arrivals-IsBounded p (a ∷ arrivals) s b =
    after_arrivals-IsBounded p arrivals _
      (verify_signed_request-IsBounded p a.at a.clients a.request s b)
