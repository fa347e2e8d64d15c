-- ===== src/Rpc/Signed/Trace.antt =====
-- Signed requests over time: what an accepted one had to pass, and that none is accepted twice.
use adrouter_agent.Prelude.{
  Option-cases, Sum-cases, any, All, map_get, map_set, Text, same_text, same_text_sound, ℕ, ◌+◌,
  ◌≤◌, ◌<◌, String, ◌≡◌, refl, subst, ◌≢◌, ◌⊎◌, inl, inr, true, false, none, some, List, [], ◌∷◌,
  ◌++◌, arith, eq_iff,
}
use adrouter_agent.Rpc.{
  Client, get_client, method_scope, same_scope, prune_rate, rate_limited, Platform,
  canonical_base64, parse_public_key,
}
use adrouter_agent.Rpc.Signed.{
  SignedRequest, Accounts, get_or, nonce_lifetime_ms, request_skew_ms, differs_by_more,
  params_digest, signing_payload, check_signature, check_request, account_nonce, account_request,
  verify_signed_request,
}
use adrouter_agent.Rpc.Signed.Replay.{
  expiry, account_nonce_accepts, account_nonce_keeps, account_nonce_replay,
}

get_client-id :
    (id : String) (clients : List Client) (c : Client) → get_client id clients ≡ some c → c.id ≡ id
unfolding get_client
get_client-id id [] c h = cc
get_client-id id (d ∷ clients) c h = ground (arith, eq_iff d.id id, get_client-id id clients c)

-- What a signed request has to show for the client whose request it is taken as.
pub record IsAuthentic (p : Platform) (now : ℕ) (clients : List Client) (request : SignedRequest)
    (client : Client) : Type 0 where
  pub known : get_client request.client_id clients ≡ some client
  pub live : client.revoked ≡ false
  pub recent : differs_by_more request_skew_ms (p.date_parse request.timestamp) now ≡ false
  pub digest : params_digest p request.params ≡ request.params_digest
  pub scope : any (λ s. same_scope s (method_scope request.method)) client.scopes ≡ true
  pub key : p.Key
  pub print : Text
  pub owned : parse_public_key p client.public_key ≡ inr (key, print)
  pub bytes : List ℕ
  pub signature : canonical_base64 p request.signature ≡ inr bytes
  pub signed : p.verify_signature (signing_payload p request) key bytes ≡ true

check_signature_sound :
    (p : Platform) (request : SignedRequest) (client c : Client)
    → check_signature p request client ≡ inr c
    → (key : p.Key) × (print : Text) × (bytes : List ℕ) × (parse_public_key p client.public_key
        ≡ inr (key, print))
      × (canonical_base64 p request.signature ≡ inr bytes)
      × (p.verify_signature (signing_payload p request) key bytes ≡ true)
      × (client ≡ c)
unfolding check_signature
check_signature_sound p request client c h =
    elim (Sum-cases (parse_public_key p client.public_key)) [
      | inl (e, bad) ↦ absurd (ground arith)
      | inr ((key, print), owned) ↦ elim (Sum-cases (canonical_base64 p request.signature)) [
        | inl (e, bad) ↦ absurd (ground arith)
        | inr (bytes, decoded) ↦ (key, print, bytes, owned, decoded, ground arith, ground arith)
      ]
    ]

module _ (p : Platform) (now : ℕ) (clients : List Client) (request : SignedRequest) where
  -- The client and the checks before the signature.
  check_request_client :
      (client : Client)
      → check_request p now clients request ≡ inr client
      → (c : Client) × (get_client request.client_id clients ≡ some c)
        × (check_signature p request c ≡ inr client)
        × (c.revoked ≡ false)
        × (any (λ s. same_scope s (method_scope request.method)) c.scopes ≡ true)
        × (differs_by_more request_skew_ms (p.date_parse request.timestamp) now ≡ false)
        × (same_text (params_digest p request.params) request.params_digest ≡ true)
  unfolding check_request
  check_request_client client h = elim (Option-cases (get_client request.client_id clients)) [
    | inl unknown ↦ absurd (ground arith)
    | inr (c, known) ↦
        (c, known, ground arith, ground arith, ground arith, ground arith, ground arith)
  ]

  pub check_request_sound :
      (client : Client)
      → check_request p now clients request ≡ inr client
      → IsAuthentic p now clients request client
  check_request_sound client h =
      let (c, known, checked, live, scope, recent, digest) = check_request_client client h in
      let (key, print, bytes, owned, decoded, signed, same) =
        check_signature_sound p request c client checked in
      subst (IsAuthentic p now clients request) same (record {
        known = known;
        live = live;
        recent = recent;
        digest = same_text_sound _ _ digest;
        scope = scope;
        key = key;
        print = print;
        owned = owned;
        bytes = bytes;
        signature = decoded;
        signed = signed;
      })

  -- Acceptance is a passed check and an accounted nonce.
  verify_accepts :
      (s : Accounts) (client : Client)
      → (verify_signed_request p now clients request s).1 ≡ inr client
      → (check_request p now clients request ≡ inr client)
        × ((account_request now client.id request.nonce s).1 ≡ none)
        × ((verify_signed_request p now clients request s).0
            ≡ (account_request now client.id request.nonce s).0)
  unfolding verify_signed_request
  verify_accepts s client h = elim (Sum-cases (check_request p now clients request)) [
    | inl (e, bad) ↦ absurd (ground arith)
    | inr (c, good) ↦
        let same : c ≡ client = ground arith in
        rw (good, same, verify_signed_request) (refl, ground arith, refl)
  ]

-- An accepted request is authentic: a client that is known and not revoked, with the scope of the
-- method, signed these very parameters within a minute of now.
pub verify_signed_request-IsAuthentic :
    (p : Platform) (now : ℕ) (clients : List Client) (request : SignedRequest) (s : Accounts)
    (client : Client)
    → (verify_signed_request p now clients request s).1 ≡ inr client
    → IsAuthentic p now clients request client
verify_signed_request-IsAuthentic p now clients request s client h =
    check_request_sound p now clients request client
      (verify_accepts p now clients request s client h).0

module _ (now : ℕ) (client nonce : String) (s : Accounts) where
  -- The request is counted, and then its nonce.
  counted : Accounts
  counted = record s {
    request_times =
        map_set client (prune_rate now (get_or (map_get client s.request_times) []) ++ now ∷ [])
          s.request_times;
  }

  account_request_cases :
      (account_request now client nonce s ≡ (s, some rate_limited))
      ⊎ (account_request now client nonce s ≡ account_nonce now client nonce counted)
  unfolding account_request counted
  account_request_cases = ground arith

  account_request_accepts :
      (account_request now client nonce s).1 ≡ none
      → expiry client nonce (account_request now client nonce s).0 ≡ now + nonce_lifetime_ms
  account_request_accepts h = elim account_request_cases [
    | inl limited ↦ absurd (ground arith)
    | inr passed ↦ rw passed (account_nonce_accepts now client nonce counted (rw passed at h))
  ]

  account_request_keeps :
      (other used : String) (until : ℕ)
      → now < until
      → until ≤ expiry other used s
      → until ≤ expiry other used (account_request now client nonce s).0
  unfolding counted
  account_request_keeps other used until live h = elim account_request_cases [
    | inl limited ↦ rw limited h
    | inr passed ↦ rw passed (account_nonce_keeps now client nonce counted other used until live h)
  ]

  account_request_replay :
      now < expiry client nonce s → (account_request now client nonce s).1 ≢ none
  unfolding counted
  account_request_replay h e = elim account_request_cases [
    | inl limited ↦ ground arith
    | inr passed ↦ ground (arith, account_nonce_replay now client nonce counted h)
  ]

-- A request that reaches the server: when, with which clients in the database.
pub record Arrival : Type 0 where
  pub at : ℕ
  pub clients : List Client
  pub request : SignedRequest

-- The accounts after some requests, accepted or not.
unfoldable pub after_arrivals : Platform → List Arrival → Accounts → Accounts
after_arrivals p [] s = s
after_arrivals p (a ∷ rest) s =
    after_arrivals p rest (verify_signed_request p a.at a.clients a.request s).0

verify_keeps :
    (p : Platform) (a : Arrival) (s : Accounts) (other used : String) (until : ℕ)
    → a.at < until
    → until ≤ expiry other used s
    → until ≤ expiry other used (verify_signed_request p a.at a.clients a.request s).0
unfolding verify_signed_request
verify_keeps p a s other used until live h =
    elim (Sum-cases (check_request p a.at a.clients a.request)) [
      | inl (e, bad) ↦ rw (bad, verify_signed_request) h
      | inr (c, good) ↦
          rw (good, verify_signed_request)
            (account_request_keeps a.at c.id a.request.nonce s other used until live h)
    ]

after_arrivals_keeps :
    (p : Platform) (arrivals : List Arrival) (s : Accounts) (other used : String) (until : ℕ)
    → All (λ (a : Arrival). a.at < until) arrivals
    → until ≤ expiry other used s
    → until ≤ expiry other used (after_arrivals p arrivals s)
unfolding after_arrivals
after_arrivals_keeps p [] s other used until early h = h
after_arrivals_keeps p (a ∷ arrivals) s other used until (here, early) h =
    after_arrivals_keeps p arrivals _ other used until early
      (verify_keeps p a s other used until here h)

-- The client that an accepted request is taken for is the one that it names.
verify_client :
    (p : Platform) (now : ℕ) (clients : List Client) (request : SignedRequest) (s : Accounts)
    (client : Client)
    → (verify_signed_request p now clients request s).1 ≡ inr client
    → client.id ≡ request.client_id
verify_client p now clients request s client h =
    get_client-id request.client_id clients client
      (verify_signed_request-IsAuthentic p now clients request s client h).known

verify_remembers :
    (p : Platform) (now : ℕ) (clients : List Client) (request : SignedRequest) (s : Accounts)
    (client : Client)
    → (verify_signed_request p now clients request s).1 ≡ inr client
    → expiry request.client_id request.nonce (verify_signed_request p now clients request s).0
      ≡ now + nonce_lifetime_ms
verify_remembers p now clients request s client h =
    let (good, accepted, after) = verify_accepts p now clients request s client h in
    let named = verify_client p now clients request s client h in
    rw (after, ← named) (account_request_accepts now client.id request.nonce s accepted)

-- Two skews of a minute do not span the life of a nonce.
skews_apart :
    (stamp now later : ℕ)
    → differs_by_more request_skew_ms stamp now ≡ false
    → differs_by_more request_skew_ms stamp later ≡ false
    → later < now + nonce_lifetime_ms
skews_apart stamp now later h k = ground arith

-- A request that was accepted is not accepted again: not by any server state that later requests
-- lead to, nor with any clients in the database, as long as the clock does not run back past the
-- second attempt.
pub verify_signed_request_once :
    (p : Platform) (request : SignedRequest) (now later : ℕ) (clients clients' : List Client)
    (s : Accounts) (between : List Arrival) (client client' : Client)
    → (verify_signed_request p now clients request s).1 ≡ inr client
    → All (λ (a : Arrival). a.at ≤ later) between
    → (verify_signed_request p later clients' request
        (after_arrivals p between (verify_signed_request p now clients request s).0)).1
      ≢ inr client'
verify_signed_request_once p request now later clients clients' s between client client' first times
      second =
    let t = after_arrivals p between (verify_signed_request p now clients request s).0 in
    let early =
      skews_apart (p.date_parse request.timestamp) now later
        (verify_signed_request-IsAuthentic p now clients request s client first).recent
        (verify_signed_request-IsAuthentic p later clients' request t client' second).recent in
    let kept =
      after_arrivals_keeps p between (verify_signed_request p now clients request s).0
        request.client_id request.nonce (now + nonce_lifetime_ms) (All-lt between times early)
        (omega (arith, verify_remembers p now clients request s client first)) in
    let named = verify_client p later clients' request t client' second in
    account_request_replay later client'.id request.nonce t (rw named (omega (arith, kept, early)))
      (verify_accepts p later clients' request t client' second).1
  where
    All-lt :
        (l : List Arrival)
        → All (λ (a : Arrival). a.at ≤ later) l
        → later < now + nonce_lifetime_ms
        → All (λ (a : Arrival). a.at < now + nonce_lifetime_ms) l
    All-lt [] h e = tt
    All-lt (a ∷ l) (here, h) e = (omega arith, All-lt l h e)
