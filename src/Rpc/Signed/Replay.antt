-- ===== src/Rpc/Signed/Replay.antt =====
-- An accepted request is not accepted again.
use adrouter_agent.Prelude.{
  str_eq, if◌then◌else◌, Bool-cases, Option-cases, is_some, map_get, map_set, map_has, map_get-set,
  ℕ, ◌+◌, ◌≤◌, ◌<◌, String, ◌≡◌, refl, sym, subst, ◌≢◌, inl, inr, true, none, some, List, [], ◌∷◌,
  arith, eq_iff, eq_refl,
}
use adrouter_agent.Rpc.{nonce_replay}
use adrouter_agent.Rpc.Signed.{
  Accounts, get_or, nonce_lifetime_ms, live_nonces, prune_client, account_nonce,
}

-- When a nonce of a client expires; 0 for one that is not kept.
abbrev pub expiry_in : String → List (String × ℕ) → ℕ
expiry_in nonce nonces = get_or (map_get nonce nonces) 0

abbrev pub nonces_of : String → Accounts → List (String × ℕ)
nonces_of client s = get_or (map_get client s.nonces) []

abbrev pub expiry : String → String → Accounts → ℕ
expiry client nonce s = expiry_in nonce (nonces_of client s)

expiry_in-live_nonces :
    (now : ℕ) (nonce : String) (m : List (String × ℕ))
    → now < expiry_in nonce m
    → expiry_in nonce (live_nonces now m) ≡ expiry_in nonce m
unfolding live_nonces map_get
expiry_in-live_nonces now nonce [] h = refl
expiry_in-live_nonces now nonce ((k, e) ∷ m) h = ground (arith, expiry_in-live_nonces now nonce m)

map_has_of_expiry :
    (nonce : String) (m : List (String × ℕ)) → 0 < expiry_in nonce m → map_has nonce m ≡ true
map_has_of_expiry nonce m h = elim (Option-cases (map_get nonce m)) [
  | inl e ↦ absurd (ground arith)
  | inr (v, e) ↦ rw e refl
]

-- Pruning a client leaves its live nonces, and the other clients alone.
nonces_of-prune_client :
    (now : ℕ) (client : String) (s : Accounts)
    → nonces_of client (prune_client now client s) ≡ live_nonces now (nonces_of client s)
unfolding prune_client
nonces_of-prune_client now client s = elim (Option-cases (map_get client s.nonces)) [
  | inl e ↦ rw (e, prune_client) (rw e (unfold live_nonces in refl))
  | inr (m, e) ↦
      rw (e, prune_client)
        (rw (map_get-set client client (live_nonces now m) s.nonces, eq_refl client) refl)
]

nonces_of-prune_client_ne :
    (now : ℕ) (client other : String) (s : Accounts)
    → client ≢ other
    → nonces_of other (prune_client now client s) ≡ nonces_of other s
unfolding prune_client
nonces_of-prune_client_ne now client other s h = elim (Option-cases (map_get client s.nonces)) [
  | inl e ↦ rw (e, prune_client) refl
  | inr (m, e) ↦
      rw (e, prune_client)
        (ground (arith, map_get-set client other (live_nonces now m) s.nonces, eq_iff client other))
]

module _ (now : ℕ) (client nonce : String) (s : Accounts) where
  -- What one call leaves in the client's map.
  account_nonce_self : nonces_of client (account_nonce now client nonce s).0 ≡ (
      if is_some (account_nonce now client nonce s).1
      then live_nonces now (nonces_of client s)
      else map_set nonce (now + nonce_lifetime_ms) (live_nonces now (nonces_of client s)))
  unfolding account_nonce
  account_nonce_self = ground (
    arith,
    nonces_of-prune_client now client s,
    eq_refl client,
    map_get-set client client
        (map_set nonce (now + nonce_lifetime_ms) (live_nonces now (nonces_of client s))) s.nonces,
  )

  account_nonce_other :
      (other : String)
      → client ≢ other
      → nonces_of other (account_nonce now client nonce s).0 ≡ nonces_of other s
  unfolding account_nonce
  account_nonce_other other h = ground (
    arith,
    nonces_of-prune_client_ne now client other s h,
    eq_iff client other,
    map_get-set client other
        (map_set nonce (now + nonce_lifetime_ms) (live_nonces now (nonces_of client s))) s.nonces,
  )

  -- A nonce that is still live is refused.
  pub account_nonce_replay :
      now < expiry client nonce s → (account_nonce now client nonce s).1 ≡ some nonce_replay
  unfolding account_nonce
  account_nonce_replay h =
      let kept = expiry_in-live_nonces now nonce (nonces_of client s) h in
      rw (map_has_of_expiry nonce (live_nonces now (nonces_of client s)) (omega (arith, kept))) refl

  -- A nonce that is accepted was not live, and is kept for ten minutes.
  pub account_nonce_accepts :
      (account_nonce now client nonce s).1 ≡ none
      → expiry client nonce (account_nonce now client nonce s).0 ≡ now + nonce_lifetime_ms
  account_nonce_accepts h = rw account_nonce_self (
      rw h (
        ground (
          arith,
          eq_refl nonce,
          map_get-set nonce nonce (now + nonce_lifetime_ms) (live_nonces now (nonces_of client s)),
        )))

  -- Another nonce keeps its expiry while that has not passed.
  pub account_nonce_keeps :
      (other used : String) (until : ℕ)
      → now < until
      → until ≤ expiry other used s
      → until ≤ expiry other used (account_nonce now client nonce s).0
  account_nonce_keeps other used until live h = elim (Bool-cases (str_eq client other)) [
    | inr apart ↦ rw (account_nonce_other other (λ e. ground (arith, eq_iff client other))) h
    | inl e ↦
        subst (λ c. until ≤ expiry c used (account_nonce now client nonce s).0)
          ((eq_iff client other).0 e)
          (same_client (subst (λ c. until ≤ expiry c used s) (sym ((eq_iff client other).0 e)) h))
  ]
    where
      same_client :
          until ≤ expiry client used s
          → until ≤ expiry client used (account_nonce now client nonce s).0
      same_client k = rw account_nonce_self (
          ground (
            arith,
            k,
            expiry_in-live_nonces now used (nonces_of client s),
            eq_iff nonce used,
            account_nonce_replay,
            map_get-set nonce used (now + nonce_lifetime_ms) (live_nonces now (nonces_of client s)),
          ))
