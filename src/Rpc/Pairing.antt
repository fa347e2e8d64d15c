-- ===== src/Rpc/Pairing.antt =====
-- Pairing a client: `requestPairing`, the `pair.status` branch of `dispatch`, `approvePairing`,
-- `denyPairing` and `prunePairings`. Display names, comparison codes and dates of rows are left out;
-- the ids that `createId` makes are arguments.
pub mod Laws
pub mod Trace
use adrouter_agent.Prelude.{
  leb, ◌==◌, if◌then◌else◌, is_some, length, filter, map_get, map_set, Text, ℕ, ◌+◌, String, ◌⊎◌,
  inl, inr, Bool, true, false, not, ◌&&◌, Option, none, some, List, [], ◌∷◌, ◌++◌,
}
use adrouter_agent.Rpc.{
  Scope, same_scope, Client, get_client_by_fingerprint, RpcError, rate_limited, pairing_not_found,
  pairing_queue_full, invalid_scopes, already_paired, pairing_unavailable, Platform,
  parse_public_key, prune_rate,
}

pub data PairingStatus : Type 0 where
  pending approved denied expired : PairingStatus

abbrev pub is_pending : PairingStatus → Bool
is_pending pending = true
is_pending approved = false
is_pending denied = false
is_pending expired = false

pub record Pairing : Type 0 where
  pub public_key : String
  pub fingerprint : Text
  pub scopes : List Scope
  pub status : PairingStatus
  pub expires_at : ℕ
  pub client_id : Option String

pub record Pairings : Type 0 where
  pub pairings : List (String × Pairing)
  pub pair_times : List ℕ
  pub status_times : List ℕ
  pub clients : List Client

abbrev pub pairing_lifetime_ms : ℕ
pairing_lifetime_ms = 300000

abbrev pub result_retention_ms : ℕ
result_retention_ms = 60000

abbrev pub max_pending_pairings : ℕ
max_pending_pairings = 8

-- One round of the loop of `prunePairings` that keeps the entry.
unfoldable pub expire : ℕ → Pairing → Pairing
expire now q =
    if is_pending q.status && leb q.expires_at now then record q { status = expired } else q

unfoldable pub prune_entries : ℕ → List (String × Pairing) → List (String × Pairing)
prune_entries now [] = []
prune_entries now ((id, q) ∷ m) =
    if leb (q.expires_at + result_retention_ms) now
    then prune_entries now m
    else (id, expire now q) ∷ prune_entries now m

unfoldable pub prune_pairings : ℕ → Pairings → Pairings
prune_pairings now s = record s { pairings = prune_entries now s.pairings }

abbrev pub count_pending : List (String × Pairing) → ℕ
count_pending [] = 0
count_pending ((id, q) ∷ m) = (if is_pending q.status then 1 else 0) + count_pending m

-- `[...new Set(scopes)]`
unfoldable pub unique_scopes : List Scope → List Scope
unique_scopes [] = []
unique_scopes (x ∷ xs) = x ∷ filter (λ y. not (same_scope x y)) (unique_scopes xs)

abbrev pub new_pairing : ℕ → String → Text → List Scope → Pairing
new_pairing now public_key print scopes = record {
  public_key = public_key;
  fingerprint = print;
  scopes = unique_scopes scopes;
  status = pending;
  expires_at = now + pairing_lifetime_ms;
  client_id = none;
}

-- `requestPairing` behind the rate and queue checks.
unfoldable pub register :
    Platform → ℕ → String → String → List Scope → Pairings → Pairings × (RpcError ⊎ Pairing)
register p now id public_key scopes s =
    if not (length (unique_scopes scopes) == length scopes)
    then (s, inl invalid_scopes)
    else elim (parse_public_key p public_key) [
      | inl e ↦ (s, inl e)
      | inr (key, print) ↦
          if is_some (get_client_by_fingerprint print s.clients)
          then (s, inl already_paired)
          else let pairing = new_pairing now public_key print scopes in
            (record s { pairings = map_set id pairing s.pairings }, inr pairing)
    ]

unfoldable pub request_pairing :
    Platform → ℕ → String → String → List Scope → Pairings → Pairings × (RpcError ⊎ Pairing)
request_pairing p now id public_key scopes s =
    let times = prune_rate now s.pair_times in
    let t : Pairings = record s { pairings = prune_entries now s.pairings; pair_times = times } in
    if leb 20 (length times)
    then (t, inl rate_limited)
    else let u : Pairings = record t { pair_times = times ++ now ∷ [] } in
      if leb max_pending_pairings (count_pending u.pairings)
      then (u, inl pairing_queue_full)
      else register p now id public_key scopes u

unfoldable pub pair_status : ℕ → String → Pairings → Pairings × (RpcError ⊎ Pairing)
pair_status now id s =
    let times = prune_rate now s.status_times in
    let t : Pairings = record s { pairings = prune_entries now s.pairings; status_times = times } in
    if leb 120 (length times)
    then (t, inl rate_limited)
    else let u : Pairings = record t { status_times = times ++ now ∷ [] } in
      elim (map_get id u.pairings) [ none ↦ (u, inl pairing_not_found) | some q ↦ (u, inr q) ]

-- `createAutomationClient`, a row appended to the table.
unfoldable pub create_client : String → Pairing → List Client → List Client
create_client id q clients =
    clients
    ++ record {
      id = id;
      public_key = q.public_key;
      fingerprint = q.fingerprint;
      scopes = q.scopes;
      revoked = false;
    }
      ∷ []

unfoldable pub approve_pairing : ℕ → String → String → Pairings → Pairings × (RpcError ⊎ Pairing)
approve_pairing now client_id id s =
    let t = prune_pairings now s in
    elim (map_get id t.pairings) [
      | none ↦ (t, inl pairing_unavailable)
      | some q ↦
          if not (is_pending q.status)
          then (t, inl pairing_unavailable)
          else if is_some (get_client_by_fingerprint q.fingerprint t.clients)
          then (t, inl already_paired)
          else let q' : Pairing = record q { status = approved; client_id = some client_id } in
            (
              record t {
                pairings = map_set id q' t.pairings;
                clients = create_client client_id q t.clients;
              },
              inr q',
            )
    ]

unfoldable pub deny_pairing : ℕ → String → Pairings → Pairings × (RpcError ⊎ Pairing)
deny_pairing now id s =
    let t = prune_pairings now s in
    elim (map_get id t.pairings) [
      | none ↦ (t, inl pairing_unavailable)
      | some q ↦
          if not (is_pending q.status)
          then (t, inl pairing_unavailable)
          else let q' : Pairing = record q { status = denied } in
            (record t { pairings = map_set id q' t.pairings }, inr q')
    ]
