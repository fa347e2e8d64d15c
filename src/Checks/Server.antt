-- ===== src/Checks/Server.antt =====
-- The scheduler, the RPC server and the JSON functions at concrete inputs.
use adrouter_agent.Prelude.{
  ◌==◌, length, take, Pairwise, map_get, map_set, codes, same_text, ℕ, ◌+◌, min, String, ◌≡◌, refl,
  ◌≢◌, inl, inr, false, none, some, List, [], ◌∷◌, arith,
}
use adrouter_agent.Scheduler.{Mode, read, write, RuntimeLease, Scheduler, new_scheduler, drain}
use adrouter_agent.Scheduler.Drain.{Drained, drain-Drained}
use adrouter_agent.Scheduler.Methods.{IsGood}
use adrouter_agent.Scheduler.Trace.{
  Call, submit, withdraw, finish, run, scheduler-IsGood, ReadTogether, scheduler-ReadTogether,
}
use adrouter_agent.Json.{
  Json, null, num, str, arr, obj, nil, cons, end, field, remove_sponsor_data, contains_sponsor_key,
  canonicalize,
}
use adrouter_agent.Json.Sponsor.{contains_sponsor_key-remove_sponsor_data}
use adrouter_agent.Json.Canonical.{fields, swap, canonicalize-Reordered}
use adrouter_agent.Rpc.{
  tasks_read, tasks_list, method_scope, Client, get_client, pairing_unavailable, Platform,
  canonical_base64, parse_public_key, prune_rate,
}
use adrouter_agent.Rpc.Signed.{
  SignedRequest, Accounts, params_digest, signing_payload, check_signature, check_request,
  live_nonces, prune_client, account_nonce, account_request, verify_signed_request,
}
use adrouter_agent.Rpc.Signed.Bounds.{IsBounded, after_arrivals-IsBounded}
use adrouter_agent.Rpc.Signed.Trace.{
  IsAuthentic, verify_signed_request-IsAuthentic, Arrival, after_arrivals,
  verify_signed_request_once,
}
use adrouter_agent.Rpc.Pairing.{
  pending, denied, Pairing, Pairings, expire, prune_entries, prune_pairings, deny_pairing,
}
use adrouter_agent.Rpc.Pairing.Laws.{IsValid}
use adrouter_agent.Rpc.Pairing.Trace.{
  Event, ask, deny, handle_all, handle_all-IsValid, decide, decide_once,
}
use adrouter_agent.Rpc.Exports.{start_export}
use adrouter_agent.Rpc.Exports.Laws.{download, download-start_export}

abbrev lease : String → Mode → RuntimeLease
lease id mode = record { id = id; workspace = "/work"; git_common_directory = none; mode = mode }

abbrev two_workers : Scheduler
two_workers = record { capacity = 2; active = []; queue = [] }

abbrev some_calls : List Call
some_calls =
    submit (lease "a" read)
    ∷ submit (lease "b" write)
    ∷ submit (lease "c" read)
    ∷ finish "a"
    ∷ withdraw "c"
    ∷ []

two_workers_made : new_scheduler 2 ≡ inr two_workers
unfolding new_scheduler
two_workers_made = refl

scheduler-IsGood_example : IsGood (run some_calls two_workers)
scheduler-IsGood_example = scheduler-IsGood 2 two_workers some_calls two_workers_made

scheduler-ReadTogether_example : Pairwise ReadTogether (run some_calls two_workers).active
scheduler-ReadTogether_example = scheduler-ReadTogether 2 two_workers some_calls two_workers_made

abbrev waiting_tasks : Scheduler
waiting_tasks = record {
  capacity = 2;
  active = lease "a" read ∷ [];
  queue = lease "b" write ∷ lease "c" read ∷ [];
}

drain-Drained_example : Drained waiting_tasks (drain waiting_tasks).0 (drain waiting_tasks).1
drain-Drained_example = drain-Drained waiting_tasks

-- A sponsor in capitals under an array, and the keys out of order.
abbrev sponsored : Json
sponsored = obj (
    field (codes "text") (str (codes "hello"))
      (field (codes "list") (arr (cons (obj (field (codes "Sponsor") (num 1) end)) nil)) end))

abbrev unsponsored : Json
unsponsored = obj (field (codes "text") (str (codes "hello")) (field (codes "a") null end))

contains_sponsor_key-remove_sponsor_data_example :
    contains_sponsor_key (remove_sponsor_data sponsored) ≡ false
contains_sponsor_key-remove_sponsor_data_example =
    contains_sponsor_key-remove_sponsor_data sponsored

-- Keys are two bytes, and so are signatures.
abbrev platform : Platform
platform = record {
  Key = ℕ;
  decode64 = λ s. codes s;
  encode64 = λ bytes. "AA";
  create_public_key = λ bytes. some (length bytes);
  is_ed25519 = λ key. key == 2;
  export_spki = λ key. codes "AA";
  sha256 = λ bytes. bytes;
  sha256_text = λ text. take 1 text;
  stringify = λ json. codes "{}";
  date_parse = λ text. length text;
  verify_signature = λ text key bytes. length bytes == key;
}

abbrev client : Client
client = record {
  id = "client";
  public_key = "AA";
  fingerprint = codes "AA";
  scopes = tasks_read ∷ [];
  revoked = false;
}

abbrev request : SignedRequest
request = record {
  request_id = "request";
  client_id = "client";
  method = tasks_list;
  params = unsponsored;
  params_digest = codes "{";
  nonce = "nonce";
  timestamp = codes "now";
  signature = "AA";
}

abbrev no_accounts : Accounts
no_accounts = record { request_times = []; nonces = [] }

request_accepted :
    (verify_signed_request platform 5 (client ∷ []) request no_accounts).1 ≡ inr client
unfolding verify_signed_request check_request check_signature account_request account_nonce
    live_nonces prune_client prune_rate canonical_base64 parse_public_key get_client map_get map_set
    params_digest signing_payload same_text canonicalize method_scope
request_accepted = refl

verify_signed_request-IsAuthentic_example : IsAuthentic platform 5 (client ∷ []) request client
verify_signed_request-IsAuthentic_example =
    verify_signed_request-IsAuthentic platform 5 (client ∷ []) request no_accounts client
      request_accepted

verify_signed_request_once_example :
    (verify_signed_request platform 9 (client ∷ []) request (
      after_arrivals platform []
        (verify_signed_request platform 5 (client ∷ []) request no_accounts).0)).1
    ≢ inr client
verify_signed_request_once_example =
    verify_signed_request_once platform request 5 9 (client ∷ []) (client ∷ []) no_accounts []
      client client request_accepted tt

download-start_export_example :
    download 4
      (λ k. 2)
      (λ k. 100 + min k 1000)
      "export"
      "client"
      0
      (start_export 0 "export" "client" (1 ∷ 2 ∷ 3 ∷ []) []).0
    ≡ some (1 ∷ 2 ∷ 3 ∷ [])
download-start_export_example =
    download-start_export (λ k. 2) (λ k. 100 + min k 1000) 0 "export" "client" (1 ∷ 2 ∷ 3 ∷ []) []
      (omega arith) (λ k. ground arith) (λ k. omega arith)

abbrev open_pairing : Pairing
open_pairing = record {
  public_key = "AA";
  fingerprint = codes "AA";
  scopes = tasks_read ∷ [];
  status = pending;
  expires_at = 300000;
  client_id = none;
}

abbrev one_pairing : Pairings
one_pairing = record {
  pairings = ("pairing", open_pairing) ∷ [];
  pair_times = [];
  status_times = [];
  clients = [];
}

one_pairing-IsValid : IsValid one_pairing
one_pairing-IsValid = record { bounded = omega arith; keys = λ print. omega arith }

abbrev pairing_events : List Event
pairing_events = ask 5 "pairing" ∷ deny 6 "other" ∷ []

handle_all-IsValid_example : IsValid (handle_all platform pairing_events one_pairing)
handle_all-IsValid_example =
    handle_all-IsValid platform pairing_events one_pairing one_pairing-IsValid

pairing_denied :
    (decide none 4 "pairing" one_pairing).1 ≡ inr (record open_pairing { status = denied })
unfolding deny_pairing prune_pairings prune_entries expire map_get map_set
pairing_denied = refl

decide_once_example :
    (decide
      (some "client")
      9
      "pairing"
      (handle_all platform pairing_events (decide none 4 "pairing" one_pairing).0)).1
    ≡ inl pairing_unavailable
decide_once_example =
    decide_once platform none (some "client") 4 9 "pairing" one_pairing
      (record open_pairing { status = denied }) pairing_events (tt, tt) pairing_denied
      (λ m. m, (λ m. m, tt))

abbrev reordered : Json
reordered = obj (field (codes "a") null (field (codes "text") (str (codes "hello")) end))

canonicalize-Reordered_example : canonicalize unsponsored ≡ canonicalize reordered
canonicalize-Reordered_example =
    canonicalize-Reordered unsponsored reordered (fields (swap (λ e. cc)))

no_accounts-IsBounded : IsBounded no_accounts
unfolding map_get
no_accounts-IsBounded = record { nonces = λ c. omega arith; times = λ c. omega arith }

abbrev two_arrivals : List Arrival
two_arrivals =
    record { at = 5; clients = client ∷ []; request = request }
    ∷ record { at = 6; clients = []; request = request }
    ∷ []

after_arrivals-IsBounded_example : IsBounded (after_arrivals platform two_arrivals no_accounts)
after_arrivals-IsBounded_example =
    after_arrivals-IsBounded platform two_arrivals no_accounts no_accounts-IsBounded
