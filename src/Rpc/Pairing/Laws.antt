-- ===== src/Rpc/Pairing/Laws.antt =====
-- Pairing: bounded, one key once, and decided once.
use adrouter_agent.Prelude.{
  leb, ◌==◌, if◌then◌else◌, Bool-cases, Option-cases, Sum-cases, is_some, length, map_get, map_set,
  Text, same_text, same_text_sound, ℕ, ◌+◌, ◌≤◌, ◌<◌, String, ◌≡◌, refl, subst, inl, inr, false,
  some, List, [], ◌∷◌, ◌++◌, arith,
}
use adrouter_agent.Rpc.{
  Scope, Client, get_client_by_fingerprint, Platform, parse_public_key, prune_rate,
}
use adrouter_agent.Rpc.Pairing.{
  approved, denied, is_pending, Pairing, Pairings, max_pending_pairings, expire, prune_entries,
  prune_pairings, count_pending, unique_scopes, new_pairing, register, request_pairing, pair_status,
  create_client, approve_pairing, deny_pairing,
}

-- How many clients hold a key.
abbrev pub count_key : Text → List Client → ℕ
count_key print [] = 0
count_key print (c ∷ cs) = (if same_text c.fingerprint print then 1 else 0) + count_key print cs

pub record IsValid (s : Pairings) : Type 0 where
  pub bounded : count_pending s.pairings ≤ max_pending_pairings
  pub keys : (print : Text) → count_key print s.clients ≤ 1

count_pending-prune_entries :
    (now : ℕ) (m : List (String × Pairing)) → count_pending (prune_entries now m) ≤ count_pending m
unfolding prune_entries expire
count_pending-prune_entries now [] = omega arith
count_pending-prune_entries now ((id, q) ∷ m) = ground (arith, count_pending-prune_entries now m)

count_pending-map_set :
    (id : String) (q : Pairing) (m : List (String × Pairing))
    → count_pending (map_set id q m) ≤ count_pending m + (if is_pending q.status then 1 else 0)
unfolding map_set
count_pending-map_set id q [] = omega arith
count_pending-map_set id q ((k, r) ∷ m) = ground (arith, count_pending-map_set id q m)

count_key-append :
    (print : Text) (xs ys : List Client)
    → count_key print (xs ++ ys) ≡ count_key print xs + count_key print ys
count_key-append print [] ys = omega arith
count_key-append print (x ∷ xs) ys = omega (arith, count_key-append print xs ys)

count_key-get_client :
    (print : Text) (cs : List Client)
    → is_some (get_client_by_fingerprint print cs) ≡ false
    → count_key print cs ≡ 0
unfolding get_client_by_fingerprint
count_key-get_client print [] h = refl
count_key-get_client print (c ∷ cs) h = ground (arith, count_key-get_client print cs)

-- A new row with a key that no row has.
count_key-create_client :
    (id : String) (q : Pairing) (cs : List Client) (print : Text)
    → is_some (get_client_by_fingerprint q.fingerprint cs) ≡ false
    → count_key print cs ≤ 1
    → count_key print (create_client id q cs) ≤ 1
unfolding create_client
count_key-create_client id q cs print new h = elim (Bool-cases (same_text q.fingerprint print)) [
  | inl e ↦
      let same = same_text_sound q.fingerprint print e in
      ground (
        arith,
        count_key-append print cs (
            record {
              id = id;
              public_key = q.public_key;
              fingerprint = q.fingerprint;
              scopes = q.scopes;
              revoked = false;
            }
            ∷ []),
        count_key-get_client print cs
            (subst (λ t. is_some (get_client_by_fingerprint t cs) ≡ false) same new),
      )
  | inr e ↦ ground (
    arith,
    count_key-append print cs (
        record {
          id = id;
          public_key = q.public_key;
          fingerprint = q.fingerprint;
          scopes = q.scopes;
          revoked = false;
        }
        ∷ []),
  )
]

pruned-IsValid : (now : ℕ) (s : Pairings) → IsValid s → IsValid (prune_pairings now s)
unfolding prune_pairings
pruned-IsValid now s v = record {
  bounded = omega (arith, count_pending-prune_entries now s.pairings, v.bounded);
  keys = v.keys;
}

pub approve_pairing-IsValid :
    (now : ℕ) (client_id id : String) (s : Pairings)
    → IsValid s
    → IsValid (approve_pairing now client_id id s).0
unfolding approve_pairing
approve_pairing-IsValid now client_id id s v =
    let t = prune_pairings now s in
    let pruned = pruned-IsValid now s v in
    elim (Option-cases (map_get id t.pairings)) [
      | inl e ↦ rw (e, approve_pairing) pruned
      | inr (q, e) ↦
          rw (e, approve_pairing)
            (elim (Bool-cases (is_pending q.status)) [
              | inr over ↦ rw over pruned
              | inl open_still ↦
                  rw open_still
                    (elim (Bool-cases
                      (is_some (get_client_by_fingerprint q.fingerprint t.clients))) [
                        | inl known ↦ rw known pruned
                        | inr new ↦ rw new (record {
                          bounded = omega (
                            arith,
                            count_pending-map_set id
                                (record q { status = approved; client_id = some client_id })
                                t.pairings,
                            pruned.bounded,
                          );
                          keys = λ print.
                              count_key-create_client client_id q t.clients print new
                                (pruned.keys print);
                        })
                      ])
            ])
    ]

pub deny_pairing-IsValid :
    (now : ℕ) (id : String) (s : Pairings) → IsValid s → IsValid (deny_pairing now id s).0
unfolding deny_pairing
deny_pairing-IsValid now id s v =
    let t = prune_pairings now s in
    let pruned = pruned-IsValid now s v in
    elim (Option-cases (map_get id t.pairings)) [
      | inl e ↦ rw (e, deny_pairing) pruned
      | inr (q, e) ↦
          rw (e, deny_pairing)
            (elim (Bool-cases (is_pending q.status)) [
              | inr over ↦ rw over pruned
              | inl open_still ↦ rw open_still (record {
                bounded = omega (
                  arith,
                  count_pending-map_set id (record q { status = denied }) t.pairings,
                  pruned.bounded,
                );
                keys = pruned.keys;
              })
            ])
    ]

pub pair_status-IsValid :
    (now : ℕ) (id : String) (s : Pairings) → IsValid s → IsValid (pair_status now id s).0
unfolding pair_status
pair_status-IsValid now id s v =
    let times = prune_rate now s.status_times in
    let bounded = count_pending-prune_entries now s.pairings in
    elim (Bool-cases (leb 120 (length times))) [
      | inl full ↦ rw full (record { bounded = omega (arith, bounded, v.bounded); keys = v.keys })
      | inr room ↦ rw room (elim (Option-cases (map_get id (prune_entries now s.pairings))) [
        | inl e ↦
            rw (e, pair_status)
              (record { bounded = omega (arith, bounded, v.bounded); keys = v.keys })
        | inr (q, e) ↦
            rw (e, pair_status)
              (record { bounded = omega (arith, bounded, v.bounded); keys = v.keys })
      ])
    ]

register-IsValid :
    (p : Platform) (now : ℕ) (id public_key : String) (scopes : List Scope) (s : Pairings)
    → count_pending s.pairings < max_pending_pairings
    → IsValid s
    → IsValid (register p now id public_key scopes s).0
unfolding register
register-IsValid p now id public_key scopes s room v =
    elim (Bool-cases (length (unique_scopes scopes) == length scopes)) [
      | inr repeated ↦ rw repeated v
      | inl unique ↦ rw unique (elim (Sum-cases (parse_public_key p public_key)) [
        | inl (e, bad) ↦ rw (bad, register) v
        | inr ((key, print), good) ↦
            rw (good, register)
              (elim (Bool-cases (is_some (get_client_by_fingerprint print s.clients))) [
                | inl known ↦ rw known v
                | inr new ↦ rw new (record {
                  bounded = omega (
                    arith,
                    count_pending-map_set id (new_pairing now public_key print scopes) s.pairings,
                    room,
                  );
                  keys = v.keys;
                })
              ])
      ])
    ]

pub request_pairing-IsValid :
    (p : Platform) (now : ℕ) (id public_key : String) (scopes : List Scope) (s : Pairings)
    → IsValid s
    → IsValid (request_pairing p now id public_key scopes s).0
unfolding request_pairing
request_pairing-IsValid p now id public_key scopes s v =
    let times = prune_rate now s.pair_times in
    let pruned : IsValid (record s { pairings = prune_entries now s.pairings }) = record {
      bounded = omega (arith, count_pending-prune_entries now s.pairings, v.bounded);
      keys = v.keys;
    } in
    elim (Bool-cases (leb 20 (length times))) [
      | inl limited ↦ rw limited (record { bounded = pruned.bounded; keys = v.keys })
      | inr passed ↦
          rw passed
            (elim (Bool-cases
              (leb max_pending_pairings (count_pending (prune_entries now s.pairings)))) [
                | inl full ↦ rw full (record { bounded = pruned.bounded; keys = v.keys })
                | inr room ↦ rw room (
                    register-IsValid p now id public_key scopes
                      (record s {
                        pairings = prune_entries now s.pairings;
                        pair_times = times ++ now ∷ [];
                      })
                      (ground arith) (record { bounded = pruned.bounded; keys = v.keys }))
              ])
    ]
