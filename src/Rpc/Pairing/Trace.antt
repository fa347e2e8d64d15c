-- ===== src/Rpc/Pairing/Trace.antt =====
-- Pairing over every sequence of requests and decisions.
use adrouter_agent.Prelude.{
  str_eq, Bool-cases, Option-cases, Sum-cases, All, map_get, map_set, ℕ, String, ◌≡◌, refl, subst,
  ◌≢◌, ◌⊎◌, inl, inr, false, Option, none, some, List, [], ◌∷◌, arith, eq_iff,
}
use adrouter_agent.Rpc.{Scope, RpcError, pairing_unavailable, Platform, parse_public_key}
use adrouter_agent.Rpc.Pairing.{
  approved, denied, is_pending, Pairing, Pairings, expire, new_pairing, prune_entries,
  prune_pairings, register, request_pairing, pair_status, approve_pairing, deny_pairing,
}
use adrouter_agent.Rpc.Pairing.Laws.{
  IsValid, approve_pairing-IsValid, deny_pairing-IsValid, pair_status-IsValid,
  request_pairing-IsValid,
}

-- What happens to the server, with the time and the ids that it makes.
pub data Event : Type 0 where
  request : ℕ → String → String → List Scope → Event
  ask : ℕ → String → Event
  approve : ℕ → String → String → Event
  deny : ℕ → String → Event

unfoldable pub handle : Platform → Event → Pairings → Pairings
handle p (request now id public_key scopes) s = (request_pairing p now id public_key scopes s).0
handle p (ask now id) s = (pair_status now id s).0
handle p (approve now client_id id) s = (approve_pairing now client_id id s).0
handle p (deny now id) s = (deny_pairing now id s).0

unfoldable pub handle_all : Platform → List Event → Pairings → Pairings
handle_all p [] s = s
handle_all p (e ∷ es) s = handle_all p es (handle p e s)

handle-IsValid : (p : Platform) (e : Event) (s : Pairings) → IsValid s → IsValid (handle p e s)
unfolding handle
handle-IsValid p (request now id public_key scopes) s v =
    request_pairing-IsValid p now id public_key scopes s v
handle-IsValid p (ask now id) s v = pair_status-IsValid now id s v
handle-IsValid p (approve now client_id id) s v = approve_pairing-IsValid now client_id id s v
handle-IsValid p (deny now id) s v = deny_pairing-IsValid now id s v

-- However pairings are requested, asked for, approved and denied, at most eight are pending at a
-- time and no key belongs to two clients.
pub handle_all-IsValid :
    (p : Platform) (es : List Event) (s : Pairings) → IsValid s → IsValid (handle_all p es s)
unfolding handle_all
handle_all-IsValid p [] s v = v
handle_all-IsValid p (e ∷ es) s v = handle_all-IsValid p es (handle p e s) (handle-IsValid p e s v)

-- The pairing with this id, if there is one, is no longer pending.
abbrev IsOver : String → String × Pairing → Type 0
IsOver id e = (e.0 ≢ id) ⊎ (is_pending e.1.status ≡ false)

prune_entries-IsOver :
    (id : String) (now : ℕ) (m : List (String × Pairing))
    → All (IsOver id) m
    → All (IsOver id) (prune_entries now m)
unfolding prune_entries expire
prune_entries-IsOver id now [] h = tt
prune_entries-IsOver id now ((k, q) ∷ m) h = ground (arith, prune_entries-IsOver id now m h.1)

map_set-IsOver :
    (id k : String) (q : Pairing) (m : List (String × Pairing))
    → All (IsOver id) m
    → IsOver id (k, q)
    → All (IsOver id) (map_set k q m)
unfolding map_set
map_set-IsOver id k q [] h new = (new, tt)
map_set-IsOver id k q ((j, r) ∷ m) h new =
    ground (arith, eq_iff j k, map_set-IsOver id k q m h.1 new)

map_get-IsOver :
    (id : String) (m : List (String × Pairing)) (q : Pairing)
    → All (IsOver id) m
    → map_get id m ≡ some q
    → is_pending q.status ≡ false
unfolding map_get
map_get-IsOver id [] q h e = cc
map_get-IsOver id ((k, r) ∷ m) q h e = ground (arith, eq_iff k id, map_get-IsOver id m q h.1)

-- A `Map` has each key once.
abbrev pub HasUniqueKeys : List (String × Pairing) → Type 0
HasUniqueKeys [] = Unit
HasUniqueKeys ((k, q) ∷ m) = All (λ (e : String × Pairing). e.0 ≢ k) m × HasUniqueKeys m

IsOver-of_absent :
    (id : String) (m : List (String × Pairing))
    → All (λ (e : String × Pairing). e.0 ≢ id) m
    → All (IsOver id) m
IsOver-of_absent id [] h = tt
IsOver-of_absent id (e ∷ m) (here, h) = (inl here, IsOver-of_absent id m h)

map_set-IsOver_unique :
    (id : String) (q : Pairing) (m : List (String × Pairing))
    → HasUniqueKeys m
    → is_pending q.status ≡ false
    → All (IsOver id) (map_set id q m)
unfolding map_set
map_set-IsOver_unique id q [] u over = (inr over, tt)
map_set-IsOver_unique id q ((k, r) ∷ m) (absent, u) over = elim (Bool-cases (str_eq k id)) [
  | inl same ↦ rw same (
    inr over,
    IsOver-of_absent id m
        (subst (λ j. All (λ (e : String × Pairing). e.0 ≢ j) m) ((eq_iff k id).0 same) absent),
  )
  | inr other ↦
      rw other (inl (λ e. ground (arith, eq_iff k id)), map_set-IsOver_unique id q m u over)
]

prune_entries-absent :
    (id : String) (now : ℕ) (m : List (String × Pairing))
    → All (λ (e : String × Pairing). e.0 ≢ id) m
    → All (λ (e : String × Pairing). e.0 ≢ id) (prune_entries now m)
unfolding prune_entries
prune_entries-absent id now [] h = tt
prune_entries-absent id now ((k, q) ∷ m) h = ground (arith, prune_entries-absent id now m h.1)

prune_entries-HasUniqueKeys :
    (now : ℕ) (m : List (String × Pairing)) → HasUniqueKeys m → HasUniqueKeys (prune_entries now m)
unfolding prune_entries
prune_entries-HasUniqueKeys now [] u = tt
prune_entries-HasUniqueKeys now ((k, q) ∷ m) u =
    ground (arith, prune_entries-absent k now m u.0, prune_entries-HasUniqueKeys now m u.1)

-- The user's decision: approve with a new client id, or deny.
abbrev pub decide : Option String → ℕ → String → Pairings → Pairings × (RpcError ⊎ Pairing)
decide (some client_id) now id s = approve_pairing now client_id id s
decide none now id s = deny_pairing now id s

-- A successful decision leaves the pairing over.
decide-IsOver :
    (choice : Option String) (now : ℕ) (id : String) (s : Pairings) (q : Pairing)
    → HasUniqueKeys s.pairings
    → (decide choice now id s).1 ≡ inr q
    → All (IsOver id) (decide choice now id s).0.pairings
unfolding approve_pairing deny_pairing prune_pairings
decide-IsOver (some client_id) now id s q u h =
    elim (Option-cases (map_get id (prune_entries now s.pairings))) [
      | inl e ↦ absurd (ground arith)
      | inr (r, e) ↦ ground (
        arith,
        map_set-IsOver_unique id (record r { status = approved; client_id = some client_id })
            (prune_entries now s.pairings) (prune_entries-HasUniqueKeys now s.pairings u) refl,
      )
    ]
decide-IsOver none now id s q u h =
    elim (Option-cases (map_get id (prune_entries now s.pairings))) [
      | inl e ↦ absurd (ground arith)
      | inr (r, e) ↦ ground (
        arith,
        map_set-IsOver_unique id (record r { status = denied }) (prune_entries now s.pairings)
            (prune_entries-HasUniqueKeys now s.pairings u) refl,
      )
    ]

-- A decision on a pairing that is over fails.
decide_refused :
    (choice : Option String) (now : ℕ) (id : String) (s : Pairings)
    → All (IsOver id) s.pairings
    → (decide choice now id s).1 ≡ inl pairing_unavailable
unfolding approve_pairing deny_pairing prune_pairings
decide_refused (some client_id) now id s h =
    elim (Option-cases (map_get id (prune_entries now s.pairings))) [
      | inl e ↦ rw (e, approve_pairing) refl
      | inr (q, e) ↦
          rw (e, approve_pairing)
            (rw
              (map_get-IsOver id (prune_entries now s.pairings) q
                (prune_entries-IsOver id now s.pairings h) e)
              refl)
    ]
decide_refused none now id s h = elim (Option-cases (map_get id (prune_entries now s.pairings))) [
  | inl e ↦ rw (e, deny_pairing) refl
  | inr (q, e) ↦
      rw (e, deny_pairing)
        (rw
          (map_get-IsOver id (prune_entries now s.pairings) q
            (prune_entries-IsOver id now s.pairings h) e)
          refl)
]

-- The id that a pairing request makes is another one.
abbrev pub Makes : String → Event → Type 0
Makes id (request now k public_key scopes) = k ≡ id
Makes id (ask now k) = ⊥
Makes id (approve now client_id k) = ⊥
Makes id (deny now k) = ⊥

handle-IsOver :
    (p : Platform) (id : String) (e : Event) (s : Pairings)
    → ¬ Makes id e
    → All (IsOver id) s.pairings
    → All (IsOver id) (handle p e s).pairings
unfolding handle
handle-IsOver p id (request now k public_key scopes) s fresh h =
    let kept = prune_entries-IsOver id now s.pairings h in
    unfold request_pairing register in
    elim (Sum-cases (parse_public_key p public_key)) [
      | inl (e, bad) ↦ ground (arith, kept)
      | inr ((key, print), good) ↦ ground (
        arith,
        kept,
        map_set-IsOver id k (new_pairing now public_key print scopes) (prune_entries now s.pairings)
            kept (inl fresh),
      )
    ]
handle-IsOver p id (ask now k) s fresh h =
    let kept = prune_entries-IsOver id now s.pairings h in
    unfold pair_status in
    elim (Option-cases (map_get k (prune_entries now s.pairings))) [
      | inl e ↦ ground (arith, kept)
      | inr (q, e) ↦ ground (arith, kept)
    ]
handle-IsOver p id (approve now client_id k) s fresh h =
    let kept = prune_entries-IsOver id now s.pairings h in
    unfold approve_pairing prune_pairings in
    elim (Option-cases (map_get k (prune_entries now s.pairings))) [
      | inl e ↦ ground (arith, kept)
      | inr (q, e) ↦ ground (
        arith,
        kept,
        map_set-IsOver id k (record q { status = approved; client_id = some client_id })
            (prune_entries now s.pairings) kept (inr refl),
      )
    ]
handle-IsOver p id (deny now k) s fresh h =
    let kept = prune_entries-IsOver id now s.pairings h in
    unfold deny_pairing prune_pairings in
    elim (Option-cases (map_get k (prune_entries now s.pairings))) [
      | inl e ↦ ground (arith, kept)
      | inr (q, e) ↦ ground (
        arith,
        kept,
        map_set-IsOver id k (record q { status = denied }) (prune_entries now s.pairings) kept
            (inr refl),
      )
    ]

handle_all-IsOver :
    (p : Platform) (id : String) (es : List Event) (s : Pairings)
    → All (λ e. ¬ Makes id e) es
    → All (IsOver id) s.pairings
    → All (IsOver id) (handle_all p es s).pairings
unfolding handle_all
handle_all-IsOver p id [] s fresh h = h
handle_all-IsOver p id (e ∷ es) s (here, fresh) h =
    handle_all-IsOver p id es (handle p e s) fresh (handle-IsOver p id e s here h)

-- A pairing is decided once: after an approval or a denial that succeeded, and whatever else
-- happens under other ids, every later approval or denial of it fails.
pub decide_once :
    (p : Platform) (choice choice' : Option String) (now later : ℕ) (id : String) (s : Pairings)
    (q : Pairing) (es : List Event)
    → HasUniqueKeys s.pairings
    → (decide choice now id s).1 ≡ inr q
    → All (λ e. ¬ Makes id e) es
    → (decide choice' later id (handle_all p es (decide choice now id s).0)).1
      ≡ inl pairing_unavailable
decide_once p choice choice' now later id s q es u first fresh =
    decide_refused choice' later id (handle_all p es (decide choice now id s).0) (
      handle_all-IsOver p id es (decide choice now id s).0 fresh
        (decide-IsOver choice now id s q u first))
