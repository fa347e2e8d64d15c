-- ===== src/Scheduler/Methods.antt =====
-- Each method of the scheduler: the invariant is kept, and what the caller is told is true.
use adrouter_agent.Prelude.{
  ltb, str_eq, Bool-cases, Option-cases, length, length-append, All-append, All-append_left,
  All-append_right, Pairwise, ℕ, suc, ◌≤◌, ◌<◌, String, ◌≡◌, refl, sym, ap, subst, inl, inr, false,
  ◌||◌, some, List, [], ◌∷◌, ◌++◌, arith, eq_iff,
}
use adrouter_agent.Scheduler.{
  RuntimeLease, Scheduler, Callback, Placement, new_scheduler, has_id, has, max_queued_runtimes,
  max_runtime_workers, enqueue, remove_id, cancel, release, start_failed, drain,
}
use adrouter_agent.Scheduler.Drain.{drain-Drained, IsSettled}
use adrouter_agent.Scheduler.Invariant.{
  IsValid, Compatible, count_id, count_id-append, drain-IsValid,
}

count_id-has_id : (id : String) (ts : List RuntimeLease) → has_id id ts ≡ false → count_id id ts ≡ 0
count_id-has_id id [] h = refl
count_id-has_id id (t ∷ ts) h = ground (arith, count_id-has_id id ts)

-- `remove_id` takes one task off a list, whatever is asked of the others.
record Removed (xs ys : List RuntimeLease) : Type 0 where
  before : List RuntimeLease
  task : RuntimeLease
  after : List RuntimeLease
  whole : xs ≡ before ++ task ∷ after
  rest : ys ≡ before ++ after

Removed-cons :
    {xs ys : List RuntimeLease} (t : RuntimeLease) → Removed xs ys → Removed (t ∷ xs) (t ∷ ys)
Removed-cons t r = record {
  before = t ∷ r.before;
  task = r.task;
  after = r.after;
  whole = ap (λ l. t ∷ l) r.whole;
  rest = ap (λ l. t ∷ l) r.rest;
}

remove_id-Removed :
    (id : String) (xs ys : List RuntimeLease) → remove_id id xs ≡ some ys → Removed xs ys
unfolding remove_id
remove_id-Removed id [] ys h = cc
remove_id-Removed id (t ∷ xs) ys h = elim (Bool-cases (str_eq t.id id)) [
  | inl found ↦ record { before = []; task = t; after = xs; whole = refl; rest = ground arith }
  | inr other ↦ elim (Option-cases (remove_id id xs)) [
    | inl missing ↦ absurd (ground arith)
    | inr (zs, e) ↦
        let same : t ∷ zs ≡ ys = ground arith in
        subst (λ l. Removed (t ∷ xs) l) same (Removed-cons t (remove_id-Removed id xs zs e))
  ]
]

Pairwise-remove :
    (before after : List RuntimeLease) (t : RuntimeLease)
    → Pairwise Compatible (before ++ t ∷ after)
    → Pairwise Compatible (before ++ after)
Pairwise-remove [] after t p = p.1
Pairwise-remove (b ∷ before) after t (here, p) = (
  All-append (Compatible b) before after (All-append_left (Compatible b) before (t ∷ after) here)
      (All-append_right (Compatible b) before (t ∷ after) here).1,
  Pairwise-remove before after t p,
)

module _ {xs ys : List RuntimeLease} (r : Removed xs ys) where
  Removed-length : length xs ≡ suc (length ys)
  Removed-length =
      rw (r.whole, r.rest)
        (omega (arith, length-append r.before (r.task ∷ r.after), length-append r.before r.after))

  Removed-count : (id : String) → count_id id ys ≤ count_id id xs
  Removed-count id =
      rw (r.whole, r.rest)
        (omega (
          arith,
          count_id-append id r.before (r.task ∷ r.after),
          count_id-append id r.before r.after,
        ))

  Removed-Pairwise : Pairwise Compatible xs → Pairwise Compatible ys
  Removed-Pairwise p =
      rw r.rest (Pairwise-remove r.before r.after r.task (subst (Pairwise Compatible) r.whole p))

-- The state between the removal and the drain.
unqueued-IsValid :
    (s : Scheduler) (left : List RuntimeLease)
    → Removed s.queue left
    → IsValid s
    → IsValid (record s { queue = left })
unqueued-IsValid s left r v = record {
  workers = v.workers;
  within = v.within;
  bounded = omega (arith, Removed-length r, v.bounded);
  compatible = v.compatible;
  distinct = λ id. omega (arith, Removed-count r id, v.distinct id);
}

stopped-IsValid :
    (s : Scheduler) (left : List RuntimeLease)
    → Removed s.active left
    → IsValid s
    → IsValid (record s { active = left })
stopped-IsValid s left r v = record {
  workers = v.workers;
  within = omega (arith, Removed-length r, v.within);
  bounded = v.bounded;
  compatible = Removed-Pairwise r v.compatible;
  distinct = λ id. omega (arith, Removed-count r id, v.distinct id);
}

queued-IsValid :
    (s : Scheduler) (task : RuntimeLease)
    → has_id task.id s.active ≡ false
    → has_id task.id s.queue ≡ false
    → length s.queue < max_queued_runtimes
    → IsValid s
    → IsValid (record s { queue = s.queue ++ task ∷ [] })
queued-IsValid s task idle unqueued room v = record {
  workers = v.workers;
  within = v.within;
  bounded = omega (arith, length-append s.queue (task ∷ []), room);
  compatible = v.compatible;
  distinct = λ id. ground (
    arith,
    eq_iff task.id id,
    count_id-append id s.queue (task ∷ []),
    v.distinct id,
    count_id-has_id task.id s.active idle,
    count_id-has_id task.id s.queue unqueued,
  );
}

-- What a method may return: a valid state in which no queued task can start.
abbrev pub IsGood : Scheduler → Type 0
IsGood s = IsValid s × IsSettled s

drained-IsGood : (s : Scheduler) → IsValid s → IsGood (drain s).0
drained-IsGood s v = (drain-IsValid s v, (drain-Drained s).settled)

pub new_scheduler-IsGood :
    (capacity : ℕ) (s : Scheduler)
    → new_scheduler capacity ≡ inr s
    → IsGood s × (s.capacity ≡ capacity)
unfolding new_scheduler
new_scheduler-IsGood capacity s h =
    elim (Bool-cases (ltb capacity 1 || ltb max_runtime_workers capacity)) [
      | inl bad ↦ absurd (ground arith)
      | inr fine ↦
          let same : record { capacity = capacity; active = []; queue = [] } ≡ s = ground arith in
          subst (λ (t : Scheduler). IsGood t × (t.capacity ≡ capacity)) same
            (
              (
                record {
                  workers = (ground arith, ground arith);
                  within = omega arith;
                  bounded = omega arith;
                  compatible = tt;
                  distinct = λ id. omega arith;
                },
                tt,
              ),
              refl,
            )
    ]

-- An accepted task was unknown, and the queue had room.
enqueue_accepts :
    (task : RuntimeLease) (s t : Scheduler) (calls : List Callback) (p : Placement)
    → enqueue task s ≡ inr (t, calls, p)
    → (has_id task.id s.active ≡ false)
      × (has_id task.id s.queue ≡ false)
      × (length s.queue < max_queued_runtimes)
      × (t ≡ (drain (record s { queue = s.queue ++ task ∷ [] })).0)
unfolding enqueue has
enqueue_accepts task s t calls p h = (ground arith, ground arith, ground arith, ground arith)

pub enqueue-IsGood :
    (task : RuntimeLease) (s t : Scheduler) (calls : List Callback) (p : Placement)
    → IsValid s
    → enqueue task s ≡ inr (t, calls, p)
    → IsGood t
enqueue-IsGood task s t calls p v h =
    let (idle, unqueued, room, result) = enqueue_accepts task s t calls p h in
    subst IsGood (sym result) (
      drained-IsGood (record s { queue = s.queue ++ task ∷ [] })
        (queued-IsValid s task idle unqueued room v))

pub cancel-IsGood : (id : String) (s : Scheduler) → IsGood s → IsGood (cancel id s).0
unfolding cancel
cancel-IsGood id s v = elim (Option-cases (remove_id id s.queue)) [
  | inl missing ↦ rw (missing, cancel) v
  | inr (left, found) ↦
      rw (found, cancel)
        (drained-IsGood (record s { queue = left })
          (unqueued-IsValid s left (remove_id-Removed id s.queue left found) v.0))
]

pub release-IsGood : (id : String) (s : Scheduler) → IsGood s → IsGood (release id s).0
unfolding release
release-IsGood id s v = elim (Option-cases (remove_id id s.active)) [
  | inl missing ↦ rw (missing, release) v
  | inr (left, found) ↦
      rw (found, release)
        (drained-IsGood (record s { active = left })
          (stopped-IsValid s left (remove_id-Removed id s.active left found) v.0))
]

pub start_failed-IsGood : (id : String) (s : Scheduler) → IsGood s → IsGood (start_failed id s).0
unfolding start_failed
start_failed-IsGood id s v = elim (Option-cases (remove_id id s.active)) [
  | inl missing ↦ rw (missing, start_failed) v
  | inr (left, found) ↦
      rw (found, start_failed)
        (drained-IsGood (record s { active = left })
          (stopped-IsValid s left (remove_id-Removed id s.active left found) v.0))
]
