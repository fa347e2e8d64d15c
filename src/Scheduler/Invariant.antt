-- ===== src/Scheduler/Invariant.antt =====
-- What holds of the scheduler between two calls, and that every method keeps it.
use adrouter_agent.Prelude.{
  str_eq, if◌then◌else◌, length, length-append, All, All-append, Pairwise, ℕ, suc, ◌+◌, ◌≤◌, String,
  ◌≡◌, ap, false, List, [], ◌∷◌, ◌++◌, arith,
}
use adrouter_agent.Scheduler.{
  RuntimeLease, Scheduler, max_queued_runtimes, max_runtime_workers, leases_conflict, drain,
}
use adrouter_agent.Scheduler.Drain.{Starts, Runs, done, more, drain-Drained}

-- How often an id stands in a list.
abbrev pub count_id : String → List RuntimeLease → ℕ
count_id id [] = 0
count_id id (t ∷ ts) = (if str_eq t.id id then 1 else 0) + count_id id ts

abbrev pub Compatible : RuntimeLease → RuntimeLease → Type 0
Compatible a b = leases_conflict a b ≡ false

pub record IsValid (s : Scheduler) : Type 0 where
  pub workers : (1 ≤ s.capacity) × (s.capacity ≤ max_runtime_workers)
  pub within : length s.active ≤ s.capacity
  pub bounded : length s.queue ≤ max_queued_runtimes
  pub compatible : Pairwise Compatible s.active
  pub distinct : (id : String) → count_id id s.active + count_id id s.queue ≤ 1

pub count_id-append :
    (id : String) (xs ys : List RuntimeLease)
    → count_id id (xs ++ ys) ≡ count_id id xs + count_id id ys
count_id-append id [] ys = omega arith
count_id-append id (x ∷ xs) ys = omega (arith, count_id-append id xs ys)

Pairwise-snoc :
    (xs : List RuntimeLease) (t : RuntimeLease)
    → Pairwise Compatible xs
    → All (λ a. Compatible a t) xs
    → Pairwise Compatible (xs ++ t ∷ [])
Pairwise-snoc [] t p h = (tt, tt)
Pairwise-snoc (x ∷ xs) t (here, p) (free, h) =
    (All-append (Compatible x) xs (t ∷ []) here (free, tt), Pairwise-snoc xs t p h)

Starts-distinct :
    {s t : Scheduler} {task : RuntimeLease}
    → Starts s task t
    → (id : String)
    → count_id id t.active + count_id id t.queue ≡ count_id id s.active + count_id id s.queue
Starts-distinct {s} {task} p id =
    rw (p.next, p.queued)
      (omega (
        arith,
        count_id-append id s.active (task ∷ []),
        count_id-append id p.before (task ∷ p.after),
        count_id-append id p.before p.after,
      ))

Starts-lengths :
    {s t : Scheduler} {task : RuntimeLease}
    → Starts s task t
    → (length t.active ≡ suc (length s.active)) × (length s.queue ≡ suc (length t.queue))
Starts-lengths {s} {task} p =
    rw (p.next, p.queued)
      (omega (
        arith,
        length-append s.active (task ∷ []),
        length-append p.before (task ∷ p.after),
        length-append p.before p.after,
      ))

Starts-capacity :
    {s t : Scheduler} {task : RuntimeLease} → Starts s task t → t.capacity ≡ s.capacity
Starts-capacity p = ap (λ (u : Scheduler). u.capacity) p.next

Starts-active :
    {s t : Scheduler} {task : RuntimeLease} → Starts s task t → t.active ≡ s.active ++ task ∷ []
Starts-active p = ap (λ (u : Scheduler). u.active) p.next

Starts-IsValid : {s t : Scheduler} {task : RuntimeLease} → Starts s task t → IsValid s → IsValid t
Starts-IsValid {s} {task} p v = record {
  workers = rw (Starts-capacity p) v.workers;
  within = omega (arith, Starts-lengths p, Starts-capacity p, p.room);
  bounded = omega (arith, Starts-lengths p, v.bounded);
  compatible = rw (Starts-active p) (Pairwise-snoc s.active task v.compatible p.free);
  distinct = λ id. omega (arith, Starts-distinct p id, v.distinct id);
}

Runs-IsValid :
    {s t : Scheduler} {tasks : List RuntimeLease} → Runs s tasks t → IsValid s → IsValid t
Runs-IsValid done v = v
Runs-IsValid (more p r) v = Runs-IsValid r (Starts-IsValid p v)

pub drain-IsValid : (s : Scheduler) → IsValid s → IsValid (drain s).0
drain-IsValid s v = Runs-IsValid (drain-Drained s).runs v
