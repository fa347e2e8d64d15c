-- ===== src/Scheduler/Trace.antt =====
-- The scheduler over every sequence of calls, from the constructor on.
use adrouter_agent.Prelude.{
  All, Pairwise, ℕ, String, ◌≡◌, refl, ◌⊎◌, inl, inr, false, List, [], ◌∷◌, arith,
}
use adrouter_agent.Scheduler.{
  RuntimeLease, read, Scheduler, new_scheduler, shares_resource, leases_conflict, enqueue, cancel,
  release, start_failed,
}
use adrouter_agent.Scheduler.Invariant.{Compatible}
use adrouter_agent.Scheduler.Methods.{
  IsGood, new_scheduler-IsGood, enqueue-IsGood, cancel-IsGood, release-IsGood, start_failed-IsGood,
}

pub data Call : Type 0 where
  submit : RuntimeLease → Call
  withdraw finish reject : String → Call

-- A refused call throws and leaves the scheduler as it was.
pub apply : Call → Scheduler → Scheduler
apply (submit task) s = elim (enqueue task s) [ inl e ↦ s | inr (t, calls, p) ↦ t ]
apply (withdraw id) s = (cancel id s).0
apply (finish id) s = (release id s).0
apply (reject id) s = (start_failed id s).0

pub run : List Call → Scheduler → Scheduler
run [] s = s
run (c ∷ cs) s = run cs (apply c s)

apply-IsGood : (c : Call) (s : Scheduler) → IsGood s → IsGood (apply c s)
unfolding apply
apply-IsGood (submit task) s g =
    elim (enqueue task s)
        as (λ r. (enqueue task s ≡ r) → IsGood (elim r [ inl e ↦ s | inr (t, calls, p) ↦ t ])) [
          | inl e ↦ λ h. g
          | inr (t, calls, p) ↦ λ h. enqueue-IsGood task s t calls p g.0 h
        ]
      refl
apply-IsGood (withdraw id) s g = cancel-IsGood id s g
apply-IsGood (finish id) s g = release-IsGood id s g
apply-IsGood (reject id) s g = start_failed-IsGood id s g

run-IsGood : (cs : List Call) (s : Scheduler) → IsGood s → IsGood (run cs s)
unfolding run
run-IsGood [] s g = g
run-IsGood (c ∷ cs) s g = run-IsGood cs (apply c s) (apply-IsGood c s g)

-- Whatever is called on a new scheduler, and in whatever order, no more tasks run than it has
-- workers, at most 32 wait, no task is scheduled twice, no two running leases conflict, and no
-- waiting task could start.
pub scheduler-IsGood :
    (capacity : ℕ) (s : Scheduler) (cs : List Call)
    → new_scheduler capacity ≡ inr s
    → IsGood (run cs s)
scheduler-IsGood capacity s cs h = run-IsGood cs s (new_scheduler-IsGood capacity s h).0

-- Running tasks that share a workspace or a Git directory all only read.
abbrev pub ReadTogether : RuntimeLease → RuntimeLease → Type 0
ReadTogether a b = (shares_resource a b ≡ false) ⊎ ((a.mode ≡ read) × (b.mode ≡ read))

ReadTogether-of_Compatible : (a b : RuntimeLease) → Compatible a b → ReadTogether a b
unfolding leases_conflict
ReadTogether-of_Compatible a b h = ground arith

All-ReadTogether :
    (a : RuntimeLease) (ts : List RuntimeLease) → All (Compatible a) ts → All (ReadTogether a) ts
All-ReadTogether a [] h = tt
All-ReadTogether a (t ∷ ts) (here, h) =
    (ReadTogether-of_Compatible a t here, All-ReadTogether a ts h)

Pairwise-ReadTogether : (ts : List RuntimeLease) → Pairwise Compatible ts → Pairwise ReadTogether ts
Pairwise-ReadTogether [] p = tt
Pairwise-ReadTogether (t ∷ ts) (here, p) = (All-ReadTogether t ts here, Pairwise-ReadTogether ts p)

-- Whatever is called on a new scheduler, two running tasks that share a workspace or a Git common
-- directory both hold read leases: a writer is alone.
pub scheduler-ReadTogether :
    (capacity : ℕ) (s : Scheduler) (cs : List Call)
    → new_scheduler capacity ≡ inr s
    → Pairwise ReadTogether (run cs s).active
scheduler-ReadTogether capacity s cs h =
    Pairwise-ReadTogether _ (scheduler-IsGood capacity s cs h).0.compatible
