-- ===== src/Scheduler/Drain.antt =====
-- What one drain of the queue does, as steps that each start one task.
use adrouter_agent.Prelude.{
  leb, Bool-cases, Option-cases, length, All, All-of_any, ℕ, zero, suc, ◌<◌, ◌≡◌, refl, ap, subst,
  ◌∙◌, inl, inr, true, false, none, some, List, [], ◌∷◌, ◌++◌, map, arith,
}
use mathlib.Core.List.{append-nil, append_assoc}
use adrouter_agent.Scheduler.{
  RuntimeLease, Scheduler, Callback, started, leases_conflict, can_start, pick, drain_loop, drain,
}

-- One start: the task is free of conflicts with the running ones and with all that wait before it.
pub record Starts (s : Scheduler) (task : RuntimeLease) (t : Scheduler) : Type 0 where
  pub before : List RuntimeLease
  pub after : List RuntimeLease
  pub queued : s.queue ≡ before ++ task ∷ after
  pub room : length s.active < s.capacity
  pub free : All (λ a. leases_conflict a task ≡ false) s.active
  pub first : All (λ b. leases_conflict b task ≡ false) before
  pub next :
      t ≡ record { capacity = s.capacity; active = s.active ++ task ∷ []; queue = before ++ after }

pub data Runs : Scheduler → List RuntimeLease → Scheduler → Type 0 where
  done : {s : Scheduler} → Runs s [] s
  more :
      {s t u : Scheduler} {task : RuntimeLease} {tasks : List RuntimeLease}
      → Starts s task t
      → Runs t tasks u
      → Runs s (task ∷ tasks) u

-- None of `rest` can start, each behind those before it.
abbrev pub Blocked : ℕ → List RuntimeLease → List RuntimeLease → List RuntimeLease → Type 0
Blocked capacity active earlier [] = Unit
Blocked capacity active earlier (task ∷ later) =
    (can_start capacity active earlier task ≡ false)
    × Blocked capacity active (earlier ++ task ∷ []) later

-- No queued task can start.
abbrev pub IsSettled : Scheduler → Type 0
IsSettled s = Blocked s.capacity s.active [] s.queue

can_start-true :
    (capacity : ℕ) (active earlier : List RuntimeLease) (task : RuntimeLease)
    → can_start capacity active earlier task ≡ true
    → (length active < capacity)
      × All (λ a. leases_conflict a task ≡ false) active
      × All (λ b. leases_conflict b task ≡ false) earlier
unfolding can_start
can_start-true capacity active earlier task h =
    (ground arith, All-of_any _ active (ground arith), All-of_any _ earlier (ground arith))

-- What a pass found: where the task stands, and the queue without it.
record Picked (capacity : ℕ) (active earlier rest : List RuntimeLease) (task : RuntimeLease)
    (left : List RuntimeLease) : Type 0 where
  before : List RuntimeLease
  after : List RuntimeLease
  split : rest ≡ before ++ task ∷ after
  kept : left ≡ earlier ++ before ++ after
  able : can_start capacity active (earlier ++ before) task ≡ true

Picked-cons :
    {capacity : ℕ} {active earlier rest : List RuntimeLease} {t task : RuntimeLease}
    {left : List RuntimeLease}
    → Picked capacity active (earlier ++ t ∷ []) rest task left
    → Picked capacity active earlier (t ∷ rest) task left
Picked-cons {capacity} {active} {earlier} {t} {task} p = record {
  before = t ∷ p.before;
  after = p.after;
  split = ap (λ l. t ∷ l) p.split;
  kept = p.kept ∙ ap (λ l. l ++ p.after) (append_assoc earlier (t ∷ []) p.before);
  able =
      subst (λ l. can_start capacity active l task ≡ true) (append_assoc earlier (t ∷ []) p.before)
        p.able;
}

pick_sound :
    (capacity : ℕ) (active earlier rest : List RuntimeLease) (task : RuntimeLease)
    (left : List RuntimeLease)
    → pick capacity active earlier rest ≡ some (task, left)
    → Picked capacity active earlier rest task left
unfolding pick
pick_sound capacity active earlier [] task left h = cc
pick_sound capacity active earlier (t ∷ rest) task left h =
    elim (Bool-cases (can_start capacity active earlier t)) [
      | inl able ↦ record {
        before = [];
        after = rest;
        split = ground arith;
        kept = rw append-nil (ground arith);
        able = rw append-nil (ground arith);
      }
      | inr unable ↦
          Picked-cons
            (pick_sound capacity active (earlier ++ t ∷ []) rest task left (rw unable at h))
    ]

pick_complete :
    (capacity : ℕ) (active earlier rest : List RuntimeLease)
    → pick capacity active earlier rest ≡ none
    → Blocked capacity active earlier rest
unfolding pick
pick_complete capacity active earlier [] h = tt
pick_complete capacity active earlier (t ∷ rest) h =
    let unable : can_start capacity active earlier t ≡ false = ground arith in
    (unable, pick_complete capacity active (earlier ++ t ∷ []) rest (rw unable at h))

pick-Starts :
    (s : Scheduler) (task : RuntimeLease) (left : List RuntimeLease)
    → pick s.capacity s.active [] s.queue ≡ some (task, left)
    → Starts s task (record s { active = s.active ++ task ∷ []; queue = left })
pick-Starts s task left h =
    let p = pick_sound s.capacity s.active [] s.queue task left h in
    let (room, free, first) = can_start-true s.capacity s.active p.before task p.able in
    record {
      before = p.before;
      after = p.after;
      queued = p.split;
      room = room;
      free = free;
      first = first;
      next = ap (λ l. record s { active = s.active ++ task ∷ []; queue = l }) p.kept;
    }

-- What a drain is to do: some starts in a row, announced in order, after which none is possible.
pub record Drained (s t : Scheduler) (calls : List Callback) : Type 0 where
  pub tasks : List RuntimeLease
  pub runs : Runs s tasks t
  pub announced : calls ≡ map (λ task. started task.id) tasks
  pub settled : IsSettled t

can_start_full :
    (capacity : ℕ) (active earlier rest : List RuntimeLease)
    → leb capacity (length active) ≡ true
    → Blocked capacity active earlier rest
unfolding can_start
can_start_full capacity active earlier [] h = tt
can_start_full capacity active earlier (t ∷ rest) h =
    (ground arith, can_start_full capacity active (earlier ++ t ∷ []) rest h)

length-split :
    (before after : List RuntimeLease) (task : RuntimeLease)
    → length (before ++ task ∷ after) ≡ suc (length (before ++ after))
length-split [] after task = refl
length-split (b ∷ before) after task = ap suc (length-split before after task)

Starts-length :
    {s t : Scheduler} {task : RuntimeLease}
    → Starts s task t
    → length s.queue ≡ suc (length t.queue)
Starts-length {task} p = rw (p.queued, p.next) (length-split p.before p.after task)

Drained-more :
    {s t u : Scheduler} {task : RuntimeLease} {calls : List Callback}
    → Starts s task t
    → Drained t u calls
    → Drained s u (started task.id ∷ calls)
Drained-more {task} p d = record {
  tasks = task ∷ d.tasks;
  runs = more p d.runs;
  announced = ap (λ l. started task.id ∷ l) d.announced;
  settled = d.settled;
}

drain_loop-Drained :
    (fuel : ℕ) (s : Scheduler)
    → length s.queue < fuel
    → Drained s (drain_loop fuel s).0 (drain_loop fuel s).1
unfolding drain_loop
drain_loop-Drained zero s h = absurd (omega arith)
drain_loop-Drained (suc fuel) s h = elim (Bool-cases (leb s.capacity (length s.active))) [
  | inl full ↦ rw full (record {
    tasks = [];
    runs = done;
    announced = refl;
    settled = can_start_full s.capacity s.active [] s.queue full;
  })
  | inr room ↦ elim (Option-cases (pick s.capacity s.active [] s.queue)) [
    | inl stuck ↦
        rw (room, stuck, drain_loop)
          (record {
            tasks = [];
            runs = done;
            announced = refl;
            settled = pick_complete s.capacity s.active [] s.queue stuck;
          })
    | inr ((task, left), found) ↦
        let start = pick-Starts s task left found in
        rw (room, found, drain_loop)
          (Drained-more start (
            drain_loop-Drained fuel (record s { active = s.active ++ task ∷ []; queue = left })
              (omega (arith, Starts-length start))))
  ]
]

-- A drain starts tasks one by one, each free of conflicts with the running ones and with all that
-- wait before it, announces them in that order, and ends where no queued task can start.
pub drain-Drained : (s : Scheduler) → Drained s (drain s).0 (drain s).1
unfolding drain
drain-Drained s = drain_loop-Drained (suc (length s.queue)) s (omega arith)
