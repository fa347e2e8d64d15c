-- ===== src/Scheduler.antt =====
-- The runtime scheduler, src/main/runtime-scheduler.ts. A method returns the new state with the
-- callbacks that it makes, in order; a callback does not call back into the scheduler at once, as
-- those that runtime-supervisor.ts passes do not. The task started by a drain runs later:
-- `start_failed` is the handler of its rejection.
pub mod Drain
pub mod Invariant
pub mod Methods
pub mod Trace
use adrouter_agent.Prelude.{
  ltb, leb, str_eq, if◌then◌else◌, length, any, ℕ, zero, suc, String, ◌⊎◌, inl, inr, Bool, true,
  false, not, ◌&&◌, ◌||◌, Option, none, some, List, [], ◌∷◌, ◌++◌,
}

pub data Mode : Type 0 where
  read write : Mode

pub data PermissionMode : Type 0 where
  read_only workspace_write : PermissionMode

abbrev pub is_write : Mode → Bool
is_write read = false
is_write write = true

abbrev pub max_runtime_workers : ℕ
max_runtime_workers = 4

abbrev pub max_queued_runtimes : ℕ
max_queued_runtimes = 32

-- `configuredRuntimeWorkers`: `raw` is the variable as text, none when unset or empty, with whether
-- it parses to an integer.
unfoldable pub configured_runtime_workers : Option Bool → ℕ
configured_runtime_workers none = 1
configured_runtime_workers (some false) = 1
configured_runtime_workers (some true) = 1

pub record RuntimeLease : Type 0 where
  pub id : String
  pub workspace : String
  pub git_common_directory : Option String
  pub mode : Mode

-- `resolveRuntimeLease` over its two answers from outside: the real path, and the common directory
-- of the Git snapshot (none when that throws).
unfoldable pub resolve_runtime_lease :
    String → String → Option String → PermissionMode → RuntimeLease
resolve_runtime_lease id workspace git permission = record {
  id = id;
  workspace = workspace;
  git_common_directory = git;
  mode = elim permission [ workspace_write ↦ write | read_only ↦ read ];
}

abbrev same_directory : Option String → Option String → Bool
same_directory none other = false
same_directory (some a) none = false
same_directory (some a) (some b) = str_eq a b

unfoldable pub shares_resource : RuntimeLease → RuntimeLease → Bool
shares_resource left right =
    str_eq left.workspace right.workspace
    || same_directory left.git_common_directory right.git_common_directory

unfoldable pub leases_conflict : RuntimeLease → RuntimeLease → Bool
leases_conflict left right =
    shares_resource left right && (is_write left.mode || is_write right.mode)

pub record Scheduler : Type 0 where
  pub capacity : ℕ
  pub active : List RuntimeLease
  pub queue : List RuntimeLease

pub data Callback : Type 0 where
  started cancelled failed : String → Callback

pub data ScheduleError : Type 0 where
  already_scheduled queue_full bad_capacity : ScheduleError

-- The constructor.
unfoldable pub new_scheduler : ℕ → ScheduleError ⊎ Scheduler
new_scheduler capacity =
    if ltb capacity 1 || ltb max_runtime_workers capacity
    then inl bad_capacity
    else inr (record { capacity = capacity; active = []; queue = [] })

abbrev pub has_id : String → List RuntimeLease → Bool
has_id id tasks = any (λ t. str_eq t.id id) tasks

unfoldable pub has : String → Scheduler → Bool
has id s = has_id id s.active || has_id id s.queue

-- `canStart`; `earlier` is the part of the queue before the task.
unfoldable pub can_start : ℕ → List RuntimeLease → List RuntimeLease → RuntimeLease → Bool
can_start capacity active earlier task =
    if leb capacity (length active)
    then false
    else if any (λ candidate. leases_conflict candidate task) active
    then false
    else not (any (λ before. leases_conflict before task) earlier)

-- One pass of the `for` loop of `drain`: the first task that can start, with the queue that is left.
unfoldable pub pick :
    ℕ
    → List RuntimeLease
    → List RuntimeLease
    → List RuntimeLease
    → Option (RuntimeLease × List RuntimeLease)
pick capacity active earlier [] = none
pick capacity active earlier (task ∷ later) =
    if can_start capacity active earlier task
    then some (task, earlier ++ later)
    else pick capacity active (earlier ++ task ∷ []) later

-- The `while` loop of `drain`. A pass takes a task off the queue or is the last one, so that fuel
-- above the queue's length is enough.
unfoldable pub drain_loop : ℕ → Scheduler → Scheduler × List Callback
drain_loop zero s = (s, [])
drain_loop (suc fuel) s =
    if leb s.capacity (length s.active)
    then (s, [])
    else elim (pick s.capacity s.active [] s.queue) [
      | none ↦ (s, [])
      | some (task, left) ↦
          let (t, calls) =
            drain_loop fuel (record s { active = s.active ++ task ∷ []; queue = left }) in
          (t, started task.id ∷ calls)
    ]

unfoldable pub drain : Scheduler → Scheduler × List Callback
unfolding drain_loop
drain s = drain_loop (suc (length s.queue)) s

pub data Placement : Type 0 where
  now later : Placement

unfoldable pub enqueue :
    RuntimeLease → Scheduler → ScheduleError ⊎ (Scheduler × List Callback × Placement)
unfolding has drain
enqueue task s =
    if has task.id s
    then inl already_scheduled
    else if leb max_queued_runtimes (length s.queue)
    then inl queue_full
    else let (t, calls) = drain (record s { queue = s.queue ++ task ∷ [] }) in
      inr (t, calls, if has_id task.id t.active then now else later)

-- `splice` at the first task with the id; none when there is no such task.
unfoldable pub remove_id : String → List RuntimeLease → Option (List RuntimeLease)
remove_id id [] = none
remove_id id (t ∷ ts) =
    if str_eq t.id id
    then some ts
    else elim (remove_id id ts) [ none ↦ none | some rest ↦ some (t ∷ rest) ]

unfoldable pub cancel : String → Scheduler → Scheduler × List Callback × Bool
unfolding remove_id drain
cancel id s = elim (remove_id id s.queue) [
  | none ↦ (s, [], false)
  | some left ↦
      let (t, calls) = drain (record s { queue = left }) in (t, cancelled id ∷ calls, true)
]

unfoldable pub release : String → Scheduler → Scheduler × List Callback × Bool
unfolding remove_id drain
release id s = elim (remove_id id s.active) [
  | none ↦ (s, [], false)
  | some left ↦ let (t, calls) = drain (record s { active = left }) in (t, calls, true)
]

-- The `catch` of a started task's promise.
unfoldable pub start_failed : String → Scheduler → Scheduler × List Callback
unfolding remove_id drain
start_failed id s = elim (remove_id id s.active) [
  | none ↦ (s, [])
  | some left ↦ let (t, calls) = drain (record s { active = left }) in (t, failed id ∷ calls)
]
