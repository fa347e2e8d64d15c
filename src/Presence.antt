-- ===== src/Presence.antt =====
-- The presence gate, src/runtime/presence.ts. A method reads the clock once and takes the id that
-- it may make; it returns the new gate with the calls of `changed` and the waiters that it wakes,
-- in order. The timer calls `check`.
pub mod Attended
use adrouter_agent.Prelude.{
  ltb, ◌==◌, str_eq, if◌then◌else◌, is_some, ℕ, ◌+◌, ◌-◌, String, Bool, true, false, not, ◌&&◌,
  ◌||◌, Option, none, some, List, [], ◌∷◌, ◌++◌,
}

pub record PresencePrompt : Type 0 where
  pub task_id : String
  pub prompt_id : String

-- `waiters` are the boundaries that wait, each with the task that it began in.
pub record PresenceGate : Type 0 where
  pub task_id : Option String
  pub pending : Option PresencePrompt
  pub deadline : ℕ
  pub remaining : ℕ
  pub paused : ℕ
  pub issued_at : ℕ
  pub timer : Option ℕ
  pub waiters : List (ℕ × Option String)
  pub interactive : Bool

pub data Effect : Type 0 where
  changed : Option PresencePrompt → Effect
  woken : ℕ → Effect

abbrev pub presence_ms : ℕ
presence_ms = 60000

abbrev pub new_gate : PresenceGate
new_gate = record {
  task_id = none;
  pending = none;
  deadline = 0;
  remaining = presence_ms;
  paused = 0;
  issued_at = 0;
  timer = none;
  waiters = [];
  interactive = true;
}

unfoldable pub arm : ℕ → PresenceGate → PresenceGate
arm now g =
    if not (is_some g.task_id) || is_some g.pending || not (g.paused == 0)
    then g
    else record g { deadline = now + g.remaining; timer = some g.remaining }

-- The early return of `check` behind the test of the task.
abbrev pub is_settled : ℕ → PresenceGate → Bool
is_settled now g = is_some g.pending || not (g.paused == 0) || ltb now g.deadline

unfoldable pub check : ℕ → String → PresenceGate → PresenceGate × List Effect
check now id g = elim g.task_id [
  | none ↦ (g, [])
  | some task ↦
      if is_settled now g
      then (g, [])
      else let prompt : PresencePrompt = record { task_id = task; prompt_id = id } in
        (
          record g { pending = some prompt; issued_at = now; timer = none },
          changed (some prompt) ∷ [],
        )
]

abbrev pub wakes : List (ℕ × Option String) → List Effect
wakes [] = []
wakes ((n, task) ∷ waiters) = woken n ∷ wakes waiters

-- A waiter that is woken leaves the set.
abbrev pub wake : PresenceGate → PresenceGate × List Effect
wake g = (record g { waiters = [] }, wakes g.waiters)

unfoldable pub stop : PresenceGate → PresenceGate × List Effect
stop g =
    let (h, effects) =
      wake (record g { task_id = none; pending = none; paused = 0; timer = none }) in
    (h, (if is_some g.pending then changed none ∷ [] else []) ++ effects)

unfoldable pub start : ℕ → String → PresenceGate → PresenceGate × List Effect
start now task g =
    let (h, effects) = stop g in
    (arm now (record h { task_id = some task; remaining = presence_ms }), effects)

-- The guard of `acknowledge`. A clock that went back counts as too early, as in the source.
unfoldable pub is_acknowledged : ℕ → String → String → PresenceGate → Bool
is_acknowledged now task id g = elim g.pending [
  | none ↦ false
  | some prompt ↦
      str_eq prompt.task_id task && str_eq prompt.prompt_id id && not (ltb (now - g.issued_at) 250)
]

unfoldable pub acknowledge :
    ℕ → String → String → String → PresenceGate → Bool × PresenceGate × List Effect
acknowledge now fresh task id g =
    let (h, effects) = check now fresh g in
    if not (is_acknowledged now task id h)
    then (false, h, effects)
    else let (k, wakings) = wake (arm now (record h { pending = none; remaining = presence_ms })) in
      (true, k, effects ++ changed none ∷ wakings)

unfoldable pub pause : ℕ → String → PresenceGate → PresenceGate × List Effect
pause now fresh g =
    let (h, effects) = check now fresh g in
    if h.paused == 0
    then (record h { paused = 1; remaining = h.deadline - now; timer = none }, effects)
    else (record h { paused = h.paused + 1 }, effects)

unfoldable pub resume : ℕ → PresenceGate → PresenceGate
resume now g =
    if g.paused == 0
    then g
    else let h : PresenceGate = record g { paused = g.paused - 1 } in
      if h.paused == 0 then arm now h else h

-- What a boundary does: it is passed, it throws `PresenceRequiredError`, or it waits.
pub data Boundary : Type 0 where
  passed refused waiting : Boundary

-- One round of the loop of `boundary`: waiter `n`, which began in `task`.
unfoldable pub boundary :
    ℕ → String → ℕ → Option String → PresenceGate → Boundary × PresenceGate × List Effect
boundary now fresh n task g =
    let (h, effects) = check now fresh g in
    if not (is_some h.pending)
    then (passed, h, effects)
    else if not h.interactive
    then (refused, h, effects)
    else (waiting, record h { waiters = h.waiters ++ (n, task) ∷ [] }, effects)

abbrev pub same_task : Option String → Option String → Bool
same_task none none = true
same_task none (some b) = false
same_task (some a) none = false
same_task (some a) (some b) = str_eq a b

-- What a waiter does when it is woken.
unfoldable pub boundary_woken :
    ℕ → String → ℕ → Option String → PresenceGate → Boundary × PresenceGate × List Effect
boundary_woken now fresh n task g =
    if not (same_task task g.task_id) then (refused, g, []) else boundary now fresh n task g
