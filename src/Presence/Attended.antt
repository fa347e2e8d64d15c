-- ===== src/Presence/Attended.antt =====
-- How long a task runs without somebody answering, src/runtime/presence.ts.
use adrouter_agent.Prelude.{
  ◌==◌, if◌then◌else◌, Bool-cases, Option-cases, is_some, ℕ, ◌+◌, ◌-◌, ◌≤◌, ◌<◌, String, ◌≡◌, refl,
  ◌↔◌, ◌⊎◌, inl, inr, Bool, true, false, Option, none, some, List, [], ◌∷◌, arith, eq_iff, eq_refl,
}
use adrouter_agent.Presence.{
  PresencePrompt, PresenceGate, presence_ms, new_gate, arm, check, stop, start, is_acknowledged,
  acknowledge, pause, resume, passed, boundary, boundary_woken,
}

-- The calls of the gate's methods: a boundary and a waiter that is woken with their number and task.
pub data Call : Type 0 where
  started : String → Call
  checked paused resumed stopped : Call
  acknowledged : String → String → Call
  entered awake : ℕ → Option String → Call

-- The clock, the time that the task has run unpaused since it began or was last acknowledged, and
-- the gate.
pub record Watch : Type 0 where
  pub now : ℕ
  pub idle : ℕ
  pub gate : PresenceGate

unfoldable pub call : ℕ → String → Call → PresenceGate → PresenceGate
call now fresh (started task) g = (start now task g).0
call now fresh checked g = (check now fresh g).0
call now fresh paused g = (pause now fresh g).0
call now fresh resumed g = resume now g
call now fresh stopped g = (stop g).0
call now fresh (acknowledged task id) g = (acknowledge now fresh task id g).1
call now fresh (entered n task) g = (boundary now fresh n task g).1
call now fresh (awake n task) g = (boundary_woken now fresh n task g).1

-- The calls that begin the time anew.
unfoldable pub attends : ℕ → String → Call → PresenceGate → Bool
attends now fresh (started task) g = true
attends now fresh (acknowledged task id) g = (acknowledge now fresh task id g).0
attends now fresh checked g = false
attends now fresh paused g = false
attends now fresh resumed g = false
attends now fresh stopped g = false
attends now fresh (entered n task) g = false
attends now fresh (awake n task) g = false

-- Time passes.
unfoldable pub elapse : ℕ → Watch → Watch
elapse time w = record w {
  now = w.now + time;
  idle = if w.gate.paused == 0 then w.idle + time else w.idle;
}

unfoldable pub act : String → Call → Watch → Watch
act fresh c w = record w {
  idle = if attends w.now fresh c w.gate then 0 else w.idle;
  gate = call w.now fresh c w.gate;
}

-- Each call with the time before it and the id that it may make.
unfoldable pub run : List (ℕ × String × Call) → Watch → Watch
run [] w = w
run ((time, fresh, c) ∷ cs) w = run cs (act fresh c (elapse time w))

abbrev pub new_watch : Watch
new_watch = record { now = 0; idle = 0; gate = new_gate }

abbrev IsTimed : ℕ → ℕ → PresenceGate → Type 0
IsTimed now idle g =
    (is_some g.task_id ≡ false)
    ⊎ (is_some g.pending ≡ true)
    ⊎ ((g.paused ≡ 0) × (idle + g.deadline ≡ presence_ms + now))
    ⊎ ((1 ≤ g.paused) × (idle + g.remaining ≡ presence_ms) × (idle < presence_ms))

check-IsTimed :
    (now idle : ℕ) (fresh : String) (g : PresenceGate)
    → IsTimed now idle g
    → IsTimed now idle (check now fresh g).0
unfolding check
check-IsTimed now idle fresh g t = elim (Option-cases g.task_id) [
  | inl e ↦ ground arith
  | inr (task, e) ↦ ground arith
]

arm-IsTimed :
    (now idle : ℕ) (g : PresenceGate)
    → (is_some g.pending ≡ false → 1 ≤ g.paused → idle < presence_ms)
    → idle + g.remaining ≡ presence_ms
    → IsTimed now idle (arm now g)
unfolding arm
arm-IsTimed now idle g below rest = ground arith

stop-IsTimed : (now idle : ℕ) (g : PresenceGate) → IsTimed now idle (stop g).0
unfolding stop
stop-IsTimed now idle g = inl refl

start-IsTimed : (now : ℕ) (task : String) (g : PresenceGate) → IsTimed now 0 (start now task g).0
unfolding start stop arm
start-IsTimed now task g = inr (inr (inl (refl, omega arith)))

pause-IsTimed :
    (now idle : ℕ) (fresh : String) (g : PresenceGate)
    → IsTimed now idle g
    → IsTimed now idle (pause now fresh g).0
unfolding pause check
pause-IsTimed now idle fresh g t = elim (Option-cases g.task_id) [
  | inl e ↦ ground arith
  | inr (task, e) ↦ ground arith
]

resume-IsTimed :
    (now idle : ℕ) (g : PresenceGate) → IsTimed now idle g → IsTimed now idle (resume now g)
unfolding resume arm
resume-IsTimed now idle g t = ground arith

acknowledge-IsTimed :
    (now idle : ℕ) (fresh task id : String) (g : PresenceGate)
    → IsTimed now idle g
    → IsTimed now
        (if (acknowledge now fresh task id g).0 then 0 else idle)
        (acknowledge now fresh task id g).1
unfolding acknowledge arm
acknowledge-IsTimed now idle fresh task id g t =
    let checked = check-IsTimed now idle fresh g t in
    let h = (check now fresh g).0 in
    elim (Bool-cases (is_acknowledged now task id h)) [
      | inl fits ↦ rw fits (
          arm-IsTimed now 0 (record h { pending = none; remaining = presence_ms })
            (λ a b. omega arith) refl)
      | inr other ↦ rw other checked
    ]

boundary-IsTimed :
    (now idle : ℕ) (fresh : String) (n : ℕ) (task : Option String) (g : PresenceGate)
    → IsTimed now idle g
    → IsTimed now idle (boundary now fresh n task g).1
unfolding boundary
boundary-IsTimed now idle fresh n task g t = ground (arith, check-IsTimed now idle fresh g t)

boundary_woken-IsTimed :
    (now idle : ℕ) (fresh : String) (n : ℕ) (task : Option String) (g : PresenceGate)
    → IsTimed now idle g
    → IsTimed now idle (boundary_woken now fresh n task g).1
unfolding boundary_woken
boundary_woken-IsTimed now idle fresh n task g t =
    ground (arith, boundary-IsTimed now idle fresh n task g t)

act-IsTimed :
    (fresh : String) (c : Call) (w : Watch)
    → IsTimed w.now w.idle w.gate
    → IsTimed (act fresh c w).now (act fresh c w).idle (act fresh c w).gate
unfolding act call attends
act-IsTimed fresh (started task) w t = start-IsTimed w.now task w.gate
act-IsTimed fresh checked w t = check-IsTimed w.now w.idle fresh w.gate t
act-IsTimed fresh paused w t = pause-IsTimed w.now w.idle fresh w.gate t
act-IsTimed fresh resumed w t = resume-IsTimed w.now w.idle w.gate t
act-IsTimed fresh stopped w t = stop-IsTimed w.now w.idle w.gate
act-IsTimed fresh (acknowledged task id) w t =
    acknowledge-IsTimed w.now w.idle fresh task id w.gate t
act-IsTimed fresh (entered n task) w t = boundary-IsTimed w.now w.idle fresh n task w.gate t
act-IsTimed fresh (awake n task) w t = boundary_woken-IsTimed w.now w.idle fresh n task w.gate t

elapse-IsTimed :
    (time : ℕ) (w : Watch)
    → IsTimed w.now w.idle w.gate
    → IsTimed (elapse time w).now (elapse time w).idle (elapse time w).gate
unfolding elapse
elapse-IsTimed time w t = ground arith

run-IsTimed :
    (cs : List (ℕ × String × Call)) (w : Watch)
    → IsTimed w.now w.idle w.gate
    → IsTimed (run cs w).now (run cs w).idle (run cs w).gate
unfolding run
run-IsTimed [] w t = t
run-IsTimed ((time, fresh, c) ∷ cs) w t =
    run-IsTimed cs _ (act-IsTimed fresh c _ (elapse-IsTimed time w t))

check_open :
    (now idle : ℕ) (fresh : String) (g : PresenceGate)
    → IsTimed now idle g
    → is_some (check now fresh g).0.pending ≡ false
    → is_some g.task_id ≡ true
    → idle < presence_ms
unfolding check
check_open now idle fresh g t h k = elim (Option-cases g.task_id) [
  | inl e ↦ ground arith
  | inr (task, e) ↦ ground arith
]

-- Whatever calls came before and however much time lay between them, a boundary that a running
-- task passes is passed less than a minute of unpaused time after the task began or its presence
-- was last acknowledged.
pub boundary_attended :
    (cs : List (ℕ × String × Call)) (fresh : String) (n : ℕ) (task : Option String)
    → is_some (run cs new_watch).gate.task_id ≡ true
    → (boundary (run cs new_watch).now fresh n task (run cs new_watch).gate).0 ≡ passed
    → (run cs new_watch).idle < presence_ms
unfolding boundary
boundary_attended cs fresh n task running h =
    let w = run cs new_watch in
    check_open w.now w.idle fresh w.gate (run-IsTimed cs new_watch (inl refl)) (ground arith)
      running

abbrev pub prompt_of : String → String → PresencePrompt
prompt_of task id = record { task_id = task; prompt_id = id }

is_acknowledged_iff :
    (now : ℕ) (task id : String) (g : PresenceGate)
    → (is_acknowledged now task id g ≡ true)
      ↔ ((g.pending ≡ some (prompt_of task id)) × (250 ≤ now - g.issued_at))
unfolding is_acknowledged
is_acknowledged_iff now task id g = elim (Option-cases g.pending) [
  | inl e ↦ rw e (λ h. cc, λ h. cc)
  | inr (prompt, e) ↦ (
    λ h. ground (arith, eq_iff prompt.task_id task, eq_iff prompt.prompt_id id),
    λ h. ground (arith, h.0, eq_refl task, eq_refl id),
  )
]

-- An acknowledgement succeeds exactly when, after the clock is looked at, the prompt with these two
-- ids is pending and at least a quarter of a second old.
pub acknowledge_iff :
    (now : ℕ) (fresh task id : String) (g : PresenceGate)
    → ((acknowledge now fresh task id g).0 ≡ true) ↔ (
        ((check now fresh g).0.pending ≡ some (prompt_of task id))
        × (250 ≤ now - (check now fresh g).0.issued_at))
unfolding acknowledge
acknowledge_iff now fresh task id g =
    let same = is_acknowledged_iff now task id (check now fresh g).0 in ground (arith, same)
