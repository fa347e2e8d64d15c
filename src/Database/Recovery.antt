-- ===== src/Database/Recovery.antt =====
-- Recovery at start, recoverInterruptedRuns of src/main/database.ts.
pub mod Laws
pub mod Total
use adrouter_agent.Prelude.{
  if◌then◌else◌, filter, Text, codes, same_text, and_then, ℕ, suc, ◌⊎◌, inr, Bool, false, not,
  Option, none, some, List, [], ◌∷◌, map,
}
use adrouter_agent.Manifest.{}
use adrouter_agent.Database.{
  thread_interrupted, turn_interrupted, Thread, Turn, Approval, Database, DbError, get_thread,
}
use adrouter_agent.Database.Journal.{Context, timestamp_of}
use adrouter_agent.Database.Threads.{update_thread_status, is_busy}
use adrouter_agent.Database.Turns.{is_terminal, update_turn_status}
use adrouter_agent.Database.Approvals.{deny_pending_approvals_for_turn}

abbrev pub recovery_error : Text
recovery_error = codes "The desktop runtime was interrupted."

-- Every call has its own time and ids.
unfoldable pub interrupt_turns :
    (ℕ → Context) → List Turn → Database → DbError ⊎ (List Turn × Database)
interrupt_turns c [] db = inr ([], db)
interrupt_turns c (turn ∷ turns) db =
    and_then (update_turn_status (c 0) turn.id turn_interrupted (some recovery_error) db) (λ r.
      and_then (interrupt_turns (λ n. c (suc n)) turns r.1) (λ rest. inr (r.0 ∷ rest.0, rest.1)))

unfoldable pub deny_for_turns : (ℕ → Context) → List Turn → List Approval → List Approval
deny_for_turns c [] rows = rows
deny_for_turns c (turn ∷ turns) rows =
    deny_for_turns (λ n. c (suc n)) turns
      (deny_pending_approvals_for_turn (timestamp_of (c 0)) turn.id rows)

-- `new Set(…)`: each once, in the order of the first.
unfoldable pub distinct : List Text → List Text
distinct [] = []
distinct (x ∷ xs) = x ∷ filter (λ y. not (same_text x y)) (distinct xs)

abbrev pub is_busy_thread : Option Thread → Bool
is_busy_thread none = false
is_busy_thread (some t) = is_busy t.status

unfoldable pub interrupt_threads : (ℕ → Context) → List Text → Database → DbError ⊎ Database
interrupt_threads c [] db = inr db
interrupt_threads c (id ∷ ids) db =
    and_then
      (if is_busy_thread (get_thread id db)
        then and_then (update_thread_status (c 0) id thread_interrupted db) (λ r. inr r.1)
        else inr db)
      (λ after. interrupt_threads (λ n. c (suc n)) ids after)

-- The three loops have their times and ids in three sequences.
unfoldable pub recover_interrupted_runs :
    (ℕ → Context) → (ℕ → Context) → (ℕ → Context) → Database → DbError ⊎ (List Turn × Database)
recover_interrupted_runs for_turns for_approvals for_threads db =
    let rows = filter (λ t. not (is_terminal t.status)) db.turns in
    and_then (interrupt_turns for_turns rows db) (λ r.
      let denied = record r.1 { approvals = deny_for_turns for_approvals r.0 r.1.approvals } in
      and_then (interrupt_threads for_threads (distinct (map (λ t. t.thread_id) r.0)) denied)
        (λ after. inr (r.0, after)))
