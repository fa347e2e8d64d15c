-- ===== src/Checks/Journal.antt =====
-- The journal, the session and the recovery at concrete inputs.
use adrouter_agent.Prelude.{
  Bool-cases, Text, codes, same_text, lower_unit, to_lower_case, text_in, ℕ, ◌+◌, ◌≡◌, refl, sym,
  inl, inr, true, none, some, List, [], ◌∷◌,
}
use adrouter_agent.Json.{
  Json, str, arr, obj, nil, end, field, is_sponsor_key, remove_sponsor_data, contains_sponsor_key,
}
use adrouter_agent.TaskPolicy.{
  full_task_capability_policy, snapshot_is_valid, finalize_snapshot,
  project_default_policy_snapshot,
}
use adrouter_agent.Manifest.{}
use adrouter_agent.Manifest.Schema.{}
use adrouter_agent.Manifest.Operations.{}
use adrouter_agent.Manifest.Binding.{}
use adrouter_agent.Manifest.Delegation.{}
use adrouter_agent.Manifest.Delegation.Laws.{}
use adrouter_agent.Database.{
  turn_running, turn_interrupted, thread_status_text, turn_status_text, Thread, kind_agent, Turn,
  turn_lifecycle, message_complete, JournalEvent, entry_assistant, SessionEntry, Database, find_row,
  update_rows, max_of, get_project, get_thread, get_turn,
}
use adrouter_agent.Database.Payloads.{lookup, safe_record}
use adrouter_agent.Database.Sessions.{usage_json, project_assistant, session_projection}
use adrouter_agent.Database.Sessions.Projected.{IsCleanSession, append_event-IsCleanSession}
use adrouter_agent.Database.Journal.{
  entry_digest, project_entry, project_session_event, list_events, Context, next_event,
  insert_event_row, append_event,
}
use adrouter_agent.Database.Journal.Sequence.{Numbered}
use adrouter_agent.Database.Threads.{
  thread_is_valid, starting_policy, make_thread, references_exist, and_append, create_thread,
  is_busy,
}
use adrouter_agent.Database.Turns.{
  make_turn, create_turn, is_started, is_terminal, turn_payload, with_status, update_turn_status,
}
use adrouter_agent.Database.Approvals.{deny_pending_approvals_for_turn}
use adrouter_agent.Database.Approvals.Trace.{}
use adrouter_agent.Database.Approvals.Once.{}
use adrouter_agent.Database.Approvals.Granted.{}
use adrouter_agent.Database.Recovery.{
  recovery_error, interrupt_turns, deny_for_turns, distinct, interrupt_threads,
  recover_interrupted_runs,
}
use adrouter_agent.Database.Recovery.Laws.{}
use adrouter_agent.Projection.{status_of, rebuild_thread_projection}
use adrouter_agent.Projection.Maps.{is_shown}
use adrouter_agent.Projection.Trace.{
  thread_created, turn_created, turn_updated, Steps, no_steps, then_step, list_events-Numbered,
  rebuild_thread_projection-Replays,
}
use adrouter_agent.Tasks.{}
use adrouter_agent.Tasks.Delegated.{}
use adrouter_agent.Checks.Samples.{
  toy, at_time, project, digest, task_input, empty_db, task, task_event, task_db, turn, turn_event,
  turn_db, running_event, running, running_db,
}
use adrouter_agent.Database.Recovery.Total.{IsOwned, recover_interrupted_runs_finishes}
use adrouter_agent.Database.Rows.{some_inj}

task_created :
    create_thread digest (at_time 10) (codes "t") task_input empty_db ≡ inr (task, task_db)
unfolding create_thread get_project find_row starting_policy project_default_policy_snapshot
    full_task_capability_policy finalize_snapshot snapshot_is_valid make_thread thread_is_valid
    references_exist and_append append_event next_event insert_event_row get_thread update_rows
    max_of project_session_event session_projection contains_sponsor_key is_sponsor_key
    to_lower_case text_in same_text lower_unit safe_record thread_status_text
task_created = refl

turn_made :
    create_turn (at_time 20) (codes "u") (codes "t") (codes "Go") none none kind_agent task_db
    ≡ inr (turn, turn_db)
unfolding create_turn make_turn get_turn find_row and_append append_event next_event
    insert_event_row get_thread update_rows max_of project_session_event session_projection
    contains_sponsor_key is_sponsor_key to_lower_case text_in same_text lower_unit safe_record
    turn_status_text
turn_made = refl

turn_runs :
    update_turn_status (at_time 30) (codes "u") turn_running none turn_db
    ≡ inr (running, running_db)
unfolding update_turn_status with_status is_started is_terminal get_turn find_row and_append
    append_event next_event insert_event_row get_thread update_rows max_of project_session_event
    session_projection contains_sponsor_key is_sponsor_key to_lower_case text_in same_text
    lower_unit safe_record turn_status_text
turn_runs = refl

abbrev steps : Steps empty_db running_db
unfolding get_thread get_turn find_row
steps =
    then_step empty_db turn_db running_db
      (then_step empty_db task_db turn_db
        (then_step empty_db empty_db task_db (no_steps empty_db) (
          thread_created digest (at_time 10) (codes "t") task_input task empty_db task_db refl
            task_created))
        (turn_created (at_time 20) (codes "u") (codes "t") (codes "Go") none none kind_agent turn
          task_db turn_db refl refl turn_made))
      (turn_updated (at_time 30) (codes "u") turn_running none running turn_db running_db turn_runs)

list_events-Numbered_example : Numbered 1 (list_events (codes "t") running_db)
list_events-Numbered_example = list_events-Numbered (project ∷ []) running_db steps (codes "t")

rebuild_thread_projection-Replays_example :
    ((j : Text) (t : Thread)
      → get_thread j running_db ≡ some t
      → is_shown t.status ≡ true
      → (rebuild_thread_projection (list_events j running_db)).status ≡ t.status)
    × ((j : Text) (u : Turn)
        → get_turn j running_db ≡ some u
        → status_of j (rebuild_thread_projection (list_events u.thread_id running_db)).turns
          ≡ some u.status)
rebuild_thread_projection-Replays_example =
    rebuild_thread_projection-Replays (project ∷ []) running_db steps

abbrev answer_payload : Json
answer_payload = obj (field (codes "text") (str (codes "Done")) end)

abbrev answer_event : JournalEvent
answer_event = record {
  id = 40 ∷ [];
  thread_id = codes "t";
  turn_id = some (codes "u");
  sequence = 4;
  event_type = message_complete;
  timestamp = 40 ∷ [];
  payload = answer_payload;
}

abbrev answer_entry : SessionEntry
answer_entry = record {
  id = 0 ∷ 40 ∷ [];
  thread_id = codes "t";
  turn_id = some (codes "u");
  source_event_id = 40 ∷ [];
  ordinal = 1;
  kind = entry_assistant;
  timestamp = 40 ∷ [];
  payload = obj (
      field (codes "role") (str (codes "assistant")) (
        field (codes "text") (str (codes "Done")) (
          field (codes "content") (arr nil) (
            field (codes "model") (str (codes "unknown"))
              (field (codes "usage") (usage_json (λ k. true) end) end)))));
  digest = toy.sha256 [];
}

abbrev answered_db : Database
answered_db = record running_db {
  threads = (record task { updated_at = 40 ∷ [] }) ∷ [];
  events = task_event ∷ turn_event ∷ running_event ∷ answer_event ∷ [];
  entries = answer_entry ∷ [];
}

answer_appended :
    append_event
      (at_time 40)
      (codes "t")
      (some (codes "u"))
      message_complete
      answer_payload
      running_db
    ≡ inr (answer_event, answered_db)
unfolding append_event next_event insert_event_row get_thread get_turn find_row update_rows max_of
    project_session_event project_entry entry_digest session_projection project_assistant lookup
    remove_sponsor_data contains_sponsor_key is_sponsor_key to_lower_case text_in same_text
    lower_unit safe_record
answer_appended = refl

append_event-IsCleanSession_example : IsCleanSession answered_db.entries
append_event-IsCleanSession_example =
    append_event-IsCleanSession (at_time 40) (codes "t") (some (codes "u")) message_complete
      answer_payload answer_event running_db answered_db tt answer_appended

-- The start finds the turn running and interrupts it.
abbrev recovered : ℕ → ℕ → Context
recovered n k = at_time (n + k)

abbrev interrupted_turn : Turn
interrupted_turn = record running {
  status = turn_interrupted;
  error = some recovery_error;
  finished_at = some (50 ∷ []);
}

abbrev interrupted_db : Database
interrupted_db = record running_db {
  threads = (record task { updated_at = 50 ∷ [] }) ∷ [];
  turns = interrupted_turn ∷ [];
  events =
      task_event
      ∷ turn_event
      ∷ running_event
      ∷ (record {
        id = 50 ∷ [];
        thread_id = codes "t";
        turn_id = some (codes "u");
        sequence = 4;
        event_type = turn_lifecycle;
        timestamp = 50 ∷ [];
        payload = turn_payload turn_interrupted (some recovery_error);
      })
      ∷ [];
}

interrupted_runs :
    recover_interrupted_runs (recovered 50) (recovered 60) (recovered 70) running_db
    ≡ inr (interrupted_turn ∷ [], interrupted_db)
unfolding recover_interrupted_runs interrupt_turns deny_for_turns deny_pending_approvals_for_turn
    distinct interrupt_threads is_busy update_turn_status with_status is_started is_terminal
    get_turn find_row and_append append_event next_event insert_event_row get_thread update_rows
    max_of project_session_event session_projection contains_sponsor_key is_sponsor_key
    to_lower_case text_in same_text lower_unit safe_record turn_status_text
interrupted_runs = refl

running_db-IsOwned : IsOwned running_db
unfolding get_turn get_thread find_row same_text
running_db-IsOwned j u h = elim (Bool-cases (same_text (codes "u") j)) [
  | inl e ↦ let k = rw e at h in let is_u = some_inj running u k in rw (sym is_u) refl
  | inr e ↦ let k = rw e at h in absurd (cc)
]

recover_interrupted_runs_finishes_example :
    (turns : List Turn) × (after : Database) × (recover_interrupted_runs
        (recovered 50)
        (recovered 60)
        (recovered 70)
        running_db
      ≡ inr (turns, after))
    × ((j : Text) (u : Turn) → get_turn j after ≡ some u → is_terminal u.status ≡ true)
recover_interrupted_runs_finishes_example =
    recover_interrupted_runs_finishes (recovered 50) (recovered 60) (recovered 70) running_db
      running_db-IsOwned
