-- ===== src/Database/Turns.antt =====
-- The operations on turns, src/main/database.ts.
use adrouter_agent.Prelude.{
  if◌then◌else◌, Text, codes, same_text, and_then, ◌⊎◌, Bool, true, false, Option, none, some, [],
  ◌∷◌, ◌++◌,
}
use adrouter_agent.Json.{Json, str, obj, end, field}
use adrouter_agent.Manifest.{text_or_null}
use adrouter_agent.Database.{
  TurnStatus, turn_queued, turn_preparing, turn_running, turn_awaiting, turn_completed, turn_failed,
  turn_cancelled, turn_interrupted, turn_status_text, ThinkingLevel, Thread, TurnKind, Turn,
  turn_lifecycle, Database, DbError, thread_not_found, turn_not_found, update_rows, found,
  get_thread, get_turn,
}
use adrouter_agent.Database.Journal.{Context, timestamp_of}
use adrouter_agent.Database.Threads.{status_payload, and_append}

unfoldable pub make_turn :
    Context → Text → Thread → Text → Option Text → Option ThinkingLevel → TurnKind → Turn
make_turn c id thread input model level kind = record {
  id = id;
  thread_id = thread.id;
  input = input;
  model = elim model [ none ↦ thread.model | some m ↦ m ];
  thinking_level = elim level [ none ↦ thread.thinking_level | some l ↦ l ];
  kind = kind;
  status = turn_queued;
  error = none;
  created_at = timestamp_of c;
  started_at = none;
  finished_at = none;
}

unfoldable pub create_turn :
    Context
    → Text
    → Text
    → Text
    → Option Text
    → Option ThinkingLevel
    → TurnKind
    → Database
    → DbError ⊎ (Turn × Database)
create_turn c id thread_id input model level kind db =
    and_then (found thread_not_found (get_thread thread_id db)) (λ thread.
      let turn = record (make_turn c id thread input model level kind) { thread_id = thread_id } in
      and_append c thread_id (some id) turn_lifecycle
        (status_payload (turn_status_text turn_queued)) turn
        (record db { turns = db.turns ++ turn ∷ [] }))

unfoldable pub is_started : TurnStatus → Bool
is_started s = elim s [ turn_preparing ↦ true | turn_running ↦ true | _ ↦ false ]

unfoldable pub is_terminal : TurnStatus → Bool
is_terminal s = elim s [
  | turn_queued ↦ false
  | turn_preparing ↦ false
  | turn_running ↦ false
  | turn_awaiting ↦ false
  | turn_completed ↦ true
  | turn_failed ↦ true
  | turn_cancelled ↦ true
  | turn_interrupted ↦ true
]

abbrev pub turn_payload : TurnStatus → Option Text → Json
turn_payload status error = obj (
    field (codes "status") (str (turn_status_text status))
      (field (codes "error") (text_or_null error) end))

-- The columns that an update of the status sets, from the turn that was read.
unfoldable pub with_status : Context → Turn → TurnStatus → Option Text → Turn → Turn
with_status c seen status error turn = record turn {
  status = status;
  error = error;
  started_at = elim seen.started_at [
    | some at ↦ some at
    | none ↦ if is_started status then some (timestamp_of c) else none
  ];
  finished_at = if is_terminal status then some (timestamp_of c) else none;
}

unfoldable pub update_turn_status :
    Context → Text → TurnStatus → Option Text → Database → DbError ⊎ (Turn × Database)
update_turn_status c id status error db = and_then (found turn_not_found (get_turn id db)) (λ turn.
    and_append c turn.thread_id (some id) turn_lifecycle (turn_payload status error)
      (with_status c turn status error turn)
      (record db {
        turns = update_rows (λ t. same_text t.id id) (with_status c turn status error) db.turns;
      }))
