-- ===== src/Projection/Events.antt =====
-- What the events that the database writes do to the projection.
use adrouter_agent.Prelude.{
  if◌then◌else◌, Bool-cases, Text, same_text, is_empty, ◌≡◌, refl, inl, inr, Bool, true, false,
  Option, none, some, List, [], ◌∷◌, ◌++◌,
}
use adrouter_agent.Json.{}
use adrouter_agent.Database.{
  ThreadStatus, thread_idle, thread_running, thread_awaiting, thread_failed, thread_interrupted,
  thread_blocked, TurnStatus, thread_status_text, turn_status_text, EventType, thread_lifecycle,
  turn_lifecycle, message_user, message_delta, message_complete, thinking_delta, tool_activity,
  tool_result, command_output, attention_required, presence_cleared, approval_request,
  approval_resolved, file_change, diff_change, operation_completed, sponsor_update, settlement,
  compaction, context_budget, queue_update, session_checkpoint, retry, runtime_crash,
  final_evidence, diagnostic, JournalEvent, Database,
}
use adrouter_agent.Database.Payloads.{lookup, safe_record}
use adrouter_agent.Database.Journal.{Context, next_event}
use adrouter_agent.Database.Journal.Sequence.{events_of, events_of-append}
use adrouter_agent.Database.Threads.{status_payload}
use adrouter_agent.Database.Turns.{turn_payload}
use adrouter_agent.Projection.{
  ThreadProjection, set_status, as_thread_status, project_thread_status, project_turn_status,
  project_event, initial_projection, project_events,
}
use adrouter_agent.Projection.Maps.{project_events-append, as_turn_status-text, is_shown}

abbrev pub projection_of : Text → List JournalEvent → ThreadProjection
projection_of id events = project_events (events_of id events) initial_projection

pub projection_of-append :
    (id : Text) (events : List JournalEvent) (x : JournalEvent)
    → projection_of id (events ++ x ∷ []) ≡ (
        if same_text x.thread_id id
        then project_event x (projection_of id events)
        else projection_of id events)
projection_of-append id events x = elim (Bool-cases (same_text x.thread_id id)) [
  | inl e ↦ rw (events_of-append id events x, e, project_events-append (events_of id events) x) refl
  | inr e ↦ rw (events_of-append id events x, e) refl
]

pub project_event-thread :
    (c : Context) (id : Text) (s : ThreadStatus) (db : Database) (p : ThreadProjection)
    → project_event
        (next_event c id none thread_lifecycle (status_payload (thread_status_text s)) db)
        p
      ≡ (if is_shown s then record p { status = s } else p)
unfolding project_event project_thread_status next_event safe_record lookup same_text is_shown
    as_thread_status thread_status_text
project_event-thread c id thread_idle db p = refl
project_event-thread c id thread_running db p = refl
project_event-thread c id thread_awaiting db p = refl
project_event-thread c id thread_failed db p = refl
project_event-thread c id thread_interrupted db p = refl
project_event-thread c id thread_blocked db p = refl

pub project_event-turn :
    (c : Context) (id turn : Text) (s : TurnStatus) (error : Option Text) (db : Database)
    (p : ThreadProjection)
    → is_empty turn ≡ false
    → project_event (next_event c id (some turn) turn_lifecycle (turn_payload s error) db) p
      ≡ record p { turns = set_status turn s p.turns }
unfolding project_event project_turn_status next_event safe_record lookup same_text
project_event-turn c id turn s error db p named = rw (named, as_turn_status-text s) refl

pub project_event-new_turn :
    (c : Context) (id turn : Text) (s : TurnStatus) (db : Database) (p : ThreadProjection)
    → is_empty turn ≡ false
    → project_event
        (next_event c id (some turn) turn_lifecycle (status_payload (turn_status_text s)) db)
        p
      ≡ record p { turns = set_status turn s p.turns }
unfolding project_event project_turn_status next_event safe_record lookup same_text
project_event-new_turn c id turn s db p named = rw (named, as_turn_status-text s) refl

abbrev pub is_lifecycle : EventType → Bool
is_lifecycle t = elim t [ thread_lifecycle ↦ true | turn_lifecycle ↦ true | _ ↦ false ]

other_type :
    (t : EventType) (x : JournalEvent) (p : ThreadProjection)
    → x.event_type ≡ t
    → is_lifecycle t ≡ false
    → ((project_event x p).status ≡ p.status) × ((project_event x p).turns ≡ p.turns)
unfolding project_event
other_type thread_lifecycle x p e h = cc
other_type turn_lifecycle x p e h = cc
other_type message_user x p e h = rw e (refl, refl)
other_type message_delta x p e h = rw e (refl, refl)
other_type message_complete x p e h = rw e (refl, refl)
other_type thinking_delta x p e h = rw e (refl, refl)
other_type tool_activity x p e h = rw e (refl, refl)
other_type tool_result x p e h = rw e (refl, refl)
other_type command_output x p e h = rw e (refl, refl)
other_type attention_required x p e h = rw e (refl, refl)
other_type presence_cleared x p e h = rw e (refl, refl)
other_type approval_request x p e h = rw e (refl, refl)
other_type approval_resolved x p e h = rw e (refl, refl)
other_type file_change x p e h = rw e (refl, refl)
other_type diff_change x p e h = rw e (refl, refl)
other_type operation_completed x p e h = rw e (refl, refl)
other_type sponsor_update x p e h = rw e (refl, refl)
other_type settlement x p e h = rw e (refl, refl)
other_type compaction x p e h = rw e (refl, refl)
other_type context_budget x p e h = rw e (refl, refl)
other_type queue_update x p e h = rw e (refl, refl)
other_type session_checkpoint x p e h = rw e (refl, refl)
other_type retry x p e h = rw e (refl, refl)
other_type runtime_crash x p e h = rw e (refl, refl)
other_type final_evidence x p e h = rw e (refl, refl)
other_type diagnostic x p e h = rw e (refl, refl)

pub project_event-other :
    (x : JournalEvent) (p : ThreadProjection)
    → is_lifecycle x.event_type ≡ false
    → ((project_event x p).status ≡ p.status) × ((project_event x p).turns ≡ p.turns)
project_event-other x p h = other_type x.event_type x p refl h
