-- ===== src/Projection.antt =====
-- The state of a thread from its journal, src/shared/projection.ts. A JavaScript map of the turns is
-- its entries in insertion order.
pub mod Maps
pub mod Events
pub mod Replay
pub mod Carried
pub mod Steps
pub mod Creation
pub mod Turns
pub mod Tables
pub mod Trace
use adrouter_agent.Prelude.{
  if◌then◌else◌, Text, codes, same_text, is_empty, Option, none, some, List, [], ◌∷◌,
}
use adrouter_agent.Json.{}
use adrouter_agent.Database.{
  ThreadStatus, thread_idle, thread_running, thread_awaiting, thread_failed, TurnStatus,
  turn_queued, turn_preparing, turn_running, turn_awaiting, turn_completed, turn_failed,
  turn_cancelled, turn_interrupted, thread_lifecycle, turn_lifecycle, sponsor_update,
  final_evidence, JournalEvent,
}
use adrouter_agent.Database.Payloads.{lookup, safe_record, as_string}
use adrouter_agent.Database.Journal.{sort_events}

pub record ThreadProjection : Type 0 where
  pub status : ThreadStatus
  pub turns : List (Text × TurnStatus)
  pub latest_sponsor_event : Option JournalEvent
  pub latest_evidence_event : Option JournalEvent

unfoldable pub status_of : Text → List (Text × TurnStatus) → Option TurnStatus
status_of id [] = none
status_of id ((j, s) ∷ turns) = if same_text j id then some s else status_of id turns

unfoldable pub set_status : Text → TurnStatus → List (Text × TurnStatus) → List (Text × TurnStatus)
set_status id s [] = (id, s) ∷ []
set_status id s ((j, t) ∷ turns) =
    if same_text j id then (j, s) ∷ turns else (j, t) ∷ set_status id s turns

-- `isThreadStatus`, with the status that is meant.
unfoldable pub as_thread_status : Text → Option ThreadStatus
as_thread_status t =
    if same_text t (codes "idle")
    then some thread_idle
    else if same_text t (codes "running")
    then some thread_running
    else if same_text t (codes "awaiting_approval")
    then some thread_awaiting
    else if same_text t (codes "failed")
    then some thread_failed
    else none

-- `isTurnStatus`
unfoldable pub as_turn_status : Text → Option TurnStatus
as_turn_status t =
    if same_text t (codes "queued")
    then some turn_queued
    else if same_text t (codes "preparing")
    then some turn_preparing
    else if same_text t (codes "running")
    then some turn_running
    else if same_text t (codes "awaiting_approval")
    then some turn_awaiting
    else if same_text t (codes "completed")
    then some turn_completed
    else if same_text t (codes "failed")
    then some turn_failed
    else if same_text t (codes "cancelled")
    then some turn_cancelled
    else if same_text t (codes "interrupted")
    then some turn_interrupted
    else none

abbrev pub status_text_of : JournalEvent → Option Text
status_text_of event = as_string (lookup (codes "status") (safe_record event.payload))

unfoldable pub project_thread_status : JournalEvent → ThreadProjection → ThreadProjection
project_thread_status event p = elim (status_text_of event) [
  | none ↦ p
  | some t ↦ elim (as_thread_status t) [ none ↦ p | some s ↦ record p { status = s } ]
]

unfoldable pub project_turn_status : JournalEvent → ThreadProjection → ThreadProjection
project_turn_status event p = elim event.turn_id [
  | none ↦ p
  | some id ↦ if is_empty id then p else elim (status_text_of event) [
    | none ↦ p
    | some t ↦ elim (as_turn_status t) [
      | none ↦ p
      | some s ↦ record p { turns = set_status id s p.turns }
    ]
  ]
]

unfoldable pub project_event : JournalEvent → ThreadProjection → ThreadProjection
project_event event p = elim event.event_type [
  | thread_lifecycle ↦ project_thread_status event p
  | turn_lifecycle ↦ project_turn_status event p
  | sponsor_update ↦ record p { latest_sponsor_event = some event }
  | final_evidence ↦ record p { latest_evidence_event = some event }
  | _ ↦ p
]

abbrev pub initial_projection : ThreadProjection
initial_projection = record {
  status = thread_idle;
  turns = [];
  latest_sponsor_event = none;
  latest_evidence_event = none;
}

unfoldable pub project_events : List JournalEvent → ThreadProjection → ThreadProjection
project_events [] p = p
project_events (x ∷ xs) p = project_events xs (project_event x p)

unfoldable pub rebuild_thread_projection : List JournalEvent → ThreadProjection
rebuild_thread_projection events = project_events (sort_events events) initial_projection
