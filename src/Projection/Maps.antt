-- ===== src/Projection/Maps.antt =====
-- The map of the turns, and the projection of one more event.
use adrouter_agent.Prelude.{
  if◌then◌else◌, Text, same_text, same_text_iff, ◌≡◌, refl, Bool, true, false, none, some, List, [],
  ◌∷◌, ◌++◌, arith,
}
use adrouter_agent.Database.{
  ThreadStatus, thread_idle, thread_running, thread_awaiting, thread_failed, thread_interrupted,
  thread_blocked, TurnStatus, turn_queued, turn_preparing, turn_running, turn_awaiting,
  turn_completed, turn_failed, turn_cancelled, turn_interrupted, thread_status_text,
  turn_status_text, JournalEvent,
}
use adrouter_agent.Projection.{
  ThreadProjection, status_of, set_status, as_thread_status, as_turn_status, project_event,
  project_events,
}

pub status_of-set_status :
    (i j : Text) (s : TurnStatus) (turns : List (Text × TurnStatus))
    → status_of j (set_status i s turns) ≡ (if same_text i j then some s else status_of j turns)
unfolding status_of set_status
status_of-set_status i j s [] = refl
status_of-set_status i j s ((k, t) ∷ turns) = ground (
  arith,
  same_text_iff k i,
  same_text_iff k j,
  same_text_iff i j,
  status_of-set_status i j s turns,
)

pub project_events-append :
    (xs : List JournalEvent) (x : JournalEvent) (p : ThreadProjection)
    → project_events (xs ++ x ∷ []) p ≡ project_event x (project_events xs p)
unfolding project_events
project_events-append [] x p = refl
project_events-append (y ∷ ys) x p = project_events-append ys x (project_event y p)

pub as_turn_status-text : (s : TurnStatus) → as_turn_status (turn_status_text s) ≡ some s
unfolding as_turn_status turn_status_text same_text
as_turn_status-text turn_queued = refl
as_turn_status-text turn_preparing = refl
as_turn_status-text turn_running = refl
as_turn_status-text turn_awaiting = refl
as_turn_status-text turn_completed = refl
as_turn_status-text turn_failed = refl
as_turn_status-text turn_cancelled = refl
as_turn_status-text turn_interrupted = refl

-- The statuses that the projection knows.
unfoldable pub is_shown : ThreadStatus → Bool
is_shown thread_idle = true
is_shown thread_running = true
is_shown thread_awaiting = true
is_shown thread_failed = true
is_shown thread_interrupted = false
is_shown thread_blocked = false

pub as_thread_status-text :
    (s : ThreadStatus)
    → as_thread_status (thread_status_text s) ≡ (if is_shown s then some s else none)
unfolding as_thread_status thread_status_text same_text is_shown
as_thread_status-text thread_idle = refl
as_thread_status-text thread_running = refl
as_thread_status-text thread_awaiting = refl
as_thread_status-text thread_failed = refl
as_thread_status-text thread_interrupted = refl
as_thread_status-text thread_blocked = refl
