-- ===== src/Projection/Trace.antt =====
-- Sequences of calls on threads, turns, events and approvals, in any order.
use adrouter_agent.Prelude.{
  Text, is_empty, not_refused, and_then-inr, inr_inj, ◌≡◌, refl, ap, subst, ◌∙◌, ◌⊎◌, inr, true,
  false, not, Option, none, some, List, [],
}
use adrouter_agent.Json.{Json}
use adrouter_agent.TaskPolicy.{Digest}
use adrouter_agent.Database.{
  ThreadStatus, thread_idle, TurnStatus, ThinkingLevel, Project, Thread, TurnKind, Turn, EventType,
  JournalEvent, Approval, Database, DbError, thread_not_found, not_interrupted, find_row, found,
  get_thread, get_turn,
}
use adrouter_agent.Database.Payloads.{}
use adrouter_agent.Database.Journal.{list_events, Context, append_event}
use adrouter_agent.Database.Journal.Sequence.{Numbered, sort_events-Numbered, events_of}
use adrouter_agent.Database.Journal.Effects.{}
use adrouter_agent.Database.Threads.{
  ThreadInput, create_thread, set_thread, update_thread_status, update_thread_preferences,
  label_thread, needs_continuation, continue_interrupted_thread, archive_thread,
}
use adrouter_agent.Database.Turns.{create_turn, update_turn_status}
use adrouter_agent.Projection.{status_of, rebuild_thread_projection}
use adrouter_agent.Projection.Maps.{is_shown}
use adrouter_agent.Projection.Events.{is_lifecycle}
use adrouter_agent.Database.Rows.{}
use adrouter_agent.Projection.Replay.{IsReplayed}
use adrouter_agent.Projection.Carried.{}
use adrouter_agent.Projection.Steps.{update_thread_status-IsReplayed}
use adrouter_agent.Projection.Creation.{create_thread-IsReplayed}
use adrouter_agent.Projection.Turns.{create_turn-IsReplayed, update_turn_status-IsReplayed}
use adrouter_agent.Projection.Tables.{set_thread-IsReplayed, append_event-IsReplayed}

-- Ids that are made are new.
pub data Step : Database → Database → Type 0 where
  thread_created :
      (digest : Digest) (c : Context) (id : Text) (input : ThreadInput) (t : Thread)
      (before after : Database)
      → get_thread id before ≡ none
      → create_thread digest c id input before ≡ inr (t, after)
      → Step before after
  thread_updated :
      (c : Context) (id : Text) (s : ThreadStatus) (t : Thread) (before after : Database)
      → update_thread_status c id s before ≡ inr (t, after)
      → Step before after
  thread_continued :
      (c : Context) (id : Text) (t : Thread) (before after : Database)
      → continue_interrupted_thread c id before ≡ inr (t, after)
      → Step before after
  thread_preferred :
      (c : Context) (id model : Text) (level : ThinkingLevel) (t : Thread) (before after : Database)
      → update_thread_preferences c id model level before ≡ inr (t, after)
      → Step before after
  thread_labelled :
      (c : Context) (id : Text) (label : Option Text) (t : Thread) (before after : Database)
      → label_thread c id label before ≡ inr (t, after)
      → Step before after
  thread_archived :
      (c : Context) (id : Text) (t : Thread) (before after : Database)
      → archive_thread c id before ≡ inr (t, after)
      → Step before after
  turn_created :
      (c : Context) (id thread_id input : Text) (model : Option Text) (level : Option ThinkingLevel)
      (kind : TurnKind) (u : Turn) (before after : Database)
      → get_turn id before ≡ none
      → is_empty id ≡ false
      → create_turn c id thread_id input model level kind before ≡ inr (u, after)
      → Step before after
  turn_updated :
      (c : Context) (id : Text) (s : TurnStatus) (error : Option Text) (u : Turn)
      (before after : Database)
      → update_turn_status c id s error before ≡ inr (u, after)
      → Step before after
  event_appended :
      (c : Context) (id : Text) (turn : Option Text) (event_type : EventType) (payload : Json)
      (x : JournalEvent) (before after : Database)
      → is_lifecycle event_type ≡ false
      → append_event c id turn event_type payload before ≡ inr (x, after)
      → Step before after
  approvals_changed :
      (rows : List Approval) (before : Database) → Step before (record before { approvals = rows })

pub data Steps : Database → Database → Type 0 where
  no_steps : (db : Database) → Steps db db
  then_step : (a b c : Database) → Steps a b → Step b c → Steps a c

set_after :
    (id : Text) (f : Thread → Thread) (t u : Thread) (before after : Database)
    → ((t : Thread) → ((f t).id ≡ t.id) × ((f t).status ≡ t.status))
    → ◌≡◌ {A = DbError ⊎ (Thread × Database)} (inr (u, set_thread id f before)) (inr (t, after))
    → IsReplayed before
    → IsReplayed after
set_after id f t u before after keeps same good =
    subst IsReplayed (ap (λ p. p.1) (inr_inj (u, set_thread id f before) (t, after) same))
      (set_thread-IsReplayed id f before keeps good)

Step-IsReplayed :
    (before after : Database) → Step before after → IsReplayed before → IsReplayed after
unfolding continue_interrupted_thread update_thread_preferences label_thread archive_thread
    get_thread get_turn
Step-IsReplayed _ _ (thread_created digest c id input t before after fresh h) good =
    create_thread-IsReplayed digest c id input t before after fresh h good
Step-IsReplayed _ _ (thread_updated c id s t before after h) good =
    update_thread_status-IsReplayed c id s t before after h good
Step-IsReplayed _ _ (thread_continued c id t before after h) good =
    let (row, there, k) =
      and_then-inr (found thread_not_found (get_thread id before)) _ (t, after) h in
    let (waits, l) =
      not_refused (not (needs_continuation row.status)) _ (t, after) not_interrupted k in
    update_thread_status-IsReplayed c id thread_idle t before after l good
Step-IsReplayed _ _ (thread_preferred c id model level t before after h) good =
    let (row, there, k) =
      and_then-inr (found thread_not_found (get_thread id before)) _ (t, after) h in
    set_after id _ t _ before after (λ t. (refl, refl)) k good
Step-IsReplayed _ _ (thread_labelled c id label t before after h) good =
    let (row, there, k) =
      and_then-inr (found thread_not_found (get_thread id before)) _ (t, after) h in
    set_after id _ t _ before after (λ t. (refl, refl)) k good
Step-IsReplayed _ _ (thread_archived c id t before after h) good =
    let (row, there, k) =
      and_then-inr (found thread_not_found (get_thread id before)) _ (t, after) h in
    set_after id _ t _ before after (λ t. (refl, refl)) k good
Step-IsReplayed _ _
      (turn_created c id thread input model level kind u before after fresh is_named h) good =
    create_turn-IsReplayed c id thread input model level kind u before after fresh is_named h good
Step-IsReplayed _ _ (turn_updated c id s error u before after h) good =
    update_turn_status-IsReplayed c id s error u before after h good
Step-IsReplayed _ _ (event_appended c id turn event_type payload x before after other h) good =
    append_event-IsReplayed c id turn event_type payload x before after other h good
Step-IsReplayed _ _ (approvals_changed rows before) good = record {
  owned = good.owned;
  numbered = good.numbered;
  named = good.named;
  threads = good.threads;
  turns = good.turns;
}

Steps-IsReplayed :
    (before after : Database) → Steps before after → IsReplayed before → IsReplayed after
Steps-IsReplayed _ _ (no_steps db) good = good
Steps-IsReplayed _ _ (then_step a b c steps s) good =
    Step-IsReplayed b c s (Steps-IsReplayed a b steps good)

-- A database with projects and nothing else.
abbrev pub with_projects : List Project → Database
with_projects projects = record {
  projects = projects;
  threads = [];
  turns = [];
  events = [];
  entries = [];
  checkpoints = [];
  approvals = [];
}

with_projects-IsReplayed : (projects : List Project) → IsReplayed (with_projects projects)
unfolding get_thread get_turn find_row
with_projects-IsReplayed projects = record {
  owned = λ j h. refl;
  numbered = λ j. tt;
  named = λ j u h. absurd (cc);
  threads = λ j t h shown. absurd (cc);
  turns = λ j u h. absurd (cc);
}

-- After any calls on threads, turns, events and approvals in any order, deletions apart, from a
-- database with projects alone, the ids that are made being new and lifecycle events being written
-- by the updates of a status alone: the events of every thread are numbered 1, 2, 3, … without a
-- gap.
pub list_events-Numbered :
    (projects : List Project) (db : Database)
    → Steps (with_projects projects) db
    → (j : Text) → Numbered 1 (list_events j db)
unfolding list_events
list_events-Numbered projects db steps j =
    let good = Steps-IsReplayed _ db steps (with_projects-IsReplayed projects) in
    rw (sort_events-Numbered 1 (events_of j db.events) (good.numbered j)) (good.numbered j)

list_events_sorted :
    (j : Text) (db : Database)
    → Numbered 1 (events_of j db.events)
    → list_events j db ≡ events_of j db.events
unfolding list_events
list_events_sorted j db h = sort_events-Numbered 1 (events_of j db.events) h

-- After any calls on threads, turns, events and approvals in any order, deletions apart, from a
-- database with projects alone, the ids that are made being new and lifecycle events being written
-- by the updates of a status alone, the journal holds the state: the projection that is rebuilt from the events of a
-- thread has the thread's status, unless that is `interrupted` or `blocked`, and it has the status
-- of each of its turns.
pub rebuild_thread_projection-Replays :
    (projects : List Project) (db : Database)
    → Steps (with_projects projects) db
    → ((j : Text) (t : Thread)
        → get_thread j db ≡ some t
        → is_shown t.status ≡ true
        → (rebuild_thread_projection (list_events j db)).status ≡ t.status)
      × ((j : Text) (u : Turn)
          → get_turn j db ≡ some u
          → status_of j (rebuild_thread_projection (list_events u.thread_id db)).turns
            ≡ some u.status)
unfolding rebuild_thread_projection
rebuild_thread_projection-Replays projects db steps =
    let good = Steps-IsReplayed _ db steps (with_projects-IsReplayed projects) in
    let ordered = λ (j : Text).
      sort_events-Numbered 1 (list_events j db) (list_events-Numbered projects db steps j)
      ∙ list_events_sorted j db (good.numbered j) in
    (
      λ j t h shown. rw (ordered j) (good.threads j t h shown),
      λ j u h. rw (ordered u.thread_id) (good.turns j u h),
    )
