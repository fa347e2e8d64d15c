-- ===== src/Database/Deletion.antt =====
-- Deletion of a thread, src/main/database.ts.
use adrouter_agent.Prelude.{
  if◌then◌else◌, any, filter, Text, same_text, and_then, ◌⊎◌, inl, inr, Bool, not, ◌&&◌, ◌||◌,
  Option, none, some, map,
}
use adrouter_agent.Database.{
  Thread, JournalEvent, SessionEntry, SessionCheckpoint, Database, DbError, thread_not_found,
  still_running, found, get_thread,
}
use adrouter_agent.Database.Threads.{is_busy}

-- A reference whose row is deleted becomes null.
abbrev pub unless_gone : (Text → Bool) → Option Text → Option Text
unless_gone gone none = none
unless_gone gone (some id) = if gone id then none else some id

-- `DELETE FROM threads` with what its references say: rows that belong to the thread, to one of its
-- turns or to one of its events go with it.
unfoldable pub delete_cascade : Text → Database → Database
delete_cascade id db =
    let turn_gone =
      λ (turn : Text). any (λ t. same_text t.thread_id id && same_text t.id turn) db.turns in
    let event_gone =
      λ (event : Text). any (λ x. same_text x.thread_id id && same_text x.id event) db.events in
    let checkpoint_stays = λ (c : SessionCheckpoint).
      not (same_text c.thread_id id || turn_gone c.turn_id || event_gone c.source_event_id) in
    let checkpoint_gone = λ (point : Text).
      any (λ c. not (checkpoint_stays c) && same_text c.id point) db.checkpoints in
    record db {
      threads =
          map {A = Thread} {B = Thread}
            (λ t. record t {
              parent_thread_id = unless_gone (same_text id) t.parent_thread_id;
              forked_from_checkpoint_id = unless_gone checkpoint_gone t.forked_from_checkpoint_id;
            })
            (filter (λ t. not (same_text t.id id)) db.threads);
      turns = filter (λ t. not (same_text t.thread_id id)) db.turns;
      events =
          map {A = JournalEvent} {B = JournalEvent}
            (λ x. record x { turn_id = unless_gone turn_gone x.turn_id })
            (filter (λ x. not (same_text x.thread_id id)) db.events);
      entries =
          map {A = SessionEntry} {B = SessionEntry}
            (λ x. record x { turn_id = unless_gone turn_gone x.turn_id })
            (filter (λ x. not (same_text x.thread_id id || event_gone x.source_event_id))
              db.entries);
      checkpoints = filter checkpoint_stays db.checkpoints;
      approvals = filter (λ a. not (same_text a.thread_id id || turn_gone a.turn_id)) db.approvals;
    }

unfoldable pub delete_thread : Text → Database → DbError ⊎ Database
delete_thread id db =
    and_then (found thread_not_found (get_thread id db))
      (λ thread. if is_busy thread.status then inl still_running else inr (delete_cascade id db))
