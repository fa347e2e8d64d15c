-- ===== src/Database/Threads.antt =====
-- The operations on threads, src/main/database.ts.
use adrouter_agent.Prelude.{
  if◌then◌else◌, is_some, any, filter, Text, codes, same_text, text_lt, trim, and_then, ℕ, ◌⊎◌, inl,
  inr, Bool, true, false, not, ◌&&◌, Option, none, some, List, [], ◌∷◌, ◌++◌,
}
use adrouter_agent.Json.{Json, str, obj, end, field}
use adrouter_agent.TaskPolicy.{
  TaskPolicySnapshot, snapshot_is_valid, Digest, project_default_policy_snapshot,
}
use adrouter_agent.Manifest.{Encoding}
use adrouter_agent.Manifest.Schema.{is_sized, is_null_or}
use adrouter_agent.Database.{
  ThreadStatus, thread_idle, thread_running, thread_awaiting, thread_failed, thread_interrupted,
  thread_blocked, thread_status_text, ThinkingLevel, Project, Thread, EventType, thread_lifecycle,
  Database, DbError, project_not_found, thread_not_found, invalid_policy, policy_unavailable,
  invalid_thread, not_interrupted, foreign_key, update_rows, found, get_project, get_thread,
}
use adrouter_agent.Database.Journal.{Context, timestamp_of, append_event}

pub record ThreadInput : Type 0 where
  pub project_id : Text
  pub parent_thread_id : Option Text
  pub forked_from_checkpoint_id : Option Text
  pub title : Text
  pub label : Option Text
  pub model : Text
  pub thinking_level : ThinkingLevel
  pub policy_snapshot : Option TaskPolicySnapshot

abbrev pub status_payload : Text → Json
status_payload status = obj (field (codes "status") (str status) end)

abbrev pub trimmed : Option Text → Option Text
trimmed none = none
trimmed (some t) = some (trim t)

-- The schema of a thread, for its lengths and ids.
unfoldable pub thread_is_valid : Encoding → Thread → Bool
thread_is_valid e t =
    e.is_id t.id
    && e.is_id t.project_id
    && is_null_or e.is_id t.parent_thread_id
    && is_null_or e.is_id t.forked_from_checkpoint_id
    && is_sized 1 240 t.title
    && is_null_or (λ l. is_sized 1 120 l) t.label
    && is_sized 1 300 t.model

-- The given snapshot through its schema, or the defaults of the project.
unfoldable pub starting_policy :
    Digest → ℕ → Project → Option TaskPolicySnapshot → Option TaskPolicySnapshot
starting_policy digest now project none =
    project_default_policy_snapshot digest project.permission_mode project.delegation_enabled now
starting_policy digest now project (some s) = if snapshot_is_valid s.body then some s else none

unfoldable pub make_thread : Context → Text → TaskPolicySnapshot → ThreadInput → Thread
make_thread c id policy input = record {
  id = id;
  project_id = input.project_id;
  parent_thread_id = input.parent_thread_id;
  forked_from_checkpoint_id = input.forked_from_checkpoint_id;
  title = input.title;
  label = trimmed input.label;
  model = input.model;
  thinking_level = input.thinking_level;
  policy_snapshot = some policy;
  status = thread_idle;
  archived_at = none;
  created_at = timestamp_of c;
  updated_at = timestamp_of c;
}

-- The references of the row are checked when it is inserted.
unfoldable pub references_exist : Thread → Database → Bool
references_exist t db =
    is_null_or (λ id. is_some (get_thread id db)) t.parent_thread_id
    && is_null_or (λ id. any (λ c. same_text c.id id) db.checkpoints) t.forked_from_checkpoint_id

unfoldable pub and_append :
    {A : Type 0}
    → Context
    → Text
    → Option Text
    → EventType
    → Json
    → A
    → Database
    → DbError ⊎ (A × Database)
and_append c thread_id turn_id event_type payload a db =
    and_then (append_event c thread_id turn_id event_type payload db) (λ r. inr (a, r.1))

unfoldable pub create_thread :
    Digest → Context → Text → ThreadInput → Database → DbError ⊎ (Thread × Database)
create_thread digest c id input db =
    and_then (found project_not_found (get_project input.project_id db)) (λ project.
      and_then (found invalid_policy (starting_policy digest c.now project input.policy_snapshot))
        (λ policy.
          let thread = make_thread c id policy input in
          if not (thread_is_valid c.encoding thread)
          then inl invalid_thread
          else if not (references_exist thread db)
          then inl foreign_key
          else and_append c id none thread_lifecycle
              (status_payload (thread_status_text thread_idle)) thread
              (record db { threads = db.threads ++ thread ∷ [] })))

-- The text order of the stored times, newest first; rows of one time in the order of insertion.
unfoldable pub insert_newest : Thread → List Thread → List Thread
insert_newest x [] = x ∷ []
insert_newest x (y ∷ ys) =
    if text_lt x.updated_at y.updated_at then y ∷ insert_newest x ys else x ∷ y ∷ ys

unfoldable pub newest_first : List Thread → List Thread
newest_first [] = []
newest_first (x ∷ xs) = insert_newest x (newest_first xs)

unfoldable pub list_threads : Text → Database → List Thread
list_threads project_id db =
    newest_first
      (filter (λ t. same_text t.project_id project_id && not (is_some t.archived_at)) db.threads)

unfoldable pub get_task_policy_snapshot : Text → Database → DbError ⊎ TaskPolicySnapshot
get_task_policy_snapshot id db = and_then (found thread_not_found (get_thread id db)) (λ thread.
    and_then (found policy_unavailable thread.policy_snapshot)
      (λ s. if snapshot_is_valid s.body then inr s else inl invalid_policy))

abbrev pub set_thread : Text → (Thread → Thread) → Database → Database
set_thread id f db = record db { threads = update_rows (λ t. same_text t.id id) f db.threads }

unfoldable pub update_thread_status :
    Context → Text → ThreadStatus → Database → DbError ⊎ (Thread × Database)
update_thread_status c id status db =
    and_then (found thread_not_found (get_thread id db)) (λ thread.
      let updated = timestamp_of c in
      and_append c id none thread_lifecycle (status_payload (thread_status_text status))
        (record thread { status = status; updated_at = updated })
        (set_thread id (λ t. record t { status = status; updated_at = updated }) db))

unfoldable pub update_thread_preferences :
    Context → Text → Text → ThinkingLevel → Database → DbError ⊎ (Thread × Database)
update_thread_preferences c id model level db =
    and_then (found thread_not_found (get_thread id db)) (λ thread.
      let updated = timestamp_of c in
      inr (
        record thread { model = model; thinking_level = level; updated_at = updated },
        set_thread id
            (λ t. record t { model = model; thinking_level = level; updated_at = updated }) db,
      ))

unfoldable pub label_thread :
    Context → Text → Option Text → Database → DbError ⊎ (Thread × Database)
label_thread c id label db = and_then (found thread_not_found (get_thread id db)) (λ thread.
    let updated = timestamp_of c in
    inr (
      record thread { label = label; updated_at = updated },
      set_thread id (λ t. record t { label = label; updated_at = updated }) db,
    ))

unfoldable pub needs_continuation : ThreadStatus → Bool
needs_continuation s = elim s [
  | thread_idle ↦ false
  | thread_running ↦ false
  | thread_awaiting ↦ false
  | thread_failed ↦ false
  | thread_interrupted ↦ true
  | thread_blocked ↦ true
]

unfoldable pub continue_interrupted_thread :
    Context → Text → Database → DbError ⊎ (Thread × Database)
continue_interrupted_thread c id db =
    and_then (found thread_not_found (get_thread id db)) (λ thread.
      if not (needs_continuation thread.status)
      then inl not_interrupted
      else update_thread_status c id thread_idle db)

unfoldable pub archive_thread : Context → Text → Database → DbError ⊎ (Thread × Database)
archive_thread c id db = and_then (found thread_not_found (get_thread id db)) (λ thread.
    let archived = timestamp_of c in
    inr (
      record thread { archived_at = some archived; updated_at = archived },
      set_thread id (λ t. record t { archived_at = some archived; updated_at = archived }) db,
    ))

unfoldable pub is_busy : ThreadStatus → Bool
is_busy s = elim s [
  | thread_idle ↦ false
  | thread_running ↦ true
  | thread_awaiting ↦ true
  | thread_failed ↦ false
  | thread_interrupted ↦ false
  | thread_blocked ↦ false
]
