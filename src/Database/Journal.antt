-- ===== src/Database/Journal.antt =====
-- The journal of events, appendEvent and its projection to the session, src/main/database.ts.
pub mod Sequence
pub mod Effects
use adrouter_agent.Prelude.{
  ltb, if◌then◌else◌, is_some, any, filter, Text, codes, same_text, ℕ, ◌+◌, ◌⊎◌, inl, inr, Bool,
  true, false, not, ◌&&◌, Option, none, some, List, [], ◌∷◌, ◌++◌,
}
use adrouter_agent.Json.{Json, null, bool, num, str, arr, obj, Items, nil, cons, end, field}
use adrouter_agent.Manifest.{Encoding, text_or_null}
use adrouter_agent.Database.{
  EventType, session_checkpoint, JournalEvent, SessionEntryKind, entry_user, entry_assistant,
  entry_tool_result, entry_compaction, entry_anchor, SessionEntry, Database, DbError, foreign_key,
  update_rows, max_of, get_thread, get_turn,
}
use adrouter_agent.Database.Payloads.{lookup, safe_record}
use adrouter_agent.Database.Sessions.{Projection, session_projection}

unfoldable pub kind_text : SessionEntryKind → Text
kind_text entry_user = codes "user_message"
kind_text entry_assistant = codes "assistant_message"
kind_text entry_tool_result = codes "tool_result"
kind_text entry_compaction = codes "compaction"
kind_text entry_anchor = codes "context_anchor"

abbrev pub digests_json : List SessionEntry → Items
digests_json [] = nil
digests_json (x ∷ xs) = cons (str x.digest) (digests_json xs)

abbrev pub entries_of : Text → List SessionEntry → List SessionEntry
entries_of thread_id entries = filter (λ x. same_text x.thread_id thread_id) entries

unfoldable pub insert_entry : SessionEntry → List SessionEntry → List SessionEntry
insert_entry x [] = x ∷ []
insert_entry x (y ∷ ys) = if ltb y.ordinal x.ordinal then y ∷ insert_entry x ys else x ∷ y ∷ ys

-- `ORDER BY ordinal ASC`
unfoldable pub sort_entries : List SessionEntry → List SessionEntry
sort_entries [] = []
sort_entries (x ∷ xs) = insert_entry x (sort_entries xs)

unfoldable pub list_session_entries : Text → Database → List SessionEntry
list_session_entries thread_id db = sort_entries (entries_of thread_id db.entries)

abbrev pub last_ordinal : List SessionEntry → ℕ
last_ordinal [] = 0
last_ordinal (x ∷ []) = x.ordinal
last_ordinal (x ∷ y ∷ ys) = last_ordinal (y ∷ ys)

unfoldable pub context_digest : Encoding → List SessionEntry → Text
context_digest e entries = e.sha256 (
    e.stringify (
      obj (
        field (codes "schemaVersion") (num 1)
          (field (codes "entries") (arr (digests_json entries)) end))))

unfoldable pub entry_digest : Encoding → JournalEvent → ℕ → Projection → Text
entry_digest e event ordinal p = e.sha256 (
    e.stringify (
      obj (
        field (codes "schemaVersion") (num 1) (
          field (codes "threadId") (str event.thread_id) (
            field (codes "turnId") (text_or_null event.turn_id) (
              field (codes "ordinal") (num ordinal) (
                field (codes "kind") (str (kind_text p.kind)) (
                  field (codes "timestamp") (str event.timestamp)
                    (field (codes "payload") p.payload end)))))))))

abbrev pub is_safe : Option Json → Bool
is_safe none = false
is_safe (some (bool b)) = b
is_safe (some null) = false
is_safe (some (num n)) = false
is_safe (some (str s)) = false
is_safe (some (arr items)) = false
is_safe (some (obj fields)) = false

unfoldable pub project_checkpoint : Encoding → Text → JournalEvent → Database → Database
project_checkpoint e row_id event db = elim event.turn_id [
  | none ↦ db
  | some turn_id ↦
      let entries = list_session_entries event.thread_id db in
      if not (is_safe (lookup (codes "safe") (safe_record event.payload)))
      then db
      else if any (λ c. same_text c.source_event_id event.id) db.checkpoints
      then db
      else record db {
        checkpoints =
            db.checkpoints
            ++ record {
              id = row_id;
              thread_id = event.thread_id;
              turn_id = turn_id;
              source_event_id = event.id;
              entry_ordinal = last_ordinal entries;
              context_digest = context_digest e entries;
              created_at = event.timestamp;
            }
              ∷ [];
      }
]

unfoldable pub project_entry : Encoding → Text → JournalEvent → Projection → Database → Database
project_entry e row_id event p db =
    let ordinal =
      max_of (λ x. same_text x.thread_id event.thread_id) (λ x. x.ordinal) db.entries + 1 in
    if any (λ x. same_text x.source_event_id event.id) db.entries then db else record db {
      entries =
          db.entries
          ++ record {
            id = row_id;
            thread_id = event.thread_id;
            turn_id = event.turn_id;
            source_event_id = event.id;
            ordinal = ordinal;
            kind = p.kind;
            timestamp = event.timestamp;
            payload = p.payload;
            digest = entry_digest e event ordinal p;
          }
            ∷ [];
    }

abbrev pub is_checkpoint : EventType → Bool
is_checkpoint t = elim t [ session_checkpoint ↦ true | _ ↦ false ]

unfoldable pub project_session_event :
    Encoding → (ℕ → Bool) → Text → JournalEvent → Database → Database
project_session_event e is_count row_id event db =
    if is_checkpoint event.event_type
    then project_checkpoint e row_id event db
    else elim (session_projection is_count event) [
      | none ↦ db
      | some p ↦ project_entry e row_id event p db
    ]

unfoldable pub insert_event : JournalEvent → List JournalEvent → List JournalEvent
insert_event x [] = x ∷ []
insert_event x (y ∷ ys) = if ltb y.sequence x.sequence then y ∷ insert_event x ys else x ∷ y ∷ ys

-- `ORDER BY sequence ASC`
unfoldable pub sort_events : List JournalEvent → List JournalEvent
sort_events [] = []
sort_events (x ∷ xs) = insert_event x (sort_events xs)

unfoldable pub list_events : Text → Database → List JournalEvent
list_events thread_id db = sort_events (filter (λ x. same_text x.thread_id thread_id) db.events)

-- What the clock, `createId` and the digests give to one call.
pub record Context : Type 0 where
  pub encoding : Encoding
  pub is_count : ℕ → Bool
  pub now : ℕ
  pub event_id : Text
  pub row_id : Text

abbrev pub timestamp_of : Context → Text
timestamp_of c = c.encoding.to_iso c.now

unfoldable pub next_event :
    Context → Text → Option Text → EventType → Json → Database → JournalEvent
next_event c thread_id turn_id event_type payload db = record {
  id = c.event_id;
  thread_id = thread_id;
  turn_id = turn_id;
  sequence = max_of (λ x. same_text x.thread_id thread_id) (λ x. x.sequence) db.events + 1;
  event_type = event_type;
  timestamp = timestamp_of c;
  payload = obj (safe_record payload);
}

unfoldable pub insert_event_row : Context → JournalEvent → Database → Database
insert_event_row c event db = record db {
  events = db.events ++ event ∷ [];
  threads =
      update_rows (λ t. same_text t.id event.thread_id)
        (λ t. record t { updated_at = timestamp_of c }) db.threads;
}

abbrev pub turn_is_known : Option Text → Database → Bool
turn_is_known none db = true
turn_is_known (some id) db = is_some (get_turn id db)

-- A row's references are checked when it is inserted, which undoes the call.
unfoldable pub append_event :
    Context → Text → Option Text → EventType → Json → Database → DbError ⊎ (JournalEvent × Database)
append_event c thread_id turn_id event_type payload db =
    let event = next_event c thread_id turn_id event_type payload db in
    if not (is_some (get_thread thread_id db) && turn_is_known turn_id db)
    then inl foreign_key
    else inr (
      event,
      project_session_event c.encoding c.is_count c.row_id event (insert_event_row c event db),
    )
