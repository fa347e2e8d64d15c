-- ===== src/Database/Sessions/Projected.antt =====
-- The whole session is free of sponsor data.
use adrouter_agent.Prelude.{
  if◌then◌else◌, Bool-cases, Option-cases, is_some, any, All, All-snoc, Text, codes, same_text,
  not_refused, inr_inj, ℕ, ◌≡◌, refl, subst, inl, inr, Bool, true, false, not, ◌&&◌, Option, List,
}
use adrouter_agent.Json.{Json, null, bool, num, str, arr, obj, contains_sponsor_key}
use adrouter_agent.Manifest.{Encoding}
use adrouter_agent.Database.{
  EventType, thread_lifecycle, turn_lifecycle, message_user, message_delta, message_complete,
  thinking_delta, tool_activity, tool_result, command_output, attention_required, presence_cleared,
  approval_request, approval_resolved, file_change, diff_change, operation_completed,
  sponsor_update, settlement, compaction, context_budget, queue_update, session_checkpoint, retry,
  runtime_crash, final_evidence, diagnostic, JournalEvent, SessionEntry, Database, foreign_key,
  get_thread,
}
use adrouter_agent.Database.Payloads.{lookup, safe_record}
use adrouter_agent.Database.Sessions.{Projection, session_projection}
use adrouter_agent.Database.Sessions.Clean.{
  IsClean, AreClean, Projects, Projects-user, Projects-assistant, Projects-tool,
  Projects-compaction, Projects-anchor,
}
use adrouter_agent.Database.Journal.{
  is_safe, project_checkpoint, project_entry, project_session_event, Context, next_event,
  insert_event_row, turn_is_known, append_event,
}

safe_record-Clean : (j : Json) → IsClean j → AreClean (safe_record j)
unfolding safe_record contains_sponsor_key
safe_record-Clean (obj fields) h = h
safe_record-Clean null h = refl
safe_record-Clean (bool b) h = refl
safe_record-Clean (num n) h = refl
safe_record-Clean (str s) h = refl
safe_record-Clean (arr items) h = refl

by_type :
    (is_count : ℕ → Bool) (t : EventType) (x : JournalEvent)
    → x.event_type ≡ t
    → IsClean x.payload
    → Projects (session_projection is_count x)
unfolding session_projection
by_type is_count message_user x e h = rw (h, e) (Projects-user (safe_record x.payload))
by_type is_count message_delta x e h = rw (h, e) (λ p k. cc)
by_type is_count message_complete x e h =
    rw (h, e) (Projects-assistant is_count (safe_record x.payload))
by_type is_count thinking_delta x e h = rw (h, e) (λ p k. cc)
by_type is_count tool_activity x e h = rw (h, e) (λ p k. cc)
by_type is_count tool_result x e h = rw (h, e) (Projects-tool (safe_record x.payload))
by_type is_count command_output x e h = rw (h, e) (λ p k. cc)
by_type is_count attention_required x e h = rw (h, e) (λ p k. cc)
by_type is_count presence_cleared x e h = rw (h, e) (λ p k. cc)
by_type is_count approval_request x e h = rw (h, e) (λ p k. cc)
by_type is_count approval_resolved x e h = rw (h, e) (Projects-anchor _ (safe_record x.payload))
by_type is_count file_change x e h = rw (h, e) (Projects-anchor _ (safe_record x.payload))
by_type is_count diff_change x e h = rw (h, e) (Projects-anchor _ (safe_record x.payload))
by_type is_count operation_completed x e h = rw (h, e) (Projects-anchor _ (safe_record x.payload))
by_type is_count sponsor_update x e h = rw (h, e) (λ p k. cc)
by_type is_count settlement x e h = rw (h, e) (λ p k. cc)
by_type is_count compaction x e h =
    rw (h, e) (Projects-compaction (safe_record x.payload) (safe_record-Clean x.payload h))
by_type is_count context_budget x e h = rw (h, e) (λ p k. cc)
by_type is_count queue_update x e h = rw (h, e) (λ p k. cc)
by_type is_count session_checkpoint x e h = rw (h, e) (λ p k. cc)
by_type is_count retry x e h = rw (h, e) (λ p k. cc)
by_type is_count runtime_crash x e h = rw (h, e) (Projects-anchor _ (safe_record x.payload))
by_type is_count final_evidence x e h = rw (h, e) (λ p k. cc)
by_type is_count diagnostic x e h = rw (h, e) (λ p k. cc)
by_type is_count thread_lifecycle x e h = rw (h, e) (λ p k. cc)
by_type is_count turn_lifecycle x e h = rw (h, e) (λ p k. cc)

refused_payload :
    (is_count : ℕ → Bool) (x : JournalEvent)
    → contains_sponsor_key x.payload ≡ true
    → Projects (session_projection is_count x)
unfolding session_projection
refused_payload is_count x e = rw e (λ p k. cc)

session_projection-Clean :
    (is_count : ℕ → Bool) (x : JournalEvent) → Projects (session_projection is_count x)
session_projection-Clean is_count x = elim (Bool-cases (contains_sponsor_key x.payload)) [
  | inl e ↦ refused_payload is_count x e
  | inr e ↦ by_type is_count x.event_type x refl e
]

abbrev pub IsCleanSession : List SessionEntry → Type 0
IsCleanSession entries = All (λ y. contains_sponsor_key y.payload ≡ false) entries

record HasClean (db : Database) : Type 0 where
  clean : IsCleanSession db.entries

HasClean-if : (b : Bool) (x y : Database) → HasClean x → HasClean y → HasClean (if b then x else y)
HasClean-if true x y h k = h
HasClean-if false x y h k = k

project_checkpoint-HasClean :
    (e : Encoding) (row : Text) (x : JournalEvent) (db : Database)
    → HasClean db
    → HasClean (project_checkpoint e row x db)
unfolding project_checkpoint
project_checkpoint-HasClean e row x db h = elim (Option-cases x.turn_id) [
  | inl k ↦ rw k h
  | inr (turn, k) ↦ rw k (
      HasClean-if (not (is_safe (lookup (codes "safe") (safe_record x.payload)))) db _ h (
        HasClean-if (any (λ c. same_text c.source_event_id x.id) db.checkpoints) db _ h
          (record { clean = h.clean })))
]

project_entry-HasClean :
    (e : Encoding) (row : Text) (x : JournalEvent) (p : Projection) (db : Database)
    → contains_sponsor_key p.payload ≡ false
    → HasClean db
    → HasClean (project_entry e row x p db)
unfolding project_entry
project_entry-HasClean e row x p db k h =
    HasClean-if (any (λ y. same_text y.source_event_id x.id) db.entries) db _ h (record {
      clean = All-snoc (λ y. contains_sponsor_key y.payload ≡ false) db.entries _ h.clean k;
    })

project_session_event-HasClean :
    (e : Encoding) (is_count : ℕ → Bool) (row : Text) (x : JournalEvent) (db : Database)
    → HasClean db
    → HasClean (project_session_event e is_count row x db)
unfolding project_session_event
project_session_event-HasClean e is_count row x db h =
    elim (Option-cases (session_projection is_count x)) [
      | inl k ↦ rw k (HasClean-if _ _ _ (project_checkpoint-HasClean e row x db h) h)
      | inr (p, k) ↦ rw k (
          HasClean-if _ _ _ (project_checkpoint-HasClean e row x db h)
            (project_entry-HasClean e row x p db (session_projection-Clean is_count x p k) h))
    ]

-- Appending an event of any type with any payload keeps the stored session, from which the agent's
-- next context is made, free of sponsor keys at every depth.
pub append_event-IsCleanSession :
    (c : Context) (thread_id : Text) (turn_id : Option Text) (event_type : EventType)
    (payload : Json) (x : JournalEvent) (before after : Database)
    → IsCleanSession before.entries
    → append_event c thread_id turn_id event_type payload before ≡ inr (x, after)
    → IsCleanSession after.entries
unfolding append_event insert_event_row
append_event-IsCleanSession c thread_id turn_id event_type payload x before after clean h =
    let event = next_event c thread_id turn_id event_type payload before in
    let inserted = insert_event_row c event before in
    let (refs, same) =
      not_refused (not (is_some (get_thread thread_id before) && turn_is_known turn_id before)) _
        (x, after) foreign_key h in
    subst (λ (r : JournalEvent × Database). IsCleanSession r.1.entries) (inr_inj _ (x, after) same)
      ((project_session_event-HasClean c.encoding c.is_count c.row_id event inserted
        (record { clean = clean })).clean)
