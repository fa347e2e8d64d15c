-- ===== src/Database/Journal/Effects.antt =====
-- What an appended event changes.
use adrouter_agent.Prelude.{
  if◌then◌else◌, Option-cases, is_some, Text, same_text, not_refused, inr_inj, ℕ, ◌≡◌, refl, sym,
  ap, ◌∙◌, inl, inr, Bool, true, false, not, ◌&&◌, Option, [], ◌∷◌, ◌++◌, arith,
}
use adrouter_agent.Json.{Json}
use adrouter_agent.Manifest.{Encoding}
use adrouter_agent.Database.{
  EventType, JournalEvent, Database, foreign_key, update_rows, get_thread,
}
use adrouter_agent.Database.Payloads.{}
use adrouter_agent.Database.Sessions.{Projection, session_projection}
use adrouter_agent.Database.Journal.{
  project_checkpoint, project_entry, project_session_event, Context, timestamp_of, next_event,
  insert_event_row, turn_is_known, append_event,
}

-- The tables that the projection to the session leaves.
pub record Keeps (before after : Database) : Type 0 where
  pub projects : after.projects ≡ before.projects
  pub threads : after.threads ≡ before.threads
  pub turns : after.turns ≡ before.turns
  pub events : after.events ≡ before.events
  pub approvals : after.approvals ≡ before.approvals

Keeps-refl : (db : Database) → Keeps db db
Keeps-refl db = record {
  projects = refl;
  threads = refl;
  turns = refl;
  events = refl;
  approvals = refl;
}

Keeps-if :
    (b : Bool) (before x y : Database)
    → Keeps before x
    → Keeps before y
    → Keeps before (if b then x else y)
Keeps-if true before x y h k = h
Keeps-if false before x y h k = k

project_checkpoint-Keeps :
    (e : Encoding) (row : Text) (x : JournalEvent) (db : Database)
    → Keeps db (project_checkpoint e row x db)
unfolding project_checkpoint
project_checkpoint-Keeps e row x db = elim (Option-cases x.turn_id) [
  | inl h ↦ rw h (Keeps-refl db)
  | inr (turn, h) ↦ rw h (
      Keeps-if _ db _ _ (Keeps-refl db) (
        Keeps-if _ db _ _ (Keeps-refl db) (record {
          projects = refl;
          threads = refl;
          turns = refl;
          events = refl;
          approvals = refl;
        })))
]

project_entry-Keeps :
    (e : Encoding) (row : Text) (x : JournalEvent) (p : Projection) (db : Database)
    → Keeps db (project_entry e row x p db)
unfolding project_entry
project_entry-Keeps e row x p db =
    Keeps-if _ db _ _ (Keeps-refl db)
      (record { projects = refl; threads = refl; turns = refl; events = refl; approvals = refl })

project_session_event-Keeps :
    (e : Encoding) (is_count : ℕ → Bool) (row : Text) (x : JournalEvent) (db : Database)
    → Keeps db (project_session_event e is_count row x db)
unfolding project_session_event
project_session_event-Keeps e is_count row x db =
    elim (Option-cases (session_projection is_count x)) [
      | inl h ↦ rw h (Keeps-if _ db _ _ (project_checkpoint-Keeps e row x db) (Keeps-refl db))
      | inr (p, h) ↦ rw h (
          Keeps-if _ db _ _ (project_checkpoint-Keeps e row x db)
            (project_entry-Keeps e row x p db))
    ]

pub record Appended (c : Context) (id : Text) (turn : Option Text) (event_type : EventType)
    (payload : Json) (x : JournalEvent) (before after : Database) : Type 0 where
  pub known : is_some (get_thread id before) ≡ true
  pub event : x ≡ next_event c id turn event_type payload before
  pub events : after.events ≡ before.events ++ x ∷ []
  pub threads :
      after.threads
      ≡ update_rows
          (λ t. same_text t.id id)
          (λ t. record t { updated_at = timestamp_of c })
          before.threads
  pub turns : after.turns ≡ before.turns
  pub approvals : after.approvals ≡ before.approvals
  pub projects : after.projects ≡ before.projects

pub append_event-Appended :
    (c : Context) (id : Text) (turn : Option Text) (event_type : EventType) (payload : Json)
    (x : JournalEvent) (before after : Database)
    → append_event c id turn event_type payload before ≡ inr (x, after)
    → Appended c id turn event_type payload x before after
unfolding append_event insert_event_row next_event
append_event-Appended c id turn event_type payload x before after h =
    let event = next_event c id turn event_type payload before in
    let inserted = insert_event_row c event before in
    let kept = project_session_event-Keeps c.encoding c.is_count c.row_id event inserted in
    let (refs, same) =
      not_refused (not (is_some (get_thread id before) && turn_is_known turn before)) _ (x, after)
        foreign_key h in
    let pair = inr_inj _ (x, after) same in
    let result = ap (λ r. r.0) pair in
    let state = ap (λ r. r.1) pair in
    record {
      known = ground (arith, refs);
      event = sym result;
      events =
          ap (λ d. d.events) (sym state) ∙ kept.events ∙ ap (λ y. before.events ++ y ∷ []) result;
      threads = ap (λ d. d.threads) (sym state) ∙ kept.threads;
      turns = ap (λ d. d.turns) (sym state) ∙ kept.turns;
      approvals = ap (λ d. d.approvals) (sym state) ∙ kept.approvals;
      projects = ap (λ d. d.projects) (sym state) ∙ kept.projects;
    }
