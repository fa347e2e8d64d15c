-- ===== src/Projection/Replay.antt =====
-- The journal against the tables.
use adrouter_agent.Prelude.{
  if◌then◌else◌, Bool-cases, is_some, Text, same_text, same_text_sound, is_empty, ◌+◌, ◌≡◌, ◌∙◌,
  inl, inr, true, false, none, some, [], ◌∷◌, ◌++◌,
}
use adrouter_agent.Database.{Thread, Turn, JournalEvent, Database, max_of, get_thread, get_turn}
use adrouter_agent.Database.Journal.{}
use adrouter_agent.Database.Journal.Sequence.{
  Numbered, Numbered-append, events_of, next_sequence, events_of-append,
}
use adrouter_agent.Projection.{status_of, project_event}
use adrouter_agent.Projection.Maps.{is_shown}
use adrouter_agent.Projection.Events.{projection_of, projection_of-append}

-- Events are numbered from 1 in every thread and belong to threads that exist; where the projection
-- can show the status of a thread it has it, and it has the status of every turn.
pub record IsReplayed (db : Database) : Type 0 where
  pub owned : (j : Text) → get_thread j db ≡ none → events_of j db.events ≡ []
  pub numbered : (j : Text) → Numbered 1 (events_of j db.events)
  pub named : (j : Text) (u : Turn) → get_turn j db ≡ some u → is_empty j ≡ false
  pub threads :
      (j : Text) (t : Thread)
      → get_thread j db ≡ some t
      → is_shown t.status ≡ true
      → (projection_of j db.events).status ≡ t.status
  pub turns :
      (j : Text) (u : Turn)
      → get_turn j db ≡ some u
      → status_of j (projection_of u.thread_id db.events).turns ≡ some u.status

-- One event more, in a thread that exists.
pub record Extends (x : JournalEvent) (before after : Database) : Type 0 where
  pub events : after.events ≡ before.events ++ x ∷ []
  pub sequence :
      x.sequence
      ≡ max_of (λ y. same_text y.thread_id x.thread_id) (λ y. y.sequence) before.events + 1
  pub known : is_some (get_thread x.thread_id after) ≡ true
  pub old : (j : Text) → get_thread j after ≡ none → get_thread j before ≡ none

pub Extends-Numbered :
    (x : JournalEvent) (before after : Database)
    → Extends x before after
    → IsReplayed before
    → (j : Text) → Numbered 1 (events_of j after.events)
Extends-Numbered x before after more good j =
    rw (more.events, events_of-append j before.events x)
      (elim (Bool-cases (same_text x.thread_id j)) [
        | inl e ↦
            let same = same_text_sound x.thread_id j e in
            rw e (
              Numbered-append 1 (events_of j before.events) x (good.numbered j)
                (more.sequence ∙ rw same (next_sequence j before.events (good.numbered j))))
        | inr e ↦ rw e (good.numbered j)
      ])

pub Extends-owned :
    (x : JournalEvent) (before after : Database)
    → Extends x before after
    → IsReplayed before
    → (j : Text) → get_thread j after ≡ none
    → events_of j after.events ≡ []
Extends-owned x before after more good j gone =
    let other : same_text x.thread_id j ≡ false = elim (Bool-cases (same_text x.thread_id j)) [
      | inl e ↦ let same = same_text_sound x.thread_id j e in let known = more.known in absurd (cc)
      | inr e ↦ e
    ] in
    rw (more.events, events_of-append j before.events x, other) (good.owned j (more.old j gone))

-- An event of another kind leaves the projection of every thread.
pub Extends-projection :
    (x : JournalEvent) (before after : Database)
    → Extends x before after
    → (j : Text)
    → projection_of j after.events ≡ (
        if same_text x.thread_id j
        then project_event x (projection_of j before.events)
        else projection_of j before.events)
Extends-projection x before after more j = rw more.events (projection_of-append j before.events x)
