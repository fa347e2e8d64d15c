-- ===== src/Projection/Tables.antt =====
-- Operations that write one table.
use adrouter_agent.Prelude.{
  if◌then◌else◌, Text, same_text, ◌≡◌, refl, sym, ap, ◌∙◌, inr, Bool, true, false, Option,
}
use adrouter_agent.Json.{Json}
use adrouter_agent.TaskPolicy.{}
use adrouter_agent.Database.{Thread, EventType, JournalEvent, Database, get_thread, get_turn}
use adrouter_agent.Database.Payloads.{}
use adrouter_agent.Database.Journal.{Context, next_event, append_event}
use adrouter_agent.Database.Journal.Sequence.{}
use adrouter_agent.Database.Journal.Effects.{append_event-Appended}
use adrouter_agent.Database.Threads.{set_thread}
use adrouter_agent.Database.Turns.{}
use adrouter_agent.Projection.{}
use adrouter_agent.Projection.Maps.{}
use adrouter_agent.Projection.Events.{is_lifecycle, project_event-other}
use adrouter_agent.Database.Rows.{change-some, change-none}
use adrouter_agent.Projection.Replay.{IsReplayed, Extends-Numbered, Extends-owned}
use adrouter_agent.Projection.Carried.{threads_kept, turns_kept}
use adrouter_agent.Projection.Steps.{
  Appended-Extends, get_turn-Appended, Appended-thread, get_thread_set,
}

pub set_thread-IsReplayed :
    (id : Text) (f : Thread → Thread) (db : Database)
    → ((t : Thread) → ((f t).id ≡ t.id) × ((f t).status ≡ t.status))
    → IsReplayed db
    → IsReplayed (set_thread id f db)
unfolding get_turn
set_thread-IsReplayed id f db keeps good =
    let behind = λ (j : Text). get_thread_set id j f db (λ t. (keeps t).0) in
    record {
      owned = λ j gone. good.owned j (change-none _ (get_thread j db) (sym (behind j) ∙ gone));
      numbered = good.numbered;
      named = good.named;
      threads = λ j t h shown.
          let (s, there, same) = change-some _ (get_thread j db) t (sym (behind j) ∙ h) in
          let status = kept_status (same_text id j) f s t ((keeps s).1) same in
          good.threads j s there (rw status shown) ∙ status;
      turns = good.turns;
    }
  where
    kept_status :
        (b : Bool) (f : Thread → Thread) (s t : Thread)
        → (f s).status ≡ s.status
        → (if b then f s else s) ≡ t
        → s.status ≡ t.status
    kept_status true f s t kept same = sym kept ∙ ap (λ y. y.status) same
    kept_status false f s t kept same = ap (λ y. y.status) same

pub append_event-IsReplayed :
    (c : Context) (id : Text) (turn : Option Text) (event_type : EventType) (payload : Json)
    (x : JournalEvent) (before after : Database)
    → is_lifecycle event_type ≡ false
    → append_event c id turn event_type payload before ≡ inr (x, after)
    → IsReplayed before
    → IsReplayed after
unfolding next_event
append_event-IsReplayed c id turn event_type payload x before after other h good =
    let more = append_event-Appended c id turn event_type payload x before after h in
    let extends =
      Appended-Extends c id turn event_type payload x before before after more refl
        (λ j gone. gone) in
    let same_turns = get_turn-Appended c id turn event_type payload x before after more in
    let silent : is_lifecycle x.event_type ≡ false =
      ap (λ y. is_lifecycle y.event_type) more.event ∙ other in
    record {
      owned = Extends-owned x before after extends good;
      numbered = Extends-Numbered x before after extends good;
      named = λ j u h. good.named j u (sym (same_turns j) ∙ h);
      threads =
          threads_kept x before after extends good (λ p. (project_event-other x p silent).0)
            (Appended-thread c id turn event_type payload x before after more);
      turns =
          turns_kept x before after extends good (λ p. (project_event-other x p silent).1)
            same_turns;
    }
