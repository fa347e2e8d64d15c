-- ===== src/Projection/Steps.antt =====
-- The operations on threads keep the journal and the tables together.
use adrouter_agent.Prelude.{
  if◌then◌else◌, Option-cases, Text, same_text, and_then-inr, inr_inj, ◌≡◌, refl, sym, ap, ◌∙◌, ◌⊎◌,
  inl, inr, Bool, true, false, Option, none, some, [], ◌∷◌, ◌++◌,
}
use adrouter_agent.Json.{Json}
use adrouter_agent.TaskPolicy.{}
use adrouter_agent.Database.{
  ThreadStatus, Thread, EventType, thread_lifecycle, JournalEvent, Database, thread_not_found,
  found, get_thread, get_turn,
}
use adrouter_agent.Database.Payloads.{}
use adrouter_agent.Database.Journal.{Context, timestamp_of, next_event, append_event}
use adrouter_agent.Database.Journal.Effects.{Appended, append_event-Appended}
use adrouter_agent.Database.Threads.{and_append, set_thread, update_thread_status}
use adrouter_agent.Projection.{ThreadProjection}
use adrouter_agent.Projection.Maps.{is_shown}
use adrouter_agent.Projection.Events.{project_event-thread}
use adrouter_agent.Database.Rows.{change, change-some, change-none, by_key-update}
use adrouter_agent.Projection.Replay.{IsReplayed, Extends, Extends-Numbered, Extends-owned}
use adrouter_agent.Projection.Carried.{WasThread, thread_set, turns_kept}

pub and_append-Appended :
    {A : Type 0} (c : Context) (id : Text) (turn : Option Text) (event_type : EventType)
    (payload : Json) (a b : A) (mid after : Database)
    → and_append c id turn event_type payload a mid ≡ inr (b, after)
    → (x : JournalEvent) × Appended c id turn event_type payload x mid after
unfolding and_append
and_append-Appended c id turn event_type payload a b mid after h =
    let (r, appended, k) =
      and_then-inr (append_event c id turn event_type payload mid) (λ r. inr (a, r.1)) (b, after)
        h in
    let state = ap (λ p. p.1) (inr_inj (a, r.1) (b, after) k) in
    (
      r.0,
      append_event-Appended c id turn event_type payload r.0 mid after
          (appended ∙ ap (λ d. inr (r.0, d)) state),
    )

abbrev pub touched : Context → Thread → Thread
touched c t = record t { updated_at = timestamp_of c }

-- The threads behind an appended event.
pub get_thread-Appended :
    (c : Context) (id : Text) (turn : Option Text) (event_type : EventType) (payload : Json)
    (x : JournalEvent) (mid after : Database)
    → Appended c id turn event_type payload x mid after
    → (j : Text)
    → get_thread j after
      ≡ change (λ t. if same_text id j then touched c t else t) (get_thread j mid)
unfolding get_thread
get_thread-Appended c id turn event_type payload x mid after more j =
    rw more.threads (by_key-update (λ t. t.id) (touched c) (λ t. refl) id j mid.threads)

pub Appended-thread_id :
    (c : Context) (id : Text) (turn : Option Text) (event_type : EventType) (payload : Json)
    (x : JournalEvent) (mid after : Database)
    → Appended c id turn event_type payload x mid after
    → x.thread_id ≡ id
unfolding next_event
Appended-thread_id c id turn event_type payload x mid after more = ap (λ y. y.thread_id) more.event

pub Appended-Extends :
    (c : Context) (id : Text) (turn : Option Text) (event_type : EventType) (payload : Json)
    (x : JournalEvent) (before mid after : Database)
    → Appended c id turn event_type payload x mid after
    → mid.events ≡ before.events
    → ((j : Text) → get_thread j mid ≡ none → get_thread j before ≡ none)
    → Extends x before after
unfolding next_event
Appended-Extends c id turn event_type payload x before mid after more same old =
    let thread = Appended-thread_id c id turn event_type payload x mid after more in
    record {
      events = more.events ∙ ap (λ l. l ++ x ∷ []) same;
      sequence = ap (λ y. y.sequence) more.event ∙ rw (thread, same) refl;
      known = rw thread (elim (Option-cases (get_thread id mid)) [
        | inl e ↦ let known = more.known in absurd (cc)
        | inr (t, e) ↦
            rw (get_thread-Appended c id turn event_type payload x mid after more id, e) refl
      ]);
      old = λ j gone. old j (
          change-none _ (get_thread j mid)
            (sym (get_thread-Appended c id turn event_type payload x mid after more j) ∙ gone));
    }

pub get_turn-Appended :
    (c : Context) (id : Text) (turn : Option Text) (event_type : EventType) (payload : Json)
    (x : JournalEvent) (mid after : Database)
    → Appended c id turn event_type payload x mid after
    → (j : Text) → get_turn j after ≡ get_turn j mid
unfolding get_turn
get_turn-Appended c id turn event_type payload x mid after more j = rw more.turns refl

status_touched :
    (b : Bool) (c : Context) (t : Thread) → (if b then touched c t else t).status ≡ t.status
status_touched true c t = refl
status_touched false c t = refl

-- The row behind a row that an appended event has touched.
pub Appended-thread :
    (c : Context) (id : Text) (turn : Option Text) (event_type : EventType) (payload : Json)
    (x : JournalEvent) (mid after : Database)
    → Appended c id turn event_type payload x mid after
    → (j : Text) (t : Thread) → get_thread j after ≡ some t
    → WasThread mid j t
Appended-thread c id turn event_type payload x mid after more j t h =
    let (r, there, same) =
      change-some _ (get_thread j mid) t
        (sym (get_thread-Appended c id turn event_type payload x mid after more j) ∙ h) in
    (r, there, sym (status_touched (same_text id j) c r) ∙ ap (λ y. y.status) same)

pub get_thread_set :
    (id j : Text) (f : Thread → Thread) (db : Database)
    → ((t : Thread) → (f t).id ≡ t.id)
    → get_thread j (set_thread id f db)
      ≡ change (λ t. if same_text id j then f t else t) (get_thread j db)
unfolding get_thread
get_thread_set id j f db keeps = by_key-update (λ t. t.id) f keeps id j db.threads

turns_if :
    (b : Bool) (s : ThreadStatus) (p : ThreadProjection)
    → (if b then record p { status = s } else p).turns ≡ p.turns
turns_if true s p = refl
turns_if false s p = refl

set_cases :
    (b : Bool) (s : ThreadStatus) (f : Thread → Thread)
    → ((y : Thread) → (f y).status ≡ s)
    → (v r t : Thread) → (if b then f v else v) ≡ r
    → r.status ≡ t.status
    → ((b ≡ true) × (t.status ≡ s)) ⊎ ((b ≡ false) × (v.status ≡ t.status))
set_cases true s f sets v r t same status =
    inl (refl, sym status ∙ ap (λ y. y.status) (sym same) ∙ sets v)
set_cases false s f sets v r t same status = inr (refl, ap (λ y. y.status) same ∙ status)

pub update_thread_status-IsReplayed :
    (c : Context) (id : Text) (s : ThreadStatus) (t : Thread) (before after : Database)
    → update_thread_status c id s before ≡ inr (t, after)
    → IsReplayed before
    → IsReplayed after
unfolding update_thread_status get_turn
update_thread_status-IsReplayed c id s t before after h good =
    let (row, there, k) =
      and_then-inr (found thread_not_found (get_thread id before)) _ (t, after) h in
    let (x, more) = and_append-Appended c id none thread_lifecycle _ _ t _ after k in
    let thread =
      Appended-thread_id c id none thread_lifecycle _ x (set_thread id _ before) after more in
    let same_turns =
      get_turn-Appended c id none thread_lifecycle _ x (set_thread id _ before) after more in
    let set = λ (t : Thread). record t { status = s; updated_at = timestamp_of c } in
    let extends =
      Appended-Extends c id none thread_lifecycle _ x before (set_thread id set before) after more
        refl
        (λ j gone.
          change-none _ (get_thread j before)
            (sym (get_thread_set id j set before (λ t. refl)) ∙ gone)) in
    record {
      owned = Extends-owned x before after extends good;
      numbered = Extends-Numbered x before after extends good;
      named = λ j u h. good.named j u (sym (same_turns j) ∙ h);
      threads =
          thread_set x before after extends good s
            (λ p shown.
              rw more.event (ap (λ q. q.status) (project_event-thread c id s _ p) ∙ rw shown refl))
            (λ j t h.
              let (r, there, status) =
                Appended-thread c id none thread_lifecycle _ x (set_thread id set before) after more
                  j t h in
              let (v, found_v, same) =
                change-some _ (get_thread j before) r
                  (sym (get_thread_set id j set before (λ t. refl)) ∙ there) in
              elim (set_cases (same_text id j) s set (λ y. refl) v r t same status) [
                | inl (e, k) ↦ inl (rw thread e, k)
                | inr (e, k) ↦ inr (rw thread e, (v, found_v, k))
              ]);
      turns =
          turns_kept x before after extends good
            (λ p.
              rw more.event
                (ap (λ q. q.turns) (project_event-thread c id s _ p) ∙ turns_if (is_shown s) s p))
            same_turns;
    }
