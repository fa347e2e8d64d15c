-- ===== src/Projection/Creation.antt =====
-- A new thread and a new turn keep the journal and the tables together.
use adrouter_agent.Prelude.{
  if◌then◌else◌, Text, same_text, not_refused, and_then-inr, ◌≡◌, refl, sym, ap, ◌∙◌, inl, inr, not,
  none, some, [], ◌∷◌, ◌++◌,
}
use adrouter_agent.Json.{}
use adrouter_agent.TaskPolicy.{Digest}
use adrouter_agent.Database.{
  thread_idle, Thread, thread_lifecycle, Database, project_not_found, invalid_policy,
  invalid_thread, foreign_key, found, get_project, get_thread, get_turn,
}
use adrouter_agent.Database.Payloads.{}
use adrouter_agent.Database.Journal.{Context}
use adrouter_agent.Database.Journal.Sequence.{}
use adrouter_agent.Database.Journal.Effects.{}
use adrouter_agent.Database.Threads.{
  ThreadInput, thread_is_valid, starting_policy, make_thread, references_exist, create_thread,
}
use adrouter_agent.Database.Turns.{}
use adrouter_agent.Projection.{}
use adrouter_agent.Projection.Maps.{is_shown}
use adrouter_agent.Projection.Events.{project_event-thread}
use adrouter_agent.Database.Rows.{if_none, if_some, by_key-append}
use adrouter_agent.Projection.Replay.{IsReplayed, Extends-Numbered, Extends-owned}
use adrouter_agent.Projection.Carried.{thread_set, turns_kept}
use adrouter_agent.Projection.Steps.{
  and_append-Appended, Appended-thread_id, Appended-Extends, get_turn-Appended, Appended-thread,
}

get_thread_append :
    (j : Text) (t : Thread) (db : Database)
    → get_thread t.id db ≡ none
    → get_thread j (record db { threads = db.threads ++ t ∷ [] })
      ≡ (if same_text t.id j then some t else get_thread j db)
unfolding get_thread
get_thread_append j t db fresh = by_key-append (λ t. t.id) j db.threads t fresh

pub create_thread-IsReplayed :
    (digest : Digest) (c : Context) (id : Text) (input : ThreadInput) (t : Thread)
    (before after : Database)
    → get_thread id before ≡ none
    → create_thread digest c id input before ≡ inr (t, after)
    → IsReplayed before
    → IsReplayed after
unfolding create_thread get_turn make_thread is_shown
create_thread-IsReplayed digest c id input t before after fresh h good =
    let (project, there, k) =
      and_then-inr (found project_not_found (get_project input.project_id before)) _ (t, after) h in
    let (policy, made, l) =
      and_then-inr
        (found invalid_policy (starting_policy digest c.now project input.policy_snapshot)) _
        (t, after) k in
    let new = make_thread c id policy input in
    let (valid, m) =
      not_refused (not (thread_is_valid c.encoding new)) _ (t, after) invalid_thread l in
    let (refs, n) = not_refused (not (references_exist new before)) _ (t, after) foreign_key m in
    let mid = record before { threads = before.threads ++ new ∷ [] } in
    let (x, more) = and_append-Appended c id none thread_lifecycle _ new t mid after n in
    let extends =
      Appended-Extends c id none thread_lifecycle _ x before mid after more refl (λ j gone.
        if_none (same_text id j) new (get_thread j before)
          (sym (get_thread_append j new before fresh) ∙ gone)) in
    let thread = Appended-thread_id c id none thread_lifecycle _ x mid after more in
    let same_turns = get_turn-Appended c id none thread_lifecycle _ x mid after more in
    record {
      owned = Extends-owned x before after extends good;
      numbered = Extends-Numbered x before after extends good;
      named = λ j u h. good.named j u (sym (same_turns j) ∙ h);
      threads =
          thread_set x before after extends good thread_idle
            (λ p shown.
              rw more.event (ap (λ q. q.status) (project_event-thread c id thread_idle _ p)))
            (λ j t h.
              let (r, there, status) =
                Appended-thread c id none thread_lifecycle _ x mid after more j t h in
              elim (if_some (same_text id j) new (get_thread j before) r
                (sym (get_thread_append j new before fresh) ∙ there)) [
                  | inl (e, same) ↦ inl (rw thread e, sym status ∙ ap (λ y. y.status) (sym same))
                  | inr (e, same) ↦ inr (rw thread e, (r, same, status))
                ]);
      turns =
          turns_kept x before after extends good
            (λ p. rw more.event (ap (λ q. q.turns) (project_event-thread c id thread_idle _ p)))
            same_turns;
    }
