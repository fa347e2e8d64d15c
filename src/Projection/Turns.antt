-- ===== src/Projection/Turns.antt =====
-- The operations on turns keep the journal and the tables together.
use adrouter_agent.Prelude.{
  if◌then◌else◌, Text, same_text, same_text_sound, is_empty, and_then-inr, ◌≡◌, refl, sym, ap, ◌∙◌,
  ◌⊎◌, inl, inr, Bool, true, false, Option, none, some, [], ◌∷◌, ◌++◌,
}
use adrouter_agent.Json.{}
use adrouter_agent.TaskPolicy.{}
use adrouter_agent.Database.{
  TurnStatus, turn_queued, ThinkingLevel, TurnKind, Turn, turn_lifecycle, Database,
  thread_not_found, turn_not_found, update_rows, found, get_thread, get_turn,
}
use adrouter_agent.Database.Payloads.{}
use adrouter_agent.Database.Journal.{Context}
use adrouter_agent.Database.Journal.Sequence.{}
use adrouter_agent.Database.Journal.Effects.{}
use adrouter_agent.Database.Threads.{}
use adrouter_agent.Database.Turns.{make_turn, create_turn, with_status, update_turn_status}
use adrouter_agent.Projection.{}
use adrouter_agent.Projection.Maps.{}
use adrouter_agent.Projection.Events.{project_event-turn, project_event-new_turn}
use adrouter_agent.Database.Rows.{
  change, change-some, if_some, by_key-append, by_key-update, found-inr, some_inj,
}
use adrouter_agent.Projection.Replay.{IsReplayed, Extends-Numbered, Extends-owned}
use adrouter_agent.Projection.Carried.{threads_kept, turn_set}
use adrouter_agent.Projection.Steps.{
  and_append-Appended, Appended-thread_id, Appended-Extends, get_turn-Appended, Appended-thread,
}

get_turn_append :
    (j : Text) (u : Turn) (db : Database)
    → get_turn u.id db ≡ none
    → get_turn j (record db { turns = db.turns ++ u ∷ [] })
      ≡ (if same_text u.id j then some u else get_turn j db)
unfolding get_turn
get_turn_append j u db fresh = by_key-append (λ t. t.id) j db.turns u fresh

pub get_turn_update :
    (i j : Text) (f : Turn → Turn) (db : Database)
    → ((t : Turn) → (f t).id ≡ t.id)
    → get_turn j (record db { turns = update_rows (λ t. same_text t.id i) f db.turns })
      ≡ change (λ t. if same_text i j then f t else t) (get_turn j db)
unfolding get_turn
get_turn_update i j f db keeps = by_key-update (λ t. t.id) f keeps i j db.turns

pub create_turn-IsReplayed :
    (c : Context) (id thread_id input : Text) (model : Option Text) (level : Option ThinkingLevel)
    (kind : TurnKind) (u : Turn) (before after : Database)
    → get_turn id before ≡ none
    → is_empty id ≡ false
    → create_turn c id thread_id input model level kind before ≡ inr (u, after)
    → IsReplayed before
    → IsReplayed after
unfolding create_turn make_turn get_thread
create_turn-IsReplayed c id thread_id input model level kind u before after fresh is_named h good =
    let (owner, there, k) =
      and_then-inr (found thread_not_found (get_thread thread_id before)) _ (u, after) h in
    let new = record (make_turn c id owner input model level kind) { thread_id = thread_id } in
    let mid = record before { turns = before.turns ++ new ∷ [] } in
    let (x, more) = and_append-Appended c thread_id (some id) turn_lifecycle _ new u mid after k in
    let extends =
      Appended-Extends c thread_id (some id) turn_lifecycle _ x before mid after more refl
        (λ j gone. gone) in
    let thread = Appended-thread_id c thread_id (some id) turn_lifecycle _ x mid after more in
    let turn_cases = λ (j : Text) (v : Turn) (h : get_turn j after ≡ some v).
      if_some (same_text id j) new (get_turn j before) v (
        sym (get_turn_append j new before fresh)
        ∙ sym (get_turn-Appended c thread_id (some id) turn_lifecycle _ x mid after more j)
        ∙ h) in
    record {
      owned = Extends-owned x before after extends good;
      numbered = Extends-Numbered x before after extends good;
      named = λ j v h. elim (turn_cases j v h) [
        | inl (e, same) ↦ rw (sym (same_text_sound id j e)) is_named
        | inr (e, same) ↦ good.named j v same
      ];
      threads =
          threads_kept x before after extends good
            (λ p.
              rw more.event (
                ap (λ q. q.status)
                  (project_event-new_turn c thread_id id turn_queued _ p is_named)))
            (Appended-thread c thread_id (some id) turn_lifecycle _ x mid after more);
      turns =
          turn_set x before after extends good id turn_queued
            (λ p.
              rw more.event (
                ap (λ q. q.turns) (project_event-new_turn c thread_id id turn_queued _ p is_named)))
            (λ j v h. elim (turn_cases j v h) [
              | inl (e, same) ↦
                  inl (e, thread ∙ ap (λ y. y.thread_id) same, ap (λ y. y.status) (sym same))
              | inr (e, same) ↦ inr (e, (v, same, refl, refl))
            ]);
    }

turn_changed :
    (b : Bool) (s : TurnStatus) (f : Turn → Turn)
    → ((y : Turn) → ((f y).status ≡ s) × ((f y).thread_id ≡ y.thread_id))
    → (v u : Turn) → (if b then f v else v) ≡ u
    → (v.thread_id ≡ u.thread_id)
      × (((b ≡ true) × (u.status ≡ s)) ⊎ ((b ≡ false) × (v.status ≡ u.status)))
turn_changed true s f sets v u same = (
  sym ((sets v).1) ∙ ap (λ y. y.thread_id) same,
  inl (refl, ap (λ y. y.status) (sym same) ∙ (sets v).0),
)
turn_changed false s f sets v u same =
    (ap (λ y. y.thread_id) same, inr (refl, ap (λ y. y.status) same))

pub update_turn_status-IsReplayed :
    (c : Context) (id : Text) (s : TurnStatus) (error : Option Text) (u : Turn)
    (before after : Database)
    → update_turn_status c id s error before ≡ inr (u, after)
    → IsReplayed before
    → IsReplayed after
unfolding update_turn_status get_thread with_status
update_turn_status-IsReplayed c id s error u before after h good =
    let (seen, there, k) =
      and_then-inr (found turn_not_found (get_turn id before)) _ (u, after) h in
    let set = with_status c seen s error in
    let mid = record before { turns = update_rows (λ t. same_text t.id id) set before.turns } in
    let event = turn_lifecycle in
    let (x, more) =
      and_append-Appended c seen.thread_id (some id) event _ (set seen) u mid after k in
    let extends =
      Appended-Extends c seen.thread_id (some id) event _ x before mid after more refl
        (λ j gone. gone) in
    let thread = Appended-thread_id c seen.thread_id (some id) event _ x mid after more in
    let seen_there = found-inr turn_not_found (get_turn id before) seen there in
    let is_named = good.named id seen seen_there in
    let behind = λ (j : Text) (v : Turn) (h : get_turn j after ≡ some v).
      change-some _ (get_turn j before) v (
        sym (get_turn_update id j set before (λ t. refl))
        ∙ sym (get_turn-Appended c seen.thread_id (some id) event _ x mid after more j)
        ∙ h) in
    record {
      owned = Extends-owned x before after extends good;
      numbered = Extends-Numbered x before after extends good;
      named = λ j v h. let (w, found_w, same) = behind j v h in good.named j w found_w;
      threads =
          threads_kept x before after extends good
            (λ p.
              rw more.event
                (ap (λ q. q.status) (project_event-turn c seen.thread_id id s error _ p is_named)))
            (Appended-thread c seen.thread_id (some id) event _ x mid after more);
      turns =
          turn_set x before after extends good id s
            (λ p.
              rw more.event
                (ap (λ q. q.turns) (project_event-turn c seen.thread_id id s error _ p is_named)))
            (λ j v h.
              let (w, found_w, same) = behind j v h in
              let (owner, changed) =
                turn_changed (same_text id j) s set (λ y. (refl, refl)) w v same in
              elim changed [
                | inl (e, status) ↦
                    let is_seen : w ≡ seen = some_inj w seen (
                      sym found_w
                      ∙ ap (λ i. get_turn i before) (sym (same_text_sound id j e))
                      ∙ seen_there) in
                    inl (e, thread ∙ ap (λ y. y.thread_id) (sym is_seen) ∙ owner, status)
                | inr (e, status) ↦ inr (e, (w, found_w, owner, status))
              ]);
    }
