-- ===== src/Tasks/Children.antt =====
-- The number of delegated children.
use adrouter_agent.Prelude.{
  is_some, length, filter, Text, same_text, not_refused, and_then-inr, inr_inj, ◌+◌, ◌≤◌, ◌≡◌, refl,
  ap, ◌∙◌, inr, Bool, not, ◌&&◌, none, some, List, [], ◌∷◌, ◌++◌, arith,
}
use adrouter_agent.Json.{}
use adrouter_agent.TaskPolicy.{TaskPolicySnapshot, Digest}
use adrouter_agent.Manifest.{}
use adrouter_agent.Manifest.Delegation.{}
use adrouter_agent.Database.{
  thread_idle, thread_status_text, Project, Thread, thread_lifecycle, JournalEvent, Database,
  project_not_found, invalid_policy, invalid_thread, foreign_key, update_rows, found, get_project,
}
use adrouter_agent.Database.Rows.{found-inr}
use adrouter_agent.Database.Journal.{Context, append_event}
use adrouter_agent.Database.Journal.Effects.{Appended}
use adrouter_agent.Database.Threads.{
  ThreadInput, status_payload, thread_is_valid, starting_policy, make_thread, references_exist,
  and_append, create_thread, insert_newest, newest_first, list_threads,
}
use adrouter_agent.Projection.Steps.{and_append-Appended, touched}
use adrouter_agent.Tasks.{is_child_of, owned_delegated_children}

-- What a created thread is, and what is left to see of its creation.
pub record Created (digest : Digest) (c : Context) (id : Text) (input : ThreadInput) (t : Thread)
    (before after : Database) : Type 0 where
  pub project : Project
  pub policy : TaskPolicySnapshot
  pub starts : starting_policy digest c.now project input.policy_snapshot ≡ some policy
  pub made : make_thread c id policy input ≡ t
  pub event : JournalEvent
  pub appended :
      Appended c id none thread_lifecycle
        (status_payload (thread_status_text thread_idle))
        event
        (record before { threads = before.threads ++ make_thread c id policy input ∷ [] })
        after

pub create_thread-Created :
    (digest : Digest) (c : Context) (id : Text) (input : ThreadInput) (t : Thread)
    (before after : Database)
    → create_thread digest c id input before ≡ inr (t, after)
    → Created digest c id input t before after
unfolding create_thread and_append
create_thread-Created digest c id input t before after h =
    let (project, there, k) =
      and_then-inr (found project_not_found (get_project input.project_id before)) _ (t, after) h in
    let (policy, starts, l) =
      and_then-inr
        (found invalid_policy (starting_policy digest c.now project input.policy_snapshot)) _
        (t, after) k in
    let new = make_thread c id policy input in
    let (valid, m) =
      not_refused (not (thread_is_valid c.encoding new)) _ (t, after) invalid_thread l in
    let (refs, n) = not_refused (not (references_exist new before)) _ (t, after) foreign_key m in
    let mid = record before { threads = before.threads ++ new ∷ [] } in
    let (x, appended) = and_append-Appended c id none thread_lifecycle _ new t mid after n in
    let (r, added, o) =
      and_then-inr
        (append_event c id none thread_lifecycle (status_payload (thread_status_text thread_idle))
          mid)
        (λ r. inr (new, r.1)) (t, after) n in
    record {
      project = project;
      policy = policy;
      starts = found-inr invalid_policy _ policy starts;
      made = ap (λ q. q.0) (inr_inj (new, r.1) (t, after) o);
      event = x;
      appended = appended;
    }

length-filter-insert_newest :
    (p : Thread → Bool) (x : Thread) (ys : List Thread)
    → length (filter p (insert_newest x ys)) ≡ length (filter p (x ∷ ys))
unfolding insert_newest
length-filter-insert_newest p x [] = refl
length-filter-insert_newest p x (y ∷ ys) = ground (arith, length-filter-insert_newest p x ys)

length-filter-newest_first :
    (p : Thread → Bool) (xs : List Thread)
    → length (filter p (newest_first xs)) ≡ length (filter p xs)
unfolding newest_first
length-filter-newest_first p [] = refl
length-filter-newest_first p (x ∷ xs) =
    length-filter-insert_newest p x (newest_first xs)
    ∙ ground (arith, length-filter-newest_first p xs)

length-filter-update :
    (p q r : Thread → Bool) (f : Thread → Thread) (xs : List Thread)
    → ((t : Thread) → p (f t) ≡ p t)
    → ((t : Thread) → q (f t) ≡ q t)
    → length (filter p (filter q (update_rows r f xs))) ≡ length (filter p (filter q xs))
unfolding update_rows
length-filter-update p q r f [] keeps_p keeps_q = refl
length-filter-update p q r f (x ∷ xs) keeps_p keeps_q =
    ground (arith, keeps_p x, keeps_q x, length-filter-update p q r f xs keeps_p keeps_q)

length-filter-one : (p q : Thread → Bool) (x : Thread) → length (filter p (filter q (x ∷ []))) ≤ 1
length-filter-one p q x = ground arith

length-filter-append_one :
    (p q : Thread → Bool) (xs : List Thread) (x : Thread)
    → length (filter p (filter q (xs ++ x ∷ []))) ≤ length (filter p (filter q xs)) + 1
length-filter-append_one p q [] x = length-filter-one p q x
length-filter-append_one p q (y ∷ ys) x = ground (arith, length-filter-append_one p q ys x)

-- A creation adds at most one to the children of any task.
pub owned_delegated_children_created :
    (digest : Digest) (c : Context) (id : Text) (input : ThreadInput) (t : Thread)
    (before after : Database) (parent project : Text)
    → create_thread digest c id input before ≡ inr (t, after)
    → length (owned_delegated_children parent project after)
      ≤ length (owned_delegated_children parent project before) + 1
unfolding owned_delegated_children list_threads
owned_delegated_children_created digest c id input t before after parent project h =
    let made = create_thread-Created digest c id input t before after h in
    let listed = λ (u : Thread). same_text u.project_id project && not (is_some u.archived_at) in
    let owned = is_child_of parent in
    let new = make_thread c id made.policy input in
    let counted =
      ap (λ l. length (filter owned (filter listed l))) made.appended.threads
      ∙ length-filter-update owned listed (λ u. same_text u.id id) (touched c)
          (before.threads ++ new ∷ []) (λ u. refl) (λ u. refl) in
    omega (
      arith,
      length-filter-newest_first owned (filter listed after.threads),
      length-filter-newest_first owned (filter listed before.threads),
      counted,
      length-filter-append_one owned listed before.threads new,
    )
