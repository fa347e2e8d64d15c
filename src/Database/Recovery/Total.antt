-- ===== src/Database/Recovery/Total.antt =====
-- The recovery goes through.
use mathlib.Core.List.{append_assoc}
use adrouter_agent.Prelude.{
  if◌then◌else◌, Bool-cases, is_some, filter, All, Text, same_text, same_text_refl, and_then-inr, ℕ,
  suc, ◌≡◌, refl, sym, ap, subst, ◌∙◌, inl, inr, Bool, true, false, not, Option, none, some, List,
  [], ◌∷◌, ◌++◌, map,
}
use adrouter_agent.Json.{Json}
use adrouter_agent.Manifest.{}
use adrouter_agent.Database.{
  ThreadStatus, thread_interrupted, TurnStatus, turn_interrupted, thread_status_text, Thread, Turn,
  EventType, thread_lifecycle, turn_lifecycle, Database, turn_not_found, find_row, update_rows,
  found, get_thread, get_turn,
}
use adrouter_agent.Database.Rows.{change, change-some, by_key}
use adrouter_agent.Database.Journal.{
  project_session_event, Context, timestamp_of, next_event, insert_event_row, turn_is_known,
  append_event,
}
use adrouter_agent.Database.Journal.Effects.{}
use adrouter_agent.Database.Threads.{status_payload, and_append, set_thread, update_thread_status}
use adrouter_agent.Database.Turns.{is_terminal, turn_payload, with_status, update_turn_status}
use adrouter_agent.Database.Recovery.{
  recovery_error, interrupt_turns, deny_for_turns, distinct, is_busy_thread, interrupt_threads,
  recover_interrupted_runs,
}
use adrouter_agent.Database.Recovery.Laws.{recover_interrupted_runs-Finished}
use adrouter_agent.Projection.Steps.{
  and_append-Appended, get_thread-Appended, get_turn-Appended, get_thread_set,
}
use adrouter_agent.Projection.Turns.{get_turn_update}

-- The reference of every turn to its thread, which the tables enforce.
abbrev pub IsOwned : Database → Type 0
IsOwned db =
    (j : Text) (u : Turn) → get_turn j db ≡ some u → is_some (get_thread u.thread_id db) ≡ true

and_append_total :
    {A : Type 0} (c : Context) (id : Text) (turn : Option Text) (event_type : EventType)
    (payload : Json) (a : A) (db : Database)
    → is_some (get_thread id db) ≡ true
    → turn_is_known turn db ≡ true
    → (after : Database) × (and_append c id turn event_type payload a db ≡ inr (a, after))
unfolding and_append append_event
and_append_total c id turn event_type payload a db thread known =
    let event = next_event c id turn event_type payload db in
    (
      project_session_event c.encoding c.is_count c.row_id event (insert_event_row c event db),
      rw (thread, known) refl,
    )

change_known {ℓ} : {A : Type ℓ} (f : A → A) (o : Option A) → is_some (change f o) ≡ is_some o
change_known f none = refl
change_known f (some a) = refl

some-of_known {ℓ} : {A : Type ℓ} (o : Option A) → is_some o ≡ true → (a : A) × (o ≡ some a)
some-of_known none h = cc
some-of_known (some a) h = (a, refl)

update_turn_status_total :
    (c : Context) (id : Text) (s : TurnStatus) (error : Option Text) (db : Database)
    → is_some (get_turn id db) ≡ true
    → IsOwned db
    → (r : Turn × Database) × (update_turn_status c id s error db ≡ inr r)
unfolding update_turn_status get_thread with_status
update_turn_status_total c id s error db known owned =
    let (seen, there) = some-of_known (get_turn id db) known in
    let set = with_status c seen s error in
    let mid = record db { turns = update_rows (λ t. same_text t.id id) set db.turns } in
    let known_mid =
      ap is_some (get_turn_update id id set db (λ t. refl))
      ∙ change_known _ (get_turn id db)
      ∙ known in
    let (after, appended) =
      and_append_total c seen.thread_id (some id) turn_lifecycle (turn_payload s error) (set seen)
        mid (owned id seen there) known_mid in
    ((set seen, after), rw there appended)

-- The threads stay, and the turns with their owners.
update_turn_status_kept :
    (c : Context) (id : Text) (s : TurnStatus) (error : Option Text) (u : Turn)
    (before after : Database)
    → update_turn_status c id s error before ≡ inr (u, after)
    → ((j : Text) → is_some (get_turn j after) ≡ is_some (get_turn j before))
      × (IsOwned before → IsOwned after)
unfolding update_turn_status get_thread with_status
update_turn_status_kept c id s error u before after h =
    let (seen, there, k) =
      and_then-inr (found turn_not_found (get_turn id before)) _ (u, after) h in
    let set = with_status c seen s error in
    let mid = record before { turns = update_rows (λ t. same_text t.id id) set before.turns } in
    let (x, more) =
      and_append-Appended c seen.thread_id (some id) turn_lifecycle _ (set seen) u mid after k in
    let turns = λ (j : Text).
      get_turn-Appended c seen.thread_id (some id) turn_lifecycle _ x mid after more j
      ∙ get_turn_update id j set before (λ t. refl) in
    (
      λ j. ap is_some (turns j) ∙ change_known _ (get_turn j before),
      λ owned j v found_v.
          let (w, found_w, same) = change-some _ (get_turn j before) v (sym (turns j) ∙ found_v) in
          let owner = same_owner (same_text id j) set w v (λ y. refl) same in
          ap is_some (
            get_thread-Appended c seen.thread_id (some id) turn_lifecycle _ x mid after more
              v.thread_id)
          ∙ change_known _ (get_thread v.thread_id mid)
          ∙ ap (λ i. is_some (get_thread i before)) (sym owner)
          ∙ owned j w found_w,
    )
  where
    same_owner :
        (b : Bool) (f : Turn → Turn) (w v : Turn)
        → ((y : Turn) → (f y).thread_id ≡ y.thread_id)
        → (if b then f w else w) ≡ v
        → w.thread_id ≡ v.thread_id
    same_owner true f w v keeps same = sym (keeps w) ∙ ap (λ y. y.thread_id) same
    same_owner false f w v keeps same = ap (λ y. y.thread_id) same

abbrev AreKnown : Database → List Turn → Type 0
AreKnown db rows = All (λ t. is_some (get_turn t.id db) ≡ true) rows

AreKnown-kept :
    (before after : Database) (rows : List Turn)
    → ((j : Text) → is_some (get_turn j after) ≡ is_some (get_turn j before))
    → AreKnown before rows
    → AreKnown after rows
AreKnown-kept before after [] same h = tt
AreKnown-kept before after (t ∷ rows) same h =
    (same t.id ∙ h.0, AreKnown-kept before after rows same h.1)

interrupt_turns_total :
    (c : ℕ → Context) (rows : List Turn) (db : Database)
    → AreKnown db rows
    → IsOwned db
    → (r : List Turn × Database) × (interrupt_turns c rows db ≡ inr r)
unfolding interrupt_turns
interrupt_turns_total c [] db known owned = (([], db), refl)
interrupt_turns_total c (row ∷ rows) db known owned =
    let error = some recovery_error in
    let (r, updated) =
      update_turn_status_total (c 0) row.id turn_interrupted error db known.0 owned in
    let (same, stays) =
      update_turn_status_kept (c 0) row.id turn_interrupted error r.0 db r.1 updated in
    let (rest, later) =
      interrupt_turns_total (λ n. c (suc n)) rows r.1 (AreKnown-kept db r.1 rows same known.1)
        (stays owned) in
    ((r.0 ∷ rest.0, rest.1), rw (updated, later) refl)

update_thread_status_total :
    (c : Context) (id : Text) (s : ThreadStatus) (db : Database)
    → is_some (get_thread id db) ≡ true
    → (r : Thread × Database) × (update_thread_status c id s db ≡ inr r)
unfolding update_thread_status
update_thread_status_total c id s db known =
    let (row, there) = some-of_known (get_thread id db) known in
    let set = λ (t : Thread). record t { status = s; updated_at = timestamp_of c } in
    let known_mid =
      ap is_some (get_thread_set id id set db (λ t. refl))
      ∙ change_known _ (get_thread id db)
      ∙ known in
    let (after, appended) =
      and_append_total c id none thread_lifecycle (status_payload (thread_status_text s)) (set row)
        (set_thread id set db) known_mid refl in
    ((set row, after), rw there appended)

busy_known : (o : Option Thread) → is_busy_thread o ≡ true → is_some o ≡ true
busy_known none h = cc
busy_known (some t) h = refl

interrupt_threads_total :
    (c : ℕ → Context) (ids : List Text) (db : Database)
    → (after : Database) × (interrupt_threads c ids db ≡ inr after)
unfolding interrupt_threads
interrupt_threads_total c [] db = (db, refl)
interrupt_threads_total c (id ∷ ids) db = elim (Bool-cases (is_busy_thread (get_thread id db))) [
  | inl e ↦
      let known = busy_known (get_thread id db) e in
      let (r, updated) = update_thread_status_total (c 0) id thread_interrupted db known in
      let (after, later) = interrupt_threads_total (λ n. c (suc n)) ids r.1 in
      (after, rw (e, updated) later)
  | inr e ↦
      let (after, later) = interrupt_threads_total (λ n. c (suc n)) ids db in (after, rw e later)
]

AreKnown-filter :
    (p : Turn → Bool) (db : Database) (rows : List Turn)
    → AreKnown db rows
    → AreKnown db (filter p rows)
AreKnown-filter p db [] h = tt
AreKnown-filter p db (t ∷ rows) h = elim (Bool-cases (p t)) [
  | inl e ↦ rw e (h.0, AreKnown-filter p db rows h.1)
  | inr e ↦ rw e (AreKnown-filter p db rows h.1)
]

found_behind :
    (front rows : List Turn) (t : Turn)
    → is_some (by_key (λ u. u.id) t.id (front ++ t ∷ rows)) ≡ true
unfolding find_row
found_behind [] rows t = rw (same_text_refl t.id) refl
found_behind (u ∷ front) rows t = elim (Bool-cases (same_text u.id t.id)) [
  | inl e ↦ rw e refl
  | inr e ↦ rw e (found_behind front rows t)
]

-- Rows are found by their ids, the first with an id.
known_behind :
    (front rows : List Turn)
    → All (λ t. is_some (by_key (λ u. u.id) t.id (front ++ rows)) ≡ true) rows
known_behind front [] = tt
known_behind front (t ∷ rows) = (
  found_behind front rows t,
  subst (λ l. All (λ u. is_some (by_key (λ v. v.id) u.id l) ≡ true) rows)
      (append_assoc front (t ∷ []) rows) (known_behind (front ++ t ∷ []) rows),
)

all_known : (db : Database) → AreKnown db db.turns
unfolding get_turn
all_known db = known_behind [] db.turns

recover_interrupted_runs_total :
    (for_turns for_approvals for_threads : ℕ → Context) (before : Database)
    → IsOwned before
    → (turns : List Turn) × (after : Database) × (recover_interrupted_runs for_turns for_approvals
          for_threads before
        ≡ inr (turns, after))
unfolding recover_interrupted_runs
recover_interrupted_runs_total for_turns for_approvals for_threads before owned =
    let rows = filter (λ t. not (is_terminal t.status)) before.turns in
    let (r, interrupted) =
      interrupt_turns_total for_turns rows before
        (AreKnown-filter (λ t. not (is_terminal t.status)) before before.turns (all_known before))
        owned in
    let denied = record r.1 { approvals = deny_for_turns for_approvals r.0 r.1.approvals } in
    let (after, threads) =
      interrupt_threads_total for_threads (distinct (map (λ t. t.thread_id) r.0)) denied in
    (r.0, after, rw (interrupted, threads) refl)

-- A recovery of tables in which every turn has its thread goes through, and leaves no turn queued,
-- preparing, running or waiting for an approval: every turn is completed, failed, cancelled or
-- interrupted.
pub recover_interrupted_runs_finishes :
    (for_turns for_approvals for_threads : ℕ → Context) (before : Database)
    → IsOwned before
    → (turns : List Turn) × (after : Database) × (recover_interrupted_runs for_turns for_approvals
          for_threads before
        ≡ inr (turns, after))
      × ((j : Text) (u : Turn) → get_turn j after ≡ some u → is_terminal u.status ≡ true)
recover_interrupted_runs_finishes for_turns for_approvals for_threads before owned =
    let (turns, after, recovered) =
      recover_interrupted_runs_total for_turns for_approvals for_threads before owned in
    (
      turns,
      after,
      recovered,
      recover_interrupted_runs-Finished for_turns for_approvals for_threads turns before after
          recovered,
    )
