-- ===== src/Database/Recovery/Laws.antt =====
-- No run stays unfinished after the recovery.
use adrouter_agent.Prelude.{
  if◌then◌else◌, Bool-cases, any, filter, Text, same_text, and_then, and_then-inr, inr_inj, ℕ, suc,
  ◌≡◌, refl, sym, ap, subst, ◌∙◌, ◌⊎◌, inl, inr, Bool, true, false, not, ◌||◌, Option, none, some,
  List, [], ◌∷◌, map, arith,
}
use adrouter_agent.Json.{}
use adrouter_agent.Manifest.{}
use adrouter_agent.Database.{
  thread_interrupted, TurnStatus, turn_interrupted, Turn, thread_lifecycle, turn_lifecycle,
  Database, thread_not_found, turn_not_found, find_row, update_rows, found, get_thread, get_turn,
}
use adrouter_agent.Database.Rows.{change-some, by_key, some_inj}
use adrouter_agent.Database.Journal.{Context}
use adrouter_agent.Database.Journal.Effects.{}
use adrouter_agent.Database.Threads.{update_thread_status}
use adrouter_agent.Database.Turns.{is_terminal, with_status, update_turn_status}
use adrouter_agent.Database.Recovery.{
  recovery_error, interrupt_turns, deny_for_turns, distinct, is_busy_thread, interrupt_threads,
  recover_interrupted_runs,
}
use adrouter_agent.Projection.Steps.{and_append-Appended, get_turn-Appended}
use adrouter_agent.Projection.Turns.{get_turn_update}

or_right : (a b : Bool) → a ≡ false → (a || b) ≡ true → b ≡ true
or_right a b e h = ground (arith, e, h)

-- A turn that is not finished is still to come.
abbrev IsAwaited : List Turn → Database → Type 0
IsAwaited rows db =
    (j : Text) (u : Turn)
    → get_turn j db ≡ some u
    → is_terminal u.status ≡ false
    → any (λ t. same_text t.id j) rows ≡ true

update_turn_status-turns :
    (c : Context) (id : Text) (s : TurnStatus) (error : Option Text) (u : Turn)
    (before after : Database)
    → update_turn_status c id s error before ≡ inr (u, after)
    → (j : Text) (v : Turn) → get_turn j after ≡ some v
    → (v.status ≡ s) ⊎ ((same_text id j ≡ false) × (get_turn j before ≡ some v))
unfolding update_turn_status with_status
update_turn_status-turns c id s error u before after h j v found_v =
    let (seen, there, k) =
      and_then-inr (found turn_not_found (get_turn id before)) _ (u, after) h in
    let set = with_status c seen s error in
    let mid = record before { turns = update_rows (λ t. same_text t.id id) set before.turns } in
    let (x, more) =
      and_append-Appended c seen.thread_id (some id) turn_lifecycle _ (set seen) u mid after k in
    let (w, found_w, same) = change-some _ (get_turn j before) v (
      sym (get_turn_update id j set before (λ t. refl))
      ∙ sym (get_turn-Appended c seen.thread_id (some id) turn_lifecycle _ x mid after more j)
      ∙ found_v) in
    split (same_text id j) set w (λ y. refl) same found_w
  where
    split :
        (b : Bool) (f : Turn → Turn) (w : Turn)
        → ((y : Turn) → (f y).status ≡ s)
        → (if b then f w else w) ≡ v
        → get_turn j before ≡ some w
        → (v.status ≡ s) ⊎ ((b ≡ false) × (get_turn j before ≡ some v))
    split true f w sets same there = inl (ap (λ y. y.status) (sym same) ∙ sets w)
    split false f w sets same there = inr (refl, there ∙ ap some same)

interrupt_turns-IsAwaited :
    (c : ℕ → Context) (rows turns : List Turn) (before after : Database)
    → interrupt_turns c rows before ≡ inr (turns, after)
    → IsAwaited rows before
    → IsAwaited [] after
unfolding interrupt_turns is_terminal
interrupt_turns-IsAwaited c [] turns before after h awaited =
    subst (IsAwaited []) (ap (λ r. r.1) (inr_inj _ (turns, after) h)) awaited
interrupt_turns-IsAwaited c (row ∷ rows) turns before after h awaited =
    let (r, updated, k) =
      and_then-inr (update_turn_status (c 0) row.id turn_interrupted (some recovery_error) before) _
        (turns, after) h in
    let (rest, later, l) =
      and_then-inr (interrupt_turns (λ n. c (suc n)) rows r.1) _ (turns, after) k in
    let awaited_rest : IsAwaited rows r.1 = λ j u there open_u.
      elim (update_turn_status-turns (c 0) row.id turn_interrupted (some recovery_error) r.0 before
        r.1 updated j u there) [
          | inl s ↦ let final : is_terminal u.status ≡ true = rw s refl in absurd (cc)
          | inr (e, same) ↦ or_right (same_text row.id j) _ e (awaited j u same open_u)
        ] in
    subst (IsAwaited []) (ap (λ r. r.1) (inr_inj (r.0 ∷ rest.0, rest.1) (turns, after) l))
      (interrupt_turns-IsAwaited (λ n. c (suc n)) rows rest.0 r.1 rest.1 later awaited_rest)

any-filter :
    (j : Text) (rows : List Turn) (u : Turn)
    → by_key (λ t. t.id) j rows ≡ some u
    → is_terminal u.status ≡ false
    → any (λ t. same_text t.id j) (filter (λ t. not (is_terminal t.status)) rows) ≡ true
unfolding find_row
any-filter j [] u h open_u = cc
any-filter j (t ∷ rows) u h open_u = elim (Bool-cases (same_text t.id j)) [
  | inl e ↦
      let is_u = some_inj t u (rw e at h) in
      let open_t : is_terminal t.status ≡ false = ap (λ y. is_terminal y.status) is_u ∙ open_u in
      rw open_t (rw e refl)
  | inr e ↦
      let rest = any-filter j rows u (rw e at h) open_u in
      elim (Bool-cases (is_terminal t.status)) [ inl k ↦ rw k rest | inr k ↦ rw (k, e) rest ]
]

interrupt_threads-turns :
    (c : ℕ → Context) (ids : List Text) (before after : Database)
    → interrupt_threads c ids before ≡ inr after
    → (j : Text) → get_turn j after ≡ get_turn j before
unfolding interrupt_threads update_thread_status get_turn
interrupt_threads-turns c [] before after h j = ap (get_turn j) (sym (inr_inj before after h))
interrupt_threads-turns c (id ∷ ids) before after h j =
    let (mid, first, k) =
      and_then-inr
        (if is_busy_thread (get_thread id before)
          then and_then (update_thread_status (c 0) id thread_interrupted before) (λ r. inr r.1)
          else inr before)
        (λ after. interrupt_threads (λ n. c (suc n)) ids after) after h in
    interrupt_threads-turns (λ n. c (suc n)) ids mid after k j
    ∙ elim (Bool-cases (is_busy_thread (get_thread id before))) [
      | inl e ↦
          let (r, updated, l) =
            and_then-inr (update_thread_status (c 0) id thread_interrupted before) (λ r. inr r.1)
              mid (rw e at first) in
          let (row, there, m) =
            and_then-inr (found thread_not_found (get_thread id before)) _ r updated in
          let (x, more) = and_append-Appended (c 0) id none thread_lifecycle _ _ r.0 _ r.1 m in
          ap (get_turn j) (sym (inr_inj r.1 mid l))
          ∙ get_turn-Appended (c 0) id none thread_lifecycle _ x _ r.1 more j
      | inr e ↦ ap (get_turn j) (sym (inr_inj before mid (rw e at first)))
    ]

any-IsAwaited : (db : Database) → IsAwaited (filter (λ t. not (is_terminal t.status)) db.turns) db
unfolding get_turn
any-IsAwaited db j u there open_u = any-filter j db.turns u there open_u

-- A recovery that goes through leaves no turn queued, preparing, running or waiting for an approval:
-- every turn is completed, failed, cancelled or interrupted.
pub recover_interrupted_runs-Finished :
    (for_turns for_approvals for_threads : ℕ → Context) (turns : List Turn)
    (before after : Database)
    → recover_interrupted_runs for_turns for_approvals for_threads before ≡ inr (turns, after)
    → (j : Text) (u : Turn) → get_turn j after ≡ some u
    → is_terminal u.status ≡ true
unfolding recover_interrupted_runs get_turn
recover_interrupted_runs-Finished for_turns for_approvals for_threads turns before after h j u
      there =
    let rows = filter (λ t. not (is_terminal t.status)) before.turns in
    let (r, interrupted, k) =
      and_then-inr (interrupt_turns for_turns rows before) _ (turns, after) h in
    let denied = record r.1 { approvals = deny_for_turns for_approvals r.0 r.1.approvals } in
    let (last, threads, l) =
      and_then-inr (interrupt_threads for_threads (distinct (map (λ t. t.thread_id) r.0)) denied)
        (λ after. inr (r.0, after)) (turns, after) k in
    let awaited =
      interrupt_turns-IsAwaited for_turns rows r.0 before r.1 interrupted (any-IsAwaited before) in
    let same = ap (λ p. p.1) (inr_inj (r.0, last) (turns, after) l) in
    let found_u =
      sym (interrupt_threads-turns for_threads _ denied last threads j)
      ∙ ap (get_turn j) same
      ∙ there in
    elim (Bool-cases (is_terminal u.status)) [
      | inl e ↦ e
      | inr e ↦ absurd (let k = awaited j u found_u e in cc)
    ]
