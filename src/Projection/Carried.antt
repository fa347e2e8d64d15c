-- ===== src/Projection/Carried.antt =====
-- How one event more carries the statuses over.
use adrouter_agent.Prelude.{
  Bool-cases, Text, same_text, same_text_iff, ◌≡◌, refl, sym, ◌∙◌, ◌⊎◌, inl, inr, true, false, some,
}
use adrouter_agent.Database.{
  ThreadStatus, TurnStatus, Thread, Turn, JournalEvent, Database, get_thread, get_turn,
}
use adrouter_agent.Database.Journal.{}
use adrouter_agent.Projection.{ThreadProjection, status_of, set_status, project_event}
use adrouter_agent.Projection.Maps.{status_of-set_status, is_shown}
use adrouter_agent.Projection.Events.{projection_of}
use adrouter_agent.Projection.Replay.{IsReplayed, Extends, Extends-projection}

-- The thread was there before, with the same status; the turn too.
abbrev pub WasThread : Database → Text → Thread → Type 0
WasThread before j t = (s : Thread) × (get_thread j before ≡ some s) × (s.status ≡ t.status)

abbrev pub WasTurn : Database → Text → Turn → Type 0
WasTurn before j u =
    (v : Turn) × (get_turn j before ≡ some v) × (v.thread_id ≡ u.thread_id) × (v.status ≡ u.status)

module _ (x : JournalEvent) (before after : Database) (more : Extends x before after)
    (good : IsReplayed before) where
  pub threads_kept :
      ((p : ThreadProjection) → (project_event x p).status ≡ p.status)
      → ((j : Text) (t : Thread) → get_thread j after ≡ some t → WasThread before j t)
      → (j : Text) (t : Thread) → get_thread j after ≡ some t
      → is_shown t.status ≡ true
      → (projection_of j after.events).status ≡ t.status
  threads_kept same was j t h shown =
      let (s, found, status) = was j t h in
      let old = good.threads j s found (rw status shown) ∙ status in
      rw (Extends-projection x before after more j) (elim (Bool-cases (same_text x.thread_id j)) [
        | inl e ↦ rw e (same (projection_of j before.events) ∙ old)
        | inr e ↦ rw e old
      ])

  pub thread_set :
      (s : ThreadStatus)
      → ((p : ThreadProjection) → is_shown s ≡ true → (project_event x p).status ≡ s)
      → ((j : Text) (t : Thread)
          → get_thread j after ≡ some t
          → ((same_text x.thread_id j ≡ true) × (t.status ≡ s))
            ⊎ ((same_text x.thread_id j ≡ false) × WasThread before j t))
      → (j : Text) (t : Thread) → get_thread j after ≡ some t
      → is_shown t.status ≡ true
      → (projection_of j after.events).status ≡ t.status
  thread_set s sets now j t h shown =
      rw (Extends-projection x before after more j) (elim (now j t h) [
        | inl (e, status) ↦
            rw e (sets (projection_of j before.events) (rw (sym status) shown) ∙ sym status)
        | inr (e, (v, found, status)) ↦ rw e (good.threads j v found (rw status shown) ∙ status)
      ])

  pub turns_kept :
      ((p : ThreadProjection) → (project_event x p).turns ≡ p.turns)
      → ((j : Text) → get_turn j after ≡ get_turn j before)
      → (j : Text) (u : Turn) → get_turn j after ≡ some u
      → status_of j (projection_of u.thread_id after.events).turns ≡ some u.status
  turns_kept same was j u h =
      let old = good.turns j u (sym (was j) ∙ h) in
      rw (Extends-projection x before after more u.thread_id)
        (elim (Bool-cases (same_text x.thread_id u.thread_id)) [
          | inl e ↦ rw (e, same (projection_of u.thread_id before.events)) old
          | inr e ↦ rw e old
        ])

  pub turn_set :
      (i : Text) (s : TurnStatus)
      → ((p : ThreadProjection) → (project_event x p).turns ≡ set_status i s p.turns)
      → ((j : Text) (u : Turn)
          → get_turn j after ≡ some u
          → ((same_text i j ≡ true) × (x.thread_id ≡ u.thread_id) × (u.status ≡ s))
            ⊎ ((same_text i j ≡ false) × WasTurn before j u))
      → (j : Text) (u : Turn) → get_turn j after ≡ some u
      → status_of j (projection_of u.thread_id after.events).turns ≡ some u.status
  turn_set i s sets now j u h =
      let p = projection_of u.thread_id before.events in
      rw (Extends-projection x before after more u.thread_id) (elim (now j u h) [
        | inl (e, thread, status) ↦
            rw ((same_text_iff x.thread_id u.thread_id).1 thread)
              (rw (sets p, status_of-set_status i j s p.turns, e, status) refl)
        | inr (e, (v, found, thread, status)) ↦
            let old : status_of j p.turns ≡ some u.status =
              rw (sym thread, sym status) (good.turns j v found) in
            elim (Bool-cases (same_text x.thread_id u.thread_id)) [
              | inl k ↦ rw (k, sets p, status_of-set_status i j s p.turns, e) old
              | inr k ↦ rw k old
            ]
      ])
