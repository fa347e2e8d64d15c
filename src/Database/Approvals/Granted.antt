-- ===== src/Database/Approvals/Granted.antt =====
-- An operation is approved by a decision that was taken in time.
use adrouter_agent.Prelude.{
  if◌then◌else◌, is_some, Text, same_text, same_text_sound, same_text_refl, same_text_iff, ℕ, ◌≡◌,
  refl, sym, ap, subst, ◌∙◌, inl, inr, Bool, true, false, not, ◌&&◌, ◌||◌, Option, none, some, List,
  [], ◌∷◌, arith,
}
use adrouter_agent.Manifest.{Encoding}
use adrouter_agent.Database.{
  ApprovalDecision, allow_once, deny, Approval, find_row, update_rows, found,
}
use adrouter_agent.Database.Rows.{
  change-some, by_key_id, some_inj, by_key-update_where, by_key-append_cases,
}
use adrouter_agent.Database.Approvals.{
  get_approval, is_second, is_decision, has_expired, with_decision, with_consumption, is_bound,
  consume_operation_approval, is_pending, deny_pending_approvals_for_turn,
}
use adrouter_agent.Database.Approvals.Trace.{
  Resolution, Calls, no_calls, then_created, then_resolved, then_consumed, then_denied,
  resolve_approval-inr, consume_operation_approval-inr,
}
use adrouter_agent.Database.Approvals.Once.{create_approval-rows}

-- Whether the log has the decision `allow-once` on an approval, taken before a text's time.
unfoldable pub allowed_in_time : Encoding → Text → Option Text → List Resolution → Bool
allowed_in_time e id expires_at [] = false
allowed_in_time e id expires_at (r ∷ log) =
    (same_text r.approval_id id
      && is_decision allow_once (some r.decision)
      && not (has_expired e expires_at r.at))
    || allowed_in_time e id expires_at log

abbrev WasAllowed : Encoding → List Resolution → Approval → Type 0
WasAllowed e log a =
    (is_second a.version && is_decision allow_once a.decision) ≡ true
    → allowed_in_time e a.id a.expires_at log ≡ true

later_log :
    (e : Encoding) (r : Resolution) (log : List Resolution) (a : Approval)
    → WasAllowed e log a
    → WasAllowed e (r ∷ log) a
unfolding allowed_in_time
later_log e r log a h k = ground (arith, h k)

abbrev AllAllowed : Encoding → List Resolution → List Approval → Type 0
AllAllowed e log rows =
    (j : Text) (a : Approval) → get_approval j rows ≡ some a → WasAllowed e log a

-- An update that takes its rows from rows that were there.
AllAllowed-update :
    (e : Encoding) (log more : List Resolution) (p : Approval → Bool) (f : Approval → Approval)
    (rows after : List Approval)
    → ((a : Approval) → (f a).id ≡ a.id)
    → update_rows p f rows ≡ after
    → ((j : Text) (a : Approval)
        → get_approval j rows ≡ some a
        → WasAllowed e more (if p a then f a else a))
    → AllAllowed e more after
unfolding get_approval
AllAllowed-update e log more p f rows after keeps same changed j a found =
    let (b, there, is_b) =
      change-some _ (get_approval j rows) a (
        sym (by_key-update_where (λ a. a.id) p f keeps j rows)
        ∙ ap (get_approval j) same
        ∙ found) in
    subst (WasAllowed e more) is_b (changed j b there)

undecided_WasAllowed :
    (e : Encoding) (log : List Resolution) (a : Approval) → a.decision ≡ none → WasAllowed e log a
undecided_WasAllowed e log a none_yet k = absurd (clash (rw none_yet at k))
  where
    clash : (is_second a.version && false) ≡ true → ⊥
    clash h = absurd (ground (arith, h))

WasAllowed-if :
    (e : Encoding) (log : List Resolution) (b : Bool) (x y : Approval)
    → (b ≡ true → WasAllowed e log x)
    → WasAllowed e log y
    → WasAllowed e log (if b then x else y)
WasAllowed-if e log true x y h k = h refl
WasAllowed-if e log false x y h k = k

denied_WasAllowed :
    (e : Encoding) (log : List Resolution) (at : Text) (a : Approval)
    → WasAllowed e log (with_decision deny at a)
denied_WasAllowed e log at a k = absurd (clash k)
  where
    clash : (is_second a.version && false) ≡ true → ⊥
    clash h = absurd (ground (arith, h))

resolved_WasAllowed :
    (e : Encoding) (log : List Resolution) (id at : Text) (now : ℕ) (d : ApprovalDecision)
    (a : Approval)
    → a.id ≡ id
    → (is_second a.version && is_decision allow_once (some d) && has_expired e a.expires_at now)
      ≡ false
    → WasAllowed e
        (record { approval_id = id; decision = d; at = now } ∷ log)
        (with_decision d at a)
unfolding allowed_in_time
resolved_WasAllowed e log id at now d a is_id live k =
    ground (arith, same_text_refl id, (same_text_iff id a.id).1 (sym is_id))

Calls-AllAllowed :
    (e : Encoding) (log : List Resolution) (start rows : List Approval)
    → Calls e log start rows
    → start ≡ []
    → AllAllowed e log rows
unfolding deny_pending_approvals_for_turn get_approval find_row
Calls-AllAllowed e _ _ _ (no_calls rows) empty = λ j a seen. let k = rw empty at seen in absurd (cc)
Calls-AllAllowed e _ _ _ (then_created log start input before after calls undecided h) empty =
    λ j a seen.
      elim (by_key-append_cases (λ a. a.id) j before.approvals (record input { consumed_at = none })
        a (ap (get_approval j) (create_approval-rows input before after h) ∙ seen)) [
          | inl old ↦ Calls-AllAllowed e log start before.approvals calls empty j a old
          | inr new ↦
              subst (WasAllowed e log) new
                (undecided_WasAllowed e log (record input { consumed_at = none }) undecided)
        ]
Calls-AllAllowed e _ _ _ (then_resolved log start before after now id d a calls h) empty =
    let (seen, there, undecided, live, same) = resolve_approval-inr e now id d a before after h in
    let r : Resolution = record { approval_id = id; decision = d; at = now } in
    AllAllowed-update e log (r ∷ log) (λ a. same_text a.id id) (with_decision d (e.to_iso now))
      before after (λ a. refl) same
      (λ j b found.
        WasAllowed-if e (r ∷ log) (same_text b.id id) (with_decision d (e.to_iso now) b) b
          (λ is_id.
            let here = same_text_sound b.id id is_id in
            let at_j = by_key_id (λ a. a.id) j before b found in
            let is_seen =
              some_inj seen b
                (sym there ∙ ap (λ i. get_approval i before) (sym here ∙ at_j) ∙ found) in
            resolved_WasAllowed e log id (e.to_iso now) now d b here (
              subst
                (λ y.
                  (is_second y.version
                    && is_decision allow_once (some d)
                    && has_expired e y.expires_at now)
                  ≡ false)
                is_seen live))
          (later_log e r log b (Calls-AllAllowed e log start before calls empty j b found)))
Calls-AllAllowed e _ _ _ (then_consumed log start before after other binding at a calls h) empty =
    let seen = consume_operation_approval-inr e other binding at a before after h in
    AllAllowed-update e log log (λ a. same_text a.id other && not (is_some a.consumed_at))
      (with_consumption at) before after (λ a. refl) seen.6
      (λ j b found.
        let old = Calls-AllAllowed e log start before calls empty j b found in
        WasAllowed-if e log (same_text b.id other && not (is_some b.consumed_at))
          (with_consumption at b) b (λ is_id. old) old)
Calls-AllAllowed e _ _ _ (then_denied log start before at turn calls) empty =
    AllAllowed-update e log log (is_pending turn) (with_decision deny at) before
      (update_rows (is_pending turn) (with_decision deny at) before) (λ a. refl) refl
      (λ j b found.
        WasAllowed-if e log (is_pending turn b) (with_decision deny at b) b
          (λ is_id. denied_WasAllowed e log at b)
          (Calls-AllAllowed e log start before calls empty j b found))

-- An approval is consumed only if it is of version 2, carries a manifest with exactly the binding
-- that is asked for, is not expired at the time of the use and has not been used, and if after its
-- creation, which leaves it undecided, a call allowed it once before it expired: whatever calls on
-- approvals came between, from an empty table.
pub consume_operation_approval-WasAllowed :
    (e : Encoding) (id binding at : Text) (a : Approval) (log : List Resolution)
    (before after : List Approval)
    → Calls e log [] before
    → consume_operation_approval e id binding at before ≡ inr (a, after)
    → (allowed_in_time e a.id a.expires_at log ≡ true)
      × (is_second a.version ≡ true)
      × (is_bound binding a.operation_manifest ≡ true)
      × (has_expired e a.expires_at (e.date_parse at) ≡ false)
      × (is_some a.consumed_at ≡ false)
consume_operation_approval-WasAllowed e id binding at a log before after calls h =
    let (there, second, once, bound, live, unused, same) =
      consume_operation_approval-inr e id binding at a before after h in
    (
      Calls-AllAllowed e log [] before calls refl id a there (ground (arith, second, once)),
      second,
      bound,
      live,
      unused,
    )
