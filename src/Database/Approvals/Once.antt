-- ===== src/Database/Approvals/Once.antt =====
-- An operation is approved by a person, and its approval is used once.
use adrouter_agent.Prelude.{
  Sum-cases, is_some, Text, same_text_iff, not_refused, inr_inj, ◌≡◌, refl, sym, ap, subst, ◌∙◌,
  inl, inr, true, not, ◌&&◌, none, some, List, [], ◌∷◌, ◌++◌,
}
use adrouter_agent.Manifest.{Encoding}
use adrouter_agent.Database.{
  deny, Approval, Database, DbError, foreign_key, primary_key, get_thread, get_turn,
}
use adrouter_agent.Database.Rows.{
  change, by_key_id, some_inj, by_key-update_where, by_key-append_some,
}
use adrouter_agent.Database.Approvals.{
  get_approval, create_approval, with_decision, with_consumption, consume_operation_approval,
  deny_pending_approvals_for_turn,
}
use adrouter_agent.Database.Approvals.Trace.{
  Resolution, Calls, no_calls, then_created, then_resolved, then_consumed, then_denied, HasConsumed,
  HasConsumed-update, resolve_approval-inr, consume_operation_approval-inr,
}

pub create_approval-rows :
    (input : Approval) (before after : Database)
    → create_approval input before ≡ inr after
    → before.approvals ++ record input { consumed_at = none } ∷ [] ≡ after.approvals
unfolding create_approval
create_approval-rows input before after h =
    let (clash, k) =
      not_refused (is_some (get_approval input.id before.approvals)) _ after primary_key h in
    let (refs, l) =
      not_refused
        (not
          (is_some (get_thread input.thread_id before) && is_some (get_turn input.turn_id before)))
        _ after foreign_key k in
    ap (λ d. d.approvals) (inr_inj _ after l)

Calls-HasConsumed :
    (e : Encoding) (log : List Resolution) (start rows : List Approval) (id : Text)
    → Calls e log start rows
    → HasConsumed id start
    → HasConsumed id rows
unfolding get_approval deny_pending_approvals_for_turn
Calls-HasConsumed e _ _ _ id (no_calls rows) had = had
Calls-HasConsumed e _ _ _ id (then_created log start input before after calls undecided h) had =
    let (a, there, consumed) = Calls-HasConsumed e log start before.approvals id calls had in
    subst (HasConsumed id) (create_approval-rows input before after h)
      ((a, by_key-append_some (λ a. a.id) id before.approvals _ a there, consumed))
Calls-HasConsumed e _ _ _ id (then_resolved log start before after now other d a calls h) had =
    let seen = resolve_approval-inr e now other d a before after h in
    subst (HasConsumed id) seen.4 (
      HasConsumed-update _ (with_decision d (e.to_iso now)) id before (λ a. refl) (λ a k. k)
        (Calls-HasConsumed e log start before id calls had))
Calls-HasConsumed e _ _ _ id (then_consumed log start before after other binding at a calls h) had =
    let seen = consume_operation_approval-inr e other binding at a before after h in
    subst (HasConsumed id) seen.6 (
      HasConsumed-update _ (with_consumption at) id before (λ a. refl) (λ a k. refl)
        (Calls-HasConsumed e log start before id calls had))
Calls-HasConsumed e _ _ _ id (then_denied log start before at turn calls) had =
    HasConsumed-update _ (with_decision deny at) id before (λ a. refl) (λ a k. k)
      (Calls-HasConsumed e log start before id calls had)

consume-HasConsumed :
    (e : Encoding) (id binding at : Text) (a : Approval) (before after : List Approval)
    → consume_operation_approval e id binding at before ≡ inr (a, after)
    → HasConsumed id after
unfolding get_approval
consume-HasConsumed e id binding at a before after h =
    let seen = consume_operation_approval-inr e id binding at a before after h in
    let is_id = same_text_iff a.id id in
    let here = by_key_id (λ a. a.id) id before a seen.0 in
    let updated : get_approval id after ≡ some (with_consumption at a) =
      ap (get_approval id) (sym seen.6)
      ∙ by_key-update_where (λ a. a.id) _ (with_consumption at) (λ a. refl) id before
      ∙ ap (change _) seen.0
      ∙ rw (is_id.1 here, seen.5) refl in
    (with_consumption at a, updated, refl)

-- An approval that has been consumed for its operation is never consumed again, with any binding at
-- any time, after any further calls on approvals, the deletion of its thread apart.
pub consume_operation_approval_once :
    (e : Encoding) (id binding at again later : Text) (a : Approval) (log : List Resolution)
    (before after rows : List Approval)
    → consume_operation_approval e id binding at before ≡ inr (a, after)
    → Calls e log after rows
    → (x : DbError) × (consume_operation_approval e id again later rows ≡ inl x)
unfolding get_approval
consume_operation_approval_once e id binding at again later a log before after rows h calls =
    let used = consume-HasConsumed e id binding at a before after h in
    let (b, there, consumed) = Calls-HasConsumed e log after rows id calls used in
    elim (Sum-cases (consume_operation_approval e id again later rows)) [
      | inl (x, k) ↦ (x, k)
      | inr ((c, last), k) ↦
          let second = consume_operation_approval-inr e id again later c rows last k in
          let same = some_inj b c (sym there ∙ second.0) in
          let here : is_some c.consumed_at ≡ true =
            ap (λ y. is_some y.consumed_at) (sym same) ∙ consumed in
          let unused = second.5 in absurd (cc)
    ]
