-- ===== src/Database/Approvals/Trace.antt =====
-- Sequences of calls on approvals.
use adrouter_agent.Prelude.{
  if◌then◌else◌, is_some, Text, same_text, not_refused, and_then-inr, inr_inj, ℕ, ◌≡◌, ap, subst,
  ◌∙◌, ◌⊎◌, inr, Bool, true, false, not, ◌&&◌, none, some, List, [], ◌∷◌, arith,
}
use adrouter_agent.Manifest.{Encoding}
use adrouter_agent.Database.{
  ApprovalDecision, allow_once, allow_thread, Approval, Database, DbError, not_pending,
  allowed_once_only, approval_expired, not_bound, already_consumed, update_rows, found,
}
use adrouter_agent.Database.Rows.{change, found-inr, by_key-update_where}
use adrouter_agent.Database.Approvals.{
  get_approval, create_approval, is_second, is_decision, has_expired, with_decision,
  with_consumption, resolve_approval, is_bound, consume_operation_approval,
  deny_pending_approvals_for_turn,
}

-- A decision that was taken, and when.
pub record Resolution : Type 0 where
  pub approval_id : Text
  pub decision : ApprovalDecision
  pub at : ℕ

-- Calls that go through, with the decisions so far, the last first. Approvals are created without a
-- decision.
pub data Calls (e : Encoding) : List Resolution → List Approval → List Approval → Type 0 where
  no_calls : (rows : List Approval) → Calls e [] rows rows
  then_created :
      (log : List Resolution) (start : List Approval) (input : Approval) (before after : Database)
      → Calls e log start before.approvals
      → input.decision ≡ none
      → create_approval input before ≡ inr after
      → Calls e log start after.approvals
  then_resolved :
      (log : List Resolution) (start before after : List Approval) (now : ℕ) (id : Text)
      (decision : ApprovalDecision) (a : Approval)
      → Calls e log start before
      → resolve_approval e now id decision before ≡ inr (a, after)
      → Calls e (record { approval_id = id; decision = decision; at = now } ∷ log) start after
  then_consumed :
      (log : List Resolution) (start before after : List Approval) (id binding at : Text)
      (a : Approval)
      → Calls e log start before
      → consume_operation_approval e id binding at before ≡ inr (a, after)
      → Calls e log start after
  then_denied :
      (log : List Resolution) (start before : List Approval) (at turn_id : Text)
      → Calls e log start before
      → Calls e log start (deny_pending_approvals_for_turn at turn_id before)

-- A row whose use is recorded stays one.
abbrev pub HasConsumed : Text → List Approval → Type 0
HasConsumed id rows =
    (a : Approval) × (get_approval id rows ≡ some a) × (is_some a.consumed_at ≡ true)

pub HasConsumed-update :
    (p : Approval → Bool) (f : Approval → Approval) (id : Text) (rows : List Approval)
    → ((a : Approval) → (f a).id ≡ a.id)
    → ((a : Approval) → is_some a.consumed_at ≡ true → is_some (f a).consumed_at ≡ true)
    → HasConsumed id rows
    → HasConsumed id (update_rows p f rows)
unfolding get_approval
HasConsumed-update p f id rows keeps stays (a, there, consumed) = (
  if p a then f a else a,
  by_key-update_where (λ a. a.id) p f keeps id rows
      ∙ ap (change (λ t. if p t then f t else t)) there,
  either (p a) consumed (stays a consumed),
)
  where
    either :
        (b : Bool)
        → is_some a.consumed_at ≡ true
        → is_some (f a).consumed_at ≡ true
        → is_some (if b then f a else a).consumed_at ≡ true
    either true h k = k
    either false h k = h

state_of {ℓ} :
    {A : Type ℓ} (a b : A) (rows after : List Approval)
    → ◌≡◌ {A = DbError ⊎ (A × List Approval)} (inr (a, rows)) (inr (b, after))
    → rows ≡ after
state_of a b rows after h = ap (λ r. r.1) (inr_inj (a, rows) (b, after) h)

-- What a resolution that goes through has seen and done.
pub resolve_approval-inr :
    (e : Encoding) (now : ℕ) (id : Text) (d : ApprovalDecision) (a : Approval)
    (before after : List Approval)
    → resolve_approval e now id d before ≡ inr (a, after)
    → (seen : Approval) × (get_approval id before ≡ some seen)
      × (is_some seen.decision ≡ false)
      × ((is_second seen.version
            && is_decision allow_once (some d)
            && has_expired e seen.expires_at now)
          ≡ false)
      × (update_rows (λ a. same_text a.id id) (with_decision d (e.to_iso now)) before ≡ after)
unfolding resolve_approval
resolve_approval-inr e now id d a before after h =
    let (seen, there, k) =
      and_then-inr (found not_pending (get_approval id before)) _ (a, after) h in
    let (undecided, l) = not_refused (is_some seen.decision) _ (a, after) not_pending k in
    let (single, m) =
      not_refused (is_second seen.version && is_decision allow_thread (some d)) _ (a, after)
        allowed_once_only l in
    let (live, n) =
      not_refused
        (is_second seen.version
          && is_decision allow_once (some d)
          && has_expired e seen.expires_at now)
        _ (a, after) approval_expired m in
    (
      seen,
      found-inr not_pending (get_approval id before) seen there,
      undecided,
      live,
      state_of _ a _ after n,
    )

pub consume_operation_approval-inr :
    (e : Encoding) (id binding at : Text) (a : Approval) (before after : List Approval)
    → consume_operation_approval e id binding at before ≡ inr (a, after)
    → (get_approval id before ≡ some a)
      × (is_second a.version ≡ true)
      × (is_decision allow_once a.decision ≡ true)
      × (is_bound binding a.operation_manifest ≡ true)
      × (has_expired e a.expires_at (e.date_parse at) ≡ false)
      × (is_some a.consumed_at ≡ false)
      × (update_rows
            (λ a. same_text a.id id && not (is_some a.consumed_at))
            (with_consumption at)
            before
          ≡ after)
unfolding consume_operation_approval
consume_operation_approval-inr e id binding at a before after h =
    let (seen, there, k) = and_then-inr (found not_bound (get_approval id before)) _ (a, after) h in
    let (bound, l) =
      not_refused
        (not (
          is_second seen.version
          && is_decision allow_once seen.decision
          && is_bound binding seen.operation_manifest))
        _ (a, after) not_bound k in
    let (live, m) =
      not_refused (has_expired e seen.expires_at (e.date_parse at)) _ (a, after) approval_expired
        l in
    let (unused, n) = not_refused (is_some seen.consumed_at) _ (a, after) already_consumed m in
    let same : seen ≡ a = ap (λ r. r.0) (inr_inj _ (a, after) n) in
    (
      found-inr not_bound (get_approval id before) seen there ∙ ap some same,
      subst (λ y. is_second y.version ≡ true) same (ground (arith, bound)),
      subst (λ y. is_decision allow_once y.decision ≡ true) same (ground (arith, bound)),
      subst (λ y. is_bound binding y.operation_manifest ≡ true) same (ground (arith, bound)),
      subst (λ y. has_expired e y.expires_at (e.date_parse at) ≡ false) same live,
      subst (λ y. is_some y.consumed_at ≡ false) same unused,
      state_of _ a _ after n,
    )
