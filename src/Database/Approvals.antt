-- ===== src/Database/Approvals.antt =====
-- The operations on approvals, src/main/database.ts. The schema of an approval passes its input.
pub mod Trace
pub mod Once
pub mod Granted
use adrouter_agent.Prelude.{
  leb, if◌then◌else◌, is_some, Text, same_text, is_empty, and_then, ℕ, ◌⊎◌, inl, inr, Bool, true,
  false, not, ◌&&◌, ◌||◌, Option, none, some, List, [], ◌∷◌, ◌++◌,
}
use adrouter_agent.Manifest.{Encoding, OperationManifest}
use adrouter_agent.Database.{
  ApprovalDecision, allow_once, allow_thread, deny, ApprovalVersion, version_one, version_two,
  Approval, Database, DbError, foreign_key, primary_key, not_pending, allowed_once_only,
  approval_expired, not_bound, already_consumed, find_row, update_rows, found, get_thread, get_turn,
}

unfoldable pub get_approval : Text → List Approval → Option Approval
get_approval id rows = find_row (λ a. same_text a.id id) rows

-- The references and the key of the row are checked when it is inserted; `consumed_at` starts null.
unfoldable pub create_approval : Approval → Database → DbError ⊎ Database
create_approval input db =
    if is_some (get_approval input.id db.approvals)
    then inl primary_key
    else if not (is_some (get_thread input.thread_id db) && is_some (get_turn input.turn_id db))
    then inl foreign_key
    else inr (record db { approvals = db.approvals ++ record input { consumed_at = none } ∷ [] })

abbrev pub is_second : ApprovalVersion → Bool
is_second version_one = false
is_second version_two = true

abbrev pub is_decision : ApprovalDecision → Option ApprovalDecision → Bool
is_decision d none = false
is_decision allow_once (some allow_once) = true
is_decision allow_once (some allow_thread) = false
is_decision allow_once (some deny) = false
is_decision allow_thread (some allow_once) = false
is_decision allow_thread (some allow_thread) = true
is_decision allow_thread (some deny) = false
is_decision deny (some allow_once) = false
is_decision deny (some allow_thread) = false
is_decision deny (some deny) = true

-- `!expiresAt || Date.parse(expiresAt) <= now`
unfoldable pub has_expired : Encoding → Option Text → ℕ → Bool
has_expired e none now = true
has_expired e (some at) now = is_empty at || leb (e.date_parse at) now

abbrev pub with_decision : ApprovalDecision → Text → Approval → Approval
with_decision decision resolved_at a = record a {
  decision = some decision;
  resolved_at = some resolved_at;
}

abbrev pub with_consumption : Text → Approval → Approval
with_consumption at a = record a { consumed_at = some at }

unfoldable pub resolve_approval :
    Encoding → ℕ → Text → ApprovalDecision → List Approval → DbError ⊎ (Approval × List Approval)
resolve_approval e now id decision rows =
    and_then (found not_pending (get_approval id rows)) (λ approval.
      if is_some approval.decision
      then inl not_pending
      else if is_second approval.version && is_decision allow_thread (some decision)
      then inl allowed_once_only
      else if is_second approval.version
          && is_decision allow_once (some decision)
          && has_expired e approval.expires_at now
      then inl approval_expired
      else inr (
        with_decision decision (e.to_iso now) approval,
        update_rows (λ a. same_text a.id id) (with_decision decision (e.to_iso now)) rows,
      ))

unfoldable pub is_bound : Text → Option OperationManifest → Bool
is_bound binding none = false
is_bound binding (some m) = same_text m.binding binding

unfoldable pub consume_operation_approval :
    Encoding → Text → Text → Text → List Approval → DbError ⊎ (Approval × List Approval)
consume_operation_approval e id binding consumed_at rows =
    and_then (found not_bound (get_approval id rows)) (λ approval.
      if not (
        is_second approval.version
        && is_decision allow_once approval.decision
        && is_bound binding approval.operation_manifest)
      then inl not_bound
      else if has_expired e approval.expires_at (e.date_parse consumed_at)
      then inl approval_expired
      else if is_some approval.consumed_at
      then inl already_consumed
      else inr (
        approval,
        update_rows (λ a. same_text a.id id && not (is_some a.consumed_at))
            (with_consumption consumed_at) rows,
      ))

abbrev pub is_pending : Text → Approval → Bool
is_pending turn_id a = same_text a.turn_id turn_id && not (is_some a.decision)

-- The list of the denied approvals that it returns is left out.
unfoldable pub deny_pending_approvals_for_turn : Text → Text → List Approval → List Approval
deny_pending_approvals_for_turn resolved_at turn_id rows =
    update_rows (is_pending turn_id) (with_decision deny resolved_at) rows
