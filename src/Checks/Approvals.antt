-- ===== src/Checks/Approvals.antt =====
-- Approvals at concrete inputs.
use adrouter_agent.Prelude.{
  codes, same_text, ◌≡◌, refl, inl, inr, true, false, none, some, List, [], ◌∷◌,
}
use adrouter_agent.Database.{
  allow_once, version_two, Approval, DbError, find_row, update_rows, get_thread, get_turn,
}
use adrouter_agent.Database.Approvals.{
  get_approval, create_approval, is_second, has_expired, resolve_approval, is_bound,
  consume_operation_approval, deny_pending_approvals_for_turn,
}
use adrouter_agent.Database.Approvals.Trace.{
  Resolution, no_calls, then_created, then_resolved, then_denied,
}
use adrouter_agent.Database.Approvals.Once.{consume_operation_approval_once}
use adrouter_agent.Database.Approvals.Granted.{
  allowed_in_time, consume_operation_approval-WasAllowed,
}
use adrouter_agent.Checks.Samples.{toy, manifest, running_db}

abbrev asked : Approval
asked = record {
  version = version_two;
  id = codes "op";
  thread_id = codes "t";
  turn_id = codes "u";
  operation_manifest = some manifest;
  expires_at = some (301000 ∷ []);
  decision = none;
  created_at = 1000 ∷ [];
  resolved_at = none;
  consumed_at = none;
}

abbrev allowed : Approval
allowed = record asked { decision = some allow_once; resolved_at = some (2000 ∷ []) }

asked_created :
    create_approval asked running_db ≡ inr (record running_db { approvals = asked ∷ [] })
unfolding create_approval get_approval get_thread get_turn find_row same_text
asked_created = refl

asked_resolved :
    resolve_approval toy 2000 (codes "op") allow_once (asked ∷ []) ≡ inr (allowed, allowed ∷ [])
unfolding resolve_approval get_approval find_row has_expired update_rows same_text
asked_resolved = refl

allowed_consumed :
    consume_operation_approval toy (codes "op") manifest.binding (3000 ∷ []) (allowed ∷ [])
    ≡ inr (allowed, (record allowed { consumed_at = some (3000 ∷ []) }) ∷ [])
unfolding consume_operation_approval get_approval find_row has_expired is_bound update_rows
    same_text
allowed_consumed = refl

consume_operation_approval_once_example :
    (x : DbError) × (consume_operation_approval toy (codes "op") manifest.binding (4000 ∷ []) (
        deny_pending_approvals_for_turn
          (3500 ∷ [])
          (codes "u")
          ((record allowed { consumed_at = some (3000 ∷ []) }) ∷ []))
      ≡ inl x)
consume_operation_approval_once_example =
    consume_operation_approval_once toy (codes "op") manifest.binding (3000 ∷ []) manifest.binding
      (4000 ∷ []) allowed [] (allowed ∷ [])
      ((record allowed { consumed_at = some (3000 ∷ []) }) ∷ [])
      (deny_pending_approvals_for_turn (3500 ∷ []) (codes "u")
        ((record allowed { consumed_at = some (3000 ∷ []) }) ∷ []))
      allowed_consumed
      (then_denied [] ((record allowed { consumed_at = some (3000 ∷ []) }) ∷ [])
        ((record allowed { consumed_at = some (3000 ∷ []) }) ∷ []) (3500 ∷ []) (codes "u")
        (no_calls ((record allowed { consumed_at = some (3000 ∷ []) }) ∷ [])))

abbrev decision_log : List Resolution
decision_log = (record { approval_id = codes "op"; decision = allow_once; at = 2000 }) ∷ []

consume_operation_approval-WasAllowed_example :
    (allowed_in_time toy (codes "op") (some (301000 ∷ [])) decision_log ≡ true)
    × (is_second version_two ≡ true)
    × (is_bound manifest.binding (some manifest) ≡ true)
    × (has_expired toy (some (301000 ∷ [])) 3000 ≡ false)
    × (false ≡ false)
consume_operation_approval-WasAllowed_example =
    consume_operation_approval-WasAllowed toy (codes "op") manifest.binding (3000 ∷ []) allowed
      decision_log (allowed ∷ []) ((record allowed { consumed_at = some (3000 ∷ []) }) ∷ [])
      (then_resolved [] [] (asked ∷ []) (allowed ∷ []) 2000 (codes "op") allow_once allowed
        (then_created [] [] asked running_db (record running_db { approvals = asked ∷ [] })
          (no_calls []) refl asked_created)
        asked_resolved)
      allowed_consumed
