-- ===== src/Tasks/Admission.antt =====
-- What an admission of a delegated task has seen and done.
use adrouter_agent.Prelude.{
  leb, length, Text, same_text, not_refused, and_then-inr, inr_inj, ◌≡◌, ap, subst, ◌∙◌, ◌⊎◌, inl,
  inr, true, false, not, ◌&&◌, Option, none, some, arith,
}
use adrouter_agent.TaskPolicy.{
  effective_task_capability_policy, TaskPolicySnapshot, Digest, inherited_policy_snapshot,
}
use adrouter_agent.Manifest.{OperationManifest}
use adrouter_agent.Manifest.Delegation.{delegation_arguments}
use adrouter_agent.Database.{Thread, Database, get_project, get_thread}
use adrouter_agent.Database.Journal.{Context}
use adrouter_agent.Database.Threads.{create_thread, get_task_policy_snapshot}
use adrouter_agent.Tasks.{
  TaskError, arguments_refused, database_refused, parent_not_found, invalid_workspace,
  delegation_disabled, child_delegates, too_many_children, policy_refused, DelegationContext,
  or_refuse, require, delegation_context, is_present, owned_delegated_children, child_input,
  admit_delegated,
}

or_refuse-inr {ℓ κ} :
    {X : Type ℓ} {A : Type κ} (f : X → TaskError) (r : X ⊎ A) (a : A)
    → or_refuse f r ≡ inr a
    → r ≡ inr a
or_refuse-inr f (inl x) a h = cc
or_refuse-inr f (inr b) a h = ground arith

require-inr {ℓ} :
    {A : Type ℓ} (x : TaskError) (o : Option A) (a : A) → require x o ≡ inr a → o ≡ some a
require-inr x none a h = cc
require-inr x (some b) a h = ground arith

-- What a context says of the tables.
pub record IsContext (manifest : OperationManifest) (db : Database) (context : DelegationContext)
    : Type 0 where
  pub parent : get_thread manifest.unsigned.thread_id db ≡ some context.parent
  pub policy : get_task_policy_snapshot context.parent.id db ≡ inr context.parent_policy
  pub may_delegate :
      (effective_task_capability_policy context.parent_policy.body.capability_policy).delegation
      ≡ true

pub delegation_context-IsContext :
    (manifest : OperationManifest) (db : Database) (context : DelegationContext)
    → delegation_context manifest db ≡ inr context
    → IsContext manifest db context
unfolding delegation_context
delegation_context-IsContext manifest db context h =
    let (parent, there, k) =
      and_then-inr (require parent_not_found (get_thread manifest.unsigned.thread_id db)) _ context
        h in
    let (project, home, l) =
      and_then-inr (require invalid_workspace (get_project parent.project_id db)) _ context k in
    let (same, m) =
      not_refused (not (same_text project.path manifest.unsigned.workspace)) _ context
        invalid_workspace l in
    let (policy, snapshot, n) =
      and_then-inr (or_refuse database_refused (get_task_policy_snapshot parent.id db)) _ context
        m in
    let (enabled, o) =
      not_refused (not (effective_task_capability_policy policy.body.capability_policy).delegation)
        _ context delegation_disabled n in
    let is_context = inr_inj _ context o in
    record {
      parent = require-inr parent_not_found _ parent there ∙ ap (λ q. some q.parent) is_context;
      policy =
          subst (λ q. get_task_policy_snapshot q.parent.id db ≡ inr q.parent_policy) is_context
            (or_refuse-inr database_refused _ policy snapshot);
      may_delegate =
          subst
            (λ q.
              (effective_task_capability_policy q.parent_policy.body.capability_policy).delegation
              ≡ true)
            is_context (ground (arith, enabled));
    }

-- What an admission has seen and done.
pub record IsAdmitted (digest : Digest) (c : Context) (id : Text) (manifest : OperationManifest)
    (t : Thread) (before after : Database) : Type 0 where
  pub context : DelegationContext
  pub title : Text
  pub is_context : IsContext manifest before context
  pub few :
      leb 3 (length (owned_delegated_children context.parent.id context.project.id before)) ≡ false
  pub policy : TaskPolicySnapshot
  pub inherits : inherited_policy_snapshot digest context.parent_policy true c.now ≡ some policy
  pub creates : create_thread digest c id (child_input context title policy) before ≡ inr (t, after)

pub admit_delegated-IsAdmitted :
    (digest : Digest) (c : Context) (id : Text) (manifest : OperationManifest) (t : Thread)
    (prompt : Text) (before after : Database)
    → admit_delegated digest c id manifest before ≡ inr (t, prompt, after)
    → IsAdmitted digest c id manifest t before after
unfolding admit_delegated
admit_delegated-IsAdmitted digest c id manifest t prompt before after h =
    let (a, args, k) =
      and_then-inr (or_refuse arguments_refused (delegation_arguments c.encoding c.now manifest)) _
        (t, prompt, after) h in
    let (context, context_made, l) =
      and_then-inr (delegation_context manifest before) _ (t, prompt, after) k in
    let parent = context.parent in
    let (root, m) =
      not_refused
        (is_present parent.parent_thread_id && not (is_present parent.forked_from_checkpoint_id)) _
        (t, prompt, after) child_delegates l in
    let (few, n) =
      not_refused (leb 3 (length (owned_delegated_children parent.id context.project.id before))) _
        (t, prompt, after) too_many_children m in
    let (policy, inherits, o) =
      and_then-inr
        (require policy_refused (inherited_policy_snapshot digest context.parent_policy true c.now))
        _ (t, prompt, after) n in
    let (r, created, p) =
      and_then-inr
        (or_refuse database_refused
          (create_thread digest c id (child_input context a.title policy) before))
        (λ r. inr (r.0, a.prompt, r.1)) (t, prompt, after) o in
    let same = inr_inj (r.0, a.prompt, r.1) (t, prompt, after) p in
    record {
      context = context;
      title = a.title;
      is_context = delegation_context-IsContext manifest before context context_made;
      few = few;
      policy = policy;
      inherits = require-inr policy_refused _ policy inherits;
      creates = or_refuse-inr database_refused _ r created ∙ ap (λ q. inr (q.0, q.2)) same;
    }
