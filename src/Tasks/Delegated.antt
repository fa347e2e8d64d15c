-- ===== src/Tasks/Delegated.antt =====
-- What a delegated child may do.
use adrouter_agent.Prelude.{
  if◌then◌else◌, Bool-cases, Sum-cases, length, Text, same_text, same_text_refl, chosen,
  and_then-inr, ℕ, ◌≤◌, ◌≡◌, refl, sym, ap, subst, ◌∙◌, inl, inr, Bool, true, false, none, some, [],
  ◌∷◌, ◌++◌, arith,
}
use adrouter_agent.TaskPolicy.{
  TaskCapabilityPolicy, effective_task_capability_policy, OperationCapability, delegation_start,
  operation_capability_allowed, TaskPolicySnapshot, snapshot_is_valid, Digest, finalize_snapshot,
  inherited_policy_snapshot,
}
use adrouter_agent.Scheduler.{PermissionMode, read_only, workspace_write, has}
use adrouter_agent.TaskPolicy.Grants.{
  delegates, family, IsGranted, grants_delegates, operation_capability_allowed_iff, self, child,
  inherited_policy_snapshot_weaker,
}
use adrouter_agent.Manifest.{OperationManifest}
use adrouter_agent.Database.{
  Thread, thread_lifecycle, Database, thread_not_found, invalid_policy, policy_unavailable, found,
  get_thread,
}
use adrouter_agent.Database.Rows.{by_key_id, by_key-append, found-inr, some_inj}
use adrouter_agent.Database.Journal.{Context}
use adrouter_agent.Database.Threads.{
  ThreadInput, starting_policy, make_thread, get_task_policy_snapshot,
}
use adrouter_agent.Projection.Steps.{touched, get_thread-Appended}
use adrouter_agent.Tasks.{TaskError, owned_delegated_children, child_input, admit_delegated}
use adrouter_agent.Tasks.Children.{Created, create_thread-Created, owned_delegated_children_created}
use adrouter_agent.Tasks.Admission.{IsAdmitted, admit_delegated-IsAdmitted}

-- The child's policy, from its parent's.
child_policy :
    (digest : Digest) (c : Context) (id : Text) (manifest : OperationManifest) (t : Thread)
    (before after : Database) (admitted : IsAdmitted digest c id manifest t before after)
    → t.policy_snapshot ≡ some admitted.policy
unfolding make_thread starting_policy
child_policy digest c id manifest t before after admitted =
    let made = create_thread-Created digest c id _ t before after admitted.creates in
    let given =
      chosen_some (snapshot_is_valid admitted.policy.body) admitted.policy made.policy
        made.starts in
    sym (ap (λ u. u.policy_snapshot) made.made) ∙ ap some (sym given)
  where
    chosen_some :
        (b : Bool) (s u : TaskPolicySnapshot) → (if b then some s else none) ≡ some u → s ≡ u
    chosen_some true s u h = some_inj s u h
    chosen_some false s u h = cc

inherits_no_delegation :
    (digest : Digest) (parent s : TaskPolicySnapshot) (at : ℕ)
    → inherited_policy_snapshot digest parent true at ≡ some s
    → s.body.capability_policy.delegation ≡ false
unfolding inherited_policy_snapshot finalize_snapshot snapshot_is_valid
inherits_no_delegation digest parent s at h = ground arith

-- A child that is admitted belongs to the task that asks, whose delegated children in the project
-- are at most three with it, archived ones apart.
pub admit_delegated-IsBounded :
    (digest : Digest) (c : Context) (id : Text) (manifest : OperationManifest) (t : Thread)
    (prompt : Text) (before after : Database)
    → admit_delegated digest c id manifest before ≡ inr (t, prompt, after)
    → (t.parent_thread_id ≡ some manifest.unsigned.thread_id)
      × (length (owned_delegated_children manifest.unsigned.thread_id t.project_id after) ≤ 3)
unfolding get_thread make_thread
admit_delegated-IsBounded digest c id manifest t prompt before after h =
    let admitted = admit_delegated-IsAdmitted digest c id manifest t prompt before after h in
    let context = admitted.context in
    let input = child_input context admitted.title admitted.policy in
    let made = create_thread-Created digest c id input t before after admitted.creates in
    let parent =
      by_key_id (λ u. u.id) manifest.unsigned.thread_id before.threads context.parent
        admitted.is_context.parent in
    let project = ap (λ u. u.project_id) made.made in
    let more =
      owned_delegated_children_created digest c id input t before after context.parent.id
        context.project.id admitted.creates in
    (
      sym (ap (λ u. u.parent_thread_id) made.made) ∙ ap some parent,
      subst (λ o. length (owned_delegated_children o t.project_id after) ≤ 3) parent
          (subst (λ o. length (owned_delegated_children context.parent.id o after) ≤ 3) project
            (ground (arith, more, admitted.few))),
    )

no_delegation :
    (s : TaskPolicySnapshot)
    → s.body.capability_policy.delegation ≡ false
    → operation_capability_allowed s.body.capability_policy delegation_start ≡ false
unfolding family
no_delegation s h =
    elim (Bool-cases (operation_capability_allowed s.body.capability_policy delegation_start)) [
      | inl e ↦ absurd (
          refuses
            ((operation_capability_allowed_iff s.body.capability_policy delegation_start).0 e))
      | inr e ↦ e
    ]
  where
    refuses : IsGranted s.body.capability_policy delegates → ⊥
    refuses (grants_delegates e) = absurd (cc)

-- A child that is admitted may do nothing that its parent may not, and may not delegate.
pub admit_delegated-IsNarrower :
    (digest : Digest) (c : Context) (id : Text) (manifest : OperationManifest) (t : Thread)
    (prompt : Text) (before after : Database)
    → admit_delegated digest c id manifest before ≡ inr (t, prompt, after)
    → (parent : TaskPolicySnapshot) × (s : TaskPolicySnapshot) × (get_task_policy_snapshot
          manifest.unsigned.thread_id before
        ≡ inr parent)
      × (t.policy_snapshot ≡ some s)
      × (operation_capability_allowed s.body.capability_policy delegation_start ≡ false)
      × ((capability : OperationCapability)
          → operation_capability_allowed s.body.capability_policy capability ≡ true
          → operation_capability_allowed parent.body.capability_policy capability ≡ true)
unfolding get_thread
admit_delegated-IsNarrower digest c id manifest t prompt before after h =
    let admitted = admit_delegated-IsAdmitted digest c id manifest t prompt before after h in
    let context = admitted.context in
    let is_parent =
      by_key_id (λ u. u.id) manifest.unsigned.thread_id before.threads context.parent
        admitted.is_context.parent in
    (
      context.parent_policy,
      admitted.policy,
      subst (λ i. get_task_policy_snapshot i before ≡ inr context.parent_policy) is_parent
          admitted.is_context.policy,
      child_policy digest c id manifest t before after admitted,
      no_delegation admitted.policy (
          inherits_no_delegation digest context.parent_policy admitted.policy c.now
            admitted.inherits),
      λ capability.
          inherited_policy_snapshot_weaker digest context.parent_policy admitted.policy capability
            (child true c.now (self context.parent_policy) admitted.inherits),
    )

effective_by_access :
    (mode : PermissionMode) (p : TaskCapabilityPolicy)
    → p.workspace_access ≡ mode
    → (effective_task_capability_policy p).delegation ≡ p.delegation
unfolding effective_task_capability_policy
effective_by_access read_only p e = rw e refl
effective_by_access workspace_write p e = rw e refl

stored_policy :
    (i : Text) (db : Database) (row : Thread) (p : TaskPolicySnapshot)
    → get_task_policy_snapshot i db ≡ inr p
    → get_thread i db ≡ some row
    → row.policy_snapshot ≡ some p
unfolding get_task_policy_snapshot
stored_policy i db row p h there =
    let (thread, found_thread, k) = and_then-inr (found thread_not_found (get_thread i db)) _ p h in
    let (s, has, l) = and_then-inr (found policy_unavailable thread.policy_snapshot) _ p k in
    let (valid, same) = chosen (snapshot_is_valid s.body) s p invalid_policy l in
    let is_row =
      some_inj thread row
        (sym (found-inr thread_not_found (get_thread i db) thread found_thread) ∙ there) in
    ap (λ y. y.policy_snapshot) (sym is_row)
    ∙ found-inr policy_unavailable thread.policy_snapshot s has
    ∙ ap some same

-- The row of an admitted child.
admitted_row :
    (digest : Digest) (c : Context) (id : Text) (input : ThreadInput) (t : Thread)
    (before after : Database)
    → get_thread id before ≡ none
    → Created digest c id input t before after
    → (row : Thread) × (get_thread id after ≡ some row) × (row.policy_snapshot ≡ t.policy_snapshot)
unfolding get_thread make_thread
admitted_row digest c id input t before after fresh made =
    let new = make_thread c id made.policy input in
    let mid = record before { threads = before.threads ++ new ∷ [] } in
    let there : get_thread id mid ≡ some new =
      by_key-append (λ u. u.id) id before.threads new fresh ∙ rw (same_text_refl id) refl in
    let is_id : same_text id id ≡ true = same_text_refl id in
    let touched_row =
      get_thread-Appended c id none thread_lifecycle _ made.event mid after made.appended id in
    (touched c new, touched_row ∙ rw (there, is_id) refl, ap (λ u. u.policy_snapshot) made.made)

-- A child that was admitted under a new id admits no children itself: every manifest in its name is
-- refused in the database that its admission left.
pub admit_delegated-depth :
    (digest : Digest) (c next : Context) (id other : Text) (manifest own : OperationManifest)
    (t : Thread) (prompt : Text) (before after : Database)
    → get_thread id before ≡ none
    → admit_delegated digest c id manifest before ≡ inr (t, prompt, after)
    → own.unsigned.thread_id ≡ id
    → (x : TaskError) × (admit_delegated digest next other own after ≡ inl x)
unfolding get_thread
admit_delegated-depth digest c next id other manifest own t prompt before after fresh h names =
    let admitted = admit_delegated-IsAdmitted digest c id manifest t prompt before after h in
    elim (Sum-cases (admit_delegated digest next other own after)) [
      | inl (x, k) ↦ (x, k)
      | inr ((u, p, db), k) ↦
          let second = admit_delegated-IsAdmitted digest next other own u p after db k in
          let (row, there, policy) = admitted_row digest c id _ t before after fresh (
            create_thread-Created digest c id
              (child_input admitted.context admitted.title admitted.policy) t before after
              admitted.creates) in
          let p_here =
            subst (λ i. get_thread i after ≡ some second.context.parent) names
              second.is_context.parent in
          let parent_id = by_key_id (λ u. u.id) id after.threads second.context.parent p_here in
          let stored =
            stored_policy id after row second.context.parent_policy
              (subst (λ i. get_task_policy_snapshot i after ≡ inr second.context.parent_policy)
                parent_id second.is_context.policy)
              there in
          let same =
            some_inj second.context.parent_policy admitted.policy
              (sym stored ∙ policy ∙ child_policy digest c id manifest t before after admitted) in
          let none_allowed =
            inherits_no_delegation digest admitted.context.parent_policy admitted.policy c.now
              admitted.inherits in
          let allowed : admitted.policy.body.capability_policy.delegation ≡ true =
            sym (effective_by_access _ admitted.policy.body.capability_policy refl)
            ∙ subst
                (λ s. (effective_task_capability_policy s.body.capability_policy).delegation ≡ true)
                same second.is_context.may_delegate in
          absurd (cc)
    ]
