-- ===== src/Manifest/Delegation/Laws.antt =====
-- What delegated manifests carry, src/runtime/delegation.ts.
use adrouter_agent.Prelude.{
  Text, same_text_refl, trim, chosen, not_refused, and_then-inr, ℕ, ◌<◌, ◌≡◌, refl, ap, subst, ◌∙◌,
  ◌⊎◌, inl, inr, true, not, Option, none, some, List, [], ◌∷◌, arith,
}
use adrouter_agent.TaskPolicy.{OperationCapability, delegation_start, capability_text}
use adrouter_agent.Manifest.{
  Encoding, UnsignedManifest, OperationManifest, operation_manifest_binding,
}
use adrouter_agent.Manifest.Schema.{manifest_is_valid}
use adrouter_agent.Manifest.Operations.{
  ManifestError, invalid_manifest, CreateInput, create_operation_manifest, matches_expected,
  assert_operation_manifest,
}
use adrouter_agent.Manifest.Binding.{IsAsserted, assert_operation_manifest-IsAsserted}
use adrouter_agent.Manifest.Delegation.{
  title_unbounded, prompt_unbounded, title_is_safe, prompt_is_safe, DelegationSite, as_delegation,
  delegation_manifest, create_delegation_manifest, has_no_authority, argv_has_length, argument,
  own_of, assert_own, StartArguments, start_arguments_of, delegation_arguments,
}

as_delegation-inr {ℓ} :
    {A : Type ℓ} (r : ManifestError ⊎ A) (m : A) → as_delegation r ≡ inr m → r ≡ inr m
as_delegation-inr (inl x) m h = cc
as_delegation-inr (inr a) m h = ground arith

create_operation_manifest-inr :
    (e : Encoding) (now : ℕ) (id : Text) (input : CreateInput) (m : OperationManifest)
    → create_operation_manifest e now id input ≡ inr m
    → (manifest_is_valid e m ≡ true)
      × (m.binding ≡ operation_manifest_binding e m.unsigned)
      × (m.unsigned.capability ≡ input.capability)
      × (m.unsigned.argv ≡ input.argv)
      × (m.unsigned.targets ≡ input.targets)
      × (m.unsigned.network ≡ input.network)
      × (m.unsigned.git ≡ input.git)
unfolding create_operation_manifest
create_operation_manifest-inr e now id input m h =
    let (valid, same) = chosen _ _ m invalid_manifest h in
    (
      subst (λ x. manifest_is_valid e x ≡ true) same valid,
      subst (λ x. x.binding ≡ operation_manifest_binding e x.unsigned) same refl,
      subst (λ x. x.unsigned.capability ≡ input.capability) same refl,
      subst (λ x. x.unsigned.argv ≡ input.argv) same refl,
      subst (λ x. x.unsigned.targets ≡ input.targets) same refl,
      subst (λ x. x.unsigned.network ≡ input.network) same refl,
      subst (λ x. x.unsigned.git ≡ input.git) same refl,
    )

assert_own-IsAsserted :
    (e : Encoding) (now : ℕ) (c : OperationCapability) (m r : OperationManifest)
    → assert_own e now c m ≡ inr r
    → (m ≡ r) × IsAsserted e now (own_of c m.unsigned) r
unfolding assert_own
assert_own-IsAsserted e now c m r h =
    let (same, asserted) =
      assert_operation_manifest-IsAsserted e now (own_of c m.unsigned) m r
        (as_delegation-inr _ r h) in
    (same, subst (λ x. IsAsserted e now (own_of c m.unsigned) x) same asserted)

assert_own_made :
    (e : Encoding) (now : ℕ) (c : OperationCapability) (m : OperationManifest)
    → manifest_is_valid e m ≡ true
    → m.binding ≡ operation_manifest_binding e m.unsigned
    → m.unsigned.capability ≡ c
    → now < e.date_parse m.unsigned.expires_at
    → assert_own e now c m ≡ inr m
unfolding assert_own assert_operation_manifest matches_expected
assert_own_made e now c m valid bound same live = ground (
  arith,
  same_text_refl m.unsigned.operation_id,
  same_text_refl m.unsigned.thread_id,
  same_text_refl m.unsigned.turn_id,
  same_text_refl (capability_text c),
  same_text_refl m.binding,
)

has_no_authority_intro :
    (m : UnsignedManifest)
    → m.targets ≡ []
    → m.network ≡ none
    → m.git ≡ none
    → has_no_authority m ≡ true
unfolding has_no_authority
has_no_authority_intro m targets network git = rw (targets, network, git) refl

start_arguments_of_made :
    (m : OperationManifest) (title prompt : Text)
    → has_no_authority m.unsigned ≡ true
    → m.unsigned.argv ≡ some (title ∷ prompt ∷ [])
    → title_is_safe title ≡ true
    → prompt_is_safe prompt ≡ true
    → start_arguments_of m ≡ inr (record { manifest = m; title = title; prompt = prompt })
unfolding start_arguments_of
start_arguments_of_made m title prompt authority argv title_safe prompt_safe =
    rw
      (
        authority,
        ap (argv_has_length 2) argv,
        ap (argument 0) argv,
        ap (argument 1) argv,
        title_safe,
        prompt_safe,
      )
      refl

-- The list of two arguments from its length.
two_arguments :
    (argv : Option (List Text))
    → argv_has_length 2 argv ≡ true
    → argv ≡ some (argument 0 argv ∷ argument 1 argv ∷ [])
two_arguments none h = cc
two_arguments (some []) h = cc
two_arguments (some (a ∷ [])) h = cc
two_arguments (some (a ∷ b ∷ [])) h = refl
two_arguments (some (a ∷ b ∷ c ∷ argv)) h = absurd (ground arith)

start_arguments_of-inr :
    (m : OperationManifest) (a : StartArguments)
    → start_arguments_of m ≡ inr a
    → (m ≡ a.manifest)
      × (m.unsigned.argv ≡ some (a.title ∷ a.prompt ∷ []))
      × (has_no_authority m.unsigned ≡ true)
      × (title_is_safe a.title ≡ true)
      × (prompt_is_safe a.prompt ≡ true)
unfolding start_arguments_of
start_arguments_of-inr m a h =
    let two = two_arguments m.unsigned.argv (ground arith) in
    (ground arith, ground arith, ground arith, ground arith, ground arith)

-- A delegated task's manifest, as long as it is not expired, is accepted as it was made, and gives
-- back its title and its prompt, both trimmed.
pub delegation_arguments-create_delegation_manifest :
    (e : Encoding) (now later : ℕ) (id : Text) (site : DelegationSite) (title prompt : Text)
    (m : OperationManifest)
    → create_delegation_manifest e now id site title prompt ≡ inr m
    → later < e.date_parse m.unsigned.expires_at
    → delegation_arguments e later m
      ≡ inr (record { manifest = m; title = trim title; prompt = trim prompt })
unfolding create_delegation_manifest delegation_manifest delegation_arguments
delegation_arguments-create_delegation_manifest e now later id site title prompt m h live =
    let (title_safe, k) = not_refused (not (title_is_safe (trim title))) _ m title_unbounded h in
    let (prompt_safe, l) =
      not_refused (not (prompt_is_safe (trim prompt))) _ m prompt_unbounded k in
    let (valid, bound, capability, argv, targets, network, git) =
      create_operation_manifest-inr e now id _ m (as_delegation-inr _ m l) in
    rw (assert_own_made e later delegation_start m valid bound capability live) (
      start_arguments_of_made m (trim title) (trim prompt)
        (has_no_authority_intro m.unsigned targets network git) argv (ground (arith, title_safe))
        (ground (arith, prompt_safe)))

-- Arguments that are accepted come from an asserted manifest of the capability `delegation.start`
-- without targets, network or repository, whose two arguments they are, and both are bounded.
pub delegation_arguments-IsAsserted :
    (e : Encoding) (now : ℕ) (m : OperationManifest) (a : StartArguments)
    → delegation_arguments e now m ≡ inr a
    → (m ≡ a.manifest)
      × (a.manifest.unsigned.capability ≡ delegation_start)
      × (a.manifest.unsigned.argv ≡ some (a.title ∷ a.prompt ∷ []))
      × (has_no_authority a.manifest.unsigned ≡ true)
      × (title_is_safe a.title ≡ true)
      × (prompt_is_safe a.prompt ≡ true)
      × (now < e.date_parse a.manifest.unsigned.expires_at)
unfolding delegation_arguments
delegation_arguments-IsAsserted e now m a h =
    let (r, asserted, k) =
      and_then-inr (assert_own e now delegation_start m) start_arguments_of a h in
    let (same, own) = assert_own-IsAsserted e now delegation_start m r asserted in
    let (kept, argv, authority, title_safe, prompt_safe) = start_arguments_of-inr r a k in
    let IsAsserted_a =
      subst (λ x. IsAsserted e now (own_of delegation_start m.unsigned) x) kept own in
    (
      same ∙ kept,
      IsAsserted_a.capability,
      subst (λ x. x.unsigned.argv ≡ some (a.title ∷ a.prompt ∷ [])) kept argv,
      subst (λ x. has_no_authority x.unsigned ≡ true) kept authority,
      title_safe,
      prompt_safe,
      IsAsserted_a.live,
    )
