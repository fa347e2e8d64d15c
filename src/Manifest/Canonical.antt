-- ===== src/Manifest/Canonical.antt =====
-- The canonical JSON of a manifest determines the manifest.
use adrouter_agent.Prelude.{
  codes, text_lt, ◌≡◌, refl, sym, ap, ◌∙◌, Option, none, some, List, [], ◌∷◌,
}
use adrouter_agent.Json.{
  num, str, arr, obj, end, field, insert_field, canonicalize, canonicalize_items,
}
use adrouter_agent.TaskPolicy.{capability_text}
use adrouter_agent.Manifest.{
  Target, NetworkBinding, GitBinding, UnsignedManifest, target_kind_text, method_text, text_or_null,
  texts_json, target_json, targets_json, argv_json, network_json, git_json, manifest_json,
}
use adrouter_agent.Manifest.Names.{target_kind_text_inj, method_text_inj, capability_text_inj}
use adrouter_agent.Manifest.Values.{
  value_at, text_of, items_of, number_of, text_or_null_inj, texts_json_inj, argv_json_inj,
  head_item, tail_items, is_empty_items, is_object,
}

target_json-canonical :
    (t : Target)
    → canonicalize (target_json t)
      ≡ obj (
          field (codes "beforeHash") (canonicalize (text_or_null t.before_hash)) (
            field
              (codes "kind")
              (str (target_kind_text t.kind))
              (field (codes "path") (str t.path) end)))
unfolding canonicalize target_json insert_field text_lt
target_json-canonical t = refl

target_json_inj :
    (s t : Target) → canonicalize (target_json s) ≡ canonicalize (target_json t) → s ≡ t
target_json_inj s t h =
    let e = sym (target_json-canonical s) ∙ h ∙ target_json-canonical t in
    let hash = text_or_null_inj s.before_hash t.before_hash (ap (value_at 0) e) in
    let kind = target_kind_text_inj s.kind t.kind (ap (λ j. text_of (value_at 1 j)) e) in
    let path = ap (λ j. text_of (value_at 2 j)) e in
    λ i. record { path = path i; kind = kind i; before_hash = hash i }

targets_json_inj :
    (ss ts : List Target)
    → canonicalize_items (targets_json ss) ≡ canonicalize_items (targets_json ts)
    → ss ≡ ts
unfolding targets_json canonicalize
targets_json_inj [] [] h = refl
targets_json_inj [] (t ∷ ts) h = let e = ap is_empty_items h in cc
targets_json_inj (s ∷ ss) [] h = let e = ap is_empty_items h in cc
targets_json_inj (s ∷ ss) (t ∷ ts) h =
    let head = target_json_inj s t (ap head_item h) in
    let tail = targets_json_inj ss ts (ap tail_items h) in λ i. head i ∷ tail i

network_json-canonical :
    (n : NetworkBinding)
    → canonicalize (network_json (some n))
      ≡ obj (
          field (codes "host") (str n.host) (
            field (codes "maxResponseBytes") (num n.max_response_bytes) (
              field (codes "method") (str (method_text n.method)) (
                field
                  (codes "resolvedAddresses")
                  (arr (canonicalize_items (texts_json n.resolved_addresses)))
                  (field (codes "url") (str n.url) end)))))
unfolding canonicalize network_json insert_field text_lt
network_json-canonical n = refl

network_json_inj :
    (m n : Option NetworkBinding)
    → canonicalize (network_json m) ≡ canonicalize (network_json n)
    → m ≡ n
unfolding network_json canonicalize
network_json_inj none none h = refl
network_json_inj none (some n) h = let e = ap is_object h in cc
network_json_inj (some m) none h = let e = ap is_object h in cc
network_json_inj (some m) (some n) h =
    let e = sym (network_json-canonical m) ∙ h ∙ network_json-canonical n in
    let host = ap (λ j. text_of (value_at 0 j)) e in
    let bytes = ap (λ j. number_of (value_at 1 j)) e in
    let method = method_text_inj m.method n.method (ap (λ j. text_of (value_at 2 j)) e) in
    let addresses =
      texts_json_inj m.resolved_addresses n.resolved_addresses
        (ap (λ j. items_of (value_at 3 j)) e) in
    let url = ap (λ j. text_of (value_at 4 j)) e in
    λ i. some (record {
      method = method i;
      url = url i;
      host = host i;
      resolved_addresses = addresses i;
      max_response_bytes = bytes i;
    })

git_json-canonical :
    (g : GitBinding)
    → canonicalize (git_json (some g))
      ≡ obj (
          field (codes "headOid") (canonicalize (text_or_null g.head_oid)) (
            field
              (codes "indexTreeOid")
              (canonicalize (text_or_null g.index_tree_oid))
              (field (codes "ref") (canonicalize (text_or_null g.ref)) end)))
unfolding canonicalize git_json insert_field text_lt
git_json-canonical g = refl

git_json_inj :
    (g h : Option GitBinding) → canonicalize (git_json g) ≡ canonicalize (git_json h) → g ≡ h
unfolding git_json canonicalize
git_json_inj none none e = refl
git_json_inj none (some h) e = let x = ap is_object e in cc
git_json_inj (some g) none e = let x = ap is_object e in cc
git_json_inj (some g) (some h) e =
    let x = sym (git_json-canonical g) ∙ e ∙ git_json-canonical h in
    let head = text_or_null_inj g.head_oid h.head_oid (ap (value_at 0) x) in
    let tree = text_or_null_inj g.index_tree_oid h.index_tree_oid (ap (value_at 1) x) in
    let ref = text_or_null_inj g.ref h.ref (ap (value_at 2) x) in
    λ i. some (record { head_oid = head i; index_tree_oid = tree i; ref = ref i })

manifest_json-canonical :
    (m : UnsignedManifest)
    → canonicalize (manifest_json m)
      ≡ obj (
          field (codes "argv") (canonicalize (argv_json m.argv)) (
            field (codes "capability") (str (capability_text m.capability)) (
              field (codes "createdAt") (str m.created_at) (
                field (codes "expiresAt") (str m.expires_at) (
                  field (codes "git") (canonicalize (git_json m.git)) (
                    field (codes "network") (canonicalize (network_json m.network)) (
                      field (codes "operationId") (str m.operation_id) (
                        field (codes "policyVersion") (num 1) (
                          field
                            (codes "targets")
                            (arr (canonicalize_items (targets_json m.targets)))
                            (field (codes "threadId") (str m.thread_id) (
                              field (codes "turnId") (str m.turn_id) (
                                field
                                  (codes "version")
                                  (num 1)
                                  (field (codes "workspace") (str m.workspace) end)))))))))))))
unfolding canonicalize manifest_json insert_field text_lt
manifest_json-canonical m = refl

pub manifest_json_inj :
    (m n : UnsignedManifest)
    → canonicalize (manifest_json m) ≡ canonicalize (manifest_json n)
    → m ≡ n
manifest_json_inj m n h =
    let e = sym (manifest_json-canonical m) ∙ h ∙ manifest_json-canonical n in
    let argv = argv_json_inj m.argv n.argv (ap (value_at 0) e) in
    let capability =
      capability_text_inj m.capability n.capability (ap (λ j. text_of (value_at 1 j)) e) in
    let created = ap (λ j. text_of (value_at 2 j)) e in
    let expires = ap (λ j. text_of (value_at 3 j)) e in
    let git = git_json_inj m.git n.git (ap (value_at 4) e) in
    let network = network_json_inj m.network n.network (ap (value_at 5) e) in
    let operation = ap (λ j. text_of (value_at 6 j)) e in
    let targets = targets_json_inj m.targets n.targets (ap (λ j. items_of (value_at 8 j)) e) in
    let thread = ap (λ j. text_of (value_at 9 j)) e in
    let turn = ap (λ j. text_of (value_at 10 j)) e in
    let workspace = ap (λ j. text_of (value_at 12 j)) e in
    λ i. record {
      operation_id = operation i;
      capability = capability i;
      thread_id = thread i;
      turn_id = turn i;
      workspace = workspace i;
      targets = targets i;
      argv = argv i;
      network = network i;
      git = git i;
      created_at = created i;
      expires_at = expires i;
    }
