-- ===== src/CommandPolicy/Laws.antt =====
-- What a command that runs without asking is known not to do.
use adrouter_agent.Prelude.{
  Bool-cases, length, any, Text, codes, same_text, same_text_sound, same_text_refl, lower_unit,
  to_lower_case, text_in, starts_with, includes, ends_with, split_on, is_space, trim_start, trim,
  is_empty, fold_unit, fold_case, ◌≡◌, refl, ap, ◌≢◌, ◌↔◌, ◌⊎◌, inl, inr, true, false, List, [],
  ◌∷◌, arith,
}
use adrouter_agent.CommandPolicy.{
  network_binaries, denied_binaries, read_only_binaries, shells, is_sensitive_segment,
  matches_sensitive_path, behind_equals, argument_value, is_drive_path, is_outside_path,
  references_outside_workspace, references_sensitive_path, is_dependency_operation, git_inspections,
  git_index_flags, is_git_read_only, is_test_command, contains_shell_syntax, last_text,
  drop_extension, command_name,
}
use adrouter_agent.CommandPolicy.Classify.{
  allow, approval, deny, low, high, CommandAssessment, destructive_git, interpreters, classify_git,
  classify_interpreter, classify_program, classify_binary, is_bad_argument, classify_command,
  ApprovalDecision, reject, every_part, approval_allows_command,
}

-- The programs that may run without asking.
pub data IsTame (command : Text) (args : List Text) : Type 0 where
  git_inspection :
      command ≡ codes "git"
      → is_git_read_only args ≡ true
      → any (λ arg. text_in arg destructive_git) args ≡ false
      → IsTame command args
  version : text_in command interpreters ≡ true → length args ≡ 1 → IsTame command args
  local_check : is_test_command command args ≡ true → IsTame command args
  inspection : text_in command read_only_binaries ≡ true → IsTame command args

classify_program_allow :
    (command : Text) (args : List Text)
    → (classify_program command args).disposition ≡ allow
    → IsTame command args
unfolding classify_program classify_git classify_interpreter
classify_program_allow command args h = elim (Bool-cases (same_text command (codes "git"))) [
  | inl git ↦
      git_inspection (same_text_sound command (codes "git") git) (ground arith) (ground arith)
  | inr other ↦ elim (Bool-cases (text_in command interpreters)) [
    | inl interpreter ↦ version interpreter (ground arith)
    | inr compiled ↦ elim (Bool-cases (is_test_command command args)) [
      | inl test ↦ local_check test
      | inr tool ↦ inspection (ground arith)
    ]
  ]
]

-- What a command passed, and the program that it runs.
pub record IsHarmless (executable : Text) (args : List Text) : Type 0 where
  pub named : is_empty (trim executable) ≡ false
  pub bounded : any is_bad_argument (executable ∷ args) ≡ false
  pub plain : contains_shell_syntax (executable ∷ args) ≡ false
  pub inside : references_outside_workspace (executable ∷ args) ≡ false
  pub open_paths : references_sensitive_path (executable ∷ args) ≡ false
  pub local : text_in (command_name executable) network_binaries ≡ false
  pub permitted : text_in (command_name executable) denied_binaries ≡ false
  pub no_shell : text_in (command_name executable) shells ≡ false
  pub no_install : is_dependency_operation (command_name executable) args ≡ false
  pub tame : IsTame (command_name executable) args

classify_binary_allow :
    (command : Text) (args : List Text)
    → (classify_binary command args).disposition ≡ allow
    → (text_in command network_binaries ≡ false)
      × (text_in command denied_binaries ≡ false)
      × (text_in command shells ≡ false)
      × (is_dependency_operation command args ≡ false)
      × ((classify_program command args).disposition ≡ allow)
unfolding classify_binary
classify_binary_allow command args h =
    (ground arith, ground arith, ground arith, ground arith, ground arith)

pub classify_command-IsHarmless :
    (executable : Text) (args : List Text)
    → (classify_command (executable ∷ args)).disposition ≡ allow
    → IsHarmless executable args
unfolding classify_command
classify_command-IsHarmless executable args h =
    let argv = executable ∷ args in
    let (local, permitted, no_shell, no_install, program) =
      classify_binary_allow (command_name executable) args (ground arith) in
    record {
      named = ground arith;
      bounded = ground arith;
      plain = ground arith;
      inside = ground arith;
      open_paths = ground arith;
      local = local;
      permitted = permitted;
      no_shell = no_shell;
      no_install = no_install;
      tame = classify_program_allow (command_name executable) args program;
    }

abbrev pub MatchesRisk : CommandAssessment → Type 0
MatchesRisk a =
    ((a.disposition ≡ allow) × (a.risk ≡ low))
    ⊎ ((a.disposition ≡ deny) × (a.risk ≡ high))
    ⊎ ((a.disposition ≡ approval) × (a.risk ≢ low))

classify_program-MatchesRisk :
    (command : Text) (args : List Text) → MatchesRisk (classify_program command args)
unfolding classify_program classify_git classify_interpreter
classify_program-MatchesRisk command args = ground arith

classify_binary-MatchesRisk :
    (command : Text) (args : List Text) → MatchesRisk (classify_binary command args)
unfolding classify_binary
classify_binary-MatchesRisk command args = ground (arith, classify_program-MatchesRisk command args)

-- The risk goes with the disposition: what is allowed is low, what is denied is high, and what
-- asks is not low.
pub classify_command-MatchesRisk : (argv : List Text) → MatchesRisk (classify_command argv)
unfolding classify_command
classify_command-MatchesRisk [] = ground arith
classify_command-MatchesRisk (executable ∷ args) =
    ground (arith, classify_binary-MatchesRisk (command_name executable) args)

every_part_same :
    (expected actual : List Text)
    → length expected ≡ length actual
    → (every_part expected actual ≡ true) ↔ (expected ≡ actual)
unfolding every_part
every_part_same [] [] h = (λ e. refl, λ e. refl)
every_part_same [] (a ∷ actual) h = absurd (omega arith)
every_part_same (e ∷ expected) [] h = absurd (omega arith)
every_part_same (e ∷ expected) (a ∷ actual) h =
    let same = every_part_same expected actual (omega arith) in
    (
      λ p. ground (arith, same_text_sound a e, same.0),
      λ p. ground (arith, same_text_refl a, same.1),
    )

-- A decision covers a command exactly when it is no rejection and the command is word for word the
-- one that was shown.
pub approval_allows_command_iff :
    (decision : ApprovalDecision) (expected actual : List Text)
    → (approval_allows_command decision expected actual ≡ true)
      ↔ ((decision ≢ reject) × (expected ≡ actual))
unfolding approval_allows_command
approval_allows_command_iff decision expected actual = (
  λ h.
      let same = every_part_same expected actual (ground arith) in
      (ground arith, same.0 (ground arith)),
  λ h.
      let same = every_part_same expected actual (ap length h.1) in
      ground (arith, same.1 h.1, ap length h.1),
)

-- A shell is never allowed.
pub classify_command_shell :
    (executable : Text) (args : List Text)
    → text_in (command_name executable) shells ≡ true
    → (classify_command (executable ∷ args)).disposition ≢ allow
classify_command_shell executable args shell h =
    let harmless = classify_command-IsHarmless executable args h in
    absurd (ground (arith, harmless.no_shell))

-- A branch name that no earlier check stops.
pub record IsPlainName (name : Text) : Type 0 where
  pub bounded : is_bad_argument name ≡ false
  pub plain : contains_shell_syntax (name ∷ []) ≡ false
  pub inside : references_outside_workspace (name ∷ []) ≡ false
  pub open_path : references_sensitive_path (name ∷ []) ≡ false
  pub harmless : text_in name destructive_git ≡ false
  pub no_flag : text_in name git_index_flags ≡ false

abbrev pub branch_delete : Text → List Text
branch_delete name = codes "git" ∷ codes "branch" ∷ codes "-D" ∷ name ∷ []

branch_delete_plain :
    (name : Text) → IsPlainName name → contains_shell_syntax (branch_delete name) ≡ false
unfolding contains_shell_syntax
branch_delete_plain name n = n.plain

branch_delete_inside :
    (name : Text) → IsPlainName name → references_outside_workspace (branch_delete name) ≡ false
unfolding references_outside_workspace argument_value behind_equals is_outside_path is_drive_path
    starts_with includes same_text fold_unit
branch_delete_inside name n = n.inside

branch_delete_open :
    (name : Text) → IsPlainName name → references_sensitive_path (branch_delete name) ≡ false
unfolding references_sensitive_path argument_value behind_equals matches_sensitive_path
    is_sensitive_segment split_on starts_with same_text fold_case fold_unit text_in
branch_delete_open name n = n.open_path

git_name : (command_name (codes "git") ≡ codes "git") × (is_empty (trim (codes "git")) ≡ false)
unfolding command_name split_on last_text to_lower_case lower_unit drop_extension fold_case
    fold_unit ends_with same_text trim trim_start is_space
git_name = (refl, refl)

git_branch_words :
    (text_in (codes "branch") destructive_git ≡ false)
    × (text_in (codes "-D") destructive_git ≡ false)
    × (text_in (codes "branch") git_inspections ≡ true)
    × (text_in (codes "-D") git_index_flags ≡ false)
unfolding text_in same_text
git_branch_words = (refl, refl, refl, refl)

git_branch_args :
    (name : Text)
    → IsPlainName name
    → (any (λ arg. text_in arg destructive_git) (codes "branch" ∷ codes "-D" ∷ name ∷ []) ≡ false)
      × (is_git_read_only (codes "branch" ∷ codes "-D" ∷ name ∷ []) ≡ true)
unfolding is_git_read_only
git_branch_args name n =
    let (a, b, c, d) = git_branch_words in (rw (a, b, n.harmless) refl, rw (c, d, n.no_flag) refl)

git_binary : (args : List Text) → classify_binary (codes "git") args ≡ classify_git args
unfolding classify_binary classify_program is_dependency_operation text_in same_text
git_binary args = refl

-- `git branch -D name`, which deletes a branch, runs without asking for every plain name.
pub classify_command-branch_delete :
    (name : Text) → IsPlainName name → (classify_command (branch_delete name)).disposition ≡ allow
unfolding classify_command classify_git
classify_command-branch_delete name n =
    let args = codes "branch" ∷ codes "-D" ∷ name ∷ [] in
    let (not_destructive, read_only) = git_branch_args name n in
    ground (
      arith,
      git_name,
      n.bounded,
      branch_delete_plain name n,
      branch_delete_inside name n,
      branch_delete_open name n,
      git_binary args,
      not_destructive,
      read_only,
    )
