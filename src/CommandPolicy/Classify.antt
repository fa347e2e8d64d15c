-- ===== src/CommandPolicy/Classify.antt =====
-- `classifyCommand` and `approvalAllowsCommand` of src/runtime/command-policy.ts. The reason is the
-- message that the user is shown.
use adrouter_agent.Prelude.{
  ltb, ◌==◌, if◌then◌else◌, length, any, Text, codes, same_text, text_in, starts_with, trim,
  is_empty, ℕ, String, Bool, true, false, not, ◌&&◌, ◌||◌, List, [], ◌∷◌, map,
}
use adrouter_agent.CommandPolicy.{
  network_binaries, denied_binaries, read_only_binaries, shells, references_outside_workspace,
  references_sensitive_path, is_dependency_operation, is_git_read_only, arg_at, is_test_command,
  contains_shell_syntax, command_name,
}

pub data Disposition : Type 0 where
  allow approval deny : Disposition

pub data Risk : Type 0 where
  low medium high : Risk

pub record CommandAssessment : Type 0 where
  pub disposition : Disposition
  pub risk : Risk
  pub reason : String

abbrev pub destructive_git : List Text
destructive_git = map codes (
    "reset" ∷ "clean" ∷ "checkout" ∷ "restore" ∷ "rebase" ∷ "merge" ∷ "commit" ∷ "push" ∷ "pull"
    ∷ [])

abbrev pub find_actions : List Text
find_actions = map codes ("-delete" ∷ "-exec" ∷ "-execdir" ∷ "-ok" ∷ "-okdir" ∷ [])

abbrev pub interpreters : List Text
interpreters = map codes ("node" ∷ "python" ∷ "python3" ∷ [])

-- The branch for `git`.
unfoldable pub classify_git : List Text → CommandAssessment
classify_git args =
    if any (λ arg. text_in arg destructive_git) args
    then (record {
      disposition = deny;
      risk = high;
      reason = "Destructive or remote Git operations are disabled.";
    })
    else if is_git_read_only args
    then (record {
      disposition = allow;
      risk = low;
      reason = "Read-only Git inspection is allowed.";
    })
    else (record {
      disposition = approval;
      risk = medium;
      reason = "This Git command needs explicit approval.";
    })

-- The branch for `node` and `python`.
unfoldable pub classify_interpreter : List Text → CommandAssessment
classify_interpreter args =
    if length args == 1 && text_in (arg_at args 0) (map codes ("--version" ∷ "-v" ∷ []))
    then (record {
      disposition = allow;
      risk = low;
      reason = "Runtime version inspection is allowed.";
    })
    else (record {
      disposition = approval;
      risk = medium;
      reason = "Interpreted code requires explicit approval.";
    })

-- The branches from `git` on.
unfoldable pub classify_program : Text → List Text → CommandAssessment
classify_program command args =
    if same_text command (codes "git")
    then classify_git args
    else if same_text command (codes "find") && any (λ arg. text_in arg find_actions) args
    then (record {
      disposition = deny;
      risk = high;
      reason = "find actions that execute or delete are disabled.";
    })
    else if same_text command (codes "sed") && any (λ arg. starts_with arg (codes "-i")) args
    then (record {
      disposition = deny;
      risk = high;
      reason = "In-place command edits must use apply_patch instead.";
    })
    else if text_in command interpreters
    then classify_interpreter args
    else if is_test_command command args
    then (record {
      disposition = allow;
      risk = low;
      reason = "A local test, lint, or typecheck command is allowed.";
    })
    else if text_in command read_only_binaries
    then (record {
      disposition = allow;
      risk = low;
      reason = "A conservative workspace inspection command is allowed.";
    })
    else (record {
      disposition = approval;
      risk = medium;
      reason = "Unknown commands require explicit approval.";
    })

-- The branches from the binaries on.
unfoldable pub classify_binary : Text → List Text → CommandAssessment
classify_binary command args =
    if text_in command network_binaries
    then (record {
      disposition = deny;
      risk = high;
      reason = "Agent command networking is disabled.";
    })
    else if text_in command denied_binaries
    then (record {
      disposition = deny;
      risk = high;
      reason = "This command is outside the desktop agent safety policy.";
    })
    else if text_in command shells
    then (record {
      disposition = approval;
      risk = high;
      reason = "Shell execution requires approval of the exact argv and remains sandboxed.";
    })
    else if is_dependency_operation command args
    then (record {
      disposition = deny;
      risk = high;
      reason = "Dependency installation and package changes are disabled.";
    })
    else classify_program command args

abbrev pub max_argument_length : ℕ
max_argument_length = 8192

-- The arguments that no command may have.
abbrev pub is_bad_argument : Text → Bool
is_bad_argument arg = is_empty arg || ltb max_argument_length (length arg)

unfoldable pub classify_command : List Text → CommandAssessment
classify_command [] = (record {
  disposition = deny;
  risk = high;
  reason = "Commands must include a program argv[0].";
})
classify_command (executable ∷ args) =
    let argv = executable ∷ args in
    let command = command_name executable in
    if is_empty (trim executable)
    then (record {
      disposition = deny;
      risk = high;
      reason = "Commands must include a program argv[0].";
    })
    else if any is_bad_argument argv
    then (record {
      disposition = deny;
      risk = high;
      reason = "Command arguments must be non-empty and bounded.";
    })
    else if not (text_in command shells) && contains_shell_syntax argv
    then (record {
      disposition = deny;
      risk = high;
      reason =
          "Shell operators and command interpolation are not accepted; provide a plain argv array.";
    })
    else if references_outside_workspace argv
    then (record {
      disposition = deny;
      risk = high;
      reason = "Commands cannot access paths outside the selected workspace.";
    })
    else if references_sensitive_path argv
    then (record {
      disposition = deny;
      risk = high;
      reason = "Credential-bearing and protected paths are unavailable to agent commands.";
    })
    else classify_binary command args

pub data ApprovalDecision : Type 0 where
  allow_once allow_thread reject : ApprovalDecision

-- `expectedArgv.every((part, index) => actualArgv[index] === part)`
unfoldable pub every_part : List Text → List Text → Bool
every_part [] actual = true
every_part (e ∷ expected) [] = false
every_part (e ∷ expected) (a ∷ actual) = same_text a e && every_part expected actual

abbrev pub is_rejection : ApprovalDecision → Bool
is_rejection reject = true
is_rejection allow_once = false
is_rejection allow_thread = false

unfoldable pub approval_allows_command : ApprovalDecision → List Text → List Text → Bool
approval_allows_command decision expected actual =
    not (is_rejection decision) && length expected == length actual && every_part expected actual
