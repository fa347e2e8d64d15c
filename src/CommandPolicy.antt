-- ===== src/CommandPolicy.antt =====
-- What agent commands may run, src/runtime/command-policy.ts.
pub mod Classify
pub mod Laws
pub mod Paths
use adrouter_agent.Prelude.{
  leb, ◌==◌, if◌then◌else◌, length, get_elem?, take, drop, any, Text, codes, same_text,
  to_lower_case, text_in, starts_with, includes, ends_with, split_on, is_empty, fold_unit,
  fold_case, ℕ, ◌-◌, Bool, false, not, ◌&&◌, ◌||◌, Option, none, some, List, [], ◌∷◌, map,
}

abbrev pub network_binaries : List Text
network_binaries = map codes (
    "curl" ∷ "wget" ∷ "ftp" ∷ "ssh" ∷ "scp" ∷ "sftp" ∷ "nc" ∷ "ncat" ∷ "telnet" ∷ "ping"
    ∷ "git-remote-https" ∷ [])

abbrev pub denied_binaries : List Text
denied_binaries = map codes (
    "sudo" ∷ "su" ∷ "doas" ∷ "chmod" ∷ "chown" ∷ "chflags" ∷ "launchctl" ∷ "osascript" ∷ "kill"
    ∷ "killall" ∷ "pkill" ∷ "dd" ∷ "mkfs" ∷ "diskutil" ∷ "mount" ∷ "umount" ∷ "rm" ∷ "rmdir" ∷ "mv"
    ∷ "cp" ∷ "touch" ∷ [])

abbrev pub read_only_binaries : List Text
read_only_binaries = map codes (
    "pwd" ∷ "ls" ∷ "find" ∷ "rg" ∷ "grep" ∷ "sed" ∷ "head" ∷ "tail" ∷ "cat" ∷ "wc" ∷ "git" ∷ "node"
    ∷ "npm" ∷ "pnpm" ∷ "yarn" ∷ "bun" ∷ "python" ∷ "python3" ∷ [])

abbrev pub shells : List Text
shells = map codes ("sh" ∷ "bash" ∷ "zsh" ∷ "pwsh" ∷ "powershell" ∷ "cmd" ∷ [])

abbrev pub package_managers : List Text
package_managers = map codes ("npm" ∷ "pnpm" ∷ "yarn" ∷ "bun" ∷ [])

-- The class `[/:\\]`.
abbrev pub is_path_separator : ℕ → Bool
is_path_separator c = c == b'/' || c == b':' || c == 92

abbrev pub sensitive_names : List Text
sensitive_names = map codes (
    ".env" ∷ ".ssh" ∷ ".aws" ∷ ".netrc" ∷ ".npmrc" ∷ ".pypirc" ∷ "id_rsa" ∷ "id_dsa" ∷ "id_ecdsa"
    ∷ "id_ed25519" ∷ "credentials" ∷ "credentials.json" ∷ "service-account.json" ∷ "secret.json"
    ∷ "secrets.json" ∷ [])

-- What stands between the boundaries of SENSITIVE_PATH_SEGMENT, which holds no separator: a match is
-- a whole segment between separators.
unfoldable pub is_sensitive_segment : Text → Bool
is_sensitive_segment segment =
    let folded = fold_case segment in
    text_in folded sensitive_names
    || (starts_with folded (codes ".env.") && not (is_empty (drop 5 folded)))

unfoldable pub matches_sensitive_path : Text → Bool
matches_sensitive_path s = any is_sensitive_segment (split_on is_path_separator s)

unfoldable pub behind_equals : Text → Option Text
behind_equals [] = none
behind_equals (c ∷ s) = if c == b'=' then some s else behind_equals s

-- Behind the first `=`, if there is one.
unfoldable pub argument_value : Text → Text
argument_value argument = elim (behind_equals argument) [ none ↦ argument | some value ↦ value ]

-- `/^[a-z]:[\\\\/]/i`
unfoldable pub is_drive_path : Text → Bool
is_drive_path (c ∷ d ∷ e ∷ s) =
    (leb b'a' (fold_unit c) && leb (fold_unit c) b'z') && d == b':' && (e == 92 || e == b'/')
is_drive_path s = false

unfoldable pub is_outside_path : Text → Bool
is_outside_path value =
    starts_with value (codes "/")
    || starts_with value (codes "~")
    || is_drive_path value
    || starts_with value (92 ∷ 92 ∷ [])
    || starts_with value (codes "file:")
    || same_text value (codes "..")
    || starts_with value (codes "../")
    || starts_with value (b'.' ∷ b'.' ∷ 92 ∷ [])
    || includes value (codes "/../")
    || includes value (92 ∷ b'.' ∷ b'.' ∷ 92 ∷ [])

unfoldable pub references_outside_workspace : List Text → Bool
references_outside_workspace argv = any (λ argument. is_outside_path (argument_value argument)) argv

unfoldable pub references_sensitive_path : List Text → Bool
references_sensitive_path argv =
    any (λ argument. matches_sensitive_path (argument_value argument)) argv

abbrev pub dependency_words : List Text
dependency_words = map codes (
    "add" ∷ "install" ∷ "i" ∷ "ci" ∷ "remove" ∷ "uninstall" ∷ "update" ∷ "upgrade" ∷ "publish"
    ∷ "dlx" ∷ "exec" ∷ [])

unfoldable pub is_dependency_operation : Text → List Text → Bool
is_dependency_operation command args =
    if text_in command package_managers
    then any (λ arg. text_in (fold_case arg) dependency_words) args
    else same_text command (codes "npx")

abbrev pub git_inspections : List Text
git_inspections = map codes (
    "status" ∷ "diff" ∷ "log" ∷ "show" ∷ "branch" ∷ "rev-parse" ∷ "remote" ∷ "ls-files" ∷ "grep"
    ∷ [])

abbrev pub git_index_flags : List Text
git_index_flags = map codes ("--cached" ∷ "--staged" ∷ "--no-index" ∷ [])

unfoldable pub is_git_read_only : List Text → Bool
is_git_read_only [] = false
is_git_read_only (subcommand ∷ rest) =
    if is_empty subcommand
    then false
    else if text_in subcommand git_inspections
    then not (any (λ arg. text_in arg git_index_flags) rest)
    else false

-- `args[n] ?? ''` for a comparison: none compares like an empty text.
abbrev pub arg_at : List Text → ℕ → Text
arg_at args n = elim (get_elem? args n) [ none ↦ [] | some arg ↦ arg ]

abbrev pub check_scripts : List Text
check_scripts = map codes ("test" ∷ "lint" ∷ "typecheck" ∷ "check" ∷ [])

abbrev pub check_words : List Text
check_words = map codes ("test" ∷ "spec" ∷ "lint" ∷ "typecheck" ∷ [])

-- The last test is of a word between the ends and the characters `-` and `_`, which no word holds:
-- a match is a whole part between those.
unfoldable pub is_test_command : Text → List Text → Bool
is_test_command command args =
    if text_in command package_managers
    then same_text (arg_at args 0) (codes "test")
      || (same_text (arg_at args 0) (codes "run")
          && text_in (fold_case (arg_at args 1)) check_scripts)
    else any (λ part. text_in (fold_case part) check_words)
        (split_on (λ c. c == b'-' || c == b'_') command)

abbrev pub is_shell_character : ℕ → Bool
is_shell_character c =
    c == b'|' || c == b';' || c == b'&' || c == 96 || c == b'$' || c == b'<' || c == b'>'

unfoldable pub contains_shell_syntax : List Text → Bool
contains_shell_syntax argv =
    any (λ arg. any is_shell_character arg || any (λ c. c == 10) arg || any (λ c. c == 13) arg) argv

-- `.at(-1) ?? ''`
unfoldable pub last_text : List Text → Text
last_text [] = []
last_text (t ∷ []) = t
last_text (t ∷ u ∷ ts) = last_text (u ∷ ts)

-- `replace(/\.(?:exe|cmd|bat)$/i, '')`
unfoldable pub drop_extension : Text → Text
drop_extension s =
    if any (λ extension. ends_with (fold_case s) extension)
      (map codes (".exe" ∷ ".cmd" ∷ ".bat" ∷ []))
    then take (length s - 4) s
    else s

-- The part behind the last separator, in lower case, without one `.exe`, `.cmd` or `.bat`.
unfoldable pub command_name : Text → Text
command_name executable =
    let parts = split_on (λ c. c == b'/' || c == 92) executable in
    drop_extension (to_lower_case (last_text parts))
