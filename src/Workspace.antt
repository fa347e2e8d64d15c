-- ===== src/Workspace.antt =====
-- Text files of the workspace, src/runtime/workspace.ts: which paths are protected, what range of a
-- file is read, and what a patch does to a file. The files come in as the broker reads them, and a
-- patch gives the one write that it asks the broker for.
pub mod Patches
pub mod Ranges
use adrouter_agent.Prelude.{
  ltb, leb, ◌==◌, str_eq, if◌then◌else◌, is_some, length, take, drop, any, filter, Text, codes,
  to_lower_case, text_in, starts_with, ends_with, split_on, is_empty, ℕ, suc, ◌+◌, ◌-◌, min, String,
  ◌⊎◌, inl, inr, Bool, true, false, not, ◌&&◌, ◌||◌, Option, none, some, List, [], ◌∷◌, ◌++◌, map,
}
use adrouter_agent.Ndjson.{split_lines}

-- What comes from outside: `Buffer.byteLength`, `Buffer.from` and `toString` in UTF-8, which puts
-- U+FFFD for what is no UTF-8, and SHA-256 of bytes.
pub record Digests : Type 0 where
  pub byte_length : Text → ℕ
  pub encode : Text → List ℕ
  pub decode : List ℕ → Text
  pub sha256 : List ℕ → String

pub data WorkspaceAccessError : Type 0 where
  is_directory file_changed unexpected_hash nothing_to_delete : WorkspaceAccessError
  deletion_unapproved no_content file_too_large is_binary_file : WorkspaceAccessError
  empty_original not_exactly_once : WorkspaceAccessError
  bad_start_line bad_max_lines bad_max_bytes : WorkspaceAccessError

abbrev pub max_text_file_bytes : ℕ
max_text_file_bytes = 1048576

abbrev pub max_read_lines : ℕ
max_read_lines = 2000

abbrev pub max_read_bytes : ℕ
max_read_bytes = 262144

abbrev pub secret_names : List Text
secret_names = map codes (
    "id_rsa" ∷ "id_dsa" ∷ "id_ecdsa" ∷ "id_ed25519" ∷ "credentials" ∷ "credentials.json"
    ∷ "service-account.json" ∷ "secrets.json" ∷ "secret.json" ∷ ".netrc" ∷ [])

abbrev pub protected_directories : List Text
protected_directories = map codes (".git" ∷ ".ssh" ∷ ".aws" ∷ ".adrouter-recovery" ∷ [])

abbrev pub key_extensions : List Text
key_extensions = map codes (".pem" ∷ ".key" ∷ ".p12" ∷ ".pfx" ∷ [])

-- The segments between slashes of both kinds, without the empty ones, in lower case.
unfoldable pub path_segments : Text → List Text
path_segments input =
    map to_lower_case
      (filter (λ segment. not (is_empty segment)) (split_on (λ c. c == b'/' || c == 92) input))

-- `segments.at(-1) ?? ''`
unfoldable pub last_segment : List Text → Text
last_segment [] = []
last_segment (s ∷ []) = s
last_segment (s ∷ t ∷ ts) = last_segment (t ∷ ts)

unfoldable pub is_protected_path : Text → Bool
is_protected_path input =
    let segments = path_segments input in
    let name = last_segment segments in
    any (λ segment. text_in segment protected_directories) segments
    || starts_with name (codes ".env")
    || text_in name secret_names
    || any (λ extension. ends_with name extension) key_extensions

-- Without its path.
pub record TextFile : Type 0 where
  pub content : Text
  pub hash : String
  pub size : ℕ
  pub bytes : List ℕ

abbrev pub binary_sample : ℕ
binary_sample = 8192

unfoldable pub is_binary : List ℕ → Bool
is_binary content = any (λ byte. byte == 0) (take (min (length content) binary_sample) content)

abbrev pub text_file : Digests → List ℕ → TextFile
text_file d bytes = record {
  content = d.decode bytes;
  hash = d.sha256 bytes;
  size = length bytes;
  bytes = bytes;
}

-- `readWorkspaceTextFile` on the bytes that the broker reads.
unfoldable pub read_workspace_text_file : Digests → List ℕ → WorkspaceAccessError ⊎ TextFile
read_workspace_text_file d bytes =
    if is_binary bytes then inl is_binary_file else inr (text_file d bytes)

-- The loop over the lines of a range: `bytes` so far, and whether a line is selected.
unfoldable pub select_lines : Digests → ℕ → ℕ → Bool → List Text → List Text
select_lines d max_bytes bytes started [] = []
select_lines d max_bytes bytes started (line ∷ lines) =
    let all_bytes = bytes + (d.byte_length line + (if started then 1 else 0)) in
    let rest = select_lines d max_bytes all_bytes true lines in
    if started && ltb max_bytes all_bytes
    then []
    else if leb max_bytes all_bytes
    then line ∷ []
    else line ∷ rest

-- The selected lines, which the source joins with line feeds.
pub record TextFileRange : Type 0 where
  pub selected : List Text
  pub start_line : ℕ
  pub end_line : ℕ
  pub total_lines : ℕ
  pub truncated : Bool

abbrev pub range_of : Digests → ℕ → ℕ → ℕ → List Text → TextFileRange
range_of d start_line max_lines max_bytes lines =
    let selected =
      select_lines d max_bytes 0 false (take max_lines (drop (start_line - 1) lines)) in
    let end_line = start_line + length selected - 1 in
    record {
      selected = selected;
      start_line = start_line;
      end_line = end_line;
      total_lines = length lines;
      truncated = ltb end_line (length lines);
    }

-- `readWorkspaceTextRange` on a file that is read, with its options filled in.
unfoldable pub read_workspace_text_range :
    Digests → ℕ → ℕ → ℕ → TextFile → WorkspaceAccessError ⊎ TextFileRange
read_workspace_text_range d start_line max_lines max_bytes file =
    if start_line == 0
    then inl bad_start_line
    else if max_lines == 0 || ltb max_read_lines max_lines
    then inl bad_max_lines
    else if max_bytes == 0 || ltb max_read_bytes max_bytes
    then inl bad_max_bytes
    else inr (range_of d start_line max_lines max_bytes (split_lines file.content))

pub record Replacement : Type 0 where
  pub original : Text
  pub replacement : Text

-- `indexOf`
unfoldable pub index_of : Text → Text → Option ℕ
index_of [] part = if is_empty part then some 0 else none
index_of (c ∷ s) part =
    let rest = index_of s part in
    if starts_with (c ∷ s) part then some 0 else elim rest [ none ↦ none | some n ↦ some (suc n) ]

unfoldable pub apply_replacement : Replacement → Text → WorkspaceAccessError ⊎ Text
apply_replacement r text =
    if is_empty r.original then inl empty_original else elim (index_of text r.original) [
      | none ↦ inl not_exactly_once
      | some first ↦
          let rest = drop (first + length r.original) text in
          if is_some (index_of rest r.original)
          then inl not_exactly_once
          else inr (take first text ++ r.replacement ++ rest)
    ]

unfoldable pub apply_replacements : Text → List Replacement → WorkspaceAccessError ⊎ Text
apply_replacements text [] = inr text
apply_replacements text (r ∷ rs) = elim (apply_replacement r text) [
  | inl error ↦ inl error
  | inr next ↦ apply_replacements next rs
]

pub record ApplyPatchInput : Type 0 where
  pub expected_before_hash : Option String
  pub replacements : List Replacement
  pub create_content : Option Text
  pub delete_file : Bool

-- What the broker finds at the path: a file with the bytes that it reads.
pub data Inspected : Type 0 where
  missing directory : Inspected
  file : List ℕ → Inspected

-- The write that the broker is asked for, with the bytes that the file must still have.
pub data Write : Type 0 where
  delete : List ℕ → Write
  replace : Option (List ℕ) → List ℕ → Write

pub record AppliedPatch : Type 0 where
  pub before : Option Text
  pub after : Option Text
  pub before_hash : Option String
  pub after_hash : Option String

abbrev pub is_hash : Option String → String → Bool
is_hash none hash = false
is_hash (some expected) hash = str_eq expected hash

abbrev pub deleted : TextFile → Write × AppliedPatch
deleted f = (
  delete f.bytes,
  record { before = some f.content; after = none; before_hash = some f.hash; after_hash = none },
)

-- `before?.content ?? null`, `before?.hash ?? null` and `before?.bytes ?? null`
abbrev pub content_of : Option TextFile → Option Text
content_of none = none
content_of (some f) = some f.content

abbrev pub hash_of : Option TextFile → Option String
hash_of none = none
hash_of (some f) = some f.hash

abbrev pub bytes_of : Option TextFile → Option (List ℕ)
bytes_of none = none
bytes_of (some f) = some f.bytes

abbrev pub written : Digests → Option TextFile → Text → AppliedPatch
written d before after = record {
  before = content_of before;
  after = some after;
  before_hash = hash_of before;
  after_hash = some (d.sha256 (d.encode after));
}

-- The end of a patch, once it is known what the file shall hold.
unfoldable pub write_after :
    Digests
    → Option TextFile
    → WorkspaceAccessError ⊎ Text
    → WorkspaceAccessError ⊎ (Write × AppliedPatch)
write_after d before (inl error) = inl error
write_after d before (inr after) =
    if ltb max_text_file_bytes (d.byte_length after)
    then inl file_too_large
    else inr (replace (bytes_of before) (d.encode after), written d before after)

-- The patch of a file that is read.
unfoldable pub patch_file :
    Digests → Bool → ApplyPatchInput → TextFile → WorkspaceAccessError ⊎ (Write × AppliedPatch)
patch_file d deletion_approved input f =
    if not (is_hash input.expected_before_hash f.hash)
    then inl file_changed
    else if input.delete_file
    then if not deletion_approved then inl deletion_unapproved else inr (deleted f)
    else write_after d (some f) (apply_replacements f.content input.replacements)

unfoldable pub apply_workspace_patch :
    Digests → Bool → ApplyPatchInput → Inspected → WorkspaceAccessError ⊎ (Write × AppliedPatch)
apply_workspace_patch d deletion_approved input directory = inl is_directory
apply_workspace_patch d deletion_approved input (file bytes) =
    elim (read_workspace_text_file d bytes) [
      | inl error ↦ inl error
      | inr f ↦ patch_file d deletion_approved input f
    ]
apply_workspace_patch d deletion_approved input missing =
    if is_some input.expected_before_hash
    then inl unexpected_hash
    else if input.delete_file
    then inl nothing_to_delete
    else write_after d none
        (elim input.create_content [ none ↦ inl no_content | some content ↦ inr content ])
