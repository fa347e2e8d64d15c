-- ===== src/Checks/Files.antt =====
-- Patches, ranges and the review diff at concrete inputs.
use adrouter_agent.Database.Files.{FileTables, MutationInput}
use adrouter_agent.Database.Files.Originals.{
  FileCall, mutates, marks, run_files, original, first_before, or_else, run_files_original,
}
use adrouter_agent.Database.{find_row}
use adrouter_agent.Checks.Samples.{at_time}
use adrouter_agent.Prelude.{
  length, drop, All, Text, codes, same_text, lower_unit, to_lower_case, text_in, starts_with,
  ends_with, split_on, ◌≤◌, ◌≡◌, refl, inr, true, false, none, some, List, [], ◌∷◌, arith,
}
use adrouter_agent.Ndjson.{split_lines}
use adrouter_agent.Workspace.{
  Digests, path_segments, last_segment, is_protected_path, TextFile, is_binary, text_file,
  read_workspace_text_file, select_lines, TextFileRange, read_workspace_text_range, Replacement,
  index_of, apply_replacement, apply_replacements, ApplyPatchInput, file, Write, replace,
  AppliedPatch, write_after, patch_file, apply_workspace_patch,
}
use adrouter_agent.Workspace.Patches.{
  IsPatched, apply_replacements-IsPatched, IsApplied, apply_workspace_patch-IsApplied,
}
use adrouter_agent.Workspace.Ranges.{IsRange, read_workspace_text_range-IsRange}
use adrouter_agent.LineDiff.{
  Operation, equal, removed, added, ChangedLine, removed_row, added_row, meta, normalize_newlines,
  split_text_lines, ends_with_newline, drop_last, source_lines, fill_row, lcs_table, cell, walk,
  changed_middle, number_rows, build_changed_line_diff,
}
use adrouter_agent.LineDiff.Walk.{plan, walk-eq-plan, old_side, new_side, kept}
use adrouter_agent.LineDiff.Best.{changed_middle_sides, changed_middle_best}
use adrouter_agent.LineDiff.Rows.{IsTrueRow, build_changed_line_diff-IsTrueRow}

abbrev digests : Digests
digests = record {
  byte_length = λ text. length text;
  encode = λ text. text;
  decode = λ bytes. bytes;
  sha256 = λ bytes. "hash";
}

abbrev two_edits : List Replacement
two_edits =
    record { original = codes "cat"; replacement = codes "dog" }
    ∷ record { original = codes "sat"; replacement = codes "ran" }
    ∷ []

edited : apply_replacements (codes "a cat sat") two_edits ≡ inr (codes "a dog ran")
unfolding apply_replacements apply_replacement index_of starts_with
edited = refl

apply_replacements-IsPatched_example : IsPatched (codes "a cat sat") two_edits (codes "a dog ran")
apply_replacements-IsPatched_example =
    apply_replacements-IsPatched (codes "a cat sat") two_edits (codes "a dog ran") edited

-- Occurrences that overlap count as one.
overlapping_occurrences :
    apply_replacement (record { original = codes "aa"; replacement = codes "b" }) (codes "aaa")
    ≡ inr (codes "ba")
unfolding apply_replacement index_of starts_with
overlapping_occurrences = refl

abbrev cat_patch : ApplyPatchInput
cat_patch = record {
  expected_before_hash = some "hash";
  replacements = two_edits;
  create_content = none;
  delete_file = false;
}

abbrev cat_write : Write
cat_write = replace (some (codes "a cat sat")) (codes "a dog ran")

abbrev cat_result : AppliedPatch
cat_result = record {
  before = some (codes "a cat sat");
  after = some (codes "a dog ran");
  before_hash = some "hash";
  after_hash = some "hash";
}

cat_patched :
    apply_workspace_patch digests false cat_patch (file (codes "a cat sat"))
    ≡ inr (cat_write, cat_result)
unfolding apply_workspace_patch patch_file read_workspace_text_file is_binary write_after
    apply_replacements apply_replacement index_of starts_with
cat_patched = refl

apply_workspace_patch-IsApplied_example :
    IsApplied digests false cat_patch (file (codes "a cat sat")) cat_write cat_result
apply_workspace_patch-IsApplied_example =
    apply_workspace_patch-IsApplied digests false cat_patch (file (codes "a cat sat")) cat_write
      cat_result cat_patched

abbrev three_lines : TextFile
three_lines = text_file digests (b'a' ∷ 10 ∷ b'b' ∷ 13 ∷ 10 ∷ b'c' ∷ [])

abbrev second_line : TextFileRange
second_line = record {
  selected = codes "b" ∷ [];
  start_line = 2;
  end_line = 2;
  total_lines = 3;
  truncated = true;
}

second_line_read : read_workspace_text_range digests 2 1 100 three_lines ≡ inr second_line
unfolding read_workspace_text_range select_lines split_lines
second_line_read = refl

read_workspace_text_range-IsRange_example :
    IsRange digests 2 1 100 (split_lines three_lines.content) second_line
read_workspace_text_range-IsRange_example =
    read_workspace_text_range-IsRange digests 2 1 100 three_lines second_line second_line_read

-- Segments are compared in any case of letters and behind both slashes.
hidden_key_protected : is_protected_path (codes "docs/.GIT/config") ≡ true
unfolding is_protected_path path_segments last_segment split_on starts_with ends_with text_in
    same_text to_lower_case lower_unit
hidden_key_protected = refl

abbrev old_lines : List Text
old_lines = codes "a" ∷ codes "b" ∷ []

abbrev new_lines : List Text
new_lines = codes "a" ∷ codes "c" ∷ codes "b" ∷ []

walk-eq-plan_example :
    walk 5 old_lines new_lines (lcs_table old_lines new_lines) 0 0
    ≡ plan (drop 0 old_lines) (drop 0 new_lines)
walk-eq-plan_example = walk-eq-plan 5 old_lines new_lines 0 0 (omega arith)

changed_middle_sides_example :
    (old_side (changed_middle old_lines new_lines) ≡ old_lines)
    × (new_side (changed_middle old_lines new_lines) ≡ new_lines)
changed_middle_sides_example = changed_middle_sides old_lines new_lines

abbrev other_edit : List Operation
other_edit = removed (codes "a") ∷ added (codes "a") ∷ added (codes "c") ∷ equal (codes "b") ∷ []

changed_middle_best_example : kept other_edit ≤ kept (changed_middle old_lines new_lines)
changed_middle_best_example =
    changed_middle_best old_lines new_lines other_edit (omega arith) refl refl

abbrev old_text : Text
old_text = b'a' ∷ 10 ∷ b'b' ∷ 10 ∷ []

abbrev new_text : Text
new_text = b'a' ∷ 10 ∷ b'c' ∷ []

abbrev text_rows : List ChangedLine
text_rows = removed_row 2 (codes "b") ∷ added_row 2 (codes "c") ∷ meta false ∷ []

rows_built : build_changed_line_diff old_text new_text ≡ some text_rows
unfolding build_changed_line_diff source_lines normalize_newlines changed_middle walk lcs_table cell
    number_rows same_text ends_with_newline drop_last split_text_lines fill_row
rows_built = refl

build_changed_line_diff-IsTrueRow_example :
    All (IsTrueRow (source_lines old_text).lines (source_lines new_text).lines) text_rows
build_changed_line_diff-IsTrueRow_example =
    build_changed_line_diff-IsTrueRow old_text new_text text_rows rows_built

abbrev first_edit : MutationInput
first_edit = record {
  thread_id = codes "t";
  path = codes "notes.md";
  status = codes "modified";
  before_base64 = some (codes "b2xk");
  after_base64 = some (codes "bmV3");
  before_hash = some (codes "old");
  after_hash = some (codes "new");
}

abbrev second_edit : MutationInput
second_edit = record first_edit {
  before_base64 = some (codes "bmV3");
  after_base64 = none;
  before_hash = some (codes "new");
  after_hash = none;
}

abbrev file_calls : List FileCall
file_calls =
    mutates (at_time 0) first_edit
    ∷ mutates (at_time 1) second_edit
    ∷ marks (codes "t") (codes "notes.md") (codes "reverted") (some (codes "old"))
    ∷ []

abbrev no_files : FileTables
no_files = record { baselines = []; mutations = [] }

run_files_original_example :
    original (codes "t") (codes "notes.md") (run_files file_calls no_files)
    ≡ or_else none (first_before (codes "t") (codes "notes.md") file_calls)
unfolding find_row
run_files_original_example = run_files_original file_calls (codes "t") (codes "notes.md") no_files

first_edit_before :
    first_before (codes "t") (codes "notes.md") file_calls
    ≡ some (some (codes "b2xk"), some (codes "old"))
unfolding first_before same_text
first_edit_before = refl
