-- ===== src/Database/Files/Originals.antt =====
-- What was in a file before the task.
use adrouter_agent.Prelude.{
  if◌then◌else◌, Bool-cases, Text, same_text, same_text_sound, ◌≡◌, refl, sym, ap, subst, ◌∙◌, inl,
  inr, Bool, true, false, ◌&&◌, Option, none, some, List, [], ◌∷◌, ◌++◌, arith,
}
use adrouter_agent.Database.{find_row, update_rows}
use adrouter_agent.Database.Journal.{Context}
use adrouter_agent.Database.Files.{
  Baseline, FileTables, MutationInput, is_of, with_latest, baseline_of, write_baseline,
  record_baseline, record_file_mutation, update_baseline_status,
}

-- Calls on the file tables.
pub data FileCall : Type 0 where
  mutates : Context → MutationInput → FileCall
  marks : Text → Text → Text → Option Text → FileCall

unfoldable pub run_files : List FileCall → FileTables → FileTables
run_files [] tables = tables
run_files (mutates c input ∷ calls) tables = run_files calls (record_file_mutation c input tables)
run_files (marks thread_id path status hash ∷ calls) tables =
    run_files calls (update_baseline_status thread_id path status hash tables)

abbrev original_of : Option Baseline → Option (Option Text × Option Text)
original_of none = none
original_of (some b) = some (b.original_bytes, b.original_hash)

abbrev pub original : Text → Text → FileTables → Option (Option Text × Option Text)
original thread_id path tables = original_of (find_row (is_of thread_id path) tables.baselines)

original-update :
    (p : Baseline → Bool) (hash : Option Text) (status thread_id path : Text) (rows : List Baseline)
    → original_of (find_row (is_of thread_id path) (update_rows p (with_latest hash status) rows))
      ≡ original_of (find_row (is_of thread_id path) rows)
unfolding find_row update_rows
original-update p hash status thread_id path [] = refl
original-update p hash status thread_id path (b ∷ rows) =
    ground (arith, original-update p hash status thread_id path rows)

-- What the calls say that a file had before the first mutation among them.
unfoldable pub first_before : Text → Text → List FileCall → Option (Option Text × Option Text)
first_before thread_id path [] = none
first_before thread_id path (marks owner file status hash ∷ calls) =
    first_before thread_id path calls
first_before thread_id path (mutates c input ∷ calls) =
    if same_text input.thread_id thread_id && same_text input.path path
    then some (input.before_base64, input.before_hash)
    else first_before thread_id path calls

abbrev pub or_else :
    Option (Option Text × Option Text)
    → Option (Option Text × Option Text)
    → Option (Option Text × Option Text)
or_else (some o) p = some o
or_else none p = p

original-append :
    (thread_id path : Text) (rows : List Baseline) (b : Baseline)
    → original_of (find_row (is_of thread_id path) (rows ++ b ∷ []))
      ≡ or_else
          (original_of (find_row (is_of thread_id path) rows))
          (original_of (find_row (is_of thread_id path) (b ∷ [])))
unfolding find_row
original-append thread_id path [] b = refl
original-append thread_id path (r ∷ rows) b = ground (arith, original-append thread_id path rows b)

-- What a mutation of the file at a path says that the file had before.
abbrev before_of : Text → Text → MutationInput → Option (Option Text × Option Text)
before_of thread_id path input =
    if same_text input.thread_id thread_id && same_text input.path path
    then some (input.before_base64, input.before_hash)
    else none

or_else-none : (o : Option (Option Text × Option Text)) → or_else o none ≡ o
or_else-none none = refl
or_else-none (some o) = refl

or_else_found :
    (rows : List Baseline) (input : MutationInput) (thread_id path : Text) (b : Baseline)
    → find_row (is_of input.thread_id input.path) rows ≡ some b
    → or_else (original_of (find_row (is_of thread_id path) rows)) (before_of thread_id path input)
      ≡ original_of (find_row (is_of thread_id path) rows)
or_else_found rows input thread_id path b held =
    elim (Bool-cases (same_text input.thread_id thread_id && same_text input.path path)) [
      | inl same ↦
          let owner : input.thread_id ≡ thread_id =
            same_text_sound input.thread_id thread_id (ground arith) in
          let file : input.path ≡ path = same_text_sound input.path path (ground arith) in
          let here : find_row (is_of thread_id path) rows ≡ some b =
            subst (λ t. find_row (is_of t path) rows ≡ some b) owner
              (subst (λ f. find_row (is_of input.thread_id f) rows ≡ some b) file held) in
          rw here refl
      | inr other ↦ rw other (or_else-none (original_of (find_row (is_of thread_id path) rows)))
    ]

original-write_baseline :
    (existing : Option Baseline) (input : MutationInput) (thread_id path : Text)
    (rows : List Baseline)
    → find_row (is_of input.thread_id input.path) rows ≡ existing
    → original_of (find_row (is_of thread_id path) (write_baseline existing input rows))
      ≡ or_else
          (original_of (find_row (is_of thread_id path) rows))
          (before_of thread_id path input)
unfolding write_baseline find_row
original-write_baseline none input thread_id path rows held =
    ground (arith, original-append thread_id path rows (baseline_of input))
original-write_baseline (some b) input thread_id path rows held =
    original-update (is_of input.thread_id input.path) input.after_hash input.status thread_id path
      rows
    ∙ sym (or_else_found rows input thread_id path b held)

or_else_next :
    (o q : Option (Option Text × Option Text)) (x : Option Text × Option Text) (m : Bool)
    → or_else (or_else o (if m then some x else none)) q ≡ or_else o (if m then some x else q)
or_else_next (some o) q x m = refl
or_else_next none q x true = refl
or_else_next none q x false = refl

-- Whatever calls follow, the baseline of a file holds the bytes and the hash that it held at first
-- or, where a task had no baseline of the file, those that the file had before the first mutation
-- of it among the calls; where there is no such mutation, there is none.
pub run_files_original :
    (calls : List FileCall) (thread_id path : Text) (tables : FileTables)
    → original thread_id path (run_files calls tables)
      ≡ or_else (original thread_id path tables) (first_before thread_id path calls)
unfolding run_files first_before record_file_mutation record_baseline update_baseline_status
run_files_original [] thread_id path tables = sym (or_else-none (original thread_id path tables))
run_files_original (mutates c input ∷ calls) thread_id path tables =
    run_files_original calls thread_id path (record_file_mutation c input tables)
    ∙ ap (λ o. or_else o (first_before thread_id path calls))
        (original-write_baseline (find_row (is_of input.thread_id input.path) tables.baselines)
          input thread_id path tables.baselines refl)
    ∙ or_else_next (original thread_id path tables) (first_before thread_id path calls)
        (input.before_base64, input.before_hash)
        (same_text input.thread_id thread_id && same_text input.path path)
run_files_original (marks owner file status hash ∷ calls) thread_id path tables =
    run_files_original calls thread_id path (update_baseline_status owner file status hash tables)
    ∙ ap (λ o. or_else o (first_before thread_id path calls))
        (original-update (is_of owner file) hash status thread_id path tables.baselines)
