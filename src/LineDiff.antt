-- ===== src/LineDiff.antt =====
-- The review diff by lines, src/renderer/line-diff.ts.
pub mod Table
pub mod Walk
pub mod Rows
pub mod Best
use adrouter_agent.Prelude.{
  ltb, leb, ◌==◌, if◌then◌else◌, length, get_elem?, drop, Text, codes, same_text, ℕ, zero, suc, ◌+◌,
  ◌*◌, max, Bool, true, false, not, ◌&&◌, Option, none, some, List, [], ◌∷◌, ◌++◌, map,
}

abbrev pub max_diff_lines : ℕ
max_diff_lines = 20000

abbrev pub max_lcs_cells : ℕ
max_lcs_cells = 4000000

pub data Operation : Type 0 where
  equal removed added : Text → Operation

-- The fields that a kind of row holds at null are left out.
pub data ChangedLine : Type 0 where
  removed_row : (old_line : ℕ) → Text → ChangedLine
  added_row : (new_line : ℕ) → Text → ChangedLine
  ellipsis : (old_line new_line : ℕ) → ChangedLine
  meta : (ends_with_newline : Bool) → ChangedLine

pub record SourceLines : Type 0 where
  pub lines : List Text
  pub trailing_newline : Bool

-- `replaceAll('\r\n', '\n')`
unfoldable pub normalize_newlines : Text → Text
normalize_newlines [] = []
normalize_newlines (c ∷ []) = c ∷ []
normalize_newlines (c ∷ d ∷ s) =
    let rest = normalize_newlines (d ∷ s) in if c == 13 && d == 10 then rest else c ∷ rest

-- `split('\n')`
unfoldable pub split_text_lines : Text → List Text
split_text_lines [] = [] ∷ []
split_text_lines (c ∷ s) = elim (split_text_lines s) [
  | [] ↦ []
  | line ∷ lines ↦ if c == 10 then [] ∷ line ∷ lines else (c ∷ line) ∷ lines
]

unfoldable pub ends_with_newline : Text → Bool
ends_with_newline [] = false
ends_with_newline (c ∷ []) = c == 10
ends_with_newline (c ∷ d ∷ s) = ends_with_newline (d ∷ s)

-- `pop`
unfoldable pub drop_last {ℓ} : {A : Type ℓ} → List A → List A
drop_last [] = []
drop_last (x ∷ []) = []
drop_last (x ∷ y ∷ xs) = x ∷ drop_last (y ∷ xs)

unfoldable pub source_lines : Text → SourceLines
source_lines [] = record { lines = []; trailing_newline = false }
source_lines (c ∷ s) =
    let normalized = normalize_newlines (c ∷ s) in
    let trailing = ends_with_newline normalized in
    let lines = split_text_lines normalized in
    record { lines = if trailing then drop_last lines else lines; trailing_newline = trailing }

abbrev pub head_or_zero : List ℕ → ℕ
head_or_zero [] = 0
head_or_zero (n ∷ ns) = n

-- One round of the outer loop that fills the table: the row of `old_text`, from the row below it.
-- A row has a cell for each column and one more, which stays 0.
unfoldable pub fill_row : Text → List Text → List ℕ → List ℕ
fill_row old_text [] below = 0 ∷ []
fill_row old_text (new_text ∷ current) below =
    let right = fill_row old_text current (drop 1 below) in
    (if same_text old_text new_text
      then head_or_zero (drop 1 below) + 1
      else max (head_or_zero below) (head_or_zero right))
    ∷ right

-- The table, its first row first. The last row stays 0.
unfoldable pub lcs_table : List Text → List Text → List (List ℕ)
lcs_table [] current = map (λ c. 0) (codes "" ∷ current) ∷ []
lcs_table (old_text ∷ original) current =
    let rows = lcs_table original current in
    elim rows [ [] ↦ [] | below ∷ later ↦ fill_row old_text current below ∷ below ∷ later ]

-- `table[row * width + column] ?? 0`
unfoldable pub cell : List (List ℕ) → ℕ → ℕ → ℕ
cell table row column = elim (get_elem? table row) [
  | none ↦ 0
  | some cells ↦ elim (get_elem? cells column) [ none ↦ 0 | some n ↦ n ]
]

-- The three loops behind the table, from two positions on. Each round of the first moves a
-- position, so that as much fuel as there are lines left is enough.
unfoldable pub walk : ℕ → List Text → List Text → List (List ℕ) → ℕ → ℕ → List Operation
walk zero original current table i j = map removed (drop i original) ++ map added (drop j current)
walk (suc fuel) original current table i j = elim (get_elem? original i) [
  | none ↦ map added (drop j current)
  | some old_text ↦ elim (get_elem? current j) [
    | none ↦ map removed (drop i original)
    | some new_text ↦ elim (same_text old_text new_text) [
      | true ↦ equal old_text ∷ walk fuel original current table (suc i) (suc j)
      | false ↦ elim (leb (cell table i (suc j)) (cell table (suc i) j)) [
        | true ↦ removed old_text ∷ walk fuel original current table (suc i) j
        | false ↦ added new_text ∷ walk fuel original current table i (suc j)
      ]
    ]
  ]
]

unfoldable pub changed_middle : List Text → List Text → List Operation
changed_middle [] current = map added current
changed_middle (o ∷ original) [] = map removed (o ∷ original)
changed_middle (o ∷ original) (c ∷ current) =
    let old_lines = o ∷ original in
    let new_lines = c ∷ current in
    if ltb max_lcs_cells (length old_lines * length new_lines)
    then map removed old_lines ++ map added new_lines
    else walk (length old_lines + length new_lines) old_lines new_lines
        (lcs_table old_lines new_lines) 0 0

-- The loop over the operations: `shown` is whether there are rows already.
unfoldable pub number_rows : List Operation → ℕ → ℕ → Bool → Bool → List ChangedLine
number_rows [] old_line new_line shown omitted = []
number_rows (equal text ∷ operations) old_line new_line shown omitted =
    number_rows operations (suc old_line) (suc new_line) shown shown
number_rows (removed text ∷ operations) old_line new_line shown omitted =
    let later =
      removed_row old_line text ∷ number_rows operations (suc old_line) new_line true false in
    if omitted then ellipsis old_line new_line ∷ later else later
number_rows (added text ∷ operations) old_line new_line shown omitted =
    let later =
      added_row new_line text ∷ number_rows operations old_line (suc new_line) true false in
    if omitted then ellipsis old_line new_line ∷ later else later

abbrev pub same_bool : Bool → Bool → Bool
same_bool true b = b
same_bool false b = not b

-- none is `{ rows: [], tooLarge: true }`.
unfoldable pub build_changed_line_diff : Text → Text → Option (List ChangedLine)
build_changed_line_diff original_source current_source =
    let original = source_lines original_source in
    let current = source_lines current_source in
    if ltb max_diff_lines (length original.lines + length current.lines)
    then none
    else let rows = number_rows (changed_middle original.lines current.lines) 1 1 false false in
      some (
        if same_bool original.trailing_newline current.trailing_newline
        then rows
        else rows ++ meta current.trailing_newline ∷ [])
