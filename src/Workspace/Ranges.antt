-- ===== src/Workspace/Ranges.antt =====
-- What a range of a file holds, src/runtime/workspace.ts.
use adrouter_agent.Prelude.{
  ltb, if◌then◌else◌, Bool-cases, length, take, drop, length-take-le, length-drop, length-take,
  Text, ℕ, zero, suc, ◌+◌, ◌-◌, ◌≤◌, ◌<◌, ◌≡◌, refl, sym, ap, subst, ◌∙◌, ◌⊎◌, inl, inr, Bool, true,
  false, List, [], ◌∷◌, arith,
}
use adrouter_agent.Ndjson.{split_lines}
use adrouter_agent.Workspace.{
  Digests, TextFile, select_lines, TextFileRange, range_of, read_workspace_text_range,
}

-- The bytes of lines that are joined with line feeds, behind a line if one is selected.
pub joined_bytes : Digests → Bool → List Text → ℕ
joined_bytes d started [] = 0
joined_bytes d started (line ∷ lines) =
    d.byte_length line + (if started then 1 else 0) + joined_bytes d true lines

take-select_lines :
    (d : Digests) (max_bytes bytes : ℕ) (started : Bool) (lines : List Text)
    → take (length (select_lines d max_bytes bytes started lines)) lines
      ≡ select_lines d max_bytes bytes started lines
unfolding select_lines
take-select_lines d max_bytes bytes started [] = refl
take-select_lines d max_bytes bytes started (line ∷ lines) =
    let all_bytes = bytes + (d.byte_length line + (if started then 1 else 0)) in
    ground (arith, take-select_lines d max_bytes all_bytes true lines)

select_lines_bytes :
    (d : Digests) (max_bytes bytes : ℕ) (lines : List Text)
    → bytes ≤ max_bytes
    → bytes + joined_bytes d true (select_lines d max_bytes bytes true lines) ≤ max_bytes
unfolding select_lines joined_bytes
select_lines_bytes d max_bytes bytes [] h = ground arith
select_lines_bytes d max_bytes bytes (line ∷ lines) h =
    let all_bytes = bytes + (d.byte_length line + 1) in
    ground (arith, select_lines_bytes d max_bytes all_bytes lines)

select_lines_first :
    (d : Digests) (max_bytes : ℕ) (line : Text) (lines : List Text)
    → 1 ≤ length (select_lines d max_bytes 0 false (line ∷ lines))
unfolding select_lines
select_lines_first d max_bytes line lines = ground arith

select_lines_fits :
    (d : Digests) (max_bytes : ℕ) (lines : List Text)
    → (length (select_lines d max_bytes 0 false lines) ≤ 1)
      ⊎ (joined_bytes d false (select_lines d max_bytes 0 false lines) ≤ max_bytes)
unfolding select_lines joined_bytes
select_lines_fits d max_bytes [] = inl (omega arith)
select_lines_fits d max_bytes (line ∷ lines) =
    ground (arith, select_lines_bytes d max_bytes (0 + (d.byte_length line + 0)) lines)

length-select_lines :
    (d : Digests) (max_bytes bytes : ℕ) (started : Bool) (lines : List Text)
    → length (select_lines d max_bytes bytes started lines) ≤ length lines
unfolding select_lines
length-select_lines d max_bytes bytes started [] = omega arith
length-select_lines d max_bytes bytes started (line ∷ lines) =
    let all_bytes = bytes + (d.byte_length line + (if started then 1 else 0)) in
    ground (arith, length-select_lines d max_bytes all_bytes true lines)

select_lines_moves :
    (d : Digests) (max_bytes : ℕ) (lines : List Text)
    → 1 ≤ length lines
    → 1 ≤ length (select_lines d max_bytes 0 false lines)
select_lines_moves d max_bytes [] h = absurd (omega arith)
select_lines_moves d max_bytes (line ∷ lines) h = select_lines_first d max_bytes line lines

take-take : (n k : ℕ) (xs : List Text) → n ≤ length (take k xs) → take n (take k xs) ≡ take n xs
take-take zero k xs h = refl
take-take (suc n) zero xs h = absurd (omega arith)
take-take (suc n) (suc k) [] h = refl
take-take (suc n) (suc k) (x ∷ xs) h = ap (λ t. x ∷ t) (take-take n k xs (omega arith))

-- What `read_workspace_text_range` promises of a file with these lines.
pub record IsRange (d : Digests) (start_line max_lines max_bytes : ℕ) (lines : List Text)
    (r : TextFileRange) : Type 0 where
  pub starts : r.start_line ≡ start_line
  pub exact : r.selected ≡ take (length r.selected) (drop (start_line - 1) lines)
  pub ends : r.end_line + 1 ≡ start_line + length r.selected
  pub bounded : length r.selected ≤ max_lines
  pub fits : (length r.selected ≤ 1) ⊎ (joined_bytes d false r.selected ≤ max_bytes)
  pub moves : (length lines < start_line) ⊎ (1 ≤ length r.selected)
  pub complete : r.truncated ≡ ltb r.end_line (length lines)

range_of-IsRange :
    (d : Digests) (start_line max_lines max_bytes : ℕ) (lines : List Text)
    → 1 ≤ start_line
    → 1 ≤ max_lines
    → IsRange d start_line max_lines max_bytes lines
        (range_of d start_line max_lines max_bytes lines)
range_of-IsRange d start_line max_lines max_bytes lines h k =
    let window = take max_lines (drop (start_line - 1) lines) in
    let selected = select_lines d max_bytes 0 false window in
    let short = length-select_lines d max_bytes 0 false window in
    let sizes = length-take max_lines (drop (start_line - 1) lines) in
    let rest = length-drop (start_line - 1) lines in
    let moves_of : (length lines < start_line) ⊎ (1 ≤ length selected) =
      elim (Bool-cases (ltb (length lines) start_line)) [
        | inl over ↦ inl (ground arith)
        | inr inside ↦ inr (select_lines_moves d max_bytes window (ground (arith, sizes, rest)))
      ] in
    record {
      starts = refl;
      exact =
          sym (take-select_lines d max_bytes 0 false window)
          ∙ take-take (length selected) max_lines (drop (start_line - 1) lines) short;
      ends = omega arith;
      bounded = omega (arith, short, length-take-le max_lines (drop (start_line - 1) lines));
      fits = select_lines_fits d max_bytes window;
      moves = moves_of;
      complete = refl;
    }

-- A range that is read holds lines of the file as they stand one behind the other, from the line
-- asked for on and no more than asked for; joined, they keep to the bytes asked for unless one line
-- alone is longer; it has a line whenever the file has one there; and it says that it is cut short
-- exactly when lines come behind it.
pub read_workspace_text_range-IsRange :
    (d : Digests) (start_line max_lines max_bytes : ℕ) (f : TextFile) (r : TextFileRange)
    → read_workspace_text_range d start_line max_lines max_bytes f ≡ inr r
    → IsRange d start_line max_lines max_bytes (split_lines f.content) r
unfolding read_workspace_text_range
read_workspace_text_range-IsRange d start_line max_lines max_bytes f r h =
    let lines = split_lines f.content in
    let range =
      range_of-IsRange d start_line max_lines max_bytes lines (ground arith) (ground arith) in
    subst (IsRange d start_line max_lines max_bytes lines) (ground arith) range
