-- ===== src/LineDiff/Rows.antt =====
-- The rows of the review diff show real lines under their real numbers.
use adrouter_agent.Prelude.{
  ltb, if◌then◌else◌, Bool-cases, length, get_elem?, length-append, All, All-append, Text, ℕ, suc,
  ◌+◌, ◌-◌, ◌≤◌, ◌≡◌, refl, sym, subst, ◌∙◌, inl, inr, Bool, true, false, some, List, [], ◌∷◌, ◌++◌,
  arith,
}
use mathlib.Core.List.{append_assoc}
use adrouter_agent.LineDiff.{
  max_diff_lines, Operation, equal, removed, added, ChangedLine, removed_row, added_row, ellipsis,
  meta, source_lines, changed_middle, number_rows, same_bool, build_changed_line_diff,
}
use adrouter_agent.LineDiff.Walk.{old_side, new_side}
use adrouter_agent.LineDiff.Best.{changed_middle_sides}

-- A removed row shows a line of the original under its number, counted from one, an added row a
-- line of the current text; a gap stands within both.
abbrev pub IsTrueRow : List Text → List Text → ChangedLine → Type 0
IsTrueRow original current (removed_row n text) = (1 ≤ n) × (get_elem? original (n - 1) ≡ some text)
IsTrueRow original current (added_row n text) = (1 ≤ n) × (get_elem? current (n - 1) ≡ some text)
IsTrueRow original current (ellipsis n m) =
    (1 ≤ n) × (n ≤ length original + 1) × (1 ≤ m) × (m ≤ length current + 1)
IsTrueRow original current (meta b) = Unit

get_elem?-split :
    (before after : List Text) (t : Text) → get_elem? (before ++ t ∷ after) (length before) ≡ some t
get_elem?-split [] after t = refl
get_elem?-split (b ∷ before) after t = get_elem?-split before after t

-- The lines behind a position are those that the operations left tell of.
record Stands (lines before after : List Text) (number : ℕ) : Type 0 where
  split : lines ≡ before ++ after
  number_of : number ≡ suc (length before)

Stands-next :
    {lines before after : List Text} {t : Text} {number : ℕ}
    → Stands lines before (t ∷ after) number
    → Stands lines (before ++ t ∷ []) after (suc number)
Stands-next {before} {after} {t} s = record {
  split = s.split ∙ sym (append_assoc before (t ∷ []) after);
  number_of = omega (arith, s.number_of, length-append before (t ∷ []));
}

Stands-line :
    {lines before after : List Text} {t : Text} {number : ℕ}
    → Stands lines before (t ∷ after) number
    → (1 ≤ number) × (get_elem? lines (number - 1) ≡ some t)
Stands-line {before} {after} {t} {number} s =
    let index : number - 1 ≡ length before = omega (arith, s.number_of) in
    (omega (arith, s.number_of), rw (index, s.split) (get_elem?-split before after t))

Stands-bound :
    {lines before after : List Text} {number : ℕ}
    → Stands lines before after number
    → (1 ≤ number) × (number ≤ length lines + 1)
Stands-bound {before} {after} s =
    rw s.split (omega (arith, s.number_of, length-append before after))

-- A gap, if one is shown, and a row.
gap_rows :
    (original current : List Text) (n m : ℕ) (row : ChangedLine) (later : List ChangedLine)
    (omitted : Bool)
    → (1 ≤ n) × (n ≤ length original + 1)
    → (1 ≤ m) × (m ≤ length current + 1)
    → All (IsTrueRow original current) (row ∷ later)
    → All (IsTrueRow original current) (if omitted then ellipsis n m ∷ row ∷ later else row ∷ later)
gap_rows original current n m row later true (a, b) (c, d) h = ((a, b, c, d), h)
gap_rows original current n m row later false p q h = h

number_rows-IsTrueRow :
    (ops : List Operation) (original current before now : List Text) (old_line new_line : ℕ)
    (shown omitted : Bool)
    → Stands original before (old_side ops) old_line
    → Stands current now (new_side ops) new_line
    → All (IsTrueRow original current) (number_rows ops old_line new_line shown omitted)
unfolding number_rows
number_rows-IsTrueRow [] original current before now old_line new_line shown omitted s t = tt
number_rows-IsTrueRow (equal x ∷ ops) original current before now old_line new_line shown omitted s
      t =
    number_rows-IsTrueRow ops original current (before ++ x ∷ []) (now ++ x ∷ []) (suc old_line)
      (suc new_line) shown shown (Stands-next s) (Stands-next t)
number_rows-IsTrueRow (removed x ∷ ops) original current before now old_line new_line shown omitted
      s t =
    gap_rows original current old_line new_line _ _ omitted (Stands-bound s) (Stands-bound t) (
      Stands-line s,
      number_rows-IsTrueRow ops original current (before ++ x ∷ []) now (suc old_line) new_line true
          false (Stands-next s) t,
    )
number_rows-IsTrueRow (added x ∷ ops) original current before now old_line new_line shown omitted s
      t =
    gap_rows original current old_line new_line _ _ omitted (Stands-bound s) (Stands-bound t) (
      Stands-line t,
      number_rows-IsTrueRow ops original current before (now ++ x ∷ []) old_line (suc new_line) true
          false s (Stands-next t),
    )

-- Every row of a diff that is not too large shows a real line under its real number: a removed row
-- a line of the original, an added row a line of the current text; gaps stand within both.
pub build_changed_line_diff-IsTrueRow :
    (original current : Text) (rows : List ChangedLine)
    → build_changed_line_diff original current ≡ some rows
    → All (IsTrueRow (source_lines original).lines (source_lines current).lines) rows
unfolding build_changed_line_diff
build_changed_line_diff-IsTrueRow original current rows h =
    let old_lines = (source_lines original).lines in
    let new_lines = (source_lines current).lines in
    let ops = changed_middle old_lines new_lines in
    let (old, new) = changed_middle_sides old_lines new_lines in
    let shown =
      number_rows-IsTrueRow ops old_lines new_lines [] [] 1 1 false false
        (record { split = sym old; number_of = refl })
        (record { split = sym new; number_of = refl }) in
    elim (Bool-cases (ltb max_diff_lines (length old_lines + length new_lines))) [
      | inl large ↦ absurd (ground arith)
      | inr small ↦
          elim (Bool-cases (
            same_bool (source_lines original).trailing_newline
              (source_lines current).trailing_newline)) [
                | inl same ↦
                    let rows_same : number_rows ops 1 1 false false ≡ rows = ground arith in
                    subst (All (IsTrueRow old_lines new_lines)) rows_same shown
                | inr differ ↦
                    let rows_same : number_rows ops 1 1 false false
                          ++ meta (source_lines current).trailing_newline ∷ []
                        ≡ rows =
                      ground arith in
                    subst (All (IsTrueRow old_lines new_lines)) rows_same (
                      All-append (IsTrueRow old_lines new_lines) _
                        (meta (source_lines current).trailing_newline ∷ []) shown (tt, tt))
              ]
    ]
