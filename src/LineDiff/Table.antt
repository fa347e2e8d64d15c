-- ===== src/LineDiff/Table.antt =====
-- The table holds the length of a longest common subsequence for each pair of suffixes.
use adrouter_agent.Prelude.{
  if◌then◌else◌, get_elem?, drop, Text, codes, same_text, ℕ, zero, suc, ◌+◌, max, ◌≡◌, refl, ap,
  none, some, List, [], ◌∷◌, map,
}
use adrouter_agent.LineDiff.{head_or_zero, fill_row, lcs_table, cell}

-- The length of a longest common subsequence, by its recurrence.
unfoldable pub lcs : List Text → List Text → ℕ
lcs [] current = 0
lcs (o ∷ original) [] = 0
lcs (o ∷ original) (c ∷ current) =
    if same_text o c
    then lcs original current + 1
    else max (lcs original (c ∷ current)) (lcs (o ∷ original) current)

-- The row that belongs to a suffix of the original.
lcs_row : List Text → List Text → List ℕ
lcs_row original [] = 0 ∷ []
lcs_row original (c ∷ current) = lcs original (c ∷ current) ∷ lcs_row original current

head-lcs_row :
    (original current : List Text) → head_or_zero (lcs_row original current) ≡ lcs original current
unfolding lcs_row lcs
head-lcs_row [] [] = refl
head-lcs_row (o ∷ original) [] = refl
head-lcs_row original (c ∷ current) = refl

fill_row-lcs_row :
    (o : Text) (original current : List Text)
    → fill_row o current (lcs_row original current) ≡ lcs_row (o ∷ original) current
unfolding fill_row lcs_row
fill_row-lcs_row o original [] = refl
fill_row-lcs_row o original (c ∷ current) =
    rw
      (
        fill_row-lcs_row o original current,
        head-lcs_row original current,
        head-lcs_row (o ∷ original) current,
      )
      (unfold lcs in refl)

zeros-lcs_row : (current : List Text) → map (λ c. 0) (codes "" ∷ current) ≡ lcs_row [] current
unfolding lcs_row lcs
zeros-lcs_row [] = refl
zeros-lcs_row (c ∷ current) = ap (λ l. 0 ∷ l) (zeros-lcs_row current)

-- The rows for all suffixes of the original.
lcs_rows : List Text → List Text → List (List ℕ)
lcs_rows [] current = lcs_row [] current ∷ []
lcs_rows (o ∷ original) current = lcs_row (o ∷ original) current ∷ lcs_rows original current

lcs_rows-head :
    (original current : List Text)
    → (later : List (List ℕ)) × (lcs_rows original current ≡ lcs_row original current ∷ later)
unfolding lcs_rows
lcs_rows-head [] current = ([], refl)
lcs_rows-head (o ∷ original) current = (lcs_rows original current, refl)

lcs_table-lcs_rows :
    (original current : List Text) → lcs_table original current ≡ lcs_rows original current
unfolding lcs_table lcs_rows
lcs_table-lcs_rows [] current = ap (λ r. r ∷ []) (zeros-lcs_row current)
lcs_table-lcs_rows (o ∷ original) current =
    let (later, split) = lcs_rows-head original current in
    rw (lcs_table-lcs_rows original current, split)
      (ap (λ r. r ∷ lcs_row original current ∷ later) (fill_row-lcs_row o original current))

cell_of_row : List ℕ → ℕ → ℕ
cell_of_row cells column = elim (get_elem? cells column) [ none ↦ 0 | some n ↦ n ]

lcs-nil : (original : List Text) → lcs original [] ≡ 0
unfolding lcs
lcs-nil [] = refl
lcs-nil (o ∷ original) = refl

cell_of_row-lcs_row :
    (original current : List Text) (j : ℕ)
    → cell_of_row (lcs_row original current) j ≡ lcs original (drop j current)
unfolding cell_of_row lcs_row
cell_of_row-lcs_row original [] zero = rw (lcs-nil original) refl
cell_of_row-lcs_row original [] (suc j) = rw (lcs-nil original) refl
cell_of_row-lcs_row original (c ∷ current) zero = refl
cell_of_row-lcs_row original (c ∷ current) (suc j) = cell_of_row-lcs_row original current j

cell-lcs_rows :
    (original current : List Text) (i j : ℕ)
    → cell (lcs_rows original current) i j ≡ lcs (drop i original) (drop j current)
unfolding cell lcs_rows
cell-lcs_rows [] current zero j = unfold cell_of_row in cell_of_row-lcs_row [] current j
cell-lcs_rows [] current (suc i) j = unfold lcs in refl
cell-lcs_rows (o ∷ original) current zero j =
    unfold cell_of_row in cell_of_row-lcs_row (o ∷ original) current j
cell-lcs_rows (o ∷ original) current (suc i) j = cell-lcs_rows original current i j

-- Every cell of the table, those beyond it included, which read as 0, holds the recursive length of
-- a longest common subsequence of the lines that are left at it.
pub cell-lcs_table :
    (original current : List Text) (i j : ℕ)
    → cell (lcs_table original current) i j ≡ lcs (drop i original) (drop j current)
cell-lcs_table original current i j =
    rw (lcs_table-lcs_rows original current) (cell-lcs_rows original current i j)
