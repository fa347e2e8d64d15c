-- ===== src/LineDiff/Best.antt =====
-- The operations of the review diff: what they say of both sides, and that they keep the most.
use adrouter_agent.Prelude.{
  ltb, Bool-cases, length, Text, same_text_refl, ◌+◌, ◌*◌, ◌≤◌, ◌≡◌, refl, ap, ◌∙◌, inl, inr, false,
  List, [], ◌∷◌, ◌++◌, map, arith,
}
use mathlib.Core.Path.{subst₂, ap₂}
use mathlib.Core.List.{append-nil}
use adrouter_agent.LineDiff.{max_lcs_cells, Operation, equal, removed, added, changed_middle}
use adrouter_agent.LineDiff.Table.{lcs}
use adrouter_agent.LineDiff.Walk.{
  plan, walk-eq-plan, old_side, new_side, kept, sides-map_added, sides-map_removed, plan_old,
  plan_new, plan_kept,
}

-- One line more on a side adds at most one line to what is common, and takes none away.
lcs-cons_old_from :
    (a : List Text)
    → ((c : Text) (b : List Text) → lcs a (c ∷ b) ≤ lcs a b + 1)
    → (o : Text) (b : List Text) → lcs a b ≤ lcs (o ∷ a) b
unfolding lcs
lcs-cons_old_from [] step o b = omega arith
lcs-cons_old_from (x ∷ a) step o [] = omega arith
lcs-cons_old_from (x ∷ a) step o (c ∷ b) = ground (arith, step c b)

lcs-cons_new_le : (a : List Text) (c : Text) (b : List Text) → lcs a (c ∷ b) ≤ lcs a b + 1
unfolding lcs
lcs-cons_new_le [] c b = omega arith
lcs-cons_new_le (o ∷ a) c b =
    ground (arith, lcs-cons_new_le a c b, lcs-cons_old_from a (lcs-cons_new_le a) o b)

lcs-cons_old : (o : Text) (a b : List Text) → lcs a b ≤ lcs (o ∷ a) b
lcs-cons_old o a b = lcs-cons_old_from a (lcs-cons_new_le a) o b

lcs-cons_old_le_from :
    (a : List Text)
    → ((c : Text) (b : List Text) → lcs a b ≤ lcs a (c ∷ b))
    → (o : Text) (b : List Text) → lcs (o ∷ a) b ≤ lcs a b + 1
unfolding lcs
lcs-cons_old_le_from a grows o [] = omega arith
lcs-cons_old_le_from a grows o (c ∷ b) = ground (arith, grows c b, lcs-cons_old_le_from a grows o b)

lcs-cons_new : (a : List Text) (c : Text) (b : List Text) → lcs a b ≤ lcs a (c ∷ b)
unfolding lcs
lcs-cons_new [] c b = omega arith
lcs-cons_new (o ∷ a) c b = ground (arith, lcs-cons_old_le_from a (lcs-cons_new a) o b)

lcs-cons_same : (t : Text) (a b : List Text) → lcs (t ∷ a) (t ∷ b) ≡ lcs a b + 1
unfolding lcs
lcs-cons_same t a b = rw (same_text_refl t) refl

-- No operations keep more lines than the longest common subsequence.
kept-le-lcs : (ops : List Operation) → kept ops ≤ lcs (old_side ops) (new_side ops)
kept-le-lcs [] = omega arith
kept-le-lcs (equal t ∷ ops) =
    omega (arith, kept-le-lcs ops, lcs-cons_same t (old_side ops) (new_side ops))
kept-le-lcs (removed t ∷ ops) =
    omega (arith, kept-le-lcs ops, lcs-cons_old t (old_side ops) (new_side ops))
kept-le-lcs (added t ∷ ops) =
    omega (arith, kept-le-lcs ops, lcs-cons_new (old_side ops) t (new_side ops))

old_side-append : (xs ys : List Operation) → old_side (xs ++ ys) ≡ old_side xs ++ old_side ys
old_side-append [] ys = refl
old_side-append (equal t ∷ xs) ys = ap (λ l. t ∷ l) (old_side-append xs ys)
old_side-append (removed t ∷ xs) ys = ap (λ l. t ∷ l) (old_side-append xs ys)
old_side-append (added t ∷ xs) ys = old_side-append xs ys

new_side-append : (xs ys : List Operation) → new_side (xs ++ ys) ≡ new_side xs ++ new_side ys
new_side-append [] ys = refl
new_side-append (equal t ∷ xs) ys = ap (λ l. t ∷ l) (new_side-append xs ys)
new_side-append (removed t ∷ xs) ys = new_side-append xs ys
new_side-append (added t ∷ xs) ys = ap (λ l. t ∷ l) (new_side-append xs ys)

replaced_sides :
    (os cs : List Text)
    → (old_side (map removed os ++ map added cs) ≡ os)
      × (new_side (map removed os ++ map added cs) ≡ cs)
replaced_sides os cs =
    let (old, gone, none_kept) = sides-map_removed os in
    let (fresh, new, none_same) = sides-map_added cs in
    (
      old_side-append (map removed os) (map added cs) ∙ ap₂ ◌++◌ old fresh ∙ append-nil os,
      new_side-append (map removed os) (map added cs) ∙ ap₂ ◌++◌ gone new,
    )

-- Where the product of the lengths is within the limit, the operations are those of the plan.
changed_middle-plan :
    (o : Text) (original : List Text) (c : Text) (current : List Text)
    → ltb max_lcs_cells (length (o ∷ original) * length (c ∷ current)) ≡ false
    → changed_middle (o ∷ original) (c ∷ current) ≡ plan (o ∷ original) (c ∷ current)
unfolding changed_middle
changed_middle-plan o original c current small =
    rw (small, changed_middle)
      (walk-eq-plan (length (o ∷ original) + length (c ∷ current)) (o ∷ original) (c ∷ current) 0 0
        (omega arith))

-- The operations tell both sides in full: the original is what is kept or removed, in order, and
-- the current text is what is kept or added, also where the files are too large to compare.
pub changed_middle_sides :
    (original current : List Text)
    → (old_side (changed_middle original current) ≡ original)
      × (new_side (changed_middle original current) ≡ current)
unfolding changed_middle
changed_middle_sides [] current = ((sides-map_added current).0, (sides-map_added current).1)
changed_middle_sides (o ∷ original) [] =
    ((sides-map_removed (o ∷ original)).0, (sides-map_removed (o ∷ original)).1)
changed_middle_sides (o ∷ original) (c ∷ current) =
    elim (Bool-cases (ltb max_lcs_cells (length (o ∷ original) * length (c ∷ current)))) [
      | inl large ↦ rw (large, changed_middle) (replaced_sides (o ∷ original) (c ∷ current))
      | inr small ↦
          rw (changed_middle-plan o original c current small)
            (plan_old (o ∷ original) (c ∷ current), plan_new (o ∷ original) (c ∷ current))
    ]

kept-changed_middle :
    (original current : List Text)
    → length original * length current ≤ max_lcs_cells
    → kept (changed_middle original current) ≡ lcs original current
unfolding changed_middle lcs
kept-changed_middle [] current h = (sides-map_added current).2
kept-changed_middle (o ∷ original) [] h = (sides-map_removed (o ∷ original)).2
kept-changed_middle (o ∷ original) (c ∷ current) h =
    changed_middle-kept ∙ plan_kept (o ∷ original) (c ∷ current)
  where
    small : ltb max_lcs_cells (length (o ∷ original) * length (c ∷ current)) ≡ false
    small = ground arith

    changed_middle-kept :
        kept (changed_middle (o ∷ original) (c ∷ current))
        ≡ kept (plan (o ∷ original) (c ∷ current))
    changed_middle-kept = ap kept (changed_middle-plan o original c current small)

-- No other description of the change keeps more lines, where the product of the lengths is at most
-- four million.
pub changed_middle_best :
    (original current : List Text) (ops : List Operation)
    → length original * length current ≤ max_lcs_cells
    → old_side ops ≡ original
    → new_side ops ≡ current
    → kept ops ≤ kept (changed_middle original current)
changed_middle_best original current ops small old new =
    rw (kept-changed_middle original current small)
      (subst₂ (λ a b. kept ops ≤ lcs a b) old new (kept-le-lcs ops))
