-- ===== src/LineDiff/Walk.antt =====
-- The operations turn the original into the current lines, and keep as many lines as any can.
use adrouter_agent.Prelude.{
  leb, if◌then◌else◌, length, get_elem?, drop, Text, same_text, same_text_sound, ℕ, zero, suc, ◌+◌,
  ◌≤◌, ◌≡◌, refl, sym, ap, ◌⊎◌, inl, inr, none, some, List, [], ◌∷◌, map, arith,
}
use adrouter_agent.LineDiff.{Operation, equal, removed, added, lcs_table, walk}
use adrouter_agent.LineDiff.Table.{lcs, cell-lcs_table}

-- The walk over suffixes instead of positions, with the recurrence in place of the table.
pub plan : List Text → List Text → List Operation
plan [] current = map added current
plan (o ∷ original) [] = map removed (o ∷ original)
plan (o ∷ original) (c ∷ current) =
    if same_text o c
    then equal o ∷ plan original current
    else if leb (lcs (o ∷ original) current) (lcs original (c ∷ current))
    then removed o ∷ plan original (c ∷ current)
    else added c ∷ plan (o ∷ original) current

plan-nil : (original : List Text) → plan original [] ≡ map removed original
unfolding plan
plan-nil [] = refl
plan-nil (o ∷ original) = refl

module _ {ℓ} {A : Type ℓ} where
  pub drop-cases :
      (xs : List A) (i : ℕ)
      → ((get_elem? xs i ≡ none) × (drop i xs ≡ []))
        ⊎ ((x : A) × (get_elem? xs i ≡ some x) × (drop i xs ≡ x ∷ drop (suc i) xs))
  drop-cases [] zero = inl (refl, refl)
  drop-cases [] (suc i) = inl (refl, refl)
  drop-cases (x ∷ xs) zero = inr (x, refl, refl)
  drop-cases (x ∷ xs) (suc i) = drop-cases xs i

  empty_of_length : (xs : List A) → length xs ≤ 0 → xs ≡ []
  empty_of_length [] h = refl
  empty_of_length (x ∷ xs) h = absurd (omega arith)

-- On fuel for as many steps as lines are left, the walk over the table gives the plan: the choice
-- by longest common subsequences, with no table and no fuel.
pub walk-eq-plan :
    (fuel : ℕ) (original current : List Text) (i j : ℕ)
    → length (drop i original) + length (drop j current) ≤ fuel
    → walk fuel original current (lcs_table original current) i j
      ≡ plan (drop i original) (drop j current)
unfolding walk plan
walk-eq-plan zero original current i j h =
    rw
      (
        empty_of_length (drop i original) (omega arith),
        empty_of_length (drop j current) (omega arith),
      )
      refl
walk-eq-plan (suc fuel) original current i j h = elim (drop-cases original i) [
  | inl (ended, rest) ↦ rw (ended, walk) (rw rest refl)
  | inr (o, here, split) ↦ elim (drop-cases current j) [
    | inl (ended, rest) ↦ rw (here, ended, walk) (rw rest (sym (plan-nil (drop i original))))
    | inr (c, now, parted) ↦
        let shorter_old : length (drop i original) ≡ suc (length (drop (suc i) original)) =
          ap length split in
        let shorter_new : length (drop j current) ≡ suc (length (drop (suc j) current)) =
          ap length parted in
        rw (here, now, walk)
          (rw (split, parted)
            (ground (
              arith,
              split,
              parted,
              cell-lcs_table original current i (suc j),
              cell-lcs_table original current (suc i) j,
              walk-eq-plan fuel original current (suc i) (suc j) (omega arith),
              walk-eq-plan fuel original current (suc i) j (omega arith),
              walk-eq-plan fuel original current i (suc j) (omega arith),
            )))
  ]
]

-- The original's lines and the current ones, as the operations tell them.
abbrev pub old_side : List Operation → List Text
old_side [] = []
old_side (equal t ∷ ops) = t ∷ old_side ops
old_side (removed t ∷ ops) = t ∷ old_side ops
old_side (added t ∷ ops) = old_side ops

abbrev pub new_side : List Operation → List Text
new_side [] = []
new_side (equal t ∷ ops) = t ∷ new_side ops
new_side (removed t ∷ ops) = new_side ops
new_side (added t ∷ ops) = t ∷ new_side ops

-- How many lines are kept.
abbrev pub kept : List Operation → ℕ
kept [] = 0
kept (equal t ∷ ops) = suc (kept ops)
kept (removed t ∷ ops) = kept ops
kept (added t ∷ ops) = kept ops

pub sides-map_added :
    (ts : List Text)
    → (old_side (map added ts) ≡ []) × (new_side (map added ts) ≡ ts) × (kept (map added ts) ≡ 0)
sides-map_added [] = (refl, refl, refl)
sides-map_added (t ∷ ts) = let (a, b, c) = sides-map_added ts in (a, ap (λ l. t ∷ l) b, c)

pub sides-map_removed :
    (ts : List Text)
    → (old_side (map removed ts) ≡ ts)
      × (new_side (map removed ts) ≡ [])
      × (kept (map removed ts) ≡ 0)
sides-map_removed [] = (refl, refl, refl)
sides-map_removed (t ∷ ts) = let (a, b, c) = sides-map_removed ts in (ap (λ l. t ∷ l) a, b, c)

pub plan_old : (original current : List Text) → old_side (plan original current) ≡ original
unfolding plan
plan_old [] current = (sides-map_added current).0
plan_old (o ∷ original) [] = (sides-map_removed (o ∷ original)).0
plan_old (o ∷ original) (c ∷ current) = ground (
  arith,
  plan_old original current,
  plan_old original (c ∷ current),
  plan_old (o ∷ original) current,
)

pub plan_new : (original current : List Text) → new_side (plan original current) ≡ current
unfolding plan
plan_new [] current = (sides-map_added current).1
plan_new (o ∷ original) [] = (sides-map_removed (o ∷ original)).1
plan_new (o ∷ original) (c ∷ current) = ground (
  arith,
  same_text_sound o c,
  plan_new original current,
  plan_new original (c ∷ current),
  plan_new (o ∷ original) current,
)

pub plan_kept : (original current : List Text) → kept (plan original current) ≡ lcs original current
unfolding plan lcs
plan_kept [] current = (sides-map_added current).2
plan_kept (o ∷ original) [] = (sides-map_removed (o ∷ original)).2
plan_kept (o ∷ original) (c ∷ current) = ground (
  arith,
  plan_kept original current,
  plan_kept original (c ∷ current),
  plan_kept (o ∷ original) current,
)
